-- ===== src/Gui/Layout/Inside.antt =====
-- A group whose size `checkGroupSize` accepts holds its widgets.
use rcdiscover.Base.{
  and_true, ℕ, ◌+◌, ◌≤◌, ◌≡◌, refl, ◌⊎◌, inl, inr, Bool, true, false, ◌||◌, List, [], ◌∷◌, All,
  arith, ◌==◌, ==_iff,
}
use rcdiscover.Gui.Layout.Apart.{AllApart, fits, place_all-AllApart}
use rcdiscover.Gui.Layout.{
  Widget, Edges, edges_of, widen_edge, widen_edges, is_size, check_group_size, gap_size, Place,
  place_all,
}

-- The widget lies in a group of this size.
abbrev pub IsInside : ℕ → ℕ → Widget → Type 0
IsInside w h c = (c.x + c.w ≤ w) × (c.y + c.h ≤ h)

widen_edges-grows :
    (children : List Widget) (e : Edges)
    → (e.xmax ≤ (widen_edges children e).xmax) × (e.ymax ≤ (widen_edges children e).ymax)
unfolding widen_edges
widen_edges-grows [] e = (omega arith, omega arith)
widen_edges-grows (c ∷ children) e =
    let (h, k) = widen_edges-grows children (widen_edge c e) in (omega (arith, h), omega (arith, k))

widen_edges-All :
    (children : List Widget) (e : Edges)
    → All (IsInside (widen_edges children e).xmax (widen_edges children e).ymax) children
unfolding widen_edges
widen_edges-All [] e = tt
widen_edges-All (c ∷ children) e =
    let (h, k) = widen_edges-grows children (widen_edge c e) in
    ((omega (arith, h), omega (arith, k)), widen_edges-All children (widen_edge c e))

or_true : (a b : Bool) → (a || b) ≡ true → (a ≡ true) ⊎ (b ≡ true)
or_true true b h = inl refl
or_true false b h = inr h

is_size-le : (size low high : ℕ) → is_size size (high + low) ≡ true → high ≤ size
is_size-le size low high h = elim (or_true (size == high + low) (size == high + low + gap_size) h) [
  | inl e ↦ omega (arith, (==_iff size (high + low)).0 e)
  | inr e ↦ omega (arith, (==_iff size (high + low + gap_size)).0 e)
]

All-IsInside :
    (w h w' h' : ℕ) (children : List Widget)
    → w ≤ w'
    → h ≤ h'
    → All (IsInside w h) children
    → All (IsInside w' h') children
All-IsInside w h w' h' [] p q a = tt
All-IsInside w h w' h' (c ∷ children) p q ((a, b), rest) =
    ((omega (arith, a, p), omega (arith, b, q)), All-IsInside w h w' h' children p q rest)

check_group_size-All :
    (w h : ℕ) (children : List Widget)
    → check_group_size w h children ≡ true
    → All (IsInside w h) children
unfolding check_group_size
check_group_size-All w h [] t = tt
check_group_size-All w h (c ∷ children) t =
    let e = widen_edges children (edges_of c) in
    let (a, b) = and_true (is_size w (e.xmax + e.xmin)) (is_size h (e.ymax + e.ymin)) t in
    let wide = is_size-le w e.xmin e.xmax a in
    let high = is_size-le h e.ymin e.ymax b in
    let (x, y) = widen_edges-grows children (edges_of c) in
    (
      (omega (arith, x, wide), omega (arith, y, high)),
      All-IsInside e.xmax e.ymax w h children wide high (widen_edges-All children (edges_of c)),
    )

-- If the widgets of a group were placed to the right of the last one or below all, the first one
-- anywhere, with any sizes, and `checkGroupSize` prints no warning, then no two of them overlap and
-- all of them lie inside the group.
pub check_group_size-IsInside :
    (w h : ℕ) (places : List Place)
    → fits places [] ≡ true
    → check_group_size w h (place_all places []) ≡ true
    → AllApart (place_all places []) × All (IsInside w h) (place_all places [])
check_group_size-IsInside w h places f t =
    (place_all-AllApart places f, check_group_size-All w h (place_all places []) t)
