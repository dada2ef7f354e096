-- ===== src/Gui/Layout/Apart.antt =====
-- Widgets that are placed to the right or below do not overlap.
use rcdiscover.Base.{
  and_true, ℕ, ◌+◌, ◌≤◌, max, ◌≡◌, refl, sym, subst, ◌⊎◌, inl, inr, List, [], ◌∷◌, ◌++◌, All,
  All-append, arith, Bool, true, ◌&&◌, leb, leb→le, is_empty,
}
use rcdiscover.Gui.Layout.{
  Widget, last_child, add_right_x, add_right_y, below_all, add_below_y, add_right, add_below,
  gap_size, Place, right_of, below_of, beside, first_at, place_one, place_all,
}

-- The rectangles have no point of their insides in common.
abbrev pub AreApart : Widget → Widget → Type 0
AreApart c d = (c.x + c.w ≤ d.x) ⊎ ((d.x + d.w ≤ c.x) ⊎ ((c.y + c.h ≤ d.y) ⊎ (d.y + d.h ≤ c.y)))

abbrev pub AllApart : List Widget → Type 0
AllApart [] = Unit
AllApart (c ∷ children) = All (AreApart c) children × AllApart children

abbrev pub right_edge : List Widget → ℕ
right_edge [] = 0
right_edge (c ∷ children) = let last = last_child c children in last.x + last.w

-- A widget at a given x is to the right of the last one, and only the first one stands anywhere.
abbrev pub fits_one : Place → List Widget → Bool
fits_one (right_of dx w h) children = true
fits_one (below_of dy w h) children = true
fits_one (beside x w h) children = leb (right_edge children) x
fits_one (first_at x y w h) children = is_empty children

unfoldable pub fits : List Place → List Widget → Bool
fits [] children = true
fits (p ∷ places) children = fits_one p children && fits places (place_one p children)

-- A widget is above the last one, or does not reach behind it.
abbrev IsBefore : Widget → Widget → Type 0
IsBefore last c = (c.y + c.h ≤ last.y) ⊎ (c.x + c.w ≤ last.x + last.w)

abbrev AllBefore : List Widget → Type 0
AllBefore [] = Unit
AllBefore (c ∷ children) = All (IsBefore (last_child c children)) (c ∷ children)

All-map :
    {A : Type 0} {P Q : A → Type 0} (xs : List A) → ((a : A) → P a → Q a) → All P xs → All Q xs
All-map [] f h = tt
All-map (x ∷ xs) f (p, h) = (f x p, All-map xs f h)

AllApart-snoc :
    (children : List Widget) (d : Widget)
    → AllApart children
    → All (λ c. AreApart c d) children
    → AllApart (children ++ d ∷ [])
AllApart-snoc [] d h k = (tt, tt)
AllApart-snoc (c ∷ children) d (h, hs) (k, ks) =
    (All-append (AreApart c) children (d ∷ []) h (k, tt), AllApart-snoc children d hs ks)

last_child-snoc :
    (c : Widget) (children : List Widget) (d : Widget) → last_child c (children ++ d ∷ []) ≡ d
last_child-snoc c [] d = refl
last_child-snoc c (e ∷ children) d = last_child-snoc e children d

AllBefore-snoc :
    (children : List Widget) (d : Widget)
    → All (IsBefore d) children
    → AllBefore (children ++ d ∷ [])
AllBefore-snoc [] d h = (inr (omega arith), tt)
AllBefore-snoc (c ∷ children) d (h, hs) =
    subst (λ l. All (IsBefore l) (c ∷ (children ++ d ∷ []))) (sym (last_child-snoc c children d))
      (h, All-append (IsBefore d) children (d ∷ []) hs (inr (omega arith), tt))

-- A widget to the right of the last one.
right_of_last :
    (last d c : Widget)
    → last.x + last.w ≤ d.x
    → d.y ≡ last.y
    → IsBefore last c
    → AreApart c d × IsBefore d c
right_of_last last d c hx hy (inl e) =
    (inr (inr (inl (omega (arith, e, hy)))), inl (omega (arith, e, hy)))
right_of_last last d c hx hy (inr e) = (inl (omega (arith, e, hx)), inr (omega (arith, e, hx)))

-- A widget below all of them.
below_all_of : (d c : Widget) → c.y + c.h ≤ d.y → AreApart c d × IsBefore d c
below_all_of d c h = (inr (inr (inl h)), inl h)

ret-below_all : (gap ret : ℕ) (children : List Widget) → ret ≤ below_all gap ret children
unfolding below_all
ret-below_all gap ret [] = omega arith
ret-below_all gap ret (c ∷ children) =
    omega (arith, ret-below_all gap (max ret (c.y + c.h + gap)) children)

below_all-All :
    (gap ret dy : ℕ) (children : List Widget)
    → All (λ c. c.y + c.h ≤ below_all gap ret children + dy) children
unfolding below_all
below_all-All gap ret dy [] = tt
below_all-All gap ret dy (c ∷ children) =
    let next = max ret (c.y + c.h + gap) in
    (omega (arith, ret-below_all gap next children), below_all-All gap next dy children)

-- No widget overlaps another one, and none reaches behind the last one beside it.
record Placed (children : List Widget) : Type 0 where
  apart : AllApart children
  before : AllBefore children

Placed-snoc :
    (children : List Widget) (d : Widget)
    → AllApart children
    → All (λ c. AreApart c d × IsBefore d c) children
    → Placed (children ++ d ∷ [])
Placed-snoc children d h k = record {
  apart = AllApart-snoc children d h (All-map children (λ c r. r.0) k);
  before = AllBefore-snoc children d (All-map children (λ c r. r.1) k);
}

add_right-Placed :
    (gap dx w h : ℕ) (children : List Widget)
    → Placed children
    → Placed (add_right gap dx w h children)
unfolding add_right add_right_x add_right_y
add_right-Placed gap dx w h [] p = Placed-snoc [] _ tt tt
add_right-Placed gap dx w h (c ∷ children) p = Placed-snoc (c ∷ children) _ p.apart (
    All-map (c ∷ children) (λ e b. right_of_last (last_child c children) _ e (omega arith) refl b)
      p.before)

add_below-Placed :
    (gap dy w h : ℕ) (children : List Widget)
    → Placed children
    → Placed (add_below gap dy w h children)
unfolding add_below add_below_y
add_below-Placed gap dy w h children p =
    Placed-snoc children _ p.apart
      (All-map children (λ c e. below_all_of _ c e) (below_all-All gap gap dy children))

beside-Placed :
    (x w h : ℕ) (children : List Widget)
    → Placed children
    → right_edge children ≤ x
    → Placed (place_one (beside x w h) children)
unfolding place_one add_right_y
beside-Placed x w h [] p le = Placed-snoc [] _ tt tt
beside-Placed x w h (c ∷ children) p le =
    Placed-snoc (c ∷ children) _ p.apart
      (All-map (c ∷ children) (λ e b. right_of_last (last_child c children) _ e le refl b) p.before)

first_at-Placed :
    (x y w h : ℕ) (children : List Widget)
    → is_empty children ≡ true
    → Placed (place_one (first_at x y w h) children)
unfolding place_one
first_at-Placed x y w h [] e = Placed-snoc [] _ tt tt
first_at-Placed x y w h (c ∷ children) e = cc

place_one-Placed :
    (p : Place) (children : List Widget)
    → Placed children
    → fits_one p children ≡ true
    → Placed (place_one p children)
unfolding place_one
place_one-Placed (right_of dx w h) children q f = add_right-Placed gap_size dx w h children q
place_one-Placed (below_of dy w h) children q f = add_below-Placed gap_size dy w h children q
place_one-Placed (beside x w h) children q f =
    beside-Placed x w h children q (leb→le (right_edge children) x f)
place_one-Placed (first_at x y w h) children q f = first_at-Placed x y w h children f

place_all-Placed :
    (places : List Place) (children : List Widget)
    → Placed children
    → fits places children ≡ true
    → Placed (place_all places children)
unfolding place_all fits
place_all-Placed [] children q f = q
place_all-Placed (p ∷ places) children q f =
    let (a, b) = and_true (fits_one p children) (fits places (place_one p children)) f in
    place_all-Placed places (place_one p children) (place_one-Placed p children q a) b

-- Widgets that are placed to the right of the last one or below all do not overlap.
pub place_all-AllApart :
    (places : List Place) → fits places [] ≡ true → AllApart (place_all places [])
place_all-AllApart places f =
    (place_all-Placed places [] (record { apart = tt; before = tt }) f).apart
