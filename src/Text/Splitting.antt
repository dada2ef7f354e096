-- ===== src/Text/Splitting.antt =====
-- `split` undoes the joining of pieces by a separator.
use rcdiscover.Base.{
  ℕ, suc, ◌≡◌, ◌≢◌, refl, ap, false, List, [], ◌∷◌, ◌++◌, none, some, Bytes, ok, length, All, arith,
}
use rcdiscover.Text.{cut, getline, last_or, edges, pieces, split}

abbrev pub Lacks : ℕ → Bytes → Type 0
Lacks sep = All (λ c. c ≢ sep)

-- A piece that can stand between separators.
abbrev pub IsPiece : ℕ → Bytes → Type 0
IsPiece sep [] = ⊥
IsPiece sep (c ∷ s) = Lacks sep (c ∷ s)

-- The pieces `p ∷ ps` with separators between them.
abbrev pub join : ℕ → Bytes → List Bytes → Bytes
join sep p [] = p
join sep p (q ∷ ps) = p ++ sep ∷ join sep q ps

cut-Lacks : (sep : ℕ) (p : Bytes) → Lacks sep p → cut sep p ≡ (p, none)
unfolding cut
cut-Lacks sep [] h = refl
cut-Lacks sep (c ∷ p) (h, hs) = ground (arith, cut-Lacks sep p hs)

cut-append : (sep : ℕ) (p rest : Bytes) → Lacks sep p → cut sep (p ++ sep ∷ rest) ≡ (p, some rest)
unfolding cut
cut-append sep [] rest h = ground arith
cut-append sep (c ∷ p) rest (h, hs) = ground (arith, cut-append sep p rest hs)

getline_end : (sep : ℕ) → getline sep none ≡ none
unfolding getline
getline_end sep = refl

getline_last : (sep : ℕ) (p : Bytes) → IsPiece sep p → getline sep (some p) ≡ some (p, none)
unfolding getline
getline_last sep [] h = absurd h
getline_last sep (c ∷ p) h = ap some (cut-Lacks sep (c ∷ p) h)

getline_next :
    (sep : ℕ) (p rest : Bytes)
    → IsPiece sep p
    → getline sep (some (p ++ sep ∷ rest)) ≡ some (p, some rest)
unfolding getline
getline_next sep [] rest h = absurd h
getline_next sep (c ∷ p) rest h = ap some (cut-append sep (c ∷ p) rest h)

pieces-join :
    (sep : ℕ) (p : Bytes) (ps : List Bytes)
    → IsPiece sep p
    → All (IsPiece sep) ps
    → pieces (suc (length ps)) sep (some (join sep p ps)) ≡ ok (p ∷ ps)
unfolding pieces
pieces-join sep p [] h hs = rw (getline_last sep p h, pieces, getline_end sep)
pieces-join sep p (q ∷ ps) h (hq, hs) =
    rw (getline_next sep p (join sep q ps) h, pieces, pieces-join sep q ps hq hs)

last_or-ne : (sep d : ℕ) (p : Bytes) → d ≢ sep → Lacks sep p → last_or d p ≢ sep
unfolding last_or
last_or-ne sep d [] h hs = h
last_or-ne sep d (c ∷ p) h (hc, hs) = last_or-ne sep c p hc hs

pub last_or-append : (d x : ℕ) (p s : Bytes) → last_or d (p ++ x ∷ s) ≡ last_or x s
unfolding last_or
last_or-append d x [] s = refl
last_or-append d x (c ∷ p) s = last_or-append c x p s

-- The last byte of joined pieces is no separator.
last_or-join :
    (sep d : ℕ) (p : Bytes) (ps : List Bytes)
    → IsPiece sep p
    → All (IsPiece sep) ps
    → last_or d (join sep p ps) ≢ sep
unfolding last_or
last_or-join sep d [] ps h hs = absurd h
last_or-join sep d (c ∷ p) [] (h, k) hs = last_or-ne sep c p h k
last_or-join sep d (c ∷ p) (q ∷ ps) h (hq, hs) =
    rw (last_or-append c sep p (join sep q ps)) (last_or-join sep sep q ps hq hs)

edges-head : (sep c : ℕ) (s : Bytes) → c ≢ sep → last_or c s ≢ sep → edges sep (c ∷ s) ≡ false
unfolding edges
edges-head sep c s h k = ground arith

edges-join :
    (sep : ℕ) (p : Bytes) (ps : List Bytes)
    → IsPiece sep p
    → All (IsPiece sep) ps
    → edges sep (join sep p ps) ≡ false
unfolding last_or
edges-join sep [] ps h hs = absurd h
edges-join sep (c ∷ p) [] (h, k) hs = edges-head sep c p h (last_or-ne sep c p h k)
edges-join sep (c ∷ p) (q ∷ ps) (h, k) hs =
    edges-head sep c (p ++ sep ∷ join sep q ps) h (last_or-join sep c (c ∷ p) (q ∷ ps) (h, k) hs)

-- Pieces that are not empty and hold no separator are given back by `split`, when it is asked for
-- as many as there are.
pub split-join :
    (sep : ℕ) (p : Bytes) (ps : List Bytes)
    → IsPiece sep p
    → All (IsPiece sep) ps
    → split (suc (length ps)) (join sep p ps) sep ≡ ok (p ∷ ps)
unfolding split
split-join sep p ps h hs = rw (edges-join sep p ps h hs) (pieces-join sep p ps h hs)
