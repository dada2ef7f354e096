-- ===== src/Wildcard/Correct.antt =====
-- The matcher against the meaning of patterns.
use rcdiscover.Base.{
  ℕ, ◌≡◌, ◌≢◌, refl, ◌↔◌, Bool, true, false, [], ◌∷◌, Option, none, some, Bytes, All, arith, ◌==◌,
  ==_iff, is_empty, ◌⊎◌, inl, inr, Bool-cases,
}
use rcdiscover.Wildcard.{past, or_else, matches_one, wildcard_match}
use rcdiscover.Wildcard.Meaning.{
  Matches, done, any, same, leave, take, IsPlain, HasNoStar, matches_one-true, matches_one-star,
  matches_one-zero, matches_one-any, matches_one-same,
}

past-ne-true : (ps : Bytes) → past ps ≢ some true
unfolding past
past-ne-true [] h = cc
past-ne-true (p ∷ ps) h = ground (arith, past-ne-true ps)

past-question : (ps : Bytes) → All (λ q. q ≡ b'?') ps → past ps ≡ some false
unfolding past
past-question [] h = refl
past-question (p ∷ ps) (h, hs) = ground (arith, past-question ps hs)

or_else-true : (a b : Option Bool) → or_else a b ≡ some true → (a ≡ some true) ⊎ (b ≡ some true)
or_else-true none b h = cc
or_else-true (some true) b h = inl refl
or_else-true (some false) b h = inr h

matches_by_one :
    (p c : ℕ) (ps s : Bytes) → matches_one p c ≡ true → Matches ps s → Matches (p ∷ ps) (c ∷ s)
matches_by_one p c ps s h m = elim (matches_one-true p c h) [ inl e ↦ any e m | inr e ↦ same e m ]

-- The last part of the pattern, at the end of the text.
at_end : (p : ℕ) (ps : Bytes) → wildcard_match [] (p ∷ ps) ≡ some true → (p ≡ b'*') × (ps ≡ [])
unfolding wildcard_match
at_end p [] h = ground (arith, past-ne-true [])
at_end p (q ∷ ps) h = ground (arith, past-ne-true (q ∷ ps))

star_alone : (p : ℕ) (ps : Bytes) → p ≡ b'*' → ps ≡ [] → Matches (p ∷ ps) []
star_alone p [] e f = leave e done
star_alone p (q ∷ ps) e f = cc

-- A text that is accepted matches, whatever text and pattern hold.
pub wildcard_match_sound : (s p : Bytes) → wildcard_match s p ≡ some true → Matches p s
unfolding wildcard_match
wildcard_match_sound [] [] h = done
wildcard_match_sound [] (p ∷ ps) h = let (e, f) = at_end p ps h in star_alone p ps e f
wildcard_match_sound (c ∷ s) [] h = cc
wildcard_match_sound (c ∷ s) (p ∷ ps) h = elim (Bool-cases (matches_one p c)) [
  | inl e ↦ matches_by_one p c ps s e (wildcard_match_sound s ps (rw (e, wildcard_match) at h))
  | inr e ↦ elim (Bool-cases (p == b'*')) [
    | inr f ↦ cc (rw (e, f, wildcard_match) at h)
    | inl f ↦
        elim (or_else-true (wildcard_match s (p ∷ ps)) (wildcard_match (c ∷ s) ps)
          (rw (e, f, wildcard_match) at h)) [
            | inl g ↦ take ((==_iff p b'*').0 f) (wildcard_match_sound s (p ∷ ps) g)
            | inr g ↦ leave ((==_iff p b'*').0 f) (wildcard_match_sound (c ∷ s) ps g)
          ]
  ]
]

or_else_total :
    (a b : Option Bool)
    → (x : Bool) × (a ≡ some x)
    → (y : Bool) × (b ≡ some y)
    → (z : Bool) × (or_else a b ≡ some z)
or_else_total a b (true, e) t = rw e (true, refl)
or_else_total a b (false, e) t = rw e t

-- For a plain pattern the search reads nothing behind the text and answers.
pub wildcard_match_total : (s p : Bytes) → IsPlain p → (b : Bool) × (wildcard_match s p ≡ some b)
unfolding wildcard_match
wildcard_match_total [] [] h = (true, refl)
wildcard_match_total [] (p ∷ ps) (nz, q, _, _) = elim (Bool-cases (p == b'*')) [
  | inl e ↦ (is_empty ps, rw e)
  | inr e ↦ elim (Bool-cases (matches_one p 0)) [
    | inr f ↦ (false, rw (e, f))
    | inl f ↦ (false, rw (e, f) (past-question ps (q (question p nz f))))
  ]
]
  where
    question : (p : ℕ) → p ≢ 0 → matches_one p 0 ≡ true → p ≡ b'?'
    question p nz f = elim (Bool-cases (p == b'?')) [
      | inl g ↦ (==_iff p b'?').0 g
      | inr g ↦ cc (f, matches_one-zero p nz (λ k. cc (g, (==_iff p b'?').1 k)))
    ]
wildcard_match_total (c ∷ s) [] h = (false, refl)
wildcard_match_total (c ∷ s) (p ∷ ps) h = elim (Bool-cases (matches_one p c)) [
  | inl e ↦ rw (e, wildcard_match) (wildcard_match_total s ps h.3)
  | inr e ↦ elim (Bool-cases (p == b'*')) [
    | inr f ↦ rw (e, f, wildcard_match) (false, refl)
    | inl f ↦
        rw (e, f, wildcard_match)
          (or_else_total _ _ (wildcard_match_total s (p ∷ ps) h)
            (wildcard_match_total (c ∷ s) ps h.3))
  ]
]

or_else-right : (a : Option Bool) (x : Bool) → a ≡ some x → or_else a (some true) ≡ some true
or_else-right a true e = rw e
or_else-right a false e = rw e

-- A step that takes one character with one of the pattern.
by_one :
    (p c : ℕ) (ps s : Bytes)
    → IsPlain (p ∷ ps)
    → c ≢ b'*'
    → matches_one p c ≡ true
    → Matches (p ∷ ps) (c ∷ s)
    → Matches ps s
by_one p c ps s h n e (any _ m) = m
by_one p c ps s h n e (same _ m) = m
by_one p c ps s h n e (leave f m) = cc (e, matches_one-star p c f n)
by_one p c ps s h n e (take f m) = cc (e, matches_one-star p c f n)

-- A match at the end of the text is by a star that ends the pattern.
end_star : (p : ℕ) (ps : Bytes) → IsPlain (p ∷ ps) → Matches (p ∷ ps) [] → (p ≡ b'*') × (ps ≡ [])
end_star p [] h (leave e m) = (e, refl)
end_star p (q ∷ ps) h (leave e (leave f m)) = absurd (h.2 e f)

-- Without one-character steps the pattern starts with a star, which takes a character or ends.
by_star :
    (p c : ℕ) (ps s : Bytes)
    → matches_one p c ≡ false
    → Matches (p ∷ ps) (c ∷ s)
    → (p ≡ b'*') × (Matches (p ∷ ps) s ⊎ Matches ps (c ∷ s))
by_star p c ps s e (any f m) = cc (e, matches_one-any p c f)
by_star p c ps s e (same f m) = cc (e, matches_one-same p c f)
by_star p c ps s e (leave f m) = (f, inr m)
by_star p c ps s e (take f m) = (f, inl m)

wildcard_match_complete :
    (s p : Bytes) → IsPlain p → HasNoStar s → Matches p s → wildcard_match s p ≡ some true
unfolding wildcard_match
wildcard_match_complete [] [] h n m = refl
wildcard_match_complete [] (p ∷ ps) h n m =
    let (e, f) = end_star p ps h m in rw ((==_iff p b'*').1 e, f)
wildcard_match_complete (c ∷ s) [] h n m = elim m [ ]
wildcard_match_complete (c ∷ s) (p ∷ ps) h (n, ns) m = elim (Bool-cases (matches_one p c)) [
  | inl e ↦ rw (e, wildcard_match) (wildcard_match_complete s ps h.3 ns (by_one p c ps s h n e m))
  | inr e ↦
      let (f, rest) = by_star p c ps s e m in
      let (x, t) = wildcard_match_total s (p ∷ ps) h in
      elim rest [
        | inl k ↦
            rw (e, (==_iff p b'*').1 f, wildcard_match, wildcard_match_complete s (p ∷ ps) h ns k)
        | inr k ↦
            rw
              (
                e,
                (==_iff p b'*').1 f,
                wildcard_match,
                wildcard_match_complete (c ∷ s) ps h.3 (n, ns) k,
              )
              (or_else-right _ x t)
      ]
]

-- For a plain pattern and a text with no star, `wildcardMatch` answers true exactly on the texts
-- that match, false on the others, and never reads behind the text.
pub wildcard_match_iff :
    (s p : Bytes)
    → IsPlain p
    → HasNoStar s
    → ((wildcard_match s p ≡ some true) ↔ Matches p s) × (wildcard_match s p ≢ none)
wildcard_match_iff s p h n =
    let (b, e) = wildcard_match_total s p h in
    ((wildcard_match_sound s p, wildcard_match_complete s p h n), λ f. cc (e, f))

-- At the end of the text, a question mark with any byte other than a question mark behind it makes
-- the search read behind the text.
pub wildcard_match_overrun :
    (q : ℕ) (ps : Bytes) → q ≢ b'?' → wildcard_match [] (b'?' ∷ q ∷ ps) ≡ none
unfolding wildcard_match past matches_one
wildcard_match_overrun q ps h = ground arith
