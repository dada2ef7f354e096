-- ===== src/Text/Strict.antt =====
-- What `string2byte` accepts.
use rcdiscover.Base.{
  ℕ, zero, suc, ◌+◌, ◌*◌, ◌≡◌, refl, ap, List, [], ◌∷◌, ◌++◌, Option, none, some, Bytes, ltb,
  if◌then◌else◌, Result, ok, err, out_of_range, arith, length, All, IsByte, Holds, Holds-bind,
  Bool-cases, Option-cases, inl, inr,
}
use rcdiscover.Text.{
  getline, pieces, split, edges, digit_value, digits_value, to_byte, to_bytes, stoul, string2byte,
}

to_byte-IsByte : (base : ℕ) (s : Bytes) → Holds IsByte (to_byte base s)
unfolding to_byte
to_byte-IsByte base s =
    Holds-bind (λ _. Unit {0}) IsByte (stoul base s) _ (trivial (stoul base s)) λ v _. in_range v
  where
    trivial : (r : Result ℕ) → Holds (λ _. Unit {0}) r
    trivial (ok v) = tt
    trivial (err e) = tt

    in_range : (v : ℕ) → Holds IsByte (if ltb 255 v then err out_of_range else ok v)
    in_range v = ground arith

-- As many bytes as pieces.
abbrev pub AreBytes : ℕ → List ℕ → Type 0
AreBytes n bs = (length bs ≡ n) × All IsByte bs

to_bytes-AreBytes : (base : ℕ) (l : List Bytes) → Holds (AreBytes (length l)) (to_bytes base l)
unfolding to_bytes
to_bytes-AreBytes base [] = (refl, tt)
to_bytes-AreBytes base (s ∷ l) =
    Holds-bind IsByte (AreBytes (suc (length l))) (to_byte base s) _ (to_byte-IsByte base s) λ b hb.
      Holds-bind (AreBytes (length l)) (AreBytes (suc (length l))) (to_bytes base l) _
        (to_bytes-AreBytes base l) λ rest (e, h). (ap suc e, (hb, h))

pieces-length : (n sep : ℕ) (iss : Option Bytes) → Holds (λ l. length l ≡ n) (pieces n sep iss)
unfolding pieces
pieces-length zero sep iss = elim (Option-cases (getline sep iss)) [
  | inl e ↦ rw (e, pieces) refl
  | inr (a, e) ↦ rw (e, pieces) tt
]
pieces-length (suc n) sep iss = elim (Option-cases (getline sep iss)) [
  | inl e ↦ rw (e, pieces) tt
  | inr (a, e) ↦
      rw (e, pieces)
        (Holds-bind (λ l. length l ≡ n) (λ l. length l ≡ suc n) (pieces n sep a.1) _
          (pieces-length n sep a.1) λ l h. ap suc h)
]

split-length : (n sep : ℕ) (s : Bytes) → Holds (λ l. length l ≡ n) (split n s sep)
unfolding split
split-length n sep s = elim (Bool-cases (edges sep s)) [
  | inl e ↦ rw e tt
  | inr e ↦ rw e (pieces-length n sep (some s))
]

-- A text that is accepted yields exactly as many values as were asked for, each of them a byte.
pub string2byte-AreBytes :
    (n : ℕ) (s : Bytes) (base sep : ℕ) → Holds (AreBytes n) (string2byte n s base sep)
unfolding string2byte
string2byte-AreBytes n s base sep =
    Holds-bind (λ l. length l ≡ n) (AreBytes n) (split n s sep) _ (split-length n sep s)
      λ l h. rw (← h) (to_bytes-AreBytes base l)

-- Only the number at the start of a text counts: what stands behind it from the first byte on
-- that is no digit is ignored.
pub digits_value-append :
    (base c acc : ℕ) (s junk : Bytes)
    → digit_value base c ≡ none
    → digits_value base acc (s ++ c ∷ junk) ≡ digits_value base acc s
unfolding digits_value
digits_value-append base c acc [] junk h = rw (h, digits_value)
digits_value-append base c acc (d ∷ s) junk h = elim (Option-cases (digit_value base d)) [
  | inl e ↦ rw (e, digits_value)
  | inr (v, e) ↦ rw (e, digits_value) (digits_value-append base c (acc * base + v) s junk h)
]
