-- ===== src/Wildcard/Meaning.antt =====
-- What it means for a text to match a wildcard pattern, with no search order in it.
use rcdiscover.Base.{ℕ, ◌≡◌, ◌≢◌, true, false, [], ◌∷◌, Bytes, All, arith, ◌⊎◌}
use rcdiscover.Wildcard.{to_lower, matches_one}

-- A character stands for itself in either case, `?` for any character, `*` for any run.
pub data Matches : Bytes → Bytes → Type 0 where
  done : Matches [] []
  any : {p c : ℕ} {ps s : Bytes} → p ≡ b'?' → Matches ps s → Matches (p ∷ ps) (c ∷ s)
  same :
      {p c : ℕ} {ps s : Bytes} → to_lower p ≡ to_lower c → Matches ps s → Matches (p ∷ ps) (c ∷ s)
  leave : {p : ℕ} {ps s : Bytes} → p ≡ b'*' → Matches ps s → Matches (p ∷ ps) s
  take : {p c : ℕ} {ps s : Bytes} → p ≡ b'*' → Matches (p ∷ ps) s → Matches (p ∷ ps) (c ∷ s)

abbrev pub HeadNotStar : Bytes → Type 0
HeadNotStar [] = Unit
HeadNotStar (p ∷ ps) = p ≢ b'*'

-- A pattern with no zero byte, no two stars in a row, and question marks at its end only.
abbrev pub IsPlain : Bytes → Type 0
IsPlain [] = Unit
IsPlain (p ∷ ps) =
    (p ≢ 0) × (p ≡ b'?' → All (λ q. q ≡ b'?') ps) × (p ≡ b'*' → HeadNotStar ps) × IsPlain ps

-- A text with no star in it.
abbrev pub HasNoStar : Bytes → Type 0
HasNoStar = All (λ c. c ≢ b'*')

pub matches_one-true : (p c : ℕ) → matches_one p c ≡ true → (p ≡ b'?') ⊎ (to_lower p ≡ to_lower c)
unfolding matches_one
matches_one-true p c h = ground arith

pub matches_one-star : (p c : ℕ) → p ≡ b'*' → c ≢ b'*' → matches_one p c ≡ false
unfolding matches_one to_lower
matches_one-star p c h k = ground arith

pub matches_one-zero : (p : ℕ) → p ≢ 0 → p ≢ b'?' → matches_one p 0 ≡ false
unfolding matches_one to_lower
matches_one-zero p h k = ground arith

pub matches_one-any : (p c : ℕ) → p ≡ b'?' → matches_one p c ≡ true
unfolding matches_one
matches_one-any p c h = ground arith

pub matches_one-same : (p c : ℕ) → to_lower p ≡ to_lower c → matches_one p c ≡ true
unfolding matches_one
matches_one-same p c h = ground arith
