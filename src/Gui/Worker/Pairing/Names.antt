-- ===== src/Gui/Worker/Pairing/Names.antt =====
-- What the tests on the names of two cameras say of `discoverWorker`: a left name has one partner.
use rcdiscover.Base.{
  or_false, and_true, ℕ, zero, suc, ◌+◌, ◌≡◌, ◌≢◌, refl, sym, ◌∙◌, ap, ap₂, Bool, true, false, not,
  ◌&&◌, ◌||◌, Bool-cases, inl, inr, List, [], ◌∷◌, Option, none, some, Bytes, length, text_eq, ◌==◌,
  ==_iff, arith, is_empty,
}
use rcdiscover.Text.{last_or}
use rcdiscover.Gui.Inputs.Choice.{text_eq-eq}
use rcdiscover.Gui.Worker.{Camera, camera_at}
use rcdiscover.Gui.Worker.Pairing.{name_of, front, is_left, is_partner, has_namesake}

and_false : (a : Bool) → (a && false) ≡ false
and_false a = ground arith

pub no_partner_left : (lname : Bytes) → is_partner lname [] ≡ false
unfolding is_partner last_or
no_partner_left lname = ap (λ b. b && text_eq (front lname) []) (and_false (length lname == 0))

abbrev PartnerTests : Bytes → Bytes → Type 0
PartnerTests lname rname =
    (length lname ≡ length rname) × (last_or 0 rname ≡ b'R') × (front lname ≡ front rname)

partner_tests : (lname rname : Bytes) → is_partner lname rname ≡ true → PartnerTests lname rname
unfolding is_partner
partner_tests lname rname h =
    let (q, c) =
      and_true (length lname == length rname && last_or 0 rname == b'R')
        (text_eq (front lname) (front rname)) h in
    let (a, b) = and_true (length lname == length rname) (last_or 0 rname == b'R') q in
    (
      (==_iff (length lname) (length rname)).0 a,
      (==_iff (last_or 0 rname) b'R').0 b,
      text_eq-eq (front lname) (front rname) c,
    )

abbrev head_or : ℕ → Bytes → ℕ
head_or d [] = d
head_or d (c ∷ s) = c

abbrev tail : Bytes → Bytes
tail [] = []
tail (c ∷ s) = s

-- A text is its front and its last character.
pub front-last :
    (d : ℕ) (s t : Bytes)
    → length s ≡ length t
    → last_or d s ≡ last_or d t
    → front s ≡ front t
    → s ≡ t
unfolding last_or
front-last d [] [] l e f = refl
front-last d [] (c ∷ t) l e f = absurd (omega (arith, l))
front-last d (c ∷ s) [] l e f = absurd (omega (arith, l))
front-last d (a ∷ []) (b ∷ []) l e f = ap (λ c. c ∷ []) e
front-last d (a ∷ []) (b ∷ c ∷ t) l e f = absurd (omega (arith, l))
front-last d (a ∷ b ∷ s) (c ∷ []) l e f = absurd (omega (arith, l))
front-last d (a ∷ b ∷ s) (c ∷ e' ∷ t) l e f =
    ap₂ (λ x r. x ∷ r) (ap (head_or 0) f)
      (front-last a (b ∷ s) (e' ∷ t) (omega (arith, l)) e (ap tail f))

pub partner_unique :
    (lname r₁ r₂ : Bytes) → is_partner lname r₁ ≡ true → is_partner lname r₂ ≡ true → r₁ ≡ r₂
partner_unique lname r₁ r₂ h₁ h₂ =
    let (l₁, e₁, f₁) = partner_tests lname r₁ h₁ in
    let (l₂, e₂, f₂) = partner_tests lname r₂ h₂ in
    front-last 0 r₁ r₂ (sym l₁ ∙ l₂) (e₁ ∙ sym e₂) (sym f₁ ∙ f₂)

-- The two names of a pair differ.
pub partner-other :
    (lname rname : Bytes) → is_left lname ≡ true → is_partner lname rname ≡ true → lname ≢ rname
unfolding is_left
partner-other lname rname h p e =
    let (a, b) = and_true (not (is_empty lname)) (last_or 0 lname == b'L') h in
    let (l, r, f) = partner_tests lname rname p in
    absurd (omega (arith, (==_iff (last_or 0 lname) b'L').0 b, r, ap (last_or 0) e))

namesake_test :
    (a b l r : Bool) → a ≡ false → b ≡ false → (not a && not b && (l || r)) ≡ false → r ≡ false
namesake_test a b l r h₁ h₂ h = ground arith

not_same : (a b : ℕ) → a ≢ b → (a == b) ≡ false
not_same a b n = elim (Bool-cases (a == b)) [ inl t ↦ absurd (n ((==_iff a b).0 t)) | inr f ↦ f ]

-- No other pointer that is left has one of the two names.
pub has_namesake-names :
    (i k : ℕ) (lname rname : Bytes) (j : ℕ) (all : List (Option Camera))
    → has_namesake i k lname rname j all ≡ false
    → (m : ℕ) (c : Camera) → camera_at all m ≡ some c
    → j + m ≢ i
    → j + m ≢ k
    → text_eq (name_of (some c)) rname ≡ false
unfolding has_namesake
has_namesake-names i k lname rname j [] h m c e n₁ n₂ = cc
has_namesake-names i k lname rname j (none ∷ all) h zero c e n₁ n₂ = cc
has_namesake-names i k lname rname j (none ∷ all) h (suc m) c e n₁ n₂ =
    has_namesake-names i k lname rname (suc j) all h m c e (λ x. n₁ (omega (arith, x)))
      (λ x. n₂ (omega (arith, x)))
has_namesake-names i k lname rname j (some d ∷ all) h zero c e n₁ n₂ =
    let (a, b) =
      or_false
        (not (j == i)
          && not (j == k)
          && (text_eq (name_of (some d)) lname || text_eq (name_of (some d)) rname))
        (has_namesake i k lname rname (suc j) all) h in
    ap (λ o. text_eq (name_of o) rname) (sym e)
    ∙ namesake_test (j == i) (j == k) (text_eq (name_of (some d)) lname)
        (text_eq (name_of (some d)) rname) (not_same j i (λ x. n₁ (omega (arith, x))))
        (not_same j k (λ x. n₂ (omega (arith, x)))) a
has_namesake-names i k lname rname j (some d ∷ all) h (suc m) c e n₁ n₂ =
    let (a, b) =
      or_false
        (not (j == i)
          && not (j == k)
          && (text_eq (name_of (some d)) lname || text_eq (name_of (some d)) rname))
        (has_namesake i k lname rname (suc j) all) h in
    has_namesake-names i k lname rname (suc j) all b m c e (λ x. n₁ (omega (arith, x)))
      (λ x. n₂ (omega (arith, x)))
