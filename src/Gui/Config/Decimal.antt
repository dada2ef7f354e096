-- ===== src/Gui/Config/Decimal.antt =====
-- Integers are read back from their prints.
use rcdiscover.Base.{
  ℕ, zero, suc, ◌+◌, ◌*◌, ◌/◌, ◌%◌, ◌^◌, ◌≤◌, ◌<◌, ◌≡◌, refl, ap, ◌∙◌, true, false, Bool-cases, inl,
  inr, [], ◌∷◌, ◌++◌, append_assoc, append-nil, sym, Bytes, some, All, All-append, is_empty, ltb,
  ltb→lt, leb, ok, arith,
}
use rcdiscover.Text.{is_space, skip_space, digits_value, digit_value, starts_with_digit}
use rcdiscover.Gui.Config.{ℤ, pos, negsuc, stoi, stoi_digits, signed_int, digits, print_int}

-- `10 ^ k`.
abbrev pow10 : ℕ → ℕ
pow10 zero = 1
pow10 (suc k) = 10 * pow10 k

digit : (d : ℕ) → d < 10 → digit_value 10 (b'0' + d) ≡ some d
unfolding digit_value
digit d h = ground arith

digits_value-one :
    (acc d : ℕ) (t : Bytes)
    → d < 10
    → digits_value 10 acc ((b'0' + d) ∷ t) ≡ digits_value 10 (acc * 10 + d) t
unfolding digits_value
digits_value-one acc d t h = rw (digits_value, digit d h) refl

digits_value-digits :
    (k n : ℕ) (t : Bytes) → n < pow10 k → digits_value 10 0 (digits k n ++ t) ≡ digits_value 10 n t
unfolding digits
digits_value-digits zero n t h = ap (λ m. digits_value 10 m t) (omega (arith, h))
digits_value-digits (suc k) n t h = elim (Bool-cases (ltb n 10)) [
  | inl e ↦
      rw (digits, e)
        (digits_value-one 0 n t (ltb→lt n 10 e) ∙ ap (λ m. digits_value 10 m t) (omega arith))
  | inr e ↦
      rw (digits, e, append_assoc (digits k (n / 10)) ((b'0' + n % 10) ∷ []) t)
        (digits_value-digits k (n / 10) ((b'0' + n % 10) ∷ t) (omega (arith, h))
          ∙ (digits_value-one (n / 10) (n % 10) t (omega arith)
              ∙ ap (λ m. digits_value 10 m t) (omega arith)))
]

-- A character of a printed number.
abbrev pub IsDigit : ℕ → Type 0
IsDigit c = (b'0' ≤ c) × (c ≤ b'9')

digits-IsDigit : (k n : ℕ) → All IsDigit (digits k n)
unfolding digits
digits-IsDigit zero n = tt
digits-IsDigit (suc k) n = elim (Bool-cases (ltb n 10)) [
  | inl e ↦ rw (digits, e) ((omega arith, omega (arith, ltb→lt n 10 e)), tt)
  | inr e ↦
      rw (digits, e)
        (All-append IsDigit (digits k (n / 10)) ((b'0' + n % 10) ∷ []) (digits-IsDigit k (n / 10))
          ((omega arith, omega arith), tt))
]

nonempty-snoc : (s : Bytes) (c : ℕ) → is_empty (s ++ c ∷ []) ≡ false
nonempty-snoc [] c = refl
nonempty-snoc (d ∷ s) c = refl

digits-nonempty : (k n : ℕ) → is_empty (digits (suc k) n) ≡ false
unfolding digits
digits-nonempty k n = elim (Bool-cases (ltb n 10)) [
  | inl e ↦ rw (digits, e) refl
  | inr e ↦ rw (digits, e) (nonempty-snoc (digits k (n / 10)) (b'0' + n % 10))
]

-- A text that starts with a digit starts with no sign and no space.
record Starts (s : Bytes) : Type 0 where
  number : starts_with_digit 10 s ≡ true
  bare : skip_space s ≡ s
  unsigned : signed_int s ≡ stoi_digits false s

digit-Starts : (s : Bytes) → All IsDigit s → is_empty s ≡ false → Starts s
unfolding skip_space is_space signed_int digit_value
digit-Starts [] h e = cc
digit-Starts (c ∷ s) ((l, m), h) e = record {
  number = ground arith;
  bare = ground arith;
  unsigned = ground arith;
}

-- The integers of 32 bits.
abbrev pub IsInt : ℤ → Type 0
IsInt (pos n) = n < 2 ^ 31
IsInt (negsuc n) = n < 2 ^ 31

digits_value-print : (n : ℕ) → n < pow10 10 → digits_value 10 0 (digits 10 n) ≡ n
unfolding digits_value
digits_value-print n h =
    ap (digits_value 10 0) (sym (append-nil (digits 10 n))) ∙ digits_value-digits 10 n [] h

leb-true : (a b : ℕ) → a ≤ b → leb a b ≡ true
leb-true a b h = ground arith

ltb-true : (a b : ℕ) → a < b → ltb a b ≡ true
ltb-true a b h = ground arith

stoi_digits-pos : (n : ℕ) → n < 2 ^ 31 → stoi_digits false (digits 10 n) ≡ ok (pos n)
unfolding stoi_digits
stoi_digits-pos n h =
    let s = digit-Starts (digits 10 n) (digits-IsDigit 10 n) (digits-nonempty 9 n) in
    rw (stoi_digits, s.number, digits_value-print n (omega (arith, h)), ltb-true n (2 ^ 31) h) refl

stoi_digits-neg : (n : ℕ) → n < 2 ^ 31 → stoi_digits true (digits 10 (suc n)) ≡ ok (negsuc n)
unfolding stoi_digits
stoi_digits-neg n h =
    let s =
      digit-Starts (digits 10 (suc n)) (digits-IsDigit 10 (suc n)) (digits-nonempty 9 (suc n)) in
    rw
      (
        stoi_digits,
        s.number,
        digits_value-print (suc n) (omega (arith, h)),
        leb-true (suc n) (2 ^ 31) (omega (arith, h)),
      )
      refl

minus : (s : Bytes) → stoi (b'-' ∷ s) ≡ stoi_digits true s
unfolding stoi skip_space is_space signed_int
minus s = refl

-- An integer of 32 bits is read back from its print.
pub stoi-print_int : (z : ℤ) → IsInt z → stoi (print_int z) ≡ ok z
unfolding stoi print_int
stoi-print_int (pos n) h =
    let s = digit-Starts (digits 10 n) (digits-IsDigit 10 n) (digits-nonempty 9 n) in
    rw (stoi, s.bare, s.unsigned) (stoi_digits-pos n h)
stoi-print_int (negsuc n) h = minus (digits 10 (suc n)) ∙ stoi_digits-neg n h

-- What `>>` reads as one word.
pub record IsWord (s : Bytes) : Type 0 where
  pub no_space : All (λ c. is_space c ≡ false) s
  pub nonempty : is_empty s ≡ false

digits-no_space : (s : Bytes) → All IsDigit s → All (λ c. is_space c ≡ false) s
unfolding is_space
digits-no_space [] h = tt
digits-no_space (c ∷ s) (h, hs) = (ground arith, digits-no_space s hs)

pub print_int-IsWord : (z : ℤ) → IsWord (print_int z)
unfolding print_int is_space
print_int-IsWord (pos n) = record {
  no_space = digits-no_space (digits 10 n) (digits-IsDigit 10 n);
  nonempty = digits-nonempty 9 n;
}
print_int-IsWord (negsuc n) = record {
  no_space = (refl, digits-no_space (digits 10 (suc n)) (digits-IsDigit 10 (suc n)));
  nonempty = refl;
}
