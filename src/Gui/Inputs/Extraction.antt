-- ===== src/Gui/Inputs/Extraction.antt =====
-- How `>>` reads the printed bytes of an address.
use rcdiscover.Base.{
  ℕ, ◌+◌, ◌*◌, ◌/◌, ◌%◌, ◌∙◌, Bool-cases, inl, inr, ltb→lt, ◌<◌, ◌≤◌, ◌≡◌, refl, false, [], ◌∷◌,
  ◌++◌, Bytes, none, some, is_empty, leb, ltb, ◌==◌, arith,
}
use rcdiscover.Text.{
  hex_digit, hex_byte, decimal, skip_space, is_space, digit_value, starts_with_digit,
}
use rcdiscover.Gui.Inputs.{
  In, open_in, number_digits, skip_hex, number_value, signed_number, extract, extract_number,
  extract_char,
}

-- The text goes on with no digit.
abbrev pub Stops : ℕ → Bytes → Type 0
Stops base [] = Unit
Stops base (c ∷ s) = digit_value base c ≡ none

abbrev pub after : Bytes → In
after s = record { rest = s; eof = is_empty s; fail = false }

digit_value-decimal : (d : ℕ) → d < 10 → digit_value 10 (b'0' + d) ≡ some d
unfolding digit_value
digit_value-decimal d h = ground arith

digit_value-hex : (d : ℕ) → d < 16 → digit_value 16 (hex_digit d) ≡ some d
unfolding digit_value hex_digit
digit_value-hex d h = ground arith

number_digits-stop : (base acc : ℕ) (s : Bytes) → Stops base s → number_digits base acc s ≡ (acc, s)
unfolding number_digits
number_digits-stop base acc [] h = refl
number_digits-stop base acc (c ∷ s) h = rw (number_digits, h) refl

number_digits-one :
    (base acc c d : ℕ) (s : Bytes)
    → digit_value base c ≡ some d
    → number_digits base acc (c ∷ s) ≡ number_digits base (acc * base + d) s
unfolding number_digits
number_digits-one base acc c d s h = rw (number_digits, h) refl

two_digits :
    (d e : ℕ) (s : Bytes)
    → d < 10
    → e < 10
    → Stops 10 s
    → number_digits 10 0 ((b'0' + d) ∷ (b'0' + e) ∷ s) ≡ (d * 10 + e, s)
two_digits d e s hd he k =
    rw
      (
        number_digits-one 10 0 (b'0' + d) d ((b'0' + e) ∷ s) (digit_value-decimal d hd),
        number_digits-one 10 (0 * 10 + d) (b'0' + e) e s (digit_value-decimal e he),
        number_digits-stop 10 ((0 * 10 + d) * 10 + e) s k,
      )
      (λ i. (plain i, s))
  where
    plain : (0 * 10 + d) * 10 + e ≡ d * 10 + e
    plain = omega arith

three_digits :
    (d e f : ℕ) (s : Bytes)
    → d < 10
    → e < 10
    → f < 10
    → Stops 10 s
    → number_digits 10 0 ((b'0' + d) ∷ (b'0' + e) ∷ (b'0' + f) ∷ s) ≡ (d * 100 + e * 10 + f, s)
three_digits d e f s hd he hf k =
    rw
      (
        number_digits-one 10 0 (b'0' + d) d ((b'0' + e) ∷ (b'0' + f) ∷ s)
            (digit_value-decimal d hd),
        number_digits-one 10 (0 * 10 + d) (b'0' + e) e ((b'0' + f) ∷ s) (digit_value-decimal e he),
        number_digits-one 10 ((0 * 10 + d) * 10 + e) (b'0' + f) f s (digit_value-decimal f hf),
        number_digits-stop 10 (((0 * 10 + d) * 10 + e) * 10 + f) s k,
      )
      (λ i. (plain i, s))
  where
    plain : ((0 * 10 + d) * 10 + e) * 10 + f ≡ d * 100 + e * 10 + f
    plain = omega arith

leb-false : (a b : ℕ) → b < a → leb a b ≡ false
leb-false a b h = ground arith

-- A number that starts with a digit, has no prefix, and is read as `v`.
number_value-plain :
    (base modulus c d v : ℕ) (s rest : Bytes)
    → digit_value base c ≡ some d
    → number_digits base 0 (c ∷ s) ≡ (v, rest)
    → v < modulus
    → number_value base modulus false (c ∷ s) ≡ (v, after rest)
unfolding number_value
number_value-plain base modulus c d v s rest h e l =
    rw (number_value, starts_with_digit, h, e, leb-false modulus v l) refl

-- A digit is no space and no sign.
digit_start :
    (base c d : ℕ)
    → base ≤ 36
    → digit_value base c ≡ some d
    → (is_space c ≡ false) × ((c == b'-') ≡ false) × ((c == b'+') ≡ false)
unfolding digit_value is_space
digit_start base c d small h = ground arith

extract_number-plain :
    (base modulus x c d v : ℕ) (s rest : Bytes)
    → base ≤ 36
    → digit_value base c ≡ some d
    → skip_hex base (c ∷ s) ≡ c ∷ s
    → number_digits base 0 (c ∷ s) ≡ (v, rest)
    → v < modulus
    → extract_number base modulus x (open_in (c ∷ s)) ≡ (v, after rest)
unfolding extract_number extract skip_space signed_number
extract_number-plain base modulus x c d v s rest small h k e l =
    let (a, m, p) = digit_start base c d small h in
    rw (extract_number, extract, skip_space, a, signed_number, m, p, k)
      (number_value-plain base modulus c d v s rest h e l)

skip_hex-decimal : (s : Bytes) → skip_hex 10 s ≡ s
unfolding skip_hex
skip_hex-decimal [] = refl
skip_hex-decimal (z ∷ []) = refl
skip_hex-decimal (z ∷ x ∷ s) = refl

-- The digits of a number below 1000, of which the first is `c`, with the value `d`.
record Digits (b : ℕ) (printed : Bytes) : Type 0 where
  c : ℕ
  d : ℕ
  more : Bytes
  starts : printed ≡ c ∷ more
  value : digit_value 10 c ≡ some d
  reads : (s : Bytes) → Stops 10 s → number_digits 10 0 (c ∷ more ++ s) ≡ (b, s)

decimal-Digits : (b : ℕ) → b < 256 → Digits b (decimal b)
unfolding decimal
decimal-Digits b h = elim (Bool-cases (ltb b 10)) [
  | inl one ↦ record {
    c = b'0' + b;
    d = b;
    more = [];
    starts = rw (one) refl;
    value = digit_value-decimal b (ltb→lt b 10 one);
    reads = λ s k.
        rw
          (
            number_digits-one 10 0 (b'0' + b) b s (digit_value-decimal b (ltb→lt b 10 one)),
            number_digits-stop 10 (0 * 10 + b) s k,
          )
          (λ i. (same i, s));
  }
  | inr more ↦ elim (Bool-cases (ltb b 100)) [
    | inl two ↦ record {
      c = b'0' + b / 10;
      d = b / 10;
      more = (b'0' + b % 10) ∷ [];
      starts = rw (more, two) refl;
      value = digit_value-decimal (b / 10) (omega (arith, ltb→lt b 100 two));
      reads = λ s k.
          two_digits (b / 10) (b % 10) s (omega (arith, ltb→lt b 100 two)) (omega arith) k
          ∙ (λ i. (divided i, s));
    }
    | inr three ↦ record {
      c = b'0' + b / 100;
      d = b / 100;
      more = (b'0' + b / 10 % 10) ∷ (b'0' + b % 10) ∷ [];
      starts = rw (more, three) refl;
      value = digit_value-decimal (b / 100) (omega arith);
      reads = λ s k.
          three_digits (b / 100) (b / 10 % 10) (b % 10) s (omega arith) (omega arith) (omega arith)
            k
          ∙ (λ i. (divided3 i, s));
    }
  ]
]
  where
    same : 0 * 10 + b ≡ b
    same = omega arith

    divided : b / 10 * 10 + b % 10 ≡ b
    divided = omega arith

    divided3 : b / 100 * 100 + b / 10 % 10 * 10 + b % 10 ≡ b
    divided3 = omega arith

-- The byte that was printed in decimal is read, and what follows it is left.
pub extract_number-decimal :
    (modulus x b : ℕ) (s : Bytes)
    → b < 256
    → 256 ≤ modulus
    → Stops 10 s
    → extract_number 10 modulus x (open_in (decimal b ++ s)) ≡ (b, after s)
extract_number-decimal modulus x b s h l k =
    let p = decimal-Digits b h in
    rw (p.starts) (
      extract_number-plain 10 modulus x p.c p.d b (p.more ++ s) s (omega arith) p.value
        (skip_hex-decimal (p.c ∷ p.more ++ s)) (p.reads s k) (omega arith))

skip_hex-hex_byte : (b : ℕ) (s : Bytes) → b < 256 → skip_hex 16 (hex_byte b ++ s) ≡ hex_byte b ++ s
unfolding skip_hex hex_byte hex_digit
skip_hex-hex_byte b s h = ground arith

number_digits-hex :
    (b : ℕ) (s : Bytes) → b < 256 → Stops 16 s → number_digits 16 0 (hex_byte b ++ s) ≡ (b, s)
unfolding hex_byte
number_digits-hex b s h k =
    rw
      (
        number_digits-one 16 0 (hex_digit (b / 16)) (b / 16) (hex_digit (b % 16) ∷ s)
            (digit_value-hex (b / 16) (omega arith)),
        number_digits-one 16 (0 * 16 + b / 16) (hex_digit (b % 16)) (b % 16) s
            (digit_value-hex (b % 16) (omega arith)),
        number_digits-stop 16 ((0 * 16 + b / 16) * 16 + b % 16) s k,
      )
      (λ i. (divided i, s))
  where
    divided : (0 * 16 + b / 16) * 16 + b % 16 ≡ b
    divided = omega arith

-- The byte that was printed in hexadecimal is read, and what follows it is left.
pub extract_number-hex :
    (modulus x b : ℕ) (s : Bytes)
    → b < 256
    → 256 ≤ modulus
    → Stops 16 s
    → extract_number 16 modulus x (open_in (hex_byte b ++ s)) ≡ (b, after s)
unfolding hex_byte
extract_number-hex modulus x b s h l k =
    extract_number-plain 16 modulus x (hex_digit (b / 16)) (b / 16) b (hex_digit (b % 16) ∷ s) s
      (omega arith) (digit_value-hex (b / 16) (omega arith)) (skip_hex-hex_byte b s h)
      (number_digits-hex b s h k) (omega arith)

-- A character that is no space is read as it is.
pub extract_char-plain :
    (x c : ℕ) (s : Bytes) → is_space c ≡ false → extract_char x (open_in (c ∷ s)) ≡ (c, open_in s)
unfolding extract_char extract skip_space
extract_char-plain x c s h = rw (extract_char, extract, skip_space, h) refl
