-- ===== src/Text/Decimal.antt =====
-- The printed form of a byte, in decimal and in hexadecimal.
use rcdiscover.Base.{
  ℕ, ◌<◌, ◌≡◌, refl, Bool, true, false, ◌==◌, Result, ok, err, holds_from, holds_from-lookup, arith,
}
use rcdiscover.Text.{
  hex_byte, hex_digit, decimal, to_byte, stoul, signed_digits, skip_space, is_space, stoul_digits,
  digits_value, skip_prefix, digit_value,
}
use rcdiscover.Text.Splitting.{IsPiece}

abbrev is_ok : Result ℕ → ℕ → Bool
is_ok (ok v) n = v == n
is_ok (err e) n = false

is_ok-eq : (r : Result ℕ) (n : ℕ) → is_ok r n ≡ true → r ≡ ok n
is_ok-eq (ok v) n h = ap_ok (ground arith)
  where
    ap_ok : v ≡ n → ok v ≡ ok n
    ap_ok e = λ i. ok (e i)
is_ok-eq (err e) n h = cc

decimal_table : holds_from (λ b. is_ok (to_byte 10 (decimal b)) b) 0 256 ≡ true
unfolding holds_from to_byte stoul signed_digits skip_space is_space stoul_digits digits_value
    skip_prefix digit_value decimal
decimal_table = refl

hex_table : holds_from (λ b. is_ok (to_byte 16 (hex_byte b)) b) 0 256 ≡ true
unfolding holds_from to_byte stoul signed_digits skip_space is_space stoul_digits digits_value
    skip_prefix digit_value hex_byte
hex_table = refl

-- A byte is read back from its decimal print.
pub to_byte-decimal : (b : ℕ) → b < 256 → to_byte 10 (decimal b) ≡ ok b
to_byte-decimal b h = is_ok-eq _ b (
    holds_from-lookup (λ b. is_ok (to_byte 10 (decimal b)) b) 0 256 b decimal_table (omega arith)
      (omega arith))

-- A byte is read back from its hexadecimal print.
pub to_byte-hex_byte : (b : ℕ) → b < 256 → to_byte 16 (hex_byte b) ≡ ok b
to_byte-hex_byte b h = is_ok-eq _ b (
    holds_from-lookup (λ b. is_ok (to_byte 16 (hex_byte b)) b) 0 256 b hex_table (omega arith)
      (omega arith))

pub decimal-IsPiece : (b : ℕ) → b < 256 → IsPiece b'.' (decimal b)
unfolding decimal
decimal-IsPiece b h = ground arith

pub hex_byte-IsPiece : (b : ℕ) → b < 256 → IsPiece b':' (hex_byte b)
unfolding hex_byte hex_digit
hex_byte-IsPiece b h = ground arith
