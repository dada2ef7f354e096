-- ===== src/Words.antt =====
-- Fixed-width integers and their bytes: `appendUint32` and `extractUint32` of
-- rcdiscover/gvcp_ip_config.cc, `toByteArray` of rcdiscover/wol.cc, `byteArrayToInt` of
-- rcdiscover/utils.h, and the single-bit updates of a register.
-- A shift is a division or a product by a power of two, a cast keeps the low bits, and `|` of
-- numbers that share no bit is their sum.
pub mod RoundTrip
use rcdiscover.Base.{
  ℕ, zero, suc, ◌+◌, ◌-◌, ◌*◌, ◌/◌, ◌%◌, ◌^◌, Bool, List, [], ◌∷◌, ◌++◌, Option, none, some, Bytes,
  min, length, leb, ◌==◌, if◌then◌else◌,
}

-- `static_cast<std::uint8_t>` of an unsigned number.
abbrev pub u8 : ℕ → ℕ
u8 x = x % 256

abbrev pub shr : ℕ → ℕ → ℕ
shr x k = x / 2 ^ k

unfoldable pub append_uint32 : Bytes → ℕ → Bytes
append_uint32 v value =
    v ++ u8 (shr value 24) ∷ u8 (shr value 16) ∷ u8 (shr value 8) ∷ u8 value ∷ []

-- The argument is the memory at the pointer; `none` is a read past its end.
unfoldable pub extract_uint32 : Bytes → Option ℕ
extract_uint32 (a ∷ b ∷ c ∷ d ∷ _) = some (a * 2 ^ 24 + b * 2 ^ 16 + c * 2 ^ 8 + d)
extract_uint32 _ = none

-- The loop of `toByteArray<num>`; the argument is the number of bytes still to be written.
unfoldable pub to_byte_array : ℕ → ℕ → Bytes
to_byte_array zero x = []
to_byte_array (suc k) x = u8 (shr x (k * 8)) ∷ to_byte_array k x

-- `MinFittingType<N>`, as the width of the type in bits.
unfoldable pub min_fitting_width : ℕ → ℕ
min_fitting_width n = if leb n 1 then 8 else if leb n 2 then 16 else if leb n 4 then 32 else 64

-- The loop of `byteArrayToInt`, with the width of the result.
unfoldable pub or_bytes : ℕ → ℕ → Bytes → ℕ
or_bytes width result [] = result
or_bytes width result (a ∷ rest) =
    or_bytes width (result + (a * 2 ^ (length rest * 8)) % 2 ^ width) rest

unfoldable pub byte_array_to_int : Bytes → ℕ
unfolding or_bytes min_fitting_width
byte_array_to_int a = or_bytes (min_fitting_width (length a)) 0 a

-- `(x & (1 << k)) != 0`, `x & ~(1 << k)` and `x | (1 << k)`.
unfoldable pub test_bit : ℕ → ℕ → Bool
test_bit x k = x / 2 ^ k % 2 == 1

unfoldable pub clear_bit : ℕ → ℕ → ℕ
unfolding test_bit
clear_bit x k = if test_bit x k then x - 2 ^ k else x

unfoldable pub set_bit : ℕ → ℕ → ℕ
unfolding test_bit
set_bit x k = if test_bit x k then x else x + 2 ^ k

-- `x & y` of two numbers with `width` bits, from the highest of them down to the lowest.
unfoldable pub and_bits : ℕ → ℕ → ℕ → ℕ
and_bits zero x y = 0
and_bits (suc width) x y = and_bits width (x / 2) (y / 2) * 2 + min (x % 2) (y % 2)
