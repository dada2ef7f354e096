-- ===== src/Text.antt =====
-- The conversions between addresses and texts of rcdiscover/utils.h: `mac2string`, `ip2string`,
-- `split`, `string2byte`, `string2mac` and `string2ip`, with the parts of the standard library
-- that they call.
pub mod Decimal
pub mod Splitting
pub mod RoundTrip
pub mod Strict
use rcdiscover.Base.{
  ℕ, zero, suc, ◌+◌, ◌-◌, ◌*◌, ◌/◌, ◌%◌, ◌^◌, Bool, true, false, not, ◌&&◌, ◌||◌, List, [], ◌∷◌,
  ◌++◌, Option, none, some, Bytes, ltb, leb, ◌==◌, if◌then◌else◌, is_empty, Exn, invalid_argument,
  out_of_range, Result, ok, err, bind_result, codes,
}
use rcdiscover.Words.{u8, shr}

abbrev pub ◌>>=◌ {ℓ κ} : {A : Type ℓ} {B : Type κ} → Result A → (A → Result B) → Result B
◌>>=◌ = bind_result

-- A hexadecimal digit as `std::hex` prints it.
unfoldable pub hex_digit : ℕ → ℕ
hex_digit d = if ltb d 10 then b'0' + d else b'a' + (d - 10)

-- A byte printed with `std::hex`, `setw(2)` and `setfill('0')`.
unfoldable pub hex_byte : ℕ → Bytes
unfolding hex_digit
hex_byte b = hex_digit (b / 16) ∷ hex_digit (b % 16) ∷ []

-- A number below 1000 printed in decimal.
unfoldable pub decimal : ℕ → Bytes
decimal n =
    if ltb n 10
    then (b'0' + n) ∷ []
    else if ltb n 100
    then (b'0' + n / 10) ∷ (b'0' + n % 10) ∷ []
    else (b'0' + n / 100) ∷ (b'0' + n / 10 % 10) ∷ (b'0' + n % 10) ∷ []

unfoldable pub mac2string : ℕ → Bytes
unfolding hex_byte
mac2string mac =
    hex_byte (u8 (shr mac 40))
    ++ b':'
      ∷ (hex_byte (u8 (shr mac 32))
          ++ b':'
            ∷ (hex_byte (u8 (shr mac 24))
                ++ b':'
                  ∷ (hex_byte (u8 (shr mac 16))
                      ++ b':' ∷ (hex_byte (u8 (shr mac 8)) ++ b':' ∷ hex_byte (u8 mac)))))

unfoldable pub ip2string : ℕ → Bytes
unfolding decimal
ip2string ip =
    decimal (u8 (shr ip 24))
    ++ b'.'
      ∷ (decimal (u8 (shr ip 16)) ++ b'.' ∷ (decimal (u8 (shr ip 8)) ++ b'.' ∷ decimal (u8 ip)))

-- `std::getline(in, piece, sep)`: the piece, and whether its end was a separator.
unfoldable pub cut : ℕ → Bytes → Bytes × Option Bytes
cut sep [] = ([], none)
cut sep (c ∷ s) = if c == sep then ([], some s) else (c ∷ (cut sep s).0, (cut sep s).1)

-- An `std::istringstream`: the text that is left, or `none` once the end was met.
abbrev pub Stream : Type 0
Stream = Option Bytes

-- `none` is a stream in a failed state: at its end, or with nothing left to read.
unfoldable pub getline : ℕ → Stream → Option (Bytes × Stream)
unfolding cut
getline sep none = none
getline sep (some []) = none
getline sep (some (c ∷ s)) = some (cut sep (c ∷ s))

unfoldable pub last_or : ℕ → Bytes → ℕ
last_or d [] = d
last_or d (c ∷ s) = last_or c s

-- `!s.empty() && (s.front() == sep || s.back() == sep)`.
unfoldable pub edges : ℕ → Bytes → Bool
edges sep [] = false
edges sep (c ∷ s) = c == sep || last_or c s == sep

-- The loop of `split<n>`, and the check that nothing follows.
unfoldable pub pieces : ℕ → ℕ → Stream → Result (List Bytes)
pieces zero sep iss = elim (getline sep iss) [ none ↦ ok [] | some _ ↦ err out_of_range ]
pieces (suc n) sep iss = elim (getline sep iss) [
  | none ↦ err out_of_range
  | some line ↦ (do rest ← pieces n sep line.1; ok (line.0 ∷ rest))
]

unfoldable pub split : ℕ → Bytes → ℕ → Result (List Bytes)
split n s sep = if edges sep s then err invalid_argument else pieces n sep (some s)

-- `std::isspace` in the "C" locale.
unfoldable pub is_space : ℕ → Bool
is_space c = c == 32 || (leb 9 c && leb c 13)

unfoldable pub skip_space : Bytes → Bytes
skip_space [] = []
skip_space (c ∷ s) = if is_space c then skip_space s else c ∷ s

-- The value of a digit in a base up to 36.
unfoldable pub digit_value : ℕ → ℕ → Option ℕ
digit_value base c =
    let d =
      if leb b'0' c && leb c b'9'
      then c - b'0'
      else if leb b'a' c && leb c b'z'
      then c - b'a' + 10
      else if leb b'A' c && leb c b'Z'
      then c - b'A' + 10
      else 36 in
    if ltb d base then some d else none

-- The value of the digits at the start of the text behind `acc`.
unfoldable pub digits_value : ℕ → ℕ → Bytes → ℕ
digits_value base acc [] = acc
digits_value base acc (c ∷ s) = elim (digit_value base c) [
  | none ↦ acc
  | some d ↦ digits_value base (acc * base + d) s
]

abbrev pub starts_with_digit : ℕ → Bytes → Bool
starts_with_digit base [] = false
starts_with_digit base (c ∷ s) = elim (digit_value base c) [ none ↦ false | some _ ↦ true ]

-- In base 16 a prefix `0x` or `0X` is skipped if a digit follows it.
unfoldable pub skip_prefix : ℕ → Bytes → Bytes
skip_prefix base (z ∷ x ∷ s) =
    if base == 16 && z == b'0' && (x == b'x' || x == b'X') && starts_with_digit base s
    then s
    else z ∷ x ∷ s
skip_prefix base s = s

abbrev pub ulong_mod : ℕ
ulong_mod = 2 ^ 64

-- The digits of `std::stoul`; a minus sign negates in the unsigned type.
unfoldable pub stoul_digits : ℕ → Bool → Bytes → Result ℕ
stoul_digits base negative s =
    let v = digits_value base 0 (skip_prefix base s) in
    if not (starts_with_digit base s)
    then err invalid_argument
    else if leb ulong_mod v
    then err out_of_range
    else if negative
    then ok ((ulong_mod - v) % ulong_mod)
    else ok v

unfoldable pub signed_digits : ℕ → Bytes → Result ℕ
signed_digits base [] = err invalid_argument
signed_digits base (c ∷ s) =
    if c == b'-'
    then stoul_digits base true s
    else if c == b'+'
    then stoul_digits base false s
    else stoul_digits base false (c ∷ s)

-- `std::stoul(s, nullptr, base)`, which ignores what follows the number.
unfoldable pub stoul : ℕ → Bytes → Result ℕ
stoul base s = signed_digits base (skip_space s)

-- The function that `string2byte` applies to each piece.
unfoldable pub to_byte : ℕ → Bytes → Result ℕ
to_byte base s = do v ← stoul base s; if ltb 255 v then err out_of_range else ok v

unfoldable pub to_bytes : ℕ → List Bytes → Result (List ℕ)
to_bytes base [] = ok []
to_bytes base (s ∷ l) = do b ← to_byte base s; rest ← to_bytes base l; ok (b ∷ rest)

unfoldable pub string2byte : ℕ → Bytes → ℕ → ℕ → Result (List ℕ)
string2byte n s base sep = do splitted ← split n s sep; to_bytes base splitted

unfoldable pub string2mac : Bytes → Result (List ℕ)
string2mac mac = string2byte 6 mac 16 b':'

unfoldable pub string2ip : Bytes → Result (List ℕ)
string2ip ip = string2byte 4 ip 10 b'.'
