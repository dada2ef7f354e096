-- ===== src/Gui/Config.antt =====
-- The configuration file of the graphical tool, which `main` of tools/rcdiscover-gui.cc loads at the
-- start and stores at the end, with what it uses of the streams of the standard library.
pub mod Decimal
pub mod Words
pub mod RoundTrip
use rcdiscover.Base.{
  ℕ, zero, suc, ◌+◌, ◌-◌, ◌*◌, ◌/◌, ◌%◌, ◌^◌, Bool, true, false, not, List, [], ◌∷◌, ◌++◌, Bytes,
  codes, is_empty, ltb, leb, ◌==◌, text_eq, if◌then◌else◌, Result, ok, err, invalid_argument,
  out_of_range, bind_result,
}
use rcdiscover.Text.{is_space, skip_space, digits_value, starts_with_digit, ◌>>=◌}

-- An `int`, with `negsuc n` for `-(n + 1)`.
pub data ℤ : Type 0 where
  pos negsuc : ℕ → ℤ

abbrev pub negated : ℕ → ℤ
negated zero = pos 0
negated (suc n) = negsuc n

-- The digits of `std::stoi`, whose value must fit into 32 bits.
unfoldable pub stoi_digits : Bool → Bytes → Result ℤ
stoi_digits negative s =
    let v = digits_value 10 0 s in
    if not (starts_with_digit 10 s)
    then err invalid_argument
    else if negative
    then (if leb v (2 ^ 31) then ok (negated v) else err out_of_range)
    else if ltb v (2 ^ 31)
    then ok (pos v)
    else err out_of_range

unfoldable pub signed_int : Bytes → Result ℤ
signed_int [] = err invalid_argument
signed_int (c ∷ s) =
    if c == b'-'
    then stoi_digits true s
    else if c == b'+'
    then stoi_digits false s
    else stoi_digits false (c ∷ s)

unfoldable pub stoi : Bytes → Result ℤ
stoi s = signed_int (skip_space s)

-- The words that `>>` reads into strings one after the other; `word` has been read so far.
unfoldable pub words_from : Bytes → Bytes → List Bytes
words_from word [] = if is_empty word then [] else word ∷ []
words_from word (c ∷ s) =
    let ended = words_from [] s in
    let longer = words_from (word ++ c ∷ []) s in
    if is_space c then (if is_empty word then ended else word ∷ ended) else longer

-- The variables of `main` that the file sets.
pub record Config : Type 0 where
  pub width : ℤ
  pub height : ℤ
  pub only_rc : ℤ
  pub sort_col : ℤ
  pub sort_down : Bool

abbrev pub default_config : Config
default_config = record {
  width = pos 1180;
  height = pos 394;
  only_rc = pos 1;
  sort_col = pos 0;
  sort_down = true;
}

abbrev pub is_set : ℤ → Bool
is_set (pos n) = not (n == 0)
is_set (negsuc n) = true

-- The body of the loop; the keys exclude one another.
unfoldable pub set_key : Bytes → Bytes → Config → Result Config
unfolding text_eq
set_key key value c =
    if text_eq key (codes "width")
    then (do n ← stoi value; ok (record c { width = n }))
    else if text_eq key (codes "height")
    then (do n ← stoi value; ok (record c { height = n }))
    else if text_eq key (codes "only_rc")
    then (do n ← stoi value; ok (record c { only_rc = n }))
    else if text_eq key (codes "sort_col")
    then (do n ← stoi value; ok (record c { sort_col = n }))
    else if text_eq key (codes "sort_down")
    then (do n ← stoi value; ok (record c { sort_down = is_set n }))
    else ok c

-- The loop; an exception ends it, and leaves what was set before.
unfoldable pub set_keys : List Bytes → Config → Config
set_keys [] c = c
set_keys (key ∷ []) c = c
set_keys (key ∷ value ∷ rest) c = elim (set_key key value c) [ ok d ↦ set_keys rest d | err e ↦ c ]

unfoldable pub load_config : Bytes → Config
unfolding words_from set_keys
load_config text = set_keys (words_from [] text) default_config

-- A number with at most `k` digits as `<<` prints it.
unfoldable pub digits : ℕ → ℕ → Bytes
digits zero n = []
digits (suc k) n =
    let front = digits k (n / 10) in
    if ltb n 10 then (b'0' + n) ∷ [] else front ++ (b'0' + n % 10) ∷ []

-- An `int` has at most ten digits.
unfoldable pub print_int : ℤ → Bytes
unfolding digits
print_int (pos n) = digits 10 n
print_int (negsuc n) = b'-' ∷ digits 10 (suc n)

-- `out << key << " " << value << std::endl`, before what follows.
abbrev pub line : Bytes → Bytes → Bytes → Bytes
line key value rest = key ++ b' ' ∷ (value ++ b'\n' ∷ rest)

abbrev pub print_bool : Bool → Bytes
print_bool true = codes "1"
print_bool false = codes "0"

-- The line for the filter, if there is one.
abbrev pub filter_line : Bytes → Bytes → Bytes
filter_line [] rest = rest
filter_line (c ∷ s) rest = line (codes "filter") (c ∷ s) rest

unfoldable pub store_config : Config → Bytes → Bytes
unfolding print_int
store_config c filter = line (codes "width") (print_int c.width) (
    line (codes "height") (print_int c.height) (
      line (codes "only_rc") (print_int c.only_rc) (
        filter_line filter (
          line (codes "sort_col") (print_int c.sort_col)
            (line (codes "sort_down") (print_bool c.sort_down) [])))))
