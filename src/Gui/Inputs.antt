-- ===== src/Gui/Inputs.antt =====
-- The input widgets of tools/rcdiscover-gui: `InputIP` (input_ip.cc), `InputMAC` (input_mac.cc),
-- `InputFilter` (input_filter.cc) and `DeviceChoice` (device_choice.cc), with what they use of
-- `std::istringstream`. A text widget is the text that it holds.
pub mod Extraction
pub mod RoundTrip
pub mod Choice
use rcdiscover.Base.{
  ℕ, zero, suc, ◌+◌, ◌-◌, ◌*◌, ◌%◌, ◌^◌, Bool, true, false, not, ◌&&◌, ◌||◌, List, [], ◌∷◌, ◌++◌,
  Bytes, Option, none, some, codes, length, get_elem?, drop, is_empty, ltb, leb, ◌==◌, text_eq,
  if◌then◌else◌,
}
use rcdiscover.Text.{ip2string, skip_space, digit_value, starts_with_digit}
use rcdiscover.Gui.DeviceList.{is_prefix}

-- An `std::istringstream`: what is left of the text, `eofbit` and `failbit`.
pub record In : Type 0 where
  pub rest : Bytes
  pub eof : Bool
  pub fail : Bool

abbrev pub open_in : Bytes → In
open_in s = record { rest = s; eof = false; fail = false }

-- The digits at the start of the text behind `acc`, and what follows them.
unfoldable pub number_digits : ℕ → ℕ → Bytes → ℕ × Bytes
number_digits base acc [] = (acc, [])
number_digits base acc (c ∷ s) = elim (digit_value base c) [
  | none ↦ (acc, c ∷ s)
  | some d ↦ number_digits base (acc * base + d) s
]

-- A prefix `0x` or `0X`, in base 16.
unfoldable pub skip_hex : ℕ → Bytes → Bytes
skip_hex base (z ∷ x ∷ s) =
    if base == 16 && z == b'0' && (x == b'x' || x == b'X') then s else z ∷ x ∷ s
skip_hex base s = s

-- The number, which must be below `modulus`; a minus sign negates in the unsigned type.
unfoldable pub number_value : ℕ → ℕ → Bool → Bytes → ℕ × In
unfolding number_digits
number_value base modulus negative s =
    let read = number_digits base 0 s in
    let left : In = record { rest = read.1; eof = is_empty read.1; fail = false } in
    if not (starts_with_digit base s)
    then (0, record left { fail = true })
    else if leb modulus read.0
    then (modulus - 1, record left { fail = true })
    else if negative
    then ((modulus - read.0) % modulus, left)
    else (read.0, left)

unfoldable pub signed_number : ℕ → ℕ → Bytes → ℕ × In
signed_number base modulus [] = (0, record { rest = []; eof = true; fail = true })
signed_number base modulus (c ∷ s) =
    if c == b'-'
    then number_value base modulus true (skip_hex base s)
    else if c == b'+'
    then number_value base modulus false (skip_hex base s)
    else number_value base modulus false (skip_hex base (c ∷ s))

-- The behaviour of `>>` that all types share: with `failbit` or `eofbit` set, or with no text left
-- behind spaces, the variable keeps its value `x`.
unfoldable pub extract : (Bytes → ℕ × In) → ℕ → In → ℕ × In
extract read x s =
    if s.eof || s.fail
    then (x, record s { fail = true })
    else if is_empty (skip_space s.rest)
    then (x, record { rest = []; eof = true; fail = true })
    else read (skip_space s.rest)

-- `in >> x` for an unsigned integer below `modulus`.
unfoldable pub extract_number : ℕ → ℕ → ℕ → In → ℕ × In
unfolding extract
extract_number base modulus = extract (signed_number base modulus)

abbrev pub first_char : Bytes → ℕ × In
first_char [] = (0, record { rest = []; eof = true; fail = true })
first_char (c ∷ s) = (c, record { rest = s; eof = false; fail = false })

-- `in >> c` for a `char`.
unfoldable pub extract_char : ℕ → In → ℕ × In
unfolding extract
extract_char = extract first_char

-- The variables `v` and `s`, and the stream.
pub record Fields : Type 0 where
  pub numbers : List ℕ
  pub separators : List ℕ
  pub stream : In

-- `in >> v[0] >> s[0] >> … >> v[n]`.
unfoldable pub extract_fields : ℕ → ℕ → ℕ → In → Fields
extract_fields base modulus zero s =
    let v = extract_number base modulus 256 s in
    record { numbers = v.0 ∷ []; separators = []; stream = v.1 }
extract_fields base modulus (suc n) s =
    let v = extract_number base modulus 256 s in
    let c = extract_char 32 v.1 in
    let rest = extract_fields base modulus n c.1 in
    record {
      numbers = v.0 ∷ rest.numbers;
      separators = c.0 ∷ rest.separators;
      stream = rest.stream;
    }

abbrev pub all_equal : ℕ → List ℕ → Bool
all_equal x [] = true
all_equal x (y ∷ ys) = y == x && all_equal x ys

abbrev pub all_bytes : List ℕ → Bool
all_bytes [] = true
all_bytes (x ∷ xs) = not (ltb 255 x) && all_bytes xs

-- The fields with the shifts that put them together.
abbrev pub join_bytes : List ℕ → ℕ
join_bytes [] = 0
join_bytes (x ∷ xs) = x * 2 ^ (length xs * 8) + join_bytes xs

-- The common body of `getIP` and `getMAC`.
unfoldable pub get_address : ℕ → ℕ → ℕ → ℕ → Bytes → ℕ
unfolding extract_fields
get_address base modulus n sep s =
    let read = extract_fields base modulus n (open_in s) in
    if not (all_equal sep read.separators)
    then 0
    else if not read.stream.eof
    then 0
    else if not (all_bytes read.numbers)
    then 0
    else join_bytes read.numbers

-- `InputIP::getIP`.
unfoldable pub get_ip : Bytes → ℕ
unfolding get_address
get_ip = get_address 10 (2 ^ 32) 3 b'.'

-- `InputIP::isValid`.
abbrev pub is_valid_ip : Bytes → Bool
is_valid_ip s = not (get_ip s == 0)

-- The text that `InputIP::setIP` puts into the widget.
abbrev pub set_ip : ℕ → Bytes
set_ip = ip2string

-- `InputMAC::getMAC`.
unfoldable pub get_mac : Bytes → ℕ
unfolding get_address
get_mac = get_address 16 (2 ^ 64) 5 b':'

-- `InputMAC::isValid`.
abbrev pub is_valid_mac : Bytes → Bool
is_valid_mac s = not (get_mac s == 0)

-- An event of FLTK, as the handlers see it: whether it is a key, whether this is the tabulator, and
-- the first character of its text.
pub record Event : Type 0 where
  pub keyboard : Bool
  pub is_tab : Bool
  pub ascii : ℕ

-- What a handler leaves: the text, its return value, and whether it called the callback.
pub record Handled : Type 0 where
  pub value : Bytes
  pub ret : ℕ
  pub called : Bool

abbrev pub is_print : ℕ → Bool
is_print c = leb 32 c && leb c 126

abbrev pub is_digit : ℕ → Bool
is_digit c = leb b'0' c && leb c b'9'

abbrev pub is_xdigit : ℕ → Bool
is_xdigit c = is_digit c || (leb b'a' c && leb c b'f') || (leb b'A' c && leb c b'F')

-- `InputFilter::handle`, for a widget with a callback iff `has_cb`; `super` is `Fl_Input::handle`,
-- as its effect on the text and its return value.
unfoldable pub handle_filter : (Event → Bytes → Bytes × ℕ) → Bool → Event → Bytes → Handled
handle_filter super has_cb e v =
    let after = super e v in
    record { value = after.0; ret = after.1; called = has_cb && not (text_eq v after.0) }

-- `InputIP::handle`.
unfoldable pub handle_ip : (Event → Bytes → Bytes × ℕ) → Bool → Event → Bytes → Handled
unfolding handle_filter
handle_ip super has_cb e v =
    if e.keyboard
      && not e.is_tab
      && (is_print e.ascii && not (is_digit e.ascii) && not (e.ascii == b'.'))
    then record { value = v; ret = 1; called = false }
    else handle_filter super has_cb e v

-- `InputMAC::handle`.
unfoldable pub handle_mac : (Event → Bytes → Bytes × ℕ) → Bool → Event → Bytes → Handled
unfolding handle_filter
handle_mac super has_cb e v =
    if e.keyboard
      && not e.is_tab
      && (is_print e.ascii && not (is_xdigit e.ascii) && not (e.ascii == b':'))
    then record { value = v; ret = 1; called = false }
    else handle_filter super has_cb e v

-- `DeviceChoice`: the labels of the menu, the chosen one, and the addresses beside the labels.
-- A label goes into the menu as it is, so that names with a `/`, `&` or `_` that FLTK's `add` gives
-- a meaning to are left out.
pub record DeviceChoice : Type 0 where
  pub labels : List Bytes
  pub value : ℕ
  pub ip_list : List Bytes

-- `label.find(" - ")`, and the text behind it.
unfoldable pub behind_dash : Bytes → Option Bytes
behind_dash [] = none
behind_dash (c ∷ s) =
    if is_prefix (codes " - ") (c ∷ s) then some (drop 3 (c ∷ s)) else behind_dash s

abbrev pub text_or_empty : Option Bytes → Bytes
text_or_empty none = []
text_or_empty (some s) = s

abbrev pub mac_of_label : Option Bytes → Bytes
mac_of_label none = []
mac_of_label (some label) = text_or_empty (behind_dash label)

-- `DeviceChoice::getMAC` and `DeviceChoice::getIP`.
unfoldable pub choice_mac : DeviceChoice → Bytes
unfolding behind_dash
choice_mac d = mac_of_label (get_elem? d.labels d.value)

unfoldable pub choice_ip : DeviceChoice → Bytes
choice_ip d = text_or_empty (get_elem? d.ip_list d.value)

-- The loop of `update` over the devices from number `i` on; `sel` is the choice so far.
unfoldable pub select : Bytes → ℕ → ℕ → List (Bytes × Bytes × Bytes) → ℕ
select sel_mac i sel [] = sel
select sel_mac i sel ((name, mac, ip) ∷ list) =
    select sel_mac (suc i) (if text_eq mac sel_mac then suc i else sel) list

abbrev pub device_labels : List (Bytes × Bytes × Bytes) → List Bytes
device_labels [] = []
device_labels ((name, mac, ip) ∷ list) = (name ++ codes " - " ++ mac) ∷ device_labels list

abbrev pub device_ips : List (Bytes × Bytes × Bytes) → List Bytes
device_ips [] = []
device_ips ((name, mac, ip) ∷ list) = ip ∷ device_ips list

-- `DeviceChoice::update` for names, MAC and IP addresses.
unfoldable pub update_choice : List (Bytes × Bytes × Bytes) → Bytes → DeviceChoice
unfolding select
update_choice list sel_mac = record {
  labels = codes "<CUSTOM>" ∷ device_labels list;
  value = select sel_mac 0 0 list;
  ip_list = [] ∷ device_ips list;
}

abbrev pub without_ip : List (Bytes × Bytes) → List (Bytes × Bytes × Bytes)
without_ip [] = []
without_ip ((name, mac) ∷ list) = (name, mac, []) ∷ without_ip list

-- `DeviceChoice::update` for names and MAC addresses, which leaves empty texts for the IP addresses.
unfoldable pub update_choice_macs : List (Bytes × Bytes) → Bytes → DeviceChoice
unfolding update_choice
update_choice_macs list = update_choice (without_ip list)
