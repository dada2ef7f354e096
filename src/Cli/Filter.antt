-- ===== src/Cli/Filter.antt =====
-- `parseFilterArguments` and `filterDevice` of tools/rcdiscover-cli/cli_utils.cc.
use rcdiscover.Base.{
  ℕ, Bool, true, false, List, [], ◌∷◌, ◌++◌, Option, none, some, Bytes, codes, take, drop, text_eq,
  is_empty, if◌then◌else◌, invalid_argument, Result, ok, err,
}
use rcdiscover.DeviceInfo.{DeviceInfo}
use rcdiscover.Text.{mac2string}
use rcdiscover.Wildcard.{or_else, wildcard_match}

pub record DeviceFilter : Type 0 where
  pub name : List Bytes
  pub serial : List Bytes
  pub mac : List Bytes
  pub iface : List Bytes
  pub model : List Bytes

abbrev pub empty_filter : DeviceFilter
empty_filter = record { name = []; serial = []; mac = []; iface = []; model = [] }

-- `p.compare(0, n, prefix) == 0`, where `n` is the length of the prefix.
abbrev pub has_prefix : ℕ → Bytes → Bytes → Bool
has_prefix n prefix p = text_eq (take n p) prefix

-- The option of `-f`; the number of arguments that are used is always 1.
unfoldable pub parse_filter_argument : Bytes → DeviceFilter → Result DeviceFilter
unfolding text_eq
parse_filter_argument p f =
    if has_prefix 5 (codes "name=") p
    then ok (record f { name = f.name ++ drop 5 p ∷ [] })
    else if has_prefix 7 (codes "serial=") p
    then ok (record f { serial = f.serial ++ drop 7 p ∷ [] })
    else if has_prefix 4 (codes "mac=") p
    then ok (record f { mac = f.mac ++ drop 4 p ∷ [] })
    else if has_prefix 6 (codes "iface=") p
    then ok (record f { iface = f.iface ++ drop 6 p ∷ [] })
    else if has_prefix 6 (codes "model=") p
    then ok (record f { model = f.model ++ drop 6 p ∷ [] })
    else err invalid_argument

-- `none` is a read outside a text, as in `wildcardMatch`.
unfoldable pub any_match : Bytes → List Bytes → Option Bool
any_match str [] = some false
any_match str (f ∷ filter) = or_else (wildcard_match str f) (any_match str filter)

unfoldable pub matches_filter : Bytes → List Bytes → Option Bool
matches_filter str filter = if is_empty filter then some true else any_match str filter

-- `if (!a) return false; …`
abbrev pub and_then : Option Bool → Option Bool → Option Bool
and_then none b = none
and_then (some true) b = b
and_then (some false) b = some false

-- The user name, or the model name where that is empty.
abbrev pub shown_name : DeviceInfo → Bytes
shown_name d = if is_empty d.user_name then d.model_name else d.user_name

unfoldable pub filter_device : DeviceInfo → DeviceFilter → Option Bool
filter_device d f = and_then (matches_filter (shown_name d) f.name) (
    and_then (matches_filter d.serial_number f.serial) (
      and_then (matches_filter (mac2string d.mac) f.mac)
        (and_then (matches_filter d.iface_name f.iface) (matches_filter d.model_name f.model))))
