-- ===== src/Cli/Main.antt =====
-- `runDiscover` of tools/rcdiscover-cli/rcdiscover_discover.cc, and `main` of tools/rcdiscover.cc.
pub mod Quiet
use rcdiscover.Base.{
  ℕ, inl, inr, ◌⊎◌, Bool, true, false, not, ◌||◌, List, [], ◌∷◌, Option, none, some, Bytes, codes,
  ◌==◌, text_eq, if◌then◌else◌, bind_option, Result, ok, err,
}
use rcdiscover.DeviceInfo.{DeviceInfo, is_valid}
use rcdiscover.Cli.Filter.{DeviceFilter, empty_filter, parse_filter_argument, filter_device}
use rcdiscover.Cli.Collect.{◌>>=◌, sort, unique}
use rcdiscover.Cli.Table.{print_device_table}
use rcdiscover.Cli.Commands.{Action, Outcome, is_help, run_force_ip, run_reset, run_reconnect}

-- The flags of `runDiscover`.
pub record Listing : Type 0 where
  pub print_header : Bool
  pub ip_only : Bool
  pub serial_only : Bool
  pub filter : DeviceFilter

abbrev pub plain_listing : Listing
plain_listing = record {
  print_header = true;
  ip_only = false;
  serial_only = false;
  filter = empty_filter;
}

-- An argument of the loop, in the order of its tests.
pub data ListKind : Type 0 where
  ip_flag serial_flag filter_argument help_argument unknown : ListKind

unfoldable pub list_kind : Bytes → ListKind
unfolding text_eq
list_kind p =
    if text_eq p (codes "-iponly") || text_eq p (codes "--iponly")
    then ip_flag
    else if text_eq p (codes "-serialonly") || text_eq p (codes "--serialonly")
    then serial_flag
    else if text_eq p (codes "-f")
    then filter_argument
    else if is_help p
    then help_argument
    else unknown

-- The loop over the arguments: the flags, or what the command returns.
unfoldable pub parse_listing : List Bytes → Listing → Listing ⊎ ℕ
parse_listing [] l = inl l
parse_listing (p ∷ []) l = elim (list_kind p) [
  | ip_flag ↦ inl (record l { ip_only = true; print_header = false })
  | serial_flag ↦ inl (record l { serial_only = true; print_header = false })
  | filter_argument ↦ inr 1
  | help_argument ↦ inr 0
  | unknown ↦ inr 1
]
parse_listing (p ∷ q ∷ argv) l = elim (list_kind p) [
  | ip_flag ↦ parse_listing (q ∷ argv) (record l { ip_only = true; print_header = false })
  | serial_flag ↦ parse_listing (q ∷ argv) (record l { serial_only = true; print_header = false })
  | filter_argument ↦ elim (parse_filter_argument q l.filter) [
    | ok f ↦ parse_listing argv (record l { filter = f; print_header = false })
    | err e ↦ inr 1
  ]
  | help_argument ↦ inr 0
  | unknown ↦ inr 1
]

-- The loop that keeps the valid devices that pass the filter.
unfoldable pub keep_valid : DeviceFilter → List DeviceInfo → Option (List DeviceInfo)
keep_valid filter [] = some []
keep_valid filter (info ∷ infos) = do
  pass ← if is_valid info then filter_device info filter else some false
  rest ← keep_valid filter infos
  some (if pass then info ∷ rest else rest)

-- What a run of the program leaves: the value that `main` returns, what was asked of devices, and
-- the table of devices that was printed, where a listing prints one.
pub record Ran : Type 0 where
  pub status : ℕ
  pub actions : List Action
  pub thrown : Bool
  pub printed : Bytes

abbrev pub quiet : ℕ → Bytes → Option Ran
quiet n text = some (record { status = n; actions = []; thrown = false; printed = text })

unfoldable pub list_devices : (List Bytes → List DeviceInfo) → Listing ⊎ ℕ → Option Ran
list_devices responses (inr n) = quiet n []
list_devices responses (inl l) = do
  infos ← keep_valid l.filter (unique (sort (responses l.filter.iface)))
  text ← print_device_table infos l.print_header l.ip_only l.serial_only
  quiet 0 text

unfoldable pub run_discover : (List Bytes → List DeviceInfo) → List Bytes → Option Ran
run_discover responses argv = list_devices responses (parse_listing argv plain_listing)

abbrev pub from_outcome : Option Outcome → Option Ran
from_outcome none = none
from_outcome (some o) =
    some (record { status = o.status; actions = o.actions; thrown = o.thrown; printed = [] })

-- The keys of `commands`.
pub data Command : Type 0 where
  ls reconnect forceip reset : Command

unfoldable pub find_command : Bytes → Option Command
unfolding text_eq
find_command p =
    if text_eq p (codes "ls")
    then some ls
    else if text_eq p (codes "reconnect")
    then some reconnect
    else if text_eq p (codes "forceip")
    then some forceip
    else if text_eq p (codes "reset")
    then some reset
    else none

unfoldable pub run_command :
    (List Bytes → List DeviceInfo)
    → Bytes
    → (Action → Bool)
    → Option Command
    → List Bytes
    → Option Ran
run_command responses answer throws none argv = quiet 1 []
run_command responses answer throws (some ls) argv = run_discover responses argv
run_command responses answer throws (some reconnect) argv =
    from_outcome (run_reconnect responses answer throws argv)
run_command responses answer throws (some forceip) argv =
    from_outcome (run_force_ip responses answer throws argv)
run_command responses answer throws (some reset) argv =
    from_outcome (run_reset responses answer throws argv)

-- `!argv_1.empty() && argv_1[0] != '-'`.
abbrev pub names_command : Bytes → Bool
names_command [] = false
names_command (c ∷ s) = not (c == b'-')

unfoldable pub is_information : Bytes → Bool
unfolding text_eq
is_information p = is_help p || text_eq p (codes "--version")

-- `main` on the arguments behind the program's name.
unfoldable pub main :
    (List Bytes → List DeviceInfo) → Bytes → (Action → Bool) → List Bytes → Option Ran
main responses answer throws [] = run_command responses answer throws (some ls) []
main responses answer throws (p ∷ argv) = elim (is_information p) [
  | true ↦ quiet 0 []
  | false ↦ elim (names_command p) [
    | true ↦ run_command responses answer throws (find_command p) argv
    | false ↦ run_command responses answer throws (some ls) (p ∷ argv)
  ]
]
