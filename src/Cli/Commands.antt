-- ===== src/Cli/Commands.antt =====
-- The commands that act on devices: `runForceIP`, `runReset` and `runReconnect` of
-- tools/rcdiscover-cli/rcdiscover_force_ip.cc, rcdiscover_reset.cc and rcdiscover_reconnect.cc.
-- What a command prints is not kept; what it asks devices to do is a list of calls.
pub mod Confirmed
use rcdiscover.Base.{
  ℕ, Bool, true, false, not, ◌&&◌, ◌||◌, List, [], ◌∷◌, map, Option, none, some, Bytes, codes, ◌==◌,
  text_eq, is_empty, if◌then◌else◌, Result, ok, err, bind_option,
}
use rcdiscover.Words.{byte_array_to_int}
use rcdiscover.Text.{string2ip}
use rcdiscover.DeviceInfo.{DeviceInfo}
use rcdiscover.Cli.Filter.{DeviceFilter, empty_filter, parse_filter_argument}
use rcdiscover.Cli.Collect.{discover_with_filter}

-- `ForceIP::sendCommand(mac, ip, subnet, gateway)`, and `WOL(mac, 9).send(password)`.
pub data Action : Type 0 where
  assign : ℕ → ℕ → ℕ → ℕ → Action
  wake : ℕ → Bytes → Action

-- What `main` returns, and what was asked of devices, in order.
pub record Outcome : Type 0 where
  pub status : ℕ
  pub actions : List Action
  pub thrown : Bool

-- How the loop over the arguments ends: it goes on with `assumed`, the filter and the arguments that
-- are left, or the command returns.
pub data Parsed : Type 0 where
  proceed : Bool → DeviceFilter → List Bytes → Parsed
  leave : ℕ → Parsed

abbrev quit : ℕ → Option Outcome
quit n = some (record { status = n; actions = []; thrown = false })

-- An argument that ends the loop of `runForceIP`: the empty one, or one that begins with no dash.
abbrev is_positional : Bytes → Bool
is_positional [] = true
is_positional (c ∷ s) = not (c == b'-')

abbrev pub is_help : Bytes → Bool
is_help p = text_eq p (codes "-h") || text_eq p (codes "--help")

-- An argument of the loop, in the order of its tests.
pub data Kind : Type 0 where
  yes_flag filter_flag help_flag other : Kind

unfoldable pub kind : Bytes → Kind
unfolding text_eq
kind p =
    if text_eq p (codes "-y")
    then yes_flag
    else if text_eq p (codes "-f")
    then filter_flag
    else if is_help p
    then help_flag
    else other

-- The last branch: `positional` tells whether the loop stops at an argument, as in `runForceIP`,
-- or refuses it, as in the other commands.
abbrev on_other : Bool → Bytes → List Bytes → Bool → DeviceFilter → Parsed
on_other positional p argv assumed filter =
    if positional && is_positional p then proceed assumed filter (p ∷ argv) else leave 1

-- The loop over the arguments; a `-f` takes one more.
unfoldable pub parse_options : Bool → List Bytes → Bool → DeviceFilter → Parsed
parse_options positional [] assumed filter = proceed assumed filter []
parse_options positional (p ∷ []) assumed filter = elim (kind p) [
  | yes_flag ↦ proceed true filter []
  | filter_flag ↦ leave 1
  | help_flag ↦ leave 0
  | other ↦ on_other positional p [] assumed filter
]
parse_options positional (p ∷ q ∷ argv) assumed filter = elim (kind p) [
  | yes_flag ↦ parse_options positional (q ∷ argv) true filter
  | filter_flag ↦ elim (parse_filter_argument q filter) [
    | ok f ↦ parse_options positional argv assumed f
    | err e ↦ leave 1
  ]
  | help_flag ↦ leave 0
  | other ↦ on_other positional p (q ∷ argv) assumed filter
]

-- The tests behind the loop: a device filter is set, and the user agrees.
unfoldable pub has_target : DeviceFilter → Bool
has_target f = not (is_empty f.mac && is_empty f.name && is_empty f.serial)

unfoldable pub agrees : Bool → Bytes → Bool
unfolding text_eq
agrees assumed answer = assumed || text_eq answer (codes "y") || text_eq answer (codes "Y")

-- The three addresses of `runForceIP`; any exception of the parser ends the command.
unfoldable pub parse_addresses : List Bytes → Option (ℕ × ℕ × ℕ)
parse_addresses (a ∷ b ∷ c ∷ []) = elim (string2ip a) [
  | err e ↦ none
  | ok ip ↦ elim (string2ip b) [
    | err e ↦ none
    | ok mask ↦ elim (string2ip c) [
      | err e ↦ none
      | ok gateway ↦ some (byte_array_to_int ip, byte_array_to_int mask, byte_array_to_int gateway)
    ]
  ]
]
parse_addresses argv = none

-- The loop over the devices: the calls that are made, until one of them throws; the exception leaves
-- the program.
unfoldable pub act_all : (Action → Bool) → (DeviceInfo → Action) → List DeviceInfo → Outcome
act_all throws act [] = record { status = 0; actions = []; thrown = false }
act_all throws act (d ∷ ds) =
    let rest = act_all throws act ds in
    if throws (act d)
    then record { status = 0; actions = act d ∷ []; thrown = true }
    else record rest { actions = act d ∷ rest.actions }

-- The commands from the discovery on, with the answer that the user would type: `none` is a read
-- outside a text, as in `wildcardMatch`.
unfoldable pub act_on :
    Bool → Bytes → (Action → Bool) → (DeviceInfo → Action) → List DeviceInfo → Outcome
act_on assumed answer throws act devices =
    if is_empty devices
    then record { status = 0; actions = []; thrown = false }
    else if agrees assumed answer
    then act_all throws act devices
    else record { status = 0; actions = []; thrown = false }

abbrev pub several : List DeviceInfo → Bool
several [] = false
several (d ∷ []) = false
several (d ∷ e ∷ ds) = true

-- `runForceIP` behind the addresses.
unfoldable pub assign_one :
    Option (List DeviceInfo) → Bool → Bytes → (Action → Bool) → ℕ × ℕ × ℕ → Option Outcome
assign_one none assumed answer throws addresses = none
assign_one (some devices) assumed answer throws (ip, mask, gateway) =
    if several devices
    then quit 0
    else some (act_on assumed answer throws (λ d. assign d.mac ip mask gateway) devices)

-- `runForceIP` behind the loop over the arguments.
unfoldable pub assign_parsed :
    (List Bytes → List DeviceInfo) → Bytes → (Action → Bool) → Parsed → Option Outcome
assign_parsed responses answer throws (leave n) = quit n
assign_parsed responses answer throws (proceed assumed filter rest) = elim (has_target filter) [
  | false ↦ quit 1
  | true ↦ elim (parse_addresses rest) [
    | none ↦ quit 1
    | some addresses ↦
        assign_one (discover_with_filter responses filter) assumed answer throws addresses
  ]
]

unfoldable pub run_force_ip :
    (List Bytes → List DeviceInfo) → Bytes → (Action → Bool) → List Bytes → Option Outcome
run_force_ip responses answer throws argv =
    assign_parsed responses answer throws (parse_options true argv false empty_filter)

-- `reset_commands`: the last byte of the password of an operation.
unfoldable pub reset_id : Bytes → Option ℕ
unfolding text_eq
reset_id p =
    if text_eq p (codes "parameters")
    then some 0xaa
    else if text_eq p (codes "network")
    then some 0xbb
    else if text_eq p (codes "all")
    then some 0xff
    else if text_eq p (codes "switch-partition")
    then some 0xcc
    else none

unfoldable pub act_each :
    Option (List DeviceInfo)
    → Bool
    → Bytes
    → (Action → Bool)
    → (DeviceInfo → Action)
    → Option Outcome
act_each none assumed answer throws act = none
act_each (some devices) assumed answer throws act = some (act_on assumed answer throws act devices)

-- `runReset` and `runReconnect` behind the loop over the arguments.
unfoldable pub act_parsed :
    (List Bytes → List DeviceInfo)
    → Bytes
    → (Action → Bool)
    → (DeviceInfo → Action)
    → Parsed
    → Option Outcome
act_parsed responses answer throws act (leave n) = quit n
act_parsed responses answer throws act (proceed assumed filter rest) = elim (has_target filter) [
  | false ↦ quit 1
  | true ↦ act_each (discover_with_filter responses filter) assumed answer throws act
]

-- `runReset` and `runReconnect` behind the operation.
unfoldable pub run_each :
    (List Bytes → List DeviceInfo)
    → Bytes
    → (Action → Bool)
    → (DeviceInfo → Action)
    → List Bytes
    → Option Outcome
run_each responses answer throws act argv =
    act_parsed responses answer throws act (parse_options false argv false empty_filter)

unfoldable pub run_reset :
    (List Bytes → List DeviceInfo) → Bytes → (Action → Bool) → List Bytes → Option Outcome
run_reset responses answer throws [] = quit 1
run_reset responses answer throws (p ∷ argv) = if is_help p then quit 0 else elim (reset_id p) [
  | none ↦ quit 1
  | some n ↦ run_each responses answer throws (λ d. wake d.mac (0xee ∷ 0xee ∷ 0xee ∷ n ∷ [])) argv
]

unfoldable pub run_reconnect :
    (List Bytes → List DeviceInfo) → Bytes → (Action → Bool) → List Bytes → Option Outcome
run_reconnect responses answer throws = run_each responses answer throws (λ d. assign d.mac 0 0 0)
