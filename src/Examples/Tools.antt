-- ===== src/Examples/Tools.antt =====
-- The theorems on texts and the command line tools, applied to concrete arguments.
use rcdiscover.Base.{
  Bool, ℕ, ◌≡◌, ◌≢◌, refl, ◌⊎◌, ◌↔◌, true, false, List, [], ◌∷◌, none, some, Bytes, codes, All,
  arith,
}
use rcdiscover.Words.{byte_array_to_int}
use rcdiscover.DeviceInfo.{DeviceInfo, make}
use rcdiscover.Text.{
  string2ip, string2byte, split, digit_value, digits_value, edges, last_or, pieces, getline, cut,
  to_bytes, to_byte, stoul, signed_digits, skip_space, is_space, stoul_digits, skip_prefix,
}
use rcdiscover.Wildcard.{wildcard_match, matches_one, to_lower}
use rcdiscover.Wildcard.Meaning.{Matches, IsPlain}
use rcdiscover.Wildcard.Correct.{wildcard_match_iff}
use rcdiscover.Cli.Filter.{
  DeviceFilter, empty_filter, parse_filter_argument, filter_device, matches_filter, any_match,
}
use rcdiscover.Cli.Collect.{sort, insert, unique, unique_after, keep_filtered, discover_with_filter}
use rcdiscover.Cli.Collect.Unique.{IsStrict}
use rcdiscover.Cli.Collect.Selected.{Pass, discover_with_filter-Pass}
use rcdiscover.Cli.Table.{print_table}
use rcdiscover.Cli.Table.Aligned.{AreLaid, Covers, print_table_lem}
use rcdiscover.Cli.Commands.{
  Action, assign, Outcome, parse_options, run_force_ip, run_each, assign_parsed, assign_one,
  act_parsed, act_each, act_all, act_on, agrees, kind, has_target, parse_addresses,
}
use rcdiscover.Cli.Main.{
  Ran, main, is_information, find_command, run_command, run_discover, parse_listing, list_kind,
  list_devices,
}
use rcdiscover.Cli.Main.Quiet.{AsksFor, main_lem}
use rcdiscover.Cli.Commands.Confirmed.{Permits, AssignsOne, Calls, run_force_ip_lem, run_each_lem}

-- rc*?
rc-IsPlain : IsPlain (codes "rc*?")
rc-IsPlain = ground arith

wildcard_match_iff_example :
    ((wildcard_match (codes "RC_visard") (codes "rc*?") ≡ some true)
      ↔ Matches (codes "rc*?") (codes "RC_visard"))
    × (wildcard_match (codes "RC_visard") (codes "rc*?") ≢ none)
wildcard_match_iff_example =
    wildcard_match_iff (codes "RC_visard") (codes "rc*?") rc-IsPlain (omega arith)

-- A device on two interfaces, the first of which it answered twice.
abbrev on : Bytes → DeviceInfo
on iface = record (make iface) {
  mac = 0x00142d_123456;
  user_name = codes "left";
  serial_number = codes "02912345";
}

abbrev answers : List DeviceInfo
answers = on (codes "eth1") ∷ on (codes "eth0") ∷ on (codes "eth1") ∷ []

abbrev respond : List Bytes → List DeviceInfo
respond ifaces = on (codes "eth0") ∷ []

abbrev left : DeviceFilter
left = record empty_filter { name = codes "L*" ∷ [] }

left-found : discover_with_filter respond left ≡ some (on (codes "eth0") ∷ [])
unfolding discover_with_filter sort insert unique unique_after keep_filtered filter_device
    matches_filter any_match wildcard_match matches_one to_lower
left-found = refl

discover_with_filter-Pass_example :
    Pass left (on (codes "eth0") ∷ []) × IsStrict (on (codes "eth0") ∷ [])
discover_with_filter-Pass_example =
    discover_with_filter-Pass respond left (on (codes "eth0") ∷ []) left-found

print_table_lem_example :
    (ws : List ℕ) × (text : Bytes) × (print_table
        ((codes "Name" ∷ codes "IP" ∷ []) ∷ (codes "left" ∷ codes "10.0.2.99" ∷ []) ∷ [])
      ≡ some text)
    × AreLaid ws
        ((codes "Name" ∷ codes "IP" ∷ []) ∷ (codes "left" ∷ codes "10.0.2.99" ∷ []) ∷ [])
        text
    × All
        (Covers ws)
        ((codes "Name" ∷ codes "IP" ∷ []) ∷ (codes "left" ∷ codes "10.0.2.99" ∷ []) ∷ [])
print_table_lem_example =
    print_table_lem
      ((codes "Name" ∷ codes "IP" ∷ []) ∷ (codes "left" ∷ codes "10.0.2.99" ∷ []) ∷ [])

abbrev arguments : List Bytes
arguments =
    codes "-f" ∷ codes "name=L*" ∷ codes "10.0.2.99" ∷ codes "255.255.255.0" ∷ codes "10.0.2.1" ∷ []

-- No call throws.
abbrev works : Action → Bool
works a = false

abbrev assigned : Outcome
assigned = record {
  status = 0;
  actions = assign 0x00142d_123456 0x0a000263 0xffffff00 0x0a000201 ∷ [];
  thrown = false;
}

run-assigned : run_force_ip respond (codes "y") works arguments ≡ some assigned
unfolding run_force_ip assign_parsed assign_one act_on act_all agrees parse_options kind
    parse_filter_argument has_target parse_addresses make string2ip string2byte split edges last_or
    pieces getline cut to_bytes to_byte stoul signed_digits skip_space is_space stoul_digits
    skip_prefix digit_value digits_value byte_array_to_int discover_with_filter sort insert unique
    unique_after keep_filtered filter_device matches_filter any_match wildcard_match matches_one
    to_lower
run-assigned = refl

run_force_ip_lem_example :
    (assigned.actions ≡ [])
    ⊎ ((filter : DeviceFilter) × (rest : List Bytes) × Permits
          (codes "y")
          (parse_options true arguments false empty_filter)
          filter
          rest
        × AssignsOne respond filter rest assigned)
run_force_ip_lem_example =
    run_force_ip_lem respond (codes "y") works arguments assigned run-assigned

abbrev reconnect : DeviceInfo → Action
reconnect d = assign d.mac 0 0 0

abbrev reconnected : Outcome
reconnected = record { status = 0; actions = assign 0x00142d_123456 0 0 0 ∷ []; thrown = false }

run-reconnected :
    run_each respond [] works reconnect (codes "-y" ∷ codes "-f" ∷ codes "name=L*" ∷ [])
    ≡ some reconnected
unfolding run_each act_parsed act_each act_on act_all agrees parse_options kind
    parse_filter_argument has_target make discover_with_filter sort insert unique unique_after
    keep_filtered filter_device matches_filter any_match wildcard_match matches_one to_lower
run-reconnected = refl

run_each_lem_example :
    (reconnected.actions ≡ [])
    ⊎ ((filter : DeviceFilter) × (rest : List Bytes) × (ds : List DeviceInfo) × Permits []
          (parse_options false (codes "-y" ∷ codes "-f" ∷ codes "name=L*" ∷ []) false empty_filter)
          filter
          rest
        × (discover_with_filter respond filter ≡ some ds)
        × Calls works reconnect ds reconnected)
run_each_lem_example =
    run_each_lem respond [] works reconnect (codes "-y" ∷ codes "-f" ∷ codes "name=L*" ∷ [])
      reconnected run-reconnected

abbrev refused_listing : Ran
refused_listing = record { status = 1; actions = []; thrown = false; printed = [] }

listing-refused : main respond [] works (codes "ls" ∷ codes "-x" ∷ []) ≡ some refused_listing
unfolding main is_information find_command run_command run_discover parse_listing list_kind
    list_devices
listing-refused = refl

main_lem_example : (refused_listing.actions ≡ []) ⊎ AsksFor (codes "ls" ∷ codes "-x" ∷ [])
main_lem_example =
    main_lem respond [] works (codes "ls" ∷ codes "-x" ∷ []) refused_listing listing-refused
