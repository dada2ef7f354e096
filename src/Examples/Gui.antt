-- ===== src/Examples/Gui.antt =====
-- The theorems on the graphical tool, applied to a table, a form and a network.
use rcdiscover.Base.{
  ℕ, ◌≡◌, refl, true, false, ◌||◌, List, [], ◌∷◌, ◌++◌, none, some, Bytes, codes, length, arith,
}
use rcdiscover.Text.{mac2string}
use rcdiscover.Gui.DeviceList.{
  DeviceListData, DeviceList, new_list, new_device, update_device_indices, add, find_mac,
  has_member,
}
use rcdiscover.Gui.DeviceList.Order.{IsShown}
use rcdiscover.Gui.DeviceList.Shown.{update_device_indices-IsShown, add-IsShown, nothing-IsShown}
use rcdiscover.Gui.DeviceList.Valid.{
  Op, adds, filters, sorts_column, run, IsValid, macs, run-IsValid,
}
use rcdiscover.Gui.Inputs.{get_mac}
use rcdiscover.Gui.Inputs.RoundTrip.{get_mac-mac2string}
use rcdiscover.Gui.DiscoverWindow.{discover_thread, Shell}
use rcdiscover.Gui.DiscoverWindow.Listed.{
  has_answer_in, rounds_until_failure, discover_thread-listed,
}
use rcdiscover.Examples.Network.{visard}

abbrev left_camera : DeviceListData
left_camera =
    new_device [] (codes "left") (codes "Roboception") (codes "rc_visard 65") (codes "1")
      (codes "10.0.2.99") (codes "00:14:2d:00:00:01") (codes "eth0") true

abbrev right_camera : DeviceListData
right_camera =
    new_device [] (codes "right") (codes "Roboception") (codes "rc_visard 160") (codes "2")
      (codes "10.0.2.98") (codes "00:14:2d:00:00:02") (codes "eth0") false

abbrev table : DeviceList
table = record new_list { device = right_camera ∷ left_camera ∷ [] }

update_device_indices-IsShown_example :
    (is : List ℕ) × (update_device_indices table ≡ some (record table { index = is }))
    × IsShown (record table { index = is }) (length table.device)
update_device_indices-IsShown_example = update_device_indices-IsShown table (omega arith)

nothing_found : find_mac [] (codes "00:14:2d:00:00:01") ≡ none
unfolding find_mac
nothing_found = refl

add-IsShown_example :
    let d =
      new_device []
        (codes "left")
        (codes "Roboception")
        (codes "rc_visard 65")
        (codes "1")
        (codes "10.0.2.99")
        (codes "00:14:2d:00:00:01")
        (codes "eth0")
        true in
    (is : List ℕ) × (add new_list
        (codes "left")
        (codes "Roboception")
        (codes "rc_visard 65")
        (codes "1")
        (codes "10.0.2.99")
        (codes "00:14:2d:00:00:01")
        (codes "eth0")
        true
      ≡ some (record new_list {
        new_discovery = false || d.new_discovery;
        device = [] ++ d ∷ [];
        index = is;
      }))
    × IsShown
        (record new_list {
          new_discovery = false || d.new_discovery;
          device = [] ++ d ∷ [];
          index = is;
        })
        (length ([] ++ d ∷ []))
add-IsShown_example =
    add-IsShown new_list (codes "left") (codes "Roboception") (codes "rc_visard 65") (codes "1")
      (codes "10.0.2.99") (codes "00:14:2d:00:00:01") (codes "eth0") true (omega arith)
      (nothing-IsShown new_list) nothing_found

new_list-IsValid : IsValid new_list
new_list-IsValid = record { column = omega arith; within = tt; distinct = tt }

abbrev some_ops : List Op
some_ops =
    adds (codes "left") (codes "Roboception") (codes "rc_visard 65") (codes "1") (codes "10.0.2.99")
      (codes "00:14:2d:00:00:01") (codes "eth0") true
    ∷ sorts_column 4
    ∷ filters (codes "visard")
    ∷ []

run-IsValid_example : (t : DeviceList) × (run some_ops new_list ≡ some t) × IsValid t
run-IsValid_example = run-IsValid some_ops new_list (tt, (omega arith, (tt, tt))) new_list-IsValid

-- Every ping succeeds.
abbrev shell : Shell
shell command = some 0

discover_thread-listed_example :
    (t : DeviceList) × (discover_thread shell new_list ((visard ∷ []) ∷ (visard ∷ []) ∷ [])
      ≡ some (t, (rounds_until_failure shell ((visard ∷ []) ∷ (visard ∷ []) ∷ [])).1))
    × IsValid t
    × ((m : Bytes)
        → has_member m (macs t.device)
          ≡ has_answer_in m (rounds_until_failure shell ((visard ∷ []) ∷ (visard ∷ []) ∷ [])).0)
discover_thread-listed_example =
    discover_thread-listed shell new_list ((visard ∷ []) ∷ (visard ∷ []) ∷ []) new_list-IsValid

get_mac-mac2string_example : get_mac (mac2string 0x00142d_123456) ≡ 0x00142d_123456
get_mac-mac2string_example = get_mac-mac2string 0x00142d_123456 (omega arith)
