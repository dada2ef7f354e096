-- ===== src/Gui/DiscoverWindow.antt =====
-- `DiscoverWindow` of tools/rcdiscover-gui/discover_window.cc: which buttons and menu entries the
-- selection switches on, what a handler of the window does, and how the discovery thread enters
-- devices into the table. `none` is a read outside an array.
pub mod Listed
use rcdiscover.Base.{
  ℕ, Bool, true, false, not, ◌||◌, List, [], ◌∷◌, Option, none, some, Bytes, codes, ◌++◌, is_empty,
  if◌then◌else◌, ◌==◌,
}
use rcdiscover.Text.{ip2string, mac2string}
use rcdiscover.DeviceInfo.{DeviceInfo, is_valid}
use rcdiscover.Gui.DeviceList.{DeviceList, add, clear, ◌>>=◌}
use rcdiscover.Gui.DeviceList.Actions.{
  filter_rc_devices, filter, is_rc_visard_selected, is_reachable_device_selected,
  is_reachable_rc_device_selected, get_selected_mac, get_selected_row, get_cell,
  get_current_name_mac_list,
}
use rcdiscover.Gui.Inputs.{DeviceChoice, update_choice_macs}

-- The rows that are selected.
abbrev pub Selection : Type 0
Selection = ℕ → Bool

-- The buttons that `update` switches, except the one that starts a discovery.
pub record Buttons : Type 0 where
  pub reset : Bool
  pub change_ip_config : Bool

unfoldable pub update : DeviceList → Selection → Option Buttons
update list selected = do
  visard ← is_rc_visard_selected list selected
  reachable ← is_reachable_device_selected list selected
  mac ← get_selected_mac list selected
  some (record { reset = visard || is_empty mac; change_ip_config = reachable || is_empty mac })

unfoldable pub do_only_rc : DeviceList → Bool → Option DeviceList
do_only_rc = filter_rc_devices

unfoldable pub do_filter : DeviceList → Bytes → Option DeviceList
do_filter = filter

-- The menu entries that `doOpenContextMenu` switches for the row that was clicked on.
pub record ContextMenu : Type 0 where
  pub open_web_gui : Bool
  pub reset : Bool
  pub change_ip_config : Bool

abbrev pub only_row : ℕ → Selection
only_row row r = r == row

unfoldable pub do_open_context_menu : DeviceList → ℕ → Option ContextMenu
do_open_context_menu list row = do
  rc ← is_reachable_rc_device_selected list (only_row row)
  visard ← is_rc_visard_selected list (only_row row)
  reachable ← is_reachable_device_selected list (only_row row)
  some (record { open_web_gui = rc; reset = visard; change_ip_config = reachable })

-- The text that goes to the clipboard, if a row is selected.
unfoldable pub do_copy_to_clipboard : DeviceList → Selection → ℕ → Option (Option Bytes)
do_copy_to_clipboard list selected i = elim (get_selected_row list selected) [
  | none ↦ some none
  | some r ↦ (do value ← get_cell list r i; some (some value))
]

-- The devices and the selected one with which `doReset` opens the window, if it does.
unfoldable pub do_reset : DeviceList → Selection → Option (Option (List (Bytes × Bytes) × Bytes))
do_reset list selected = do
  mac ← get_selected_mac list selected
  visard ← is_rc_visard_selected list selected
  if visard || is_empty mac
      then (do devices ← get_current_name_mac_list list true; some (some (devices, mac)))
      else some none

-- `doSetTmpIP` and `doReconnect`.
unfoldable pub do_any_device : DeviceList → Selection → Option (List (Bytes × Bytes) × Bytes)
do_any_device list selected = do
  devices ← get_current_name_mac_list list false
  mac ← get_selected_mac list selected
  some (devices, mac)

-- The command that `checkReachabilityOfSensor` (rcdiscover/ping.cc) runs.
abbrev pub ping_command : DeviceInfo → Bytes
ping_command info = codes "ping -c 1 -W 1 " ++ ip2string info.ip

-- What `popen` and `pclose` do with a command: its exit code, or none if it cannot be run.
abbrev pub Shell : Type 0
Shell = Bytes → Option ℕ

-- `checkReachabilityOfSensor`; `none` is the exception that it throws if the command cannot be run.
unfoldable pub check_reachability_of_sensor : Shell → DeviceInfo → Option Bool
check_reachability_of_sensor shell info = elim (shell (ping_command info)) [
  | none ↦ none
  | some exit_code ↦ some (exit_code == 0)
]

-- `list->add` with the value of `checkReachabilityOfSensor`: the table, and whether that threw.
unfoldable pub add_checked : Option Bool → DeviceList → DeviceInfo → Option (DeviceList × Bool)
add_checked none list info = some (list, true)
add_checked (some reachable) list info = do
  list' ←
      add list info.user_name info.manufacturer_name info.model_name info.serial_number
        (ip2string info.ip) (mac2string info.mac) info.iface_name reachable
  some (list', false)

-- The body of the loop of `discoverThread` over the answers.
unfoldable pub add_info : Shell → DeviceList → DeviceInfo → Option (DeviceList × Bool)
unfolding check_reachability_of_sensor add_checked
add_info shell list info =
    if is_valid info
    then add_checked (check_reachability_of_sensor shell info) list info
    else some (list, false)

-- The loop, which an exception leaves.
unfoldable pub add_infos : Shell → DeviceList → List DeviceInfo → Option (DeviceList × Bool)
unfolding add_info
add_infos shell list [] = some (list, false)
add_infos shell list (info ∷ infos) = do
  next ← add_info shell list info
  if next.1 then some next else add_infos shell next.0 infos

-- The rounds of the loop of `discoverThread`, with the answers of each, behind `clear`.
unfoldable pub add_rounds : Shell → DeviceList → List (List DeviceInfo) → Option (DeviceList × Bool)
unfolding add_infos
add_rounds shell list [] = some (list, false)
add_rounds shell list (infos ∷ rounds) = do
  next ← add_infos shell list infos
  if next.1 then some next else add_rounds shell next.0 rounds

-- The table at the end, and whether an exception was caught.
unfoldable pub discover_thread :
    Shell → DeviceList → List (List DeviceInfo) → Option (DeviceList × Bool)
unfolding add_rounds
discover_thread shell list = add_rounds shell (clear list)
