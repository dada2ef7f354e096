-- ===== src/Gui/Windows/Reset.antt =====
-- `ResetWindow` of tools/rcdiscover-gui/reset_window.cc.
use rcdiscover.Base.{
  ℕ, Bool, true, false, List, [], ◌∷◌, Bytes, ◌==◌, if◌then◌else◌, is_empty, none, some,
}
use rcdiscover.Words.{u8, shr}
use rcdiscover.Socket.{Socket, Os, Ifaddr}
use rcdiscover.Wol.{send_impl}
use rcdiscover.Gui.Inputs.{DeviceChoice, choice_mac, update_choice_macs, get_mac, is_valid_mac}
use rcdiscover.Gui.Windows.{Alert}

pub record ResetWindow : Type 0 where
  pub device : DeviceChoice
  pub mac : Bytes
  pub mac_active : Bool
  pub buttons_active : Bool
  pub shown : Bool

unfoldable pub update : ResetWindow → ResetWindow
update w = record w {
  mac_active = is_empty (choice_mac w.device);
  buttons_active = is_valid_mac w.mac;
}

unfoldable pub is_changing_device : ResetWindow → ResetWindow
unfolding update
is_changing_device w = update (record w { mac = choice_mac w.device })

unfoldable pub update_devices : List (Bytes × Bytes) → Bytes → ResetWindow → ResetWindow
unfolding is_changing_device
update_devices list sel_mac w =
    update (is_changing_device (record w { device = update_choice_macs list sel_mac }))

-- The array of the six bytes.
unfoldable pub mac_bytes : ℕ → Bytes
mac_bytes mac_value =
    u8 (shr mac_value 40)
    ∷ u8 (shr mac_value 32)
    ∷ u8 (shr mac_value 24)
    ∷ u8 (shr mac_value 16)
    ∷ u8 (shr mac_value 8)
    ∷ u8 mac_value
    ∷ []

abbrev pub Wire : Type 0
Wire = List (Socket × Bytes)

-- The loop: `answers` are the answers to the questions, in order, and a question that is not
-- answered is answered with no.
unfoldable pub send_while : (Wire → Wire × Alert) → List Bool → Wire → Wire × Alert
send_while send [] wire = (wire, none)
send_while send (false ∷ answers) wire = (wire, none)
send_while send (true ∷ answers) wire = elim (send wire).1 [
  | some e ↦ ((send wire).0, some e)
  | none ↦ send_while send answers (send wire).0
]

unfoldable pub send_udp_request : Os → List Ifaddr → ℕ → ℕ → List Bool → Wire → Wire × Alert
unfolding mac_bytes send_while
send_udp_request os addrs mac_value func_id answers wire =
    if mac_value == 0
    then (wire, none)
    else send_while
        (send_impl os addrs (record { hardware_addr = mac_bytes mac_value; port = 9 })
          (some (0xEE ∷ 0xEE ∷ 0xEE ∷ func_id ∷ [])))
        answers wire

-- The buttons of the window.
pub data Request : Type 0 where
  reset_parameters reset_network reset_all switch_partitions : Request

abbrev pub func_id : Request → ℕ
func_id reset_parameters = 0xAA
func_id reset_network = 0xBB
func_id reset_all = 0xFF
func_id switch_partitions = 0xCC

pub record Outcome : Type 0 where
  pub window : ResetWindow
  pub wire : Wire
  pub alert : Alert

-- `isResetParameters`, `isResetNetwork`, `isResetAll` and `isSwitchPartitions`.
unfoldable pub is_request : Os → List Ifaddr → Request → List Bool → ResetWindow → Wire → Outcome
unfolding send_udp_request
is_request os addrs r answers w wire =
    let s = send_udp_request os addrs (get_mac w.mac) (func_id r) answers wire in
    record { window = record w { shown = false }; wire = s.0; alert = s.1 }
