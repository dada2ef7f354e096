-- ===== src/Gui/Windows/SetTmpIp.antt =====
-- `SetTmpIPWindow` of tools/rcdiscover-gui/set_tmp_ip_window.cc.
use rcdiscover.Base.{
  Bool, false, ◌&&◌, ◌||◌, List, [], Bytes, ◌==◌, if◌then◌else◌, is_empty, none, some, Result, ok,
  err,
}
use rcdiscover.Socket.{Socket, Os, Ifaddr}
use rcdiscover.ForceIp.{Traffic, send_command, force_ip}
use rcdiscover.Gui.Inputs.{
  DeviceChoice, choice_mac, update_choice_macs, get_mac, get_ip, is_valid_mac,
}
use rcdiscover.Gui.Windows.{
  Addresses, all_valid, network, gateway_network, suggest_gateway, suggest_subnet, Alert,
}

pub record SetTmpIpWindow : Type 0 where
  pub device : DeviceChoice
  pub mac : Bytes
  pub addresses : Addresses
  pub mac_active : Bool
  pub set_ip_active : Bool
  pub shown : Bool

abbrev pub is_complete : SetTmpIpWindow → Bool
is_complete w = is_valid_mac w.mac && all_valid w.addresses

unfoldable pub update : SetTmpIpWindow → SetTmpIpWindow
update w = record w { mac_active = is_empty (choice_mac w.device); set_ip_active = is_complete w }

unfoldable pub is_changing_device : SetTmpIpWindow → SetTmpIpWindow
unfolding update
is_changing_device w = update (record w { mac = choice_mac w.device })

unfoldable pub update_devices : List (Bytes × Bytes) → Bytes → SetTmpIpWindow → SetTmpIpWindow
unfolding is_changing_device
update_devices list sel_mac w =
    update (is_changing_device (record w { device = update_choice_macs list sel_mac }))

unfoldable pub do_subnet_mask : SetTmpIpWindow → SetTmpIpWindow
unfolding update
do_subnet_mask w = update (record w { addresses = suggest_gateway w.addresses })

unfoldable pub do_ip : SetTmpIpWindow → SetTmpIpWindow
unfolding do_subnet_mask
do_ip w = do_subnet_mask (record w { addresses = suggest_subnet w.addresses })

unfoldable pub is_clear : SetTmpIpWindow → SetTmpIpWindow
unfolding update
is_clear w =
    update (record w { addresses = record { ip = []; subnet_mask = []; default_gateway = [] } })

-- The window after a handler, what was sent, and the alert.
pub record Outcome : Type 0 where
  pub window : SetTmpIpWindow
  pub traffic : Traffic
  pub alert : Alert

abbrev pub sent : SetTmpIpWindow → Traffic × Alert → Outcome
sent w (t, none) = record { window = record w { shown = false }; traffic = t; alert = none }
sent w (t, some e) = record { window = w; traffic = t; alert = some e }

-- `isSet` behind the construction of the sockets; `sure` is the answer to the second question.
unfoldable pub set_confirmed : Os → Bool → SetTmpIpWindow → Traffic → Result (List Socket) → Outcome
set_confirmed os sure w t (err e) = record { window = w; traffic = t; alert = some e }
set_confirmed os sure w t (ok sockets) =
    if sure
    then sent w (
        send_command os sockets (get_mac w.mac) (get_ip w.addresses.ip)
          (get_ip w.addresses.subnet_mask) (get_ip w.addresses.default_gateway) t)
    else record { window = w; traffic = t; alert = none }

-- `isSet`; `proceed` is the answer to the question about different subnets.
unfoldable pub is_set : Os → List Ifaddr → Bool → Bool → SetTmpIpWindow → Traffic → Outcome
unfolding set_confirmed
is_set os addrs proceed sure w t =
    if is_complete w && (network w.addresses == gateway_network w.addresses || proceed)
    then set_confirmed os sure w t (force_ip os addrs)
    else record { window = w; traffic = t; alert = none }
