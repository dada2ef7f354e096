-- ===== src/Gui/Windows/Reconnect.antt =====
-- `ReconnectWindow` of tools/rcdiscover-gui/reconnect_window.cc.
use rcdiscover.Base.{Bool, false, List, Bytes, if◌then◌else◌, is_empty, none, some, Result, ok, err}
use rcdiscover.Socket.{Socket, Os, Ifaddr}
use rcdiscover.ForceIp.{Traffic, send_command, force_ip}
use rcdiscover.Gui.Inputs.{DeviceChoice, choice_mac, update_choice_macs, get_mac, is_valid_mac}
use rcdiscover.Gui.Windows.{Alert}

pub record ReconnectWindow : Type 0 where
  pub device : DeviceChoice
  pub mac : Bytes
  pub mac_active : Bool
  pub reconnect_active : Bool
  pub shown : Bool

unfoldable pub update : ReconnectWindow → ReconnectWindow
update w = record w {
  mac_active = is_empty (choice_mac w.device);
  reconnect_active = is_valid_mac w.mac;
}

unfoldable pub is_changing_device : ReconnectWindow → ReconnectWindow
unfolding update
is_changing_device w = update (record w { mac = choice_mac w.device })

unfoldable pub update_devices : List (Bytes × Bytes) → Bytes → ReconnectWindow → ReconnectWindow
unfolding is_changing_device
update_devices list sel_mac w =
    update (is_changing_device (record w { device = update_choice_macs list sel_mac }))

-- The window after a handler, what was sent, and the alert.
pub record Outcome : Type 0 where
  pub window : ReconnectWindow
  pub traffic : Traffic
  pub alert : Alert

abbrev pub sent : ReconnectWindow → Traffic × Alert → Outcome
sent w (t, none) = record { window = record w { shown = false }; traffic = t; alert = none }
sent w (t, some e) = record { window = w; traffic = t; alert = some e }

unfoldable pub reconnect_confirmed :
    Os → Bool → ReconnectWindow → Traffic → Result (List Socket) → Outcome
reconnect_confirmed os sure w t (err e) = record { window = w; traffic = t; alert = some e }
reconnect_confirmed os sure w t (ok sockets) =
    if sure
    then sent w (send_command os sockets (get_mac w.mac) 0 0 0 t)
    else record { window = record w { shown = false }; traffic = t; alert = none }

-- `isReconnect`; `sure` is the answer to the question.
unfoldable pub is_reconnect : Os → List Ifaddr → Bool → ReconnectWindow → Traffic → Outcome
unfolding reconnect_confirmed
is_reconnect os addrs sure w t =
    if is_valid_mac w.mac
    then reconnect_confirmed os sure w t (force_ip os addrs)
    else record { window = w; traffic = t; alert = none }
