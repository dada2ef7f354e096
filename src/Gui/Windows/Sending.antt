-- ===== src/Gui/Windows/Sending.antt =====
-- What the windows send once their questions are answered.
use rcdiscover.Base.{
  ℕ, ◌^◌, ◌<◌, ◌≡◌, ◌≢◌, refl, ◌∙◌, ap, Bool, true, not, ◌||◌, ◌==◌, List, Bytes, Option, Exn, none,
  some, Result, ok, err, arith,
}
use rcdiscover.Words.{and_bits}
use rcdiscover.Text.{mac2string}
use rcdiscover.Socket.{Socket, Os, Ifaddr}
use rcdiscover.ForceIp.{Traffic, send_command, force_ip}
use rcdiscover.Gvcp.{IpConfig, World, Reply, write_config}
use rcdiscover.Gui.Inputs.{
  get_mac, get_ip, set_ip, is_valid_ip, is_valid_mac, without_ip, choice_mac, update_choice,
  update_choice_macs,
}
use rcdiscover.Gui.Inputs.RoundTrip.{get_ip-set_ip, get_mac-mac2string}
use rcdiscover.Gui.Inputs.Choice.{
  AllPlain, last_with_mac, last_with_mac-mac, update_choice-choice, mac_or_empty,
}
use rcdiscover.Gui.Windows.{Addresses}
use rcdiscover.Gui.Windows.SetTmpIp
use rcdiscover.Gui.Windows.SetTmpIp.{SetTmpIpWindow, is_complete}
use rcdiscover.Gui.Windows.Reconnect
use rcdiscover.Gui.Windows.Reconnect.{ReconnectWindow}
use rcdiscover.Gui.Windows.ChangeIpConfig
use rcdiscover.Gui.Windows.ChangeIpConfig.{
  ChangeIpConfigWindow, show_config, config_of, is_allowed, gvcp_ip_config,
}

-- An address that an input field can hold: it has `k` bits, and is not zero.
abbrev pub IsShowable : ℕ → ℕ → Type 0
IsShowable k x = (x < 2 ^ k) × (x ≢ 0)

nonzero : (x : ℕ) → x ≢ 0 → not (x == 0) ≡ true
nonzero x h = ground arith

valid_ip : (x : ℕ) → IsShowable 32 x → is_valid_ip (set_ip x) ≡ true
valid_ip x (l, n) = ap (λ y. not (y == 0)) (get_ip-set_ip x l) ∙ nonzero x n

valid_mac : (x : ℕ) → IsShowable 48 x → is_valid_mac (mac2string x) ≡ true
valid_mac x (l, n) = ap (λ y. not (y == 0)) (get_mac-mac2string x l) ∙ nonzero x n

-- The fields that show three addresses.
abbrev pub shown_addresses : ℕ → ℕ → ℕ → Addresses
shown_addresses ip mask gateway = record {
  ip = set_ip ip;
  subnet_mask = set_ip mask;
  default_gateway = set_ip gateway;
}

SetTmpIp-sent : (w : SetTmpIpWindow) (r : Traffic × Option Exn) → (SetTmpIp.sent w r).traffic ≡ r.0
SetTmpIp-sent w (t, none) = refl
SetTmpIp-sent w (t, some e) = refl

Reconnect-sent :
    (w : ReconnectWindow) (r : Traffic × Option Exn) → (Reconnect.sent w r).traffic ≡ r.0
Reconnect-sent w (t, none) = refl
Reconnect-sent w (t, some e) = refl

ChangeIpConfig-written :
    {S : Type 0} (os : Os) (net : Socket → S → Bytes → S × Reply) (w : ChangeIpConfigWindow)
    (r : World S × Result (Unit {0}))
    → (ChangeIpConfig.written os net w r).world ≡ r.0
ChangeIpConfig-written os net w (world, ok _) = refl
ChangeIpConfig-written os net w (world, err e) = refl

-- `SetTmpIPWindow::isSet` with fields that show a MAC address and three addresses, none of them
-- zero, and with the questions answered with yes, where the one about different subnets is asked
-- only if the address and the gateway differ under the mask: if the sockets can be created, what is
-- sent is what `ForceIP::sendCommand` sends for these numbers.
pub is_set-sends :
    (os : Os) (addrs : List Ifaddr) (sockets : List Socket) (w : SetTmpIpWindow) (t : Traffic)
    (mac ip mask gateway : ℕ) (proceed : Bool)
    → IsShowable 48 mac
    → IsShowable 32 ip
    → IsShowable 32 mask
    → IsShowable 32 gateway
    → force_ip os addrs ≡ ok sockets
    → (and_bits 32 ip mask == and_bits 32 gateway mask || proceed) ≡ true
    → (SetTmpIp.is_set os addrs proceed true
        (record w { mac = mac2string mac; addresses = shown_addresses ip mask gateway })
        t).traffic
      ≡ (send_command os sockets mac ip mask gateway t).0
unfolding SetTmpIp.is_set SetTmpIp.set_confirmed
is_set-sends os addrs sockets w t mac ip mask gateway proceed hm hi hs hg created agreed =
    rw
      (
        SetTmpIp.is_set,
        valid_mac mac hm,
        valid_ip ip hi,
        valid_ip mask hs,
        valid_ip gateway hg,
        get_ip-set_ip ip hi.0,
        get_ip-set_ip mask hs.0,
        get_ip-set_ip gateway hg.0,
        agreed,
        created,
        SetTmpIp.set_confirmed,
        get_mac-mac2string mac hm.0,
        get_ip-set_ip ip hi.0,
        get_ip-set_ip mask hs.0,
        get_ip-set_ip gateway hg.0,
      )
      (SetTmpIp-sent
        (record w { mac = mac2string mac; addresses = shown_addresses ip mask gateway })
        (send_command os sockets mac ip mask gateway t))

reconnect-of_mac :
    (os : Os) (addrs : List Ifaddr) (sockets : List Socket) (w : ReconnectWindow) (t : Traffic)
    (mac : ℕ)
    → get_mac w.mac ≡ mac
    → mac ≢ 0
    → force_ip os addrs ≡ ok sockets
    → (Reconnect.is_reconnect os addrs true w t).traffic ≡ (send_command os sockets mac 0 0 0 t).0
unfolding Reconnect.is_reconnect Reconnect.reconnect_confirmed
reconnect-of_mac os addrs sockets w t mac e n created =
    rw (Reconnect.is_reconnect, e, nonzero mac n, created, Reconnect.reconnect_confirmed, e)
      (Reconnect-sent w (send_command os sockets mac 0 0 0 t))

-- `ReconnectWindow::isReconnect` after the device with the MAC address `mac`, which is not zero, was
-- selected in a list whose names hold no " - " and do not end in " -": if the question is answered
-- with yes and the sockets can be created, what is sent is what `ForceIP::sendCommand` sends for
-- this MAC address with zeros as addresses.
pub is_reconnect-sends :
    (os : Os) (addrs : List Ifaddr) (sockets : List Socket) (list : List (Bytes × Bytes))
    (w : ReconnectWindow) (t : Traffic) (mac : ℕ) (d : Bytes × Bytes × Bytes)
    → IsShowable 48 mac
    → AllPlain (without_ip list)
    → last_with_mac (mac2string mac) (without_ip list) ≡ some d
    → force_ip os addrs ≡ ok sockets
    → (Reconnect.is_reconnect os addrs true
        (Reconnect.update_devices list (mac2string mac) w)
        t).traffic
      ≡ (send_command os sockets mac 0 0 0 t).0
unfolding Reconnect.update_devices Reconnect.is_changing_device Reconnect.update update_choice_macs
is_reconnect-sends os addrs sockets list w t mac d hm plain there created =
    let chosen : choice_mac (update_choice (without_ip list) (mac2string mac)) ≡ mac2string mac =
      (update_choice-choice (without_ip list) (mac2string mac) plain).0
      ∙ ap mac_or_empty there
      ∙ last_with_mac-mac (mac2string mac) (without_ip list) d there in
    reconnect-of_mac os addrs sockets (Reconnect.update_devices list (mac2string mac) w) t mac
      (ap get_mac chosen ∙ get_mac-mac2string mac hm.0) hm.1 created

-- Every field of a configuration fits into 32 bits.
abbrev pub IsConfig : IpConfig → Type 0
IsConfig c =
    (c.persistent_ip < 2 ^ 32) × (c.persistent_subnet < 2 ^ 32) × (c.persistent_gateway < 2 ^ 32)

config_of-show_config :
    (c : IpConfig) (w : ChangeIpConfigWindow) → IsConfig c → config_of (show_config c w) ≡ c
unfolding config_of show_config
config_of-show_config c w (hi, hm, hg) =
    rw
      (
        config_of,
        get_ip-set_ip c.persistent_ip hi,
        get_ip-set_ip c.persistent_subnet hm,
        get_ip-set_ip c.persistent_gateway hg,
      )
      refl

-- `ChangeIPConfigWindow::isSet` on the fields as `readCurrentConfigFromDevice` sets them for a
-- configuration of 32-bit numbers writes this configuration to the device, if the fields are
-- accepted, the questions are answered with yes, where the one about different subnets is asked only
-- if it applies, and the socket can be created.
pub is_set-writes :
    {S : Type 0} (os : Os) (net : Socket → S → Bytes → S × Reply) (s : Socket) (c : IpConfig)
    (w : ChangeIpConfigWindow) (world : World S) (proceed : Bool)
    → IsConfig c
    → is_allowed proceed (show_config c w) ≡ true
    → gvcp_ip_config os (get_ip w.current_ip) ≡ ok s
    → (ChangeIpConfig.is_set os net proceed true (show_config c w) world).world
      ≡ (write_config (net s) c world).0
unfolding ChangeIpConfig.is_set ChangeIpConfig.set_confirmed show_config
is_set-writes os net s c w world proceed h agreed created =
    rw
      (
        ChangeIpConfig.is_set,
        agreed,
        created,
        ChangeIpConfig.set_confirmed,
        config_of-show_config c w h,
      )
      (ChangeIpConfig-written os net (show_config c w) (write_config (net s) c world))
