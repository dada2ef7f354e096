-- ===== src/Gui/Windows/Asking.antt =====
-- The windows of tools/rcdiscover-gui send nothing that the user has not agreed to.
use rcdiscover.Base.{
  ◌≡◌, ◌≢◌, refl, Bool, true, false, ◌&&◌, ◌||◌, ◌==◌, Bool-cases, inl, inr, List, Bytes, Result,
  ok, err, arith,
}
use rcdiscover.Socket.{Socket, Os, Ifaddr}
use rcdiscover.ForceIp.{Traffic, force_ip}
use rcdiscover.Gvcp.{World, Reply}
use rcdiscover.Gui.Inputs.{get_ip, is_valid_mac}
use rcdiscover.Gui.Windows.{network, gateway_network}
use rcdiscover.Gui.Windows.SetTmpIp
use rcdiscover.Gui.Windows.SetTmpIp.{SetTmpIpWindow, is_complete}
use rcdiscover.Gui.Windows.Reconnect
use rcdiscover.Gui.Windows.Reconnect.{ReconnectWindow}
use rcdiscover.Gui.Windows.ChangeIpConfig
use rcdiscover.Gui.Windows.ChangeIpConfig.{ChangeIpConfigWindow, is_allowed, gvcp_ip_config}

SetTmpIp-unsure :
    (os : Os) (w : SetTmpIpWindow) (t : Traffic) (r : Result (List Socket))
    → (SetTmpIp.set_confirmed os false w t r).traffic ≡ t
unfolding SetTmpIp.set_confirmed
SetTmpIp-unsure os w t (ok s) = refl
SetTmpIp-unsure os w t (err e) = refl

Reconnect-unsure :
    (os : Os) (w : ReconnectWindow) (t : Traffic) (r : Result (List Socket))
    → (Reconnect.reconnect_confirmed os false w t r).traffic ≡ t
unfolding Reconnect.reconnect_confirmed
Reconnect-unsure os w t (ok s) = refl
Reconnect-unsure os w t (err e) = refl

ChangeIpConfig-unsure :
    {S : Type 0} (os : Os) (net : Socket → S → Bytes → S × Reply) (w : ChangeIpConfigWindow)
    (world : World S) (r : Result Socket)
    → (ChangeIpConfig.set_confirmed os net false w world r).world ≡ world
unfolding ChangeIpConfig.set_confirmed
ChangeIpConfig-unsure os net w world (ok s) = refl
ChangeIpConfig-unsure os net w world (err e) = refl

both_true : (a b : Bool) → (a && b) ≡ true → (a ≡ true) × (b ≡ true)
both_true a b h = ground arith

-- `SetTmpIPWindow::isSet` sends something, or counts a request, only if all four fields are valid,
-- the user is sure, and the address and the gateway are in the same network or the user proceeds.
pub is_set-asks :
    (os : Os) (addrs : List Ifaddr) (proceed sure : Bool) (w : SetTmpIpWindow) (t : Traffic)
    → (SetTmpIp.is_set os addrs proceed sure w t).traffic ≢ t
    → (is_complete w ≡ true)
      × (sure ≡ true)
      × ((network w.addresses == gateway_network w.addresses || proceed) ≡ true)
unfolding SetTmpIp.is_set
is_set-asks os addrs proceed sure w t changed =
    elim (Bool-cases
      (is_complete w && (network w.addresses == gateway_network w.addresses || proceed))) [
        | inr e ↦ absurd (changed (rw (SetTmpIp.is_set, e) refl))
        | inl e ↦ elim (Bool-cases sure) [
          | inl y ↦
              (let (c, n) =
                  both_true (is_complete w)
                    (network w.addresses == gateway_network w.addresses || proceed) e in
                (c, y, n))
          | inr n ↦
              absurd
                (changed (rw (SetTmpIp.is_set, e, n) (SetTmpIp-unsure os w t (force_ip os addrs))))
        ]
      ]

-- `ReconnectWindow::isReconnect` sends something, or counts a request, only if the MAC address is
-- valid and the user is sure.
pub is_reconnect-asks :
    (os : Os) (addrs : List Ifaddr) (sure : Bool) (w : ReconnectWindow) (t : Traffic)
    → (Reconnect.is_reconnect os addrs sure w t).traffic ≢ t
    → (is_valid_mac w.mac ≡ true) × (sure ≡ true)
unfolding Reconnect.is_reconnect
is_reconnect-asks os addrs sure w t changed = elim (Bool-cases (is_valid_mac w.mac)) [
  | inr e ↦ absurd (changed (rw (Reconnect.is_reconnect, e) refl))
  | inl e ↦ elim (Bool-cases sure) [
    | inl y ↦ (e, y)
    | inr n ↦
        absurd (
          changed (rw (Reconnect.is_reconnect, e, n) (Reconnect-unsure os w t (force_ip os addrs))))
  ]
]

-- `ChangeIPConfigWindow::isSet` sends something, or counts a request, only if the fields are
-- accepted and the user is sure.
pub is_set_config-asks :
    {S : Type 0} (os : Os) (net : Socket → S → Bytes → S × Reply) (proceed sure : Bool)
    (w : ChangeIpConfigWindow) (world : World S)
    → (ChangeIpConfig.is_set os net proceed sure w world).world ≢ world
    → (is_allowed proceed w ≡ true) × (sure ≡ true)
unfolding ChangeIpConfig.is_set
is_set_config-asks os net proceed sure w world changed = elim (Bool-cases (is_allowed proceed w)) [
  | inr e ↦ absurd (changed (rw (ChangeIpConfig.is_set, e) refl))
  | inl e ↦ elim (Bool-cases sure) [
    | inl y ↦ (e, y)
    | inr n ↦ absurd (
        changed (
          rw (ChangeIpConfig.is_set, e, n)
            (ChangeIpConfig-unsure os net w world (gvcp_ip_config os (get_ip w.current_ip)))))
  ]
]
