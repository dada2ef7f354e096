-- ===== src/Gui/Windows/Repeating.antt =====
-- How often `ResetWindow` sends its packet.
use rcdiscover.Base.{
  ℕ, ◌^◌, ◌<◌, ◌≡◌, ◌≢◌, refl, sym, ◌∙◌, ap, Bool, true, false, ◌==◌, List, [], ◌∷◌, ◌++◌,
  append-nil, append_assoc, Bytes, Option, none, some, inl, inr, Result-cases, Exn, arith,
  bind_result, unless_unreachable, network_unreachable,
}
use rcdiscover.Words.{to_byte_array}
use rcdiscover.Text.{mac2string}
use rcdiscover.Socket.{Socket, Os, Ifaddr, send, check, create_and_bind_for_all_interfaces}
use rcdiscover.Wol.{Wol, make, send_all, send_impl, append_magic_packet}
use rcdiscover.Gui.Inputs.RoundTrip.{get_mac-mac2string}
use rcdiscover.Gui.Windows.{Alert}
use rcdiscover.Gui.Windows.Reset.{
  ResetWindow, Wire, send_while, send_udp_request, mac_bytes, Request, func_id, is_request,
}

-- A sender that puts the same on the wire whatever is there.
abbrev Appends : (Wire → Wire × Alert) → Wire → Alert → Type 0
Appends send sent e = (wire : Wire) → send wire ≡ (wire ++ sent, e)

-- What was sent by the rounds for the answers, and the alert: without an alert a round for each yes
-- before the first no, and with one a single round.
abbrev pub rounds : Wire × Alert → List Bool → Wire × Alert
rounds (sent, e) [] = ([], none)
rounds (sent, e) (false ∷ answers) = ([], none)
rounds (sent, some e) (true ∷ answers) = (sent, some e)
rounds (sent, none) (true ∷ answers) =
    (sent ++ (rounds (sent, none) answers).0, (rounds (sent, none) answers).1)

extended :
    (wire first : Wire) (r : Wire × Alert)
    → ◌≡◌ {A = Wire × Alert} ((wire ++ first) ++ r.0, r.1) (wire ++ (first ++ r.0), r.1)
extended wire first r = λ i. (append_assoc wire first r.0 i, r.1)

send_while-rounds :
    (step : Wire → Wire × Alert) (sent : Wire) (e : Alert)
    → Appends step sent e
    → (answers : List Bool) (wire : Wire)
    → send_while step answers wire
      ≡ (wire ++ (rounds (sent, e) answers).0, (rounds (sent, e) answers).1)
unfolding send_while
send_while-rounds step sent e h [] wire = rw (append-nil wire) refl
send_while-rounds step sent e h (false ∷ answers) wire = rw (append-nil wire) refl
send_while-rounds step sent (some e) h (true ∷ answers) wire =
    rw (send_while, ap (λ r. r.1) (h wire), ap (λ r. r.0) (h wire)) refl
send_while-rounds step sent none h (true ∷ answers) wire =
    rw (send_while, ap (λ r. r.1) (h wire), ap (λ r. r.0) (h wire))
      (send_while-rounds step sent none h answers (wire ++ sent)
        ∙ extended wire sent (rounds (sent, none) answers))

-- What is on the wire already does not matter to a loop that does not look at it.
Skipping : (Wire → Wire × Alert) → Type 0
Skipping rest = (wire : Wire) → rest wire ≡ (wire ++ (rest []).0, (rest []).1)

skip_unreachable :
    (e : Exn) (rest : Wire → Wire × Alert)
    → Skipping rest
    → Skipping (λ wire. unless_unreachable e (rest wire) (λ x. (wire, some x)))
unfolding Skipping
skip_unreachable network_unreachable rest h wire = h wire
skip_unreachable e rest h wire = rw (append-nil wire) refl

send_all-wire : (os : Os) (buf : Bytes) (sockets : List Socket) → Skipping (send_all os buf sockets)
unfolding send_all Skipping
send_all-wire os buf [] wire = rw (append-nil wire) refl
send_all-wire os buf (s ∷ sockets) wire =
    elim (Result-cases (bind_result (check (os.setsockopt s) s) (λ _. check (os.fcntl s) s))) [
      | inr (x, f) ↦ rw (send_all, f, append-nil wire) refl
      | inl (_, f) ↦ elim (Result-cases (send os s buf)) [
        | inl (sent, g) ↦
            rw (send_all, f, g)
              (send_all-wire os buf sockets (wire ++ sent)
                ∙ extended wire sent (send_all os buf sockets [])
                ∙ ap (λ r. (wire ++ r.0, r.1)) (sym (send_all-wire os buf sockets sent)))
        | inr (e, g) ↦
            rw (send_all, f, g)
              (skip_unreachable e (send_all os buf sockets) (send_all-wire os buf sockets) wire)
      ]
    ]

send_impl-wire :
    (os : Os) (addrs : List Ifaddr) (w : Wol) (password : Option Bytes)
    → Skipping (send_impl os addrs w password)
unfolding send_impl Skipping
send_impl-wire os addrs w password wire =
    elim (Result-cases (create_and_bind_for_all_interfaces os w.port addrs)) [
      | inr (e, f) ↦ rw (send_impl, f, append-nil wire) refl
      | inl (sockets, f) ↦
          rw (send_impl, f) (send_all-wire os (append_magic_packet w password []) sockets wire)
    ]

mac_bytes-to_byte_array : (mac : ℕ) → mac_bytes mac ≡ to_byte_array 6 mac
unfolding mac_bytes to_byte_array
mac_bytes-to_byte_array mac = ground arith

nonzero : (mac : ℕ) → mac ≢ 0 → (mac == 0) ≡ false
nonzero mac n = ground arith

-- A button of `ResetWindow` for a field that shows the MAC address `mac`, which is not zero: the
-- magic packet for this address with the password of the button is sent once for every yes before
-- the first no, or, if sending it throws, once and no more, with the exception as the alert.
pub is_request-rounds :
    (os : Os) (addrs : List Ifaddr) (r : Request) (answers : List Bool) (w : ResetWindow)
    (wire : Wire) (mac : ℕ)
    → mac < 2 ^ 48
    → mac ≢ 0
    → is_request os addrs r answers (record w { mac = mac2string mac }) wire ≡ (
        let sent =
          rounds
            (send_impl os addrs (make mac 9) (some (0xEE ∷ 0xEE ∷ 0xEE ∷ func_id r ∷ [])) [])
            answers in
        record {
          window = record w { mac = mac2string mac; shown = false };
          wire = wire ++ sent.0;
          alert = sent.1;
        })
unfolding is_request send_udp_request make Skipping
is_request-rounds os addrs r answers w wire mac h n =
    let pw = some (0xEE ∷ 0xEE ∷ 0xEE ∷ func_id r ∷ []) in
    let once = send_impl os addrs (make mac 9) pw [] in
    rw
      (
        is_request,
        get_mac-mac2string mac h,
        send_udp_request,
        nonzero mac n,
        mac_bytes-to_byte_array mac,
        send_while-rounds (send_impl os addrs (make mac 9) pw) once.0 once.1
            (send_impl-wire os addrs (make mac 9) pw) answers wire,
      )
      refl
