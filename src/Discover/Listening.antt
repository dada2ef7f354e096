-- ===== src/Discover/Listening.antt =====
-- The listeners and `getResponse`, in any order of events.
use rcdiscover.Base.{
  ℕ, ◌+◌, ◌≤◌, ◌≡◌, refl, true, List, [], ◌∷◌, Bytes, length, get_elem?_total, leb, arith,
  Bool-cases, inl, inr,
}
use rcdiscover.DeviceInfo.{DeviceInfo, make}
use rcdiscover.DeviceInfo.Bounds.{Returns, Returns-bind, set-Returns}
use rcdiscover.Discover.{
  ReqId, Shared, Arrival, nothing, failed, datagram, Event, receive, respond, Header, read_header,
  body_len, is_ack, on_header, handle, listen_round, get_response, run,
}

-- The receive buffer of a round: 600 bytes, of which `n` were received.
abbrev pub FitsBuffer : Arrival → Type 0
FitsBuffer nothing = Unit
FitsBuffer failed = Unit
FitsBuffer (datagram n p) = (length p ≡ 600) × (n ≤ 600)

read_header-Returns : (p : Bytes) → length p ≡ 600 → Returns (read_header p)
unfolding read_header
read_header-Returns p size = Returns-bind _ (get_elem?_total p 0 (omega arith)) λ p0.
    Returns-bind _ (get_elem?_total p 1 (omega arith)) λ p1.
      Returns-bind _ (get_elem?_total p 2 (omega arith)) λ p2.
        Returns-bind _ (get_elem?_total p 3 (omega arith)) λ p3.
          Returns-bind _ (get_elem?_total p 4 (omega arith)) λ p4.
            Returns-bind _ (get_elem?_total p 5 (omega arith)) λ p5.
              Returns-bind _ (get_elem?_total p 6 (omega arith))
                λ p6. Returns-bind _ (get_elem?_total p 7 (omega arith)) λ p7. (_, refl)

is_ack-fits : (reqs : List ReqId) (n : ℕ) (h : Header) → is_ack reqs n h ≡ true → body_len h + 8 ≤ n
unfolding is_ack
is_ack-fits reqs n h e = ground arith

handle-Returns :
    (iface : Bytes) (n : ℕ) (p : Bytes) (d : Shared)
    → length p ≡ 600
    → n ≤ 600
    → Returns (handle iface n p d)
unfolding handle on_header
handle-Returns iface n p d size fits = Returns-bind _ (read_header-Returns p size) λ h.
    elim (Bool-cases (is_ack d.req_nums n h)) [
      | inl e ↦ rw e (
          Returns-bind _
            (set-Returns p 8 (body_len h) (make iface) (omega (arith, is_ack-fits d.req_nums n h e))
              (omega arith))
            λ info. (_, refl))
      | inr e ↦ rw e (d, refl)
    ]

listen_round-Returns :
    (iface : Bytes) (a : Arrival) (d : Shared) → FitsBuffer a → Returns (listen_round iface a d)
unfolding listen_round
listen_round-Returns iface nothing d h = (d, refl)
listen_round-Returns iface failed d h = (d, refl)
listen_round-Returns iface (datagram n p) d (size, fits) = elim (Bool-cases (leb 8 n)) [
  | inl e ↦ rw e (handle-Returns iface n p d size fits)
  | inr e ↦ rw e (d, refl)
]

abbrev pub AllFit : List Event → Type 0
AllFit [] = Unit
AllFit (receive iface a ∷ events) = FitsBuffer a × AllFit events
AllFit (respond ∷ events) = AllFit events

-- When each datagram arrives in a buffer of 600 bytes and is no longer than that, no run of
-- listeners and caller reads outside of a buffer, whatever the datagrams hold.
pub run-Returns :
    (events : List Event) (d : Shared) (info : List DeviceInfo)
    → AllFit events
    → Returns (run events d info)
unfolding run get_response
run-Returns [] d info h = (_, refl)
run-Returns (receive iface a ∷ events) d info (h, hs) =
    Returns-bind _ (listen_round-Returns iface a d h) λ d'. run-Returns events d' info hs
run-Returns (respond ∷ events) d info h = run-Returns events _ _ h
