-- ===== src/Discover.antt =====
-- `Discover` of rcdiscover/discover.cc: the broadcast of discovery requests, a round of a listener
-- thread, and `getResponse`. The listener threads and the caller share `pending_` under a mutex, so
-- that a run is a sequence of events, each of which is one critical section.
pub mod Broadcast
pub mod Listening
pub mod Interleaving
pub mod Acknowledge
pub mod Threads
use rcdiscover.Base.{
  ℕ, zero, suc, ◌+◌, ◌*◌, Bool, true, false, ◌&&◌, ◌||◌, List, [], ◌∷◌, ◌++◌, Option, none, some,
  Bytes, get_elem?, bind_option, leb, ◌==◌, if◌then◌else◌, is_empty, text_eq, Exn,
  network_unreachable, Result, ok, err,
}
use rcdiscover.RequestCounter.{get_next}
use rcdiscover.DeviceInfo
use rcdiscover.DeviceInfo.{DeviceInfo, make, is_valid}
use rcdiscover.Socket.{Socket, Os, send}

abbrev pub ReqId : Type 0
ReqId = ℕ × ℕ

abbrev pub id_eq : ReqId → ReqId → Bool
id_eq (a, b) (c, d) = a == c && b == d

-- `std::find` in `req_nums_`, and in the list of interface names.
unfoldable pub has_id : ReqId → List ReqId → Bool
has_id x [] = false
has_id x (y ∷ ids) = id_eq y x || has_id x ids

unfoldable pub has_text : Bytes → List Bytes → Bool
unfolding text_eq
has_text x [] = false
has_text x (y ∷ texts) = text_eq y x || has_text x texts

-- What `broadcastRequest` changes: the request counter, `req_nums_`, and the network, as the list
-- of what was sent.
pub record Requests : Type 0 where
  pub counter : ℕ
  pub req_nums : List ReqId
  pub wire : List (Socket × Bytes)

abbrev pub discovery_cmd : ReqId → Bytes
discovery_cmd (hi, lo) = 0x42 ∷ 0x11 ∷ 0 ∷ 0x02 ∷ 0 ∷ 0 ∷ hi ∷ lo ∷ []

-- `iface.size() == 0 || std::find(…) != iface.end()`.
unfoldable pub is_selected : List Bytes → Socket → Bool
is_selected iface s = is_empty iface || has_text s.iface_name iface

-- `GigERequestCounter::getNext` and `req_nums_.push_back`.
unfoldable pub take_id : Requests → Requests
take_id r = record r {
  counter = (get_next r.counter).0;
  req_nums = r.req_nums ++ (get_next r.counter).1 ∷ [];
}

-- The loop over the sockets; an exception that leaves it is returned with the state it leaves.
unfoldable pub request_all : Os → List Bytes → List Socket → Requests → Requests × Option Exn
request_all os iface [] r = (r, none)
request_all os iface (s ∷ sockets) r = elim (is_selected iface s) [
  | false ↦ request_all os iface sockets r
  | true ↦ elim (send os s (discovery_cmd (get_next r.counter).1)) [
    | ok sent ↦ request_all os iface sockets (record (take_id r) { wire = r.wire ++ sent })
    | err network_unreachable ↦ request_all os iface sockets (take_id r)
    | err e ↦ (take_id r, some e)
  ]
]

unfoldable pub broadcast_request : Os → List Bytes → List Socket → Requests → Requests × Option Exn
broadcast_request os iface sockets r = request_all os iface sockets (record r { req_nums = [] })

-- What `select` and `recvfrom` report in a round of a listener: nothing within the timeout, an
-- error, or `n` bytes at the start of the receive buffer.
pub data Arrival : Type 0 where
  nothing failed : Arrival
  datagram : (n : ℕ) (p : Bytes) → Arrival

-- The state that the listeners and `getResponse` share.
pub record Shared : Type 0 where
  pub req_nums : List ReqId
  pub pending : List DeviceInfo

abbrev pub ◌>>=◌ {ℓ κ} : {A : Type ℓ} {B : Type κ} → Option A → (A → Option B) → Option B
◌>>=◌ = bind_option

abbrev pub push_valid : Shared → DeviceInfo → Shared
push_valid d info = if is_valid info then record d { pending = d.pending ++ info ∷ [] } else d

-- The header bytes `p[0]`, …, `p[7]`. The buffer has 600 bytes, so that reading them all first
-- changes nothing.
pub record Header : Type 0 where
  pub p0 : ℕ
  pub p1 : ℕ
  pub p2 : ℕ
  pub p3 : ℕ
  pub p4 : ℕ
  pub p5 : ℕ
  pub p6 : ℕ
  pub p7 : ℕ

unfoldable pub read_header : Bytes → Option Header
read_header p = do
  a ← get_elem? p 0
  b ← get_elem? p 1
  c ← get_elem? p 2
  d ← get_elem? p 3
  e ← get_elem? p 4
  f ← get_elem? p 5
  g ← get_elem? p 6
  h ← get_elem? p 7
  some (record { p0 = a; p1 = b; p2 = c; p3 = d; p4 = e; p5 = f; p6 = g; p7 = h })

-- `len`, the length of the body according to the header.
abbrev pub body_len : Header → ℕ
body_len h = h.p4 * 256 + h.p5

-- The conditions on a datagram of `n` bytes.
unfoldable pub is_ack : List ReqId → ℕ → Header → Bool
is_ack req_nums n h =
    h.p0 == 0
    && h.p1 == 0
    && h.p2 == 0
    && h.p3 == 0x03
    && has_id (h.p6, h.p7) req_nums
    && leb (body_len h + 8) n

unfoldable pub on_header : Bytes → ℕ → Bytes → Shared → Header → Option Shared
on_header iface n p d h =
    if is_ack d.req_nums n h
    then (do info ← DeviceInfo.set p 8 (body_len h) (make iface); some (push_valid d info))
    else some d

-- A datagram of at least 8 bytes.
unfoldable pub handle : Bytes → ℕ → Bytes → Shared → Option Shared
handle iface n p d = do h ← read_header p; on_header iface n p d h

-- A round of `listenOnSocket` for a socket of the interface `iface`.
unfoldable pub listen_round : Bytes → Arrival → Shared → Option Shared
listen_round iface nothing d = some d
listen_round iface failed d = some d
listen_round iface (datagram n p) d = if leb 8 n then handle iface n p d else some d

-- `getResponse`: the devices are appended to `info`, and the result tells whether there were any.
unfoldable pub get_response : Shared → List DeviceInfo → Shared × List DeviceInfo × Bool
get_response d info =
    (record d { pending = [] }, info ++ d.pending, elim d.pending [ [] ↦ false | _ ∷ _ ↦ true ])

pub data Event : Type 0 where
  receive : (iface : Bytes) (a : Arrival) → Event
  respond : Event

-- A run of listeners and caller: the shared state, and all that the caller has been given.
unfoldable pub run : List Event → Shared → List DeviceInfo → Option (Shared × List DeviceInfo)
run [] d info = some (d, info)
run (receive iface a ∷ events) d info = do d' ← listen_round iface a d; run events d' info
run (respond ∷ events) d info = let (d', info', _) = get_response d info in run events d' info'
