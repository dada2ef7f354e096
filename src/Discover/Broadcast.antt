-- ===== src/Discover/Broadcast.antt =====
-- What `broadcastRequest` sends.
use rcdiscover.Base.{
  ℕ, suc, ◌≡◌, refl, true, false, List, [], ◌∷◌, ◌++◌, Option, none, Bytes, append-nil,
  append_assoc, All, Exn, network_unreachable, ok, err, Bool-cases, inl, inr, Result-cases, sym,
  ◌∙◌,
}
use rcdiscover.RequestCounter.Cycle.{after_calls, nth_id}
use rcdiscover.Socket.{Socket, Os, send}
use rcdiscover.Discover.{
  ReqId, Requests, discovery_cmd, is_selected, take_id, request_all, broadcast_request,
}

-- The ids of the calls `k`, `k + 1`, …, one for each selected socket.
abbrev pub ids_from : List Bytes → ℕ → List Socket → List ReqId
ids_from iface k [] = []
ids_from iface k (s ∷ sockets) = elim (is_selected iface s) [
  | true ↦ nth_id k ∷ ids_from iface (suc k) sockets
  | false ↦ ids_from iface k sockets
]

-- A DISCOVERY command of the GigE Vision control protocol: the key 0x42, the flags 0x11 that ask for
-- an answer and allow a broadcast, the command number 2 and the length 0 in two bytes each, and the
-- two bytes of the request id, the high byte first.
abbrev pub command_with_id : ReqId → Bytes
command_with_id id = (0x42 ∷ 0x11 ∷ []) ++ (0 ∷ 2 ∷ []) ++ (0 ∷ 0 ∷ []) ++ (id.0 ∷ id.1 ∷ [])

-- What reaches the network: one request to each selected socket whose send succeeds.
abbrev pub sent_from : Os → List Bytes → ℕ → List Socket → List (Socket × Bytes)
sent_from os iface k [] = []
sent_from os iface k (s ∷ sockets) = elim (is_selected iface s) [
  | true ↦ elim (send os s (command_with_id (nth_id k))) [
    | ok sent ↦ sent ++ sent_from os iface (suc k) sockets
    | err e ↦ sent_from os iface (suc k) sockets
  ]
  | false ↦ sent_from os iface k sockets
]

-- Every send to one of the sockets succeeds or finds the network unreachable.
abbrev pub OnlyUnreachable : Os → List Socket → Type 0
OnlyUnreachable os sockets =
    (b : Bytes) → All (λ s. (e : Exn) → send os s b ≡ err e → e ≡ network_unreachable) sockets

record Sends (r t : Requests) (thrown : Option Exn) (ids : List ReqId)
    (sent : List (Socket × Bytes)) : Type 0 where
  finishes : thrown ≡ none
  numbered : t.req_nums ≡ r.req_nums ++ ids
  wired : t.wire ≡ r.wire ++ sent

-- The step for one selected socket: its id is kept, and what it sent goes before the rest.
Sends-cons :
    {r t : Requests} {thrown : Option Exn} (x : ReqId) (ids : List ReqId)
    (sent rest : List (Socket × Bytes)) (c : ℕ)
    → Sends
        (record { counter = c; req_nums = r.req_nums ++ x ∷ []; wire = r.wire ++ sent })
        t
        thrown
        ids
        rest
    → Sends r t thrown (x ∷ ids) (sent ++ rest)
Sends-cons {r} x ids sent rest c h = record {
  finishes = h.finishes;
  numbered = h.numbered ∙ append_assoc r.req_nums (x ∷ []) ids;
  wired = h.wired ∙ append_assoc r.wire sent rest;
}

Sends-id :
    {r t : Requests} {thrown : Option Exn} (x : ReqId) (ids : List ReqId)
    (rest : List (Socket × Bytes)) (c : ℕ)
    → Sends
        (record { counter = c; req_nums = r.req_nums ++ x ∷ []; wire = r.wire })
        t
        thrown
        ids
        rest
    → Sends r t thrown (x ∷ ids) rest
Sends-id {r} x ids rest c h = record {
  finishes = h.finishes;
  numbered = h.numbered ∙ append_assoc r.req_nums (x ∷ []) ids;
  wired = h.wired;
}

abbrev pub start : ℕ → List ReqId → List (Socket × Bytes) → Requests
start k ids wire = record { counter = after_calls k; req_nums = ids; wire = wire }

abbrev Result-of : Requests → Requests × Option Exn → List ReqId → List (Socket × Bytes) → Type 0
Result-of r out ids sent = Sends r out.0 out.1 ids sent

request_all-Sends :
    (os : Os) (iface : List Bytes) (sockets : List Socket) (k : ℕ) (ids : List ReqId)
    (wire : List (Socket × Bytes))
    → OnlyUnreachable os sockets
    → Result-of
        (start k ids wire)
        (request_all os iface sockets (start k ids wire))
        (ids_from iface k sockets)
        (sent_from os iface k sockets)
unfolding request_all take_id after_calls nth_id
request_all-Sends os iface [] k ids wire only = record {
  finishes = refl;
  numbered = sym (append-nil ids);
  wired = sym (append-nil wire);
}
request_all-Sends os iface (s ∷ sockets) k ids wire only = elim (Bool-cases (is_selected iface s)) [
  | inr skip ↦
      rw (skip, request_all, ids_from, sent_from)
        (request_all-Sends os iface sockets k ids wire (λ b. (only b).1))
  | inl take ↦ elim (Result-cases (send os s (discovery_cmd (nth_id k)))) [
    | inl (sent, e) ↦
        rw (take, e, request_all, ids_from, sent_from)
          (Sends-cons (nth_id k) _ sent _ _ (
            request_all-Sends os iface sockets (suc k) (ids ++ nth_id k ∷ []) (wire ++ sent)
              (λ b. (only b).1)))
    | inr (x, e) ↦
        rw (take, e, (only (discovery_cmd (nth_id k))).0 x e, request_all, ids_from, sent_from)
          (Sends-id (nth_id k) _ _ _ (
            request_all-Sends os iface sockets (suc k) (ids ++ nth_id k ∷ []) wire
              (λ b. (only b).1)))
  ]
]

-- A broadcast as request number `k` of the program, when a send can only fail because the network
-- is unreachable: it ends without an exception, the ids kept for the listeners are those of the
-- next calls of the counter, one for each selected socket, and each selected socket whose network
-- is reachable sends one discovery command that carries its id.
pub broadcast_request_lem :
    (os : Os) (iface : List Bytes) (sockets : List Socket) (k : ℕ) (ids : List ReqId)
    (wire : List (Socket × Bytes))
    → OnlyUnreachable os sockets
    → ((broadcast_request os iface sockets (start k ids wire)).1 ≡ none)
      × ((broadcast_request os iface sockets (start k ids wire)).0.req_nums
          ≡ ids_from iface k sockets)
      × ((broadcast_request os iface sockets (start k ids wire)).0.wire
          ≡ wire ++ sent_from os iface k sockets)
unfolding broadcast_request
broadcast_request_lem os iface sockets k ids wire only =
    let h = request_all-Sends os iface sockets k [] wire only in (h.finishes, h.numbered, h.wired)
