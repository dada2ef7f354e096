-- ===== src/Discover/Interleaving.antt =====
-- No response is lost, given twice or reordered, however listeners and caller interleave.
use rcdiscover.Base.{
  ℕ, ◌≡◌, refl, ◌∙◌, ap, List, [], ◌∷◌, ◌++◌, append-nil, append_assoc, Option, none, some, Bytes,
  bind_option, leb, arith, Bool-cases, Option-cases, inl, inr,
}
use rcdiscover.DeviceInfo
use rcdiscover.DeviceInfo.{DeviceInfo, make, is_valid}
use rcdiscover.Discover.{
  ReqId, Shared, Arrival, nothing, failed, datagram, Event, receive, respond, Header, read_header,
  body_len, is_ack, on_header, handle, listen_round, get_response, push_valid, run,
}

abbrev idle : List ReqId → Shared
idle reqs = record { req_nums = reqs; pending = [] }

-- The devices that one arrival contributes.
unfoldable pub found : List ReqId → Bytes → Arrival → List DeviceInfo
found reqs iface a = elim (listen_round iface a (idle reqs)) [ none ↦ [] | some d ↦ d.pending ]

-- The devices that the arrivals of a run contribute, in the order of the arrivals.
abbrev pub found_in : List ReqId → List Event → List DeviceInfo
found_in reqs [] = []
found_in reqs (receive iface a ∷ events) = found reqs iface a ++ found_in reqs events
found_in reqs (respond ∷ events) = found_in reqs events

abbrev after : List ReqId → List DeviceInfo → Option Shared → Option Shared
after reqs old none = none
after reqs old (some d) = some (record { req_nums = reqs; pending = old ++ d.pending })

bind-after :
    {A : Type 0} (reqs : List ReqId) (old : List DeviceInfo) (o : Option A)
    (f g : A → Option Shared)
    → ((a : A) → f a ≡ after reqs old (g a))
    → bind_option o f ≡ after reqs old (bind_option o g)
bind-after reqs old none f g h = refl
bind-after reqs old (some a) f g h = h a

push_valid-after :
    (reqs : List ReqId) (old : List DeviceInfo) (info : DeviceInfo)
    → some (push_valid (record { req_nums = reqs; pending = old }) info)
      ≡ after reqs old (some (push_valid (idle reqs) info))
push_valid-after reqs old info = elim (Bool-cases (is_valid info)) [
  | inl e ↦ rw e
  | inr e ↦ rw (e, append-nil)
]

on_header-after :
    (iface : Bytes) (n : ℕ) (p : Bytes) (reqs : List ReqId) (old : List DeviceInfo) (h : Header)
    → on_header iface n p (record { req_nums = reqs; pending = old }) h
      ≡ after reqs old (on_header iface n p (idle reqs) h)
unfolding on_header
on_header-after iface n p reqs old h = elim (Bool-cases (is_ack reqs n h)) [
  | inl e ↦ rw e (
      bind-after reqs old (DeviceInfo.set p 8 (body_len h) (make iface)) _ _
        λ info. push_valid-after reqs old info)
  | inr e ↦ rw (e, append-nil)
]

handle-after :
    (iface : Bytes) (n : ℕ) (p : Bytes) (reqs : List ReqId) (old : List DeviceInfo)
    → handle iface n p (record { req_nums = reqs; pending = old })
      ≡ after reqs old (handle iface n p (idle reqs))
unfolding handle
handle-after iface n p reqs old =
    bind-after reqs old (read_header p)
      (on_header iface n p (record { req_nums = reqs; pending = old }))
      (on_header iface n p (idle reqs)) λ h. on_header-after iface n p reqs old h

listen_round-after :
    (iface : Bytes) (a : Arrival) (reqs : List ReqId) (old : List DeviceInfo)
    → listen_round iface a (record { req_nums = reqs; pending = old })
      ≡ after reqs old (listen_round iface a (idle reqs))
unfolding listen_round
listen_round-after iface nothing reqs old = rw append-nil
listen_round-after iface failed reqs old = rw append-nil
listen_round-after iface (datagram n p) reqs old = elim (Bool-cases (leb 8 n)) [
  | inl e ↦ rw e (handle-after iface n p reqs old)
  | inr e ↦ rw (e, append-nil)
]

-- A round that returns appends what its arrival contributes, and keeps the ids.
listen_round-found :
    (iface : Bytes) (a : Arrival) (d d' : Shared)
    → listen_round iface a d ≡ some d'
    → (d'.req_nums ≡ d.req_nums) × (d'.pending ≡ d.pending ++ found d.req_nums iface a)
unfolding found
listen_round-found iface a d d' h = elim (Option-cases (listen_round iface a (idle d.req_nums))) [
  | inl e ↦ cc (h, e, listen_round-after iface a d.req_nums d.pending)
  | inr (x, e) ↦
      rw (e, found) (fields d' x (cc (h, e, listen_round-after iface a d.req_nums d.pending)))
]
  where
    fields :
        (d' x : Shared)
        → some d' ≡ some (record { req_nums = d.req_nums; pending = d.pending ++ x.pending })
        → (d'.req_nums ≡ d.req_nums) × (d'.pending ≡ d.pending ++ x.pending)
    fields d' x e = ground arith

-- For a run that reads inside its buffers, whatever the order in which arrivals and calls of
-- `getResponse` follow one another: what the caller has been given, followed by what is still
-- pending, is what it had and what was pending at the start, followed by the devices of the
-- arrivals in their order.
pub run-found :
    (events : List Event) (d d' : Shared) (info info' : List DeviceInfo)
    → run events d info ≡ some (d', info')
    → info' ++ d'.pending ≡ (info ++ d.pending) ++ found_in d.req_nums events
unfolding run get_response
run-found [] d d' info info' h = cc (append-nil (info ++ d.pending))
run-found (receive iface a ∷ events) d d' info info' h =
    elim (Option-cases (listen_round iface a d)) [
      | inl e ↦ cc (rw (e, run) at h)
      | inr (x, e) ↦
          let (ids, more) = listen_round-found iface a d x e in
          run-found events x d' info info' (rw (e, run) at h)
          ∙ cc (
            ids,
            more,
            append_assoc info d.pending (found d.req_nums iface a),
            append_assoc (info ++ d.pending) (found d.req_nums iface a)
                (found_in d.req_nums events),
          )
    ]
run-found (respond ∷ events) d d' info info' h =
    run-found events _ d' _ info' h
    ∙ ap (λ l. l ++ found_in d.req_nums events) (append-nil (info ++ d.pending))
