-- ===== src/ForceIp.antt =====
-- `ForceIP` of rcdiscover/force_ip.cc: the FORCEIP command and its broadcast on all sockets.
pub mod Layout
pub mod Broadcast
use rcdiscover.Base.{
  ℕ, ◌/◌, ◌%◌, ◌^◌, List, [], ◌∷◌, ◌++◌, Option, none, some, Bytes, set, replicate, Exn,
  network_unreachable, Result, ok, err, bind_result,
}
use rcdiscover.Words.{u8, shr}
use rcdiscover.RequestCounter.{get_next}
use rcdiscover.Socket.{Socket, Ifaddr, Os, send, enable_all, create_and_bind_for_all_interfaces}

-- The assignments `v[i] = x`, in order.
abbrev pub assign : Bytes → List (ℕ × ℕ) → Bytes
assign v [] = v
assign v ((i, x) ∷ l) = assign (set v i x) l

-- The command before the request id is filled in.
unfoldable pub force_ip_command : ℕ → ℕ → ℕ → ℕ → Bytes
force_ip_command mac ip subnet gateway = assign (replicate 64 0) (
    (0, 0x42)
    ∷ (1, 0x00)
    ∷ (2, 0x00)
    ∷ (3, 0x04)
    ∷ (4, 0x00)
    ∷ (5, 56)
    ∷ (10, u8 (shr mac 40))
    ∷ (11, u8 (shr mac 32))
    ∷ (12, u8 (shr mac 24))
    ∷ (13, u8 (shr mac 16))
    ∷ (14, u8 (shr mac 8))
    ∷ (15, u8 (shr mac 0))
    ∷ (28, u8 (shr ip 24))
    ∷ (29, u8 (shr ip 16))
    ∷ (30, u8 (shr ip 8))
    ∷ (31, u8 (shr ip 0))
    ∷ (44, u8 (shr subnet 24))
    ∷ (45, u8 (shr subnet 16))
    ∷ (46, u8 (shr subnet 8))
    ∷ (47, u8 (shr subnet 0))
    ∷ (60, u8 (shr gateway 24))
    ∷ (61, u8 (shr gateway 16))
    ∷ (62, u8 (shr gateway 8))
    ∷ (63, u8 (shr gateway 0))
    ∷ [])

-- `std::tie(force_ip_command[6], force_ip_command[7]) = …`.
abbrev pub with_id : Bytes → ℕ × ℕ → Bytes
with_id command (hi, lo) = set (set command 6 hi) 7 lo

-- The request counter and what was sent.
pub record Traffic : Type 0 where
  pub counter : ℕ
  pub wire : List (Socket × Bytes)

abbrev pub next_id : Traffic → ℕ × ℕ
next_id t = (get_next t.counter).1

abbrev pub counted : Traffic → Traffic
counted t = record t { counter = (get_next t.counter).0 }

-- The loop over the sockets, which keeps one buffer for all of them; an exception that leaves it
-- is returned with the state it leaves.
unfoldable pub send_all : Os → List Socket → Bytes → Traffic → Traffic × Option Exn
send_all os [] command t = (t, none)
send_all os (s ∷ sockets) command t = elim (send os s (with_id command (next_id t))) [
  | ok sent ↦
      send_all os sockets (with_id command (next_id t))
        (record (counted t) { wire = t.wire ++ sent })
  | err network_unreachable ↦ send_all os sockets (with_id command (next_id t)) (counted t)
  | err e ↦ (counted t, some e)
]

unfoldable pub send_command : Os → List Socket → ℕ → ℕ → ℕ → ℕ → Traffic → Traffic × Option Exn
send_command os sockets mac ip subnet gateway =
    send_all os sockets (force_ip_command mac ip subnet gateway)

-- The constructor: the sockets of all interfaces, with broadcast and without blocking.
unfoldable pub force_ip : Os → List Ifaddr → Result (List Socket)
force_ip os addrs =
    bind_result (create_and_bind_for_all_interfaces os 3956 addrs)
      (λ sockets. enable_all os sockets)
