-- ===== src/Wol.antt =====
-- `WOL` of rcdiscover/wol.cc: magic packets.
pub mod Packet
use rcdiscover.Base.{
  ℕ, zero, suc, List, [], ◌∷◌, ◌++◌, Option, none, some, Bytes, Exn, unless_unreachable, Result, ok,
  err, bind_result,
}
use rcdiscover.Words.{to_byte_array}
use rcdiscover.Socket.{Socket, Ifaddr, Os, send, check, create_and_bind_for_all_interfaces}

pub record Wol : Type 0 where
  pub hardware_addr : Bytes
  pub port : ℕ

-- The constructor from a number.
unfoldable pub make : ℕ → ℕ → Wol
make hardware_addr port = record { hardware_addr = to_byte_array 6 hardware_addr; port = port }

-- `sendbuf.push_back(x)` for the elements in order.
unfoldable pub push_all : Bytes → Bytes → Bytes
push_all [] sendbuf = sendbuf
push_all (x ∷ xs) sendbuf = push_all xs (sendbuf ++ x ∷ [])

-- A loop of `n` rounds, each of which pushes `xs`.
unfoldable pub push_times : ℕ → Bytes → Bytes → Bytes
push_times zero xs sendbuf = sendbuf
push_times (suc n) xs sendbuf = push_times n xs (push_all xs sendbuf)

abbrev pub push_password : Option Bytes → Bytes → Bytes
push_password none sendbuf = sendbuf
push_password (some password) sendbuf = push_all password sendbuf

unfoldable pub append_magic_packet : Wol → Option Bytes → Bytes → Bytes
append_magic_packet w password sendbuf =
    push_password password (push_times 16 w.hardware_addr (push_times 6 (0xff ∷ []) sendbuf))

-- The loop over the sockets: what was sent, and the exception that left it.
unfoldable pub send_all :
    Os → Bytes → List Socket → List (Socket × Bytes) → List (Socket × Bytes) × Option Exn
send_all os sendbuf [] wire = (wire, none)
send_all os sendbuf (s ∷ sockets) wire =
    elim (bind_result (check (os.setsockopt s) s) (λ _. check (os.fcntl s) s)) [
      | err e ↦ (wire, some e)
      | ok _ ↦ elim (send os s sendbuf) [
        | ok sent ↦ send_all os sendbuf sockets (wire ++ sent)
        | err e ↦ unless_unreachable e (send_all os sendbuf sockets wire) (λ x. (wire, some x))
      ]
    ]

-- `sendImpl`, with the password of `send(password)`.
unfoldable pub send_impl :
    Os
    → List Ifaddr
    → Wol
    → Option Bytes
    → List (Socket × Bytes)
    → List (Socket × Bytes) × Option Exn
send_impl os addrs w password wire = elim (create_and_bind_for_all_interfaces os w.port addrs) [
  | err e ↦ (wire, some e)
  | ok sockets ↦ send_all os (append_magic_packet w password []) sockets wire
]
