-- ===== src/Socket.antt =====
-- `SocketLinux` of rcdiscover/socket_linux.cc: creating the sockets of all interfaces, and sending.
-- The operating system is the parameter `Os`; addresses are kept in host byte order.
pub mod Interfaces
pub mod Handles
use rcdiscover.Base.{
  ℕ, Bool, true, false, not, ◌&&◌, List, [], ◌∷◌, ◌++◌, Option, none, some, Bytes, ◌==◌,
  if◌then◌else◌, is_empty, text_eq, codes, Exn, network_unreachable, socket_exception,
  operation_not_permitted, Result, ok, err, bind_result, length, ltb,
}

-- A socket: the interface that it belongs to, `dst_addr_`, and the address it is bound to.
pub record Socket : Type 0 where
  pub iface_name : Bytes
  pub dst_ip : ℕ
  pub dst_port : ℕ
  pub bound : Option (ℕ × ℕ)

-- An entry of `getifaddrs`; an address is given with its family, and a null pointer is `none`.
pub record Ifaddr : Type 0 where
  pub is_up : Bool
  pub name : Option Bytes
  pub addr : Option (ℕ × ℕ)
  pub broadaddr : Option ℕ

-- The system calls: `some e` is a call that fails with `errno` equal to `e`.
pub record Os : Type 0 where
  pub socket : Bytes → ℕ → Option ℕ
  pub setsockopt : Socket → Option ℕ
  pub bind : Socket → ℕ → ℕ → Option ℕ
  pub local_port : Socket → ℕ
  pub fcntl : Socket → Option ℕ
  pub sendto : Socket → Bytes → Option ℕ

abbrev pub eperm : ℕ
eperm = 1

abbrev pub enetunreach : ℕ
enetunreach = 101

abbrev pub af_inet : ℕ
af_inet = 2

abbrev pub inaddr_any : ℕ
inaddr_any = 0

-- `getBroadcastAddr()`, 255.255.255.255.
abbrev pub inaddr_broadcast : ℕ
inaddr_broadcast = 0xffff_ffff

abbrev pub ◌>>=◌ {ℓ κ} : {A : Type ℓ} {B : Type κ} → Result A → (A → Result B) → Result B
◌>>=◌ = bind_result

-- A system call whose failure is thrown as a `SocketException`.
abbrev pub check {ℓ} : {A : Type ℓ} → Option ℕ → A → Result A
check none a = ok a
check (some e) a = err socket_exception

module _ (os : Os) where
  -- `create` and the constructor.
  unfoldable pub create : ℕ → ℕ → Bytes → Result Socket
  create dst_ip port iface_name =
      let s : Socket = record {
        iface_name = iface_name;
        dst_ip = dst_ip;
        dst_port = port;
        bound = none;
      } in
      elim (os.socket iface_name dst_ip) [
        | some e ↦ if e == eperm then err operation_not_permitted else err socket_exception
        | none ↦ check (os.setsockopt s) s
      ]

  unfoldable pub bind_impl : Socket → ℕ → ℕ → Result Socket
  bind_impl s ip port = check (os.bind s ip port) (record s { bound = some (ip, port) })

  -- The three sockets of an interface with address `ip` and broadcast address `baddr`.
  unfoldable pub interface_sockets : ℕ → Bytes → ℕ → ℕ → Result (List Socket)
  interface_sockets port name ip baddr = do
    created ← create inaddr_broadcast port name
    limited ← bind_impl created ip 0
    let local_port = os.local_port limited
    created ← create inaddr_any port name
    receiver ← bind_impl created inaddr_any local_port
    created ← create baddr port name
    directed ← bind_impl created inaddr_any local_port
    ok (limited ∷ receiver ∷ directed ∷ [])

  -- The body of the loop, over the fields of the entry; an entry with a null pointer is skipped.
  unfoldable pub fields_sockets :
      ℕ → Bool → Option Bytes → Option (ℕ × ℕ) → Option ℕ → Result (List Socket)
  fields_sockets port is_up (some name) (some (family, ip)) (some baddr) =
      if is_up && family == af_inet && not (is_empty name) && not (text_eq name (codes "lo"))
      then interface_sockets port name ip baddr
      else ok []
  fields_sockets port is_up _ _ _ = ok []

  unfoldable pub entry_sockets : ℕ → Ifaddr → Result (List Socket)
  entry_sockets port a = fields_sockets port a.is_up a.name a.addr a.broadaddr

  unfoldable pub create_and_bind_for_all_interfaces : ℕ → List Ifaddr → Result (List Socket)
  create_and_bind_for_all_interfaces port [] = ok []
  create_and_bind_for_all_interfaces port (a ∷ addrs) = do
    sockets ← entry_sockets port a
    rest ← create_and_bind_for_all_interfaces port addrs
    ok (sockets ++ rest)

  -- `sendImpl`: what is put on the wire, or the exception. Nothing is sent to `INADDR_ANY`.
  unfoldable pub send : Socket → Bytes → Result (List (Socket × Bytes))
  send s sendbuf = if s.dst_ip == inaddr_any then ok [] else elim (os.sendto s sendbuf) [
    | none ↦ ok ((s, sendbuf) ∷ [])
    | some e ↦ if e == enetunreach then err network_unreachable else err socket_exception
  ]

  -- `enableBroadcast` and `enableNonBlocking` for each socket, as the constructors of `Discover` and
  -- `ForceIP` do.
  unfoldable pub enable_all : List Socket → Result (List Socket)
  enable_all [] = ok []
  enable_all (s ∷ sockets) = do
    _ ← check (os.setsockopt s) s
    _ ← check (os.fcntl s) s
    rest ← enable_all sockets
    ok (s ∷ rest)
