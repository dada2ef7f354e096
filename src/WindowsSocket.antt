-- ===== src/WindowsSocket.antt =====
-- `SocketWindows` of rcdiscover/socket_windows.cc: the sockets of all interfaces, and sending. The
-- tables of the operating system and its calls are parameters; addresses are kept in host byte order.
pub mod Bound
use Prim.Native.Nat.{bit_or}
use rcdiscover.Base.{
  ℕ, zero, suc, ◌+◌, ◌-◌, ◌^◌, Bool, true, false, ◌&&◌, ◌||◌, List, [], ◌∷◌, ◌++◌, Option, none,
  some, Bytes, ◌==◌, if◌then◌else◌, Exn, network_unreachable, socket_exception, Result, ok, err,
  bind_result,
}
use rcdiscover.Socket.{Socket, check, inaddr_any, inaddr_broadcast, ◌>>=◌}

-- A row of `GetIpForwardTable`.
pub record ForwardRow : Type 0 where
  pub dest : ℕ
  pub mask : ℕ
  pub is_direct : Bool
  pub if_index : ℕ
  pub next_hop : ℕ

-- A row of `GetIpAddrTable`.
pub record AddrRow : Type 0 where
  pub addr : ℕ
  pub mask : ℕ
  pub index : ℕ

-- What an attempt to fetch a table gives.
pub data Fetch (A : Type 0) : Type 0 where
  no_error : A → Fetch A
  insufficient_buffer other_error : Fetch A

-- The calls of Windows: `some e` is a call that fails with `WSAGetLastError()` equal to `e`; a
-- table is given for each attempt to fetch it. The adapters are `none` if they cannot be read.
pub record WindowsOs : Type 0 where
  pub adapters : Option (List (ℕ × Bytes))
  pub forward_table : ℕ → Fetch (List ForwardRow)
  pub addr_table : ℕ → Fetch (List AddrRow)
  pub socket : Bytes → ℕ → Option ℕ
  pub bind : Socket → ℕ → ℕ → Option ℕ
  pub setsockopt : Socket → Option ℕ
  pub ioctlsocket : Socket → Option ℕ
  pub send_to : Socket → Bytes → Option ℕ

abbrev pub wsaenetunreach : ℕ
wsaenetunreach = 10051

abbrev pub wsaehostunreach : ℕ
wsaehostunreach = 10065

abbrev pub inaddr_loopback : ℕ
inaddr_loopback = 0x7f00_0001

-- `getInterfaceNames`, as the pairs that were put into the map; `emplace` keeps the first name.
abbrev pub interface_names : Option (List (ℕ × Bytes)) → List (ℕ × Bytes)
interface_names none = []
interface_names (some adapters) = adapters

-- `interface_names.find(index)`.
unfoldable pub find_interface : List (ℕ × Bytes) → ℕ → Option Bytes
find_interface [] index = none
find_interface ((i, name) ∷ names) index =
    if i == index then some name else find_interface names index

-- The loop that fetches a table, from attempt `i` on with `n` attempts left.
unfoldable pub fetch_table : {A : Type 0} → (ℕ → Fetch A) → ℕ → ℕ → Result A
fetch_table table i zero = err socket_exception
fetch_table table i (suc n) = elim (table i) [
  | no_error t ↦ ok t
  | insufficient_buffer ↦ fetch_table table (suc i) n
  | other_error ↦ fetch_table table (suc i) n
]

-- `row->dwAddr | (~row->dwMask)`.
abbrev pub directed_broadcast : AddrRow → ℕ
directed_broadcast row = bit_or row.addr (2 ^ 32 - 1 - row.mask)

-- The conditions on a row of the forward table.
abbrev pub is_limited : ForwardRow → Bool
is_limited row = row.dest == inaddr_broadcast && row.mask == 0xffff_ffff && row.is_direct

module _ (os : WindowsOs) where
  -- `create` and the constructor.
  unfoldable pub create : ℕ → ℕ → Bytes → Result Socket
  create dst_ip port iface_name =
      check (os.socket iface_name dst_ip)
        (record { iface_name = iface_name; dst_ip = dst_ip; dst_port = port; bound = none })

  unfoldable pub bind_impl : Socket → ℕ → ℕ → Result Socket
  bind_impl s ip port = check (os.bind s ip port) (record s { bound = some (ip, port) })

  abbrev pub create_and_bind : ℕ → Bytes → ℕ → ℕ → Result Socket
  create_and_bind port name dst_ip ip = do s ← create dst_ip port name; bind_impl s ip 0

  -- A socket is added for an interface that has a name.
  abbrev pub add_socket : ℕ → Option Bytes → ℕ → ℕ → Result (List Socket) → Result (List Socket)
  add_socket port none dst_ip ip others = others
  add_socket port (some name) dst_ip ip others = do
    s ← create_and_bind port name dst_ip ip
    rest ← others
    ok (s ∷ rest)

  -- The loop over the forward table.
  unfoldable pub limited_sockets : ℕ → List (ℕ × Bytes) → List ForwardRow → Result (List Socket)
  limited_sockets port names [] = ok []
  limited_sockets port names (row ∷ rows) =
      let rest = limited_sockets port names rows in
      if is_limited row
      then add_socket port (find_interface names row.if_index) inaddr_broadcast row.next_hop rest
      else rest

  -- The loop over the address table.
  unfoldable pub directed_sockets : ℕ → List (ℕ × Bytes) → List AddrRow → Result (List Socket)
  directed_sockets port names [] = ok []
  directed_sockets port names (row ∷ rows) =
      let rest = directed_sockets port names rows in
      if row.addr == inaddr_loopback
      then rest
      else add_socket port (find_interface names row.index) (directed_broadcast row) inaddr_any rest

  unfoldable pub create_and_bind_for_all_interfaces : ℕ → Result (List Socket)
  create_and_bind_for_all_interfaces port = do
    forward ← fetch_table os.forward_table 0 5
    limited ← limited_sockets port (interface_names os.adapters) forward
    addrs ← fetch_table os.addr_table 0 5
    directed ← directed_sockets port (interface_names os.adapters) addrs
    ok (limited ++ directed)

  -- `sendImpl`: what is put on the wire, or the exception.
  unfoldable pub send_impl : Socket → Bytes → Result (List (Socket × Bytes))
  send_impl s sendbuf = elim (os.send_to s sendbuf) [
    | none ↦ ok ((s, sendbuf) ∷ [])
    | some e ↦
        if e == wsaenetunreach || e == wsaehostunreach
        then err network_unreachable
        else err socket_exception
  ]

  unfoldable pub enable_broadcast_impl : Socket → Result Socket
  enable_broadcast_impl s = check (os.setsockopt s) s

  unfoldable pub enable_non_blocking_impl : Socket → Result Socket
  enable_non_blocking_impl s = check (os.ioctlsocket s) s
