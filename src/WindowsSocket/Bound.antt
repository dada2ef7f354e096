-- ===== src/WindowsSocket/Bound.antt =====
-- The sockets that `createAndBindForAllInterfaces` of rcdiscover/socket_windows.cc returns.
use rcdiscover.Base.{
  get_elem?, suc, ◌+◌, arith, ℕ, ◌≡◌, refl, subst, sym, ◌⊎◌, inl, inr, false, Bool-cases, List, [],
  ◌∷◌, ◌++◌, Option, none, some, Bytes, All, All-append, Holds, Holds-bind, Result, ok, err, ◌==◌,
  bind_result,
}
use rcdiscover.Socket.{Socket, check, inaddr_any, inaddr_broadcast}
use rcdiscover.WindowsSocket.{
  ForwardRow, AddrRow, WindowsOs, find_interface, directed_broadcast, create, bind_impl,
  create_and_bind, add_socket, limited_sockets, directed_sockets,
  create_and_bind_for_all_interfaces, interface_names, fetch_table, is_limited, inaddr_loopback,
}

-- An entry of the address table that Windows returns.
abbrev pub IsEntry : WindowsOs → AddrRow → Type 0
IsEntry os row =
    (addrs : List AddrRow) × (i : ℕ) × (fetch_table os.addr_table 0 5 ≡ ok addrs)
    × (get_elem? addrs i ≡ some row)

-- A socket for an interface that has a name: to the limited broadcast address, or to the broadcast
-- address of an entry that is not the loopback interface.
pub record IsBound (os : WindowsOs) (names : List (ℕ × Bytes)) (port : ℕ) (s : Socket)
    : Type 0 where
  pub to_port : s.dst_port ≡ port
  pub named : (index : ℕ) × (find_interface names index ≡ some s.iface_name)
  pub bound_to : (ip : ℕ) × (s.bound ≡ some (ip, 0))
  pub target :
      (s.dst_ip ≡ inaddr_broadcast)
      ⊎ ((row : AddrRow) × IsEntry os row
          × ((row.addr == inaddr_loopback) ≡ false)
          × (s.dst_ip ≡ directed_broadcast row))

check-Holds : (P : Socket → Type 0) (o : Option ℕ) (s : Socket) → P s → Holds P (check o s)
check-Holds P none s h = h
check-Holds P (some e) s h = tt

module _ (os : WindowsOs) (names : List (ℕ × Bytes)) (port : ℕ) where
  create_and_bind-Holds :
      (P : Socket → Type 0) (name : Bytes) (dst_ip ip : ℕ)
      → P (record { iface_name = name; dst_ip = dst_ip; dst_port = port; bound = some (ip, 0) })
      → Holds P (create_and_bind os port name dst_ip ip)
  unfolding create bind_impl
  create_and_bind-Holds P name dst_ip ip h =
      let s : Socket = record {
        iface_name = name;
        dst_ip = dst_ip;
        dst_port = port;
        bound = none;
      } in
      Holds-bind (λ t. t ≡ s) P (check (os.socket name dst_ip) s) (λ t. bind_impl os t ip 0)
        (check-Holds (λ t. t ≡ s) (os.socket name dst_ip) s refl)
        (λ t e.
          check-Holds P (os.bind t ip 0) (record t { bound = some (ip, 0) })
            (subst (λ t. P (record t { bound = some (ip, 0) })) (sym e) h))

  add_socket-All :
      (index dst_ip ip : ℕ) (name : Option Bytes) (others : Result (List Socket))
      → find_interface names index ≡ name
      → (dst_ip ≡ inaddr_broadcast)
        ⊎ ((row : AddrRow) × IsEntry os row
            × ((row.addr == inaddr_loopback) ≡ false)
            × (dst_ip ≡ directed_broadcast row))
      → Holds (All (IsBound os names port)) others
      → Holds (All (IsBound os names port)) (add_socket os port name dst_ip ip others)
  add_socket-All index dst_ip ip none others e t h = h
  add_socket-All index dst_ip ip (some name) others e t h =
      Holds-bind (IsBound os names port) (All (IsBound os names port))
        (create_and_bind os port name dst_ip ip) (λ s. bind_result others (λ rest. ok (s ∷ rest)))
        (create_and_bind-Holds (IsBound os names port) name dst_ip ip
          (record { to_port = refl; named = (index, e); bound_to = (ip, refl); target = t }))
        (λ s b.
          Holds-bind (All (IsBound os names port)) (All (IsBound os names port)) others
            (λ rest. ok (s ∷ rest)) h (λ rest bs. (b, bs)))

  limited_sockets-All :
      (rows : List ForwardRow)
      → Holds (All (IsBound os names port)) (limited_sockets os port names rows)
  unfolding limited_sockets
  limited_sockets-All [] = tt
  limited_sockets-All (row ∷ rows) = elim (Bool-cases (is_limited row)) [
    | inl e ↦
        rw (limited_sockets, e)
          (add_socket-All row.if_index inaddr_broadcast row.next_hop
            (find_interface names row.if_index) (limited_sockets os port names rows) refl (inl refl)
            (limited_sockets-All rows))
    | inr e ↦ rw (limited_sockets, e) (limited_sockets-All rows)
  ]

  directed_sockets-All :
      (rows : List AddrRow)
      → All (IsEntry os) rows
      → Holds (All (IsBound os names port)) (directed_sockets os port names rows)
  unfolding directed_sockets
  directed_sockets-All [] h = tt
  directed_sockets-All (row ∷ rows) (here, h) = elim (Bool-cases (row.addr == inaddr_loopback)) [
    | inl e ↦ rw (directed_sockets, e) (directed_sockets-All rows h)
    | inr e ↦
        rw (directed_sockets, e)
          (add_socket-All row.index (directed_broadcast row) inaddr_any
            (find_interface names row.index) (directed_sockets os port names rows) refl
            (inr (row, here, e, refl)) (directed_sockets-All rows h))
  ]

entries :
    (os : WindowsOs) (addrs rows : List AddrRow) (k : ℕ)
    → fetch_table os.addr_table 0 5 ≡ ok addrs
    → ((i : ℕ) (row : AddrRow) → get_elem? rows i ≡ some row → get_elem? addrs (k + i) ≡ some row)
    → All (IsEntry os) rows
entries os addrs [] k e h = tt
entries os addrs (row ∷ rows) k e h = (
  (addrs, k + 0, e, h 0 row refl),
  entries os addrs rows (suc k) e
      (λ i r f. subst (λ n. get_elem? addrs n ≡ some r) (omega arith) (h (suc i) r f)),
)

Holds-self : {A : Type 0} (r : Result A) → Holds (λ a. r ≡ ok a) r
Holds-self (ok a) = refl
Holds-self (err e) = tt

Holds-any : {A : Type 0} (r : Result A) → Holds (λ _. Unit {0}) r
Holds-any (ok a) = tt
Holds-any (err e) = tt

-- Whatever the calls of Windows return: if `createAndBindForAllInterfaces` returns sockets, each of
-- them sends to the given port, belongs to an interface whose name is known, is bound, and sends to
-- the limited broadcast address or to the broadcast address of an entry of the address table that is
-- not the loopback interface.
pub create_and_bind_for_all_interfaces-IsBound :
    (os : WindowsOs) (port : ℕ)
    → Holds
        (All (IsBound os (interface_names os.adapters) port))
        (create_and_bind_for_all_interfaces os port)
unfolding create_and_bind_for_all_interfaces
create_and_bind_for_all_interfaces-IsBound os port =
    let names = interface_names os.adapters in
    let P = All (IsBound os names port) in
    Holds-bind (λ _. Unit {0}) P (fetch_table os.forward_table 0 5) _
      (Holds-any (fetch_table os.forward_table 0 5))
      (λ forward _.
        Holds-bind P P (limited_sockets os port names forward) _
          (limited_sockets-All os names port forward)
          (λ limited l.
            Holds-bind (λ a. fetch_table os.addr_table 0 5 ≡ ok a) P (fetch_table os.addr_table 0 5)
              _ (Holds-self (fetch_table os.addr_table 0 5))
              (λ addrs fetched.
                Holds-bind P P (directed_sockets os port names addrs)
                  (λ directed. ok (limited ++ directed))
                  (directed_sockets-All os names port addrs (
                    entries os addrs addrs 0 fetched
                      (λ i r f. subst (λ n. get_elem? addrs n ≡ some r) (omega arith) f)))
                  (λ directed d. All-append (IsBound os names port) limited directed l d))))
