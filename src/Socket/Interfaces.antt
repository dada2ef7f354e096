-- ===== src/Socket/Interfaces.antt =====
-- Which sockets are made.
use rcdiscover.Base.{
  ℕ, ◌≡◌, ◌≢◌, Bool, false, List, [], ◌∷◌, Option, none, some, Bytes, ◌==◌, is_empty, text_eq,
  codes, arith, All, All-append, inl, inr, Holds, Holds-bind, Holds-map, Bool-cases, not, ◌&&◌,
}
use rcdiscover.Socket.{
  Socket, Ifaddr, Os, af_inet, inaddr_any, inaddr_broadcast, create, bind_impl, interface_sockets,
  entry_sockets, fields_sockets, create_and_bind_for_all_interfaces,
}

module _ (os : Os) (port : ℕ) (name : Bytes) (ip baddr : ℕ) where
  -- The socket for the limited broadcast, on a port that the system chooses.
  abbrev pub limited : Socket
  limited = record {
    iface_name = name;
    dst_ip = inaddr_broadcast;
    dst_port = port;
    bound = some (ip, 0);
  }

  -- A socket to `dst` on the local port of `limited`.
  abbrev pub on_local_port : ℕ → Socket
  on_local_port dst = record {
    iface_name = name;
    dst_ip = dst;
    dst_port = port;
    bound = some (inaddr_any, os.local_port limited);
  }

pub record IsOurs (port : ℕ) (s : Socket) : Type 0 where
  pub named : is_empty s.iface_name ≡ false
  pub not_loopback : text_eq s.iface_name (codes "lo") ≡ false
  pub to_port : s.dst_port ≡ port
  pub is_bound : s.bound ≢ none

-- A socket of the interface `name` that is not yet bound, or that is.
record IsMade (port : ℕ) (name : Bytes) (s : Socket) : Type 0 where
  name_kept : s.iface_name ≡ name
  port_kept : s.dst_port ≡ port

record IsBound (port : ℕ) (name : Bytes) (s : Socket) : Type 0 where
  made : IsMade port name s
  bound_somewhere : s.bound ≢ none

module _ (os : Os) (port : ℕ) (name : Bytes) where
  create-IsMade : (dst_ip : ℕ) → Holds (IsMade port name) (create os dst_ip port name)
  unfolding create
  create-IsMade dst_ip = ground arith

  bind_impl-IsBound :
      (s : Socket) (ip p : ℕ) → IsMade port name s → Holds (IsBound port name) (bind_impl os s ip p)
  unfolding bind_impl
  bind_impl-IsBound s ip p m = ground arith

  interface_sockets-IsBound :
      (ip baddr : ℕ) → Holds (All (IsBound port name)) (interface_sockets os port name ip baddr)
  unfolding interface_sockets
  interface_sockets-IsBound ip baddr = Holds-bind (IsMade port name) _ _ _ (create-IsMade _) λ s m.
      Holds-bind (IsBound port name) _ _ _ (bind_impl-IsBound s _ _ m) λ l hl.
        Holds-bind (IsMade port name) _ _ _ (create-IsMade _) λ s m.
          Holds-bind (IsBound port name) _ _ _ (bind_impl-IsBound s _ _ m) λ r hr.
            Holds-bind (IsMade port name) _ _ _ (create-IsMade _) λ s m.
              Holds-bind (IsBound port name) _ _ _ (bind_impl-IsBound s _ _ m)
                λ d hd. (hl, (hr, (hd, tt)))

  All-IsOurs :
      (ss : List Socket)
      → is_empty name ≡ false
      → text_eq name (codes "lo") ≡ false
      → All (IsBound port name) ss
      → All (IsOurs port) ss
  All-IsOurs [] e l h = tt
  All-IsOurs (s ∷ ss) e l (b, h) = (
    record {
      named = rw b.made.name_kept e;
      not_loopback = rw b.made.name_kept l;
      to_port = b.made.port_kept;
      is_bound = b.bound_somewhere;
    },
    All-IsOurs ss e l h,
  )

fields_sockets-IsOurs :
    (os : Os) (port : ℕ) (up : Bool) (name : Option Bytes) (addr : Option (ℕ × ℕ)) (b : Option ℕ)
    → Holds (All (IsOurs port)) (fields_sockets os port up name addr b)
unfolding fields_sockets
fields_sockets-IsOurs os port up (some name) (some (family, ip)) (some baddr) =
    elim (Bool-cases
      (up && family == af_inet && not (is_empty name) && not (text_eq name (codes "lo")))) [
        | inl e ↦ rw e (
            Holds-map _ _ _ (λ ss. All-IsOurs os port name ss (ground arith) (ground arith))
              (interface_sockets-IsBound os port name ip baddr))
        | inr e ↦ rw e tt
      ]
fields_sockets-IsOurs os port up none _ _ = tt
fields_sockets-IsOurs os port up (some name) none _ = tt
fields_sockets-IsOurs os port up (some name) (some (family, ip)) none = tt

-- Whatever the system calls answer: every socket that is made belongs to a named interface other
-- than the loopback interface, sends to the given port, and is bound.
pub create_and_bind_for_all_interfaces-IsOurs :
    (os : Os) (port : ℕ) (addrs : List Ifaddr)
    → Holds (All (IsOurs port)) (create_and_bind_for_all_interfaces os port addrs)
unfolding create_and_bind_for_all_interfaces entry_sockets
create_and_bind_for_all_interfaces-IsOurs os port [] = tt
create_and_bind_for_all_interfaces-IsOurs os port (a ∷ addrs) =
    Holds-bind (All (IsOurs port)) _ _ _
      (fields_sockets-IsOurs os port a.is_up a.name a.addr a.broadaddr)
      λ ss h.
        Holds-bind (All (IsOurs port)) _ _ _
          (create_and_bind_for_all_interfaces-IsOurs os port addrs)
          λ rest k. All-append (IsOurs port) ss rest h k
