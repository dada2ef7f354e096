-- ===== src/Wol/Packet.antt =====
-- The magic packet.
use rcdiscover.Base.{
  ℕ, zero, suc, ◌*◌, ◌^◌, ◌<◌, ◌≡◌, refl, sym, ◌∙◌, List, [], ◌∷◌, ◌++◌, append-nil, append_assoc,
  Option, none, some, Bytes, length, length-append, take, drop, arith, All, All-append, Exn, ok,
  Result-cases, inl, inr, Holds, bind_result, unless_unreachable-elim, subst,
}
use rcdiscover.Words.{to_byte_array, byte_array_to_int}
use rcdiscover.Words.RoundTrip.{byte_array_to_int-to_byte_array6}
use rcdiscover.Socket.{Socket, Ifaddr, Os, send, check, create_and_bind_for_all_interfaces}
use rcdiscover.Wol.{
  Wol, make, push_all, push_times, push_password, append_magic_packet, send_all, send_impl,
}

abbrev pub copies : ℕ → Bytes → Bytes
copies zero xs = []
copies (suc n) xs = xs ++ copies n xs

abbrev pub password_bytes : Option Bytes → Bytes
password_bytes none = []
password_bytes (some password) = password

push_all-append : (xs buf : Bytes) → push_all xs buf ≡ buf ++ xs
unfolding push_all
push_all-append [] buf = sym (append-nil buf)
push_all-append (x ∷ xs) buf = push_all-append xs (buf ++ x ∷ []) ∙ append_assoc buf (x ∷ []) xs

push_times-copies : (n : ℕ) (xs buf : Bytes) → push_times n xs buf ≡ buf ++ copies n xs
unfolding push_times
push_times-copies zero xs buf = sym (append-nil buf)
push_times-copies (suc n) xs buf =
    rw (push_all-append xs buf)
      (push_times-copies n xs (buf ++ xs) ∙ append_assoc buf xs (copies n xs))

push_password-bytes :
    (p : Option Bytes) (buf : Bytes) → push_password p buf ≡ buf ++ password_bytes p
push_password-bytes none buf = sym (append-nil buf)
push_password-bytes (some password) buf = push_all-append password buf

-- The magic packet is appended to the buffer: six bytes 0xff, sixteen times the hardware address,
-- and the password if there is one.
pub append_magic_packet_lem :
    (w : Wol) (password : Option Bytes) (buf : Bytes)
    → append_magic_packet w password buf
      ≡ buf ++ (copies 6 (0xff ∷ []) ++ (copies 16 w.hardware_addr ++ password_bytes password))
unfolding append_magic_packet
append_magic_packet_lem w password buf =
    rw (push_password-bytes, push_times-copies 16, push_times-copies 6) (simp append_assoc)

-- The magic packet of a device, as a description of what is sent.
abbrev pub IsMagic : Wol → Option Bytes → Socket × Bytes → Type 0
IsMagic w password x =
    x.1 ≡ copies 6 (0xff ∷ []) ++ (copies 16 w.hardware_addr ++ password_bytes password)

send-same : (os : Os) (s : Socket) (b : Bytes) → Holds (All (λ x. x.1 ≡ b)) (send os s b)
unfolding send
send-same os s b = ground arith

All-map :
    {A : Type 0} (P Q : A → Type 0) (xs : List A) → ((a : A) → P a → Q a) → All P xs → All Q xs
All-map P Q [] f h = tt
All-map P Q (x ∷ xs) f (h, hs) = (f x h, All-map P Q xs f hs)

module _ (os : Os) (w : Wol) (password : Option Bytes) where
  send_all-IsMagic :
      (sockets : List Socket) (b : Bytes) (wire : List (Socket × Bytes))
      → append_magic_packet w password [] ≡ b
      → All (IsMagic w password) wire
      → All (IsMagic w password) (send_all os b sockets wire).0
  unfolding send_all
  send_all-IsMagic [] b wire e h = h
  send_all-IsMagic (s ∷ sockets) b wire e h =
      elim (Result-cases (bind_result (check (os.setsockopt s) s) (λ _. check (os.fcntl s) s))) [
        | inr (x, f) ↦ rw (f, send_all) h
        | inl (_, f) ↦ elim (Result-cases (send os s b)) [
          | inl (sent, g) ↦
              rw (f, g, send_all)
                (send_all-IsMagic sockets b (wire ++ sent) e
                  (All-append (IsMagic w password) wire sent h (new sent g)))
          | inr (x, g) ↦
              rw (f, g, send_all)
                (unless_unreachable-elim {A = List (Socket × Bytes) × Option Exn}
                  (λ (out : List (Socket × Bytes) × Option Exn). All (IsMagic w password) out.0) x _
                  _ (send_all-IsMagic sockets b wire e h) (λ _. h))
        ]
      ]
    where
      new : (sent : List (Socket × Bytes)) → send os s b ≡ ok sent → All (IsMagic w password) sent
      new sent g =
          All-map (λ x. x.1 ≡ b) (IsMagic w password) sent
            (λ x k. k ∙ sym e ∙ append_magic_packet_lem w password [])
            (subst (Holds (All (λ x. x.1 ≡ b))) g (send-same os s b))

  -- Whatever the system calls answer, when the network holds nothing but magic packets of the
  -- device with the given password, it does so after `sendImpl`: six bytes 0xff, sixteen times the
  -- hardware address, and the password.
  pub send_impl-IsMagic :
      (addrs : List Ifaddr) (wire : List (Socket × Bytes))
      → All (IsMagic w password) wire
      → All (IsMagic w password) (send_impl os addrs w password wire).0
  unfolding send_impl
  send_impl-IsMagic addrs wire h =
      elim (Result-cases (create_and_bind_for_all_interfaces os w.port addrs)) [
        | inl (sockets, e) ↦
            rw (e, send_impl)
              (send_all-IsMagic sockets (append_magic_packet w password []) wire refl h)
        | inr (x, e) ↦ rw (e, send_impl) h
      ]

length-copies : (n : ℕ) (xs : Bytes) → length (copies n xs) ≡ n * length xs
length-copies zero xs = omega arith
length-copies (suc n) xs = grind (arith, length-append xs (copies n xs), length-copies n xs)

-- The magic packet for a MAC address has 102 bytes, or 106 with a password of four bytes, and a
-- receiver reads the address back from the six bytes behind the first six.
pub make-address :
    (mac port : ℕ)
    → mac < 2 ^ 48
    → (length (append_magic_packet (make mac port) none []) ≡ 102)
      × (byte_array_to_int (take 6 (drop 6 (append_magic_packet (make mac port) none []))) ≡ mac)
unfolding make to_byte_array
make-address mac port h =
    rw (append_magic_packet_lem (make mac port) none [])
      (refl, byte_array_to_int-to_byte_array6 mac h)
