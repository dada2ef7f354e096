-- ===== src/Discover/Acknowledge.antt =====
-- Which datagrams make a listener report a device.
use rcdiscover.Base.{
  ℕ, ◌+◌, ◌*◌, ◌/◌, ◌%◌, ◌≤◌, ◌≡◌, ◌≢◌, refl, true, [], ◌∷◌, ◌++◌, some, Bytes, le→leb, arith,
}
use rcdiscover.DeviceInfo.{DeviceInfo, make, is_valid}
use rcdiscover.DeviceInfo.Layout.{IsSendable, message, set-message}
use rcdiscover.Discover.{
  ReqId, Shared, datagram, has_id, Header, read_header, is_ack, on_header, handle, listen_round,
}

-- The header of a DISCOVERY_ACK with a body of `len` bytes for request `id`.
abbrev pub ack_header : ℕ → ReqId → Bytes
ack_header len (hi, lo) = 0 ∷ 0 ∷ 0 ∷ 0x03 ∷ len / 256 ∷ len % 256 ∷ hi ∷ lo ∷ []

module _ (iface : Bytes) (n len t : ℕ) (hi lo : ℕ) (d : DeviceInfo) (rest : Bytes)
    (s : Shared) where
  abbrev pub packet : Bytes
  packet = message (ack_header len (hi, lo)) d t rest

  read_header-packet :
      read_header packet
      ≡ some (record {
        p0 = 0;
        p1 = 0;
        p2 = 0;
        p3 = 3;
        p4 = len / 256;
        p5 = len % 256;
        p6 = hi;
        p7 = lo;
      })
  unfolding read_header
  read_header-packet = refl

  abbrev header : Header
  header = record {
    p0 = 0;
    p1 = 0;
    p2 = 0;
    p3 = 3;
    p4 = len / 256;
    p5 = len % 256;
    p6 = hi;
    p7 = lo;
  }

  is_ack-header :
      len + 8 ≤ n → has_id (hi, lo) s.req_nums ≡ true → is_ack s.req_nums n header ≡ true
  unfolding is_ack
  is_ack-header fits known = rw (known, le→leb (len / 256 * 256 + len % 256 + 8) n (omega arith))

  is_valid-named : d.mac ≢ 0 → is_valid (record d { iface_name = iface }) ≡ true
  unfolding is_valid
  is_valid-named valid = ground arith

  -- The answer of a device to one of the pending requests, received whole, with fields that fit
  -- the message, a MAC address other than 0 and a body of at least 248 bytes, makes the listener
  -- report exactly that device under the name of the listener's interface.
  pub listen_round-packet :
      IsSendable d
      → d.mac ≢ 0
      → 248 ≤ len
      → len + 8 ≤ n
      → has_id (hi, lo) s.req_nums ≡ true
      → listen_round iface (datagram n packet) s
        ≡ some (record s { pending = s.pending ++ (record d { iface_name = iface }) ∷ [] })
  unfolding listen_round handle on_header make
  listen_round-packet sendable valid long fits known = rw (
    le→leb 8 n (omega arith),
    read_header-packet,
    is_ack-header fits known,
    set-message (ack_header len (hi, lo)) d (make iface) (len / 256 * 256 + len % 256) t rest refl
        (omega arith) sendable,
    is_valid-named valid,
  )
