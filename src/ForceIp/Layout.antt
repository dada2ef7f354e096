-- ===== src/ForceIp/Layout.antt =====
-- The FORCEIP command against its layout in the protocol.
use rcdiscover.Base.{ℕ, ◌^◌, ◌<◌, ◌≡◌, refl, [], ◌∷◌, ◌++◌, Bytes, take, drop, replicate, length}
use rcdiscover.Words.{to_byte_array, byte_array_to_int}
use rcdiscover.Words.RoundTrip.{byte_array_to_int-to_byte_array4, byte_array_to_int-to_byte_array6}
use rcdiscover.ForceIp.{force_ip_command, with_id}

-- Header, MAC address, IP address, subnet mask and gateway, with the reserved bytes between them.
abbrev pub layout : ℕ → ℕ → ℕ → ℕ → ℕ × ℕ → Bytes
layout mac ip subnet gateway (hi, lo) =
    (0x42 ∷ 0x00 ∷ 0x00 ∷ 0x04 ∷ 0x00 ∷ 0x38 ∷ hi ∷ lo ∷ [])
    ++ (replicate 2 0
        ++ (to_byte_array 6 mac
            ++ (replicate 12 0
                ++ (to_byte_array 4 ip
                    ++ (replicate 12 0
                        ++ (to_byte_array 4 subnet
                            ++ (replicate 12 0 ++ to_byte_array 4 gateway)))))))

pub force_ip_command-layout :
    (mac ip subnet gateway : ℕ) (id : ℕ × ℕ)
    → with_id (force_ip_command mac ip subnet gateway) id ≡ layout mac ip subnet gateway id
unfolding force_ip_command to_byte_array
force_ip_command-layout mac ip subnet gateway id = refl

-- The field of `n` bytes at an offset, as a number.
abbrev pub field : ℕ → ℕ → Bytes → ℕ
field at n command = byte_array_to_int (take n (drop at command))

-- A receiver that reads the command at the offsets of the protocol finds the addresses that were
-- asked for, and the header of a FORCEIP command with a body of 56 bytes, whatever the request id.
pub field-force_ip_command :
    (mac ip subnet gateway : ℕ) (id : ℕ × ℕ)
    → mac < 2 ^ 48
    → ip < 2 ^ 32
    → subnet < 2 ^ 32
    → gateway < 2 ^ 32
    → (length (with_id (force_ip_command mac ip subnet gateway) id) ≡ 64)
      × (field 2 2 (with_id (force_ip_command mac ip subnet gateway) id) ≡ 4)
      × (field 4 2 (with_id (force_ip_command mac ip subnet gateway) id) ≡ 56)
      × (field 10 6 (with_id (force_ip_command mac ip subnet gateway) id) ≡ mac)
      × (field 28 4 (with_id (force_ip_command mac ip subnet gateway) id) ≡ ip)
      × (field 44 4 (with_id (force_ip_command mac ip subnet gateway) id) ≡ subnet)
      × (field 60 4 (with_id (force_ip_command mac ip subnet gateway) id) ≡ gateway)
unfolding force_ip_command to_byte_array byte_array_to_int
field-force_ip_command mac ip subnet gateway id hm hi hs hg = (
  refl,
  refl,
  refl,
  byte_array_to_int-to_byte_array6 mac hm,
  byte_array_to_int-to_byte_array4 ip hi,
  byte_array_to_int-to_byte_array4 subnet hs,
  byte_array_to_int-to_byte_array4 gateway hg,
)
