-- ===== src/Text/RoundTrip.antt =====
-- Addresses are read back from their texts.
use rcdiscover.Base.{ℕ, ◌^◌, ◌<◌, ◌≡◌, [], ◌∷◌, ok, arith, bind_result, ap}
use rcdiscover.Words.{u8, shr, to_byte_array, byte_array_to_int}
use rcdiscover.Words.RoundTrip.{byte_array_to_int-to_byte_array4}
use rcdiscover.Text.{
  decimal, hex_byte, mac2string, ip2string, to_bytes, string2byte, string2mac, string2ip,
}
use rcdiscover.Text.Splitting.{split-join}
use rcdiscover.Text.Decimal.{to_byte-decimal, to_byte-hex_byte, decimal-IsPiece, hex_byte-IsPiece}

u8-lt : (x : ℕ) → u8 x < 256
u8-lt x = omega arith

-- An IP address is printed as its four bytes in decimal, and read back as these.
pub string2ip-ip2string : (ip : ℕ) → string2ip (ip2string ip) ≡ ok (to_byte_array 4 ip)
unfolding string2ip string2byte ip2string to_byte_array to_bytes
string2ip-ip2string ip =
    let a = u8 (shr ip 24) in
    let b = u8 (shr ip 16) in
    let c = u8 (shr ip 8) in
    let d = u8 ip in
    rw
      (
        split-join b'.' (decimal a) (decimal b ∷ decimal c ∷ decimal d ∷ [])
            (decimal-IsPiece a (omega arith))
            (
              decimal-IsPiece b (omega arith),
              (decimal-IsPiece c (omega arith), (decimal-IsPiece d (omega arith), tt)),
            ),
        to_byte-decimal a (omega arith),
        to_byte-decimal b (omega arith),
        to_byte-decimal c (omega arith),
        to_byte-decimal d (omega arith),
      )
      (ap (λ t. ok (a ∷ b ∷ c ∷ t ∷ [])) (omega arith))

-- A MAC address is printed as its six bytes in hexadecimal, and read back as these.
pub string2mac-mac2string : (mac : ℕ) → string2mac (mac2string mac) ≡ ok (to_byte_array 6 mac)
unfolding string2mac string2byte mac2string to_byte_array to_bytes
string2mac-mac2string mac =
    let a = u8 (shr mac 40) in
    let b = u8 (shr mac 32) in
    let c = u8 (shr mac 24) in
    let d = u8 (shr mac 16) in
    let e = u8 (shr mac 8) in
    let f = u8 mac in
    rw
      (
        split-join b':' (hex_byte a)
            (hex_byte b ∷ hex_byte c ∷ hex_byte d ∷ hex_byte e ∷ hex_byte f ∷ [])
            (hex_byte-IsPiece a (omega arith))
            (
              hex_byte-IsPiece b (omega arith),
              (
                hex_byte-IsPiece c (omega arith),
                (
                  hex_byte-IsPiece d (omega arith),
                  (hex_byte-IsPiece e (omega arith), (hex_byte-IsPiece f (omega arith), tt)),
                ),
              ),
            ),
        to_byte-hex_byte a (omega arith),
        to_byte-hex_byte b (omega arith),
        to_byte-hex_byte c (omega arith),
        to_byte-hex_byte d (omega arith),
        to_byte-hex_byte e (omega arith),
        to_byte-hex_byte f (omega arith),
      )
      (ap (λ t. ok (a ∷ b ∷ c ∷ d ∷ e ∷ t ∷ [])) (omega arith))

-- The address that the command line gives to the device is the one that was printed.
pub string2ip-value :
    (ip : ℕ)
    → ip < 2 ^ 32
    → bind_result (string2ip (ip2string ip)) (λ a. ok (byte_array_to_int a)) ≡ ok ip
string2ip-value ip h = rw (string2ip-ip2string ip) (ap ok (byte_array_to_int-to_byte_array4 ip h))
