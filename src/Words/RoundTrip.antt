-- ===== src/Words/RoundTrip.antt =====
-- Numbers and their bytes: the conversions undo one another.
use rcdiscover.Base.{ℕ, ◌^◌, ◌<◌, ◌≡◌, [], ◌∷◌, ◌++◌, some, Bytes, All, IsByte, arith}
use rcdiscover.Words.{append_uint32, extract_uint32, to_byte_array, byte_array_to_int}

-- What `appendUint32` wrote is read back, whatever follows.
pub extract_uint32-append_uint32 :
    (value : ℕ) (rest : Bytes)
    → value < 2 ^ 32
    → extract_uint32 (append_uint32 [] value ++ rest) ≡ some value
unfolding extract_uint32 append_uint32
extract_uint32-append_uint32 value rest h = ap_some (omega arith)
  where
    ap_some : {a b : ℕ} → a ≡ b → some a ≡ some b
    ap_some e = λ i. some (e i)

pub to_byte_array-bytes4 : (x : ℕ) → All IsByte (to_byte_array 4 x)
unfolding to_byte_array
to_byte_array-bytes4 x = omega arith

-- A MAC address is kept by the way through its six bytes.
pub byte_array_to_int-to_byte_array6 :
    (x : ℕ) → x < 2 ^ 48 → byte_array_to_int (to_byte_array 6 x) ≡ x
unfolding byte_array_to_int to_byte_array
byte_array_to_int-to_byte_array6 x h = omega arith

pub byte_array_to_int-to_byte_array4 :
    (x : ℕ) → x < 2 ^ 32 → byte_array_to_int (to_byte_array 4 x) ≡ x
unfolding byte_array_to_int to_byte_array
byte_array_to_int-to_byte_array4 x h = omega arith

pub to_byte_array-byte_array_to_int4 :
    (a b c d : ℕ)
    → IsByte a
    → IsByte b
    → IsByte c
    → IsByte d
    → to_byte_array 4 (byte_array_to_int (a ∷ b ∷ c ∷ d ∷ [])) ≡ a ∷ b ∷ c ∷ d ∷ []
unfolding byte_array_to_int to_byte_array
to_byte_array-byte_array_to_int4 a b c d ha hb hc hd = ground arith
