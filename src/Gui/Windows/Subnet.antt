-- ===== src/Gui/Windows/Subnet.antt =====
-- The suggested gateway lies in the network of the address.
use rcdiscover.Base.{
  ℕ, zero, suc, ◌+◌, ◌*◌, ◌/◌, ◌%◌, ◌^◌, ◌≤◌, ◌<◌, min, ◌≡◌, refl, ap, ◌∙◌, true, false, Bool, not,
  ◌==◌, arith, Bool-cases, inl, inr, length, List, [], ◌∷◌, Bytes, if◌then◌else◌,
}
use rcdiscover.Words.{and_bits, set_bit, test_bit}
use rcdiscover.Gui.Inputs.{
  get_ip, is_valid_ip, set_ip, all_bytes, join_bytes, get_address, extract_fields, extract_number,
  extract_char, all_equal, open_in, In,
}
use rcdiscover.Gui.Inputs.RoundTrip.{get_ip-set_ip}
use rcdiscover.Gui.Windows.{Addresses, network, gateway_network, suggest_gateway, all_valid}

and_bits-le : (width x y : ℕ) → and_bits width x y ≤ x
unfolding and_bits
and_bits-le zero x y = omega arith
and_bits-le (suc width) x y = omega (arith, and_bits-le width (x / 2) (y / 2))

-- Masking a masked address again changes nothing.
and_bits_again : (width x y : ℕ) → and_bits width (and_bits width x y) y ≡ and_bits width x y
unfolding and_bits
and_bits_again zero x y = refl
and_bits_again (suc width) x y =
    let masked = and_bits width (x / 2) (y / 2) in
    let above : (masked * 2 + min (x % 2) (y % 2)) / 2 ≡ masked = omega arith in
    omega (arith, ap (λ z. and_bits width z (y / 2)) above, and_bits_again width (x / 2) (y / 2))

set_bit-half : (x : ℕ) → set_bit x 0 / 2 ≡ x / 2
unfolding set_bit test_bit
set_bit-half x = ground arith

-- With an even mask, the lowest bit of an address is masked out.
and_bits_lowest :
    (width x mask : ℕ)
    → mask % 2 ≡ 0
    → and_bits (suc width) (set_bit (and_bits (suc width) x mask) 0) mask
      ≡ and_bits (suc width) x mask
unfolding and_bits set_bit test_bit
and_bits_lowest width x mask even =
    let masked = and_bits width (x / 2) (mask / 2) in
    let bare : and_bits (suc width) x mask ≡ masked * 2 = omega (arith, even) in
    let above : set_bit (and_bits (suc width) x mask) 0 / 2 ≡ masked =
      omega (arith, set_bit-half (and_bits (suc width) x mask), bare) in
    omega (
      arith,
      even,
      ap (λ z. and_bits width z (mask / 2)) above,
      and_bits_again width (x / 2) (mask / 2),
    )

set_bit-lt : (x : ℕ) → x < 2 ^ 32 → set_bit x 0 < 2 ^ 32
unfolding set_bit test_bit
set_bit-lt x h = ground arith

set_bit-nonzero : (x : ℕ) → (set_bit x 0 == 0) ≡ false
unfolding set_bit test_bit
set_bit-nonzero x = ground arith

join_bytes-lt : (xs : List ℕ) → length xs ≡ 4 → all_bytes xs ≡ true → join_bytes xs < 2 ^ 32
join_bytes-lt [] h b = absurd (omega (arith, h))
join_bytes-lt (x ∷ []) h b = absurd (omega (arith, h))
join_bytes-lt (x ∷ y ∷ []) h b = absurd (omega (arith, h))
join_bytes-lt (x ∷ y ∷ z ∷ []) h b = absurd (omega (arith, h))
join_bytes-lt (x ∷ y ∷ z ∷ w ∷ []) h b = ground arith
join_bytes-lt (x ∷ y ∷ z ∷ w ∷ v ∷ xs) h b = absurd (omega (arith, h))

-- The end of `getIP` for any outcome of its tests.
address-lt :
    (x y : Bool) (xs : List ℕ)
    → length xs ≡ 4
    → (if not x then 0 else if not y then 0 else if not (all_bytes xs) then 0 else join_bytes xs)
      < 2 ^ 32
address-lt false y xs h = omega arith
address-lt true false xs h = omega arith
address-lt true true xs h = elim (Bool-cases (all_bytes xs)) [
  | inl e ↦ rw (e) (join_bytes-lt xs h e)
  | inr e ↦ rw (e) (omega arith)
]

length-extract_fields :
    (base modulus n : ℕ) (s : In) → length (extract_fields base modulus n s).numbers ≡ suc n
unfolding extract_fields
length-extract_fields base modulus zero s = refl
length-extract_fields base modulus (suc n) s = omega (
  arith,
  length-extract_fields base modulus n (extract_char 32 (extract_number base modulus 256 s).1).1,
)

get_ip-lt : (s : Bytes) → get_ip s < 2 ^ 32
unfolding get_ip get_address
get_ip-lt s =
    let f = extract_fields 10 (2 ^ 32) 3 (open_in s) in
    address-lt (all_equal b'.' f.separators) f.stream.eof f.numbers
      (length-extract_fields 10 (2 ^ 32) 3 (open_in s))

-- For a valid address and a valid subnet mask whose last bit is not set, the gateway that
-- `doSubnetMask` suggests is valid, and lies in the same network as the address.
pub suggest_gateway-network :
    (a : Addresses)
    → is_valid_ip a.ip ≡ true
    → is_valid_ip a.subnet_mask ≡ true
    → get_ip a.subnet_mask % 2 ≡ 0
    → (all_valid (suggest_gateway a) ≡ true)
      × (gateway_network (suggest_gateway a) ≡ network (suggest_gateway a))
unfolding suggest_gateway
suggest_gateway-network a hi hm even =
    let x = and_bits 32 (get_ip a.ip) (get_ip a.subnet_mask) in
    let small : x < 2 ^ 32 =
      omega (arith, and_bits-le 32 (get_ip a.ip) (get_ip a.subnet_mask), get_ip-lt a.ip) in
    let read : get_ip (set_ip (set_bit x 0)) ≡ set_bit x 0 =
      get_ip-set_ip (set_bit x 0) (set_bit-lt x small) in
    let valid : is_valid_ip (set_ip (set_bit x 0)) ≡ true =
      ap (λ y. not (y == 0)) read ∙ ap not (set_bit-nonzero x) in
    rw (suggest_gateway, hi, hm)
      (
        rw (hi, hm, valid) refl,
        ap (λ y. and_bits 32 y (get_ip a.subnet_mask)) read
            ∙ and_bits_lowest 31 (get_ip a.ip) (get_ip a.subnet_mask) even,
      )
