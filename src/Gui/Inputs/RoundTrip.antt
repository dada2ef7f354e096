-- ===== src/Gui/Inputs/RoundTrip.antt =====
-- What the input widgets read from the printed addresses.
use rcdiscover.Base.{
  ℕ, zero, suc, ◌^◌, ◌<◌, ◌≡◌, refl, subst, ◌∙◌, false, true, List, [], ◌∷◌, ◌++◌, Bytes,
  append-nil, none, length, replicate, All, IsByte, arith,
}
use rcdiscover.Words.{u8, shr}
use rcdiscover.Text.{ip2string, mac2string, decimal, hex_byte, digit_value, is_space}
use rcdiscover.Gui.Inputs.{
  open_in, extract_number, extract_fields, get_address, get_ip, get_mac, set_ip, all_equal,
  all_bytes, join_bytes,
}
use rcdiscover.Gui.Inputs.Extraction.{
  Stops, after, extract_number-decimal, extract_number-hex, extract_char-plain,
}

-- The printed bytes with `sep` between them.
abbrev joined : (ℕ → Bytes) → ℕ → ℕ → List ℕ → Bytes
joined print sep b [] = print b
joined print sep b (c ∷ bs) = print b ++ sep ∷ joined print sep c bs

all_equal-replicate : (n x : ℕ) → all_equal x (replicate n x) ≡ true
all_equal-replicate zero x = refl
all_equal-replicate (suc n) x = ground (arith, all_equal-replicate n x)

all_bytes-true : (xs : List ℕ) → All IsByte xs → all_bytes xs ≡ true
all_bytes-true [] h = refl
all_bytes-true (x ∷ xs) (h, hs) = ground (arith, all_bytes-true xs hs)

module _ (print : ℕ → Bytes) (base modulus sep : ℕ)
    (reads : (x b : ℕ) (s : Bytes)
      → b < 256
      → Stops base s
      → extract_number base modulus x (open_in (print b ++ s)) ≡ (b, after s))
    (no_digit : digit_value base sep ≡ none) (no_space : is_space sep ≡ false) where
  extract_fields-joined :
      (b : ℕ) (bs : List ℕ)
      → b < 256
      → All IsByte bs
      → extract_fields base modulus (length bs) (open_in (joined print sep b bs))
        ≡ record { numbers = b ∷ bs; separators = replicate (length bs) sep; stream = after [] }
  unfolding extract_fields
  extract_fields-joined b [] h hs = rw (extract_fields, last_number) refl
    where
      last_number : extract_number base modulus 256 (open_in (print b)) ≡ (b, after [])
      last_number =
          subst (λ s. extract_number base modulus 256 (open_in s) ≡ (b, after []))
            (append-nil (print b)) (reads 256 b [] h tt)
  extract_fields-joined b (c ∷ bs) h (hc, hs) =
      rw
        (
          extract_fields,
          reads 256 b (sep ∷ joined print sep c bs) h no_digit,
          extract_char-plain 32 sep (joined print sep c bs) no_space,
          extract_fields-joined c bs hc hs,
        )
        refl

  get_address-joined :
      (b : ℕ) (bs : List ℕ)
      → b < 256
      → All IsByte bs
      → get_address base modulus (length bs) sep (joined print sep b bs) ≡ join_bytes (b ∷ bs)
  unfolding get_address
  get_address-joined b bs h hs =
      rw
        (
          get_address,
          extract_fields-joined b bs h hs,
          all_equal-replicate (length bs) sep,
          all_bytes-true (b ∷ bs) (h, hs),
        )
        refl

reads_decimal :
    (x b : ℕ) (s : Bytes)
    → b < 256
    → Stops 10 s
    → extract_number 10 (2 ^ 32) x (open_in (decimal b ++ s)) ≡ (b, after s)
reads_decimal x b s h k = extract_number-decimal (2 ^ 32) x b s h (omega arith) k

reads_hex :
    (x b : ℕ) (s : Bytes)
    → b < 256
    → Stops 16 s
    → extract_number 16 (2 ^ 64) x (open_in (hex_byte b ++ s)) ≡ (b, after s)
reads_hex x b s h k = extract_number-hex (2 ^ 64) x b s h (omega arith) k

-- The address below `2 ^ 32` that `setIP` puts into the widget is the one that `getIP` reads.
pub get_ip-set_ip : (ip : ℕ) → ip < 2 ^ 32 → get_ip (set_ip ip) ≡ ip
unfolding get_ip ip2string digit_value is_space
get_ip-set_ip ip h =
    let a = u8 (shr ip 24) in
    let b = u8 (shr ip 16) in
    let c = u8 (shr ip 8) in
    let d = u8 ip in
    get_address-joined decimal 10 (2 ^ 32) b'.' reads_decimal no_digit refl a (b ∷ c ∷ d ∷ [])
      (omega arith) (omega arith, (omega arith, (omega arith, tt)))
    ∙ sum
  where
    no_digit : digit_value 10 b'.' ≡ none
    no_digit = refl

    sum : join_bytes (u8 (shr ip 24) ∷ u8 (shr ip 16) ∷ u8 (shr ip 8) ∷ u8 ip ∷ []) ≡ ip
    sum = omega arith

-- The text that is printed for a MAC address below `2 ^ 48` is read back as this address.
pub get_mac-mac2string : (mac : ℕ) → mac < 2 ^ 48 → get_mac (mac2string mac) ≡ mac
unfolding get_mac mac2string digit_value is_space
get_mac-mac2string mac h =
    let a = u8 (shr mac 40) in
    let b = u8 (shr mac 32) in
    let c = u8 (shr mac 24) in
    let d = u8 (shr mac 16) in
    let e = u8 (shr mac 8) in
    let f = u8 mac in
    get_address-joined hex_byte 16 (2 ^ 64) b':' reads_hex no_digit refl a (b ∷ c ∷ d ∷ e ∷ f ∷ [])
      (omega arith) (omega arith, (omega arith, (omega arith, (omega arith, (omega arith, tt)))))
    ∙ sum
  where
    no_digit : digit_value 16 b':' ≡ none
    no_digit = refl

    sum :
        join_bytes (
          u8 (shr mac 40)
          ∷ u8 (shr mac 32)
          ∷ u8 (shr mac 24)
          ∷ u8 (shr mac 16)
          ∷ u8 (shr mac 8)
          ∷ u8 mac
          ∷ [])
        ≡ mac
    sum = omega arith
