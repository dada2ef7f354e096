-- ===== src/DeviceInfo/Layout.antt =====
-- `DeviceInfo::set` against an independent description of the message body: the body that a
-- device with given fields sends, segment by segment.
use rcdiscover.Base.{
  ℕ, ◌+◌, ◌^◌, ◌≤◌, ◌<◌, ◌≡◌, refl, ◌∙◌, List, [], ◌∷◌, Option, some, Bytes, length, replicate,
  take, drop, le→leb, arith, bind_option,
}
use rcdiscover.Words.{to_byte_array}
use rcdiscover.DeviceInfo.{DeviceInfo, when_long, set}
use rcdiscover.DeviceInfo.{extract, read_number}
use rcdiscover.DeviceInfo.Reads.{
  flatten, sizes, pad, FitsField, length-pad, length-pad-append, extract-flatten,
  read_number-flatten, extract-pad, read_number-2, read_number-4, read_number-6,
}

-- The values that the fields of the message can hold.
pub record IsSendable (d : DeviceInfo) : Type 0 where
  pub major_fits : d.major < 2 ^ 16
  pub minor_fits : d.minor < 2 ^ 16
  pub mac_fits : d.mac < 2 ^ 48
  pub ip_fits : d.ip < 2 ^ 32
  pub subnet_fits : d.subnet < 2 ^ 32
  pub gateway_fits : d.gateway < 2 ^ 32
  pub manufacturer_name_fits : FitsField 32 d.manufacturer_name
  pub model_name_fits : FitsField 32 d.model_name
  pub device_version_fits : FitsField 32 d.device_version
  pub manufacturer_info_fits : FitsField 48 d.manufacturer_info
  pub serial_number_fits : FitsField 16 d.serial_number
  pub user_name_fits : FitsField 16 d.user_name

-- The 248 bytes of the body, with what follows them.
abbrev pub body : DeviceInfo → Bytes → List Bytes
body d rest =
    to_byte_array 2 d.major
    ∷ to_byte_array 2 d.minor
    ∷ replicate 6 0
    ∷ to_byte_array 6 d.mac
    ∷ replicate 20 0
    ∷ to_byte_array 4 d.ip
    ∷ replicate 12 0
    ∷ to_byte_array 4 d.subnet
    ∷ replicate 12 0
    ∷ to_byte_array 4 d.gateway
    ∷ pad 32 d.manufacturer_name
    ∷ pad 32 d.model_name
    ∷ pad 32 d.device_version
    ∷ pad 48 d.manufacturer_info
    ∷ pad 16 d.serial_number
    ∷ pad 16 d.user_name
    ∷ rest
    ∷ []

when_long-reads {ℓ} :
    {A : Type ℓ} (need len : ℕ) (read : Option A) (old a : A)
    → need ≤ len
    → read ≡ some a
    → when_long need len read old ≡ some a
unfolding when_long
when_long-reads need len read old a h e = rw (le→leb need len h, e)

bind-some {ℓ κ} :
    {A : Type ℓ} {B : Type κ} {o : Option A} {a : A} {r : Option B} (f : A → Option B)
    → o ≡ some a
    → f a ≡ r
    → bind_option o f ≡ r
bind-some f e h = rw e h

module _ (header : Bytes) (d : DeviceInfo) (t : ℕ) (rest : Bytes) where
  abbrev pub message : Bytes
  message = flatten (header ∷ body d (t ∷ rest))

module _ (header : Bytes) (d old : DeviceInfo) (len t : ℕ) (rest : Bytes) (h : length header ≡ 8)
    (long : 248 ≤ len) (s : IsSendable d) where
  number :
      (j need at w n x y : ℕ)
      → at ≡ sizes (take j (header ∷ body d (t ∷ rest)))
      → need ≤ 248
      → read_number w (flatten (drop j (header ∷ body d (t ∷ rest)))) 0 n 0 ≡ some x
      → when_long need len (read_number w (message header d t rest) at n 0) y ≡ some x
  number j need at w n x y e small r =
      when_long-reads need len _ y x (omega arith)
        (read_number-flatten j (header ∷ body d (t ∷ rest)) at w n e ∙ r)

  text :
      (j need at n : ℕ) (x y : Bytes)
      → at ≡ sizes (take j (header ∷ body d (t ∷ rest)))
      → need ≤ 248
      → extract (flatten (drop j (header ∷ body d (t ∷ rest)))) 0 n ≡ some x
      → when_long need len (extract (message header d t rest) at n) y ≡ some x
  text j need at n x y e small r =
      when_long-reads need len _ y x (omega arith)
        (extract-flatten j (header ∷ body d (t ∷ rest)) at n e ∙ r)

  -- A device whose fields fit the message is read back exactly: `set` with a length of at least
  -- 248, on a header of 8 bytes, the body that the device sends and at least one more byte of
  -- memory gives its fields, under the interface name of the old value.
  pub set-message :
      set (message header d t rest) 8 len old ≡ some (record d { iface_name = old.iface_name })
  unfolding set to_byte_array
  set-message =
      bind-some _
        (number 1 4 8 32 2 d.major 0 (omega arith) (omega arith)
          (read_number-2 d.major _ s.major_fits))
        (bind-some _
          (number 2 4 (8 + 2) 32 2 d.minor 0 (omega arith) (omega arith)
            (read_number-2 d.minor _ s.minor_fits))
          (bind-some _
            (number 4 16 (8 + 10) 64 6 d.mac 0 (omega arith) (omega arith)
              (read_number-6 d.mac _ s.mac_fits))
            (bind-some _
              (number 6 40 (8 + 36) 32 4 d.ip 0 (omega arith) (omega arith)
                (read_number-4 d.ip _ s.ip_fits))
              (bind-some _
                (number 8 56 (8 + 52) 32 4 d.subnet 0 (omega arith) (omega arith)
                  (read_number-4 d.subnet _ s.subnet_fits))
                (bind-some _
                  (number 10 72 (8 + 68) 32 4 d.gateway 0 (omega arith) (omega arith)
                    (read_number-4 d.gateway _ s.gateway_fits))
                  (bind-some _
                    (text 11 104 (8 + 72) 32 d.manufacturer_name [] (omega arith) (omega arith) (
                      extract-pad d.manufacturer_name 32 _ s.manufacturer_name_fits
                        (length-pad-append 32 d.model_name _ s.model_name_fits.0 (omega arith))))
                    (bind-some _
                      (text 12 136 (8 + 104) 32 d.model_name []
                        (omega
                          (arith, length-pad 32 d.manufacturer_name s.manufacturer_name_fits.0))
                        (omega arith)
                        (extract-pad d.model_name 32 _ s.model_name_fits (
                          length-pad-append 32 d.device_version _ s.device_version_fits.0
                            (omega arith))))
                      (bind-some _
                        (text 13 168 (8 + 136) 32 d.device_version []
                          (omega (
                            arith,
                            length-pad 32 d.manufacturer_name s.manufacturer_name_fits.0,
                            length-pad 32 d.model_name s.model_name_fits.0,
                          ))
                          (omega arith)
                          (extract-pad d.device_version 32 _ s.device_version_fits (
                            length-pad-append 48 d.manufacturer_info _ s.manufacturer_info_fits.0
                              (omega arith))))
                        (bind-some _
                          (text 14 216 (8 + 168) 48 d.manufacturer_info []
                            (omega (
                              arith,
                              length-pad 32 d.manufacturer_name s.manufacturer_name_fits.0,
                              length-pad 32 d.model_name s.model_name_fits.0,
                              length-pad 32 d.device_version s.device_version_fits.0,
                            ))
                            (omega arith)
                            (extract-pad d.manufacturer_info 48 _ s.manufacturer_info_fits (
                              length-pad-append 16 d.serial_number _ s.serial_number_fits.0
                                (omega arith))))
                          (bind-some _
                            (text 15 232 (8 + 216) 16 d.serial_number []
                              (omega (
                                arith,
                                length-pad 32 d.manufacturer_name s.manufacturer_name_fits.0,
                                length-pad 32 d.model_name s.model_name_fits.0,
                                length-pad 32 d.device_version s.device_version_fits.0,
                                length-pad 48 d.manufacturer_info s.manufacturer_info_fits.0,
                              ))
                              (omega arith)
                              (extract-pad d.serial_number 16 _ s.serial_number_fits (
                                length-pad-append 16 d.user_name _ s.user_name_fits.0
                                  (omega arith))))
                            (bind-some _
                              (text 16 248 (8 + 232) 16 d.user_name []
                                (omega (
                                  arith,
                                  length-pad 32 d.manufacturer_name s.manufacturer_name_fits.0,
                                  length-pad 32 d.model_name s.model_name_fits.0,
                                  length-pad 32 d.device_version s.device_version_fits.0,
                                  length-pad 48 d.manufacturer_info s.manufacturer_info_fits.0,
                                  length-pad 16 d.serial_number s.serial_number_fits.0,
                                ))
                                (omega arith)
                                (extract-pad d.user_name 16 _ s.user_name_fits (omega arith)))
                              (refl))))))))))))
