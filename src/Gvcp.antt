-- ===== src/Gvcp.antt =====
-- `GvcpIPConfig` of rcdiscover/gvcp_ip_config.cc: register access to a device and its persistent
-- IP configuration. The network with the device behind it is a parameter: a state and a function
-- that answers one packet. Exceptions leave the state as it is when they are thrown.
pub mod Device
pub mod Mode
pub mod Config
pub mod Release
use rcdiscover.Base.{
  ℕ, zero, suc, ◌+◌, ◌*◌, ◌%◌, ◌/◌, ◌^◌, Bool, true, false, ◌&&◌, List, [], ◌∷◌, ◌++◌, Option, none,
  some, Bytes, length, take, leb, ltb, ◌==◌, if◌then◌else◌, Exn, runtime_error, access_denied,
  undefined_read, Result, ok, err,
}
use rcdiscover.Words.{u8, shr, append_uint32, extract_uint32, test_bit, clear_bit, set_bit}
use rcdiscover.RequestCounter.{get_next}

abbrev pub readreg_cmd : ℕ
readreg_cmd = 0x0080

abbrev pub readreg_ack : ℕ
readreg_ack = 0x0081

abbrev pub writereg_cmd : ℕ
writereg_cmd = 0x0082

abbrev pub writereg_ack : ℕ
writereg_ack = 0x0083

abbrev pub gev_status_access_denied : ℕ
gev_status_access_denied = 0x8006

abbrev pub gev_ccp : ℕ
gev_ccp = 0x00000a00

abbrev pub gev_current_ip_configuration : ℕ
gev_current_ip_configuration = 0x00000014

abbrev pub gev_persistent_ip_address : ℕ
gev_persistent_ip_address = 0x0000064c

abbrev pub gev_persistent_subnet_mask : ℕ
gev_persistent_subnet_mask = 0x0000065c

abbrev pub gev_persistent_default_gateway : ℕ
gev_persistent_default_gateway = 0x0000066c

-- The positions of `IPCONFIG_PERSISTENT_IP_BIT`, `IPCONFIG_DHCP_BIT` and `IPCONFIG_LLA_BIT`.
abbrev pub persistent_ip_bit : ℕ
persistent_ip_bit = 0

abbrev pub dhcp_bit : ℕ
dhcp_bit = 1

abbrev pub lla_bit : ℕ
lla_bit = 2

pub record IpConfig : Type 0 where
  pub persistent_ip_enabled : Bool
  pub dhcp_enabled : Bool
  pub persistent_ip : ℕ
  pub persistent_subnet : ℕ
  pub persistent_gateway : ℕ

-- One attempt of a request: `send` throws, nothing arrives within the timeout or `recvfrom` fails,
-- or a datagram arrives.
pub data Reply : Type 0 where
  send_failed : (e : Exn) → Reply
  silent : Reply
  datagram : (received : Bytes) → Reply

-- The network and device, the request counter, and the packets handed to `send`, latest first.
pub record World (S : Type 0) : Type 0 where
  pub env : S
  pub counter : ℕ
  pub sent : List Bytes

abbrev pub M : Type 0 → Type 0 → Type 0
M S A = World S → World S × Result A

abbrev pub resume : {S A B : Type 0} → (A → M S B) → World S × Result A → World S × Result B
resume f (w, ok a) = f a w
resume f (w, err e) = (w, err e)

abbrev pub recover : {S A : Type 0} → (Exn → M S A) → World S × Result A → World S × Result A
recover h (w, ok a) = (w, ok a)
recover h (w, err e) = h e w

infixl 5 ◌>>=◌ ◌>>◌
abbrev pub ◌>>=◌ : {S A B : Type 0} → M S A → (A → M S B) → M S B
◌>>=◌ m f w = resume f (m w)

abbrev pub ◌>>◌ : {S B : Type 0} → M S (Unit {0}) → M S B → M S B
m >> k = m >>= λ _. k

abbrev pub return : {S A : Type 0} → A → M S A
return a w = (w, ok a)

abbrev pub throw : {S A : Type 0} → Exn → M S A
throw e w = (w, err e)

-- `try { m } catch (...) { h }`.
abbrev pub catch : {S A : Type 0} → M S A → (Exn → M S A) → M S A
catch m h w = recover h (m w)

abbrev pub ReqId : Type 0
ReqId = ℕ × ℕ

unfoldable pub packet : ℕ → ReqId → Bytes → Bytes
packet cmd (hi, lo) payload =
    0x42
    ∷ 0x01
    ∷ u8 (shr cmd 8)
    ∷ u8 cmd
    ∷ u8 (shr (length payload) 8)
    ∷ u8 (length payload)
    ∷ hi
    ∷ lo
    ∷ payload

-- What a datagram means for the request: nothing, an error status, or the body of the answer.
unfoldable pub check_reply : ℕ → ReqId → Bytes → Option (Result Bytes)
check_reply expected (hi, lo) (p0 ∷ p1 ∷ p2 ∷ p3 ∷ p4 ∷ p5 ∷ p6 ∷ p7 ∷ rest) =
    let status = (p0 * 256 + p1) % 2 ^ 16 in
    let len = p4 * 256 + p5 in
    if (p2 * 256 + p3) % 2 ^ 16 == expected && p6 == hi && p7 == lo
    then (if status == 0
        then (if leb (len + 8) (length rest + 8) then some (ok (take len rest)) else none)
        else if status == gev_status_access_denied
        then some (err access_denied)
        else some (err runtime_error))
    else none
check_reply expected id _ = none

-- The fields of the configuration that `readConfig` fills in.
unfoldable pub decode_config : ℕ → ℕ → ℕ → ℕ → IpConfig
decode_config mode ip subnet gateway = record {
  persistent_ip_enabled = test_bit mode persistent_ip_bit;
  dhcp_enabled = test_bit mode dhcp_bit;
  persistent_ip = ip;
  persistent_subnet = subnet;
  persistent_gateway = gateway;
}

-- The new value of the mode register.
unfoldable pub new_mode : IpConfig → ℕ → ℕ
new_mode config mode =
    let mode = clear_bit (clear_bit (clear_bit mode persistent_ip_bit) dhcp_bit) lla_bit in
    let mode = if config.persistent_ip_enabled then set_bit mode persistent_ip_bit else mode in
    let mode = if config.dhcp_enabled then set_bit mode dhcp_bit else mode in set_bit mode lla_bit

module _ {S : Type 0} where
  -- A received datagram ends the loop, or the next attempt is made by `retry`.
  unfoldable pub on_checked : M S Bytes → World S → Option (Result Bytes) → World S × Result Bytes
  on_checked retry w (some r) = (w, r)
  on_checked retry w none = retry w

  -- The rest of an attempt; the buffer holds the first 600 bytes of a datagram.
  unfoldable pub on_reply : M S Bytes → ℕ → ReqId → World S → Reply → World S × Result Bytes
  on_reply retry expected id w (send_failed e) = (w, err e)
  on_reply retry expected id w silent = retry w
  on_reply retry expected id w (datagram received) =
      on_checked retry w (check_reply expected id (take 600 received))

module _ {S : Type 0} (net : S → Bytes → S × Reply) where
  -- The loop over the attempts.
  unfoldable pub attempts : ℕ → ℕ → ReqId → Bytes → M S Bytes
  attempts zero expected id pkt w = (w, err runtime_error)
  attempts (suc k) expected id pkt w =
      on_reply (attempts k expected id pkt) expected id
        (record w { env = (net w.env pkt).0; sent = pkt ∷ w.sent }) (net w.env pkt).1

  unfoldable pub send_and_receive : ℕ → ℕ → Bytes → M S Bytes
  send_and_receive cmd expected payload w =
      let id = (get_next w.counter).1 in
      attempts 3 expected id (packet cmd id payload) (record w { counter = (get_next w.counter).0 })

  -- `if (response.size() < 4) throw …; return extractUint32(response.data());`
  unfoldable pub first_uint32 : Bytes → M S ℕ
  first_uint32 response =
      if ltb (length response) 4
      then throw runtime_error
      else elim (extract_uint32 response) [ some v ↦ return v | none ↦ throw undefined_read ]

  unfoldable pub read_register : ℕ → M S ℕ
  read_register address = do
    response ← send_and_receive readreg_cmd readreg_ack (append_uint32 [] address)
    first_uint32 response

  unfoldable pub write_register : ℕ → ℕ → M S (Unit {0})
  write_register address value = do
    _ ← send_and_receive writereg_cmd writereg_ack (append_uint32 (append_uint32 [] address) value)
    return tt

  unfoldable pub read_config : M S IpConfig
  read_config = do
    mode ← read_register gev_current_ip_configuration
    ip ← read_register gev_persistent_ip_address
    subnet ← read_register gev_persistent_subnet_mask
    gateway ← read_register gev_persistent_default_gateway
    return (decode_config mode ip subnet gateway)

  unfoldable pub write_persistent : IpConfig → M S (Unit {0})
  write_persistent config = do
    write_register gev_persistent_ip_address config.persistent_ip
    write_register gev_persistent_subnet_mask config.persistent_subnet
    write_register gev_persistent_default_gateway config.persistent_gateway

  -- The body of the `try`.
  unfoldable pub update_config : IpConfig → M S (Unit {0})
  update_config config = do
    if config.persistent_ip_enabled then write_persistent config else return tt
    mode ← read_register gev_current_ip_configuration
    write_register gev_current_ip_configuration (new_mode config mode)

  -- `try { writeRegister(GEV_CCP, 0); } catch (...) { }`
  unfoldable pub release : M S (Unit {0})
  release = catch (write_register gev_ccp 0) (λ _. return tt)

  unfoldable pub write_config : IpConfig → M S (Unit {0})
  write_config config = do
    write_register gev_ccp 1
    catch (update_config config) (λ e. (do release; throw e))
    release
