-- ===== src/DeviceInfo.antt =====
-- `DeviceInfo` of rcdiscover/deviceinfo.h and rcdiscover/deviceinfo.cc: the fields of a
-- DISCOVERY_ACK message. Reads go through `get_elem?` on the memory behind the pointer, so that
-- `none` is a read outside of it.
pub mod Bounds
pub mod Layout
pub mod Reads
use rcdiscover.Base.{
  ℕ, zero, suc, ◌+◌, ◌*◌, ◌%◌, ◌^◌, Bool, true, false, not, ◌&&◌, ◌||◌, [], ◌∷◌, Option, none, some,
  Bytes, get_elem?, bind_option, leb, ltb, ◌==◌, if◌then◌else◌, text_lt,
}

abbrev pub ◌>>=◌ {ℓ κ} : {A : Type ℓ} {B : Type κ} → Option A → (A → Option B) → Option B
◌>>=◌ = bind_option

pub record DeviceInfo : Type 0 where
  pub iface_name : Bytes
  pub major : ℕ
  pub minor : ℕ
  pub mac : ℕ
  pub ip : ℕ
  pub subnet : ℕ
  pub gateway : ℕ
  pub manufacturer_name : Bytes
  pub model_name : Bytes
  pub device_version : Bytes
  pub manufacturer_info : Bytes
  pub serial_number : Bytes
  pub user_name : Bytes

-- `extract(p, len)`: the byte at the pointer is read before `len` is tested.
unfoldable pub extract : Bytes → ℕ → ℕ → Option Bytes
extract buf p zero = do _ ← get_elem? buf p; some []
extract buf p (suc len) = do
  c ← get_elem? buf p
  if c == 0 then some [] else (do out ← extract buf (p + 1) len; some (c ∷ out))

-- `for (i = 0; i < n; i++) x = (x << 8) | raw[at + i]`, in an unsigned type of `width` bits.
unfoldable pub read_number : ℕ → Bytes → ℕ → ℕ → ℕ → Option ℕ
read_number width buf at zero x = some x
read_number width buf at (suc n) x = (do
  b ← get_elem? buf at
  read_number width buf (at + 1) n ((x * 256) % 2 ^ width + b))

unfoldable pub clear : DeviceInfo → DeviceInfo
clear d = record {
  iface_name = d.iface_name;
  major = 0;
  minor = 0;
  mac = 0;
  ip = 0;
  subnet = 0;
  gateway = 0;
  manufacturer_name = [];
  model_name = [];
  device_version = [];
  manufacturer_info = [];
  serial_number = [];
  user_name = [];
}

-- A field whose bytes lie within the first `len` is read, another keeps its value.
unfoldable pub when_long {ℓ} : {A : Type ℓ} → ℕ → ℕ → Option A → A → Option A
when_long need len read old = if leb need len then read else some old

-- `set(raw, len)`, where `raw` points to byte `raw` of `buf`.
unfoldable pub set : Bytes → ℕ → ℕ → DeviceInfo → Option DeviceInfo
unfolding clear
set buf raw len old = do
  let d = clear old
  major ← when_long 4 len (read_number 32 buf raw 2 0) d.major
  minor ← when_long 4 len (read_number 32 buf (raw + 2) 2 0) d.minor
  mac ← when_long 16 len (read_number 64 buf (raw + 10) 6 0) d.mac
  ip ← when_long 40 len (read_number 32 buf (raw + 36) 4 0) d.ip
  subnet ← when_long 56 len (read_number 32 buf (raw + 52) 4 0) d.subnet
  gateway ← when_long 72 len (read_number 32 buf (raw + 68) 4 0) d.gateway
  manufacturer_name ← when_long 104 len (extract buf (raw + 72) 32) d.manufacturer_name
  model_name ← when_long 136 len (extract buf (raw + 104) 32) d.model_name
  device_version ← when_long 168 len (extract buf (raw + 136) 32) d.device_version
  manufacturer_info ← when_long 216 len (extract buf (raw + 168) 48) d.manufacturer_info
  serial_number ← when_long 232 len (extract buf (raw + 216) 16) d.serial_number
  user_name ← when_long 248 len (extract buf (raw + 232) 16) d.user_name
  some (record {
    iface_name = d.iface_name;
    major = major;
    minor = minor;
    mac = mac;
    ip = ip;
    subnet = subnet;
    gateway = gateway;
    manufacturer_name = manufacturer_name;
    model_name = model_name;
    device_version = device_version;
    manufacturer_info = manufacturer_info;
    serial_number = serial_number;
    user_name = user_name;
  })

-- The constructor.
unfoldable pub make : Bytes → DeviceInfo
make iface = record {
  iface_name = iface;
  major = 0;
  minor = 0;
  mac = 0;
  ip = 0;
  subnet = 0;
  gateway = 0;
  manufacturer_name = [];
  model_name = [];
  device_version = [];
  manufacturer_info = [];
  serial_number = [];
  user_name = [];
}

unfoldable pub is_valid : DeviceInfo → Bool
is_valid d = not (d.mac == 0)

-- `operator<`: the MAC address first, then the interface name.
unfoldable pub info_lt : DeviceInfo → DeviceInfo → Bool
info_lt a b = ltb a.mac b.mac || (a.mac == b.mac && text_lt a.iface_name b.iface_name)
