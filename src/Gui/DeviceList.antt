-- ===== src/Gui/DeviceList.antt =====
-- `DeviceList` of tools/rcdiscover-gui/device_list.cc: the devices that were found, and the indices
-- of the visible ones in the order in which they are shown. `none` is a read outside an array.
-- Redrawing is not kept.
pub mod Actions
pub mod Handle
pub mod Order
pub mod Shown
pub mod Valid
use rcdiscover.Base.{
  ℕ, zero, suc, ◌<◌, Bool, true, false, not, ◌&&◌, ◌||◌, List, [], ◌∷◌, ◌++◌, Option, none, some,
  Bytes, codes, length, get_elem?, set, take, is_empty, ltb, ◌==◌, text_eq, text_lt, if◌then◌else◌,
  bind_option,
}

abbrev pub ◌>>=◌ {ℓ κ} : {A : Type ℓ} {B : Type κ} → Option A → (A → Option B) → Option B
◌>>=◌ = bind_option

-- `DeviceListData`, with a field for each of the eight items.
pub record DeviceListData : Type 0 where
  pub name : Bytes
  pub manufacturer : Bytes
  pub model : Bytes
  pub sn : Bytes
  pub ip : Bytes
  pub mac : Bytes
  pub interfaces : Bytes
  pub mark : Bytes
  pub interface_list : List Bytes
  pub reachable : Bool
  pub new_discovery : Bool

-- `data.item[c]`.
abbrev pub item : DeviceListData → ℕ → Option Bytes
item d =
    get_elem? (d.name ∷ d.manufacturer ∷ d.model ∷ d.sn ∷ d.ip ∷ d.mac ∷ d.interfaces ∷ d.mark ∷ [])

pub record DeviceList : Type 0 where
  pub previous_mac_list : List Bytes
  pub new_discovery : Bool
  pub device : List DeviceListData
  pub index : List ℕ
  pub sort_col : ℕ
  pub sort_down : Bool
  pub filter_rc : Bool
  pub filter_value : Bytes

-- The constructor.
abbrev pub new_list : DeviceList
new_list = record {
  previous_mac_list = [];
  new_discovery = false;
  device = [];
  index = [];
  sort_col = 0;
  sort_down = true;
  filter_rc = true;
  filter_value = [];
}

abbrev pub is_prefix : Bytes → Bytes → Bool
is_prefix [] s = true
is_prefix (c ∷ p) [] = false
is_prefix (c ∷ p) (d ∷ s) = c == d && is_prefix p s

-- `s.find(p) != npos`.
abbrev pub has_infix : Bytes → Bytes → Bool
has_infix p [] = is_empty p
has_infix p (d ∷ s) = is_prefix p (d ∷ s) || has_infix p s

abbrev pub has_member : Bytes → List Bytes → Bool
has_member x [] = false
has_member x (y ∷ ys) = text_eq y x || has_member x ys

-- `std::set::insert`, which keeps the elements in order, and its answer whether `x` is new.
unfoldable pub insert_text : Bytes → List Bytes → List Bytes
insert_text x [] = x ∷ []
insert_text x (y ∷ ys) =
    if text_lt x y then x ∷ y ∷ ys else if text_lt y x then y ∷ insert_text x ys else y ∷ ys

-- The tests at the start of `addDeviceIndex`, on the items before the mark.
unfoldable pub is_visible : Bool → Bytes → DeviceListData → Bool
is_visible filter_rc filter_value d =
    (not filter_rc || is_prefix (codes "rc_") d.model)
    && (is_empty filter_value
        || has_infix filter_value d.name
        || has_infix filter_value d.manufacturer
        || has_infix filter_value d.model
        || has_infix filter_value d.sn
        || has_infix filter_value d.ip
        || has_infix filter_value d.mac
        || has_infix filter_value d.interfaces)

-- `a.compare(b) * dir < 0`.
unfoldable pub precedes : Bool → Bytes → Bytes → Bool
precedes sort_down a b = if sort_down then text_lt a b else text_lt b a

-- `device[i].item[sort_col]`.
unfoldable pub sort_key : DeviceList → ℕ → Option Bytes
sort_key s i = do d ← get_elem? s.device i; item d s.sort_col

-- The loop that inserts `i` before the first index that it precedes, or at the end.
unfoldable pub insert_index : DeviceList → ℕ → List ℕ → Option (List ℕ)
insert_index s i [] = some (i ∷ [])
insert_index s i (k ∷ ks) = do
  a ← sort_key s i
  b ← sort_key s k
  if precedes s.sort_down a b
      then some (i ∷ k ∷ ks)
      else (do rest ← insert_index s i ks; some (k ∷ rest))

unfoldable pub add_device_index : DeviceList → ℕ → Option DeviceList
add_device_index s i = do
  d ← get_elem? s.device i
  if is_visible s.filter_rc s.filter_value d
      then (do index ← insert_index s i s.index; some (record s { index = index }))
      else some s

-- The loop over the devices `i`, …, `i + n - 1`.
unfoldable pub add_indices : DeviceList → ℕ → ℕ → Option DeviceList
add_indices s i zero = some s
add_indices s i (suc n) = do s' ← add_device_index s i; add_indices s' (suc i) n

unfoldable pub update_device_indices : DeviceList → Option DeviceList
update_device_indices s = add_indices (record s { index = [] }) 0 (length s.device)

-- The loop that collects the MAC addresses for `clear`.
unfoldable pub all_macs : List DeviceListData → List Bytes → List Bytes
all_macs [] macs = macs
all_macs (d ∷ ds) macs = all_macs ds (insert_text d.mac macs)

unfoldable pub clear : DeviceList → DeviceList
clear s = record s {
  previous_mac_list = all_macs s.device [];
  new_discovery = false;
  device = [];
  index = [];
}

abbrev pub check_mark : Bool → Bytes
check_mark true = 0xe2 ∷ 0x9c ∷ 0x93 ∷ []
check_mark false = 0xe2 ∷ 0x9c ∷ 0x97 ∷ []

-- The interfaces of a device, with commas between them.
abbrev pub join_names : List Bytes → Bytes
join_names [] = []
join_names (x ∷ []) = x
join_names (x ∷ y ∷ ys) = x ++ codes ", " ++ join_names (y ∷ ys)

-- The first device with the MAC address, counted from `i`.
unfoldable pub find_mac : List DeviceListData → Bytes → Option ℕ
find_mac [] mac = none
find_mac (d ∷ ds) mac = elim (text_eq d.mac mac) [
  | true ↦ some 0
  | false ↦ (do k ← find_mac ds mac; some (suc k))
]

-- A known device: its interfaces grow, or nothing happens.
unfoldable pub add_interface : DeviceListData → Bytes → Bool → DeviceListData
add_interface d interface reachable =
    if has_member interface d.interface_list then d else record d {
      interface_list = insert_text interface d.interface_list;
      interfaces = join_names (insert_text interface d.interface_list);
      reachable = d.reachable || reachable;
      mark = check_mark (d.reachable || reachable);
    }

-- The arguments of `add`, as the device that they describe.
unfoldable pub new_device :
    List Bytes → Bytes → Bytes → Bytes → Bytes → Bytes → Bytes → Bytes → Bool → DeviceListData
new_device previous name manufacturer model sn ip mac interface reachable = record {
  name = name;
  manufacturer = manufacturer;
  model = model;
  sn = sn;
  ip = ip;
  mac = mac;
  interfaces = interface;
  mark = check_mark reachable;
  interface_list = interface ∷ [];
  reachable = reachable;
  new_discovery = not (is_empty previous) && not (has_member mac previous);
}

-- The end of `add` for a new device.
unfoldable pub push_device : DeviceList → DeviceListData → Option DeviceList
push_device s d =
    add_device_index
      (record s { new_discovery = s.new_discovery || d.new_discovery; device = s.device ++ d ∷ [] })
      (length s.device)

unfoldable pub add :
    DeviceList → Bytes → Bytes → Bytes → Bytes → Bytes → Bytes → Bytes → Bool → Option DeviceList
add s name manufacturer model sn ip mac interface reachable = elim (find_mac s.device mac) [
  | none ↦
      push_device s
        (new_device s.previous_mac_list name manufacturer model sn ip mac interface reachable)
  | some k ↦ (do
    d ← get_elem? s.device k
    some (record s { device = set s.device k (add_interface d interface reachable) }))
]
