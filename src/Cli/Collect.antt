-- ===== src/Cli/Collect.antt =====
-- `discoverWithFilter` of tools/rcdiscover-cli/cli_utils.cc: what is made of the responses.
pub mod Order
pub mod Unique
pub mod Selected
use rcdiscover.Base.{
  ℕ, Bool, true, false, ◌&&◌, List, [], ◌∷◌, Option, none, some, Bytes, ◌==◌, text_eq,
  if◌then◌else◌, bind_option,
}
use rcdiscover.DeviceInfo.{DeviceInfo, info_lt}
use rcdiscover.Cli.Filter.{DeviceFilter, filter_device}

abbrev pub ◌>>=◌ {ℓ κ} : {A : Type ℓ} {B : Type κ} → Option A → (A → Option B) → Option B
◌>>=◌ = bind_option

-- `std::sort` with `operator<`, as an insertion sort.
unfoldable pub insert : DeviceInfo → List DeviceInfo → List DeviceInfo
insert x [] = x ∷ []
insert x (y ∷ ys) = if info_lt x y then x ∷ y ∷ ys else y ∷ insert x ys

unfoldable pub sort : List DeviceInfo → List DeviceInfo
sort [] = []
sort (x ∷ xs) = insert x (sort xs)

-- The predicate that is given to `std::unique`.
unfoldable pub same_key : DeviceInfo → DeviceInfo → Bool
same_key a b = a.mac == b.mac && text_eq a.iface_name b.iface_name

-- `std::unique` behind the kept element `x`.
unfoldable pub unique_after : DeviceInfo → List DeviceInfo → List DeviceInfo
unique_after x [] = []
unique_after x (y ∷ ys) = elim (same_key x y) [
  | true ↦ unique_after x ys
  | false ↦ y ∷ unique_after y ys
]

unfoldable pub unique : List DeviceInfo → List DeviceInfo
unique [] = []
unique (x ∷ xs) = x ∷ unique_after x xs

-- The loop that keeps the devices that pass the filter.
unfoldable pub keep_filtered : DeviceFilter → List DeviceInfo → Option (List DeviceInfo)
keep_filtered filter [] = some []
keep_filtered filter (info ∷ infos) = do
  pass ← filter_device info filter
  rest ← keep_filtered filter infos
  some (if pass then info ∷ rest else rest)

-- The argument is what discovery returns for a list of interface names.
unfoldable pub discover_with_filter :
    (List Bytes → List DeviceInfo) → DeviceFilter → Option (List DeviceInfo)
discover_with_filter responses filter =
    keep_filtered filter (unique (sort (responses filter.iface)))
