-- ===== src/Gui/DeviceList/Actions.antt =====
-- The filters, the sorting and the selection of tools/rcdiscover-gui/device_list.cc. The rows that
-- are selected are what the table widget answers: a function from rows to Booleans.
use rcdiscover.Base.{
  ℕ, zero, suc, Bool, true, false, not, ◌&&◌, ◌||◌, List, [], ◌∷◌, ◌++◌, map, Option, none, some,
  Bytes, codes, length, get_elem?, ltb, ◌==◌, if◌then◌else◌,
}
use rcdiscover.Gui.DeviceList.{
  ◌>>=◌, DeviceListData, DeviceList, item, is_prefix, update_device_indices,
}

unfoldable pub filter_rc_devices : DeviceList → Bool → Option DeviceList
filter_rc_devices s filter_rc = update_device_indices (record s { filter_rc = filter_rc })

unfoldable pub filter : DeviceList → Bytes → Option DeviceList
filter s filter_value = update_device_indices (record s { filter_value = filter_value })

unfoldable pub set_sorting : DeviceList → ℕ → Bool → Option DeviceList
set_sorting s sort_col sort_down =
    update_device_indices (record s { sort_col = sort_col; sort_down = sort_down })

-- `getSorting`: what the two arguments hold afterwards.
unfoldable pub get_sorting : DeviceList → ℕ → Bool → ℕ × Bool
get_sorting s sort_col sort_down =
    if ltb sort_col 8 then (s.sort_col, s.sort_down) else (sort_col, sort_down)

-- A click on the header of column `c`.
unfoldable pub sort_column : DeviceList → ℕ → Option DeviceList
sort_column s c =
    if s.sort_col == c
    then update_device_indices (record s { sort_down = not s.sort_down })
    else update_device_indices (record s { sort_col = c; sort_down = true })

abbrev pub unhighlight : DeviceListData → DeviceListData
unhighlight d = record d { new_discovery = false }

-- The first click on a cell, which ends the highlighting of new devices.
unfoldable pub remove_highlight : DeviceList → DeviceList
remove_highlight s =
    if s.new_discovery
    then record s { new_discovery = false; device = map unhighlight s.device }
    else s

-- The last selected of the rows from `i` on, `n` of them.
unfoldable pub last_selected : (ℕ → Bool) → ℕ → ℕ → Option ℕ → Option ℕ
last_selected selected i zero sel = sel
last_selected selected i (suc n) sel =
    last_selected selected (suc i) n (if selected i then some i else sel)

-- `none` stands for -1.
unfoldable pub get_selected_row : DeviceList → (ℕ → Bool) → Option ℕ
get_selected_row s selected = last_selected selected 0 (length s.index) none

-- `device[index[r]]`.
unfoldable pub shown : DeviceList → ℕ → Option DeviceListData
shown s r = do i ← get_elem? s.index r; get_elem? s.device i

-- A test of the selected device; it fails when no row is selected.
abbrev pub test_selected : DeviceList → (ℕ → Bool) → (DeviceListData → Bool) → Option Bool
test_selected s selected test = elim (get_selected_row s selected) [
  | none ↦ some false
  | some r ↦ (do d ← shown s r; some (test d))
]

unfoldable pub is_reachable_rc_device_selected : DeviceList → (ℕ → Bool) → Option Bool
is_reachable_rc_device_selected s selected =
    test_selected s selected (λ d. d.reachable && is_prefix (codes "rc_") d.model)

unfoldable pub is_reachable_device_selected : DeviceList → (ℕ → Bool) → Option Bool
is_reachable_device_selected s selected = test_selected s selected (λ d. d.reachable)

unfoldable pub is_rc_visard_selected : DeviceList → (ℕ → Bool) → Option Bool
is_rc_visard_selected s selected =
    test_selected s selected (λ d. is_prefix (codes "rc_visard") d.model)

unfoldable pub get_selected_mac : DeviceList → (ℕ → Bool) → Option Bytes
get_selected_mac s selected = elim (get_selected_row s selected) [
  | none ↦ some []
  | some r ↦ (do d ← shown s r; some d.mac)
]

-- The loops over the index that collect something of the devices that pass a test.
unfoldable pub collect {ℓ} :
    {A : Type ℓ}
    → DeviceList
    → (DeviceListData → Bool)
    → (DeviceListData → A)
    → List ℕ
    → Option (List A)
collect s test f [] = some []
collect s test f (i ∷ is) = do
  d ← get_elem? s.device i
  rest ← collect s test f is
  some (if test d then f d ∷ rest else rest)

unfoldable pub get_current_name_mac_list : DeviceList → Bool → Option (List (Bytes × Bytes))
get_current_name_mac_list s only_rc_visard =
    collect s (λ d. not only_rc_visard || is_prefix (codes "rc_visard") d.model)
      (λ d. (d.name, d.mac)) s.index

unfoldable pub get_current_name_mac_ip_list :
    DeviceList → Bool → Option (List (Bytes × Bytes × Bytes))
get_current_name_mac_ip_list s only_rc_visard =
    collect s (λ d. d.reachable && (not only_rc_visard || is_prefix (codes "rc_visard") d.model))
      (λ d. (d.name, d.mac, d.ip)) s.index

unfoldable pub get_cell : DeviceList → ℕ → ℕ → Option Bytes
get_cell s r c = if ltb r (length s.index) && ltb c 7 then (do d ← shown s r; item d c) else some []

-- The address that is opened in the browser, if any.
unfoldable pub open_web_gui : DeviceList → ℕ → Option (Option Bytes)
open_web_gui s r = do
  d ← shown s r
  some (
      if d.reachable && is_prefix (codes "rc_") d.model
      then some (codes "http://" ++ d.ip)
      else none)
