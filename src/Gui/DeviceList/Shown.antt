-- ===== src/Gui/DeviceList/Shown.antt =====
-- Which rows of tools/rcdiscover-gui/device_list.cc are shown after the operations that rebuild the
-- index, and after a new device is added.
use rcdiscover.Base.{
  ℕ, zero, suc, ◌+◌, ◌<◌, ◌≡◌, refl, subst, ap, ap₂, ◌∙◌, inl, inr, Bool, true, false, ◌&&◌, ◌||◌,
  List, [], ◌∷◌, ◌++◌, none, some, Bytes, length, length-append, get_elem?, get_elem?_total, All,
  ltb, ◌==◌, ==_iff, Bool-cases, arith,
}
use rcdiscover.Gui.DeviceList.{
  DeviceListData, DeviceList, precedes, sort_key, is_visible, add_device_index, add_indices,
  update_device_indices, find_mac, new_device, push_device, add,
}
use rcdiscover.Gui.DeviceList.Order.{
  key, is_before, IsOrdered, Within, visible_at, visible_at-some, one_if, IsShown, insert_by,
  insert_index_total, insert_by-All, insert_by-count, insert_by-IsOrdered,
}

next_count :
    (j i : ℕ) (v : ℕ → Bool)
    → v i ≡ true
    → one_if (j == i) + one_if (ltb j i && v j) ≡ one_if (ltb j (suc i) && v j)
next_count j i v h = elim (Bool-cases (j == i)) [
  | inl e ↦ let same = ap v ((==_iff j i).0 e) in ground (arith, same)
  | inr e ↦ ground arith
]

skip_count :
    (j i : ℕ) (v : ℕ → Bool) → v i ≡ false → one_if (ltb j i && v j) ≡ one_if (ltb j (suc i) && v j)
skip_count j i v h = elim (Bool-cases (j == i)) [
  | inl e ↦ let same = ap v ((==_iff j i).0 e) in ground (arith, same)
  | inr e ↦ ground arith
]

-- The index after device `i` was considered.
abbrev Considers : DeviceList → ℕ → Type 0
Considers s i =
    (is : List ℕ) × (add_device_index s i ≡ some (record s { index = is }))
    × IsShown (record s { index = is }) (suc i)

add_device_index-IsShown :
    (s : DeviceList) (i : ℕ) → s.sort_col < 8 → i < length s.device → IsShown s i → Considers s i
unfolding add_device_index is_before key sort_key visible_at
add_device_index-IsShown s i col within shown =
    let (d, e) = get_elem?_total s.device i within in
    elim (Bool-cases (is_visible s.filter_rc s.filter_value d)) [
      | inl v ↦ (
        insert_by (is_before s) i s.index,
        rw (e, v, insert_index_total s i s.index col within shown.within) refl,
        record {
          within =
              insert_by-All (is_before s) (λ k. k < length s.device) i s.index within shown.within;
          ordered = insert_by-IsOrdered s i s.index shown.ordered;
          exact = λ j.
              insert_by-count (is_before s) j i s.index
              ∙ (ap (λ n. one_if (j == i) + n) (shown.exact j)
                  ∙ next_count j i (visible_at s) (visible_at-some s i d e ∙ v));
        },
      )
      | inr v ↦ (
        s.index,
        rw (e, v) refl,
        record {
          within = shown.within;
          ordered = shown.ordered;
          exact = λ j. shown.exact j ∙ skip_count j i (visible_at s) (visible_at-some s i d e ∙ v);
        },
      )
    ]

add_indices-IsShown :
    (s : DeviceList) (i n : ℕ)
    → s.sort_col < 8
    → i + n ≡ length s.device
    → IsShown s i
    → (is : List ℕ) × (add_indices s i n ≡ some (record s { index = is }))
      × IsShown (record s { index = is }) (length s.device)
unfolding add_indices
add_indices-IsShown s i zero col end shown = (s.index, refl, subst (IsShown s) (omega arith) shown)
add_indices-IsShown s i (suc n) col end shown =
    let (is, e, shown') = add_device_index-IsShown s i col (omega arith) shown in
    let (is', f, shown'') =
      add_indices-IsShown (record s { index = is }) (suc i) n col (omega arith) shown' in
    (is', rw (e) f, shown'')

pub nothing-IsShown : (s : DeviceList) → IsShown (record s { index = [] }) 0
nothing-IsShown s = record { within = tt; ordered = tt; exact = λ j. ground arith }

-- Rebuilding the index shows each visible device in one row and nothing else, in the order of
-- the sort column, whatever the index was before.
pub update_device_indices-IsShown :
    (s : DeviceList)
    → s.sort_col < 8
    → (is : List ℕ) × (update_device_indices s ≡ some (record s { index = is }))
      × IsShown (record s { index = is }) (length s.device)
unfolding update_device_indices
update_device_indices-IsShown s col =
    add_indices-IsShown (record s { index = [] }) 0 (length s.device) col (omega arith)
      (nothing-IsShown s)

get_elem?-snoc :
    {A : Type 0} (xs : List A) (x : A) (i : ℕ)
    → i < length xs
    → get_elem? (xs ++ x ∷ []) i ≡ get_elem? xs i
get_elem?-snoc [] x i h = absurd (omega arith)
get_elem?-snoc (y ∷ xs) x zero h = refl
get_elem?-snoc (y ∷ xs) x (suc i) h = get_elem?-snoc xs x i (omega arith)

-- The state with one more device, before its index is considered.
abbrev extended : DeviceList → DeviceListData → DeviceList
extended s d = record s {
  new_discovery = s.new_discovery || d.new_discovery;
  device = s.device ++ d ∷ [];
}

module _ (s : DeviceList) (d : DeviceListData) where
  sort_key-extended : (i : ℕ) → i < length s.device → sort_key (extended s d) i ≡ sort_key s i
  unfolding sort_key
  sort_key-extended i h = rw (get_elem?-snoc s.device d i h) refl

  key-extended : (i : ℕ) → i < length s.device → key (extended s d) i ≡ key s i
  unfolding key
  key-extended i h =
      ap (λ o. elim o as (λ _. Bytes) [ none ↦ [] | some a ↦ a ]) (sort_key-extended i h)

  is_before-extended :
      (i k : ℕ)
      → i < length s.device
      → k < length s.device
      → is_before (extended s d) i k ≡ is_before s i k
  unfolding is_before
  is_before-extended i k h g = ap₂ (precedes s.sort_down) (key-extended i h) (key-extended k g)

  visible_at-extended : (j : ℕ) → j < length s.device → visible_at (extended s d) j ≡ visible_at s j
  unfolding visible_at
  visible_at-extended j h =
      ap
        (λ o. elim o as (λ _. Bool) [
          | none ↦ false
          | some e ↦ is_visible s.filter_rc s.filter_value e
        ])
        (get_elem?-snoc s.device d j h)

  Within-extended : (is : List ℕ) → Within s is → Within (extended s d) is
  Within-extended [] h = tt
  Within-extended (i ∷ is) (h, hs) =
      (omega (arith, length-append s.device (d ∷ [])), Within-extended is hs)

  rows-extended :
      (i : ℕ) (ks : List ℕ)
      → i < length s.device
      → Within s ks
      → All (λ k. is_before s k i ≡ false) ks
      → All (λ k. is_before (extended s d) k i ≡ false) ks
  rows-extended i [] h hs g = tt
  rows-extended i (k ∷ ks) h (hk, hs) (g, gs) =
      (is_before-extended k i hk h ∙ g, rows-extended i ks h hs gs)

  IsOrdered-extended : (is : List ℕ) → Within s is → IsOrdered s is → IsOrdered (extended s d) is
  IsOrdered-extended [] h g = tt
  IsOrdered-extended (i ∷ is) (h, hs) (g, gs) =
      (rows-extended i is h hs g, IsOrdered-extended is hs gs)

  IsShown-extended : IsShown s (length s.device) → IsShown (extended s d) (length s.device)
  IsShown-extended shown = record {
    within = Within-extended s.index shown.within;
    ordered = IsOrdered-extended s.index shown.within shown.ordered;
    exact = λ j. shown.exact j ∙ same j;
  }
    where
      same :
          (j : ℕ)
          → one_if (ltb j (length s.device) && visible_at s j)
            ≡ one_if (ltb j (length s.device) && visible_at (extended s d) j)
      same j = elim (Bool-cases (ltb j (length s.device))) [
        | inl e ↦ rw (visible_at-extended j (ground arith)) refl
        | inr e ↦ rw (e) refl
      ]

  push_device-IsShown :
      s.sort_col < 8
      → IsShown s (length s.device)
      → (is : List ℕ) × (push_device s d ≡ some (record (extended s d) { index = is }))
        × IsShown (record (extended s d) { index = is }) (suc (length s.device))
  unfolding push_device
  push_device-IsShown col shown =
      add_device_index-IsShown (extended s d) (length s.device) col
        (omega (arith, length-append s.device (d ∷ []))) (IsShown-extended shown)

-- Adding a device with a new MAC address keeps the rows right: when they are those of the visible
-- devices in order, they are so afterwards, with the new device among them.
pub add-IsShown :
    (s : DeviceList) (name manufacturer model sn ip mac interface : Bytes) (reachable : Bool)
    → s.sort_col < 8
    → IsShown s (length s.device)
    → find_mac s.device mac ≡ none
    → let d =
        new_device s.previous_mac_list name manufacturer model sn ip mac interface reachable in
      (is : List ℕ) × (add s name manufacturer model sn ip mac interface reachable
        ≡ some (record s {
          new_discovery = s.new_discovery || d.new_discovery;
          device = s.device ++ d ∷ [];
          index = is;
        }))
      × IsShown
          (record s {
            new_discovery = s.new_discovery || d.new_discovery;
            device = s.device ++ d ∷ [];
            index = is;
          })
          (suc (length s.device))
unfolding add
add-IsShown s name manufacturer model sn ip mac interface reachable col shown fresh =
    let d = new_device s.previous_mac_list name manufacturer model sn ip mac interface reachable in
    let (is, e, shown') = push_device-IsShown s d col shown in (is, rw (fresh, add) e, shown')
