-- ===== src/Gui/DeviceList/Valid.antt =====
-- What holds after any sequence of operations on the list of tools/rcdiscover-gui/device_list.cc.
use rcdiscover.Base.{
  ℕ, zero, suc, ◌<◌, ◌≡◌, refl, sym, subst, ap, ◌∙◌, inl, inr, Bool, true, false, ◌||◌, List, [],
  ◌∷◌, ◌++◌, map, Option, none, some, Bytes, length, length-append, get_elem?, get_elem?_total, set,
  All, text_eq, if◌then◌else◌, Bool-cases, Option-cases, ◌==◌, arith,
}
use rcdiscover.Gui.DeviceList.{
  ◌>>=◌, DeviceListData, DeviceList, has_member, is_visible, add_device_index,
  update_device_indices, clear, find_mac, add_interface, new_device, push_device, add,
}
use rcdiscover.Gui.DeviceList.Order.{
  Within, is_before, insert_by, insert_index_total, insert_by-All,
}
use rcdiscover.Gui.DeviceList.Shown.{update_device_indices-IsShown}
use rcdiscover.Gui.DeviceList.Actions.{
  filter_rc_devices, filter, set_sorting, sort_column, remove_highlight, unhighlight,
}

-- The operations that change the list.
pub data Op : Type 0 where
  clears remove_highlights : Op
  adds : (name manufacturer model sn ip mac interface : Bytes) (reachable : Bool) → Op
  filters_rc : Bool → Op
  filters : Bytes → Op
  sets_sorting : ℕ → Bool → Op
  sorts_column : ℕ → Op

unfoldable pub step : DeviceList → Op → Option DeviceList
step s clears = some (clear s)
step s remove_highlights = some (remove_highlight s)
step s (adds name manufacturer model sn ip mac interface reachable) =
    add s name manufacturer model sn ip mac interface reachable
step s (filters_rc b) = filter_rc_devices s b
step s (filters v) = filter s v
step s (sets_sorting c d) = set_sorting s c d
step s (sorts_column c) = sort_column s c

unfoldable pub run : List Op → DeviceList → Option DeviceList
run [] s = some s
run (op ∷ ops) s = do s' ← step s op; run ops s'

-- The column that is sorted by is one of the table.
abbrev pub InTable : Op → Type 0
InTable (sets_sorting c d) = c < 8
InTable (sorts_column c) = c < 8
InTable _ = Unit

abbrev pub macs : List DeviceListData → List Bytes
macs [] = []
macs (d ∷ ds) = d.mac ∷ macs ds

abbrev pub Distinct : List Bytes → Type 0
Distinct [] = Unit
Distinct (x ∷ xs) = (has_member x xs ≡ false) × Distinct xs

-- The sort column exists, rows are devices, and no MAC address stands twice.
pub record IsValid (s : DeviceList) : Type 0 where
  pub column : s.sort_col < 8
  pub within : Within s s.index
  pub distinct : Distinct (macs s.device)

text_eq_comm : (s t : Bytes) → text_eq s t ≡ text_eq t s
unfolding text_eq
text_eq_comm [] [] = refl
text_eq_comm [] (b ∷ t) = refl
text_eq_comm (a ∷ s) [] = refl
text_eq_comm (a ∷ s) (b ∷ t) = ground (arith, text_eq_comm s t)

has_member-snoc :
    (x m : Bytes) (xs : List Bytes)
    → has_member x xs ≡ false
    → text_eq m x ≡ false
    → has_member x (xs ++ m ∷ []) ≡ false
has_member-snoc x m [] h k = ground (arith, k)
has_member-snoc x m (y ∷ xs) h k = ground (arith, has_member-snoc x m xs)

Distinct-snoc :
    (m : Bytes) (xs : List Bytes) → Distinct xs → has_member m xs ≡ false → Distinct (xs ++ m ∷ [])
Distinct-snoc m [] h k = (refl, tt)
Distinct-snoc m (x ∷ xs) (h, hs) k = (
  has_member-snoc x m xs h (text_eq_comm m x ∙ ground arith),
  Distinct-snoc m xs hs (ground arith),
)

pub macs-append :
    (ds : List DeviceListData) (d : DeviceListData) → macs (ds ++ d ∷ []) ≡ macs ds ++ d.mac ∷ []
macs-append [] d = refl
macs-append (e ∷ ds) d = ap (λ l. e.mac ∷ l) (macs-append ds d)

pub macs-set :
    (ds : List DeviceListData) (k : ℕ) (d e : DeviceListData)
    → get_elem? ds k ≡ some d
    → e.mac ≡ d.mac
    → macs (set ds k e) ≡ macs ds
macs-set [] k d e h g = refl
macs-set (x ∷ ds) zero d e h g = cc
macs-set (x ∷ ds) (suc k) d e h g = ap (λ l. x.mac ∷ l) (macs-set ds k d e h g)

macs-unhighlight : (ds : List DeviceListData) → macs (map unhighlight ds) ≡ macs ds
macs-unhighlight [] = refl
macs-unhighlight (d ∷ ds) = ap (λ l. d.mac ∷ l) (macs-unhighlight ds)

length-macs : (ds : List DeviceListData) → length (macs ds) ≡ length ds
length-macs [] = refl
length-macs (d ∷ ds) = ap suc (length-macs ds)

pub find_mac-none :
    (ds : List DeviceListData) (mac : Bytes)
    → find_mac ds mac ≡ none
    → has_member mac (macs ds) ≡ false
unfolding find_mac
find_mac-none [] mac h = refl
find_mac-none (d ∷ ds) mac h = ground (arith, find_mac-none ds mac)

pub find_mac-within :
    (ds : List DeviceListData) (mac : Bytes) (k : ℕ) → find_mac ds mac ≡ some k → k < length ds
unfolding find_mac
find_mac-within [] mac k h = cc
find_mac-within (d ∷ ds) mac k h = elim (Option-cases (find_mac ds mac)) [
  | inl e ↦ ground (arith, e)
  | inr (j, e) ↦ let below = find_mac-within ds mac j e in ground (arith, e, below)
]

-- The operation returns a valid state.
abbrev pub Succeeds : Option DeviceList → Type 0
Succeeds o = (s : DeviceList) × (o ≡ some s) × IsValid s

rebuilt :
    (s : DeviceList)
    → s.sort_col < 8
    → Distinct (macs s.device)
    → Succeeds (update_device_indices s)
rebuilt s col distinct =
    let (is, e, shown) = update_device_indices-IsShown s col in
    (
      record s { index = is },
      e,
      record { column = col; within = shown.within; distinct = distinct },
    )

Within-snoc :
    (s : DeviceList) (d : DeviceListData) (is : List ℕ)
    → Within s is
    → All (λ i. i < length (s.device ++ d ∷ [])) is
Within-snoc s d [] h = tt
Within-snoc s d (i ∷ is) (h, hs) =
    (omega (arith, length-append s.device (d ∷ [])), Within-snoc s d is hs)

add_device_index-Succeeds :
    (s : DeviceList) (i : ℕ) → i < length s.device → IsValid s → Succeeds (add_device_index s i)
unfolding add_device_index
add_device_index-Succeeds s i h v =
    let (d, e) = get_elem?_total s.device i h in
    elim (Bool-cases (is_visible s.filter_rc s.filter_value d)) [
      | inl t ↦ (
        record s { index = insert_by (is_before s) i s.index },
        rw (e, t, insert_index_total s i s.index v.column h v.within) refl,
        record {
          column = v.column;
          within = insert_by-All (is_before s) (λ k. k < length s.device) i s.index h v.within;
          distinct = v.distinct;
        },
      )
      | inr f ↦ (s, rw (e, f) refl, v)
    ]

push_device-Succeeds :
    (s : DeviceList) (d : DeviceListData)
    → has_member d.mac (macs s.device) ≡ false
    → IsValid s
    → Succeeds (push_device s d)
unfolding push_device
push_device-Succeeds s d fresh v =
    add_device_index-Succeeds
      (record s { new_discovery = s.new_discovery || d.new_discovery; device = s.device ++ d ∷ [] })
      (length s.device) (omega (arith, length-append s.device (d ∷ [])))
      (record {
        column = v.column;
        within = Within-snoc s d s.index v.within;
        distinct =
            subst Distinct (sym (macs-append s.device d))
              (Distinct-snoc d.mac (macs s.device) v.distinct fresh);
      })

pub add_interface-mac :
    (d : DeviceListData) (interface : Bytes) (reachable : Bool)
    → (add_interface d interface reachable).mac ≡ d.mac
unfolding add_interface
add_interface-mac d interface reachable =
    elim (Bool-cases (has_member interface d.interface_list)) [
      | inl e ↦ rw (e) refl
      | inr e ↦ rw (e) refl
    ]

-- A change of the devices that keeps their MAC addresses.
same_macs :
    (s : DeviceList) (new_discovery : Bool) (ds : List DeviceListData)
    → macs ds ≡ macs s.device
    → IsValid s
    → IsValid (record s { new_discovery = new_discovery; device = ds })
same_macs s n ds e v = record {
  column = v.column;
  within =
      subst (λ k. All (λ i. i < k) s.index)
        (sym (length-macs s.device) ∙ (ap length (sym e) ∙ length-macs ds)) v.within;
  distinct = subst Distinct (sym e) v.distinct;
}

pub new_device-mac :
    (previous : List Bytes) (name manufacturer model sn ip mac interface : Bytes) (reachable : Bool)
    → (new_device previous name manufacturer model sn ip mac interface reachable).mac ≡ mac
unfolding new_device
new_device-mac previous name manufacturer model sn ip mac interface reachable = refl

pub add-Succeeds :
    (s : DeviceList) (name manufacturer model sn ip mac interface : Bytes) (reachable : Bool)
    → IsValid s
    → Succeeds (add s name manufacturer model sn ip mac interface reachable)
unfolding add
add-Succeeds s name manufacturer model sn ip mac interface reachable v =
    elim (Option-cases (find_mac s.device mac)) [
      | inl e ↦
          rw (e, add)
            (push_device-Succeeds s _
              (rw
                (new_device-mac s.previous_mac_list name manufacturer model sn ip mac interface
                  reachable)
                (find_mac-none s.device mac e))
              v)
      | inr (k, e) ↦
          let (d, f) = get_elem?_total s.device k (find_mac-within s.device mac k e) in
          (
            record s { device = set s.device k (add_interface d interface reachable) },
            rw (e, add, f) refl,
            same_macs s s.new_discovery (set s.device k (add_interface d interface reachable))
                (macs-set s.device k d _ f (add_interface-mac d interface reachable)) v,
          )
    ]

unhighlighted :
    (b : Bool) (s : DeviceList)
    → IsValid s
    → IsValid
        (if b then record s { new_discovery = false; device = map unhighlight s.device } else s)
unhighlighted true s v = same_macs s false (map unhighlight s.device) (macs-unhighlight s.device) v
unhighlighted false s v = v

step-Succeeds : (s : DeviceList) (op : Op) → InTable op → IsValid s → Succeeds (step s op)
unfolding step clear remove_highlight filter_rc_devices filter set_sorting sort_column
step-Succeeds s clears h v =
    (clear s, refl, record { column = v.column; within = tt; distinct = tt })
step-Succeeds s remove_highlights h v = (_, refl, unhighlighted s.new_discovery s v)
step-Succeeds s (adds name manufacturer model sn ip mac interface reachable) h v =
    add-Succeeds s name manufacturer model sn ip mac interface reachable v
step-Succeeds s (filters_rc b) h v = rebuilt (record s { filter_rc = b }) v.column v.distinct
step-Succeeds s (filters t) h v = rebuilt (record s { filter_value = t }) v.column v.distinct
step-Succeeds s (sets_sorting c d) h v =
    rebuilt (record s { sort_col = c; sort_down = d }) h v.distinct
step-Succeeds s (sorts_column c) h v = elim (Bool-cases (s.sort_col == c)) [
  | inl e ↦ rw (e) (rebuilt (record s { sort_down = _ }) v.column v.distinct)
  | inr e ↦ rw (e) (rebuilt (record s { sort_col = c; sort_down = true }) h v.distinct)
]

-- Any sequence of operations that sorts by columns of the table only reads inside the arrays, and
-- keeps the list valid: rows stand for devices, and no MAC address is listed twice.
pub run-IsValid :
    (ops : List Op) (s : DeviceList)
    → All InTable ops
    → IsValid s
    → (t : DeviceList) × (run ops s ≡ some t) × IsValid t
unfolding run
run-IsValid [] s h v = (s, refl, v)
run-IsValid (op ∷ ops) s (h, hs) v =
    let (s', e, v') = step-Succeeds s op h v in
    let (t, f, w) = run-IsValid ops s' hs v' in (t, rw (e) f, w)
