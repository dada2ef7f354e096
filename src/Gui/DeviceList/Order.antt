-- ===== src/Gui/DeviceList/Order.antt =====
-- The visible rows of tools/rcdiscover-gui/device_list.cc, and their order.
use rcdiscover.Base.{
  ℕ, ◌+◌, ◌<◌, ◌≡◌, refl, inl, inr, Bool, true, false, ◌&&◌, List, [], ◌∷◌, Option, none, some,
  Bytes, length, get_elem?, get_elem?_total, All, text_lt_asym, text_le_trans, ltb, ◌==◌,
  if◌then◌else◌, Bool-cases, arith,
}
use rcdiscover.Gui.DeviceList.{
  DeviceListData, DeviceList, precedes, sort_key, is_visible, insert_index,
}

-- The text that device `i` is sorted by.
unfoldable pub key : DeviceList → ℕ → Bytes
key s i = elim (sort_key s i) [ none ↦ [] | some a ↦ a ]

unfoldable pub is_before : DeviceList → ℕ → ℕ → Bool
is_before s i k = precedes s.sort_down (key s i) (key s k)

-- No row should stand before a row above it.
abbrev pub IsOrdered : DeviceList → List ℕ → Type 0
IsOrdered s [] = Unit
IsOrdered s (i ∷ is) = All (λ k. is_before s k i ≡ false) is × IsOrdered s is

abbrev pub Within : DeviceList → List ℕ → Type 0
Within s = All (λ i. i < length s.device)

unfoldable pub visible_at : DeviceList → ℕ → Bool
visible_at s i = elim (get_elem? s.device i) [
  | none ↦ false
  | some d ↦ is_visible s.filter_rc s.filter_value d
]

pub visible_at-some :
    (s : DeviceList) (i : ℕ) (d : DeviceListData)
    → get_elem? s.device i ≡ some d
    → visible_at s i ≡ is_visible s.filter_rc s.filter_value d
unfolding visible_at
visible_at-some s i d e = rw (e, visible_at) refl

abbrev pub one_if : Bool → ℕ
one_if true = 1
one_if false = 0

abbrev pub count : ℕ → List ℕ → ℕ
count j [] = 0
count j (i ∷ is) = one_if (j == i) + count j is

-- The index holds each of the first `m` devices that is visible once, in order, and nothing else.
pub record IsShown (s : DeviceList) (m : ℕ) : Type 0 where
  pub within : Within s s.index
  pub ordered : IsOrdered s s.index
  pub exact : (j : ℕ) → count j s.index ≡ one_if (ltb j m && visible_at s j)

precedes_asym : (down : Bool) (a b : Bytes) → precedes down a b ≡ true → precedes down b a ≡ false
unfolding precedes
precedes_asym true a b h = text_lt_asym a b h
precedes_asym false a b h = text_lt_asym b a h

precedes_trans :
    (down : Bool) (a b c : Bytes)
    → precedes down b a ≡ false
    → precedes down c b ≡ false
    → precedes down c a ≡ false
unfolding precedes
precedes_trans true a b c h k = text_le_trans a b c h k
precedes_trans false a b c h k = text_le_trans c b a k h

sort_key-some :
    (s : DeviceList) (i : ℕ)
    → s.sort_col < 8
    → i < length s.device
    → (a : Bytes) × (sort_key s i ≡ some a)
unfolding sort_key
sort_key-some s i col within =
    let (d, e) = get_elem?_total s.device i within in
    let (a, f) =
      get_elem?_total
        (d.name ∷ d.manufacturer ∷ d.model ∷ d.sn ∷ d.ip ∷ d.mac ∷ d.interfaces ∷ d.mark ∷ [])
        s.sort_col col in
    (a, rw (e) f)

some_value :
    (o : Option Bytes) (a : Bytes) → o ≡ some a → o ≡ some (elim o [ none ↦ [] | some b ↦ b ])
some_value none a h = cc
some_value (some b) a h = refl

-- A sort key can be read when the column and the device exist.
pub sort_key_total :
    (s : DeviceList) (i : ℕ) → s.sort_col < 8 → i < length s.device → sort_key s i ≡ some (key s i)
unfolding key
sort_key_total s i col within =
    let (a, e) = sort_key-some s i col within in some_value (sort_key s i) a e

-- The insertion as a function of the comparison.
unfoldable pub insert_by : (ℕ → ℕ → Bool) → ℕ → List ℕ → List ℕ
insert_by before i [] = i ∷ []
insert_by before i (k ∷ ks) = if before i k then i ∷ k ∷ ks else k ∷ insert_by before i ks

pub insert_index_total :
    (s : DeviceList) (i : ℕ) (ks : List ℕ)
    → s.sort_col < 8
    → i < length s.device
    → Within s ks
    → insert_index s i ks ≡ some (insert_by (is_before s) i ks)
unfolding insert_index insert_by is_before
insert_index_total s i [] col h hs = refl
insert_index_total s i (k ∷ ks) col h (hk, hs) = elim (Bool-cases (is_before s i k)) [
  | inl e ↦ rw (sort_key_total s i col h, sort_key_total s k col hk, e) refl
  | inr e ↦
      rw
        (sort_key_total s i col h, sort_key_total s k col hk, e, insert_index_total s i ks col h hs)
        refl
]

module _ (before : ℕ → ℕ → Bool) where
  pub insert_by-All :
      (P : ℕ → Type 0) (i : ℕ) (ks : List ℕ) → P i → All P ks → All P (insert_by before i ks)
  unfolding insert_by
  insert_by-All P i [] p ps = (p, tt)
  insert_by-All P i (k ∷ ks) p (pk, ps) = elim (Bool-cases (before i k)) [
    | inl e ↦ rw (e) (p, (pk, ps))
    | inr e ↦ rw (e) (pk, insert_by-All P i ks p ps)
  ]

  pub insert_by-count :
      (j i : ℕ) (ks : List ℕ) → count j (insert_by before i ks) ≡ one_if (j == i) + count j ks
  unfolding insert_by
  insert_by-count j i [] = refl
  insert_by-count j i (k ∷ ks) = elim (Bool-cases (before i k)) [
    | inl e ↦ rw (e) refl
    | inr e ↦ rw (e) (omega (arith, insert_by-count j i ks))
  ]

is_before_asym : (s : DeviceList) (i k : ℕ) → is_before s i k ≡ true → is_before s k i ≡ false
unfolding is_before
is_before_asym s i k h = precedes_asym s.sort_down (key s i) (key s k) h

is_before_trans :
    (s : DeviceList) (i k j : ℕ)
    → is_before s i k ≡ false
    → is_before s j i ≡ false
    → is_before s j k ≡ false
unfolding is_before
is_before_trans s i k j h g = precedes_trans s.sort_down (key s k) (key s i) (key s j) h g

rows_below :
    (s : DeviceList) (i k : ℕ) (ks : List ℕ)
    → is_before s k i ≡ false
    → All (λ j. is_before s j k ≡ false) ks
    → All (λ j. is_before s j i ≡ false) ks
rows_below s i k [] h hs = tt
rows_below s i k (j ∷ ks) h (hj, hs) = (is_before_trans s k i j h hj, rows_below s i k ks h hs)

pub insert_by-IsOrdered :
    (s : DeviceList) (i : ℕ) (ks : List ℕ)
    → IsOrdered s ks
    → IsOrdered s (insert_by (is_before s) i ks)
unfolding insert_by
insert_by-IsOrdered s i [] h = (tt, tt)
insert_by-IsOrdered s i (k ∷ ks) (hk, hs) = elim (Bool-cases (is_before s i k)) [
  | inl e ↦ let le = is_before_asym s i k e in rw (e) ((le, rows_below s i k ks le hk), (hk, hs))
  | inr e ↦ rw (e) (
    insert_by-All (is_before s) (λ j. is_before s j k ≡ false) i ks e hk,
    insert_by-IsOrdered s i ks hs,
  )
]
