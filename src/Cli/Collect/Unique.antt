-- ===== src/Cli/Collect/Unique.antt =====
-- What sorting and `std::unique` make of the responses in `discoverWithFilter`
-- (tools/rcdiscover-cli/cli_utils.cc).
use rcdiscover.Base.{
  text_eq_trans, ◌≡◌, true, false, ◌⊎◌, inl, inr, List, [], ◌∷◌, All, Bool-cases, arith,
}
use rcdiscover.DeviceInfo.{DeviceInfo, info_lt}
use rcdiscover.Cli.Collect.{insert, sort, same_key, unique_after, unique}
use rcdiscover.Cli.Collect.Order.{info_lt_asym, info_le_trans, info_tri}

-- No element of the list is before `x`.
abbrev AtMost : DeviceInfo → List DeviceInfo → Type 0
AtMost x = All (λ y. info_lt y x ≡ false)

abbrev IsSorted : List DeviceInfo → Type 0
IsSorted [] = Unit
IsSorted (x ∷ xs) = AtMost x xs × IsSorted xs

-- `x` has a smaller key than every element.
abbrev pub Below : DeviceInfo → List DeviceInfo → Type 0
Below x = All (λ y. info_lt x y ≡ true)

-- Keys grow strictly, so no key stands twice.
abbrev pub IsStrict : List DeviceInfo → Type 0
IsStrict [] = Unit
IsStrict (x ∷ xs) = Below x xs × IsStrict xs

-- An element of the list has the key of `x`.
abbrev pub HasKey : DeviceInfo → List DeviceInfo → Type 0
HasKey x [] = ⊥
HasKey x (y ∷ ys) = (same_key x y ≡ true) ⊎ HasKey x ys

AtMost-trans :
    (a b : DeviceInfo) (ys : List DeviceInfo) → info_lt b a ≡ false → AtMost b ys → AtMost a ys
AtMost-trans a b [] h k = tt
AtMost-trans a b (y ∷ ys) h (ky, ks) = (info_le_trans a b y h ky, AtMost-trans a b ys h ks)

AtMost-insert :
    (a x : DeviceInfo) (ys : List DeviceInfo)
    → info_lt x a ≡ false
    → AtMost a ys
    → AtMost a (insert x ys)
unfolding insert
AtMost-insert a x [] h k = (h, tt)
AtMost-insert a x (y ∷ ys) h (ky, ks) = elim (Bool-cases (info_lt x y)) [
  | inl e ↦ rw (e) (h, (ky, ks))
  | inr e ↦ rw (e) (ky, AtMost-insert a x ys h ks)
]

insert-IsSorted : (x : DeviceInfo) (ys : List DeviceInfo) → IsSorted ys → IsSorted (insert x ys)
unfolding insert
insert-IsSorted x [] h = (tt, tt)
insert-IsSorted x (y ∷ ys) (hy, hs) = elim (Bool-cases (info_lt x y)) [
  | inl e ↦ let le = info_lt_asym x y e in rw (e) ((le, AtMost-trans x y ys le hy), (hy, hs))
  | inr e ↦ rw (e) (AtMost-insert y x ys e hy, insert-IsSorted x ys hs)
]

sort-IsSorted : (xs : List DeviceInfo) → IsSorted (sort xs)
unfolding sort
sort-IsSorted [] = tt
sort-IsSorted (x ∷ xs) = insert-IsSorted x (sort xs) (sort-IsSorted xs)

lt-distinct : (a b : DeviceInfo) → info_lt b a ≡ false → same_key a b ≡ false → info_lt a b ≡ true
lt-distinct a b h k = elim (Bool-cases (info_lt a b)) [
  | inl e ↦ e
  | inr e ↦ absurd (cc (info_tri a b e h, k))
]

lt_trans : (a b c : DeviceInfo) → info_lt a b ≡ true → info_lt c b ≡ false → info_lt a c ≡ true
lt_trans a b c h k = elim (Bool-cases (info_lt a c)) [
  | inl e ↦ e
  | inr e ↦ absurd (cc (info_le_trans b c a k e, h))
]

Below-trans :
    (a b : DeviceInfo) (ys : List DeviceInfo) → info_lt a b ≡ true → Below b ys → Below a ys
Below-trans a b [] h k = tt
Below-trans a b (y ∷ ys) h (ky, ks) =
    (lt_trans a b y h (info_lt_asym b y ky), Below-trans a b ys h ks)

unique_after-IsStrict :
    (x : DeviceInfo) (ys : List DeviceInfo)
    → AtMost x ys
    → IsSorted ys
    → Below x (unique_after x ys) × IsStrict (unique_after x ys)
unfolding unique_after
unique_after-IsStrict x [] h k = (tt, tt)
unique_after-IsStrict x (y ∷ ys) (hy, hs) (ky, ks) = elim (Bool-cases (same_key x y)) [
  | inl e ↦ rw (e, unique_after) (unique_after-IsStrict x ys hs ks)
  | inr e ↦
      let (below, strict) = unique_after-IsStrict y ys ky ks in
      let lt = lt-distinct x y hy e in
      rw (e, unique_after) ((lt, Below-trans x y (unique_after y ys) lt below), (below, strict))
]

unique-IsStrict : (xs : List DeviceInfo) → IsSorted xs → IsStrict (unique xs)
unfolding unique
unique-IsStrict [] h = tt
unique-IsStrict (x ∷ xs) (h, hs) = unique_after-IsStrict x xs h hs

same_key_trans :
    (a b c : DeviceInfo) → same_key a b ≡ true → same_key c b ≡ true → same_key a c ≡ true
unfolding same_key
same_key_trans a b c h k = ground (arith, text_eq_trans a.iface_name b.iface_name c.iface_name)

HasKey-insert :
    (a x : DeviceInfo) (ys : List DeviceInfo) → HasKey a (x ∷ ys) → HasKey a (insert x ys)
unfolding insert
HasKey-insert a x [] h = h
HasKey-insert a x (y ∷ ys) h = elim (Bool-cases (info_lt x y)) [
  | inl e ↦ rw (e) h
  | inr e ↦ rw (e) (elim h [
    | inl k ↦ inr (HasKey-insert a x ys (inl k))
    | inr (inl k) ↦ inl k
    | inr (inr k) ↦ inr (HasKey-insert a x ys (inr k))
  ])
]

HasKey-sort : (a : DeviceInfo) (xs : List DeviceInfo) → HasKey a xs → HasKey a (sort xs)
unfolding sort
HasKey-sort a [] h = h
HasKey-sort a (x ∷ xs) (inl h) = HasKey-insert a x (sort xs) (inl h)
HasKey-sort a (x ∷ xs) (inr h) = HasKey-insert a x (sort xs) (inr (HasKey-sort a xs h))

HasKey-unique_after :
    (a x : DeviceInfo) (ys : List DeviceInfo) → HasKey a (x ∷ ys) → HasKey a (x ∷ unique_after x ys)
unfolding unique_after
HasKey-unique_after a x [] h = h
HasKey-unique_after a x (y ∷ ys) h = elim (Bool-cases (same_key x y)) [
  | inl e ↦ rw (e) (elim h [
    | inl k ↦ inl k
    | inr (inl k) ↦ inl (same_key_trans a y x k e)
    | inr (inr k) ↦ HasKey-unique_after a x ys (inr k)
  ])
  | inr e ↦ rw (e) (elim h [ inl k ↦ inl k | inr k ↦ inr (HasKey-unique_after a y ys k) ])
]

HasKey-unique : (a : DeviceInfo) (xs : List DeviceInfo) → HasKey a xs → HasKey a (unique xs)
unfolding unique
HasKey-unique a [] h = h
HasKey-unique a (x ∷ xs) h = HasKey-unique_after a x xs h

-- Sorting and dropping repetitions leaves devices whose pairs of MAC address and interface name
-- grow strictly, so that none stands twice, and each response's pair is still there.
pub unique-sort :
    (xs : List DeviceInfo)
    → IsStrict (unique (sort xs)) × ((a : DeviceInfo) → HasKey a xs → HasKey a (unique (sort xs)))
unique-sort xs = (
  unique-IsStrict (sort xs) (sort-IsSorted xs),
  λ a h. HasKey-unique a (sort xs) (HasKey-sort a xs h),
)
