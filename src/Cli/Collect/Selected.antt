-- ===== src/Cli/Collect/Selected.antt =====
-- What `discoverWithFilter` of tools/rcdiscover-cli/cli_utils.cc returns.
use rcdiscover.Base.{
  ◌≡◌, sym, subst, inl, inr, Bool, true, false, List, [], ◌∷◌, some, Bytes, All, Option-cases,
  if◌then◌else◌,
}
use rcdiscover.DeviceInfo.{DeviceInfo, info_lt}
use rcdiscover.Cli.Filter.{DeviceFilter, filter_device}
use rcdiscover.Cli.Collect.{sort, unique, keep_filtered, discover_with_filter}
use rcdiscover.Cli.Collect.Unique.{Below, IsStrict, unique-sort}

-- The devices pass the filter.
abbrev pub Pass : DeviceFilter → List DeviceInfo → Type 0
Pass filter = All (λ d. filter_device d filter ≡ some true)

-- One round of the loop, with what it has to show for the devices that are kept.
keep_filtered-cons :
    (filter : DeviceFilter) (x : DeviceInfo) (xs ds : List DeviceInfo)
    → keep_filtered filter (x ∷ xs) ≡ some ds
    → (rest : List DeviceInfo) × (pass : Bool) × (filter_device x filter ≡ some pass)
      × (keep_filtered filter xs ≡ some rest)
      × (ds ≡ (if pass then x ∷ rest else rest))
unfolding keep_filtered
keep_filtered-cons filter x xs ds h = elim (Option-cases (filter_device x filter)) [
  | inl e ↦ cc (rw (e, keep_filtered) at h)
  | inr (pass, e) ↦ elim (Option-cases (keep_filtered filter xs)) [
    | inl f ↦ cc (rw (e, f, keep_filtered) at h)
    | inr (rest, f) ↦ (rest, pass, e, f, cc (rw (e, f, keep_filtered) at h))
  ]
]

chosen-Below :
    (b x : DeviceInfo) (rest : List DeviceInfo) (pass : Bool)
    → info_lt b x ≡ true
    → Below b rest
    → Below b (if pass then x ∷ rest else rest)
chosen-Below b x rest true h k = (h, k)
chosen-Below b x rest false h k = k

chosen-Pass :
    (filter : DeviceFilter) (x : DeviceInfo) (rest : List DeviceInfo) (pass : Bool)
    → filter_device x filter ≡ some pass
    → Below x rest
    → Pass filter rest × IsStrict rest
    → Pass filter (if pass then x ∷ rest else rest) × IsStrict (if pass then x ∷ rest else rest)
chosen-Pass filter x rest true e below (pass, strict) = ((e, pass), (below, strict))
chosen-Pass filter x rest false e below h = h

keep_filtered-Below :
    (filter : DeviceFilter) (b : DeviceInfo) (xs ds : List DeviceInfo)
    → keep_filtered filter xs ≡ some ds
    → Below b xs
    → Below b ds
unfolding keep_filtered
keep_filtered-Below filter b [] [] h k = tt
keep_filtered-Below filter b [] (d ∷ ds) h k = cc
keep_filtered-Below filter b (x ∷ xs) ds h (k, ks) =
    let (rest, pass, e, f, g) = keep_filtered-cons filter x xs ds h in
    subst (Below b) (sym g)
      (chosen-Below b x rest pass k (keep_filtered-Below filter b xs rest f ks))

keep_filtered-Pass :
    (filter : DeviceFilter) (xs ds : List DeviceInfo)
    → keep_filtered filter xs ≡ some ds
    → IsStrict xs
    → Pass filter ds × IsStrict ds
unfolding keep_filtered
keep_filtered-Pass filter [] [] h k = (tt, tt)
keep_filtered-Pass filter [] (d ∷ ds) h k = cc
keep_filtered-Pass filter (x ∷ xs) ds h (k, ks) =
    let (rest, pass, e, f, g) = keep_filtered-cons filter x xs ds h in
    subst (λ l. Pass filter l × IsStrict l) (sym g)
      (chosen-Pass filter x rest pass e (keep_filtered-Below filter x xs rest f k)
        (keep_filtered-Pass filter xs rest f ks))

-- Every device that `discoverWithFilter` returns passes the filter, and no pair of MAC address and
-- interface name stands twice among them.
pub discover_with_filter-Pass :
    (responses : List Bytes → List DeviceInfo) (filter : DeviceFilter) (ds : List DeviceInfo)
    → discover_with_filter responses filter ≡ some ds
    → Pass filter ds × IsStrict ds
unfolding discover_with_filter
discover_with_filter-Pass responses filter ds h =
    let (strict, keys) = unique-sort (responses filter.iface) in
    keep_filtered-Pass filter (unique (sort (responses filter.iface))) ds h strict
