-- ===== src/Cli/Commands/Confirmed.antt =====
-- When the commands of rcdiscover_force_ip.cc, rcdiscover_reset.cc and rcdiscover_reconnect.cc
-- (in tools/rcdiscover-cli) touch a device.
use rcdiscover.Base.{
  ℕ, ◌≡◌, refl, sym, subst, ap, ◌∙◌, Bool, true, false, ◌⊎◌, inl, inr, List, [], ◌∷◌, ◌++◌, All,
  map, Option, none, some, Bytes, Bool-cases, Option-cases,
}
use rcdiscover.DeviceInfo.{DeviceInfo}
use rcdiscover.Cli.Filter.{DeviceFilter, empty_filter}
use rcdiscover.Cli.Collect.{discover_with_filter}
use rcdiscover.Cli.Commands.{
  Action, assign, Outcome, Parsed, proceed, leave, parse_options, has_target, agrees,
  parse_addresses, act_all, act_on, assign_one, act_each, assign_parsed, act_parsed, run_force_ip,
  run_each,
}

-- The options that were read have a filter that names a device, and the user agrees.
abbrev pub Permits : Bytes → Parsed → DeviceFilter → List Bytes → Type 0
Permits answer parsed filter rest =
    (assumed : Bool) × (parsed ≡ proceed assumed filter rest)
    × (has_target filter ≡ true)
    × (agrees assumed answer ≡ true)

-- The calls for the devices in order: all of them, none of which throws, or those up to the first one
-- that throws.
abbrev pub Calls : (Action → Bool) → (DeviceInfo → Action) → List DeviceInfo → Outcome → Type 0
Calls throws act ds o =
    (All (λ d. throws (act d) ≡ false) ds × (o.actions ≡ map act ds) × (o.thrown ≡ false))
    ⊎ ((before : List DeviceInfo) × (d : DeviceInfo) × (after : List DeviceInfo) × (ds
          ≡ before ++ d ∷ after)
        × All (λ c. throws (act c) ≡ false) before
        × (throws (act d) ≡ true)
        × (o.actions ≡ map act before ++ act d ∷ [])
        × (o.thrown ≡ true))

act_all-Calls :
    (throws : Action → Bool) (act : DeviceInfo → Action) (ds : List DeviceInfo)
    → Calls throws act ds (act_all throws act ds)
unfolding act_all
act_all-Calls throws act [] = inl (tt, refl, refl)
act_all-Calls throws act (d ∷ ds) = elim (Bool-cases (throws (act d))) [
  | inl t ↦ inr ([], d, ds, refl, tt, t, rw (act_all, t) refl, rw (act_all, t) refl)
  | inr f ↦ elim (act_all-Calls throws act ds) [
    | inl (h, a, n) ↦ inl ((f, h), rw (act_all, f) (ap (λ as'. act d ∷ as') a), rw (act_all, f) n)
    | inr (before, c, after, e, h, t, a, n) ↦ inr (
      d ∷ before,
      c,
      after,
      ap (λ l. d ∷ l) e,
      (f, h),
      t,
      rw (act_all, f) (ap (λ as'. act d ∷ as') a),
      rw (act_all, f) n,
    )
  ]
]

act_on-actions :
    (assumed : Bool) (answer : Bytes) (throws : Action → Bool) (act : DeviceInfo → Action)
    (devices : List DeviceInfo)
    → let o = act_on assumed answer throws act devices in
      (o.actions ≡ []) ⊎ ((agrees assumed answer ≡ true) × Calls throws act devices o)
unfolding act_on
act_on-actions assumed answer throws act [] = inl refl
act_on-actions assumed answer throws act (d ∷ ds) = elim (Bool-cases (agrees assumed answer)) [
  | inl e ↦ inr (e, rw (act_on, e) (act_all-Calls throws act (d ∷ ds)))
  | inr e ↦ inl (rw (e) refl)
]

-- The call for a single device is made, whether it throws or not.
act_on-single :
    (assumed : Bool) (answer : Bytes) (throws : Action → Bool) (act : DeviceInfo → Action)
    (d : DeviceInfo)
    → let o = act_on assumed answer throws act (d ∷ []) in
      (o.actions ≡ []) ⊎ ((agrees assumed answer ≡ true) × (o.actions ≡ act d ∷ []))
unfolding act_on act_all
act_on-single assumed answer throws act d = elim (Bool-cases (agrees assumed answer)) [
  | inr e ↦ inl (rw (e) refl)
  | inl e ↦ elim (Bool-cases (throws (act d))) [
    | inl t ↦ inr (e, rw (act_on, e, act_all, t) refl)
    | inr f ↦ inr (e, rw (act_on, e, act_all, f) refl)
  ]
]

-- The call that `runForceIP` makes: the single device of the filter gets the three addresses.
abbrev pub AssignsOne :
    (List Bytes → List DeviceInfo) → DeviceFilter → List Bytes → Outcome → Type 0
AssignsOne responses filter rest o =
    (d : DeviceInfo) × (a : ℕ × ℕ × ℕ) × (parse_addresses rest ≡ some a)
    × (discover_with_filter responses filter ≡ some (d ∷ []))
    × (o.actions ≡ assign d.mac a.0 a.1 a.2 ∷ [])

abbrev actions_of : Option Outcome → List Action
actions_of none = []
actions_of (some o) = o.actions

assign_one-actions :
    (found : Option (List DeviceInfo)) (assumed : Bool) (answer : Bytes) (throws : Action → Bool)
    (a : ℕ × ℕ × ℕ) (o : Outcome)
    → assign_one found assumed answer throws a ≡ some o
    → (o.actions ≡ [])
      ⊎ ((agrees assumed answer ≡ true)
          × (d : DeviceInfo) × (found ≡ some (d ∷ []))
          × (o.actions ≡ assign d.mac a.0 a.1 a.2 ∷ []))
unfolding assign_one act_on
assign_one-actions none assumed answer throws a o h = cc
assign_one-actions (some []) assumed answer throws a o h = inl (sym (ap actions_of h))
assign_one-actions (some (d ∷ [])) assumed answer throws (x, y, z) o h =
    elim (act_on-single assumed answer throws (λ d'. assign d'.mac x y z) d) [
      | inl e ↦ inl (sym (ap actions_of h) ∙ e)
      | inr (k, e) ↦ inr (k, d, refl, sym (ap actions_of h) ∙ e)
    ]
assign_one-actions (some (d ∷ e ∷ ds)) assumed answer throws a o h = inl (sym (ap actions_of h))

outcome_injective : {o p : Outcome} → some o ≡ some p → o ≡ p
outcome_injective h = cc

act_each-actions :
    (found : Option (List DeviceInfo)) (assumed : Bool) (answer : Bytes) (throws : Action → Bool)
    (act : DeviceInfo → Action) (o : Outcome)
    → act_each found assumed answer throws act ≡ some o
    → (o.actions ≡ [])
      ⊎ ((agrees assumed answer ≡ true)
          × (ds : List DeviceInfo) × (found ≡ some ds)
          × Calls throws act ds o)
unfolding act_each
act_each-actions none assumed answer throws act o h = cc
act_each-actions (some ds) assumed answer throws act o h =
    elim (act_on-actions assumed answer throws act ds) [
      | inl e ↦ inl (sym (ap actions_of h) ∙ e)
      | inr (k, e) ↦ inr (k, ds, refl, subst (Calls throws act ds) (outcome_injective h) e)
    ]

assign_parsed-actions :
    (responses : List Bytes → List DeviceInfo) (answer : Bytes) (throws : Action → Bool)
    (parsed : Parsed) (o : Outcome)
    → assign_parsed responses answer throws parsed ≡ some o
    → (o.actions ≡ [])
      ⊎ ((filter : DeviceFilter) × (rest : List Bytes) × Permits answer parsed filter rest
          × AssignsOne responses filter rest o)
unfolding assign_parsed
assign_parsed-actions responses answer throws (leave n) o h = inl (sym (ap actions_of h))
assign_parsed-actions responses answer throws (proceed assumed filter rest) o h =
    elim (Bool-cases (has_target filter)) [
      | inr f ↦ inl (sym (ap actions_of (rw (f, assign_parsed) at h)))
      | inl t ↦ elim (Option-cases (parse_addresses rest)) [
        | inl k ↦ inl (sym (ap actions_of (rw (t, k, assign_parsed) at h)))
        | inr (a, k) ↦
            elim (assign_one-actions (discover_with_filter responses filter) assumed answer throws a
              o (rw (t, k, assign_parsed) at h)) [
                | inl x ↦ inl x
                | inr (y, d, found, x) ↦
                    inr (filter, rest, (assumed, refl, t, y), (d, a, k, found, x))
              ]
      ]
    ]

act_parsed-actions :
    (responses : List Bytes → List DeviceInfo) (answer : Bytes) (throws : Action → Bool)
    (act : DeviceInfo → Action) (parsed : Parsed) (o : Outcome)
    → act_parsed responses answer throws act parsed ≡ some o
    → (o.actions ≡ [])
      ⊎ ((filter : DeviceFilter) × (rest : List Bytes) × (ds : List DeviceInfo) × Permits answer
            parsed filter rest
          × (discover_with_filter responses filter ≡ some ds)
          × Calls throws act ds o)
unfolding act_parsed
act_parsed-actions responses answer throws act (leave n) o h = inl (sym (ap actions_of h))
act_parsed-actions responses answer throws act (proceed assumed filter rest) o h =
    elim (Bool-cases (has_target filter)) [
      | inr f ↦ inl (sym (ap actions_of (rw (f, act_parsed) at h)))
      | inl t ↦
          elim (act_each-actions (discover_with_filter responses filter) assumed answer throws act o
            (rw (t, act_parsed) at h)) [
              | inl x ↦ inl x
              | inr (y, ds, found, x) ↦ inr (filter, rest, ds, (assumed, refl, t, y), found, x)
            ]
    ]

-- If `runForceIP` asks for anything, it asks for one device only: its filter names a name, a serial
-- number or a MAC address, the user agrees, `string2ip` reads the three addresses, and the device is
-- the only one that discovery returns for the filter. This holds whether the call throws or not.
pub run_force_ip_lem :
    (responses : List Bytes → List DeviceInfo) (answer : Bytes) (throws : Action → Bool)
    (argv : List Bytes) (o : Outcome)
    → run_force_ip responses answer throws argv ≡ some o
    → (o.actions ≡ [])
      ⊎ ((filter : DeviceFilter) × (rest : List Bytes) × Permits answer
            (parse_options true argv false empty_filter)
            filter
            rest
          × AssignsOne responses filter rest o)
unfolding run_force_ip
run_force_ip_lem responses answer throws argv o h =
    assign_parsed-actions responses answer throws (parse_options true argv false empty_filter) o h

-- If `runReset` or `runReconnect` asks for anything, its filter names a name, a serial number or a
-- MAC address, the user agrees, and it makes the same call for each device that discovery returns
-- for the filter, in order, until one of the calls throws.
pub run_each_lem :
    (responses : List Bytes → List DeviceInfo) (answer : Bytes) (throws : Action → Bool)
    (act : DeviceInfo → Action) (argv : List Bytes) (o : Outcome)
    → run_each responses answer throws act argv ≡ some o
    → (o.actions ≡ [])
      ⊎ ((filter : DeviceFilter) × (rest : List Bytes) × (ds : List DeviceInfo) × Permits answer
            (parse_options false argv false empty_filter)
            filter
            rest
          × (discover_with_filter responses filter ≡ some ds)
          × Calls throws act ds o)
unfolding run_each
run_each_lem responses answer throws act argv o h =
    act_parsed-actions responses answer throws act (parse_options false argv false empty_filter) o h
