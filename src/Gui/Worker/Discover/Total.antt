-- ===== src/Gui/Worker/Discover/Total.antt =====
-- `discoverWorker` never calls a pointer that was reset, and gives each camera at most one row.
use rcdiscover.Base.{
  ◌+◌, ◌*◌, ◌≡◌, refl, suc, ◌++◌, ap, true, false, ◌⊎◌, inl, inr, List, [], ◌∷◌, map, Option, none,
  some, length, if-elim, arith,
}
use rcdiscover.Gui.DeviceList.{◌>>=◌}
use rcdiscover.Gui.Worker.{
  Camera, Checks, Search, Collected, collect, left_over, Interface, Alert, unknown_exception,
}
use rcdiscover.Gui.Worker.Pairing.Total.{pair_all-total}
use rcdiscover.Gui.Worker.Licensed.Total.{IsDistinct, Advance-IsDistinct, license_all-total}
use rcdiscover.Gui.Worker.Pointers.{Advance, Advance-trans}
use rcdiscover.Gui.Worker.Discover.{
  Outcome, erase_reset, start, search_pairs, report, discover_worker, close_all, catch_all, refuse,
  discover_guarded,
}
use rcdiscover.Gui.Worker.Discover.Distinct.{collect-Different}

length-erase_reset : (all : List (Option Camera)) → length (erase_reset all) ≡ left_over all
unfolding erase_reset
length-erase_reset [] = refl
length-erase_reset (none ∷ all) = omega (arith, length-erase_reset all)
length-erase_reset (some c ∷ all) = omega (arith, length-erase_reset all)

left_over-map : (cs : List Camera) → left_over (map some cs) ≡ length cs
left_over-map [] = refl
left_over-map (c ∷ cs) = omega (arith, left_over-map cs)

search_pairs-total :
    (checks : Checks) (devices : List Camera)
    → IsDistinct (map some devices)
    → (s : Search) × (search_pairs checks devices ≡ some s) × Advance (start devices) s
unfolding search_pairs
search_pairs-total checks devices h =
    let n = length devices in
    let (s₁, e₁, a₁) = pair_all-total checks 0 n (start devices) in
    let (s₂, e₂, a₂) =
      license_all-total checks 0 n s₁ (Advance-IsDistinct (start devices) s₁ a₁ h) in
    (s₂, rw (e₁) e₂, Advance-trans (start devices) s₁ s₂ a₁ a₂)

-- Two cameras for each row and the cameras that are left are the cameras that were collected, unless
-- two of them have the same serial number.
abbrev pub IsShared : Collected → Outcome → Type 0
IsShared found out =
    (found.multiple ≡ true) ⊎ (2 * length out.rows + length out.left ≡ length found.devices)

-- The last alert is that of `catch (...)`.
abbrev pub EndsUnknown : List Alert → Type 0
EndsUnknown alerts = (before : List Alert) × (alerts ≡ before ++ unknown_exception ∷ [])

-- All interfaces were closed, or the user is told of an exception.
abbrev pub IsClosed : List Interface → Outcome → Type 0
IsClosed ilist out = EndsUnknown out.alerts ⊎ (out.closed ≡ length ilist)

record ClosedFrom (ilist : List Interface) (out out' : Outcome) : Type 0 where
  rows : out'.rows ≡ out.rows
  left : out'.left ≡ out.left
  closed : EndsUnknown out'.alerts ⊎ (out'.closed ≡ out.closed + length ilist)

close_all-ClosedFrom :
    (ilist : List Interface) (out : Outcome) → ClosedFrom ilist out (close_all ilist out)
unfolding close_all catch_all
close_all-ClosedFrom [] out = record { rows = refl; left = refl; closed = inr (omega arith) }
close_all-ClosedFrom (face ∷ ilist) out =
    let rest = close_all-ClosedFrom ilist (record out { closed = suc out.closed }) in
    if-elim (ClosedFrom (face ∷ ilist) out) face.close_fails _ _
      (λ _. record { rows = refl; left = refl; closed = inl (out.alerts, refl) })
      (λ _. record {
        rows = rest.rows;
        left = rest.left;
        closed = elim rest.closed [ inl u ↦ inl u | inr e ↦ inr (omega (arith, e)) ];
      })

close_all-IsClosed :
    (ilist : List Interface) (out : Outcome) → out.closed ≡ 0 → IsClosed ilist (close_all ilist out)
close_all-IsClosed ilist out h = elim (close_all-ClosedFrom ilist out).closed [
  | inl u ↦ inl u
  | inr e ↦ inr (omega (arith, e, h))
]

-- What holds when the `try` block is left.
abbrev IsLeft : List Interface → Collected → Outcome → Type 0
IsLeft ilist found out = IsShared found out × IsClosed ilist out

-- Closing the interfaces keeps the rows and the cameras.
close_all-IsLeft :
    (ilist : List Interface) (found : Collected) (out : Outcome)
    → out.closed ≡ 0
    → IsShared found out
    → IsLeft ilist found (close_all ilist out)
close_all-IsLeft ilist found out h shared =
    let c = close_all-ClosedFrom ilist out in
    (
      elim shared [
        | inl t ↦ inl t
        | inr e ↦ inr (omega (arith, e, ap length c.rows, ap length c.left))
      ],
      close_all-IsClosed ilist out h,
    )

report-IsLeft :
    (ilist : List Interface) (found : Collected) (s : Search)
    → 2 * length s.rows + left_over s.all ≡ length found.devices
    → IsLeft ilist found (report ilist found s)
unfolding report catch_all
report-IsLeft ilist found s h =
    if-elim (IsLeft ilist found) s.failed _ _
      (λ _. (inr (omega (arith, length-erase_reset s.all, h)), inl (found.alerts, refl)))
      (λ _. close_all-IsLeft ilist found _ refl (inr (omega (arith, length-erase_reset s.all, h))))

abbrev Leaves : List Interface → Collected → Option Outcome → Type 0
Leaves ilist found o = (out : Outcome) × (o ≡ some out) × IsLeft ilist found out

search_pairs-report :
    (checks : Checks) (ilist : List Interface) (found : Collected)
    → IsDistinct (map some found.devices)
    → Leaves ilist found (do s ← search_pairs checks found.devices; some (report ilist found s))
search_pairs-report checks ilist found h =
    let (s, e, a) = search_pairs-total checks found.devices h in
    (
      report ilist found s,
      rw (e) refl,
      report-IsLeft ilist found s (omega (arith, a.kept, left_over-map found.devices)),
    )

no_cameras-IsDistinct : IsDistinct []
no_cameras-IsDistinct i j c d hi hj e = cc hi

discover_guarded-Leaves :
    (checks : Checks) (ilist : List Interface)
    → Leaves ilist (collect ilist [] []) (discover_guarded checks ilist)
unfolding discover_guarded refuse
discover_guarded-Leaves checks ilist =
    let found = collect ilist [] [] in
    if-elim (Leaves ilist found) found.multiple _ _
      (λ t. (_, refl, close_all-IsLeft ilist found _ refl (inl t)))
      (λ f.
        search_pairs-report checks ilist found
          (collect-Different ilist [] [] no_cameras-IsDistinct f))

-- The thread of the search for cameras ends on every list of interfaces, whichever interface throws
-- while its devices are read or while it is closed, and whether the status of a camera can be read or
-- not: it calls no pointer that was reset and sets `running` to false. Unless two of the cameras have
-- the same serial number, it collected, from the interfaces that threw as well, as many cameras as
-- two for each row of the table and those that are left. It closed all interfaces, or the last alert
-- is the one for an unknown exception.
pub discover_worker-total :
    (checks : Checks) (ilist : List Interface)
    → (out : Outcome) × (discover_worker checks ilist ≡ some out)
      × (out.running ≡ false)
      × IsShared (collect ilist [] []) out
      × IsClosed ilist out
unfolding discover_worker
discover_worker-total checks ilist =
    let (out, e, l) = discover_guarded-Leaves checks ilist in
    (record out { running = false }, rw (e) refl, refl, l.0, l.1)
