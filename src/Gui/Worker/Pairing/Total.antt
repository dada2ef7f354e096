-- ===== src/Gui/Worker/Pairing/Total.antt =====
-- The search for pairs of cameras by their names never calls a pointer that was reset.
use rcdiscover.Base.{
  ℕ, zero, suc, ◌≡◌, ◌≢◌, refl, sym, ◌∙◌, ap, true, false, Bool-cases, Option-cases, and_true, not,
  ◌&&◌, ◌⊎◌, inl, inr, List, Option, none, some, Bytes, length, text_eq, text_eq_refl, if-elim,
  arith,
}
use rcdiscover.Gui.DeviceList.{◌>>=◌}
use rcdiscover.Gui.Worker.{Camera, Checks, Search, camera_at, reset_pair}
use rcdiscover.Gui.Worker.Pairing.{
  name_of, is_left, is_partner, has_namesake, add_row, add_status, add_pair, try_pair, match_with,
  match_all, pair_all,
}
use rcdiscover.Gui.Worker.Pointers.{
  Advance, Advance-refl, Advance-trans, Advance-same, add_row-Advance, reset_pair-IsPart,
  reset_pair-left,
}
use rcdiscover.Gui.Worker.Pairing.Names.{
  no_partner_left, partner_unique, partner-other, has_namesake-names,
}

-- No pointer that is left has a name that belongs to the left name.
abbrev pub NoPartner : Bytes → List (Option Camera) → Type 0
NoPartner lname all = (j : ℕ) → is_partner lname (name_of (camera_at all j)) ≡ false

reset_pair-NoPartner :
    (i k : ℕ) (lname rname : Bytes) (all : List (Option Camera))
    → is_partner lname rname ≡ true
    → has_namesake i k lname rname 0 all ≡ false
    → NoPartner lname (reset_pair all i k)
unfolding name_of
reset_pair-NoPartner i k lname rname all p h j =
    elim (Option-cases (camera_at (reset_pair all i k) j)) [
      | inl e ↦ ap (λ o. is_partner lname (name_of o)) e ∙ no_partner_left lname
      | inr (c, e) ↦ elim (Bool-cases (is_partner lname (name_of (some c)))) [
        | inl t ↦
            let (n₁, n₂) = reset_pair-left all i k j c e in
            let other =
              has_namesake-names i k lname rname 0 all h j c (reset_pair-IsPart all i k j c e)
                (λ x. n₁ (omega (arith, x))) (λ x. n₂ (omega (arith, x))) in
            cc (
              other,
              ap (text_eq (name_of (some c))) (partner_unique lname (name_of (some c)) rname t p),
              text_eq_refl (name_of (some c)),
            )
        | inr f ↦ ap (λ o. is_partner lname (name_of o)) e ∙ f
      ]
    ]

-- In the loop over `k`: the left camera is still there, or no partner is.
abbrev Ready : ℕ → Bytes → Search → Type 0
Ready i lname s = (name_of (camera_at s.all i) ≡ lname) ⊎ NoPartner lname s.all

abbrev Paired : ℕ → Bytes → Search → Option Search → Type 0
Paired i lname s o = (s' : Search) × (o ≡ some s') × Advance s s' × Ready i lname s'

module _ (i k : ℕ) (lname : Bytes) (left right : Camera) (s : Search) (l : is_left lname ≡ true)
    (p : is_partner lname (name_of (some right)) ≡ true) (n : name_of (some left) ≡ lname)
    (hi : camera_at s.all i ≡ some left) (hk : camera_at s.all k ≡ some right) where
  abbrev Fits : Search → Type 0
  Fits s' = Advance s s' × Ready i lname s'

  start_name : name_of (camera_at s.all i) ≡ lname
  start_name = ap name_of hi ∙ n

  -- Nothing changes but the buffer or the flags.
  kept-Fits : (s' : Search) → s'.all ≡ s.all → s'.rows ≡ s.rows → Fits s'
  kept-Fits s' e r = (Advance-same s s' e r, inl (ap (λ a. name_of (camera_at a i)) e ∙ start_name))

  add_row-Fits :
      (calib license : Bytes)
      → has_namesake i k lname (name_of (some right)) 0 s.all ≡ false
      → Fits (add_row i k lname left right calib license s)
  unfolding add_row
  add_row-Fits calib license f =
      let other : i ≢ k = λ e.
        partner-other lname (name_of (some right)) l p
          (sym start_name ∙ ap name_of (ap (camera_at s.all) e ∙ hk)) in
      (
        add_row-Advance s (add_row i k lname left right calib license s) i k left right _ other hi
            hk refl refl,
        inr (reset_pair-NoPartner i k lname (name_of (some right)) s.all p f),
      )

  add_status-Fits :
      (calib license : Option Bytes)
      → has_namesake i k lname (name_of (some right)) 0 s.all ≡ false
      → Fits (add_status i k lname left right calib license s)
  unfolding add_status
  add_status-Fits none license f = kept-Fits _ refl refl
  add_status-Fits (some calib) none f = kept-Fits _ refl refl
  add_status-Fits (some calib) (some license) f = add_row-Fits calib license f

  try_pair-Fits : (checks : Checks) → Fits (try_pair checks i k lname left right s)
  unfolding try_pair add_pair
  try_pair-Fits checks =
      if-elim Fits (text_eq left.model right.model) _ _
        (λ _.
          if-elim Fits (has_namesake i k lname (name_of (some right)) 0 s.all) _ _
            (λ _. kept-Fits _ refl refl)
            (λ f.
              add_status-Fits (checks.calibration_status left) (checks.license_status left right)
                f))
        (λ _. kept-Fits _ refl refl)

match_with-live :
    (checks : Checks) (i k : ℕ) (lname : Bytes) (s : Search)
    → is_left lname ≡ true
    → is_partner lname (name_of (camera_at s.all k)) ≡ true
    → name_of (camera_at s.all i) ≡ lname
    → Paired i lname s (do
      left ← camera_at s.all i
      right ← camera_at s.all k
      some (try_pair checks i k lname left right s))
unfolding name_of is_left
match_with-live checks i k lname s l p n = elim (Option-cases (camera_at s.all i)) [
  | inl e ↦ cc (ap is_left (sym n ∙ ap name_of e), l)
  | inr (left, hi) ↦ elim (Option-cases (camera_at s.all k)) [
    | inl e ↦ cc (ap (λ o. is_partner lname (name_of o)) e, no_partner_left lname, p)
    | inr (right, hk) ↦
        let (a, r) =
          try_pair-Fits i k lname left right s l
            (sym (ap (λ o. is_partner lname (name_of o)) hk) ∙ p) (sym (ap name_of hi) ∙ n) hi hk
            checks in
        (try_pair checks i k lname left right s, rw (hi, hk) refl, a, r)
  ]
]

match_with-Paired :
    (checks : Checks) (i k : ℕ) (lname : Bytes) (s : Search)
    → is_left lname ≡ true
    → Ready i lname s
    → Paired i lname s (match_with checks i lname k s)
unfolding match_with
match_with-Paired checks i k lname s l ready =
    if-elim (Paired i lname s) (not s.failed && is_partner lname (name_of (camera_at s.all k))) _ _
      (λ b. elim ready [
        | inr gone ↦
            cc (
              gone k,
              (and_true (not s.failed) (is_partner lname (name_of (camera_at s.all k))) b).1,
            )
        | inl n ↦
            match_with-live checks i k lname s l
              (and_true (not s.failed) (is_partner lname (name_of (camera_at s.all k))) b).1 n
      ])
      (λ _. (s, refl, Advance-refl s, ready))

match_all-Paired :
    (checks : Checks) (i : ℕ) (lname : Bytes) (k n : ℕ) (s : Search)
    → is_left lname ≡ true
    → Ready i lname s
    → (s' : Search) × (match_all checks i lname k n s ≡ some s') × Advance s s'
unfolding match_all
match_all-Paired checks i lname k zero s l ready = (s, refl, Advance-refl s)
match_all-Paired checks i lname k (suc n) s l ready =
    let (s₁, e₁, a₁, r₁) = match_with-Paired checks i k lname s l ready in
    let (s₂, e₂, a₂) = match_all-Paired checks i lname (suc k) n s₁ l r₁ in
    (s₂, rw (e₁) e₂, Advance-trans s s₁ s₂ a₁ a₂)

-- The search for pairs by names never calls a pointer that was reset, whatever the names and the
-- models of the cameras are, and each row that it adds took two cameras from the list.
pub pair_all-total :
    (checks : Checks) (i n : ℕ) (s : Search)
    → (s' : Search) × (pair_all checks i n s ≡ some s') × Advance s s'
unfolding pair_all
pair_all-total checks i zero s = (s, refl, Advance-refl s)
pair_all-total checks i (suc n) s =
    let P : Option Search → Type 0 = λ o. (s' : Search) × (o ≡ some s') × Advance s s' in
    let lname = name_of (camera_at s.all i) in
    let (s₁, e₁, a₁) =
      if-elim P (is_left lname) (match_all checks i lname 0 (length s.all) s) (some s)
        (λ l. match_all-Paired checks i lname 0 (length s.all) s l (inl refl))
        (λ _. (s, refl, Advance-refl s)) in
    let (s₂, e₂, a₂) = pair_all-total checks (suc i) n s₁ in
    (s₂, rw (e₁) e₂, Advance-trans s s₁ s₂ a₁ a₂)
