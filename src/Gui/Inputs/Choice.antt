-- ===== src/Gui/Inputs/Choice.antt =====
-- What the device menu of tools/rcdiscover-gui/device_choice.cc gives back.
use rcdiscover.Base.{
  or_false, ℕ, suc, ◌+◌, ◌≡◌, refl, sym, ◌∙◌, ap, true, false, Bool-cases, Option-cases, subst, ap₂,
  ◌⊎◌, inl, inr, List, [], ◌∷◌, ◌++◌, Bytes, Option, none, some, codes, get_elem?, text_eq, All,
  arith, if◌then◌else◌,
}
use rcdiscover.Gui.DeviceList.{is_prefix, has_infix}
use rcdiscover.Gui.Inputs.{
  behind_dash, choice_mac, choice_ip, select, device_labels, device_ips, update_choice,
  text_or_empty, mac_of_label,
}

-- No " - " stands in the name, or begins in it.
abbrev pub IsPlain : Bytes → Type 0
IsPlain name = has_infix (codes " - ") (name ++ codes " -") ≡ false

prefix_of_name :
    (c : ℕ) (name mac : Bytes)
    → is_prefix (codes " - ") (c ∷ name ++ codes " - " ++ mac)
      ≡ is_prefix (codes " - ") (c ∷ name ++ codes " -")
prefix_of_name c [] mac = refl
prefix_of_name c (d ∷ []) mac = refl
prefix_of_name c (d ∷ e ∷ name) mac = refl

-- The MAC address is the text behind the name.
behind_dash-label :
    (name mac : Bytes) → IsPlain name → behind_dash (name ++ codes " - " ++ mac) ≡ some mac
unfolding behind_dash
behind_dash-label [] mac h = refl
behind_dash-label (c ∷ name) mac h =
    let (a, b) =
      or_false (is_prefix (codes " - ") (c ∷ (name ++ codes " -")))
        (has_infix (codes " - ") (name ++ codes " -")) h in
    rw (behind_dash, prefix_of_name c name mac, a) (behind_dash-label name mac b)

-- The last device of the list with the MAC address.
abbrev pub last_with_mac : Bytes → List (Bytes × Bytes × Bytes) → Option (Bytes × Bytes × Bytes)
last_with_mac sel [] = none
last_with_mac sel (d ∷ list) = elim (last_with_mac sel list) [
  | some e ↦ some e
  | none ↦ if text_eq d.1 sel then some d else none
]

abbrev pub label_of : Bytes × Bytes × Bytes → Bytes
label_of (name, mac, ip) = name ++ codes " - " ++ mac

abbrev pub AllPlain : List (Bytes × Bytes × Bytes) → Type 0
AllPlain = All (λ d. IsPlain d.0)

-- What `select` has found: the device number `k` of the list, counted from `i`.
record Found (sel : Bytes) (i k : ℕ) (list : List (Bytes × Bytes × Bytes))
    (d : Bytes × Bytes × Bytes) : Type 0 where
  found : last_with_mac sel list ≡ some d
  label : get_elem? (device_labels list) k ≡ some (label_of d)
  ip : get_elem? (device_ips list) k ≡ some d.2
  plain : IsPlain d.0

abbrev SelectCases : Bytes → ℕ → ℕ → List (Bytes × Bytes × Bytes) → Type 0
SelectCases sel i s list =
    ((last_with_mac sel list ≡ none) × (select sel i s list ≡ s))
    ⊎ ((k : ℕ) × (d : Bytes × Bytes × Bytes) × Found sel i k list d
        × (select sel i s list ≡ i + suc k))

select-cases :
    (sel : Bytes) (i s : ℕ) (list : List (Bytes × Bytes × Bytes))
    → AllPlain list
    → SelectCases sel i s list
unfolding select
select-cases sel i s [] h = inl (refl, refl)
select-cases sel i s (d ∷ list) (p, ps) = elim (Bool-cases (text_eq d.1 sel)) [
  | inl e ↦ elim (select-cases sel (suc i) (suc i) list ps) [
    | inl (none_there, same) ↦ inr (
      0,
      d,
      record { found = rw (none_there, e) refl; label = refl; ip = refl; plain = p },
      rw (select, e, same) (omega arith),
    )
    | inr (k, f, found, at_k) ↦ inr (
      suc k,
      f,
      record {
        found = rw (found.found) refl;
        label = found.label;
        ip = found.ip;
        plain = found.plain;
      },
      rw (select, e, at_k) (omega arith),
    )
  ]
  | inr e ↦ elim (select-cases sel (suc i) s list ps) [
    | inl (none_there, same) ↦ inl (rw (none_there, e) refl, rw (select, e, same) refl)
    | inr (k, f, found, at_k) ↦ inr (
      suc k,
      f,
      record {
        found = rw (found.found) refl;
        label = found.label;
        ip = found.ip;
        plain = found.plain;
      },
      rw (select, e, at_k) (omega arith),
    )
  ]
]

abbrev pub mac_or_empty : Option (Bytes × Bytes × Bytes) → Bytes
mac_or_empty none = []
mac_or_empty (some d) = d.1

abbrev pub ip_or_empty : Option (Bytes × Bytes × Bytes) → Bytes
ip_or_empty none = []
ip_or_empty (some d) = d.2

-- In a menu that `update` filled for devices whose names hold no " - " and do not end in " -", the
-- choice is the last device with the selected MAC address: `getMAC` returns its MAC address and
-- `getIP` its IP address, and both return the empty text if no device has that MAC address.
pub update_choice-choice :
    (list : List (Bytes × Bytes × Bytes)) (sel : Bytes)
    → AllPlain list
    → (choice_mac (update_choice list sel) ≡ mac_or_empty (last_with_mac sel list))
      × (choice_ip (update_choice list sel) ≡ ip_or_empty (last_with_mac sel list))
unfolding choice_mac choice_ip update_choice
update_choice-choice list sel h = elim (select-cases sel 0 0 list h) [
  | inl (none_there, same) ↦
      (rw (choice_mac, same, none_there) refl, rw (choice_ip, same, none_there) refl)
  | inr (k, d, found, at_k) ↦
      let chosen : select sel 0 0 list ≡ suc k = omega (arith, at_k) in
      (
        ap (λ j. mac_of_label (get_elem? (codes "<CUSTOM>" ∷ device_labels list) j)) chosen
            ∙ ap mac_of_label found.label
            ∙ ap text_or_empty (behind_dash-label d.0 d.1 found.plain)
            ∙ ap mac_or_empty (sym found.found),
        ap (λ j. text_or_empty (get_elem? ([] ∷ device_ips list) j)) chosen
            ∙ ap text_or_empty found.ip
            ∙ ap ip_or_empty (sym found.found),
      )
]

pub text_eq-eq : (s t : Bytes) → text_eq s t ≡ true → s ≡ t
unfolding text_eq
text_eq-eq [] [] h = refl
text_eq-eq [] (b ∷ t) h = cc
text_eq-eq (a ∷ s) [] h = cc
text_eq-eq (a ∷ s) (b ∷ t) h = ap₂ (λ c r. c ∷ r) (ground arith) (text_eq-eq s t (ground arith))

pub last_with_mac-mac :
    (sel : Bytes) (list : List (Bytes × Bytes × Bytes)) (d : Bytes × Bytes × Bytes)
    → last_with_mac sel list ≡ some d
    → d.1 ≡ sel
last_with_mac-mac sel [] d h = cc
last_with_mac-mac sel (x ∷ list) d h = elim (Option-cases (last_with_mac sel list)) [
  | inr (e, f) ↦ last_with_mac-mac sel list d (f ∙ (rw (f) at h))
  | inl f ↦ elim (Bool-cases (text_eq x.1 sel)) [
    | inl t ↦ subst (λ o. mac_or_empty o ≡ sel) (rw (f, t) at h) (text_eq-eq x.1 sel t)
    | inr t ↦ cc (rw (f, t) at h)
  ]
]
