-- ===== src/Gui/Worker/Licensed/Total.antt =====
-- The search by the license never calls a pointer that was reset.
use rcdiscover.Base.{
  and_true, ℕ, zero, suc, ◌≡◌, ◌≢◌, refl, sym, ◌∙◌, ap, Bool, true, false, not, ◌&&◌, Bool-cases,
  Option-cases, ◌⊎◌, inl, inr, List, Option, none, some, Bytes, length, text_eq, ◌==◌, ==_iff,
  if-elim, arith, is_empty, text_eq_trans,
}
use rcdiscover.Gui.DeviceList.{◌>>=◌}
use rcdiscover.Gui.Worker.{Camera, Checks, Search, camera_at, reset_pair}
use rcdiscover.Gui.Worker.Licensed.{
  add_unnamed, add_unnamed_status, add_licensed, license_by, is_serial, license_with, find_left,
  license_of, license_all,
}
use rcdiscover.Gui.Worker.Pointers.{
  Advance, Advance-refl, Advance-trans, Advance-same, add_row-Advance, reset_pair-IsPart,
  reset_pair-left,
}

-- No two pointers that are left have the same serial number.
abbrev pub IsDistinct : List (Option Camera) → Type 0
IsDistinct all =
    (i j : ℕ) (c d : Camera)
    → camera_at all i ≡ some c
    → camera_at all j ≡ some d
    → text_eq c.serial d.serial ≡ true
    → i ≡ j

pub Advance-IsDistinct : (s s' : Search) → Advance s s' → IsDistinct s.all → IsDistinct s'.all
Advance-IsDistinct s s' a h i j c d hi hj e = h i j c d (a.part i c hi) (a.part j d hj) e

abbrev NoSerial : Bytes → List (Option Camera) → Type 0
NoSerial lsn all = (j : ℕ) → is_serial lsn (camera_at all j) ≡ false

-- In the loop over `i`: the camera with the license is still there, or the serial number is not.
abbrev Ready : ℕ → Camera → Bytes → Search → Type 0
Ready k right lsn s = (camera_at s.all k ≡ some right) ⊎ NoSerial lsn s.all

abbrev Found : ℕ → Camera → Bytes → Search → Option Search → Type 0
Found k right lsn s o = (s' : Search) × (o ≡ some s') × Advance s s' × Ready k right lsn s'

reset_pair-NoSerial :
    (i k : ℕ) (lsn : Bytes) (left : Camera) (all : List (Option Camera))
    → IsDistinct all
    → camera_at all i ≡ some left
    → text_eq left.serial lsn ≡ true
    → NoSerial lsn (reset_pair all i k)
unfolding is_serial
reset_pair-NoSerial i k lsn left all distinct hi e j =
    elim (Option-cases (camera_at (reset_pair all i k) j)) [
      | inl n ↦ ap (is_serial lsn) n
      | inr (c, h) ↦ elim (Bool-cases (is_serial lsn (some c))) [
        | inr f ↦ ap (is_serial lsn) h ∙ f
        | inl t ↦ absurd (
            (reset_pair-left all i k j c h).0 (
              distinct j i c left (reset_pair-IsPart all i k j c h) hi
                (text_eq_trans c.serial lsn left.serial t e)))
      ]
    ]

add_unnamed_status-Ready :
    (i k : ℕ) (lsn : Bytes) (left right : Camera) (o : Option Bytes) (s : Search)
    → IsDistinct s.all
    → i ≢ k
    → text_eq left.serial lsn ≡ true
    → camera_at s.all i ≡ some left
    → camera_at s.all k ≡ some right
    → Advance s (add_unnamed_status i k left right o s)
      × Ready k right lsn (add_unnamed_status i k left right o s)
unfolding add_unnamed_status add_unnamed
add_unnamed_status-Ready i k lsn left right none s distinct n e hi hk =
    (Advance-same s (record s { failed = true }) refl refl, inl hk)
add_unnamed_status-Ready i k lsn left right (some calib) s distinct n e hi hk = (
  add_row-Advance s (add_unnamed i k left right calib s) i k left right _ n hi hk refl refl,
  inr (reset_pair-NoSerial i k lsn left s.all distinct hi e),
)

license_with-live :
    (checks : Checks) (i k : ℕ) (lsn : Bytes) (right : Camera) (s : Search)
    → IsDistinct s.all
    → i ≢ k
    → is_serial lsn (camera_at s.all i) ≡ true
    → camera_at s.all k ≡ some right
    → Found k right lsn s (do
      left ← camera_at s.all i
      right ← camera_at s.all k
      some (add_licensed checks i k left right s))
unfolding is_serial add_licensed
license_with-live checks i k lsn right s distinct n e hk = elim (Option-cases (camera_at s.all i)) [
  | inl h ↦ cc (ap (is_serial lsn) h, e)
  | inr (left, hi) ↦
      let (a, r) =
        add_unnamed_status-Ready i k lsn left right (checks.calibration_status left) s distinct n
          (sym (ap (is_serial lsn) hi) ∙ e) hi hk in
      (add_licensed checks i k left right s, rw (hi, hk) refl, a, r)
]

not-true : (b : Bool) → not b ≡ true → b ≡ false
not-true b h = ground arith

license_with-Found :
    (checks : Checks) (i k : ℕ) (lsn : Bytes) (right : Camera) (s : Search)
    → IsDistinct s.all
    → Ready k right lsn s
    → Found k right lsn s (license_with checks k lsn i s)
unfolding license_with
license_with-Found checks i k lsn right s distinct ready =
    if-elim (Found k right lsn s)
      (not s.failed && (not (i == k) && is_serial lsn (camera_at s.all i))) _ _
      (λ b.
        let p = (and_true (not s.failed) (not (i == k) && is_serial lsn (camera_at s.all i)) b).1 in
        let (n, e) = and_true (not (i == k)) (is_serial lsn (camera_at s.all i)) p in
        elim ready [
          | inr gone ↦ cc (gone i, e)
          | inl hk ↦
              license_with-live checks i k lsn right s distinct
                (λ x. cc ((==_iff i k).1 x, not-true (i == k) n)) e hk
        ])
      (λ _. (s, refl, Advance-refl s, ready))

abbrev Advanced : Search → Option Search → Type 0
Advanced s o = (s' : Search) × (o ≡ some s') × Advance s s'

find_left-Advanced :
    (checks : Checks) (k : ℕ) (lsn : Bytes) (right : Camera) (i n : ℕ) (s : Search)
    → IsDistinct s.all
    → Ready k right lsn s
    → Advanced s (find_left checks k lsn i n s)
unfolding find_left
find_left-Advanced checks k lsn right i zero s distinct ready = (s, refl, Advance-refl s)
find_left-Advanced checks k lsn right i (suc n) s distinct ready =
    let (s₁, e₁, a₁, r₁) = license_with-Found checks i k lsn right s distinct ready in
    let (s₂, e₂, a₂) =
      find_left-Advanced checks k lsn right (suc i) n s₁ (Advance-IsDistinct s s₁ a₁ distinct) r₁ in
    (s₂, rw (e₁) e₂, Advance-trans s s₁ s₂ a₁ a₂)

license_by-Advanced :
    (checks : Checks) (k : ℕ) (c : Camera) (o : Option Bytes) (s : Search)
    → IsDistinct s.all
    → camera_at s.all k ≡ some c
    → Advanced s (license_by checks k o s)
unfolding license_by
license_by-Advanced checks k c none s distinct e =
    (record s { failed = true }, refl, Advance-same s (record s { failed = true }) refl refl)
license_by-Advanced checks k c (some lsn) s distinct e =
    if-elim (Advanced s) (is_empty lsn) _ _ (λ _. (s, refl, Advance-refl s))
      (λ _. find_left-Advanced checks k lsn c 0 (length s.all) s distinct (inl e))

license_of-Advanced :
    (checks : Checks) (k : ℕ) (o : Option Camera) (s : Search)
    → IsDistinct s.all
    → camera_at s.all k ≡ o
    → Advanced s (license_of checks k o s)
unfolding license_of
license_of-Advanced checks k none s distinct e = (s, refl, Advance-refl s)
license_of-Advanced checks k (some c) s distinct e =
    if-elim (Advanced s) s.failed _ _ (λ _. (s, refl, Advance-refl s))
      (λ _. license_by-Advanced checks k c (checks.left_serial c) s distinct e)

-- If no two cameras have the same serial number, the search by the license never calls a pointer
-- that was reset, and each row that it adds took two cameras from the list.
pub license_all-total :
    (checks : Checks) (k n : ℕ) (s : Search)
    → IsDistinct s.all
    → (s' : Search) × (license_all checks k n s ≡ some s') × Advance s s'
unfolding license_all
license_all-total checks k zero s distinct = (s, refl, Advance-refl s)
license_all-total checks k (suc n) s distinct =
    let (s₁, e₁, a₁) = license_of-Advanced checks k (camera_at s.all k) s distinct refl in
    let (s₂, e₂, a₂) =
      license_all-total checks (suc k) n s₁ (Advance-IsDistinct s s₁ a₁ distinct) in
    (s₂, rw (e₁) e₂, Advance-trans s s₁ s₂ a₁ a₂)
