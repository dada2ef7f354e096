-- ===== src/Gui/Worker/Pointers.antt =====
-- The list of pointers of `discoverWorker`, of which the code resets two at a time.
use rcdiscover.Base.{
  ℕ, zero, suc, ◌+◌, ◌*◌, ◌≡◌, ◌≢◌, refl, sym, ◌∙◌, ap, List, [], ◌∷◌, ◌++◌, Option, none, some,
  length, set, length-append, arith,
}
use rcdiscover.Gui.Worker.{Camera, Row, Search, camera_at, left_over, reset_pair}

-- Every pointer of the first list stands in the second one at the same place, or was reset.
abbrev pub IsPart : List (Option Camera) → List (Option Camera) → Type 0
IsPart xs ys = (j : ℕ) (c : Camera) → camera_at xs j ≡ some c → camera_at ys j ≡ some c

pub set-none-IsPart : (xs : List (Option Camera)) (i : ℕ) → IsPart (set xs i none) xs
set-none-IsPart [] i j c h = h
set-none-IsPart (x ∷ xs) zero zero c h = cc
set-none-IsPart (x ∷ xs) zero (suc j) c h = h
set-none-IsPart (x ∷ xs) (suc i) zero c h = h
set-none-IsPart (x ∷ xs) (suc i) (suc j) c h = set-none-IsPart xs i j c h

pub camera_at-set-none : (xs : List (Option Camera)) (i : ℕ) → camera_at (set xs i none) i ≡ none
camera_at-set-none [] i = refl
camera_at-set-none (x ∷ xs) zero = refl
camera_at-set-none (x ∷ xs) (suc i) = camera_at-set-none xs i

pub camera_at-set_other :
    (xs : List (Option Camera)) (i j : ℕ) → i ≢ j → camera_at (set xs i none) j ≡ camera_at xs j
camera_at-set_other [] i j d = refl
camera_at-set_other (x ∷ xs) zero zero d = absurd (d refl)
camera_at-set_other (x ∷ xs) zero (suc j) d = refl
camera_at-set_other (x ∷ xs) (suc i) zero d = refl
camera_at-set_other (x ∷ xs) (suc i) (suc j) d = camera_at-set_other xs i j (λ e. d (ap suc e))

left_over-set-none :
    (xs : List (Option Camera)) (i : ℕ) (c : Camera)
    → camera_at xs i ≡ some c
    → suc (left_over (set xs i none)) ≡ left_over xs
left_over-set-none [] i c h = cc
left_over-set-none (x ∷ xs) zero c h = rw (h) (omega arith)
left_over-set-none (x ∷ xs) (suc i) c h = omega (arith, left_over-set-none xs i c h)

pub left_over-reset_pair :
    (xs : List (Option Camera)) (i k : ℕ) (c d : Camera)
    → i ≢ k
    → camera_at xs i ≡ some c
    → camera_at xs k ≡ some d
    → suc (suc (left_over (reset_pair xs i k))) ≡ left_over xs
left_over-reset_pair xs i k c d n h₁ h₂ = omega (
  arith,
  left_over-set-none xs i c h₁,
  left_over-set-none (set xs i none) k d (camera_at-set_other xs i k n ∙ h₂),
)

pub reset_pair-IsPart : (xs : List (Option Camera)) (i k : ℕ) → IsPart (reset_pair xs i k) xs
reset_pair-IsPart xs i k j c h = set-none-IsPart xs i j c (set-none-IsPart (set xs i none) k j c h)

-- What is left after a reset does not stand at one of the two places.
pub reset_pair-left :
    (xs : List (Option Camera)) (i k j : ℕ) (c : Camera)
    → camera_at (reset_pair xs i k) j ≡ some c
    → (j ≢ i) × (j ≢ k)
reset_pair-left xs i k j c h = (
  λ e. cc (
    camera_at-set-none xs i,
    set-none-IsPart (set xs i none) k j c h,
    ap (camera_at (set xs i none)) e,
  ),
  λ e. cc (camera_at-set-none (set xs i none) k, h, e),
)

-- From one state of the search to a later one: no pointer comes back, and each new row took two of
-- them.
pub record Advance (s s' : Search) : Type 0 where
  pub part : IsPart s'.all s.all
  pub kept : 2 * length s'.rows + left_over s'.all ≡ 2 * length s.rows + left_over s.all

pub Advance-refl : (s : Search) → Advance s s
Advance-refl s = record { part = λ j c h. h; kept = refl }

pub Advance-same : (s s' : Search) → s'.all ≡ s.all → s'.rows ≡ s.rows → Advance s s'
Advance-same s s' e r = record {
  part = λ j c h. ap (λ l. camera_at l j) (sym e) ∙ h;
  kept = omega (arith, ap left_over e, ap length r);
}

pub Advance-trans : (s t u : Search) → Advance s t → Advance t u → Advance s u
Advance-trans s t u a b = record {
  part = λ j c h. a.part j c (b.part j c h);
  kept = b.kept ∙ a.kept;
}

-- A row for two pointers that are then reset.
pub add_row-Advance :
    (s s' : Search) (i k : ℕ) (c d : Camera) (row : Row)
    → i ≢ k
    → camera_at s.all i ≡ some c
    → camera_at s.all k ≡ some d
    → s'.all ≡ reset_pair s.all i k
    → s'.rows ≡ s.rows ++ row ∷ []
    → Advance s s'
add_row-Advance s s' i k c d row n h₁ h₂ e₁ e₂ = record {
  part = λ j x h. reset_pair-IsPart s.all i k j x (ap (λ l. camera_at l j) (sym e₁) ∙ h);
  kept = omega (
    arith,
    ap length e₂,
    length-append s.rows (row ∷ []),
    ap left_over e₁,
    left_over-reset_pair s.all i k c d n h₁ h₂,
  );
}
