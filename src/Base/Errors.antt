-- ===== src/Base/Errors.antt =====
-- The exceptions that the program throws, and the two kinds of result used by the models:
-- `Result` for code that may throw, and `Option` for code that may read out of bounds.
use mathlib.Core.Path.{◌≡◌, refl}
use mathlib.Core.Logic.{◌⊎◌, inl, inr}
use mathlib.Core.Option.{Option, none, some}

-- The exception classes that the code tells apart; the message texts are not kept.
-- `undefined_read` is no exception: it marks a read outside an array in code that may also throw.
pub data Exn : Type 0 where
  invalid_argument out_of_range runtime_error access_denied : Exn
  network_unreachable socket_exception operation_not_permitted undefined_read : Exn

pub data Result {ℓ} (A : Type ℓ) : Type ℓ where
  ok : A → Result A
  err : Exn → Result A

abbrev pub bind_result {ℓ κ} : {A : Type ℓ} {B : Type κ} → Result A → (A → Result B) → Result B
bind_result (ok a) f = f a
bind_result (err e) f = err e

abbrev pub bind_option {ℓ κ} : {A : Type ℓ} {B : Type κ} → Option A → (A → Option B) → Option B
bind_option none f = none
bind_option (some a) f = f a

-- Inversion of a bind that returned a value.
pub bind_result-eq-ok {ℓ κ} :
    {A : Type ℓ} {B : Type κ} (m : Result A) (f : A → Result B) {b : B}
    → bind_result m f ≡ ok b
    → (a : A) × (m ≡ ok a) × (f a ≡ ok b)
bind_result-eq-ok (ok a) f h = (a, refl, h)
bind_result-eq-ok (err e) f h = cc

-- What holds of the value, if the computation returns one.
abbrev pub Holds {ℓ κ} : {A : Type ℓ} → (A → Type κ) → Result A → Type κ
Holds P (ok a) = P a
Holds P (err e) = Unit

pub Holds-bind {ℓ κ μ ν} :
    {A : Type ℓ} {B : Type κ} (P : A → Type μ) (Q : B → Type ν) (m : Result A) (f : A → Result B)
    → Holds P m
    → ((a : A) → P a → Holds Q (f a))
    → Holds Q (bind_result m f)
Holds-bind P Q (ok a) f h k = k a h
Holds-bind P Q (err e) f h k = tt

pub Holds-map {ℓ κ μ} :
    {A : Type ℓ} (P : A → Type κ) (Q : A → Type μ) (m : Result A)
    → ((a : A) → P a → Q a)
    → Holds P m
    → Holds Q m
Holds-map P Q (ok a) f h = f a h
Holds-map P Q (err e) f h = tt

pub Result-cases {ℓ} :
    {A : Type ℓ} (m : Result A) → ((a : A) × (m ≡ ok a)) ⊎ ((e : Exn) × (m ≡ err e))
Result-cases (ok a) = inl (a, refl)
Result-cases (err e) = inr (e, refl)

-- `catch (const NetworkUnreachableException &) { a }`; any other exception `e` goes on as `f e`.
abbrev pub unless_unreachable {ℓ} : {A : Type ℓ} → Exn → A → (Exn → A) → A
unless_unreachable network_unreachable a f = a
unless_unreachable e a f = f e

pub unless_unreachable-elim {ℓ κ} :
    {A : Type ℓ} (P : A → Type κ) (e : Exn) (a : A) (f : Exn → A)
    → P a
    → ((e : Exn) → P (f e))
    → P (unless_unreachable e a f)
unless_unreachable-elim P network_unreachable a f h k = h
unless_unreachable-elim P e a f h k = k e
