-- ===== src/Discover/Threads/Ending.antt =====
-- The destructor of `Discover` (rcdiscover/discover.cc) ends, and leaves no listener behind.
use native.Mathlib.Decide.{dec_lt}
use rcdiscover.Base.{
  ℕ, zero, suc, ◌+◌, ◌-◌, ◌*◌, ◌≤◌, ◌<◌, ◌≡◌, ◌≢◌, refl, sym, subst, ap, ◌∙◌, inl, inr, ◌⊎◌, true,
  List, [], ◌∷◌, Option, none, some, length, length-replicate, get_elem?, get_elem?_total, set, All,
  arith,
}
use rcdiscover.Discover.Threads.{
  Listener, testing, listening, finished, Owner, using, joining, destroyed, Threads,
  start_listening, Step, enter, leave, round, destroy, join, end, Steps, none_taken, one_more,
}

-- The steps that a listener has left once `stop_` is set.
abbrev left : Listener → ℕ
left testing = 1
left listening = 2
left finished = 0

abbrev all_left : List Listener → ℕ
all_left [] = 0
all_left (l ∷ ls) = left l + all_left ls

abbrev owner_left : ℕ → Owner → ℕ
owner_left n using = n + 2
owner_left n (joining k) = suc (n - k)
owner_left n destroyed = 0

-- The steps that are left until the destructor's body is done and all listeners have ended.
abbrev pub steps_left : Threads → ℕ
steps_left s = all_left s.listeners + owner_left (length s.listeners) s.owner

length-set : {A : Type 0} (xs : List A) (i : ℕ) (a : A) → length (set xs i a) ≡ length xs
length-set [] i a = refl
length-set (x ∷ xs) zero a = refl
length-set (x ∷ xs) (suc i) a = ap suc (length-set xs i a)

abbrev left_of : Option Listener → ℕ
left_of none = 0
left_of (some l) = left l

same_left : {l old : Listener} → some l ≡ some old → left l ≡ left old
same_left h = ap left_of h

all_left-set :
    (ls : List Listener) (i : ℕ) (old new : Listener)
    → get_elem? ls i ≡ some old
    → all_left (set ls i new) + left old ≡ all_left ls + left new
all_left-set [] i old new h = cc
all_left-set (l ∷ ls) zero old new h = omega (arith, same_left h)
all_left-set (l ∷ ls) (suc i) old new h = omega (arith, all_left-set ls i old new h)

get_elem?-within :
    {A : Type 0} (xs : List A) (i : ℕ) (a : A) → get_elem? xs i ≡ some a → i < length xs
get_elem?-within [] i a h = cc
get_elem?-within (x ∷ xs) zero a h = omega arith
get_elem?-within (x ∷ xs) (suc i) a h = omega (arith, get_elem?-within xs i a h)

-- The first `k` listeners have ended.
abbrev Ended : ℕ → List Listener → Type 0
Ended zero ls = Unit
Ended (suc k) [] = Unit
Ended (suc k) (l ∷ ls) = (l ≡ finished) × Ended k ls

Ended-set :
    (k : ℕ) (ls : List Listener) (i : ℕ) (old new : Listener)
    → get_elem? ls i ≡ some old
    → left old ≢ 0
    → Ended k ls
    → Ended k (set ls i new)
Ended-set zero ls i old new h ne e = tt
Ended-set (suc k) [] i old new h ne e = tt
Ended-set (suc k) (l ∷ ls) zero old new h ne (e, es) = absurd (ne (sym (same_left h) ∙ ap left e))
Ended-set (suc k) (l ∷ ls) (suc i) old new h ne (e, es) = (e, Ended-set k ls i old new h ne es)

Ended-suc :
    (k : ℕ) (ls : List Listener) → get_elem? ls k ≡ some finished → Ended k ls → Ended (suc k) ls
Ended-suc k [] h e = tt
Ended-suc zero (l ∷ ls) h e = (cc, tt)
Ended-suc (suc k) (l ∷ ls) h (e, es) = (e, Ended-suc k ls h es)

-- How many threads the owner has joined.
abbrev joined : ℕ → Owner → ℕ
joined n using = 0
joined n (joining k) = k
joined n destroyed = n

record Agrees (m : ℕ) (s : Threads) : Type 0 where
  sized : length s.listeners ≡ m
  counted : joined m s.owner ≤ m
  ended : Ended (joined m s.owner) s.listeners
  stopped : s.owner ≢ using → s.stop ≡ true

-- A step of a listener that has not ended.
moved :
    (m : ℕ) (s : Threads) (i : ℕ) (old new : Listener)
    → get_elem? s.listeners i ≡ some old
    → left old ≢ 0
    → Agrees m s
    → Agrees m (record s { listeners = set s.listeners i new })
moved m s i old new h ne a = record {
  sized = length-set s.listeners i new ∙ a.sized;
  counted = a.counted;
  ended = Ended-set (joined m s.owner) s.listeners i old new h ne a.ended;
  stopped = a.stopped;
}

Step-Agrees : (m : ℕ) {s t : Threads} → Step s t → Agrees m s → Agrees m t
Step-Agrees m {s} (enter i h e) a = moved m s i testing listening h (omega arith) a
Step-Agrees m {s} (leave i h e) a = moved m s i testing finished h (omega arith) a
Step-Agrees m {s} (round i h) a = moved m s i listening testing h (omega arith) a
Step-Agrees m {s} (destroy e) a = record {
  sized = a.sized;
  counted = omega arith;
  ended = tt;
  stopped = λ _. refl;
}
Step-Agrees m {s} (join n e h) a = record {
  sized = a.sized;
  counted = omega (arith, a.sized, get_elem?-within s.listeners n finished h);
  ended = Ended-suc n s.listeners h (subst (λ o. Ended (joined m o) s.listeners) e a.ended);
  stopped = λ _. a.stopped (λ u. cc (u, e));
}
Step-Agrees m {s} (end e) a = record {
  sized = a.sized;
  counted = omega arith;
  ended =
      subst (λ k. Ended k s.listeners) a.sized
        (subst (λ o. Ended (joined m o) s.listeners) e a.ended);
  stopped = λ _. a.stopped (λ u. cc (u, e));
}

Step-stop : {s t : Threads} → Step s t → s.stop ≡ true → t.stop ≡ true
Step-stop (enter i h e) k = k
Step-stop (leave i h e) k = k
Step-stop (round i h) k = k
Step-stop (destroy e) k = refl
Step-stop (join n e h) k = k
Step-stop (end e) k = k

steps_left-set :
    (s : Threads) (i : ℕ) (old new : Listener)
    → get_elem? s.listeners i ≡ some old
    → steps_left (record s { listeners = set s.listeners i new }) + left old
      ≡ steps_left s + left new
steps_left-set s i old new h = omega (
  arith,
  all_left-set s.listeners i old new h,
  ap (λ n. owner_left n s.owner) (length-set s.listeners i new),
)

-- Every step after `stop_` was set leaves fewer to take.
Step-fewer :
    (m : ℕ) {s t : Threads} → Step s t → Agrees m s → s.stop ≡ true → steps_left t < steps_left s
Step-fewer m {s} (enter i h e) a k = cc
Step-fewer m {s} (leave i h e) a k = omega (arith, steps_left-set s i testing finished h)
Step-fewer m {s} (round i h) a k = omega (arith, steps_left-set s i listening testing h)
Step-fewer m {s} (destroy e) a k = omega (arith, ap (owner_left (length s.listeners)) e)
Step-fewer m {s} (join n e h) a k =
    omega (arith, ap (owner_left (length s.listeners)) e, get_elem?-within s.listeners n finished h)
Step-fewer m {s} (end e) a k = omega (arith, ap (owner_left (length s.listeners)) e)

Steps-Agrees : (m : ℕ) {s : Threads} {n : ℕ} {t : Threads} → Steps s n t → Agrees m s → Agrees m t
Steps-Agrees m none_taken a = a
Steps-Agrees m (one_more r st) a = Step-Agrees m st (Steps-Agrees m r a)

Steps-stop : {s : Threads} {n : ℕ} {t : Threads} → Steps s n t → s.stop ≡ true → t.stop ≡ true
Steps-stop none_taken k = k
Steps-stop (one_more r st) k = Step-stop st (Steps-stop r k)

Steps-fewer :
    (m : ℕ) {s : Threads} {n : ℕ} {t : Threads}
    → Steps s n t
    → Agrees m s
    → s.stop ≡ true
    → n + steps_left t ≤ steps_left s
Steps-fewer m none_taken a k = omega arith
Steps-fewer m (one_more r st) a k =
    omega (arith, Steps-fewer m r a k, Step-fewer m st (Steps-Agrees m r a) (Steps-stop r k))

all_left-bound : (ls : List Listener) → all_left ls ≤ 2 * length ls
all_left-bound [] = omega arith
all_left-bound (testing ∷ ls) = omega (arith, all_left-bound ls)
all_left-bound (listening ∷ ls) = omega (arith, all_left-bound ls)
all_left-bound (finished ∷ ls) = omega (arith, all_left-bound ls)

owner_left-bound : (n : ℕ) (o : Owner) → o ≢ using → owner_left n o ≤ suc n
owner_left-bound n using h = absurd (h refl)
owner_left-bound n (joining k) h = omega arith
owner_left-bound n destroyed h = omega arith

replicate_Agrees : (m : ℕ) → Agrees m (start_listening m)
unfolding start_listening
replicate_Agrees m = record {
  sized = length-replicate m testing;
  counted = omega arith;
  ended = tt;
  stopped = λ h. absurd (h refl);
}

Ended-All : (ls : List Listener) → Ended (length ls) ls → All (λ l. l ≡ finished) ls
Ended-All [] h = tt
Ended-All (l ∷ ls) (h, hs) = (h, Ended-All ls hs)

-- The owner waits for a listener that can go on, or goes on itself.
next_step :
    (m : ℕ) (s : Threads) (n : ℕ) → s.owner ≡ joining n → Agrees m s → (t : Threads) × Step s t
next_step m s n e a = elim (dec_lt n (length s.listeners)) [
  | yes h ↦
      let (l, f) = get_elem?_total s.listeners n h in
      let stop = a.stopped (λ u. cc (u, e)) in waits l f stop
  | no h ↦ (_, end (e ∙ ap joining (omega (arith, a.sized, a.counted, ap (joined m) e))))
]
  where
    waits :
        (l : Listener) → get_elem? s.listeners n ≡ some l → s.stop ≡ true → (t : Threads) × Step s t
    waits testing f k = (_, leave n f k)
    waits listening f k = (_, round n f)
    waits finished f k = (_, join n e f)

-- What the destructor has reached: its end, with every listener ended, or a state that goes on.
abbrev pub EndsOrGoesOn : Threads → Type 0
EndsOrGoesOn t =
    ((t.owner ≡ destroyed) × All (λ l. l ≡ finished) t.listeners) ⊎ ((u : Threads) × Step t u)

ends_or_goes_on :
    (m : ℕ) (s : Threads) (o : Owner) → s.owner ≡ o → o ≢ using → Agrees m s → EndsOrGoesOn s
ends_or_goes_on m s using e h a = absurd (h refl)
ends_or_goes_on m s (joining n) e h a = inr (next_step m s n e a)
ends_or_goes_on m s destroyed e h a = inl (
  e,
  Ended-All s.listeners (
      subst (λ k. Ended k s.listeners) (sym a.sized)
        (subst (λ o. Ended (joined m o) s.listeners) e a.ended)),
)

Step-owner : {s t : Threads} → Step s t → s.owner ≢ using → t.owner ≢ using
Step-owner (enter i h e) k = k
Step-owner (leave i h e) k = k
Step-owner (round i h) k = k
Step-owner (destroy e) k = λ u. cc
Step-owner (join n e h) k = λ u. cc
Step-owner (end e) k = λ u. cc

Steps-owner : {s : Threads} {n : ℕ} {t : Threads} → Steps s n t → s.owner ≢ using → t.owner ≢ using
Steps-owner none_taken k = k
Steps-owner (one_more r st) k = Step-owner st (Steps-owner r k)

-- Once the destructor of an object with `m` listeners has begun, whatever the order in which the
-- threads run, at most `3 * m + 1` steps are taken, and until the destructor is at its end some
-- step can be taken; at its end every listener has ended.
pub destructor_ends :
    (m : ℕ) {i k : ℕ} {s t : Threads}
    → Steps (start_listening m) i s
    → s.owner ≢ using
    → Steps s k t
    → (k ≤ 3 * m + 1) × EndsOrGoesOn t
destructor_ends m {i} {k} {s} {t} before begun after =
    let a = Steps-Agrees m before (replicate_Agrees m) in
    let b = Steps-Agrees m after a in
    (
      omega (
        arith,
        Steps-fewer m after a (a.stopped begun),
        all_left-bound s.listeners,
        owner_left-bound (length s.listeners) s.owner begun,
        a.sized,
      ),
      ends_or_goes_on m t t.owner refl (Steps-owner after begun) b,
    )
