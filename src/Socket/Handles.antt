-- ===== src/Socket/Handles.antt =====
-- The ownership of the handles of `SocketLinux` (rcdiscover/socket_linux.cc): the constructor that
-- opens one, the move constructor, the move assignment and the destructor.
use rcdiscover.Base.{
  ℕ, zero, suc, ◌+◌, ◌≡◌, refl, ap, Bool, true, false, List, [], ◌∷◌, Option, none, some, length,
  set, ◌==◌, ltb, ◌<◌, ◌&&◌, Bool-cases, inl, inr, if◌then◌else◌, arith,
}

-- The objects that are alive, each with `sock_`, where `none` is -1, the handles that were opened and
-- closed, and those that a constructor opened which then threw, the last first.
pub record Handles : Type 0 where
  pub objects : List (Option ℕ)
  pub opened : List ℕ
  pub closed : List ℕ
  pub leaked : List ℕ

abbrev pub handle_at : List (Option ℕ) → ℕ → Option ℕ
handle_at [] i = none
handle_at (x ∷ xs) zero = x
handle_at (x ∷ xs) (suc i) = handle_at xs i

abbrev pub remove : List (Option ℕ) → ℕ → List (Option ℕ)
remove [] i = []
remove (x ∷ xs) zero = xs
remove (x ∷ xs) (suc i) = x ∷ remove xs i

abbrev pub close : Option ℕ → List ℕ → List ℕ
close none closed = closed
close (some h) closed = h ∷ closed

-- An operation on the objects, which are counted from 0; a new object is put in front. Nothing
-- happens to an object that is not there. A constructor whose `::socket` fails opens nothing; if
-- `setsockopt` fails, the constructor has opened a handle, but there is no object, and no destructor
-- is called.
pub data Op : Type 0 where
  open_socket : ℕ → Op
  socket_fails : Op
  setsockopt_fails : ℕ → Op
  move_from : ℕ → Op
  assign : ℕ → ℕ → Op
  destroy : ℕ → Op

unfoldable pub step : Handles → Op → Handles
step s (open_socket h) = record s { objects = some h ∷ s.objects; opened = h ∷ s.opened }
step s socket_fails = s
step s (setsockopt_fails h) = record s { opened = h ∷ s.opened; leaked = h ∷ s.leaked }
step s (move_from i) = record s { objects = handle_at s.objects i ∷ set s.objects i none }
step s (assign i j) =
    if ltb i (length s.objects) && ltb j (length s.objects)
    then record s {
      objects = set (set s.objects i (handle_at s.objects j)) j (handle_at s.objects i);
    }
    else s
step s (destroy i) = record s {
  objects = remove s.objects i;
  closed = close (handle_at s.objects i) s.closed;
}

unfoldable pub run : List Op → Handles → Handles
run [] s = s
run (op ∷ ops) s = run ops (step s op)

abbrev pub one_if : Bool → ℕ
one_if true = 1
one_if false = 0

-- How often a handle stands in a list, and how many objects hold it.
abbrev pub count : ℕ → List ℕ → ℕ
count h [] = 0
count h (x ∷ xs) = one_if (x == h) + count h xs

abbrev pub is_handle : ℕ → Option ℕ → ℕ
is_handle h none = 0
is_handle h (some x) = one_if (x == h)

abbrev pub held : ℕ → List (Option ℕ) → ℕ
held h [] = 0
held h (o ∷ os) = is_handle h o + held h os

held-set :
    (h : ℕ) (xs : List (Option ℕ)) (i : ℕ) (o : Option ℕ)
    → i < length xs
    → held h (set xs i o) + is_handle h (handle_at xs i) ≡ held h xs + is_handle h o
held-set h [] i o l = absurd (omega (arith, l))
held-set h (x ∷ xs) zero o l = omega arith
held-set h (x ∷ xs) (suc i) o l = omega (arith, held-set h xs i o (omega (arith, l)))

-- What a move leaves is nothing, whether the object is there or not.
held-take :
    (h : ℕ) (xs : List (Option ℕ)) (i : ℕ)
    → held h (set xs i none) + is_handle h (handle_at xs i) ≡ held h xs
held-take h [] i = refl
held-take h (x ∷ xs) zero = omega arith
held-take h (x ∷ xs) (suc i) = omega (arith, held-take h xs i)

held-remove :
    (h : ℕ) (xs : List (Option ℕ)) (i : ℕ)
    → held h (remove xs i) + is_handle h (handle_at xs i) ≡ held h xs
held-remove h [] i = refl
held-remove h (x ∷ xs) zero = omega arith
held-remove h (x ∷ xs) (suc i) = omega (arith, held-remove h xs i)

handle_at-set :
    (xs : List (Option ℕ)) (i j : ℕ) (o : Option ℕ)
    → o ≡ handle_at xs j
    → handle_at (set xs i o) j ≡ handle_at xs j
handle_at-set [] i j o e = refl
handle_at-set (x ∷ xs) zero zero o e = e
handle_at-set (x ∷ xs) zero (suc j) o e = refl
handle_at-set (x ∷ xs) (suc i) zero o e = refl
handle_at-set (x ∷ xs) (suc i) (suc j) o e = handle_at-set xs i j o e

length-set : (xs : List (Option ℕ)) (i : ℕ) (o : Option ℕ) → length (set xs i o) ≡ length xs
length-set [] i o = refl
length-set (x ∷ xs) zero o = refl
length-set (x ∷ xs) (suc i) o = ap suc (length-set xs i o)

held-swap :
    (h : ℕ) (xs : List (Option ℕ)) (i j : ℕ)
    → i < length xs
    → j < length xs
    → held h (set (set xs i (handle_at xs j)) j (handle_at xs i)) ≡ held h xs
held-swap h xs i j hi hj =
    let ys = set xs i (handle_at xs j) in
    let there : is_handle h (handle_at ys j) ≡ is_handle h (handle_at xs j) =
      ap (is_handle h) (handle_at-set xs i j (handle_at xs j) refl) in
    omega (
      arith,
      there,
      held-set h xs i (handle_at xs j) hi,
      held-set h ys j (handle_at xs i) (omega (arith, hj, length-set xs i (handle_at xs j))),
    )

count-close :
    (h : ℕ) (o : Option ℕ) (closed : List ℕ)
    → count h (close o closed) ≡ is_handle h o + count h closed
count-close h none closed = omega arith
count-close h (some x) closed = refl

-- Every handle that was opened is held by an object, was closed, or was leaked, as often as it was
-- opened.
abbrev pub Owned : ℕ → Handles → Type 0
Owned h s = count h s.opened ≡ held h s.objects + count h s.closed + count h s.leaked

step-Owned : (h : ℕ) (s : Handles) (op : Op) → Owned h s → Owned h (step s op)
unfolding step
step-Owned h s (open_socket x) o = omega (arith, o)
step-Owned h s socket_fails o = o
step-Owned h s (setsockopt_fails x) o = omega (arith, o)
step-Owned h s (move_from i) o = omega (arith, o, held-take h s.objects i)
step-Owned h s (assign i j) o =
    elim (Bool-cases (ltb i (length s.objects) && ltb j (length s.objects))) [
      | inr e ↦ rw (e) o
      | inl e ↦
          let (hi, hj) = both_below i j (length s.objects) e in
          rw (e) (omega (arith, o, held-swap h s.objects i j hi hj))
    ]
  where
    both_below : (i j n : ℕ) → (ltb i n && ltb j n) ≡ true → (i < n) × (j < n)
    both_below i j n e = ground arith
step-Owned h s (destroy i) o =
    omega (arith, o, held-remove h s.objects i, count-close h (handle_at s.objects i) s.closed)

-- Every handle has been opened as often as it is held by an object that is alive, has been closed, or
-- was opened by a constructor that then threw because `setsockopt` failed, and stays so whatever is
-- done to the sockets of the program, by construction, moves, assignments and destruction in any
-- order.
pub run-Owned : (ops : List Op) (h : ℕ) (s : Handles) → Owned h s → Owned h (run ops s)
unfolding run
run-Owned [] h s o = o
run-Owned (op ∷ ops) h s o = run-Owned ops h (step s op) (step-Owned h s op o)
