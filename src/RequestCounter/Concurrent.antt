-- ===== src/RequestCounter/Concurrent.antt =====
-- Calls of `getNext` from several threads: the load and the compare-exchange of each round are
-- separate steps, interleaved in any order.
use mathlib.Core.Logic.{ite}
use native.Mathlib.Decide.{ℕ_discrete}
use rcdiscover.Base.{ℕ, zero, suc, ◌≡◌, refl, List, [], ◌∷◌, length}
use rcdiscover.RequestCounter.{next_value, get_next}
use rcdiscover.RequestCounter.Cycle.{after_calls}

-- Where a thread stands in `getNext`, with the local variables that are live there.
pub data Pc : Type 0 where
  idle : Pc
  head : Pc
  loaded : (current : ℕ) → Pc

-- The counter, the threads, and the values installed so far with the thread that returns them,
-- the latest first.
pub record System : Type 0 where
  pub counter : ℕ
  pub pc : ℕ → Pc
  pub issued : List (ℕ × ℕ)

abbrev pub update : (ℕ → Pc) → ℕ → Pc → ℕ → Pc
update f i p j = ite (ℕ_discrete i j) p (f j)

-- One step of thread `i`. A weak compare-exchange may also fail for no reason.
pub data Step (s : System) : System → Type 0 where
  call : (i : ℕ) → s.pc i ≡ idle → Step s (record s { pc = update s.pc i head })
  load : (i : ℕ) → s.pc i ≡ head → Step s (record s { pc = update s.pc i (loaded s.counter) })
  exchange :
      (i : ℕ) {current : ℕ}
      → s.pc i ≡ loaded current
      → s.counter ≡ current
      → Step s (record {
        counter = next_value current;
        pc = update s.pc i idle;
        issued = (i, next_value current) ∷ s.issued;
      })
  retry :
      (i : ℕ) {current : ℕ}
      → s.pc i ≡ loaded current
      → Step s (record s { pc = update s.pc i head })

abbrev pub start : System
start = record { counter = 0; pc = λ _. idle; issued = [] }

pub data Reach : System → Type 0 where
  here : Reach start
  next : {s t : System} → Reach s → Step s t → Reach t

-- The values of the first `n` calls of a single thread, the latest first.
pub sequential : ℕ → List ℕ
sequential zero = []
sequential (suc n) = after_calls (suc n) ∷ sequential n

abbrev pub values : List (ℕ × ℕ) → List ℕ
values [] = []
values ((i, v) ∷ l) = v ∷ values l

record Agrees (s : System) : Type 0 where
  counted : s.counter ≡ after_calls (length s.issued)
  listed : values s.issued ≡ sequential (length s.issued)

Step-Agrees : {s t : System} → Step s t → Agrees s → Agrees t
unfolding sequential after_calls get_next
Step-Agrees (call i e) a = record { counted = a.counted; listed = a.listed }
Step-Agrees (load i e) a = record { counted = a.counted; listed = a.listed }
Step-Agrees (exchange i e c) a = record {
  counted = cc (a.counted);
  listed = cc (a.counted, a.listed);
}
Step-Agrees (retry i e) a = record { counted = a.counted; listed = a.listed }

Reach-Agrees : {s : System} → Reach s → Agrees s
unfolding after_calls sequential
Reach-Agrees here = record { counted = refl; listed = refl }
Reach-Agrees (next r st) = Step-Agrees st (Reach-Agrees r)

-- Whatever the interleaving, the values that the threads return are, in the order of their
-- exchanges, those of the same number of calls made one after another.
pub issued_sequential : {s : System} → Reach s → values s.issued ≡ sequential (length s.issued)
issued_sequential r = (Reach-Agrees r).listed
