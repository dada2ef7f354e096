-- ===== src/Gui/Discovering/Locked.antt =====
-- The two threads of the graphical tool do not block one another.
use rcdiscover.Base.{Bool, true, false, not, ◌&&◌, ◌≡◌, ◌≢◌, refl, ap, sym, ◌∙◌, ◌⊎◌, inl, inr}
use rcdiscover.Gui.Discovering.{
  Worker, before_clear, clearing, looping, adding, before_end, ending, past, failing, abandoned,
  Main, idle, handling, waiting, closing, destroying, gone, Holder, nobody, main_thread,
  worker_thread, Gui, started, Step, wake, sleep, refresh, discover, join_discover, close, destroy,
  join_destroy, lock_clear, clear, lock_add, add, fail, abandon, finish, lock_end, end, Reachable,
  here, after,
}

-- The main thread has the lock while it handles an event or waits in `doDiscover`.
abbrev pub main_has : Main → Bool
main_has handling = true
main_has waiting = true
main_has m = false

abbrev pub worker_has : Worker → Bool
worker_has clearing = true
worker_has adding = true
worker_has ending = true
worker_has failing = true
worker_has abandoned = true
worker_has w = false

abbrev is_main : Holder → Bool
is_main main_thread = true
is_main h = false

abbrev is_worker : Holder → Bool
is_worker worker_thread = true
is_worker h = false

-- The main thread is in a place where no discovery runs.
abbrev leaves : Main → Bool
leaves idle = false
leaves handling = false
leaves m = true

-- The discovery thread has ended.
abbrev is_ended : Worker → Bool
is_ended past = true
is_ended abandoned = true
is_ended w = false

record Consistent (s : Gui) : Type 0 where
  main_lock : main_has s.main ≡ is_main s.lock
  worker_lock : worker_has s.worker ≡ is_worker s.lock
  stopped : s.running ≡ false → is_ended s.worker ≡ true
  alone : s.worker ≡ abandoned → s.main ≡ idle
  active : s.discover_active ≡ true → s.running ≡ false
  left : leaves s.main ≡ true → s.running ≡ false

not-true : (b : Bool) → not b ≡ true → b ≡ false
not-true true h = cc
not-true false h = refl

-- Only one of the threads has the lock.
excludes_worker :
    (m : Main) (w : Worker) (h : Holder)
    → main_has m ≡ is_main h
    → worker_has w ≡ is_worker h
    → main_has m ≡ true
    → worker_has w ≡ false
excludes_worker m w nobody a b e = b
excludes_worker m w main_thread a b e = b
excludes_worker m w worker_thread a b e = cc

excludes_main :
    (m : Main) (w : Worker) (h : Holder)
    → main_has m ≡ is_main h
    → worker_has w ≡ is_worker h
    → worker_has w ≡ true
    → main_has m ≡ false
excludes_main m w nobody a b e = a
excludes_main m w main_thread a b e = cc
excludes_main m w worker_thread a b e = a

ended_past : (w : Worker) → is_ended w ≡ true → w ≢ abandoned → w ≡ past
ended_past before_clear h n = cc
ended_past clearing h n = cc
ended_past looping h n = cc
ended_past adding h n = cc
ended_past before_end h n = cc
ended_past ending h n = cc
ended_past past h n = refl
ended_past failing h n = cc
ended_past abandoned h n = absurd (n refl)

-- The main thread, without the lock and not on its way out, waits for events.
remains_idle : (m : Main) → main_has m ≡ false → leaves m ≢ true → m ≡ idle
remains_idle idle h n = refl
remains_idle handling h n = cc
remains_idle waiting h n = cc
remains_idle closing h n = absurd (n refl)
remains_idle destroying h n = absurd (n refl)
remains_idle gone h n = absurd (n refl)

-- A thread that runs keeps `running` set.
module _ (s : Gui) (c : Consistent s) where
  runs : (w : Worker) → s.worker ≡ w → is_ended w ≡ false → s.running ≢ false
  runs w e n r = cc (sym n ∙ ap is_ended (sym e) ∙ c.stopped r)

  -- Once the main thread does not wait for events, a thread that has ended released the lock.
  is_past : (m : Main) → s.main ≡ m → m ≢ idle → s.running ≡ false → s.worker ≡ past
  is_past m e n r = ended_past s.worker (c.stopped r) (λ a. n (sym e ∙ c.alone a))

  main_out : (w : Worker) → s.worker ≡ w → worker_has w ≡ true → main_has s.main ≡ false
  main_out w e t =
      excludes_main s.main s.worker s.lock c.main_lock c.worker_lock (ap worker_has e ∙ t)

  worker_out : (m : Main) → s.main ≡ m → main_has m ≡ true → worker_has s.worker ≡ false
  worker_out m e t =
      excludes_worker s.main s.worker s.lock c.main_lock c.worker_lock (ap main_has e ∙ t)

Step-Consistent : {s t : Gui} → Step s t → Consistent s → Consistent t
Step-Consistent {s} (wake m l) c = record {
  main_lock = refl;
  worker_lock = c.worker_lock ∙ ap is_worker l;
  stopped = c.stopped;
  alone = λ a. cc (sym (ap worker_has a) ∙ c.worker_lock ∙ ap is_worker l);
  active = c.active;
  left = λ h. cc;
}
Step-Consistent {s} (sleep m) c = record {
  main_lock = refl;
  worker_lock = worker_out s c handling m refl;
  stopped = c.stopped;
  alone = λ a. refl;
  active = c.active;
  left = λ h. cc;
}
Step-Consistent {s} (refresh m) c = record {
  main_lock = c.main_lock;
  worker_lock = c.worker_lock;
  stopped = c.stopped;
  alone = c.alone;
  active = not-true s.running;
  left = c.left;
}
Step-Consistent {s} (discover m b) c = record {
  main_lock = sym (ap main_has m) ∙ c.main_lock;
  worker_lock = c.worker_lock;
  stopped = λ _. c.stopped (c.active b);
  alone = λ a. cc (sym m ∙ c.alone a);
  active = λ _. refl;
  left = λ _. refl;
}
Step-Consistent {s} (join_discover m w) c = record {
  main_lock = sym (ap main_has m) ∙ c.main_lock;
  worker_lock = sym (ap worker_has w) ∙ c.worker_lock;
  stopped = λ h. cc;
  alone = λ a. cc a;
  active = λ h. cc;
  left = λ h. cc;
}
Step-Consistent {s} (close m r) c = record {
  main_lock = refl;
  worker_lock = worker_out s c handling m refl;
  stopped = c.stopped;
  alone = λ a. cc (sym m ∙ c.alone a);
  active = c.active;
  left = λ _. r;
}
Step-Consistent {s} (destroy m) c = record {
  main_lock = sym (ap main_has m) ∙ c.main_lock;
  worker_lock = c.worker_lock;
  stopped = λ _. c.stopped (c.left (ap leaves m));
  alone = λ a. cc (sym m ∙ c.alone a);
  active = λ _. refl;
  left = λ _. refl;
}
Step-Consistent {s} (join_destroy m w) c = record {
  main_lock = sym (ap main_has m) ∙ c.main_lock;
  worker_lock = c.worker_lock;
  stopped = c.stopped;
  alone = λ a. cc (sym m ∙ c.alone a);
  active = c.active;
  left = λ _. c.left (ap leaves m);
}
Step-Consistent {s} (lock_clear w l) c = record {
  main_lock = c.main_lock ∙ ap is_main l;
  worker_lock = refl;
  stopped = λ r. absurd (runs s c before_clear w refl r);
  alone = λ a. cc a;
  active = c.active;
  left = c.left;
}
Step-Consistent {s} (clear w) c = record {
  main_lock = main_out s c clearing w refl;
  worker_lock = refl;
  stopped = λ r. absurd (runs s c clearing w refl r);
  alone = λ a. cc a;
  active = not-true s.running;
  left = c.left;
}
Step-Consistent {s} (lock_add w r l) c = record {
  main_lock = c.main_lock ∙ ap is_main l;
  worker_lock = refl;
  stopped = λ r. absurd (runs s c looping w refl r);
  alone = λ a. cc a;
  active = c.active;
  left = c.left;
}
Step-Consistent {s} (add w) c = record {
  main_lock = main_out s c adding w refl;
  worker_lock = refl;
  stopped = λ r. absurd (runs s c adding w refl r);
  alone = λ a. cc a;
  active = not-true s.running;
  left = c.left;
}
Step-Consistent {s} (fail w) c = record {
  main_lock = c.main_lock;
  worker_lock = sym (ap worker_has w) ∙ c.worker_lock;
  stopped = λ r. absurd (runs s c adding w refl r);
  alone = λ a. cc a;
  active = c.active;
  left = c.left;
}
Step-Consistent {s} (abandon w) c = record {
  main_lock = c.main_lock;
  worker_lock = sym (ap worker_has w) ∙ c.worker_lock;
  stopped = λ _. refl;
  alone = λ _.
      remains_idle s.main (main_out s c failing w refl) (λ h. runs s c failing w refl (c.left h));
  active = λ _. refl;
  left = λ _. refl;
}
Step-Consistent {s} (finish w) c = record {
  main_lock = c.main_lock;
  worker_lock = sym (ap worker_has w) ∙ c.worker_lock;
  stopped = λ r. absurd (runs s c looping w refl r);
  alone = λ a. cc a;
  active = c.active;
  left = c.left;
}
Step-Consistent {s} (lock_end w l) c = record {
  main_lock = c.main_lock ∙ ap is_main l;
  worker_lock = refl;
  stopped = λ r. absurd (runs s c before_end w refl r);
  alone = λ a. cc a;
  active = c.active;
  left = c.left;
}
Step-Consistent {s} (end w) c = record {
  main_lock = main_out s c ending w refl;
  worker_lock = refl;
  stopped = λ _. refl;
  alone = λ a. cc a;
  active = λ _. refl;
  left = λ _. refl;
}

Reachable-Consistent : {t : Gui} → Reachable started t → Consistent t
Reachable-Consistent here = record {
  main_lock = refl;
  worker_lock = refl;
  stopped = λ h. cc;
  alone = λ a. cc a;
  active = λ h. cc;
  left = λ h. cc;
}
Reachable-Consistent (after r st) = Step-Consistent st (Reachable-Consistent r)

lock_nobody : (h : Holder) → is_main h ≡ false → is_worker h ≡ false → h ≡ nobody
lock_nobody nobody a b = refl
lock_nobody main_thread a b = cc
lock_nobody worker_thread a b = cc

-- While the main thread waits for events, it or the discovery thread can go on, unless that thread
-- ended with the lock.
idle_step :
    (s : Gui) (w : Worker)
    → s.main ≡ idle
    → s.worker ≡ w
    → w ≢ abandoned
    → Consistent s
    → (u : Gui) × Step s u
idle_step s clearing m e n c = (_, clear e)
idle_step s adding m e n c = (_, add e)
idle_step s ending m e n c = (_, end e)
idle_step s failing m e n c = (_, abandon e)
idle_step s abandoned m e n c = absurd (n refl)
idle_step s before_clear m e n c = (
  _,
  wake m
      (lock_nobody s.lock (sym c.main_lock ∙ ap main_has m) (sym c.worker_lock ∙ ap worker_has e)),
)
idle_step s looping m e n c = (
  _,
  wake m
      (lock_nobody s.lock (sym c.main_lock ∙ ap main_has m) (sym c.worker_lock ∙ ap worker_has e)),
)
idle_step s before_end m e n c = (
  _,
  wake m
      (lock_nobody s.lock (sym c.main_lock ∙ ap main_has m) (sym c.worker_lock ∙ ap worker_has e)),
)
idle_step s past m e n c = (
  _,
  wake m
      (lock_nobody s.lock (sym c.main_lock ∙ ap main_has m) (sym c.worker_lock ∙ ap worker_has e)),
)

-- The main thread has ended, or a step can be taken.
abbrev GoesOn : Gui → Type 0
GoesOn s = (s.main ≡ gone) ⊎ ((u : Gui) × Step s u)

goes_on : (s : Gui) (m : Main) → s.main ≡ m → s.worker ≢ abandoned → Consistent s → GoesOn s
goes_on s idle e n c = inr (idle_step s s.worker e refl n c)
goes_on s handling e n c = inr (_, sleep e)
goes_on s waiting e n c =
    inr (_, join_discover e (is_past s c waiting e (λ u. cc u) (c.left (ap leaves e))))
goes_on s closing e n c = inr (_, destroy e)
goes_on s destroying e n c =
    inr (_, join_destroy e (is_past s c destroying e (λ u. cc u) (c.left (ap leaves e))))
goes_on s gone e n c = inl e

-- An exception left the lock with the discovery thread, which only happens to a main thread that
-- waits for events; otherwise the program goes on.
abbrev pub CanGoOn : Gui → Type 0
CanGoOn s = ((s.worker ≡ abandoned) × (s.main ≡ idle)) ⊎ ((s.worker ≢ abandoned) × GoesOn s)

abandoned_cases : (w : Worker) → (w ≡ abandoned) ⊎ (w ≢ abandoned)
abandoned_cases before_clear = inr (λ u. cc u)
abandoned_cases clearing = inr (λ u. cc u)
abandoned_cases looping = inr (λ u. cc u)
abandoned_cases adding = inr (λ u. cc u)
abandoned_cases before_end = inr (λ u. cc u)
abandoned_cases ending = inr (λ u. cc u)
abandoned_cases past = inr (λ u. cc u)
abandoned_cases failing = inr (λ u. cc u)
abandoned_cases abandoned = inl refl

can_go_on : (s : Gui) → Consistent s → CanGoOn s
can_go_on s c = elim (abandoned_cases s.worker) [
  | inl a ↦ inl (a, c.alone a)
  | inr n ↦ inr (n, goes_on s s.main refl n c)
]

-- Where the main thread waits for the discovery thread, that thread is behind its last critical
-- section.
abbrev pub JoinsEnded : Main → Worker → Type 0
JoinsEnded waiting w = (w ≡ past)
JoinsEnded destroying w = (w ≡ past)
JoinsEnded m w = Unit

joins_ended : (s : Gui) (m : Main) → s.main ≡ m → Consistent s → JoinsEnded m s.worker
joins_ended s idle e c = tt
joins_ended s handling e c = tt
joins_ended s waiting e c = is_past s c waiting e (λ u. cc u) (c.left (ap leaves e))
joins_ended s closing e c = tt
joins_ended s destroying e c = is_past s c destroying e (λ u. cc u) (c.left (ap leaves e))
joins_ended s gone e c = tt

not_both : (m w : Bool) → (m ≡ true → w ≡ false) → (m && w) ≡ false
not_both true w h = h refl
not_both false w h = refl

-- In every order of the threads: where the main thread waits for the discovery thread, in
-- `doDiscover` with the lock or in the destructor, that thread is behind its last critical section,
-- so that the wait ends; never do both threads have the lock; if the discovery thread has ended with
-- the lock, since an exception left its critical section, the main thread waits for events; and in
-- every other state the main thread has ended or some step can be taken.
pub discovery-no_deadlock :
    {s : Gui}
    → Reachable started s
    → JoinsEnded s.main s.worker × ((main_has s.main && worker_has s.worker) ≡ false) × CanGoOn s
discovery-no_deadlock {s} r =
    let c = Reachable-Consistent r in
    (
      joins_ended s s.main refl c,
      not_both (main_has s.main) (worker_has s.worker)
          (excludes_worker s.main s.worker s.lock c.main_lock c.worker_lock),
      can_go_on s c,
    )
