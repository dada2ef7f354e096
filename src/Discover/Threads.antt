-- ===== src/Discover/Threads.antt =====
-- The listener threads of `Discover` in rcdiscover/discover.cc: `startListening`, the loop of
-- `listenOnSocket`, and the destructor, which sets `stop_` and joins the threads. A round of a
-- listener ends after its timeout at the latest, so that it is one step.
pub mod Ending
use rcdiscover.Base.{
  ℕ, zero, suc, ◌+◌, ◌≡◌, Bool, true, false, List, [], ◌∷◌, Option, none, some, length, get_elem?,
  set, replicate,
}

-- Where a listener stands: before the test of `stop_`, in the body of the loop, or behind it.
pub data Listener : Type 0 where
  testing listening finished : Listener

-- Where the owner of the object stands: it uses the object, it has joined `n` threads in the
-- destructor, or the destructor's body is done.
pub data Owner : Type 0 where
  using : Owner
  joining : ℕ → Owner
  destroyed : Owner

pub record Threads : Type 0 where
  pub stop : Bool
  pub listeners : List Listener
  pub owner : Owner

-- `startListening` for `n` sockets.
unfoldable pub start_listening : ℕ → Threads
start_listening n = record { stop = false; listeners = replicate n testing; owner = using }

-- One step of listener `i` or of the owner.
pub data Step (s : Threads) : Threads → Type 0 where
  enter :
      (i : ℕ)
      → get_elem? s.listeners i ≡ some testing
      → s.stop ≡ false
      → Step s (record s { listeners = set s.listeners i listening })
  leave :
      (i : ℕ)
      → get_elem? s.listeners i ≡ some testing
      → s.stop ≡ true
      → Step s (record s { listeners = set s.listeners i finished })
  round :
      (i : ℕ)
      → get_elem? s.listeners i ≡ some listening
      → Step s (record s { listeners = set s.listeners i testing })
  destroy : s.owner ≡ using → Step s (record s { stop = true; owner = joining 0 })
  join :
      (n : ℕ)
      → s.owner ≡ joining n
      → get_elem? s.listeners n ≡ some finished
      → Step s (record s { owner = joining (suc n) })
  end : s.owner ≡ joining (length s.listeners) → Step s (record s { owner = destroyed })

-- `n` steps, in any order of the threads.
pub data Steps (s : Threads) : ℕ → Threads → Type 0 where
  none_taken : Steps s 0 s
  one_more : {n : ℕ} {t u : Threads} → Steps s n t → Step t u → Steps s (suc n) u
