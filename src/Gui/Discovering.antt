-- ===== src/Gui/Discovering.antt =====
-- The discovery thread of tools/rcdiscover-gui/discover_window.cc and the main thread of
-- tools/rcdiscover-gui.cc, which share the window under the lock of FLTK: `doDiscover`,
-- `discoverThread`, `doClose` and the destructor. The main thread holds the lock except while it
-- waits for events, and after `Fl::unlock`.
pub mod Locked
use rcdiscover.Base.{Bool, true, false, not, ◌≡◌}

-- Where the discovery thread stands: before it clears the table, in its three critical sections, in
-- the loop between them, before the last one, or behind it; an exception that left the second one,
-- thrown by `checkReachabilityOfSensor`, is caught with the lock held (`failing`), and since the lock
-- of FLTK is recursive, the thread then passes the last one and ends without having released it
-- (`abandoned`).
pub data Worker : Type 0 where
  before_clear clearing looping adding before_end ending past failing abandoned : Worker

-- Where the main thread stands: it waits for events, handles one, waits in `doDiscover` for the
-- thread, has left `Fl::run`, waits in the destructor for the thread, or is behind it.
pub data Main : Type 0 where
  idle handling waiting closing destroying gone : Main

pub data Holder : Type 0 where
  nobody main_thread worker_thread : Holder

pub record Gui : Type 0 where
  pub running : Bool
  pub discover_active : Bool
  pub worker : Worker
  pub main : Main
  pub lock : Holder

-- The part of `update` for the button that starts a discovery.
abbrev pub update_discover : Gui → Gui
update_discover s = record s { discover_active = not s.running }

-- The end of `doDiscover`, with a new thread.
abbrev pub start_thread : Gui → Gui
start_thread s = update_discover (record s { running = true; worker = before_clear })

-- The state in which `main` calls `Fl::run`, behind its call of `doDiscover`.
abbrev pub started : Gui
started = start_thread (record {
  running = false;
  discover_active = true;
  worker = past;
  main = handling;
  lock = main_thread;
})

-- One step of the main thread or of the discovery thread. An exception that leaves the loop outside
-- of a critical section is a `finish`.
pub data Step (s : Gui) : Gui → Type 0 where
  wake : s.main ≡ idle → s.lock ≡ nobody → Step s (record s { main = handling; lock = main_thread })
  sleep : s.main ≡ handling → Step s (record s { main = idle; lock = nobody })
  refresh : s.main ≡ handling → Step s (update_discover s)
  discover :
      s.main ≡ handling
      → s.discover_active ≡ true
      → Step s (record s { running = false; main = waiting })
  join_discover :
      s.main ≡ waiting → s.worker ≡ past → Step s (start_thread (record s { main = handling }))
  close :
      s.main ≡ handling → s.running ≡ false → Step s (record s { main = closing; lock = nobody })
  destroy : s.main ≡ closing → Step s (record s { running = false; main = destroying })
  join_destroy : s.main ≡ destroying → s.worker ≡ past → Step s (record s { main = gone })
  lock_clear :
      s.worker ≡ before_clear
      → s.lock ≡ nobody
      → Step s (record s { worker = clearing; lock = worker_thread })
  clear :
      s.worker ≡ clearing → Step s (update_discover (record s { worker = looping; lock = nobody }))
  lock_add :
      s.worker ≡ looping
      → s.running ≡ true
      → s.lock ≡ nobody
      → Step s (record s { worker = adding; lock = worker_thread })
  add : s.worker ≡ adding → Step s (update_discover (record s { worker = looping; lock = nobody }))
  fail : s.worker ≡ adding → Step s (record s { worker = failing })
  abandon :
      s.worker ≡ failing
      → Step s (update_discover (record s { running = false; worker = abandoned }))
  finish : s.worker ≡ looping → Step s (record s { worker = before_end })
  lock_end :
      s.worker ≡ before_end
      → s.lock ≡ nobody
      → Step s (record s { worker = ending; lock = worker_thread })
  end :
      s.worker ≡ ending
      → Step s (update_discover (record s { running = false; worker = past; lock = nobody }))

-- What is reached from `s` by steps, in any order of the threads.
pub data Reachable (s : Gui) : Gui → Type 0 where
  here : Reachable s s
  after : {t u : Gui} → Reachable s t → Step t u → Reachable s u
