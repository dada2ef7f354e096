-- ===== src/Examples/Threads.antt =====
-- The theorems on threads and on the ownership of sockets, applied to concrete orders of steps.
use rcdiscover.Base.{
  zero, suc, ◌+◌, ◌*◌, ◌≤◌, ◌≡◌, refl, true, false, ◌&&◌, [], ◌∷◌, none, some, codes, All, Holds,
}
use rcdiscover.Discover.Threads.{
  testing, listening, joining, Threads, start_listening, Steps, none_taken, one_more, enter, round,
  destroy,
}
use rcdiscover.Discover.Threads.Ending.{EndsOrGoesOn, destructor_ends}
use rcdiscover.Gui.Discovering
use rcdiscover.Gui.Discovering.{Gui, started, Reachable, here, after, sleep, lock_clear}
use rcdiscover.Gui.Discovering.Locked.{
  JoinsEnded, main_has, worker_has, CanGoOn, discovery-no_deadlock,
}
use rcdiscover.Socket.Handles
use rcdiscover.Socket.Handles.{
  Handles, open_socket, setsockopt_fails, move_from, assign, Owned, run-Owned,
}
use rcdiscover.WindowsSocket
use rcdiscover.WindowsSocket.{WindowsOs, no_error, insufficient_buffer, interface_names}
use rcdiscover.WindowsSocket.Bound.{IsBound, create_and_bind_for_all_interfaces-IsBound}

-- One listener, which is in the loop when the destructor begins.
abbrev stopped : Threads
stopped = record { stop = true; listeners = listening ∷ []; owner = joining 0 }

abbrev left_loop : Threads
left_loop = record { stop = true; listeners = testing ∷ []; owner = joining 0 }

entered : Steps (start_listening 1) 2 stopped
unfolding start_listening
entered = one_more (one_more none_taken (enter 0 refl refl)) (destroy refl)

ended_round : Steps stopped 1 left_loop
ended_round = one_more none_taken (round 0 refl)

destructor_ends_example : (1 ≤ 3 * 1 + 1) × EndsOrGoesOn left_loop
destructor_ends_example = destructor_ends 1 entered (λ e. cc) ended_round

-- The main thread waits for events, and the discovery thread has the lock.
abbrev clearing_table : Gui
clearing_table = record {
  running = true;
  discover_active = false;
  worker = Discovering.clearing;
  main = Discovering.idle;
  lock = Discovering.worker_thread;
}

Reachable-clearing_table : Reachable started clearing_table
Reachable-clearing_table = after (after here (sleep refl)) (lock_clear refl refl)

discovery-no_deadlock_example :
    JoinsEnded clearing_table.main clearing_table.worker
    × ((main_has clearing_table.main && worker_has clearing_table.worker) ≡ false)
    × CanGoOn clearing_table
discovery-no_deadlock_example = discovery-no_deadlock Reachable-clearing_table

abbrev no_sockets : Handles
no_sockets = record { objects = []; opened = []; closed = []; leaked = [] }

run-Owned_example : Owned 7 (
    Handles.run
      (open_socket 7
        ∷ setsockopt_fails 9
        ∷ open_socket 8
        ∷ move_from 0
        ∷ assign 0 2
        ∷ Handles.destroy 0
        ∷ [])
      no_sockets)
run-Owned_example =
    run-Owned
      (open_socket 7
        ∷ setsockopt_fails 9
        ∷ open_socket 8
        ∷ move_from 0
        ∷ assign 0 2
        ∷ Handles.destroy 0
        ∷ [])
      7 no_sockets refl

-- One adapter, of which the second attempt fetches the table.
abbrev windows : WindowsOs
windows = record {
  adapters = some ((3, codes "eth0") ∷ []);
  forward_table = λ i. no_error [];
  addr_table = λ i. elim i [
    | zero ↦ insufficient_buffer
    | suc _ ↦ no_error (record { addr = 0x0a000201; mask = 0xffffff00; index = 3 } ∷ [])
  ];
  socket = λ name ip. none;
  bind = λ s ip port. none;
  setsockopt = λ s. none;
  ioctlsocket = λ s. none;
  send_to = λ s b. none;
}

create_and_bind_for_all_interfaces-IsBound_example :
    Holds
      (All (IsBound windows (interface_names windows.adapters) 3956))
      (WindowsSocket.create_and_bind_for_all_interfaces windows 3956)
create_and_bind_for_all_interfaces-IsBound_example =
    create_and_bind_for_all_interfaces-IsBound windows 3956
