-- ===== src/Gui/Worker/Discover.antt =====
-- `discoverWorker` of tools/rcdiscover-gui/worker.cc: the cameras are collected, paired by their names
-- and then by the license, and the text of the buffer says what is left to do. An exception of the
-- search or of closing an interface ends in `catch (...)`.
pub mod Distinct
pub mod Total
use rcdiscover.Base.{
  ℕ, zero, suc, ◌+◌, Bool, true, false, not, ◌&&◌, ◌||◌, List, [], ◌∷◌, ◌++◌, map, Option, none,
  some, Bytes, is_empty, length, if◌then◌else◌, Exn, Result, ok, err, bind_option,
}
use rcdiscover.Gui.DeviceList.{◌>>=◌}
use rcdiscover.Gui.Worker.{
  Camera, Checks, Collected, collect, Row, Message, identical_serials, misconfigured_cameras,
  wrong_names, cameras_used, all_ok, nothing_connected, cameras_left, Search, Interface, Alert,
  unknown_exception,
}
use rcdiscover.Gui.Worker.Pairing.{pair_all}
use rcdiscover.Gui.Worker.Licensed.{license_all}

-- What the thread leaves: the rows, the cameras in no row, the buffer, the alerts, how many interfaces
-- were closed, and `running`.
pub record Outcome : Type 0 where
  pub rows : List Row
  pub left : List Camera
  pub buffer : Option Message
  pub alerts : List Alert
  pub closed : ℕ
  pub running : Bool

-- The loop that removes the pointers that were reset.
unfoldable pub erase_reset : List (Option Camera) → List Camera
erase_reset [] = []
erase_reset (none ∷ all) = erase_reset all
erase_reset (some c ∷ all) = c ∷ erase_reset all

abbrev pub start : List Camera → Search
start devices = record {
  all = map some devices;
  rows = [];
  buffer = none;
  noaccess = false;
  misconfigured = false;
  wrong_name = false;
  failed = false;
}

-- A message replaces the text of the buffer.
abbrev pub put : Bool → Message → Option Message → Option Message
put b m old = if b then some m else old

-- The suggestions, in the order of the code.
unfoldable pub suggest : List Camera → List Camera → Search → Option Message
suggest devices left s =
    let troubled = s.misconfigured || s.noaccess || s.wrong_name || not (is_empty left) in
    put (not troubled) (if is_empty devices then nothing_connected else all_ok) (
      put (not (is_empty left)) (cameras_left (map (λ c. c.serial) left)) (
        put s.noaccess cameras_used
          (put s.wrong_name wrong_names (put s.misconfigured misconfigured_cameras s.buffer))))

-- The two searches.
unfoldable pub search_pairs : Checks → List Camera → Option Search
unfolding pair_all license_all
search_pairs checks devices = do
  s ← pair_all checks 0 (length devices) (start devices)
  license_all checks 0 (length devices) s

-- `catch (...)`.
unfoldable pub catch_all : Outcome → Outcome
catch_all out = record out { alerts = out.alerts ++ unknown_exception ∷ [] }

-- The loop that closes the interfaces.
unfoldable pub close_all : List Interface → Outcome → Outcome
unfolding catch_all
close_all [] out = out
close_all (face ∷ ilist) out =
    let rest = close_all ilist (record out { closed = suc out.closed }) in
    if face.close_fails then catch_all out else rest

-- Behind the two searches, the suggestions and the closing, unless an exception left the searches.
unfoldable pub report : List Interface → Collected → Search → Outcome
unfolding erase_reset suggest close_all catch_all
report ilist found s =
    let out : Outcome = record {
      rows = s.rows;
      left = erase_reset s.all;
      buffer = s.buffer;
      alerts = found.alerts;
      closed = 0;
      running = true;
    } in
    if s.failed
    then catch_all out
    else close_all ilist (record out { buffer = suggest found.devices (erase_reset s.all) s })

-- The message about cameras that are reached through two interfaces.
unfoldable pub refuse : List Interface → Collected → Outcome
unfolding close_all
refuse ilist found = close_all ilist (record {
  rows = [];
  left = [];
  buffer = some identical_serials;
  alerts = found.alerts;
  closed = 0;
  running = true;
})

-- The `try` block with its handler; `none` is a call on a pointer that was reset.
unfoldable pub discover_guarded : Checks → List Interface → Option Outcome
unfolding collect search_pairs report refuse
discover_guarded checks ilist =
    let found = collect ilist [] [] in
    if found.multiple
    then some (refuse ilist found)
    else (do s ← search_pairs checks found.devices; some (report ilist found s))

unfoldable pub discover_worker : Checks → List Interface → Option Outcome
unfolding discover_guarded
discover_worker checks ilist = do
  out ← discover_guarded checks ilist
  some (record out { running = false })
