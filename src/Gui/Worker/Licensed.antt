-- ===== src/Gui/Worker/Licensed.antt =====
-- The search of `discoverWorker` for pairs of cameras by the license on one of them. `none` is a call
-- on a pointer that was reset.
pub mod Total
use rcdiscover.Base.{
  ℕ, zero, suc, ◌+◌, Bool, true, false, not, ◌&&◌, ◌||◌, List, [], ◌∷◌, ◌++◌, Option, none, some,
  Bytes, codes, is_empty, length, text_eq, ◌==◌, if◌then◌else◌, bind_option,
}
use rcdiscover.Gui.DeviceList.{◌>>=◌}
use rcdiscover.Gui.Worker.{Camera, Checks, Row, Search, camera_at, reset_pair}
use rcdiscover.Gui.Worker.Pairing.{is_unread}

-- The flags for the status of the calibration.
unfoldable pub judge_calibration : Bytes → Search → Search
unfolding text_eq
judge_calibration calib s =
    if not (text_eq calib (codes "ok"))
    then (if is_unread calib
        then record s { noaccess = true }
        else record s { misconfigured = true })
    else record s { wrong_name = true }

-- A pair with the name "?".
unfoldable pub add_unnamed : ℕ → ℕ → Camera → Camera → Bytes → Search → Search
unfolding judge_calibration
add_unnamed i k left right calib s =
    let s' = judge_calibration calib s in
    record s' {
      all = reset_pair s.all i k;
      rows =
          s.rows
          ++ (record {
            name = codes "?";
            left = left;
            right = right;
            calib_status = calib;
            license_status = codes "ok";
          })
            ∷ [];
    }

-- The row is added if the status of the calibration can be read.
unfoldable pub add_unnamed_status : ℕ → ℕ → Camera → Camera → Option Bytes → Search → Search
unfolding add_unnamed
add_unnamed_status i k left right none s = record s { failed = true }
add_unnamed_status i k left right (some calib) s = add_unnamed i k left right calib s

unfoldable pub add_licensed : Checks → ℕ → ℕ → Camera → Camera → Search → Search
unfolding add_unnamed_status
add_licensed checks i k left right s =
    add_unnamed_status i k left right (checks.calibration_status left) s

-- `all[i] && all[i]->getSerialNumber() == lsn`.
unfoldable pub is_serial : Bytes → Option Camera → Bool
unfolding text_eq
is_serial lsn none = false
is_serial lsn (some c) = text_eq c.serial lsn

-- The body of the loop over `i`, which nothing reaches behind an exception.
unfoldable pub license_with : Checks → ℕ → Bytes → ℕ → Search → Option Search
unfolding add_licensed is_serial
license_with checks k lsn i s =
    if not s.failed && (not (i == k) && is_serial lsn (camera_at s.all i))
    then (do
      left ← camera_at s.all i
      right ← camera_at s.all k
      some (add_licensed checks i k left right s))
    else some s

-- The loop over `i`, with `n` values left.
unfoldable pub find_left : Checks → ℕ → Bytes → ℕ → ℕ → Search → Option Search
unfolding license_with
find_left checks k lsn i zero s = some s
find_left checks k lsn i (suc n) s = do
  s' ← license_with checks k lsn i s
  find_left checks k lsn (suc i) n s'

-- The search for the camera with the serial number in the license, if it can be read and there is one.
unfoldable pub license_by : Checks → ℕ → Option Bytes → Search → Option Search
unfolding find_left
license_by checks k none s = some (record s { failed = true })
license_by checks k (some lsn) s =
    if is_empty lsn then some s else find_left checks k lsn 0 (length s.all) s

-- The body of the loop over `k`, which nothing reaches behind an exception.
unfoldable pub license_of : Checks → ℕ → Option Camera → Search → Option Search
unfolding license_by
license_of checks k none s = some s
license_of checks k (some c) s =
    if s.failed then some s else license_by checks k (checks.left_serial c) s

-- The loop over `k`, with `n` values left.
unfoldable pub license_all : Checks → ℕ → ℕ → Search → Option Search
unfolding license_of
license_all checks k zero s = some s
license_all checks k (suc n) s = do
  s' ← license_of checks k (camera_at s.all k) s
  license_all checks (suc k) n s'
