-- ===== src/Examples/Worker.antt =====
-- The theorems on the threads of the cameras, on the configuration file and on the placing of widgets,
-- at concrete inputs.
use rcdiscover.Base.{
  ℕ, ◌≡◌, refl, arith, false, List, [], ◌∷◌, Option, none, some, Bytes, codes, text_eq, All,
  runtime_error, Result, ok, err, ◌==◌, if◌then◌else◌,
}
use rcdiscover.Text.{is_space, last_or}
use rcdiscover.Gui.Config.{pos, Config, load_config, store_config}
use rcdiscover.Gui.Config.RoundTrip.{no_spaces-All, load_config-store_config}
use rcdiscover.Gui.Layout.{
  place_all, place_one, check_group_size, add_right, add_below, add_right_x, add_right_y,
  add_below_x, add_below_y, below_all, widen_edges,
}
use rcdiscover.Gui.Layout.Apart.{AllApart, fits}
use rcdiscover.Gui.Layout.Inside.{IsInside, check_group_size-IsInside}
use rcdiscover.Gui.Layout.Constructors.{set_tmp_ip_places}
use rcdiscover.Gui.Worker.{Camera, Checks, Interface, collect}
use rcdiscover.Gui.Worker.Discover.{Outcome, discover_worker}
use rcdiscover.Gui.Worker.Discover.Total.{IsShared, IsClosed, discover_worker-total}
use rcdiscover.Gui.Worker.Backup.{
  backup_text, license_serials, lines_from, read_serials, read_serial,
}
use rcdiscover.Gui.Worker.Backup.Scan.{IsFirst, IsData, is_line-IsLine}
use rcdiscover.Gui.Worker.Backup.RoundTrip.{text_of}
use rcdiscover.Gui.Worker.Tasks.{
  opened, closed, renamed, loaded, saved, written, message, System, find_devices,
  store_backup_worker, reset_name_worker, reset_from_file_worker,
}
use rcdiscover.Gui.Worker.Tasks.Guarded.{IsRestoring, reset_from_file_worker-IsRestoring}
use rcdiscover.Gui.Worker.Tasks.Restored.{
  Works, EndsClosed, camera_workers-EndsClosed, backup-restored,
}

abbrev stored_config : Config
stored_config = record {
  width = pos 1180;
  height = pos 394;
  only_rc = pos 1;
  sort_col = pos 3;
  sort_down = false;
}

load_config-store_config_example :
    load_config (store_config stored_config (codes "rc_visard")) ≡ stored_config
unfolding is_space
load_config-store_config_example =
    load_config-store_config stored_config (codes "rc_visard")
      (omega arith, omega arith, omega arith, omega arith) (no_spaces-All (codes "rc_visard") refl)

abbrev camera : Bytes → Bytes → Camera
camera name sn = record {
  vendor = codes "Basler";
  model = codes "a2A2448-23gcBAS";
  serial = sn;
  user_name = name;
  display_name = [];
}

-- The left camera is ready, the second one has a license for the camera 40001, and the license of the
-- camera 40003 cannot be read.
abbrev checks : Checks
checks = record {
  calibration_status = λ c. some (codes "ok");
  license_status = λ l r. some (codes "ok");
  left_serial = λ c.
      if text_eq c.serial (codes "40003")
      then none
      else some (if text_eq c.serial (codes "40002") then codes "40001" else []);
}

-- The second interface throws behind its first camera.
abbrev interfaces : List Interface
interfaces =
    record {
      cameras =
          camera (codes "viscore_L") (codes "40001")
          ∷ camera (codes "viscore_R") (codes "40002")
          ∷ [];
      failure = none;
      close_fails = false;
    }
    ∷ record {
      cameras = camera (codes "other") (codes "40003") ∷ [];
      failure = some runtime_error;
      close_fails = false;
    }
    ∷ []

discover_worker-total_example :
    (out : Outcome) × (discover_worker checks interfaces ≡ some out)
    × (out.running ≡ false)
    × IsShared (collect interfaces [] []) out
    × IsClosed interfaces out
discover_worker-total_example = discover_worker-total checks interfaces

abbrev calibration : Bytes
calibration = codes "camera.width=2448"

abbrev second_line : List Bytes
second_line = codes "camera.height=2048" ∷ []

calibration-IsFirst : IsFirst calibration
calibration-IsFirst = (is_line-IsLine calibration refl, refl)

second_line-IsData : All IsData second_line
second_line-IsData = ((is_line-IsLine (codes "camera.height=2048") refl, refl), tt)

-- Camera 1 is the left one, camera 2 the right one.
abbrev cameras : System ℕ
cameras = record {
  open_device = λ d. ok tt;
  close_device = λ d. ok tt;
  reset_names = λ l r. ok tt;
  load = λ d. if d == 1 then ok (text_of calibration second_line) else ok (codes "license");
  save = λ d text. ok tt;
  write = λ text. ok tt;
}

cameras-Works : Works cameras
cameras-Works = record {
  opens = λ d. refl;
  closes = λ d. refl;
  resets = λ l r. refl;
  saves = λ d text. refl;
  writes = λ text. refl;
}

abbrev licdata : Bytes
licdata = codes "extra=40001,type=left\nextra=40002,type=right\n"

abbrev verify : Bytes → Result Bytes
verify text = if text_eq text (codes "license") then ok licdata else err runtime_error

abbrev get_device : Bytes → Result (Option ℕ)
get_device sn =
    if text_eq sn (codes "40001")
    then ok (some 1)
    else if text_eq sn (codes "40002")
    then ok (some 2)
    else ok none

found_both :
    find_devices (license_serials licdata).0 (license_serials licdata).1 (get_device ∷ []) none none
    ≡ (some 1, some 2, ok tt)
unfolding find_devices license_serials lines_from read_serials read_serial text_eq
found_both = refl

backup-restored_example :
    ((store_backup_worker cameras 1 2).actions
      ≡ opened 1
        ∷ opened 2
        ∷ loaded 1
        ∷ loaded 2
        ∷ written (backup_text (text_of calibration second_line) (codes "license"))
        ∷ message
        ∷ closed 1
        ∷ closed 2
        ∷ [])
    × ((reset_from_file_worker cameras verify
          (get_device ∷ [])
          (ok (backup_text (text_of calibration second_line) (codes "license")))).actions
        ≡ opened 1
          ∷ opened 2
          ∷ renamed 1 2
          ∷ saved 1 (text_of calibration second_line)
          ∷ saved 2 (codes "license")
          ∷ message
          ∷ closed 1
          ∷ closed 2
          ∷ [])
unfolding last_or text_eq
backup-restored_example =
    backup-restored cameras verify (get_device ∷ []) 1 2 calibration second_line (codes "license")
      licdata cameras-Works refl refl calibration-IsFirst second_line-IsData refl refl found_both

-- Cameras that cannot be opened.
abbrev unreachable : System ℕ
unreachable = record cameras { open_device = λ d. err runtime_error }

camera_workers-EndsClosed_example :
    EndsClosed unreachable 1 2 (reset_name_worker unreachable 1 2)
    × EndsClosed unreachable 1 2 (store_backup_worker unreachable 1 2)
camera_workers-EndsClosed_example = camera_workers-EndsClosed unreachable 1 2

reset_from_file_worker-IsRestoring_example :
    All
      (IsRestoring verify
        (get_device ∷ [])
        (ok (backup_text (text_of calibration second_line) (codes "license"))))
      (reset_from_file_worker cameras verify
        (get_device ∷ [])
        (ok (backup_text (text_of calibration second_line) (codes "license")))).actions
reset_from_file_worker-IsRestoring_example =
    reset_from_file_worker-IsRestoring verify (get_device ∷ [])
      (ok (backup_text (text_of calibration second_line) (codes "license"))) cameras

check_group_size-IsInside_example :
    AllApart (place_all set_tmp_ip_places [])
    × All (IsInside 480 238) (place_all set_tmp_ip_places [])
unfolding fits place_all place_one check_group_size add_right add_below add_right_x add_right_y
    add_below_x add_below_y below_all widen_edges set_tmp_ip_places
check_group_size-IsInside_example = check_group_size-IsInside 480 238 set_tmp_ip_places refl refl
