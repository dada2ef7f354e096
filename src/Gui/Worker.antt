-- ===== src/Gui/Worker.antt =====
-- The cameras that `discoverWorker` of tools/rcdiscover-gui/worker.cc works on, and how it collects
-- them. What the other files of that tool decide about a camera is a parameter.
pub mod Pointers
pub mod Pairing
pub mod Licensed
pub mod Discover
pub mod Backup
pub mod Tasks
use rcdiscover.Base.{
  ℕ, zero, suc, ◌+◌, Bool, true, false, not, ◌&&◌, ◌||◌, List, [], ◌∷◌, ◌++◌, Option, none, some,
  Bytes, codes, is_empty, length, get_elem?, set, text_eq, ◌==◌, if◌then◌else◌, Exn, Result, ok,
  err,
}
use rcdiscover.Gui.DeviceList.{is_prefix}

-- What is asked of an `rcg::Device`. Reading these texts throws at most in the loop over the
-- interfaces, where it is the failure of the interface.
pub record Camera : Type 0 where
  pub vendor : Bytes
  pub model : Bytes
  pub serial : Bytes
  pub user_name : Bytes
  pub display_name : Bytes

-- `getCalibrationStatus`, `getLicenseStatus` and `getLeftSNFromLicense`; `none` is an exception.
pub record Checks : Type 0 where
  pub calibration_status : Camera → Option Bytes
  pub license_status : Camera → Camera → Option Bytes
  pub left_serial : Camera → Option Bytes

abbrev pub vendor_model : List (Bytes × Bytes)
vendor_model =
    (codes "MATRIX VISION GmbH", codes "mvBlueCOUGAR")
    ∷ (codes "MATRIX VISION GmbH", codes "mvBlueFOX3")
    ∷ (codes "Basler", codes "a2A2448-23gcBAS")
    ∷ (codes "Basler", codes "a2A2448-23gmBAS")
    ∷ []

unfoldable pub is_supported_camera : List (Bytes × Bytes) → Camera → Bool
unfolding text_eq
is_supported_camera [] c = false
is_supported_camera ((vendor, model) ∷ rest) c =
    (text_eq c.vendor vendor && is_prefix model c.model) || is_supported_camera rest c

unfoldable pub has_serial : Bytes → List Camera → Bool
unfolding text_eq
has_serial sn [] = false
has_serial sn (c ∷ cs) = text_eq c.serial sn || has_serial sn cs

-- The loop over the devices of an interface: the cameras, and `multiple_interfaces`.
unfoldable pub add_cameras : List Camera → List Camera → List Camera × Bool
unfolding is_supported_camera has_serial
add_cameras devices [] = (devices, false)
add_cameras devices (c ∷ cs) =
    let added = add_cameras (devices ++ c ∷ []) cs in
    let skipped = add_cameras devices cs in
    if is_supported_camera vendor_model c
    then (if has_serial c.serial devices then (devices ++ c ∷ [], true) else added)
    else skipped

-- An `rcg::Interface`: the devices that are read before an exception, the `std::exception` that ends
-- the loop over them, if there is one, and whether closing the interface throws.
pub record Interface : Type 0 where
  pub cameras : List Camera
  pub failure : Option Exn
  pub close_fails : Bool

-- The texts of `fl_alert`: that of an exception, or that of `catch (...)`.
pub data Alert : Type 0 where
  exception : Exn → Alert
  unknown_exception : Alert

unfoldable pub alert_of : Option Exn → List Alert
alert_of none = []
alert_of (some e) = exception e ∷ []

pub record Collected : Type 0 where
  pub devices : List Camera
  pub multiple : Bool
  pub alerts : List Alert

-- The loop over the interfaces: the cameras that were seen before an exception are kept, and an alert
-- is shown for it.
unfoldable pub collect : List Interface → List Camera → List Alert → Collected
unfolding add_cameras alert_of
collect [] devices alerts = record { devices = devices; multiple = false; alerts = alerts }
collect (face ∷ ilist) devices alerts =
    let added = add_cameras devices face.cameras in
    let rest = collect ilist added.0 (alerts ++ alert_of face.failure) in
    if added.1 then record { devices = added.0; multiple = true; alerts = alerts } else rest

-- A row of the table, without the shared pointers.
pub record Row : Type 0 where
  pub name : Bytes
  pub left : Camera
  pub right : Camera
  pub calib_status : Bytes
  pub license_status : Bytes

-- The texts that the buffer may hold.
pub data Message : Type 0 where
  identical_serials misconfigured_cameras wrong_names cameras_used all_ok nothing_connected :
      Message
  names_not_unique different_models : Camera → Camera → Message
  cameras_left : List Bytes → Message

-- `all`, where `none` is a pointer that was reset, the rows that were added, the text of the buffer,
-- and the flags; `failed` says that an exception has left the search.
pub record Search : Type 0 where
  pub all : List (Option Camera)
  pub rows : List Row
  pub buffer : Option Message
  pub noaccess : Bool
  pub misconfigured : Bool
  pub wrong_name : Bool
  pub failed : Bool

abbrev pub camera_at : List (Option Camera) → ℕ → Option Camera
camera_at [] i = none
camera_at (x ∷ xs) zero = x
camera_at (x ∷ xs) (suc i) = camera_at xs i

abbrev pub present : Option Camera → ℕ
present none = 0
present (some c) = 1

-- How many pointers are left.
abbrev pub left_over : List (Option Camera) → ℕ
left_over [] = 0
left_over (x ∷ xs) = present x + left_over xs

-- `all[i].reset(); all[k].reset();`
abbrev pub reset_pair : List (Option Camera) → ℕ → ℕ → List (Option Camera)
reset_pair all i k = set (set all i none) k none
