-- ===== src/Gui/Worker/Pairing.antt =====
-- The search for pairs of cameras by their names in `discoverWorker`. `none` is a call on a pointer
-- that was reset.
pub mod Names
pub mod Total
use rcdiscover.Base.{
  ℕ, zero, suc, ◌+◌, Bool, true, false, not, ◌&&◌, ◌||◌, List, [], ◌∷◌, ◌++◌, Option, none, some,
  Bytes, codes, is_empty, length, text_eq, ◌==◌, if◌then◌else◌, bind_option,
}
use rcdiscover.Gui.DeviceList.{◌>>=◌}
use rcdiscover.Text.{last_or}
use rcdiscover.Gui.Worker.{
  Camera, Checks, Row, Message, names_not_unique, different_models, Search, camera_at, reset_pair,
}

-- The name of a pointer: the user's, or the displayed one.
unfoldable pub name_of : Option Camera → Bytes
name_of none = []
name_of (some c) = if is_empty c.user_name then c.display_name else c.user_name

-- The text without its last character.
abbrev pub front : Bytes → Bytes
front [] = []
front (c ∷ []) = []
front (c ∷ d ∷ s) = c ∷ front (d ∷ s)

-- `lname.size() >= 1 && lname.back() == 'L'`.
unfoldable pub is_left : Bytes → Bool
is_left lname = not (is_empty lname) && last_or 0 lname == b'L'

-- The two names differ in the last character, which is R in the second one.
unfoldable pub is_partner : Bytes → Bytes → Bool
unfolding text_eq
is_partner lname rname =
    length lname == length rname && last_or 0 rname == b'R' && text_eq (front lname) (front rname)

-- The loop over `j`, from the pointer number `j` on: another camera has one of the names.
unfoldable pub has_namesake : ℕ → ℕ → Bytes → Bytes → ℕ → List (Option Camera) → Bool
unfolding text_eq
has_namesake i k lname rname j [] = false
has_namesake i k lname rname j (none ∷ all) = has_namesake i k lname rname (suc j) all
has_namesake i k lname rname j (some c ∷ all) =
    (not (j == i)
      && not (j == k)
      && (text_eq (name_of (some c)) lname || text_eq (name_of (some c)) rname))
    || has_namesake i k lname rname (suc j) all

abbrev pub is_ok_or_unread : Bytes → Bool
is_ok_or_unread s = text_eq s (codes "ok") || text_eq s (codes "no access")

abbrev pub is_unread : Bytes → Bool
is_unread s = text_eq s (codes "no access") || text_eq s (codes "no nodemap")

-- The flags for the status of a pair.
unfoldable pub judge : Bytes → Bytes → Search → Search
unfolding text_eq
judge calib license s =
    if not (is_ok_or_unread calib) || not (is_ok_or_unread license)
    then (if is_unread calib && is_unread license
        then record s { noaccess = true }
        else record s { misconfigured = true })
    else s

-- A pair with the name of the left camera without its last character.
unfoldable pub add_row : ℕ → ℕ → Bytes → Camera → Camera → Bytes → Bytes → Search → Search
unfolding judge
add_row i k lname left right calib license s =
    let s' = judge calib license s in
    record s' {
      all = reset_pair s.all i k;
      rows =
          s.rows
          ++ (record {
            name = front lname;
            left = left;
            right = right;
            calib_status = calib;
            license_status = license;
          })
            ∷ [];
    }

-- The row is added if both statuses can be read.
unfoldable pub add_status :
    ℕ → ℕ → Bytes → Camera → Camera → Option Bytes → Option Bytes → Search → Search
unfolding add_row
add_status i k lname left right none license s = record s { failed = true }
add_status i k lname left right (some calib) none s = record s { failed = true }
add_status i k lname left right (some calib) (some license) s =
    add_row i k lname left right calib license s

unfoldable pub add_pair : Checks → ℕ → ℕ → Bytes → Camera → Camera → Search → Search
unfolding add_status
add_pair checks i k lname left right s =
    add_status i k lname left right (checks.calibration_status left)
      (checks.license_status left right) s

-- The cameras `i` and `k`, whose names belong together.
unfoldable pub try_pair : Checks → ℕ → ℕ → Bytes → Camera → Camera → Search → Search
unfolding text_eq has_namesake add_pair
try_pair checks i k lname left right s =
    if text_eq left.model right.model
    then (if has_namesake i k lname (name_of (some right)) 0 s.all
        then record s { buffer = some (names_not_unique left right) }
        else add_pair checks i k lname left right s)
    else record s { buffer = some (different_models left right) }

-- The body of the loop over `k`, which nothing reaches behind an exception.
unfoldable pub match_with : Checks → ℕ → Bytes → ℕ → Search → Option Search
unfolding try_pair
match_with checks i lname k s =
    if not s.failed && is_partner lname (name_of (camera_at s.all k))
    then (do
      left ← camera_at s.all i
      right ← camera_at s.all k
      some (try_pair checks i k lname left right s))
    else some s

-- The loop over `k`, with `n` values left.
unfoldable pub match_all : Checks → ℕ → Bytes → ℕ → ℕ → Search → Option Search
unfolding match_with
match_all checks i lname k zero s = some s
match_all checks i lname k (suc n) s = do
  s' ← match_with checks i lname k s
  match_all checks i lname (suc k) n s'

-- The loop over `i`, with `n` values left; `all` keeps its length.
unfoldable pub pair_all : Checks → ℕ → ℕ → Search → Option Search
unfolding match_all
pair_all checks i zero s = some s
pair_all checks i (suc n) s = do
  s' ←
      (if is_left (name_of (camera_at s.all i))
        then match_all checks i (name_of (camera_at s.all i)) 0 (length s.all) s
        else some s)
  pair_all checks (suc i) n s'
