-- ===== src/Gui/Worker/Tasks.antt =====
-- The threads of tools/rcdiscover-gui/worker.cc that change two cameras or store their backup. The
-- calls of the cameras, the license and the files are parameters, and each of them may throw.
pub mod Guarded
pub mod Restored
use rcdiscover.Base.{
  Bool, true, false, List, [], ◌∷◌, ◌++◌, Option, none, some, Bytes, Exn, Result, ok, err,
}
use rcdiscover.Gui.Worker.Backup.{backup_text, split_backup, license_serials}

-- The calls that the threads make, with a camera each.
pub data Action (D : Type 0) : Type 0 where
  opened closed : D → Action D
  renamed : D → D → Action D
  loaded : D → Action D
  saved : D → Bytes → Action D
  written : Bytes → Action D
  message alert : Action D

abbrev pub Nothing : Type 0
Nothing = Unit

-- What the calls return.
pub record System (D : Type 0) : Type 0 where
  pub open_device : D → Result Nothing
  pub close_device : D → Result Nothing
  pub reset_names : D → D → Result Nothing
  pub load : D → Result Bytes
  pub save : D → Bytes → Result Nothing
  pub write : Bytes → Result Nothing

-- The calls that were made, and how the code ended.
abbrev pub Run : Type 0 → Type 0 → Type 0
Run D A = List (Action D) × Result A

abbrev pub behind : {D A : Type 0} → List (Action D) → Run D A → Run D A
behind actions (more, r) = (actions ++ more, r)

infixl 20 ◌>>=◌ ◌>>◌
abbrev pub ◌>>=◌ : {D A B : Type 0} → Run D A → (A → Run D B) → Run D B
(actions, ok a) >>= f = behind actions (f a)
(actions, err e) >>= f = (actions, err e)

abbrev pub ◌>>◌ : {D A : Type 0} → Run D Nothing → Run D A → Run D A
(actions, ok u) >> m = behind actions m
(actions, err e) >> m = (actions, err e)

abbrev pub call : {D A : Type 0} → Action D → Result A → Run D A
call action r = (action ∷ [], r)

-- `try { body } catch { fl_alert }`.
abbrev pub guarded : {D : Type 0} → Run D Nothing → Run D Nothing
guarded (actions, ok u) = (actions, ok tt)
guarded (actions, err e) = (actions ++ alert ∷ [], ok tt)

-- `if (dev) dev->close()`.
abbrev pub close_found : {D : Type 0} → System D → Option D → Run D Nothing
close_found sys none = ([], ok tt)
close_found sys (some d) = call (closed d) (sys.close_device d)

-- The calls of a thread, and `running` at its end.
pub record Ended (D : Type 0) : Type 0 where
  pub actions : List (Action D)
  pub running : Bool

-- The body, the closing of the cameras, and the outer handler.
unfoldable pub thread : {D : Type 0} → System D → Option D → Option D → Run D Nothing → Ended D
thread sys ldev rdev body =
    let whole = guarded (do guarded body; close_found sys ldev; close_found sys rdev) in
    record { actions = whole.0; running = false }

module _ {D : Type 0} where
  abbrev pub look : (Bytes → Result (Option D)) → Bytes → Option D → Result (Option D)
  look get_device sn (some d) = ok (some d)
  look get_device sn none = get_device sn

  -- `ldev` and `rdev` after the loop over the interfaces, and how it ended.
  unfoldable pub find_devices :
      Bytes
      → Bytes
      → List (Bytes → Result (Option D))
      → Option D
      → Option D
      → Option D × Option D × Result Nothing
  find_devices snleft snright [] ldev rdev = (ldev, rdev, ok tt)
  find_devices snleft snright (get_device ∷ ilist) ldev rdev = elim (look get_device snleft ldev) [
    | err e ↦ (ldev, rdev, err e)
    | ok l ↦ elim (look get_device snright rdev) [
      | err e ↦ (l, rdev, err e)
      | ok r ↦ find_devices snleft snright ilist l r
    ]
  ]

  -- An alert, and the end.
  abbrev pub refused : Ended D
  refused = record { actions = alert ∷ []; running = false }

module _ {D : Type 0} (sys : System D) where
  abbrev open_both : D → D → Run D Nothing
  open_both ldev rdev = do
    call (opened ldev) (sys.open_device ldev)
    call (opened rdev) (sys.open_device rdev)

  unfoldable pub reset_name_worker : D → D → Ended D
  unfolding thread
  reset_name_worker ldev rdev =
      thread sys (some ldev) (some rdev)
        (do open_both ldev rdev; call (renamed ldev rdev) (sys.reset_names ldev rdev))

  unfoldable pub store_backup_worker : D → D → Ended D
  unfolding thread backup_text
  store_backup_worker ldev rdev = thread sys (some ldev) (some rdev) (do
    open_both ldev rdev
    calib ← call (loaded ldev) (sys.load ldev)
    license ← call (loaded rdev) (sys.load rdev)
    call (written (backup_text calib license)) (sys.write (backup_text calib license))
    call message (ok tt))

  unfoldable pub set_calibration_worker : D → Bytes → Ended D
  unfolding thread
  set_calibration_worker ldev calibdata = thread sys (some ldev) none (do
    call (opened ldev) (sys.open_device ldev)
    call (saved ldev calibdata) (sys.save ldev calibdata)
    call message (ok tt))

  -- The names, the calibration and the license, if both cameras were found.
  unfoldable pub restore : Bytes → Bytes → Option D → Option D → Run D Nothing
  restore calib license (some ldev) (some rdev) = do
    open_both ldev rdev
    call (renamed ldev rdev) (sys.reset_names ldev rdev)
    call (saved ldev calib) (sys.save ldev calib)
    call (saved rdev license) (sys.save rdev license)
    call message (ok tt)
  restore calib license ldev rdev = call alert (ok tt)

  unfoldable pub restore_with : List (Bytes → Result (Option D)) → Bytes → Bytes → Bytes → Ended D
  unfolding thread license_serials find_devices restore
  restore_with ilist calib license licdata =
      let sns = license_serials licdata in
      let found = find_devices sns.0 sns.1 ilist none none in
      thread sys found.0 found.1 (do ([], found.2); restore calib license found.0 found.1)

  -- The license in the file is checked by `verify`.
  unfoldable pub restore_valid :
      List (Bytes → Result (Option D)) → Bytes × Bytes → Result Bytes → Ended D
  unfolding restore_with
  restore_valid ilist parts (err e) = refused
  restore_valid ilist parts (ok licdata) = restore_with ilist parts.0 parts.1 licdata

  unfoldable pub restore_parts :
      (Bytes → Result Bytes) → List (Bytes → Result (Option D)) → Option (Bytes × Bytes) → Ended D
  unfolding restore_valid
  restore_parts verify ilist none = refused
  restore_parts verify ilist (some parts) = restore_valid ilist parts (verify parts.1)

  -- The text of the file, if it can be read.
  unfoldable pub reset_from_file_worker :
      (Bytes → Result Bytes) → List (Bytes → Result (Option D)) → Result Bytes → Ended D
  unfolding split_backup restore_parts
  reset_from_file_worker verify ilist (err e) = refused
  reset_from_file_worker verify ilist (ok all) = restore_parts verify ilist (split_backup all)
