-- ===== src/Gui/Worker/Tasks/Restored.antt =====
-- A backup that was stored is written back, and the cameras are closed.
use rcdiscover.Base.{
  Exn, Result-cases, append_assoc, ◌⊎◌, inl, inr, ◌≡◌, refl, ap, ap₂, ◌∙◌, false, List, [], ◌∷◌,
  ◌++◌, Option, none, some, Bytes, All, Result, ok, err, ◌==◌,
}
use rcdiscover.Text.{last_or}
use rcdiscover.Gui.Worker.Backup.{backup_text, split_backup, license_serials}
use rcdiscover.Gui.Worker.Backup.Scan.{IsFirst, IsData}
use rcdiscover.Gui.Worker.Backup.RoundTrip.{text_of, split_backup-backup_text}
use rcdiscover.Gui.Worker.Tasks.{
  alert, Action, opened, closed, renamed, loaded, saved, written, message, System, Nothing, Run,
  ◌>>=◌, ◌>>◌, call, guarded, close_found, open_both, Ended, thread, reset_name_worker,
  store_backup_worker, find_devices, restore, restore_with, restore_valid, restore_parts,
  reset_from_file_worker,
}

-- No call of the two cameras throws, and the file can be written.
pub record Works {D : Type 0} (sys : System D) : Type 0 where
  pub opens : (d : D) → sys.open_device d ≡ ok tt
  pub closes : (d : D) → sys.close_device d ≡ ok tt
  pub resets : (l r : D) → sys.reset_names l r ≡ ok tt
  pub saves : (d : D) (text : Bytes) → sys.save d text ≡ ok tt
  pub writes : (text : Bytes) → sys.write text ≡ ok tt

module _ {D : Type 0} (sys : System D) where
  closing :
      (ldev rdev : D)
      → sys.close_device ldev ≡ ok tt
      → sys.close_device rdev ≡ ok tt
      → (close_found sys (some ldev) >> close_found sys (some rdev))
        ≡ (closed ldev ∷ closed rdev ∷ [], ok tt)
  closing ldev rdev h₁ h₂ = ap₂ (λ a b. call (closed ldev) a >> call (closed rdev) b) h₁ h₂

  opening :
      (ldev rdev : D)
      → Works sys
      → open_both sys ldev rdev ≡ (opened ldev ∷ opened rdev ∷ [], ok tt)
  opening ldev rdev w =
      ap₂ (λ a b. call (opened ldev) a >> call (opened rdev) b) (w.opens ldev) (w.opens rdev)

  -- The thread closes both cameras, whichever call of its body threw.
  thread-closed :
      (ldev rdev : D) (body : Run D Nothing)
      → sys.close_device ldev ≡ ok tt
      → sys.close_device rdev ≡ ok tt
      → (thread sys (some ldev) (some rdev) body).actions
        ≡ (guarded body).0 ++ closed ldev ∷ closed rdev ∷ []
  unfolding thread
  thread-closed ldev rdev (actions, ok u) h₁ h₂ =
      ap (λ m. (guarded (guarded (actions, ok u) >> m)).0) (closing ldev rdev h₁ h₂)
  thread-closed ldev rdev (actions, err e) h₁ h₂ =
      ap (λ m. (guarded (guarded (actions, err e) >> m)).0) (closing ldev rdev h₁ h₂)

  -- How a thread ends: `running` is false, and the last calls are those that close the left and then
  -- the right camera. The right one is not closed if the closing of the left one throws, and an
  -- alert comes last if one of the two throws.
  abbrev pub EndsClosed : D → D → Ended D → Type 0
  EndsClosed ldev rdev e =
      (e.running ≡ false)
      × (actions : List (Action D)) × (((sys.close_device ldev ≡ ok tt)
            × (sys.close_device rdev ≡ ok tt)
            × (e.actions ≡ actions ++ closed ldev ∷ closed rdev ∷ []))
          ⊎ (((sys.close_device ldev ≡ ok tt)
                × (x : Exn) × (sys.close_device rdev ≡ err x)
                × (e.actions ≡ actions ++ closed ldev ∷ closed rdev ∷ alert ∷ []))
              ⊎ ((x : Exn) × (sys.close_device ldev ≡ err x)
                  × (e.actions ≡ actions ++ closed ldev ∷ alert ∷ []))))

  -- The calls that close the cameras throw.
  thread-alert :
      (ldev rdev : D) (body : Run D Nothing) (calls : List (Action D)) (x : Exn)
      → (close_found sys (some ldev) >> close_found sys (some rdev)) ≡ (calls, err x)
      → (thread sys (some ldev) (some rdev) body).actions
        ≡ (guarded body).0 ++ (calls ++ alert ∷ [])
  unfolding thread
  thread-alert ldev rdev (actions, ok u) calls x h =
      ap (λ m. (guarded (guarded (actions, ok u) >> m)).0) h
      ∙ append_assoc actions calls (alert ∷ [])
  thread-alert ldev rdev (actions, err e) calls x h =
      ap (λ m. (guarded (guarded (actions, err e) >> m)).0) h
      ∙ append_assoc (actions ++ alert ∷ []) calls (alert ∷ [])

  thread-EndsClosed :
      (ldev rdev : D) (body : Run D Nothing)
      → EndsClosed ldev rdev (thread sys (some ldev) (some rdev) body)
  unfolding thread
  thread-EndsClosed ldev rdev body = elim (Result-cases (sys.close_device ldev)) [
    | inr (x, e) ↦ (
      refl,
      (guarded body).0,
      inr (
          inr (
            x,
            e,
            thread-alert ldev rdev body _ x
                (ap (λ a. call (closed ldev) a >> call (closed rdev) (sys.close_device rdev)) e),
          )),
    )
    | inl (u, e) ↦ elim (Result-cases (sys.close_device rdev)) [
      | inl (v, f) ↦ (refl, (guarded body).0, inl (e, f, thread-closed ldev rdev body e f))
      | inr (x, f) ↦ (
        refl,
        (guarded body).0,
        inr (
            inl (
              e,
              x,
              f,
              thread-alert ldev rdev body _ x
                  (ap₂ (λ a b. call (closed ldev) a >> call (closed rdev) b) e f),
            )),
      )
    ]
  ]

  -- Whichever calls of the reset of the names or of the backup throw, the thread sets `running` to
  -- false, and its last calls close the left and then the right camera; if the closing of the left
  -- one throws, the right one is not closed, and if the closing of one throws, an alert is shown.
  pub camera_workers-EndsClosed :
      (ldev rdev : D)
      → EndsClosed ldev rdev (reset_name_worker sys ldev rdev)
        × EndsClosed ldev rdev (store_backup_worker sys ldev rdev)
  unfolding reset_name_worker store_backup_worker
  camera_workers-EndsClosed ldev rdev =
      (thread-EndsClosed ldev rdev _, thread-EndsClosed ldev rdev _)

  restore-Works :
      (calib license : Bytes) (ldev rdev : D)
      → Works sys
      → restore sys calib license (some ldev) (some rdev) ≡ (
        opened ldev
            ∷ opened rdev
            ∷ renamed ldev rdev
            ∷ saved ldev calib
            ∷ saved rdev license
            ∷ message
            ∷ [],
        ok tt,
      )
  unfolding restore
  restore-Works calib license ldev rdev w =
      let last = λ (a b c : Result Nothing).
        call (renamed ldev rdev) a
        >> (call (saved ldev calib) b >> (call (saved rdev license) c >> call message (ok tt))) in
      ap (λ m. m >> last (sys.reset_names ldev rdev) (sys.save ldev calib) (sys.save rdev license))
        (opening ldev rdev w)
      ∙ ap
          (λ a.
            (opened ldev ∷ opened rdev ∷ [], ok tt)
            >> last a (sys.save ldev calib) (sys.save rdev license))
          (w.resets ldev rdev)
      ∙ ap₂ (λ b c. (opened ldev ∷ opened rdev ∷ [], ok tt) >> last (ok tt) b c)
          (w.saves ldev calib) (w.saves rdev license)

  restore_with-Works :
      (ilist : List (Bytes → Result (Option D))) (calib license licdata : Bytes) (ldev rdev : D)
      → Works sys
      → find_devices (license_serials licdata).0 (license_serials licdata).1 ilist none none
        ≡ (some ldev, some rdev, ok tt)
      → (restore_with sys ilist calib license licdata).actions
        ≡ opened ldev
          ∷ opened rdev
          ∷ renamed ldev rdev
          ∷ saved ldev calib
          ∷ saved rdev license
          ∷ message
          ∷ closed ldev
          ∷ closed rdev
          ∷ []
  unfolding restore_with
  restore_with-Works ilist calib license licdata ldev rdev w h =
      let body = λ (f : Option D × Option D × Result Nothing).
        ([], f.2) >> restore sys calib license f.0 f.1 in
      let done =
        opened ldev
        ∷ opened rdev
        ∷ renamed ldev rdev
        ∷ saved ldev calib
        ∷ saved rdev license
        ∷ message
        ∷ [] in
      ap (λ f. (thread sys f.0 f.1 (body f)).actions) h
      ∙ ap (λ m. (thread sys (some ldev) (some rdev) (([], ok tt) >> m)).actions)
          (restore-Works calib license ldev rdev w)
      ∙ thread-closed ldev rdev (done, ok tt) (w.closes ldev) (w.closes rdev)

  store_backup_worker-Works :
      (ldev rdev : D) (calib license : Bytes)
      → Works sys
      → sys.load ldev ≡ ok calib
      → sys.load rdev ≡ ok license
      → (store_backup_worker sys ldev rdev).actions
        ≡ opened ldev
          ∷ opened rdev
          ∷ loaded ldev
          ∷ loaded rdev
          ∷ written (backup_text calib license)
          ∷ message
          ∷ closed ldev
          ∷ closed rdev
          ∷ []
  unfolding store_backup_worker thread
  store_backup_worker-Works ldev rdev calib license w h₁ h₂ =
      let last = λ (a b : Result Bytes). (do
        calib' ← call (loaded ldev) a
        license' ← call (loaded rdev) b
        call (written (backup_text calib' license')) (sys.write (backup_text calib' license'))
        call message (ok tt)) in
      thread-closed ldev rdev _ (w.closes ldev) (w.closes rdev)
      ∙ ap
          (λ m.
            (guarded (m >> last (sys.load ldev) (sys.load rdev))).0
            ++ closed ldev ∷ closed rdev ∷ [])
          (opening ldev rdev w)
      ∙ ap₂
          (λ a b.
            (guarded ((opened ldev ∷ opened rdev ∷ [], ok tt) >> last a b)).0
            ++ closed ldev ∷ closed rdev ∷ [])
          h₁ h₂
      ∙ ap
          (λ r.
            (guarded (
              (opened ldev ∷ opened rdev ∷ loaded ldev ∷ loaded rdev ∷ [], ok tt)
              >> (call (written (backup_text calib license)) r >> call message (ok tt)))).0
            ++ closed ldev ∷ closed rdev ∷ [])
          (w.writes (backup_text calib license))

  reset_from_file_worker-Works :
      (verify : Bytes → Result Bytes) (ilist : List (Bytes → Result (Option D)))
      (all calib license licdata : Bytes)
      → split_backup all ≡ some (calib, license)
      → verify license ≡ ok licdata
      → reset_from_file_worker sys verify ilist (ok all)
        ≡ restore_with sys ilist calib license licdata
  unfolding reset_from_file_worker restore_parts restore_valid
  reset_from_file_worker-Works verify ilist all calib license licdata h₁ h₂ =
      ap (restore_parts sys verify ilist) h₁ ∙ ap (restore_valid sys ilist (calib, license)) h₂

-- If no call throws, the storing of a backup writes a file from which the reset, when the license is
-- valid and its two cameras are found, sets the names and writes the calibration back to the left
-- camera and the license back to the right one; both close the cameras in the end. The calibration
-- does not end in a newline, its first line is not empty, and no line of it consists of '=' only.
pub backup-restored :
    {D : Type 0} (sys : System D) (verify : Bytes → Result Bytes)
    (ilist : List (Bytes → Result (Option D))) (ldev rdev : D) (first : Bytes) (lines : List Bytes)
    (license licdata : Bytes)
    → Works sys
    → sys.load ldev ≡ ok (text_of first lines)
    → sys.load rdev ≡ ok license
    → IsFirst first
    → All IsData lines
    → (last_or 0 (text_of first lines) == b'\n') ≡ false
    → verify license ≡ ok licdata
    → find_devices (license_serials licdata).0 (license_serials licdata).1 ilist none none
      ≡ (some ldev, some rdev, ok tt)
    → ((store_backup_worker sys ldev rdev).actions
        ≡ opened ldev
          ∷ opened rdev
          ∷ loaded ldev
          ∷ loaded rdev
          ∷ written (backup_text (text_of first lines) license)
          ∷ message
          ∷ closed ldev
          ∷ closed rdev
          ∷ [])
      × ((reset_from_file_worker sys verify ilist
            (ok (backup_text (text_of first lines) license))).actions
          ≡ opened ldev
            ∷ opened rdev
            ∷ renamed ldev rdev
            ∷ saved ldev (text_of first lines)
            ∷ saved rdev license
            ∷ message
            ∷ closed ldev
            ∷ closed rdev
            ∷ [])
backup-restored sys verify ilist ldev rdev first lines license licdata w h₁ h₂ f fs e v found =
    let calib = text_of first lines in
    let split = (split_backup-backup_text first lines license f fs e).0 in
    (
      store_backup_worker-Works sys ldev rdev calib license w h₁ h₂,
      ap (λ r. r.actions)
            (reset_from_file_worker-Works sys verify ilist (backup_text calib license) calib license
              licdata split v)
          ∙ restore_with-Works sys ilist calib license licdata ldev rdev w found,
    )
