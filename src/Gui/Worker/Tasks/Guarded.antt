-- ===== src/Gui/Worker/Tasks/Guarded.antt =====
-- What the threads may do to the cameras, and that they close them on every path.
use rcdiscover.Base.{
  ◌≡◌, refl, ◌⊎◌, inl, inr, List, [], ◌∷◌, Option, none, some, Bytes, All, All-append, Result, ok,
  err,
}
use rcdiscover.Gui.Worker.Backup.{split_backup, license_serials}
use rcdiscover.Gui.Worker.Tasks.{
  Action, opened, closed, renamed, loaded, saved, written, alert, System, Nothing, Run, ◌>>=◌, ◌>>◌,
  call, guarded, close_found, open_both, thread, find_devices, restore, restore_with, restore_valid,
  restore_parts, reset_from_file_worker,
}

module _ {D : Type 0} (P : Action D → Type 0) where
  then-All :
      {A : Type 0} (m : Run D Nothing) (k : Run D A) → All P m.0 → All P k.0 → All P (m >> k).0
  then-All (actions, ok u) k h₁ h₂ = All-append P actions k.0 h₁ h₂
  then-All (actions, err e) k h₁ h₂ = h₁

  call-All :
      {A : Type 0} (action : Action D) (r : Result Nothing) (k : Run D A)
      → P action
      → All P k.0
      → All P (call action r >> k).0
  call-All action r k p h = then-All (call action r) k (p, tt) h

  bind-All :
      {A B : Type 0} (m : Run D A) (f : A → Run D B)
      → All P m.0
      → ((a : A) → m.1 ≡ ok a → All P (f a).0)
      → All P (m >>= f).0
  bind-All (actions, ok a) f h₁ h₂ = All-append P actions (f a).0 h₁ (h₂ a refl)
  bind-All (actions, err e) f h₁ h₂ = h₁

  guarded-All : (body : Run D Nothing) → P alert → All P body.0 → All P (guarded body).0
  guarded-All (actions, ok u) p h = h
  guarded-All (actions, err e) p h = All-append P actions (alert ∷ []) h (p, tt)

  close_found-All :
      (sys : System D) (o : Option D) → ((d : D) → P (closed d)) → All P (close_found sys o).0
  close_found-All sys none h = tt
  close_found-All sys (some d) h = (h d, tt)

  -- A thread adds alerts and closes cameras.
  pub thread-All :
      (sys : System D) (ldev rdev : Option D) (body : Run D Nothing)
      → P alert
      → ((d : D) → P (closed d))
      → All P body.0
      → All P (thread sys ldev rdev body).actions
  unfolding thread
  thread-All sys ldev rdev body p c h =
      let closing = close_found sys ldev >> close_found sys rdev in
      guarded-All (guarded body >> closing) p (
        then-All (guarded body) closing (guarded-All body p h) (
          then-All (close_found sys ldev) (close_found sys rdev) (close_found-All sys ldev c)
            (close_found-All sys rdev c)))

-- A backup file that was read and split, whose license is valid, and the cameras with its serial
-- numbers.
pub record Restores {D : Type 0} (verify : Bytes → Result Bytes)
    (ilist : List (Bytes → Result (Option D))) (file : Result Bytes) : Type 0 where
  pub all : Bytes
  pub calib : Bytes
  pub license : Bytes
  pub licdata : Bytes
  pub ldev : D
  pub rdev : D
  pub read_ok : file ≡ ok all
  pub split_ok : split_backup all ≡ some (calib, license)
  pub valid : verify license ≡ ok licdata
  pub found_left :
      (find_devices (license_serials licdata).0 (license_serials licdata).1 ilist none none).0
      ≡ some ldev
  pub found_right :
      (find_devices (license_serials licdata).0 (license_serials licdata).1 ilist none none).1
      ≡ some rdev

module _ {D : Type 0} (verify : Bytes → Result Bytes) (ilist : List (Bytes → Result (Option D)))
    (file : Result Bytes) where
  -- What the reset from a backup may do.
  abbrev pub IsRestoring : Action D → Type 0
  IsRestoring (opened d) = (r : Restores verify ilist file) × ((d ≡ r.ldev) ⊎ (d ≡ r.rdev))
  IsRestoring (renamed ldev rdev) =
      (r : Restores verify ilist file) × (ldev ≡ r.ldev) × (rdev ≡ r.rdev)
  IsRestoring (saved d text) =
      (r : Restores verify ilist file) × (((d ≡ r.ldev) × (text ≡ r.calib))
        ⊎ ((d ≡ r.rdev) × (text ≡ r.license)))
  IsRestoring (loaded d) = ⊥
  IsRestoring (written text) = ⊥
  IsRestoring action = Unit

  restore-IsRestoring :
      (sys : System D) (r : Restores verify ilist file)
      → All IsRestoring (restore sys r.calib r.license (some r.ldev) (some r.rdev)).0
  unfolding restore
  restore-IsRestoring sys r =
      then-All IsRestoring (open_both sys r.ldev r.rdev) _
        (call-All IsRestoring (opened r.ldev) (sys.open_device r.ldev)
          (call (opened r.rdev) (sys.open_device r.rdev)) (r, inl refl) ((r, inr refl), tt))
        (call-All IsRestoring (renamed r.ldev r.rdev) (sys.reset_names r.ldev r.rdev) _
          (r, refl, refl)
          (call-All IsRestoring (saved r.ldev r.calib) (sys.save r.ldev r.calib) _
            (r, inl (refl, refl))
            (call-All IsRestoring (saved r.rdev r.license) (sys.save r.rdev r.license) _
              (r, inr (refl, refl)) (tt, tt))))

  restore_found-IsRestoring :
      (sys : System D) (all calib license licdata : Bytes) (l r : Option D)
      → file ≡ ok all
      → split_backup all ≡ some (calib, license)
      → verify license ≡ ok licdata
      → (find_devices (license_serials licdata).0 (license_serials licdata).1 ilist none none).0 ≡ l
      → (find_devices (license_serials licdata).0 (license_serials licdata).1 ilist none none).1 ≡ r
      → All IsRestoring (restore sys calib license l r).0
  unfolding restore
  restore_found-IsRestoring sys all calib license licdata none r e₁ e₂ e₃ f₁ f₂ = (tt, tt)
  restore_found-IsRestoring sys all calib license licdata (some l) none e₁ e₂ e₃ f₁ f₂ = (tt, tt)
  restore_found-IsRestoring sys all calib license licdata (some l) (some r) e₁ e₂ e₃ f₁ f₂ =
      restore-IsRestoring sys (record {
        all = all;
        calib = calib;
        license = license;
        licdata = licdata;
        ldev = l;
        rdev = r;
        read_ok = e₁;
        split_ok = e₂;
        valid = e₃;
        found_left = f₁;
        found_right = f₂;
      })

  restore_with-IsRestoring :
      (sys : System D) (all calib license licdata : Bytes)
      → file ≡ ok all
      → split_backup all ≡ some (calib, license)
      → verify license ≡ ok licdata
      → All IsRestoring (restore_with sys ilist calib license licdata).actions
  unfolding restore_with
  restore_with-IsRestoring sys all calib license licdata e₁ e₂ e₃ =
      let sns = license_serials licdata in
      let found = find_devices sns.0 sns.1 ilist none none in
      thread-All IsRestoring sys found.0 found.1 _ tt (λ d. tt)
        (then-All IsRestoring ([], found.2) _ tt
          (restore_found-IsRestoring sys all calib license licdata found.0 found.1 e₁ e₂ e₃ refl
            refl))

  restore_valid-IsRestoring :
      (sys : System D) (all : Bytes) (parts : Bytes × Bytes) (checked : Result Bytes)
      → file ≡ ok all
      → split_backup all ≡ some parts
      → verify parts.1 ≡ checked
      → All IsRestoring (restore_valid sys ilist parts checked).actions
  unfolding restore_valid
  restore_valid-IsRestoring sys all parts (err x) e h h' = (tt, tt)
  restore_valid-IsRestoring sys all parts (ok licdata) e h h' =
      restore_with-IsRestoring sys all parts.0 parts.1 licdata e h h'

  restore_parts-IsRestoring :
      (sys : System D) (all : Bytes) (split : Option (Bytes × Bytes))
      → file ≡ ok all
      → split_backup all ≡ split
      → All IsRestoring (restore_parts sys verify ilist split).actions
  unfolding restore_parts
  restore_parts-IsRestoring sys all none e h = (tt, tt)
  restore_parts-IsRestoring sys all (some parts) e h =
      restore_valid-IsRestoring sys all parts (verify parts.1) e h refl

-- If the reset from a backup file opens, renames or writes to a camera, then the file was read and
-- split, the license in it is valid, and the two cameras with its serial numbers were found; what is
-- written is the calibration, to the left camera, or the license, to the right one. This holds
-- whichever calls throw.
pub reset_from_file_worker-IsRestoring :
    {D : Type 0} (verify : Bytes → Result Bytes) (ilist : List (Bytes → Result (Option D)))
    (file : Result Bytes) (sys : System D)
    → All (IsRestoring verify ilist file) (reset_from_file_worker sys verify ilist file).actions
unfolding reset_from_file_worker
reset_from_file_worker-IsRestoring verify ilist (ok all) sys =
    restore_parts-IsRestoring verify ilist (ok all) sys all (split_backup all) refl refl
reset_from_file_worker-IsRestoring verify ilist (err e) sys = (tt, tt)
