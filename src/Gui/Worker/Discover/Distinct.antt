-- ===== src/Gui/Worker/Discover/Distinct.antt =====
-- The cameras that `discoverWorker` collects have different serial numbers, or the code stops.
use rcdiscover.Base.{
  or_false, ℕ, zero, suc, ◌≡◌, refl, sym, ◌∙◌, ap, Bool, false, ◌⊎◌, inl, inr, List, [], ◌∷◌, ◌++◌,
  map, some, Bytes, length, text_eq, text_eq_refl, text_eq_trans, if-elim,
}
use rcdiscover.Gui.Worker.{
  Camera, camera_at, has_serial, is_supported_camera, vendor_model, add_cameras, Interface, Alert,
  alert_of, Collected, collect,
}
use rcdiscover.Gui.Worker.Licensed.Total.{IsDistinct}
use rcdiscover.Gui.Worker.Licensed.{is_serial}

-- The new camera stands behind the others.
camera_at-snoc :
    (cs : List Camera) (c d : Camera) (j : ℕ)
    → camera_at (map some (cs ++ c ∷ [])) j ≡ some d
    → (camera_at (map some cs) j ≡ some d) ⊎ ((j ≡ length cs) × (c ≡ d))
camera_at-snoc [] c d zero h = inr (refl, cc)
camera_at-snoc [] c d (suc j) h = cc
camera_at-snoc (b ∷ cs) c d zero h = inl h
camera_at-snoc (b ∷ cs) c d (suc j) h = elim (camera_at-snoc cs c d j h) [
  | inl e ↦ inl e
  | inr (e, f) ↦ inr (ap suc e, f)
]

has_serial-camera_at :
    (sn : Bytes) (cs : List Camera) (j : ℕ) (c : Camera)
    → has_serial sn cs ≡ false
    → camera_at (map some cs) j ≡ some c
    → text_eq c.serial sn ≡ false
unfolding has_serial is_serial
has_serial-camera_at sn [] j c h e = cc
has_serial-camera_at sn (d ∷ cs) zero c h e =
    ap (λ o. is_serial sn o) (sym e) ∙ (or_false (text_eq d.serial sn) (has_serial sn cs) h).0
has_serial-camera_at sn (d ∷ cs) (suc j) c h e =
    has_serial-camera_at sn cs j c (or_false (text_eq d.serial sn) (has_serial sn cs) h).1 e

abbrev Different : List Camera → Type 0
Different cs = IsDistinct (map some cs)

snoc-Different :
    (cs : List Camera) (c : Camera)
    → Different cs
    → has_serial c.serial cs ≡ false
    → Different (cs ++ c ∷ [])
snoc-Different cs c h f i j x y hi hj e = elim (camera_at-snoc cs c x i hi) [
  | inl p ↦ elim (camera_at-snoc cs c y j hj) [
    | inl q ↦ h i j x y p q e
    | inr (q, r) ↦
        cc (e, ap (λ z. text_eq x.serial z.serial) r, has_serial-camera_at c.serial cs i x f p)
  ]
  | inr (p, r) ↦ elim (camera_at-snoc cs c y j hj) [
    | inl q ↦ cc (
      text_eq_trans y.serial y.serial x.serial (text_eq_refl y.serial) e,
      ap (λ z. text_eq y.serial z.serial) r,
      has_serial-camera_at c.serial cs j y f q,
    )
    | inr (q, r') ↦ p ∙ sym q
  ]
]

add_cameras-Different :
    (devices cs : List Camera)
    → Different devices
    → (add_cameras devices cs).1 ≡ false
    → Different (add_cameras devices cs).0
unfolding add_cameras
add_cameras-Different devices [] h = λ e. h
add_cameras-Different devices (c ∷ cs) h =
    let P : List Camera × Bool → Type 0 = λ r. r.1 ≡ false → Different r.0 in
    if-elim P (is_supported_camera vendor_model c) _ _
      (λ _.
        if-elim P (has_serial c.serial devices) _ _ (λ _ e. cc e)
          (λ f. add_cameras-Different (devices ++ c ∷ []) cs (snoc-Different devices c h f)))
      (λ _. add_cameras-Different devices cs h)

pub collect-Different :
    (ilist : List Interface) (devices : List Camera) (alerts : List Alert)
    → Different devices
    → (collect ilist devices alerts).multiple ≡ false
    → Different (collect ilist devices alerts).devices
unfolding collect
collect-Different [] devices alerts h = λ e. h
collect-Different (face ∷ ilist) devices alerts h =
    let P : Collected → Type 0 = λ r. r.multiple ≡ false → Different r.devices in
    let added = add_cameras devices face.cameras in
    if-elim P added.1 _ _ (λ _ e. cc e)
      (λ f.
        collect-Different ilist added.0 (alerts ++ alert_of face.failure)
          (add_cameras-Different devices face.cameras h f))
