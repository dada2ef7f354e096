-- ===== src/Gui/Dialogs/Turning.antt =====
-- The logo has a timer exactly while it spins.
use rcdiscover.Base.{ℕ, suc, ◌≡◌, refl, true, false, ◌⊎◌, inl, inr, if-elim, ap, arith, not}
use rcdiscover.Gui.Dialogs.{
  Logo, new_logo, start_spinning, stop_spinning, next_rotation, timer_cb, delete_logo,
}

-- What happens to a logo: a timer ends only while it waits.
pub data Turns : Logo → Type 0 where
  created : Turns new_logo
  started : {l : Logo} → Turns l → Turns (start_spinning l)
  stopped : {l : Logo} → Turns l → Turns (stop_spinning l)
  fired :
      {l : Logo} (n : ℕ) → l.timers ≡ suc n → Turns l → Turns (timer_cb (record l { timers = n }))

abbrev IsTurning : Logo → Type 0
IsTurning l =
    ((l.spinning ≡ true) × (l.timers ≡ 1))
    ⊎ ((l.spinning ≡ false) × (l.timers ≡ 0) × (l.rotation ≡ 0))

not_spinning : (l : Logo) → IsTurning l → not l.spinning ≡ true → l.timers ≡ 0
not_spinning l (inl (a, b)) n = cc (ap not a)
not_spinning l (inr (a, b, c)) n = b

start_spinning-IsTurning : (l : Logo) → IsTurning l → IsTurning (start_spinning l)
unfolding start_spinning
start_spinning-IsTurning l h =
    if-elim IsTurning (not l.spinning) _ l (λ n. inl (refl, omega (arith, not_spinning l h n)))
      (λ _. h)

stop_spinning-IsTurning : (l : Logo) → IsTurning l → IsTurning (stop_spinning l)
unfolding stop_spinning
stop_spinning-IsTurning l h =
    if-elim IsTurning l.spinning _ l (λ _. inr (refl, refl, refl)) (λ _. h)

fired-IsTurning :
    (l : Logo) (n : ℕ)
    → l.timers ≡ suc n
    → IsTurning l
    → IsTurning (timer_cb (record l { timers = n }))
unfolding timer_cb next_rotation
fired-IsTurning l n e (inl (a, b)) = inl (a, omega (arith, e, b))
fired-IsTurning l n e (inr (a, b, c)) = absurd (omega (arith, e, b))

turning : {l : Logo} → Turns l → IsTurning l
unfolding new_logo
turning created = inr (refl, refl, refl)
turning (started t) = start_spinning-IsTurning _ (turning t)
turning (stopped t) = stop_spinning-IsTurning _ (turning t)
turning (fired n e t) = fired-IsTurning _ n e (turning t)

-- In any order of starts, stops and timer calls, exactly one timer waits while the logo spins, and
-- none otherwise, when the logo stands upright; and no timer waits for a logo that is deleted.
pub Turns-IsTurning :
    {l : Logo}
    → Turns l
    → (((l.spinning ≡ true) × (l.timers ≡ 1))
        ⊎ ((l.spinning ≡ false) × (l.timers ≡ 0) × (l.rotation ≡ 0)))
      × ((delete_logo l).timers ≡ 0)
unfolding delete_logo
Turns-IsTurning t = (turning t, refl)
