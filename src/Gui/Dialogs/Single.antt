-- ===== src/Gui/Dialogs/Single.antt =====
-- Each window is made once at most, and none is shown after the main window was closed.
use rcdiscover.Base.{
  ℕ, ◌+◌, ◌≤◌, ◌≡◌, refl, Bool, true, false, Bool-cases, ◌⊎◌, inl, inr, ◌||◌, List, [], ◌∷◌, Option,
  none, some, if-elim, arith,
}
use rcdiscover.Gui.Dialogs.{
  Windows, at_start, show_window, hide_window, Event, do_help, do_set_tmp_ip, do_change_ip_config,
  do_reconnect, do_reset, do_close, hide_help, hide_reset, hide_set_tmp_ip, hide_change_ip_config,
  hide_reconnect, show_reset, close_windows, handle_event, handle_events,
}

abbrev exists_once : Option Bool → ℕ
exists_once none = 0
exists_once (some shown) = 1

-- How many windows there are.
abbrev windows_of : Windows → ℕ
windows_of s =
    exists_once s.help
    + exists_once s.reset
    + exists_once s.set_tmp_ip
    + exists_once s.change_ip_config
    + exists_once s.reconnect

show-exists : (w : Option Bool) → exists_once (show_window w).0 ≡ exists_once w + (show_window w).1
show-exists none = omega arith
show-exists (some b) = omega arith

hide-exists : (w : Option Bool) → exists_once (hide_window w) ≡ exists_once w
hide-exists none = refl
hide-exists (some b) = refl

handle_event-made :
    (e : Event) (s : Windows)
    → s.made ≡ windows_of s
    → (handle_event e s).made ≡ windows_of (handle_event e s)
unfolding handle_event show_reset close_windows
handle_event-made do_help s h = omega (arith, h, show-exists s.help)
handle_event-made do_set_tmp_ip s h = omega (arith, h, show-exists s.set_tmp_ip)
handle_event-made do_change_ip_config s h = omega (arith, h, show-exists s.change_ip_config)
handle_event-made do_reconnect s h = omega (arith, h, show-exists s.reconnect)
handle_event-made (do_reset a b) s h =
    if-elim (λ t. t.made ≡ windows_of t) (a || b) (show_reset s) s
      (λ _. omega (arith, h, show-exists s.reset)) (λ _. h)
handle_event-made (do_close running) s h = omega (
  arith,
  h,
  hide-exists s.help,
  hide-exists s.reset,
  hide-exists s.set_tmp_ip,
  hide-exists s.change_ip_config,
  hide-exists s.reconnect,
)
handle_event-made hide_help s h = omega (arith, h, hide-exists s.help)
handle_event-made hide_reset s h = omega (arith, h, hide-exists s.reset)
handle_event-made hide_set_tmp_ip s h = omega (arith, h, hide-exists s.set_tmp_ip)
handle_event-made hide_change_ip_config s h = omega (arith, h, hide-exists s.change_ip_config)
handle_event-made hide_reconnect s h = omega (arith, h, hide-exists s.reconnect)

handle_events-made :
    (events : List Event) (s : Windows)
    → s.made ≡ windows_of s
    → (handle_events events s).made ≡ windows_of (handle_events events s)
unfolding handle_events
handle_events-made [] s h = h
handle_events-made (e ∷ events) s h =
    handle_events-made events (handle_event e s) (handle_event-made e s h)

exists_once-le : (w : Option Bool) → exists_once w ≤ 1
exists_once-le none = omega arith
exists_once-le (some b) = omega arith

abbrev pub IsHidden : Option Bool → Type 0
IsHidden w = (w ≡ none) ⊎ (w ≡ some false)

hide_window-IsHidden : (w : Option Bool) → IsHidden (hide_window w)
hide_window-IsHidden none = inl refl
hide_window-IsHidden (some b) = inr refl

-- None of the windows is shown, and the main window only while a discovery runs.
pub record AllHidden (running : Bool) (s : Windows) : Type 0 where
  pub help_hidden : IsHidden s.help
  pub reset_hidden : IsHidden s.reset
  pub set_tmp_ip_hidden : IsHidden s.set_tmp_ip
  pub change_ip_config_hidden : IsHidden s.change_ip_config
  pub reconnect_hidden : IsHidden s.reconnect
  pub main_hidden : (running ≡ true) ⊎ (s.main_shown ≡ false)

close_windows-AllHidden :
    (running : Bool) (s : Windows) → AllHidden running (close_windows running s)
unfolding close_windows
close_windows-AllHidden running s = record {
  help_hidden = hide_window-IsHidden s.help;
  reset_hidden = hide_window-IsHidden s.reset;
  set_tmp_ip_hidden = hide_window-IsHidden s.set_tmp_ip;
  change_ip_config_hidden = hide_window-IsHidden s.change_ip_config;
  reconnect_hidden = hide_window-IsHidden s.reconnect;
  main_hidden = elim (Bool-cases running) [ inl t ↦ inl t | inr f ↦ inr (rw (f) refl) ];
}

-- Whatever windows are opened and closed, each of the five windows is made once at most; and when
-- the main window is closed then, none of them is shown, and the main window only if a discovery
-- runs.
pub handle_events-AllHidden :
    (events : List Event) (running : Bool)
    → ((handle_events events at_start).made ≤ 5)
      × AllHidden running (handle_event (do_close running) (handle_events events at_start))
unfolding handle_event
handle_events-AllHidden events running =
    let s = handle_events events at_start in
    (
      omega (
        arith,
        handle_events-made events at_start (omega arith),
        exists_once-le s.help,
        exists_once-le s.reset,
        exists_once-le s.set_tmp_ip,
        exists_once-le s.change_ip_config,
        exists_once-le s.reconnect,
      ),
      close_windows-AllHidden running s,
    )
