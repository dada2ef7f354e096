-- ===== src/Gui/Dialogs.antt =====
-- The windows of tools/rcdiscover-gui that exist once at most, and the logo that turns while a
-- discovery runs, of logo.cc there.
pub mod Single
pub mod Turning
use rcdiscover.Base.{
  ℕ, zero, suc, ◌+◌, Bool, true, false, not, ◌||◌, List, [], ◌∷◌, Option, none, some, if◌then◌else◌,
}

-- The variable `win` of each window: none before the window is made, then whether it is shown.
-- `main_shown` is that of the main window, and `made` counts the windows that were made.
pub record Windows : Type 0 where
  pub help : Option Bool
  pub reset : Option Bool
  pub set_tmp_ip : Option Bool
  pub change_ip_config : Option Bool
  pub reconnect : Option Bool
  pub main_shown : Bool
  pub made : ℕ

abbrev pub at_start : Windows
at_start = record {
  help = none;
  reset = none;
  set_tmp_ip = none;
  change_ip_config = none;
  reconnect = none;
  main_shown = true;
  made = 0;
}

-- `showWindow`: the variable afterwards, and how many windows it makes.
abbrev pub show_window : Option Bool → Option Bool × ℕ
show_window none = (some true, 1)
show_window (some shown) = (some true, 0)

abbrev pub hide_window : Option Bool → Option Bool
hide_window none = none
hide_window (some shown) = some false

pub data Event : Type 0 where
  do_help do_set_tmp_ip do_change_ip_config do_reconnect : Event
  do_reset : (is_rc_visard_selected no_mac : Bool) → Event
  do_close : (running : Bool) → Event
  hide_help hide_reset hide_set_tmp_ip hide_change_ip_config hide_reconnect : Event

unfoldable pub show_reset : Windows → Windows
show_reset s = record s { reset = (show_window s.reset).0; made = s.made + (show_window s.reset).1 }

-- `DiscoverWindow::doClose`.
unfoldable pub close_windows : Bool → Windows → Windows
close_windows running s = record s {
  main_shown = if not running then false else s.main_shown;
  help = hide_window s.help;
  reset = hide_window s.reset;
  set_tmp_ip = hide_window s.set_tmp_ip;
  change_ip_config = hide_window s.change_ip_config;
  reconnect = hide_window s.reconnect;
}

-- What the main window and the windows themselves do.
unfoldable pub handle_event : Event → Windows → Windows
unfolding show_reset close_windows
handle_event do_help s = record s {
  help = (show_window s.help).0;
  made = s.made + (show_window s.help).1;
}
handle_event (do_reset is_rc_visard_selected no_mac) s =
    if is_rc_visard_selected || no_mac then show_reset s else s
handle_event do_set_tmp_ip s = record s {
  set_tmp_ip = (show_window s.set_tmp_ip).0;
  made = s.made + (show_window s.set_tmp_ip).1;
}
handle_event do_change_ip_config s = record s {
  change_ip_config = (show_window s.change_ip_config).0;
  made = s.made + (show_window s.change_ip_config).1;
}
handle_event do_reconnect s = record s {
  reconnect = (show_window s.reconnect).0;
  made = s.made + (show_window s.reconnect).1;
}
handle_event (do_close running) s = close_windows running s
handle_event hide_help s = record s { help = hide_window s.help }
handle_event hide_reset s = record s { reset = hide_window s.reset }
handle_event hide_set_tmp_ip s = record s { set_tmp_ip = hide_window s.set_tmp_ip }
handle_event hide_change_ip_config s = record s {
  change_ip_config = hide_window s.change_ip_config;
}
handle_event hide_reconnect s = record s { reconnect = hide_window s.reconnect }

unfoldable pub handle_events : List Event → Windows → Windows
unfolding handle_event
handle_events [] s = s
handle_events (e ∷ events) s = handle_events events (handle_event e s)

-- The logo: `rotation` in steps of 0.157, and how many of its timers are waiting.
pub record Logo : Type 0 where
  pub spinning : Bool
  pub rotation : ℕ
  pub timers : ℕ

unfoldable pub new_logo : Logo
new_logo = record { spinning = false; rotation = 0; timers = 0 }

unfoldable pub start_spinning : Logo → Logo
start_spinning l = if not l.spinning then record l { spinning = true; timers = l.timers + 1 } else l

unfoldable pub stop_spinning : Logo → Logo
stop_spinning l = if l.spinning then record l { timers = 0; spinning = false; rotation = 0 } else l

unfoldable pub next_rotation : Logo → Logo
next_rotation l = record l { rotation = l.rotation + 1 }

-- `timerCb`, which is called when a timer that waited has ended, and starts it again.
unfoldable pub timer_cb : Logo → Logo
unfolding next_rotation
timer_cb l = let l' = next_rotation l in record l' { timers = l'.timers + 1 }

-- `Logo::~Logo` removes the timers.
unfoldable pub delete_logo : Logo → Logo
delete_logo l = record l { timers = 0 }
