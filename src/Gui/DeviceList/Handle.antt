-- ===== src/Gui/DeviceList/Handle.antt =====
-- `DeviceList::handle` of tools/rcdiscover-gui/device_list.cc for a mouse button that is pushed.
use rcdiscover.Base.{ℕ, Bool, true, false, Bytes, Option, none, some, if◌then◌else◌}
use rcdiscover.Gui.DeviceList.{◌>>=◌, DeviceList}
use rcdiscover.Gui.DeviceList.Actions.{remove_highlight, sort_column, get_cell, open_web_gui}

-- The button, where it was pushed, and whether it is the second click there.
pub data MouseButton : Type 0 where
  left_mouse middle_mouse other_mouse : MouseButton

pub data Context : Type 0 where
  cell : (row col : ℕ) → Context
  col_header : ℕ → Context
  elsewhere : Context

pub record Push : Type 0 where
  pub button : MouseButton
  pub context : Context
  pub is_double : Bool

-- The list, the address that is opened in the browser, the text that is copied, the row that is
-- selected where the handler selects one, with `some none` for no row, and whether it returns 1.
pub record Pushed : Type 0 where
  pub list : DeviceList
  pub opened : Option Bytes
  pub copied : Option Bytes
  pub selected : Option (Option ℕ)
  pub is_handled : Bool

abbrev unhandled : DeviceList → Pushed
unhandled s = record { list = s; opened = none; copied = none; selected = none; is_handled = false }

-- The first click on a cell ends the highlighting of new devices.
abbrev pub after_highlight : Context → DeviceList → DeviceList
after_highlight (cell row col) s = remove_highlight s
after_highlight (col_header c) s = s
after_highlight elsewhere s = s

abbrev push_left : Context → Bool → DeviceList → Option Pushed
push_left (cell row col) is_double s =
    if is_double
    then (do
      opened ← open_web_gui s row
      some (record (unhandled s) { opened = opened; is_handled = true }))
    else some (unhandled s)
push_left (col_header c) is_double s = do
  s' ← sort_column s c
  some (record (unhandled s') { is_handled = true })
push_left elsewhere is_double s = some (unhandled s)

abbrev push_middle : Context → DeviceList → Option Pushed
push_middle (cell row col) s = do
  value ← get_cell s row col
  some (record (unhandled s) { copied = some value; selected = some (some row); is_handled = true })
push_middle _ s = some (record (unhandled s) { selected = some none; is_handled = true })

abbrev push_button : MouseButton → Context → Bool → DeviceList → Option Pushed
push_button left_mouse context is_double s = push_left context is_double s
push_button middle_mouse context is_double s = push_middle context s
push_button other_mouse context is_double s = some (unhandled s)

unfoldable pub handle : Push → DeviceList → Option Pushed
handle p s = push_button p.button p.context p.is_double (after_highlight p.context s)
