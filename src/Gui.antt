-- ===== src/Gui.antt =====
-- The graphical tool of tools/rcdiscover-gui: the table of devices, the input fields, and what the
-- windows ask devices to do. Widgets are calls of the FLTK library, and are kept where a decision
-- of the program reads them.
pub mod DeviceList
pub mod Inputs
pub mod Windows
pub mod Discovering
pub mod DiscoverWindow
pub mod Config
pub mod Worker
pub mod Layout
pub mod Dialogs
