-- ===== src/Cli.antt =====
-- The command line tools of tools/rcdiscover-cli: selecting devices, printing tables, and the
-- commands that act on devices.
pub mod Filter
pub mod Collect
pub mod Table
pub mod Commands
pub mod Main
