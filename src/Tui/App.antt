-- ===== src/Tui/App.antt =====
-- crates/tekflash/src/tui/mod.rs: the state of the interface and its keys.
pub mod State
pub mod Keys
pub mod Pickers
pub mod Browsing
pub mod Dispatch
pub mod Routing
pub mod Sessions
pub mod Modals
pub mod Screen
pub mod Devices
pub mod Flashing
