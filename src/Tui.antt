-- ===== src/Tui.antt =====
-- The terminal interface: crates/tekflash/src/tui.
pub mod Action
pub mod Theme
pub mod CodecPicker
pub mod Confirm
pub mod FileBrowser
pub mod App
pub mod Views
