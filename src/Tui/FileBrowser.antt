-- ===== src/Tui/FileBrowser.antt =====
-- The in-TUI file browser: crates/tekflash/src/tui/views/file_browser.rs.
pub mod Defs
pub mod Ops
pub mod SaveName
pub mod Order
pub mod Rows
pub mod Kept
pub mod Invariant
pub mod Typing
