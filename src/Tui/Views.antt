-- ===== src/Tui/Views.antt =====
-- What the views of crates/tekflash/src/tui/views compute before they draw.
pub mod Spans
pub mod BlockMap
pub mod Figures
pub mod Confirm
pub mod CodecPicker
pub mod Home
pub mod Progress
