-- ===== src/Runner/Archive.antt =====
-- The archive worker of crates/tekflash/src/tui/progress_runner.rs: which entries of a tree it keeps,
-- the size that it computes beforehand, and the walk. The tar builder is another crate's.
pub mod Tree
pub mod Walk
pub mod Run
pub mod Totals
pub mod Reads
pub mod Kept
pub mod Allowed
