-- ===== src/Runner.antt =====
-- The session workers and their progress: crates/tekflash/src/tui/progress_runner.rs.
pub mod Progress
pub mod Worker
pub mod Archive
pub mod Backup
pub mod Flash
pub mod Session
