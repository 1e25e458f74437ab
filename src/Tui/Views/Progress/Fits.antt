-- ===== src/Tui/Views/Progress/Fits.antt =====
-- What crates/tekflash/src/tui/views/progress.rs fits into its area.
use tekflash.Common.{ℕ, ◌+◌, ◌≤◌, ◌≡◌, ◌↔◌, true, Text, FilePath, length, length-append, arith}
use tekflash.Runner.Progress.{BackupProgress, BackupStatus, running, done, broken, OperationKind}
use tekflash.Tui.Theme.{Theme}
use tekflash.Tui.Views.Figures.{F64}
use tekflash.Tui.Views.Progress.{
  current_lines, hash_lines, stream_lines, throughput_lines, shows_map, map_h,
}

module _ {G : Type 0} (theme : Theme) (p : BackupProgress G) where
  current_lines-le : (k : OperationKind) → length (current_lines theme p k) ≤ 1
  current_lines-le OperationKind.backup = omega arith
  current_lines-le OperationKind.archive = omega arith
  current_lines-le OperationKind.flash = omega arith

  hash_lines-le : (s : BackupStatus) → length (hash_lines theme p s) ≤ 1
  hash_lines-le running = omega arith
  hash_lines-le (done h e) = omega arith
  hash_lines-le (broken m) = omega arith

  -- In every state of a session each of the two panels of figures has a row for all of its lines: its
  -- eleven rows hold a border above and below.
  pub panels-fit :
      (f : F64) (display : FilePath → Text) (instant_rate : f.Double) (since_start : ℕ)
      → (length (stream_lines theme p f display) + 2 ≤ 11)
        × (length (throughput_lines theme p f instant_rate since_start) + 2 ≤ 11)
  unfolding stream_lines throughput_lines
  panels-fit f display instant_rate since_start =
      let more =
        length-append (current_lines theme p p.params.kind) (hash_lines theme p p.status) in
      (omega (arith, more, current_lines-le p.params.kind, hash_lines-le p.status), omega arith)

-- The block map is shown where the area has 25 rows or more.
pub shows_map_iff : (height : ℕ) → ((shows_map height ≡ true) ↔ (25 ≤ height))
unfolding shows_map map_h
shows_map_iff height = (λ h. ground arith, λ h. ground arith)
