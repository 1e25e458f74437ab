-- ===== src/Runner/Session.antt =====
-- `spawn_backup` of crates/tekflash/src/tui/progress_runner.rs, and the polls of the session behind it.
-- The thread's sends are the list of its events; how they fall into the polls is arbitrary.
pub mod Delivery
pub mod Settled
use tekflash.Common.{ℕ, Bool, List, [], ◌∷◌, ◌++◌, Result, ok, err, Text, FilePath}
use tekflash.Pipeline.Hasher.{HashCrates}
use tekflash.Runner.Progress.{
  BackupParams, BackupProgress, BackupEvent, OperationKind, backup, archive, flash, finished,
  failed, poll,
}
use tekflash.Runner.Worker.{Display, WorkerError, to_string, Outcome}
use tekflash.Runner.Backup.{BackupHost, do_backup}
use tekflash.Runner.Flash.{FlashHost, do_flash}
use tekflash.Runner.Archive.Run.{ArchiveHost, do_archive}

pub record SessionHost : Type 1 where
  pub backup_host : BackupHost
  pub flash_host : FlashHost
  pub archive_host : ArchiveHost

-- The bytes read, the hash and the final value of the counter of bytes written.
abbrev pub Summary : Type 0
Summary = ℕ × Text × ℕ

abbrev pub summed :
    {D : Type 0}
    → (D → ℕ)
    → List BackupEvent × Result WorkerError (Outcome D)
    → List BackupEvent × Result WorkerError Summary
summed bytes_out (sent, err e) = (sent, err e)
summed bytes_out (sent, ok out) = (sent, ok (out.bytes_in, out.hash_hex, bytes_out out.dst))

module _ (c : HashCrates) (host : SessionHost) (d : Display) {G : Type 0}
    (is_match : G → FilePath → Bool) (windows : Bool) (due : ℕ → Bool) (due_at : FilePath → Bool)
    (fuel : ℕ) where
  abbrev pub dispatch :
      OperationKind → BackupParams G → List BackupEvent × Result WorkerError Summary
  dispatch backup params =
      summed host.backup_host.sink.counted (do_backup c host.backup_host windows due fuel params)
  dispatch archive params =
      summed host.archive_host.tar.counted
        (do_archive c host.archive_host d is_match due_at fuel params)
  dispatch flash params =
      summed host.flash_host.device.counted (do_flash c host.flash_host d due fuel params)

  -- What the worker of the parameters' kind does.
  unfoldable pub work : BackupParams G → List BackupEvent × Result WorkerError Summary
  unfolding do_backup do_archive do_flash
  work params = dispatch params.kind params

-- The event behind the worker's result, `elapsed` after its start.
unfoldable pub last_event : Display → ℕ → Result WorkerError Summary → BackupEvent
unfolding to_string
last_event d elapsed (ok (bytes_in, hash, bytes_out)) = finished bytes_in bytes_out hash elapsed
last_event d elapsed (err e) = failed (to_string d e)

-- All that goes over the channel.
unfoldable pub spawn_backup :
    Display → ℕ → List BackupEvent × Result WorkerError Summary → List BackupEvent
unfolding last_event
spawn_backup d elapsed (sent, result) = sent ++ last_event d elapsed result ∷ []

-- The polls in order: what has arrived since the last one, and the live counter's value.
unfoldable pub polls :
    {G : Type 0}
    → List BackupEvent
    → List (List BackupEvent × ℕ)
    → BackupProgress G
    → BackupProgress G
unfolding poll
polls waiting [] p = p
polls waiting ((batch, live) ∷ arrivals) p =
    let (q, left, changed) = poll (waiting ++ batch) live p in polls left arrivals q
