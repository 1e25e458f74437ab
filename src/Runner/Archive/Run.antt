-- ===== src/Runner/Archive/Run.antt =====
-- `do_archive` of crates/tekflash/src/tui/progress_runner.rs: the source is resolved, its size sent,
-- and the tree walked into a new file.
use tekflash.Common.{
  ℕ, Bool, List, [], ◌∷◌, ◌++◌, Option, none, some, Result, ok, err, Text, FilePath, codes,
  starts_with, if◌then◌else◌, ◌>>=◌,
}
use tekflash.Pipeline.Compress.{EncoderChoice, encoder}
use tekflash.Pipeline.Hasher.{HashCrates, blake3, finalize_hex}
use tekflash.Pipeline.Hasher.{new as new_hasher}
use tekflash.Runner.Progress.{BackupEvent, BackupParams, started, tick}
use tekflash.Runner.Worker.{
  Display, IoError, WorkerError, not_directory, not_mounted, finalize_tar, create_dest,
  init_encoder, Outcome, or_fail,
}
use tekflash.Runner.Archive.Tree.{Node, precompute_total_bytes}
use tekflash.Runner.Archive.Walk.{TarHost, Walk, walk_and_archive}

-- The file system, the files and the encoder.
pub record ArchiveHost : Type 1 where
  pub tar : TarHost
  pub is_directory : FilePath → Bool
  pub try_mount : FilePath → Result Text FilePath
  pub tree : FilePath → Node
  pub File : Type 0
  pub create : FilePath → Result IoError File
  pub encode : EncoderChoice → File → Result IoError tar.Builder

module _ (c : HashCrates) (host : ArchiveHost) (d : Display) where
  -- The directory to walk, and what was sent.
  unfoldable pub resolved : FilePath → List BackupEvent × Result WorkerError FilePath
  resolved source =
      if host.is_directory source
      then ([], ok source)
      else if starts_with (d.path source) (codes "/dev/")
      then (
        tick 0 0 (some (codes "mounting " ++ d.path source ++ codes "…")) none ∷ [],
        elim (host.try_mount source) [ err e ↦ err (not_mounted source e) | ok p ↦ ok p ],
      )
      else ([], err (not_directory source))

  unfoldable pub finished :
      Walk c host.tar × Option WorkerError
      → List BackupEvent × Result WorkerError (Outcome host.tar.Builder)
  unfolding finalize_hex
  finished (w, some e) = (w.sent, err e)
  finished (w, none) = (
    w.sent,
    elim (host.tar.finish w.builder) [
      | err e ↦ err (finalize_tar e)
      | ok builder ↦
          ok (record { bytes_in = w.bytes_in; hash_hex = finalize_hex c w.hasher; dst = builder })
    ],
  )

  -- The size is computed, sent and followed by the opening tick; then the files are opened and the
  -- tree is walked.
  unfoldable pub announced :
      {G : Type 0} → (G → FilePath → Bool) → ℕ → BackupParams G → FilePath → List BackupEvent
  unfolding precompute_total_bytes
  announced is_match fuel params source =
      started
        (precompute_total_bytes is_match params.archive_selection fuel source (host.tree source))
      ∷ tick 0 0 (some (codes "opening " ++ d.path source)) none
      ∷ []

  unfoldable pub opened : {G : Type 0} → BackupParams G → Result WorkerError host.tar.Builder
  opened params = do
    dst ← or_fail (create_dest params.dest) (host.create params.dest)
    or_fail init_encoder (host.encode (encoder params.codec params.level) dst)

  abbrev pub start : host.tar.Builder → List BackupEvent → Walk c host.tar
  start builder sent = record {
    builder = builder;
    hasher = new_hasher c blake3;
    bytes_in = 0;
    sent = sent;
  }

  unfoldable pub after_open :
      {G : Type 0}
      → (G → FilePath → Bool)
      → (FilePath → Bool)
      → BackupParams G
      → FilePath
      → List BackupEvent
      → Result WorkerError host.tar.Builder
      → List BackupEvent × Result WorkerError (Outcome host.tar.Builder)
  unfolding walk_and_archive finished new_hasher
  after_open is_match due params source sent (err e) = (sent, err e)
  after_open is_match due params source sent (ok builder) = finished (
      walk_and_archive c host.tar d is_match params.archive_selection due source source
        (host.tree source) (start builder sent))

  unfoldable pub after_resolve :
      {G : Type 0}
      → (G → FilePath → Bool)
      → (FilePath → Bool)
      → ℕ
      → BackupParams G
      → List BackupEvent × Result WorkerError FilePath
      → List BackupEvent × Result WorkerError (Outcome host.tar.Builder)
  unfolding announced opened after_open
  after_resolve is_match due fuel params (sent, err e) = (sent, err e)
  after_resolve is_match due fuel params (sent, ok source) =
      after_open is_match due params source (sent ++ announced is_match fuel params source)
        (opened params)

  -- The events that were sent, and the result.
  unfoldable pub do_archive :
      {G : Type 0}
      → (G → FilePath → Bool)
      → (FilePath → Bool)
      → ℕ
      → BackupParams G
      → List BackupEvent × Result WorkerError (Outcome host.tar.Builder)
  unfolding resolved after_resolve
  do_archive is_match due fuel params =
      after_resolve is_match due fuel params (resolved params.source)
