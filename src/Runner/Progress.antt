-- ===== src/Runner/Progress.antt =====
-- BackupParams, BackupEvent and BackupProgress of progress_runner.rs. The channel is the list of the
-- events that wait in it; clocks are left out, and the rates in
-- floating point are in Tui/Views/Figures.
pub mod Poll
use tekflash.Common.{
  ℕ, ◌+◌, ◌-◌, ◌%◌, ◌^◌, Bool, true, false, not, List, [], ◌∷◌, Option, none, some, Text, FilePath,
  ◌==◌, if◌then◌else◌,
}
use tekflash.Pipeline.Compress.{Codec, CompressionLevel}
use tekflash.Archive.Selection.{ArchiveSelection}
pub use tekflash.Archive.{ArchiveFormat}

pub data OperationKind : Type 0 where
  backup archive flash : OperationKind

pub record BackupParams (G : Type 0) : Type 0 where
  pub kind : OperationKind
  pub source : FilePath
  pub dest : FilePath
  pub codec : Codec
  pub level : CompressionLevel
  pub total_bytes : Option ℕ
  pub archive_format : ArchiveFormat
  pub archive_selection : Option (ArchiveSelection G)

pub data BackupEvent : Type 0 where
  started : ℕ → BackupEvent
  tick : (bytes_in bytes_out : ℕ) → (current_file current_dir : Option Text) → BackupEvent
  finished : (bytes_in bytes_out : ℕ) → (hash_hex : Text) → (elapsed : ℕ) → BackupEvent
  failed : Text → BackupEvent

pub data BackupStatus : Type 0 where
  running : BackupStatus
  done : (hash_hex : Text) → (elapsed : ℕ) → BackupStatus
  broken : Text → BackupStatus

-- `rate_bytes` is the integer difference that `instant_rate` divides by the time; `joined` says that
-- the worker's handle was taken.
pub record BackupProgress (G : Type 0) : Type 0 where
  pub device_idx : ℕ
  pub params : BackupParams G
  pub bytes_in : ℕ
  pub bytes_out : ℕ
  pub rate_bytes : ℕ
  pub status : BackupStatus
  pub current_file : Option Text
  pub current_dir : Option Text
  pub last_bytes_in_at_tick : ℕ
  pub joined : Bool

-- `BackupProgress::new`, once `spawn_backup` has started the worker.
unfoldable pub new : {G : Type 0} → ℕ → BackupParams G → BackupProgress G
new device_idx params = record {
  device_idx = device_idx;
  params = params;
  bytes_in = 0;
  bytes_out = 0;
  rate_bytes = 0;
  status = running;
  current_file = none;
  current_dir = none;
  last_bytes_in_at_tick = 0;
  joined = false;
}

unfoldable pub is_running : {G : Type 0} → BackupProgress G → Bool
is_running p = elim p.status [ running ↦ true | _ ↦ false ]

abbrev or_last : Option Text → Option Text → Option Text
or_last none last = last
or_last (some t) last = some t

-- What one event does to the state. The difference of two u64 wraps in a release build.
unfoldable pub apply : {G : Type 0} → BackupEvent → BackupProgress G → BackupProgress G
apply (started total_bytes) p = record p {
  params = record (p.params) { total_bytes = some total_bytes };
}
apply (tick bytes_in bytes_out current_file current_dir) p = record p {
  rate_bytes = (bytes_in + 2 ^ 64 - p.last_bytes_in_at_tick) % 2 ^ 64;
  last_bytes_in_at_tick = bytes_in;
  bytes_in = bytes_in;
  bytes_out = bytes_out;
  current_file = or_last current_file p.current_file;
  current_dir = or_last current_dir p.current_dir;
}
apply (finished bytes_in bytes_out hash_hex elapsed) p = record p {
  bytes_in = bytes_in;
  bytes_out = bytes_out;
  status = done hash_hex elapsed;
  joined = true;
}
apply (failed message) p = record p { status = broken message; joined = true }

abbrev pub is_last : BackupEvent → Bool
is_last (started n) = false
is_last (tick i o f d) = false
is_last (finished i o h e) = true
is_last (failed m) = true

-- The loop of `poll`: it ends behind an event that ends the session, or when no event waits. The
-- second part is what still waits, the third whether anything changed.
unfoldable pub drain :
    {G : Type 0}
    → List BackupEvent
    → BackupProgress G
    → Bool
    → BackupProgress G × List BackupEvent × Bool
unfolding apply
drain [] p changed = (p, [], changed)
drain (e ∷ es) p changed =
    let rest = drain es (apply e p) true in if is_last e then (apply e p, es, true) else rest

-- `poll`, with the value of the live byte counter.
unfoldable pub poll :
    {G : Type 0}
    → List BackupEvent
    → ℕ
    → BackupProgress G
    → BackupProgress G × List BackupEvent × Bool
unfolding drain
poll events live p =
    let (q, left, changed) = drain events p false in
    if not (live == q.bytes_out)
    then (record q { bytes_out = live }, left, true)
    else (q, left, changed)
