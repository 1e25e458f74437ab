-- ===== src/Runner/Backup.antt =====
-- `do_backup` and `is_end_of_device_error` of crates/tekflash/src/tui/progress_runner.rs. The source,
-- the destination's file and the encoder round it are parameters.
pub mod Limit
pub mod Ends
use tekflash.Common.{
  ℕ, ◌+◌, ◌-◌, ◌*◌, Bool, true, false, List, [], ◌∷◌, Option, none, some, Result, ok, err, FilePath,
  leb, ◌==◌, ◌||◌, min, if◌then◌else◌, ◌>>=◌, ◌<◌, ◌≡◌, arith,
}
use tekflash.Pipeline.Hasher.{HashCrates, blake3, finalize_hex}
use tekflash.Pipeline.Hasher.{new as new_hasher}
use tekflash.Pipeline.Reader.{Reader}
use tekflash.Pipeline.Writer.{Writer}
use tekflash.Pipeline.Compress.{EncoderChoice, encoder}
use tekflash.Pipeline.Copy.{CopyError, read_error, write_error, cut_short, Copying, copy}
use tekflash.Runner.Progress.{BackupEvent, BackupParams}
use tekflash.Runner.Worker.{
  IoError, ErrorKind, unexpected_eof, WorkerError, open_source, create_dest, init_encoder, read_at,
  write_failed, unfinished, or_fail, Outcome, byte_tick,
}

abbrev pub buf_bytes : ℕ
buf_bytes = 8 * 1024 * 1024

abbrev pub is_unexpected_eof : ErrorKind → Bool
is_unexpected_eof unexpected_eof = true
is_unexpected_eof _ = false

-- The codes of Windows for the end of a device.
abbrev pub is_end_code : Option ℕ → Bool
is_end_code none = false
is_end_code (some code) = code == 23 || code == 27 || code == 38 || code == 87

abbrev pub near_end : ℕ → Option ℕ → ℕ → Bool
near_end bytes_in none slack = true
near_end bytes_in (some t) slack = leb t (bytes_in + slack)

-- `windows` is the target of the build.
unfoldable pub is_end_of_device_error : (windows : Bool) → IoError → ℕ → Option ℕ → ℕ → Bool
is_end_of_device_error windows e bytes_in total_bytes slack =
    if near_end bytes_in total_bytes slack
    then (if windows
        then (if is_end_code e.raw_os_error then true else is_unexpected_eof e.kind)
        else is_unexpected_eof e.kind)
    else false

abbrev pub forgives : Bool → Option ℕ → IoError → ℕ → Bool
forgives windows total e bytes_in = is_end_of_device_error windows e bytes_in total buf_bytes

-- How much to read at an offset; `none` ends the loop.
unfoldable pub to_read : Option ℕ → ℕ → Option ℕ
to_read none bytes_in = some buf_bytes
to_read (some t) bytes_in = if leb t bytes_in then none else some (min (t - bytes_in) buf_bytes)

-- The files and the encoder. `drop_encoder` writes what the encoder still holds, and its errors are
-- lost.
pub record BackupHost : Type 1 where
  pub source : Reader IoError
  pub File : Type 0
  pub sink : Writer IoError
  pub open_fast_read : FilePath → Result IoError source.State
  pub create : FilePath → Result IoError File
  pub encode : EncoderChoice → File → Result IoError sink.State
  pub drop_encoder : sink.State → sink.State

module _ (c : HashCrates) (host : BackupHost) where
  abbrev pub Loop : Type 0
  Loop = Copying c host.source host.sink

  unfoldable pub opened : {G : Type 0} → BackupParams G → Result WorkerError Loop
  unfolding new_hasher
  opened params = do
    src ← or_fail (open_source params.source) (host.open_fast_read params.source)
    file ← or_fail (create_dest params.dest) (host.create params.dest)
    dst ← or_fail init_encoder (host.encode (encoder params.codec params.level) file)
    ok (record { src = src; dst = dst; hasher = new_hasher c blake3; bytes_in = 0 })

  abbrev pub tick_of : (ℕ → Bool) → Loop → Option BackupEvent
  tick_of due st = byte_tick due st.bytes_in st.bytes_in (host.sink.counted st.dst)

  -- What is left to do behind the loop.
  unfoldable pub ended :
      Result (CopyError IoError) Loop → Result WorkerError (Outcome host.sink.State)
  unfolding finalize_hex
  ended (err (read_error n e)) = err (read_at n e)
  ended (err (write_error e)) = err (write_failed e)
  ended (err cut_short) = err unfinished
  ended (ok st) = ok (record {
    bytes_in = st.bytes_in;
    hash_hex = finalize_hex c st.hasher;
    dst = host.drop_encoder st.dst;
  })

  -- The loop and what is behind it, on the files that were opened.
  unfoldable pub after_open :
      Bool
      → (ℕ → Bool)
      → ℕ
      → Option ℕ
      → Result WorkerError Loop
      → List BackupEvent × Result WorkerError (Outcome host.sink.State)
  unfolding ended
  after_open windows due fuel total (err e) = ([], err e)
  after_open windows due fuel total (ok st) =
      let (sent, result) =
        copy c host.source host.sink (to_read total) (forgives windows total) (tick_of due) fuel st
          [] in
      (sent, ended result)

  -- The events that were sent, and the result.
  unfoldable pub do_backup :
      {G : Type 0}
      → Bool
      → (ℕ → Bool)
      → ℕ
      → BackupParams G
      → List BackupEvent × Result WorkerError (Outcome host.sink.State)
  unfolding opened after_open
  do_backup windows due fuel params = after_open windows due fuel params.total_bytes (opened params)
