-- ===== src/Runner/Flash.antt =====
-- `do_flash` of crates/tekflash/src/tui/progress_runner.rs, with the readers that it puts between the
-- image's file and the decoder.
pub mod Readers
pub mod Ends
use tekflash.Common.{
  ℕ, ◌+◌, Bool, true, false, List, [], ◌∷◌, ◌++◌, Option, none, some, Result, ok, err, FilePath,
  Text, codes, ◌>>=◌, length,
}
use tekflash.Pipeline.Hasher.{HashCrates, blake3, finalize_hex}
use tekflash.Pipeline.Hasher.{new as new_hasher}
use tekflash.Pipeline.Reader.{Reader}
use tekflash.Pipeline.Writer.{Writer}
use tekflash.Pipeline.Format.{InputFormat, detect, human}
use tekflash.Pipeline.Compress.{DecoderChoice, decoder, from_format}
use tekflash.Pipeline.Copy.{CopyError, read_error, write_error, cut_short, Copying, copy}
use tekflash.Runner.Progress.{BackupEvent, BackupParams, tick}
use tekflash.Runner.Worker.{
  IoError, WorkerError, open_source, peek, init_decoder, open_dest, decode_at, device_write_failed,
  flush_device, unfinished, or_fail, Outcome, byte_tick, Display,
}
use tekflash.Runner.Backup.{buf_bytes}
use tekflash.Runner.Flash.Readers.{counting, chain}

-- The files, and the decoders: `consumed` is the reader that a decoder stands on, `failed_at` the
-- value of the counter at an error of a decoder.
pub record FlashHost : Type 1 where
  pub file : Reader IoError
  pub device : Writer IoError
  pub decoded : Reader IoError
  pub open_file : FilePath → Result IoError file.State
  pub open_write : FilePath → Result IoError device.State
  pub decode : DecoderChoice → (counting (chain file)).State → Result IoError decoded.State
  pub consumed : decoded.State → (counting (chain file)).State
  pub failed_at : IoError → ℕ

module _ (c : HashCrates) (host : FlashHost) (d : Display) where
  abbrev pub Loop : Type 0
  Loop = Copying c host.decoded host.device

  -- The value of the counter round the compressed stream.
  abbrev pub compressed : host.decoded.State → ℕ
  compressed s = (host.consumed s).1

  -- The peek at the head, the format that it shows and the file behind it.
  unfoldable pub peeked :
      {G : Type 0} → BackupParams G → Result WorkerError (List ℕ × host.file.State × InputFormat)
  unfolding detect
  peeked params = do
    src ← or_fail (open_source params.source) (host.open_file params.source)
    (head, file) ← or_fail peek (host.file.read src 16)
    ok (head, file, detect head)

  unfoldable pub announced : {G : Type 0} → BackupParams G → InputFormat → BackupEvent
  unfolding human
  announced params fmt =
      tick 0 0
        (some (codes "source: " ++ d.path params.source ++ codes " (" ++ human fmt ++ codes ")"))
        none

  unfoldable pub opened :
      {G : Type 0}
      → BackupParams G
      → List ℕ
      → host.file.State
      → InputFormat
      → Result WorkerError Loop
  unfolding new_hasher decoder from_format human
  opened params head file fmt = do
    src ←
        or_fail (init_decoder (human fmt))
          (host.decode (decoder (from_format fmt)) ((head, file), 0))
    dst ← or_fail (open_dest params.dest) (host.open_write params.dest)
    ok (record { src = src; dst = dst; hasher = new_hasher c blake3; bytes_in = 0 })

  abbrev pub tick_of : (ℕ → Bool) → Loop → Option BackupEvent
  tick_of due st = byte_tick due st.bytes_in (compressed st.src) (host.device.counted st.dst)

  unfoldable pub flushed :
      Loop → Result IoError host.device.State → Result WorkerError (Outcome host.device.State)
  unfolding finalize_hex
  flushed st (err e) = err (flush_device e)
  flushed st (ok dst) =
      ok (record { bytes_in = compressed st.src; hash_hex = finalize_hex c st.hasher; dst = dst })

  -- What is left to do behind the loop.
  unfoldable pub ended :
      Result (CopyError IoError) Loop → Result WorkerError (Outcome host.device.State)
  unfolding flushed
  ended (err (read_error n e)) = err (decode_at (host.failed_at e) e)
  ended (err (write_error e)) = err (device_write_failed e)
  ended (err cut_short) = err unfinished
  ended (ok st) = flushed st (host.device.flush st.dst)

  -- The compressed offset that the source's code keeps apart is not the loop's own count, which no
  -- read is sized by: a read asks for the whole buffer.
  abbrev pub want : ℕ → Option ℕ
  want offset = some buf_bytes

  abbrev pub forgives : IoError → ℕ → Bool
  forgives e offset = false

  unfoldable pub after_open :
      (ℕ → Bool)
      → ℕ
      → List BackupEvent
      → Result WorkerError Loop
      → List BackupEvent × Result WorkerError (Outcome host.device.State)
  unfolding ended
  after_open due fuel sent (err e) = (sent, err e)
  after_open due fuel sent (ok st) =
      let (sent', result) =
        copy c host.decoded host.device want forgives (tick_of due) fuel st sent in
      (sent', ended result)

  unfoldable pub after_peek :
      {G : Type 0}
      → (ℕ → Bool)
      → ℕ
      → BackupParams G
      → Result WorkerError (List ℕ × host.file.State × InputFormat)
      → List BackupEvent × Result WorkerError (Outcome host.device.State)
  unfolding announced opened after_open
  after_peek due fuel params (err e) = ([], err e)
  after_peek due fuel params (ok (head, file, fmt)) =
      after_open due fuel (announced params fmt ∷ []) (opened params head file fmt)

  -- The events that were sent, and the result.
  unfoldable pub do_flash :
      {G : Type 0}
      → (ℕ → Bool)
      → ℕ
      → BackupParams G
      → List BackupEvent × Result WorkerError (Outcome host.device.State)
  unfolding peeked after_peek
  do_flash due fuel params = after_peek due fuel params (peeked params)
