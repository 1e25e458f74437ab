-- ===== src/Cli.antt =====
-- crates/tekflash/src/cli.rs: what the commands flash, restore and verify do with their options. Printing
-- is left out; the files, the decoders and the tar crate's unpacking are a host of parameters.
pub mod Choices
pub mod Run
pub mod Verify
pub mod Backup
pub mod Manifest
pub mod Archive
pub mod Main
pub mod Flash
use tekflash.Common.{
  ℕ, ◌+◌, ◌*◌, Bool, true, false, not, List, [], ◌∷◌, Option, none, some, Result, ok, err, Text,
  ◌>>=◌, if◌then◌else◌, ◌&&◌,
}
use tekflash.Pipeline.Compress.{Codec, DecoderChoice, decoder}
use tekflash.Pipeline.Compress.Extension.{detect_codec, or_none}
use tekflash.Pipeline.Copy.{CopyError, read_error, write_error, cut_short, Copying, copy}
use tekflash.Pipeline.Format.{detect_by_extension}
use tekflash.Pipeline.Hasher.{HashCrates, blake3, finalize_hex}
use tekflash.Pipeline.Hasher.{new as new_hasher}
use tekflash.Pipeline.Reader.{Reader}
use tekflash.Pipeline.Verify.{
  VerifyError, VerifyOutcome, verify_full, verify_full_by_hash, buffer_size,
}
use tekflash.Pipeline.Verify.Sampled.{VerifyMode}
use tekflash.Pipeline.Writer.{Writer}
use tekflash.Cli.Choices.{VerifyChoice}

-- A command returns, or ends the process with a code.
pub data Ended : Type 0 where
  returned : Ended
  exit : ℕ → Ended

pub data CliError (E : Type 0) : Type 0 where
  io : E → CliError E
  in_verify : VerifyError E → CliError E
  -- The fuel of the model ran out.
  unfinished : CliError E

-- The options that the commands read.
pub record FlashOpts : Type 0 where
  pub source : Option Text
  pub targets : List Text
  pub verify : VerifyChoice
  pub dry_run : Bool

pub record VerifyOpts : Type 0 where
  pub device : Text
  pub against : Option Text
  pub manifest : Option Text

pub record RestoreOpts : Type 0 where
  pub archive : Text
  pub target : Text

-- The files of the host. `reopened` is the target as the verification opens it behind the writes.
pub record CliHost (E : Type 0) : Type 1 where
  pub file : Reader E
  pub decoded : Reader E
  pub device : Writer E
  pub reread : Reader E
  pub open_file : Text → Result E file.State
  pub decode : DecoderChoice → file.State → Result E decoded.State
  pub open_write : Text → Result E device.State
  pub reopened : Text → Option device.State → Result E reread.State
  pub unpack : decoded.State → Text → Result E (Unit {0})

abbrev pub with_io : {E A : Type 0} → Result E A → Result (CliError E) A
with_io (err e) = err (io e)
with_io (ok a) = ok a

abbrev pub some_state : {E S : Type 0} → Result E S → Result E (Option S)
some_state (err e) = err e
some_state (ok s) = ok (some s)

abbrev written_to :
    {E : Type 0} (w : Writer E) → Option w.State → List ℕ → Result E (Option w.State)
written_to w none bytes = ok none
written_to w (some s) bytes = some_state (w.write_all s bytes)

abbrev pub flushed_to : {E : Type 0} (w : Writer E) → Option w.State → Result E (Option w.State)
flushed_to w none = ok none
flushed_to w (some s) = some_state (w.flush s)

abbrev counted_by : {E : Type 0} (w : Writer E) → Option w.State → ℕ
counted_by w none = 0
counted_by w (some s) = w.counted s

-- The destination of a dry run is none, and nothing is written to it.
abbrev pub optional : {E : Type 0} → Writer E → Writer E
optional w = record {
  State = Option w.State;
  write_all = written_to w;
  flush = flushed_to w;
  counted = counted_by w;
}
