-- ===== src/Runner/Worker.antt =====
-- What the workers of crates/tekflash/src/tui/progress_runner.rs share: their errors, their result
-- and the message of a failure.
use tekflash.Common.{
  ℕ, Bool, true, false, [], ◌++◌, Option, none, some, Result, ok, err, Text, FilePath, codes,
  ok_inj, ap, ◌≡◌,
}
use tekflash.Runner.Progress.{BackupEvent, tick}

-- The kinds of `std::io::Error` that the program tells apart.
pub data ErrorKind : Type 0 where
  unexpected_eof permission_denied not_found other : ErrorKind

pub record IoError : Type 0 where
  pub kind : ErrorKind
  pub raw_os_error : Option ℕ
  pub message : Text

-- `Display` of the standard library, for a number, an error's kind and a path.
pub record Display : Type 0 where
  pub number : ℕ → Text
  pub kind : ErrorKind → Text
  pub path : FilePath → Text

pub data WorkerError : Type 0 where
  open_source create_dest open_dest : FilePath → IoError → WorkerError
  init_encoder peek flush_device : IoError → WorkerError
  init_decoder : Text → IoError → WorkerError
  read_at decode_at : ℕ → IoError → WorkerError
  write_failed device_write_failed : IoError → WorkerError
  not_directory : FilePath → WorkerError
  not_mounted : FilePath → Text → WorkerError
  stat read_dir open_entry append_dir append_symlink append_data : FilePath → IoError → WorkerError
  finalize_tar : IoError → WorkerError
  -- The fuel of the model ran out.
  unfinished : WorkerError

-- The text that `to_string` makes of the report.
unfoldable pub to_string : Display → WorkerError → Text
to_string d (open_source p e) = codes "open source " ++ d.path p ++ codes ": " ++ e.message
to_string d (create_dest p e) = codes "create dest " ++ d.path p ++ codes ": " ++ e.message
to_string d (open_dest p e) = codes "open dest " ++ d.path p ++ codes ": " ++ e.message
to_string d (init_encoder e) = codes "init encoder: " ++ e.message
to_string d (peek e) = codes "peek source: " ++ e.message
to_string d (flush_device e) = codes "flush device: " ++ e.message
to_string d (init_decoder f e) = codes "init decoder for " ++ f ++ codes ": " ++ e.message
to_string d (read_at n e) = codes "read at offset " ++ d.number n ++ codes ": " ++ e.message
to_string d (decode_at n e) =
    codes "decode at compressed offset " ++ d.number n ++ codes ": " ++ e.message
to_string d (write_failed e) = codes "write: " ++ e.message
to_string d (device_write_failed e) = codes "write to device: " ++ e.message
to_string d (not_directory p) =
    codes "source " ++ d.path p ++ codes " is not a directory; archive needs a mounted filesystem"
to_string d (not_mounted p e) =
    codes "source " ++ d.path p ++ codes " isn't a directory and could not be mounted: " ++ e
to_string d (stat p e) = codes "stat " ++ d.path p ++ codes ": " ++ e.message
to_string d (read_dir p e) = codes "read_dir " ++ d.path p ++ codes ": " ++ e.message
to_string d (open_entry p e) = codes "open file " ++ d.path p ++ codes ": " ++ e.message
to_string d (append_dir p e) = codes "append_dir " ++ d.path p ++ codes ": " ++ e.message
to_string d (append_symlink p e) = codes "append_symlink " ++ d.path p ++ codes ": " ++ e.message
to_string d (append_data p e) = codes "append_data " ++ d.path p ++ codes ": " ++ e.message
to_string d (finalize_tar e) = codes "finalize tar: " ++ e.message
to_string d unfinished = []

-- `map_err` and `?`.
abbrev pub or_fail : {E X A : Type 0} → (E → X) → Result E A → Result X A
or_fail f (err e) = err (f e)
or_fail f (ok a) = ok a

pub or_fail_eq_ok :
    {E X A : Type 0} (f : E → X) (res : Result E A) {a : A} → or_fail f res ≡ ok a → res ≡ ok a
or_fail_eq_ok f (err e) h = cc
or_fail_eq_ok f (ok a) h = ap ok (ok_inj h)

-- What a worker returns, with the destination as it leaves it.
pub record Outcome (D : Type 0) : Type 0 where
  pub bytes_in : ℕ
  pub hash_hex : Text
  pub dst : D

-- The two tests that decide whether the clock of the loop has run for the tick's interval come as
-- `due`, by the number of bytes that were read.
unfoldable pub byte_tick : (due : ℕ → Bool) → (offset bytes_in bytes_out : ℕ) → Option BackupEvent
byte_tick due offset bytes_in bytes_out = elim (due offset) [
  | true ↦ some (tick bytes_in bytes_out none none)
  | false ↦ none
]
