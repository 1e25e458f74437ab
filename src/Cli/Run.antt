-- ===== src/Cli/Run.antt =====
-- `run_flash`, `run_restore` and `run_verify` of crates/tekflash/src/cli.rs.
use tekflash.Common.{
  ℕ, ◌*◌, ◌≡◌, ap, ok_inj, Bool, true, false, not, List, [], ◌∷◌, Option, none, some, Result, ok,
  err, Text, ◌>>=◌, if◌then◌else◌, ◌&&◌,
}
use tekflash.Pipeline.Compress.{Codec, decoder}
use tekflash.Pipeline.Compress.Extension.{detect_codec, or_none}
use tekflash.Pipeline.Copy.{CopyError, read_error, write_error, cut_short, Copying, copy}
use tekflash.Pipeline.Format.{detect_by_extension}
use tekflash.Pipeline.Hasher.{HashCrates, blake3, finalize_hex}
use tekflash.Pipeline.Hasher.{new as new_hasher}
use tekflash.Pipeline.Verify.{
  VerifyError, VerifyOutcome, verify_full, verify_full_by_hash, buffer_size,
}
use tekflash.Pipeline.Verify.Sampled.{VerifyMode}
use tekflash.Cli.{
  Ended, returned, exit, CliError, io, in_verify, unfinished, FlashOpts, VerifyOpts, RestoreOpts,
  CliHost, with_io, optional,
}
use tekflash.Cli.Choices.{verify_mode}

abbrev is_full : VerifyMode → Bool
is_full VerifyMode.full = true
is_full _ = false

abbrev pub checked : {E : Type 0} → Result (VerifyError E) VerifyOutcome → Result (CliError E) Ended
checked (err e) = err (in_verify e)
checked (ok outcome) = if outcome.passed then ok returned else ok (exit 1)

abbrev pub looped : {E S : Type 0} → Result (CopyError E) S → Result (CliError E) S
looped (err (read_error n e)) = err (io e)
looped (err (write_error e)) = err (io e)
looped (err cut_short) = err unfinished
looped (ok st) = ok st

pub with_io_eq_ok : {E A : Type 0} (res : Result E A) {a : A} → with_io res ≡ ok a → res ≡ ok a
with_io_eq_ok (err e) h = cc
with_io_eq_ok (ok a) h = ap ok (ok_inj h)

pub looped_eq_ok :
    {E S : Type 0} (res : Result (CopyError E) S) {s : S} → looped res ≡ ok s → res ≡ ok s
looped_eq_ok (err (read_error n e)) h = cc
looped_eq_ok (err (write_error e)) h = cc
looped_eq_ok (err cut_short) h = cc
looped_eq_ok (ok s) h = ap ok (ok_inj h)

module _ {E : Type 0} (c : HashCrates) (host : CliHost E) (fuel : ℕ) where
  abbrev pub Loop : Type 0
  Loop = Copying c host.decoded (optional host.device)

  abbrev pub cli_buf : ℕ → Option ℕ
  cli_buf offset = some (4 * 1024 * 1024)

  abbrev pub no_error : E → ℕ → Bool
  no_error e offset = false

  abbrev pub silent : Loop → Option (Unit {0})
  silent st = none

  -- The codec of the source, by its head and then by its name.
  unfoldable pub source_codec : Text → Result (CliError E) Codec
  unfolding detect_codec
  source_codec source = do
    f ← with_io (host.open_file source)
    (head, f') ← with_io (host.file.read f 16)
    ok (detect_codec head source)

  abbrev pub target_of : Bool → Text → Result (CliError E) (Option host.device.State)
  target_of true target = ok none
  target_of false target =
      with_io (elim (host.open_write target) [ err e ↦ err e | ok s ↦ ok (some s) ])

  abbrev pub start : host.decoded.State → Option host.device.State → Loop
  start reader dst = record { src = reader; dst = dst; hasher = new_hasher c blake3; bytes_in = 0 }

  -- The verification behind the writes; `hash` is the image's.
  unfoldable pub verify_flash :
      FlashOpts → Text → Option host.device.State → Text → Result (CliError E) Ended
  unfolding verify_mode verify_full_by_hash
  verify_flash opts target dst hash =
      if is_full (verify_mode opts.verify) && not opts.dry_run
      then (do
        d ← with_io (host.reopened target dst)
        checked (verify_full_by_hash c host.reread buffer_size fuel d hash blake3))
      else ok returned

  unfoldable pub flash_to : FlashOpts → Text → Text → Result (CliError E) Ended
  unfolding source_codec decoder copy new_hasher finalize_hex verify_flash
  flash_to opts source target = do
    codec ← source_codec source
    src ← with_io (host.open_file source)
    reader ← with_io (host.decode (decoder codec) src)
    dst ← target_of opts.dry_run target
    st ←
        looped
          (copy c host.decoded (optional host.device) cli_buf no_error silent fuel
            (start reader dst) []).1
    flushed ← with_io ((optional host.device).flush st.dst)
    verify_flash opts target flushed (finalize_hex c st.hasher)

  abbrev with_target : FlashOpts → Text → List Text → Result (CliError E) Ended
  with_target opts source [] = ok (exit 2)
  with_target opts source (target ∷ []) = flash_to opts source target
  with_target opts source (target ∷ next ∷ more) = ok (exit 2)

  abbrev with_source : FlashOpts → Option Text → Result (CliError E) Ended
  with_source opts none = ok (exit 2)
  with_source opts (some source) = with_target opts source opts.targets

  unfoldable pub run_flash : FlashOpts → Result (CliError E) Ended
  unfolding flash_to
  run_flash opts = with_source opts opts.source

  -- The codec of an archive comes from its name only.
  unfoldable pub run_restore : RestoreOpts → Result (CliError E) Ended
  unfolding detect_by_extension decoder
  run_restore opts = do
    src ← with_io (host.open_file opts.archive)
    reader ← with_io (host.decode (decoder (or_none (detect_by_extension opts.archive))) src)
    done ← with_io (host.unpack reader opts.target)
    ok returned

  abbrev pub against_of : Option Text → Option Text → Option Text
  against_of none manifest = manifest
  against_of (some against) manifest = some against

  abbrev pub compared : Text → Option Text → Result (CliError E) Ended
  compared device none = ok (exit 2)
  compared device (some against) = do
    source ← with_io (host.open_file against)
    d ← with_io (host.reopened device none)
    checked (verify_full host.file host.reread buffer_size fuel 0 source d)

  -- A manifest is compared with the device byte for byte, as a file to compare against is.
  unfoldable pub run_verify : VerifyOpts → Result (CliError E) Ended
  unfolding verify_full
  run_verify opts = compared opts.device (against_of opts.against opts.manifest)
