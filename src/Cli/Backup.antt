-- ===== src/Cli/Backup.antt =====
-- `run_backup` of crates/tekflash/src/cli.rs, with the manifest of crates/tekflash-core/src/manifest.rs
-- that it puts beside the image. The standard library's paths, the clock and the host's name come as
-- `Surroundings`.
use tekflash.Common.{
  ℕ, ◌*◌, Bool, false, List, [], ◌++◌, Option, none, some, Result, ok, err, Text, codes, ◌>>=◌, ℤ,
  ◌⊎◌, inl, inr,
}
use tekflash.Pipeline.Compress.{Codec, CompressionLevel, encoder}
use tekflash.Pipeline.Copy.{Copying, copy}
use tekflash.Pipeline.Hasher.{HashCrates, HashKind, blake3, finalize_hex}
use tekflash.Pipeline.Hasher.{new as new_hasher}
use tekflash.Runner.Backup.{BackupHost}
use tekflash.Runner.Worker.{IoError}
use tekflash.Cli.{Ended, exit, CliError, with_io}
use tekflash.Cli.Choices.{CodecChoice, codec_of}
use tekflash.Cli.Run.{looped}

pub record SourceInfo : Type 0 where
  pub path : Text
  pub vendor : Option Text
  pub model : Option Text
  pub serial : Option Text
  pub size_bytes : ℕ

pub record KdfParams : Type 0 where
  pub m_kib : ℕ
  pub t : ℕ
  pub p : ℕ

pub record EncryptionInfo : Type 0 where
  pub scheme : Text
  pub salt_b64 : Option Text
  pub kdf : Option KdfParams
  pub kem_ciphertext_b64 : Option Text

pub record SparseExtent : Type 0 where
  pub offset : ℕ
  pub length : ℕ

pub record Manifest : Type 0 where
  pub schema_version : ℕ
  pub tekflash_version : Text
  pub created : Text
  pub host : Option Text
  pub source : SourceInfo
  pub bytes_in : ℕ
  pub bytes_out : ℕ
  pub hash_kind : HashKind
  pub hash_hex : Text
  pub codec : Codec
  pub level : CompressionLevel
  pub encryption : Option EncryptionInfo
  pub sparse_extents : List SparseExtent
  pub last_good_offset : Option ℕ

pub record BackupOpts : Type 0 where
  pub source : Text
  pub output : Option Text
  pub codec : CodecChoice
  pub level : ℤ

pub record Surroundings : Type 0 where
  pub version : Text
  pub now : Text
  pub host_name : Option Text
  pub extension_of : Text → Option Text
  pub with_extension : Text → Text → Text

abbrev or_empty : Option Text → Text
or_empty none = []
or_empty (some t) = t

unfoldable pub manifest_path : Surroundings → Text → Text
manifest_path env output =
    env.with_extension output (or_empty (env.extension_of output) ++ codes ".tfmanifest.json")

-- What the command leaves: the image, and the manifest with its path, whose writing may fail silently.
pub record BackedUp (D : Type 0) : Type 0 where
  pub image : D
  pub manifest : Manifest
  pub beside : Text

-- `bytes_out_of` is the length of the image's file, or 0 where it has no metadata to read.
module _ (c : HashCrates) (host : BackupHost) (env : Surroundings)
    (open_for_read : Text → Result IoError host.source.State)
    (create : Text → Result IoError host.File) (bytes_out_of : host.sink.State → ℕ) (fuel : ℕ) where
  abbrev pub Loop : Type 0
  Loop = Copying c host.source host.sink

  abbrev pub start : host.source.State → host.sink.State → Loop
  start src dst = record { src = src; dst = dst; hasher = new_hasher c blake3; bytes_in = 0 }

  unfoldable pub manifest_of : BackupOpts → Loop → Manifest
  unfolding codec_of finalize_hex
  manifest_of opts st = record {
    schema_version = 1;
    tekflash_version = env.version;
    created = env.now;
    host = env.host_name;
    source = record {
      path = opts.source;
      vendor = none;
      model = none;
      serial = none;
      size_bytes = st.bytes_in;
    };
    bytes_in = st.bytes_in;
    bytes_out = bytes_out_of (host.drop_encoder st.dst);
    hash_kind = blake3;
    hash_hex = finalize_hex c st.hasher;
    codec = codec_of opts.codec;
    level = record { level = opts.level };
    encryption = none;
    sparse_extents = [];
    last_good_offset = none;
  }

  abbrev pub cli_buf : ℕ → Option ℕ
  cli_buf offset = some (4 * 1024 * 1024)

  abbrev pub no_error : IoError → ℕ → Bool
  no_error e offset = false

  abbrev pub silent : Loop → Option (Unit {0})
  silent st = none

  abbrev pub image_of : BackupOpts → Text → Loop → BackedUp host.sink.State
  image_of opts output st = record {
    image = host.drop_encoder st.dst;
    manifest = manifest_of opts st;
    beside = manifest_path env output;
  }

  unfoldable pub backup_to :
      BackupOpts → Text → Result (CliError IoError) (BackedUp host.sink.State)
  unfolding copy encoder manifest_of manifest_path
  backup_to opts output = do
    src ← with_io (open_for_read opts.source)
    file ← with_io (create output)
    dst ← with_io (host.encode (encoder (codec_of opts.codec) (record { level = opts.level })) file)
    st ← looped (copy c host.source host.sink cli_buf no_error silent fuel (start src dst) []).1
    ok (image_of opts output st)

  -- Without an output the process ends with code 2.
  unfoldable pub run_backup :
      BackupOpts → Result (CliError IoError) (Ended ⊎ BackedUp host.sink.State)
  unfolding backup_to
  run_backup opts = elim opts.output [
    | none ↦ ok (inl (exit 2))
    | some output ↦ elim (backup_to opts output) [ err e ↦ err e | ok b ↦ ok (inr b) ]
  ]
