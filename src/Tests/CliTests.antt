-- ===== src/Tests/CliTests.antt =====
-- The commands on small files.
use tekflash.Common.{
  ℕ, List, ◌≡◌, refl, true, false, [], ◌∷◌, ◌++◌, none, some, ok, codes, Result, length, pos, arith,
  ◌⊎◌, ◌↔◌,
}
use tekflash.Pipeline.Copy.{copy}
use tekflash.Cli.{CliHost, FlashOpts, VerifyOpts, Ended, returned, exit}
use tekflash.Cli.Choices.{VerifyChoice, CodecChoice, codec_of}
use tekflash.Cli.Run.{run_flash, run_verify, flash_to, source_codec, verify_flash}
use tekflash.Cli.Flash.{flash_to-Written}
use tekflash.Cli.Main.{Args, Platform, runs, refused, list, main}
use tekflash.Cli.Main.Gate.{IsRoot, main-runs}
use tekflash.Pipeline.Compress.{Codec, encoder, decoder}
use tekflash.Pipeline.Hasher.{blake3, digest}
use tekflash.Pipeline.Hasher.{new as new_hasher}
use tekflash.Runner.Worker.{IoError}
use tekflash.Cli.Backup.{Surroundings, BackupOpts, BackedUp, backup_to}
use tekflash.Cli.Manifest.{Described, backup_to-Described}
use tekflash.Cli.Verify.{run_verify_iff}
use tekflash.Tests.Readers.{
  whole_of-ReadLaws, keeping-Streams, whole, whole-ReadLaws, whole-Infallible, left, keeping,
}
use tekflash.Tests.Hosts.{sink_of, sink_of-WriteLaws, backup_host, stored}

-- Each file holds the same three bytes, and the device what was written to it.
abbrev host : CliHost (Unit {0})
host = record {
  file = whole;
  decoded = whole;
  device = sink_of (Unit {0});
  reread = whole;
  open_file = λ path. ok (1 ∷ 2 ∷ 3 ∷ []);
  decode = λ choice s. ok s;
  open_write = λ path. ok [];
  reopened = λ path s. elim s [ none ↦ ok (1 ∷ 2 ∷ []) | some written ↦ ok written ];
  unpack = λ s target. ok tt;
}

abbrev opts : FlashOpts
opts = record {
  source = some (codes "disk.img");
  targets = codes "/dev/sda" ∷ [];
  verify = VerifyChoice.full;
  dry_run = false;
}

flash_verifies : run_flash keeping host 5 opts ≡ ok returned
unfolding run_flash copy
flash_verifies = refl

two_targets :
    run_flash keeping host 5 (record opts { targets = [] ++ codes "a" ∷ codes "b" ∷ [] })
    ≡ ok (exit 2)
unfolding run_flash
two_targets = refl

verify_differs :
    run_verify keeping host 5
      (record { device = codes "/dev/sda"; against = none; manifest = some (codes "m.json") })
    ≡ ok (exit 1)
unfolding run_verify
verify_differs = refl

abbrev against_manifest : VerifyOpts
against_manifest = record {
  device = codes "/dev/sda";
  against = none;
  manifest = some (codes "m.json");
}

run_verify_iff_example :
    (e : Ended) × (run_verify keeping host 5 against_manifest ≡ ok e)
    × ((e ≡ returned) ⊎ (e ≡ exit 1))
    × ((e ≡ returned) ↔ (left (1 ∷ 2 ∷ 3 ∷ []) ≡ left (1 ∷ 2 ∷ [])))
run_verify_iff_example =
    run_verify_iff keeping host left whole-ReadLaws whole-Infallible left whole-ReadLaws
      whole-Infallible 5 against_manifest (codes "m.json") (1 ∷ 2 ∷ 3 ∷ []) (1 ∷ 2 ∷ []) refl refl
      refl (omega arith)

abbrev surroundings : Surroundings
surroundings = record {
  version = codes "0.1";
  now = codes "now";
  host_name = none;
  extension_of = λ path. none;
  with_extension = λ path e. path ++ e;
}

abbrev backup_opts : BackupOpts
backup_opts = record {
  source = codes "/dev/sda";
  output = some (codes "out");
  codec = CodecChoice.zstd;
  level = pos 3;
}

abbrev stored_image : BackedUp (List ℕ)
stored_image = record {
  image = stored;
  manifest = record {
    schema_version = 1;
    tekflash_version = codes "0.1";
    created = codes "now";
    host = none;
    source = record {
      path = codes "/dev/sda";
      vendor = none;
      model = none;
      serial = none;
      size_bytes = 5;
    };
    bytes_in = 5;
    bytes_out = 5;
    hash_kind = blake3;
    hash_hex = stored;
    codec = Codec.zstd;
    level = record { level = pos 3 };
    encryption = none;
    sparse_extents = [];
    last_good_offset = none;
  };
  beside = codes "out.tfmanifest.json";
}

backup_runs :
    backup_to keeping backup_host surroundings
      (λ p. ok stored)
      (λ p. ok tt)
      (λ s. length s)
      7
      backup_opts
      (codes "out")
    ≡ ok stored_image
unfolding backup_to copy new_hasher
backup_runs = refl

backup_to-Described_example :
    (src : backup_host.source.State) × (file : backup_host.File) × (dst : backup_host.sink.State)
    × (◌≡◌ {A = Result IoError (List ℕ)} (ok stored) (ok src))
    × (◌≡◌ {A = Result IoError (Unit {0})} (ok tt) (ok file))
    × (backup_host.encode
          (encoder (codec_of backup_opts.codec) (record { level = backup_opts.level }))
          file
        ≡ ok dst)
    × Described keeping keeping-Streams backup_host surroundings
        (λ p. ok stored)
        (λ p. ok tt)
        (λ s. length s)
        7
        left
        (whole_of-ReadLaws IoError)
        left
        (sink_of-WriteLaws IoError)
        (λ s. refl)
        src
        dst
        stored_image
backup_to-Described_example =
    backup_to-Described keeping keeping-Streams backup_host surroundings (λ p. ok stored)
      (λ p. ok tt) (λ s. length s) 7 left (whole_of-ReadLaws IoError) left
      (sink_of-WriteLaws IoError) (λ s. refl) backup_opts (codes "out") stored_image backup_runs

flash_runs : flash_to keeping host 5 opts (codes "disk.img") (codes "/dev/sda") ≡ ok returned
unfolding flash_to copy
flash_runs = refl

flash_to-Written_example :
    (codec : Codec) × (src : host.file.State) × (reader : host.decoded.State)
    × (dst : host.device.State) × (last : host.device.State) × (source_codec keeping host 5
          (codes "disk.img")
        ≡ ok codec)
    × (host.open_file (codes "disk.img") ≡ ok src)
    × (host.decode (decoder codec) src ≡ ok reader)
    × (host.open_write (codes "/dev/sda") ≡ ok dst)
    × (left last ≡ left dst ++ left reader)
    × (verify_flash keeping host 5 opts
          (codes "/dev/sda")
          (some last)
          (digest keeping blake3 (left reader))
        ≡ ok returned)
flash_to-Written_example =
    flash_to-Written keeping keeping-Streams host 5 left whole-ReadLaws left
      (sink_of-WriteLaws (Unit {0})) opts (codes "disk.img") (codes "/dev/sda") returned refl
      flash_runs

abbrev listing_args : Args
listing_args = record { check = false; no_tui = true; command = some list }

main-runs_example : (main (Platform.linux 0) listing_args ≡ runs list) ↔ (
    (listing_args.check ≡ false) × IsRoot (Platform.linux 0) × (listing_args.command ≡ some list))
main-runs_example = main-runs (Platform.linux 0) listing_args list

-- Without root nothing runs but `--check`.
user_is_refused : main (Platform.linux 1000) listing_args ≡ refused (codes "Try:  sudo tekflash")
unfolding main
user_is_refused = refl
