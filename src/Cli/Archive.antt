-- ===== src/Cli/Archive.antt =====
-- `run_archive` of crates/tekflash/src/cli.rs. The output file with the encoder and the tar builder on
-- top of it is a parameter.
use tekflash.Common.{ℤ, List, Result, ok, err, Text, FilePath, ◌>>=◌}
use tekflash.Archive.Tar.{Node, TarBuilder, TarError, archive_tree}
use tekflash.Cli.{Ended, returned}
use tekflash.Cli.Choices.{CodecChoice, codec_of}
use tekflash.Pipeline.Compress.{EncoderChoice, encoder}

-- The options that the command reads; it takes also a mode of encryption and a key.
pub record ArchiveOpts : Type 0 where
  pub source : FilePath
  pub output : FilePath
  pub codec : CodecChoice
  pub level : ℤ
  pub exclude : List Text

pub data ArchiveError (E : Type 0) : Type 0 where
  create : E → ArchiveError E
  encode : E → ArchiveError E
  in_tar : TarError E → ArchiveError E

-- `File::create`, the encoder round the file, and the builder over the encoder.
pub record ArchiveHost (E : Type 0) : Type 1 where
  pub File : Type 0
  pub tar : TarBuilder E
  pub create_file : FilePath → Result E File
  pub encode_to : EncoderChoice → File → Result E tar.State
  pub shown : FilePath → Text
  pub tree : FilePath → Node E

abbrev pub or_fail :
    {E A X : Type 0} → (X → ArchiveError E) → Result X A → Result (ArchiveError E) A
or_fail f (err e) = err (f e)
or_fail f (ok a) = ok a

unfoldable pub run_archive :
    {E : Type 0} → ArchiveHost E → ArchiveOpts → Result (ArchiveError E) Ended
unfolding encoder codec_of archive_tree
run_archive host opts = do
  dst ← or_fail create (host.create_file opts.output)
  writer ←
      or_fail encode
        (host.encode_to (encoder (codec_of opts.codec) (record { level = opts.level })) dst)
  done ←
      or_fail in_tar
        (archive_tree host.tar host.shown opts.source (host.tree opts.source) opts.exclude writer)
  ok returned
