-- ===== src/Pipeline/Compress.antt =====
-- crates/tekflash-core/src/pipeline/compress.rs. The encoders and decoders are other crates'; what
-- `encoder` decides, which of them it builds and with which setting, is a value of `EncoderChoice`.
pub mod Extension
use tekflash.Common.{ℕ, ◌*◌, ◌/◌, Text, codes, ℤ, pos, clamp_to}
use tekflash.Pipeline.Format.{InputFormat}

pub data Codec : Type 0 where
  none zstd lz4 brotli xz gzip bzip2 : Codec

unfoldable pub extension : Codec → Text
extension none = codes "img"
extension zstd = codes "zst"
extension lz4 = codes "lz4"
extension brotli = codes "br"
extension xz = codes "xz"
extension gzip = codes "gz"
extension bzip2 = codes "bz2"

unfoldable pub human : Codec → Text
human none = codes "none"
human zstd = codes "zstd"
human lz4 = codes "lz4"
human brotli = codes "brotli"
human xz = codes "xz"
human gzip = codes "gzip"
human bzip2 = codes "bzip2"

pub record CompressionLevel : Type 0 where
  pub level : ℤ

abbrev pub default_level : CompressionLevel
default_level = record { level = pos 3 }

-- The encoder that is wrapped round the writer, with its level or quality.
pub data EncoderChoice : Type 0 where
  plain lz4_frame : EncoderChoice
  zstd_level : ℤ → EncoderChoice
  brotli_quality xz_preset gzip_level bzip2_level : ℕ → EncoderChoice

unfoldable pub encoder : Codec → CompressionLevel → EncoderChoice
encoder none l = plain
encoder zstd l = zstd_level l.level
encoder lz4 l = lz4_frame
encoder brotli l = brotli_quality (clamp_to l.level 22 * 11 / 22)
encoder xz l = xz_preset (clamp_to l.level 9)
encoder gzip l = gzip_level (clamp_to l.level 9)
encoder bzip2 l = bzip2_level (clamp_to l.level 9)

-- The decoder that is wrapped round the reader.
pub data DecoderChoice : Type 0 where
  plain zstd_decoder lz4_decoder brotli_decoder xz_decoder gz_decoder bz_decoder : DecoderChoice

unfoldable pub decoder : Codec → DecoderChoice
decoder none = DecoderChoice.plain
decoder zstd = zstd_decoder
decoder lz4 = lz4_decoder
decoder brotli = brotli_decoder
decoder xz = xz_decoder
decoder gzip = gz_decoder
decoder bzip2 = bz_decoder

-- `impl From<InputFormat> for Codec`.
unfoldable pub from_format : InputFormat → Codec
from_format InputFormat.raw = none
from_format InputFormat.tar = none
from_format InputFormat.encrypted = none
from_format InputFormat.zstd = zstd
from_format InputFormat.xz = xz
from_format InputFormat.gzip = gzip
from_format InputFormat.bzip2 = bzip2
from_format InputFormat.lz4 = lz4
from_format InputFormat.brotli = brotli
