-- ===== src/Cli/Choices.antt =====
-- The values of the options of crates/tekflash/src/cli.rs, and what they stand for.
use tekflash.Pipeline.Compress.{Codec}
use tekflash.Pipeline.Verify.Sampled.{VerifyMode}

pub data VerifyChoice : Type 0 where
  off full sampled deferred : VerifyChoice

pub data CodecChoice : Type 0 where
  none zstd lz4 brotli xz gzip bzip2 : CodecChoice

-- `impl From<CodecChoice> for Codec`.
unfoldable pub codec_of : CodecChoice → Codec
codec_of CodecChoice.none = Codec.none
codec_of CodecChoice.zstd = Codec.zstd
codec_of CodecChoice.lz4 = Codec.lz4
codec_of CodecChoice.brotli = Codec.brotli
codec_of CodecChoice.xz = Codec.xz
codec_of CodecChoice.gzip = Codec.gzip
codec_of CodecChoice.bzip2 = Codec.bzip2

unfoldable pub verify_mode : VerifyChoice → VerifyMode
verify_mode off = VerifyMode.off
verify_mode full = VerifyMode.full
verify_mode sampled = VerifyMode.sampled
verify_mode deferred = VerifyMode.deferred
