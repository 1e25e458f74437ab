-- ===== src/Archive.antt =====
-- File-level archives: crates/tekflash-core/src/archive, and the formats of its mod.rs.
pub mod Selection
pub mod Tar
use tekflash.Common.{Text, codes, ◌++◌}

pub data ArchiveFormat : Type 0 where
  tar zip seven_z : ArchiveFormat

-- `ArchiveFormat::human`.
unfoldable pub human : ArchiveFormat → Text
human tar = codes "tar"
human zip = codes "zip"
human seven_z = codes "7z"

-- Only a tar file carries the extension of the codec round it.
unfoldable pub extension : ArchiveFormat → Text → Text
extension tar outer_codec_ext = codes ".tar" ++ outer_codec_ext
extension zip outer_codec_ext = codes ".zip"
extension seven_z outer_codec_ext = codes ".7z"
