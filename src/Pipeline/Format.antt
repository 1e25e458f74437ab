-- ===== src/Pipeline/Format.antt =====
-- crates/tekflash-core/src/pipeline/format.rs. A file's head is the list of its first bytes, and
-- a path is the text of it.
pub mod Magic
use tekflash.Common.{
  ℕ, Bool, true, false, List, [], ◌∷◌, Option, none, some, Text, codes, text_eq, ends_with,
  to_ascii_lowercase, ◌&&◌, ◌||◌, ◌==◌, leb, if◌then◌else◌, length, get_or, take,
}

pub data InputFormat : Type 0 where
  raw zstd xz gzip bzip2 lz4 brotli tar encrypted : InputFormat

pub is_compressed : InputFormat → Bool
is_compressed zstd = true
is_compressed xz = true
is_compressed gzip = true
is_compressed bzip2 = true
is_compressed lz4 = true
is_compressed brotli = true
is_compressed _ = false

unfoldable pub human : InputFormat → Text
human raw = codes "raw image"
human zstd = codes "zstd"
human xz = codes "xz"
human gzip = codes "gzip"
human bzip2 = codes "bzip2"
human lz4 = codes "lz4"
human brotli = codes "brotli"
human tar = codes "tar"
human encrypted = codes "tekflash encrypted"

-- `head[i]`, read only where the length test before it has passed.
abbrev at : List ℕ → ℕ → ℕ
at head i = get_or head i 0

abbrev tfe1_test : List ℕ → Bool
tfe1_test head = leb 4 (length head) && text_eq (take 4 head) (codes "TFE1")

abbrev zstd_test : List ℕ → Bool
zstd_test head =
    leb 4 (length head)
    && at head 0 == 0x28
    && at head 1 == 0xB5
    && at head 2 == 0x2F
    && at head 3 == 0xFD

abbrev xz_test : List ℕ → Bool
xz_test head =
    leb 6 (length head)
    && at head 0 == 0xFD
    && at head 1 == 0x37
    && at head 2 == 0x7A
    && at head 3 == 0x58
    && at head 4 == 0x5A
    && at head 5 == 0x00

abbrev gzip_test : List ℕ → Bool
gzip_test head = leb 2 (length head) && at head 0 == 0x1F && at head 1 == 0x8B

abbrev bzip2_test : List ℕ → Bool
bzip2_test head = leb 3 (length head) && text_eq (take 3 head) (codes "BZh")

abbrev lz4_test : List ℕ → Bool
lz4_test head =
    leb 4 (length head)
    && at head 0 == 0x04
    && at head 1 == 0x22
    && at head 2 == 0x4D
    && at head 3 == 0x18

unfoldable pub detect : List ℕ → InputFormat
unfolding text_eq
detect head =
    if tfe1_test head
    then encrypted
    else if zstd_test head
    then zstd
    else if xz_test head
    then xz
    else if gzip_test head
    then gzip
    else if bzip2_test head
    then bzip2
    else if lz4_test head
    then lz4
    else raw

-- The chain of `ends_with` tests, on the lowercased path.
unfoldable pub by_suffix : Text → Option InputFormat
by_suffix s =
    if ends_with s (codes ".zst") || ends_with s (codes ".zstd") || ends_with s (codes ".zsd")
    then some zstd
    else if ends_with s (codes ".xz")
    then some xz
    else if ends_with s (codes ".gz")
    then some gzip
    else if ends_with s (codes ".bz2")
    then some bzip2
    else if ends_with s (codes ".lz4")
    then some lz4
    else if ends_with s (codes ".br")
    then some brotli
    else if ends_with s (codes ".tar")
    then some tar
    else if ends_with s (codes ".iso")
        || ends_with s (codes ".img")
        || ends_with s (codes ".bin")
        || ends_with s (codes ".raw")
    then some raw
    else none

unfoldable pub detect_by_extension : Text → Option InputFormat
unfolding by_suffix
detect_by_extension path = by_suffix (to_ascii_lowercase path)
