-- ===== src/Tui/CodecPicker.antt =====
-- crates/tekflash/src/tui/views/codec_picker.rs. Levels are never negative in the picker's table, so
-- that an i32 level is a number here; `picked` hands it on as an integer.
pub mod Levels
use tekflash.Common.{
  ℕ, ◌+◌, ◌-◌, List, [], ◌∷◌, ◌++◌, Text, codes, ltb, if◌then◌else◌, length, get_or, set, map, ℤ,
  pos,
}
use tekflash.Pipeline.Compress.{Codec, CompressionLevel}
use tekflash.Tui.Action.{Action, flash, backup, archive}

pub record CodecChoice : Type 0 where
  pub codec : Codec
  pub name : Text
  pub blurb : Text
  pub min_level : ℕ
  pub max_level : ℕ
  pub default_level : ℕ
  pub extension : Text
  pub size_score : ℕ
  pub speed_score : ℕ

abbrev choice : Codec → Text → Text → ℕ → ℕ → ℕ → Text → ℕ → ℕ → CodecChoice
choice codec name blurb min_level max_level default_level extension size_score speed_score =
    record {
      codec = codec;
      name = name;
      blurb = blurb;
      min_level = min_level;
      max_level = max_level;
      default_level = default_level;
      extension = extension;
      size_score = size_score;
      speed_score = speed_score;
    }

abbrev pub no_compression : CodecChoice
no_compression =
    choice Codec.none (codes "none") (codes "raw, no compression — bit-for-bit copy") 0 0 0 [] 0 10

abbrev pub codec_table : List CodecChoice
codec_table =
    choice Codec.zstd (codes "zstd") (codes "fast + small (recommended)") 1 22 3 (codes ".zst") 8 8
    ∷ choice Codec.lz4 (codes "lz4") (codes "fastest, larger output") 0 0 0 (codes ".lz4") 4 10
    ∷ choice Codec.brotli (codes "brotli") (codes "high ratio on repetitive data, slower") 0 11 6
        (codes ".br") 9 4
    ∷ choice Codec.xz (codes "xz / lzma") (codes "smallest output, slow CPU-bound") 0 9 6
        (codes ".xz") 10 2
    ∷ choice Codec.gzip (codes "gzip") (codes "universal, decompresses everywhere") 1 9 6
        (codes ".gz") 5 6
    ∷ choice Codec.bzip2 (codes "bzip2") (codes "legacy (rarely the right choice today)") 1 9 6
        (codes ".bz2") 7 3
    ∷ no_compression
    ∷ []

pub record CodecPicker : Type 0 where
  pub action : Action
  pub device_idx : ℕ
  pub cursor : ℕ
  pub levels : List ℕ

unfoldable pub new : Action → ℕ → CodecPicker
new action device_idx = record {
  action = action;
  device_idx = device_idx;
  cursor = 0;
  levels = map (λ c. c.default_level) codec_table;
}

unfoldable pub move_up : CodecPicker → CodecPicker
move_up p = if ltb 0 p.cursor then record p { cursor = p.cursor - 1 } else p

unfoldable pub move_down : CodecPicker → CodecPicker
move_down p =
    if ltb (p.cursor + 1) (length codec_table) then record p { cursor = p.cursor + 1 } else p

-- `&CODECS[self.cursor]` and `self.levels[self.cursor]`; the cursor stays within both, so that the
-- defaults are never met.
unfoldable pub current : CodecPicker → CodecChoice
current p = get_or codec_table p.cursor no_compression

unfoldable pub current_level : CodecPicker → ℕ
current_level p = get_or p.levels p.cursor 0

unfoldable pub level_up : CodecPicker → CodecPicker
unfolding current current_level
level_up p =
    if ltb (current_level p) (current p).max_level
    then record p { levels = set p.levels p.cursor (current_level p + 1) }
    else p

unfoldable pub level_down : CodecPicker → CodecPicker
unfolding current current_level
level_down p =
    if ltb (current p).min_level (current_level p)
    then record p { levels = set p.levels p.cursor (current_level p - 1) }
    else p

unfoldable pub jump_max : CodecPicker → CodecPicker
unfolding current
jump_max p = record p { levels = set p.levels p.cursor (current p).max_level }

unfoldable pub jump_min : CodecPicker → CodecPicker
unfolding current
jump_min p = record p { levels = set p.levels p.cursor (current p).min_level }

-- `(codec, level, extension)` of the current selection.
unfoldable pub picked : CodecPicker → Codec × CompressionLevel × Text
unfolding current current_level
picked p = ((current p).codec, record { level = pos (current_level p) }, (current p).extension)

unfoldable pub output_extension : CodecPicker → Action → Text
unfolding current
output_extension p backup = codes ".img" ++ (current p).extension
output_extension p archive = codes ".tar" ++ (current p).extension
output_extension p flash = []
