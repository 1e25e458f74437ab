-- ===== src/Device/Mac/Mounts.antt =====
-- The reading of mount(8) in `mountpoints_for_disk` of crates/tekflash-core/src/device/macos.rs.
use tekflash.Common.{
  ℕ, ◌+◌, Bool, true, false, List, [], ◌∷◌, ◌++◌, Option, none, some, Text, FilePath, codes,
  starts_with, find, take, drop, length, leb, ◌==◌, if◌then◌else◌, ◌&&◌, ◌||◌,
}
use tekflash.Device.Linux.{Std, trim_start, trim_end}

abbrev pub is_ascii_digit : ℕ → Bool
is_ascii_digit c = leb b'0' c && leb c b'9'

abbrev pub second_is_digit : Text → Bool
second_is_digit [] = false
second_is_digit (c ∷ s) = is_ascii_digit c

-- What may stand behind the name of a disk: nothing, a blank, or the number of a slice.
unfoldable pub is_match : Text → Bool
is_match [] = true
is_match (c ∷ s) = (c == b' ' || c == 9) || c == b's' && second_is_digit s

-- The device of a line is the disk or a slice of it.
unfoldable pub backs : Text → Text → Bool
unfolding starts_with is_match
backs disk line =
    let dev_prefix = codes "/dev/" ++ disk in
    starts_with line dev_prefix && is_match (drop (length dev_prefix) line)

module _ (std : Std) where
  abbrev pub non_empty : Text → List FilePath
  non_empty [] = []
  non_empty (c ∷ s) = std.path_from (c ∷ s) ∷ []

  abbrev pub before_paren : Text → Option ℕ → List FilePath
  before_paren after_on none = []
  before_paren after_on (some i) = non_empty (trim_end std (trim_start std (take i after_on)))

  abbrev pub after_on : Text → Option ℕ → List FilePath
  after_on line none = []
  after_on line (some i) =
      let rest = drop (i + 4) line in before_paren rest (find rest (codes " ("))

  -- The path between ` on ` and ` (`.
  unfoldable pub mount_path : Text → List FilePath
  unfolding find
  mount_path line = after_on line (find line (codes " on "))

  -- The loop over the lines.
  unfoldable pub mountpoints_in : Text → List Text → List FilePath
  unfolding backs mount_path
  mountpoints_in disk [] = []
  mountpoints_in disk (line ∷ lines) =
      let rest = mountpoints_in disk lines in
      if backs disk line then mount_path line ++ rest else rest
