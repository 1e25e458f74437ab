-- ===== src/Tests/ViewTests.antt =====
-- The block map, the clock and an archive of small trees.
use tekflash.Common.{
  ◌+◌, ◌*◌, ◌/◌, ◌^◌, ◌≡◌, ◌<◌, refl, arith, List, [], ◌∷◌, ◌++◌, some, ok, Text, FilePath, codes,
  ◌>>=◌, strip_prefix,
}
use tekflash.Archive.Tar.{
  Node, file, dir, entry, nil, TarBuilder, context, finalize, excluded, archive_tree,
}
use tekflash.Archive.Tar.Plan.{steps, keep, replay, archive_tree-replay}
use tekflash.Tui.Views.BlockMap.{partial, block_map, cols_of, bytes_per_cell_of}
use tekflash.Tui.Views.BlockMap.Cells.{drawn, share, block_map-share}
use tekflash.Tui.Views.Figures.{format_duration}
use tekflash.Tui.Views.Figures.Clock.{read_clock, read_clock-format_duration}

read_clock-format_duration_example :
    read_clock 0 0 (format_duration (3725 * 10 ^ 9)) ≡ 3725 * 10 ^ 9 / 10 ^ 9
read_clock-format_duration_example = read_clock-format_duration (3725 * 10 ^ 9)

an_hour_and_more : format_duration (3725 * 10 ^ 9) ≡ codes "01:02:05"
unfolding format_duration
an_hour_and_more = refl

one-lt-cols : 1 < cols_of 4
unfolding cols_of
one-lt-cols = omega arith

block_map-share_example :
    drawn (block_map 4 2 (some 400) 150) 0 1
    ≡ some (share 150 (bytes_per_cell_of 400 (cols_of 4 * 2)) (0 * cols_of 4 + 1))
block_map-share_example = block_map-share 4 2 400 150 0 1 (omega arith) one-lt-cols

half_a_cell : drawn (block_map 4 2 (some 400) 150) 0 1 ≡ some (partial 2)
unfolding block_map
half_a_cell = refl

-- A source with fewer bytes than the map has cells is never shown as full.
never_full : drawn (block_map 4 2 (some 3) 3) 1 1 ≡ some (partial 0)
unfolding block_map
never_full = refl

-- The builder is the list of the paths that were appended.
abbrev tar : TarBuilder (Unit {0})
tar = record {
  State = List FilePath;
  append_dir = λ rel path b. ok (b ++ rel ∷ []);
  append_path_with_name = λ path rel b. ok (b ++ rel ∷ []);
  append_file = λ rel content b. ok (b ++ rel ∷ []);
  finish = λ b. ok b;
}

abbrev shown : FilePath → Text
shown [] = []
shown (n ∷ p) = shown p ++ (b'/' ∷ n)

abbrev tree : Node (Unit {0})
tree = dir (
    entry (codes "a.txt") (file (ok []))
      (entry (codes "cache") (dir (entry (codes "b.txt") (file (ok [])) nil)) nil))

abbrev root : FilePath
root = codes "home" ∷ []

archive_tree-replay_example : archive_tree tar shown root tree (codes "cache" ∷ []) [] ≡ (
    replay tar root
      (keep (excluded tar shown (codes "cache" ∷ []) root) root (steps root [] tree))
      []
    >>= λ b. context finalize (tar.finish b))
archive_tree-replay_example = archive_tree-replay tar shown root tree (codes "cache" ∷ []) []

without_the_cache :
    archive_tree tar shown root tree (codes "cache" ∷ []) [] ≡ ok ((codes "a.txt" ∷ []) ∷ [])
unfolding archive_tree strip_prefix
without_the_cache = refl
