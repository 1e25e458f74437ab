-- ===== src/Tui/FileBrowser/Invariant.antt =====
-- What every operation of the file browser of crates/tekflash/src/tui/views/file_browser.rs keeps.
use tekflash.Common.{◌<◌, ◌≡◌, refl, Bool, List, ◌∷◌, Option, Text, length, FilePath, parent}
use tekflash.Tui.FileBrowser.Defs.{
  FileSystem, BrowseMode, opening, saving, Entry, parent_row, save_here, FileBrowser, or_else,
  read_dir, sort, entry_le, save_row, up_row,
}
use tekflash.Tui.FileBrowser.Ops.{listing, open_with_extension}
use tekflash.Tui.FileBrowser.Rows.{AreRowsOf, sort-AreRowsOf}
use tekflash.Tui.FileBrowser.Kept.{Holds, open_with_extension-Holds}

-- The rows are those of `listing` for the directory that is shown, and the cursor is on one of them.
unfoldable pub WellFormed : FileBrowser → Type 0
WellFormed b =
    ((real : List Entry) × (b.entries ≡ listing b.mode b.cwd real))
    × (b.selected < length b.entries)

-- A browser that was opened is well-formed: its rows are the synthetic rows of its mode ahead of the
-- rows of the directory that it shows, and the cursor is on one of them.
pub open_with_extension-WellFormed :
    (fs : FileSystem) (dir : FilePath) (mode : BrowseMode) (ext : Option Text)
    → WellFormed (open_with_extension fs dir mode ext)
unfolding WellFormed Holds
open_with_extension-WellFormed fs dir mode ext =
    open_with_extension-Holds fs
      (λ entries mode cwd hidden all_types. (real : List Entry) × (entries ≡ listing mode cwd real))
      (λ b. (_, refl)) dir mode ext

-- Ahead of the rows stand `..`, which leads to the parent, and in Save mode before it `.`, which
-- stands for the directory itself.
abbrev IsHeaded : BrowseMode → FilePath → List Entry → List Entry → Type 0
IsHeaded opening cwd entries rows =
    (up : Entry) × (entries ≡ up ∷ rows)
    × (up.kind ≡ parent_row)
    × (up.path ≡ or_else (parent cwd) cwd)
IsHeaded saving cwd entries rows =
    (here : Entry) × (up : Entry) × (entries ≡ here ∷ up ∷ rows)
    × (here.kind ≡ save_here)
    × (here.path ≡ cwd)
    × (up.kind ≡ parent_row)
    × (up.path ≡ or_else (parent cwd) cwd)

-- The rows are those of the directory that is shown, as the file system answers, behind the rows that
-- stand ahead of them.
abbrev ShowsRows : FileSystem → List Entry → BrowseMode → FilePath → Bool → Bool → Type 0
ShowsRows fs entries mode cwd hidden all_types =
    (rows : List Entry) × IsHeaded mode cwd entries rows × AreRowsOf fs cwd hidden all_types rows

-- The browser shows its directory, and the cursor is on one of the rows.
abbrev pub Shows : FileSystem → FileBrowser → Type 0
Shows fs b =
    ShowsRows fs b.entries b.mode b.cwd b.show_hidden b.show_all_types
    × (b.selected < length b.entries)

listing-IsHeaded :
    (mode : BrowseMode) (cwd : FilePath) (rows : List Entry)
    → IsHeaded mode cwd (listing mode cwd rows) rows
unfolding listing save_row up_row
listing-IsHeaded opening cwd rows = (_, refl, refl, refl)
listing-IsHeaded saving cwd rows = (_, _, refl, refl, refl, refl, refl)

listing-ShowsRows :
    (fs : FileSystem) (b : FileBrowser)
    → ShowsRows fs
        (listing b.mode b.cwd (sort (entry_le b.show_all_types) (read_dir fs b.cwd b.show_hidden)))
        b.mode
        b.cwd
        b.show_hidden
        b.show_all_types
listing-ShowsRows fs b =
    (_, listing-IsHeaded b.mode b.cwd _, sort-AreRowsOf fs b.cwd b.show_hidden b.show_all_types)

-- A browser that was opened shows the directory that it was opened for.
pub open_with_extension-Shows :
    (fs : FileSystem) (dir : FilePath) (mode : BrowseMode) (ext : Option Text)
    → Shows fs (open_with_extension fs dir mode ext)
unfolding Holds
open_with_extension-Shows fs dir mode ext =
    open_with_extension-Holds fs (ShowsRows fs) (listing-ShowsRows fs) dir mode ext
