-- ===== src/Tui/FileBrowser/Ops.antt =====
-- crates/tekflash/src/tui/views/file_browser.rs: the browser's operations.
use tekflash.Common.{
  ℕ, ◌+◌, ◌-◌, Bool, true, false, not, ◌&&◌, ◌||◌, List, [], ◌∷◌, ◌++◌, Option, none, some, Text,
  codes, starts_with, ends_with, contains, to_ascii_lowercase, FilePath, parent, ◌==◌, ltb, leb,
  if◌then◌else◌, length, get_elem?, position, any,
}
use tekflash.Tui.FileBrowser.Defs.{
  FileSystem, BrowseMode, opening, saving, EntryKind, normal, parent_row, save_here, Entry,
  EnterResult, navigated, nothing, picked, FileBrowser, is_save, is_save_here, is_normal, or_else,
  entry_le, sort, read_dir, sniff_magic, save_row, up_row,
}

-- The synthetic rows ahead of the directory's own.
unfoldable pub listing : BrowseMode → FilePath → List Entry → List Entry
unfolding save_row up_row
listing saving cwd real = save_row cwd ∷ up_row cwd ∷ real
listing opening cwd real = up_row cwd ∷ real

unfoldable pub refresh : FileSystem → FileBrowser → FileBrowser
unfolding read_dir sort entry_le listing
refresh fs b =
    let real = sort (entry_le b.show_all_types) (read_dir fs b.cwd b.show_hidden) in
    let entries = listing b.mode b.cwd real in
    record b {
      entries = entries;
      selected = if leb (length entries) b.selected then length entries - 1 else b.selected;
      focused_magic = none;
    }

-- In Save mode the cursor goes to the `.` row, where there is one.
unfoldable pub focus_save_here : FileBrowser → FileBrowser
focus_save_here b =
    if is_save b.mode
    then record b { selected = or_else (position is_save_here b.entries) b.selected }
    else b

unfoldable pub open_with_extension : FileSystem → FilePath → BrowseMode → Option Text → FileBrowser
unfolding refresh focus_save_here
open_with_extension fs start_dir mode desired_extension = focus_save_here (
    refresh fs (record {
      cwd = or_else (fs.canonicalize start_dir) start_dir;
      mode = mode;
      entries = [];
      selected = 0;
      show_hidden = false;
      show_all_types = false;
      focused_magic = none;
      save_name = [];
      desired_extension = desired_extension;
      filter = [];
    }))

unfoldable pub open_browser : FileSystem → FilePath → BrowseMode → FileBrowser
unfolding open_with_extension
open_browser fs start_dir mode = open_with_extension fs start_dir mode none

unfoldable pub focused : FileBrowser → Option Entry
focused b = get_elem? b.entries b.selected

unfoldable pub move_up : FileBrowser → FileBrowser
move_up b =
    record (if ltb 0 b.selected
      then record b { selected = b.selected - 1; focused_magic = none }
      else b) { filter = [] }

unfoldable pub move_down : FileBrowser → FileBrowser
move_down b =
    record (if ltb (b.selected + 1) (length b.entries)
      then record b { selected = b.selected + 1; focused_magic = none }
      else b) { filter = [] }

-- `is_valid_input_char`; `is_control` holds of U+0000 to U+001F and U+007F to U+009F.
unfoldable pub is_valid_input_char : ℕ → Bool
is_valid_input_char c =
    not (ltb c 0x20 || (leb 0x7F c && leb c 0x9F))
    && not (c == b'/')
    && not (c == b'\\')
    && not (c == 0)

-- `pop` of a `String`: the text without its last character.
unfoldable pub init : Text → Text
init [] = []
init (c ∷ []) = []
init (c ∷ d ∷ s) = c ∷ init (d ∷ s)

abbrev pub is_nil : Text → Bool
is_nil [] = true
is_nil (c ∷ s) = false

-- The cursor goes to the first match at the start of a name, else to the first inside one.
unfoldable pub select_match : FileBrowser → Option ℕ → Option ℕ → FileBrowser
select_match b (some p) inner_match = record b { selected = p; focused_magic = none }
select_match b none (some p) = record b { selected = p; focused_magic = none }
select_match b none none = b

unfoldable pub apply_filter : FileBrowser → FileBrowser
unfolding select_match
apply_filter b =
    let f = to_ascii_lowercase b.filter in
    let prefix_match =
      position (λ e. is_normal e && starts_with (to_ascii_lowercase e.name) f) b.entries in
    let inner_match =
      position (λ e. is_normal e && contains (to_ascii_lowercase e.name) f) b.entries in
    if is_nil f then b else select_match b prefix_match inner_match

unfoldable pub accept_char : FileBrowser → ℕ → FileBrowser
unfolding is_valid_input_char apply_filter focus_save_here
accept_char b c =
    if not (is_valid_input_char c)
    then b
    else if is_save b.mode
    then focus_save_here (record b { save_name = b.save_name ++ c ∷ [] })
    else apply_filter (record b { filter = b.filter ++ c ∷ [] })

-- The flag says whether a character was taken off.
unfoldable pub backspace : FileBrowser → FileBrowser × Bool
unfolding init apply_filter
backspace b =
    if is_save b.mode
    then (if is_nil b.save_name
        then (b, false)
        else (record b { save_name = init b.save_name }, true))
    else if is_nil b.filter
    then (b, false)
    else if is_nil (init b.filter)
    then (record b { filter = init b.filter }, true)
    else (apply_filter (record b { filter = init b.filter }), true)

abbrev pub known_suffixes : List Text
known_suffixes =
    codes ".tar.zst"
    ∷ codes ".tar.zsd"
    ∷ codes ".tar.zstd"
    ∷ codes ".tar.xz"
    ∷ codes ".tar.gz"
    ∷ codes ".tar.bz2"
    ∷ codes ".tar.lz4"
    ∷ codes ".tar.br"
    ∷ codes ".img.zst"
    ∷ codes ".img.zsd"
    ∷ codes ".img.zstd"
    ∷ codes ".img.xz"
    ∷ codes ".img.gz"
    ∷ codes ".img.bz2"
    ∷ codes ".img.lz4"
    ∷ codes ".img.br"
    ∷ codes ".zst"
    ∷ codes ".zsd"
    ∷ codes ".zstd"
    ∷ codes ".xz"
    ∷ codes ".gz"
    ∷ codes ".bz2"
    ∷ codes ".lz4"
    ∷ codes ".br"
    ∷ codes ".iso"
    ∷ codes ".img"
    ∷ codes ".bin"
    ∷ codes ".raw"
    ∷ codes ".tar"
    ∷ []

unfoldable pub has_known_image_suffix : Text → Bool
has_known_image_suffix name_lower = any (ends_with name_lower) known_suffixes

-- `composed_save_name`, on the two fields that it reads.
unfoldable pub compose : Text → Option Text → Text
unfolding has_known_image_suffix
compose [] ext = []
compose (c ∷ s) none = c ∷ s
compose (c ∷ s) (some []) = c ∷ s
compose (c ∷ s) (some (x ∷ ext)) =
    let lower = to_ascii_lowercase (c ∷ s) in
    if ends_with lower (to_ascii_lowercase (x ∷ ext)) || has_known_image_suffix lower
    then c ∷ s
    else (c ∷ s) ++ x ∷ ext

unfoldable pub composed_save_name : FileBrowser → Text
unfolding compose
composed_save_name b = compose b.save_name b.desired_extension

-- What entering a directory does, below and above.
unfoldable pub enter_dir : FileSystem → FilePath → FileBrowser → FileBrowser
unfolding refresh focus_save_here
enter_dir fs dir b =
    focus_save_here (refresh fs (record b { cwd = dir; selected = 0; filter = [] }))

unfoldable pub go_parent : FileSystem → FileBrowser → FileBrowser
unfolding parent enter_dir
go_parent fs b = elim (parent b.cwd) [ none ↦ b | some dir ↦ enter_dir fs dir b ]

-- `enter_focused` on a row of each kind.
unfoldable pub enter_row : FileSystem → FileBrowser → EntryKind → Entry → FileBrowser × EnterResult
unfolding go_parent enter_dir composed_save_name
enter_row fs b parent_row entry = (go_parent fs b, navigated)
enter_row fs b save_here entry =
    let name = composed_save_name b in
    if is_nil name then (b, nothing) else (b, picked (name ∷ b.cwd))
enter_row fs b normal entry =
    if entry.is_dir
    then (enter_dir fs entry.path b, navigated)
    else if is_save b.mode
    then (record b { save_name = entry.name }, picked entry.path)
    else (b, picked entry.path)

unfoldable pub enter_focused : FileSystem → FileBrowser → FileBrowser × EnterResult
unfolding enter_row focused
enter_focused fs b = elim (focused b) [
  | none ↦ (b, nothing)
  | some entry ↦ enter_row fs b entry.kind entry
]

unfoldable pub toggle_hidden : FileSystem → FileBrowser → FileBrowser
unfolding refresh
toggle_hidden fs b = refresh fs (record b { show_hidden = not b.show_hidden })

unfoldable pub toggle_all_types : FileSystem → FileBrowser → FileBrowser
unfolding refresh
toggle_all_types fs b = refresh fs (record b { show_all_types = not b.show_all_types })

unfoldable pub update_focus_preview : FileSystem → FileBrowser → FileBrowser
unfolding focused sniff_magic
update_focus_preview fs b = record b {
  focused_magic = elim (focused b) [
    | none ↦ none
    | some e ↦ if is_normal e && not e.is_dir then sniff_magic fs e.path else none
  ];
}
