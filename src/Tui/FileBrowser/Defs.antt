-- ===== src/Tui/FileBrowser/Defs.antt =====
-- crates/tekflash/src/tui/views/file_browser.rs. What the operating system answers at a call is the
-- call's `FileSystem`. A name or a path joined to a directory is one more component of it.
use tekflash.Common.{
  ℕ, Bool, true, false, not, ◌&&◌, ◌||◌, List, [], ◌∷◌, Option, none, some, Text, codes,
  starts_with, FilePath, parent, ◌==◌, ltb, if◌then◌else◌,
}
use tekflash.Pipeline.Format.{InputFormat, detect, detect_by_extension}

pub record Metadata : Type 0 where
  pub is_dir : Bool
  pub len : ℕ
  pub modified : Option ℕ

-- One entry of `std::fs::read_dir`; `none` where its metadata cannot be read.
pub record DirEntry : Type 0 where
  pub file_name : Text
  pub metadata : Option Metadata

pub record FileSystem : Type 0 where
  pub read_dir : FilePath → Option (List DirEntry)
  pub canonicalize : FilePath → Option FilePath
  -- The first 16 bytes of a file, where it can be opened and read.
  pub read_head : FilePath → Option (List ℕ)
  pub display : FilePath → Text
  pub default_start_dir : FilePath

pub data BrowseMode : Type 0 where
  opening saving : BrowseMode

pub data EntryKind : Type 0 where
  normal parent_row save_here : EntryKind

pub record Entry : Type 0 where
  pub kind : EntryKind
  pub path : FilePath
  pub name : Text
  pub is_dir : Bool
  pub size : ℕ
  pub mtime : Option ℕ
  pub format_hint : Option InputFormat

pub data EnterResult : Type 0 where
  navigated nothing : EnterResult
  picked : FilePath → EnterResult

pub record FileBrowser : Type 0 where
  pub cwd : FilePath
  pub mode : BrowseMode
  pub entries : List Entry
  pub selected : ℕ
  pub show_hidden : Bool
  pub show_all_types : Bool
  pub focused_magic : Option InputFormat
  pub save_name : Text
  pub desired_extension : Option Text
  pub filter : Text

abbrev pub is_save : BrowseMode → Bool
is_save opening = false
is_save saving = true

abbrev pub is_save_here : Entry → Bool
is_save_here e = elim e.kind [ save_here ↦ true | _ ↦ false ]

abbrev pub is_normal : Entry → Bool
is_normal e = elim e.kind [ normal ↦ true | _ ↦ false ]

abbrev pub or_else {ℓ} : {A : Type ℓ} → Option A → A → A
or_else none a = a
or_else (some b) a = b

unfoldable pub rank_hint : Option InputFormat → ℕ
rank_hint (some InputFormat.raw) = 1
rank_hint (some InputFormat.zstd) = 1
rank_hint (some InputFormat.xz) = 1
rank_hint (some InputFormat.gzip) = 1
rank_hint (some _) = 2
rank_hint none = 3

unfoldable pub rank : Entry → ℕ
unfolding rank_hint
rank e = if e.is_dir then 0 else rank_hint e.format_hint

-- The order of `String`: by code points, which is that of the bytes.
unfoldable pub text_le : Text → Text → Bool
text_le [] t = true
text_le (c ∷ s) [] = false
text_le (c ∷ s) (d ∷ t) = ltb c d || (c == d && text_le s t)

unfoldable pub entry_le : Bool → Entry → Entry → Bool
unfolding rank text_le
entry_le true a b =
    if a.is_dir && not b.is_dir
    then true
    else if not a.is_dir && b.is_dir
    then false
    else text_le a.name b.name
entry_le false a b = ltb (rank a) (rank b) || (rank a == rank b && text_le a.name b.name)

-- `sort_by` is stable: of two equal entries the earlier one stays ahead.
unfoldable pub insert : (Entry → Entry → Bool) → Entry → List Entry → List Entry
insert le e [] = e ∷ []
insert le e (x ∷ xs) = let rest = insert le e xs in if le e x then e ∷ x ∷ xs else x ∷ rest

unfoldable pub sort : (Entry → Entry → Bool) → List Entry → List Entry
unfolding insert
sort le [] = []
sort le (x ∷ xs) = insert le x (sort le xs)

module _ (fs : FileSystem) where
  unfoldable pub entry_of : FilePath → DirEntry → Metadata → Entry
  entry_of dir d meta = record {
    kind = normal;
    path = d.file_name ∷ dir;
    name = d.file_name;
    is_dir = meta.is_dir;
    size = meta.len;
    mtime = meta.modified;
    format_hint =
        if meta.is_dir then none else detect_by_extension (fs.display (d.file_name ∷ dir));
  }

  unfoldable pub keep_entries : FilePath → Bool → List DirEntry → List Entry
  unfolding entry_of starts_with
  keep_entries dir show_hidden [] = []
  keep_entries dir show_hidden (d ∷ ds) =
      let rest = keep_entries dir show_hidden ds in
      if not show_hidden && starts_with d.file_name (codes ".")
      then rest
      else elim d.metadata [ none ↦ rest | some meta ↦ entry_of dir d meta ∷ rest ]

  unfoldable pub read_dir : FilePath → Bool → List Entry
  unfolding keep_entries
  read_dir dir show_hidden = elim (fs.read_dir dir) [
    | none ↦ []
    | some ds ↦ keep_entries dir show_hidden ds
  ]

  unfoldable pub sniff_magic : FilePath → Option InputFormat
  sniff_magic path = elim (fs.read_head path) [ none ↦ none | some head ↦ some (detect head) ]

unfoldable pub save_row : FilePath → Entry
save_row cwd = record {
  kind = save_here;
  path = cwd;
  name = codes ".";
  is_dir = false;
  size = 0;
  mtime = none;
  format_hint = none;
}

unfoldable pub up_row : FilePath → Entry
unfolding parent
up_row cwd = record {
  kind = parent_row;
  path = or_else (parent cwd) cwd;
  name = codes "..";
  is_dir = true;
  size = 0;
  mtime = none;
  format_hint = none;
}
