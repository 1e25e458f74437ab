-- ===== src/Runner/Archive/Tree.antt =====
-- A tree of files as the two walks of crates/tekflash/src/tui/progress_runner.rs meet it, the test
-- for what is kept, and `precompute_total_bytes`.
use tekflash.Common.{
  ℕ, zero, suc, ◌+◌, Bool, true, false, List, [], ◌∷◌, Option, none, some, Result, Text, FilePath,
  codes, text_eq, any, path_starts_with, strip_prefix, if◌then◌else◌, ◌&&◌, ◌||◌,
}
use tekflash.Archive.Selection.{ArchiveSelection, is_included, or_self}
use tekflash.Runner.Worker.{IoError}

-- What the file system has at a path: an entry that has no metadata to read, a symbolic link, a file
-- with its length and what comes of opening it, or a directory with what comes of listing it.
mutual
  pub data Node : Type 0 where
    unreadable : IoError → Node
    symlink : Node
    file : (len : ℕ) → Result IoError (List ℕ) → Node
    locked : IoError → Node
    dir : Entries → Node

  -- The entries in the order of the listing; those that fail are not among them.
  pub data Entries : Type 0 where
    nil : Entries
    entry : (name : Text) → Node → Entries → Entries

abbrev pub system_metadata_dirs : List Text
system_metadata_dirs =
    codes ".Spotlight-V100"
    ∷ codes ".fseventsd"
    ∷ codes ".Trashes"
    ∷ codes ".TemporaryItems"
    ∷ codes ".DocumentRevisions-V100"
    ∷ codes ".HFS+ Private Directory Data\r"
    ∷ codes ".HFS+ Private Data"
    ∷ codes ".vol"
    ∷ codes "System Volume Information"
    ∷ codes "$RECYCLE.BIN"
    ∷ []

-- The first component of a path, which is written last.
abbrev pub first_component : FilePath → Option Text
first_component [] = none
first_component (name ∷ []) = some name
first_component (name ∷ next ∷ above) = first_component (next ∷ above)

abbrev named : Option Text → Bool
named none = false
named (some name) = any (text_eq name) system_metadata_dirs

unfoldable pub is_system_metadata : FilePath → Bool
unfolding text_eq
is_system_metadata rel = named (first_component rel)

abbrev pub is_dir : Node → Bool
is_dir (locked e) = true
is_dir (dir es) = true
is_dir _ = false

abbrev pub relative : (base path : FilePath) → FilePath
relative base path = or_self (strip_prefix path base) path

abbrev pub push : FilePath → Entries → List (FilePath × Node) → List (FilePath × Node)
push path nil stack = stack
push path (entry name node es) stack = push path es ((name ∷ path, node) ∷ stack)

-- What an entry adds to the total, and the stack behind it.
abbrev pub counted : FilePath → Node → List (FilePath × Node) → ℕ × List (FilePath × Node)
counted path (unreadable e) stack = (0, stack)
counted path symlink stack = (0, stack)
counted path (file len content) stack = (len, stack)
counted path (locked e) stack = (0, stack)
counted path (dir es) stack = (0, push path es stack)

module _ {G : Type 0} (is_match : G → FilePath → Bool) where
  -- The test of both walks for an entry that has metadata.
  unfoldable pub keeps : Option (ArchiveSelection G) → (base path : FilePath) → Bool → Bool
  keeps none base path directory = true
  keeps (some sel) base path directory =
      is_included is_match sel path base
      || directory && any (λ inc. path_starts_with inc path) sel.included

  unfoldable pub pop :
      Option (ArchiveSelection G)
      → (base path : FilePath) → Node
      → List (FilePath × Node)
      → ℕ × List (FilePath × Node)
  unfolding keeps is_system_metadata
  pop sel base path (unreadable e) stack = (0, stack)
  pop sel base path node stack =
      if is_system_metadata (relative base path)
      then (0, stack)
      else if keeps sel base path (is_dir node)
      then counted path node stack
      else (0, stack)

  -- The loop over the stack, whose top is its first element.
  unfoldable pub total_of :
      Option (ArchiveSelection G) → FilePath → ℕ → List (FilePath × Node) → ℕ → ℕ
  unfolding pop
  total_of sel base zero stack total = total
  total_of sel base (suc fuel) [] total = total
  total_of sel base (suc fuel) ((path, node) ∷ stack) total =
      let (len, stack') = pop sel base path node stack in
      total_of sel base fuel stack' (total + len)

  unfoldable pub precompute_total_bytes :
      Option (ArchiveSelection G) → ℕ → (root : FilePath) → Node → ℕ
  unfolding total_of
  precompute_total_bytes sel fuel root node = total_of sel root fuel ((root, node) ∷ []) 0
