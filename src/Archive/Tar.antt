-- ===== src/Archive/Tar.antt =====
-- `archive_tree` of crates/tekflash-core/src/archive/tar.rs. The builder of the tar crate and the text
-- of a path (`to_string_lossy`) are parameters.
pub mod Plan
use tekflash.Common.{
  ℕ, Bool, true, false, List, [], ◌∷◌, Option, none, some, Result, ok, err, ◌>>=◌, Text, FilePath,
  ends_with, contains, any, strip_prefix, if◌then◌else◌, ◌==◌,
}
use tekflash.Archive.Selection.{or_self}

-- What the file system has at a path: an entry that has no metadata to read, a symbolic link, a file
-- with what comes of opening it, a directory that cannot be listed, or one with its entries.
mutual
  pub data Node (E : Type 0) : Type 0 where
    unreadable : E → Node E
    symlink : Node E
    file : Result E (List ℕ) → Node E
    locked : E → Node E
    dir : Entries E → Node E

  -- The entries in the order of the listing, which may break off with an error.
  pub data Entries (E : Type 0) : Type 0 where
    nil : Entries E
    broken : E → Entries E
    entry : (name : Text) → Node E → Entries E → Entries E

-- The steps whose errors the archive ends with.
pub data TarError (E : Type 0) : Type 0 where
  stat : FilePath → E → TarError E
  append_dir : FilePath → E → TarError E
  read_dir : FilePath → E → TarError E
  next_entry : E → TarError E
  append_symlink : FilePath → E → TarError E
  open_file : FilePath → E → TarError E
  append_file : FilePath → E → TarError E
  finalize : E → TarError E

-- `tar::Builder`.
pub record TarBuilder (E : Type 0) : Type 1 where
  pub State : Type 0
  pub append_dir : (rel path : FilePath) → State → Result E State
  pub append_path_with_name : (path rel : FilePath) → State → Result E State
  pub append_file : (rel : FilePath) → (content : List ℕ) → State → Result E State
  pub finish : State → Result E State

abbrev pub context : {E A : Type 0} → (E → TarError E) → Result E A → Result (TarError E) A
context f (err e) = err (f e)
context f (ok a) = ok a

-- A pattern that begins with `*` is a suffix; any other one may stand anywhere in the path.
unfoldable pub simple_match : (FilePath → Text) → Text → FilePath → Bool
unfolding ends_with contains
simple_match shown [] path = true
simple_match shown (c ∷ suffix) path =
    if c == b'*' then ends_with (shown path) suffix else contains (shown path) (c ∷ suffix)

module _ {E : Type 0} (tar : TarBuilder E) (shown : FilePath → Text) (excludes : List Text)
    (base : FilePath) where
  unfoldable pub excluded : FilePath → Bool
  unfolding simple_match
  excluded path = any (λ p. simple_match shown p path) excludes

  abbrev pub relative : FilePath → FilePath
  relative path = or_self (strip_prefix path base) path

  -- The root has no header of its own.
  abbrev pub dir_header : (rel path : FilePath) → tar.State → Result (TarError E) tar.State
  dir_header [] path b = ok b
  dir_header (n ∷ rel) path b = context (append_dir path) (tar.append_dir (n ∷ rel) path b)

  abbrev pub add_file : FilePath → Result E (List ℕ) → tar.State → Result (TarError E) tar.State
  add_file path opened b = do
    f ← context (open_file path) opened
    context (append_file path) (tar.append_file (relative path) f b)

  unfoldable mutual
    unfolding excluded

    pub walk : (path : FilePath) → Node E → tar.State → Result (TarError E) tar.State
    walk path (unreadable e) b = if excluded path then ok b else err (stat path e)
    walk path symlink b =
        if excluded path
        then ok b
        else context (append_symlink path) (tar.append_path_with_name path (relative path) b)
    walk path (file opened) b = if excluded path then ok b else add_file path opened b
    walk path (locked e) b =
        if excluded path
        then ok b
        else (dir_header (relative path) path b >>= λ b'. err (read_dir path e))
    walk path (dir es) b =
        if excluded path
        then ok b
        else (dir_header (relative path) path b >>= λ b'. walk_entries path es b')

    -- The loop over the listing of a directory.
    pub walk_entries : (path : FilePath) → Entries E → tar.State → Result (TarError E) tar.State
    walk_entries path nil b = ok b
    walk_entries path (broken e) b = err (next_entry e)
    walk_entries path (entry name node es) b =
        walk (name ∷ path) node b >>= λ b'. walk_entries path es b'

-- The archive of everything under `root`.
unfoldable pub archive_tree :
    {E : Type 0} (tar : TarBuilder E) (shown : FilePath → Text)
    → (root : FilePath) → Node E
    → List Text
    → tar.State
    → Result (TarError E) tar.State
unfolding walk
archive_tree tar shown root node excludes b = do
  b' ← walk tar shown excludes root root node b
  context finalize (tar.finish b')
