-- ===== src/Runner/Archive/Walk.antt =====
-- `walk_and_archive` of crates/tekflash/src/tui/progress_runner.rs.
use tekflash.Common.{
  ℕ, ◌+◌, Bool, true, false, List, [], ◌∷◌, ◌++◌, Option, none, some, Result, ok, err, Text,
  FilePath, codes, ltb, ◌==◌, length, if◌then◌else◌,
}
use tekflash.Archive.Selection.{ArchiveSelection}
use tekflash.Pipeline.Hasher.{HashCrates, Hasher, update}
use tekflash.Runner.Progress.{BackupEvent, tick}
use tekflash.Runner.Worker.{
  Display, IoError, permission_denied, not_found, WorkerError, stat, read_dir, open_entry,
  append_dir, append_symlink, append_data,
}
use tekflash.Runner.Archive.Tree.{
  Node, unreadable, symlink, file, locked, dir, Entries, nil, entry, is_system_metadata, relative,
  keeps,
}

unfoldable pub is_skippable_io_error : IoError → Bool
is_skippable_io_error e = elim e.kind [ permission_denied ↦ true | not_found ↦ true | _ ↦ false ]

-- An error of the builder: `inner` is the `io::Error` inside it, where there is one.
pub record AppendError : Type 0 where
  pub error : IoError
  pub inner : Option IoError

-- `tar::Builder` over the encoder and its file. An append hands the builder back also where it fails;
-- `file_data` has read some bytes of the content.
pub record TarHost : Type 1 where
  pub Builder : Type 0
  pub dir_header : Builder → (rel path : FilePath) → Builder × Option AppendError
  pub link_header : Builder → (path rel : FilePath) → Builder × Option AppendError
  pub file_data :
      Builder
      → (len : ℕ) → (rel : FilePath) → (content : List ℕ) → List ℕ × Builder × Option AppendError
  pub finish : Builder → Result IoError Builder
  pub counted : Builder → ℕ

-- What the walk changes: the builder, the hasher, the count and the events that were sent.
pub record Walk (c : HashCrates) (tar : TarHost) : Type 0 where
  pub builder : tar.Builder
  pub hasher : Hasher c
  pub bytes_in : ℕ
  pub sent : List BackupEvent

-- `sort` on the paths of a directory's entries, which differ in their last component.
abbrev pub text_lt : Text → Text → Bool
text_lt s [] = false
text_lt [] (d ∷ t) = true
text_lt (a ∷ s) (d ∷ t) = if a == d then text_lt s t else ltb a d

module _ {A : Type 0} where
  abbrev pub insert : Text × A → List (Text × A) → List (Text × A)
  insert e [] = e ∷ []
  insert e (x ∷ xs) = if text_lt x.0 e.0 then x ∷ insert e xs else e ∷ x ∷ xs

  abbrev pub sort : List (Text × A) → List (Text × A)
  sort [] = []
  sort (x ∷ xs) = insert x (sort xs)

module _ (c : HashCrates) (tar : TarHost) (d : Display) where
  abbrev pub Visit : Type 0
  Visit = Walk c tar → Walk c tar × Option WorkerError

  abbrev pub send : Option Text → Option Text → Walk c tar → Walk c tar
  send current_file current_dir w = record w {
    sent = w.sent ++ tick w.bytes_in (tar.counted w.builder) current_file current_dir ∷ [];
  }

  unfoldable pub send_skip_tick : Text → FilePath → Walk c tar → Walk c tar
  send_skip_tick reason rel w =
      send (some (codes "skipped (" ++ reason ++ codes "): " ++ d.path rel)) none w

  -- An error that may be skipped is shown and the entry left; another ends the walk.
  unfoldable pub skip_or_fail : (IoError → WorkerError) → FilePath → IoError → Visit
  unfolding send_skip_tick is_skippable_io_error
  skip_or_fail fail rel e w =
      if is_skippable_io_error e
      then (send_skip_tick (d.kind e.kind) rel w, none)
      else (w, some (fail e))

  -- The same for an error of the builder, whose inner error decides.
  unfoldable pub appended : Text → (IoError → WorkerError) → FilePath → Option AppendError → Visit
  unfolding send_skip_tick is_skippable_io_error
  appended reason fail rel none w = (w, none)
  appended reason fail rel (some e) w = elim e.inner [
    | none ↦ (w, some (fail e.error))
    | some io ↦
        if is_skippable_io_error io
        then (send_skip_tick reason rel w, none)
        else (w, some (fail e.error))
  ]

  -- The children in order, up to an error.
  abbrev pub run_all : List (Text × Visit) → Visit
  run_all [] w = (w, none)
  run_all ((name, visit) ∷ visits) w =
      let (w', failure) = visit w in
      elim failure [ none ↦ run_all visits w' | some e ↦ (w', some e) ]

  -- `CountingHashingReader` behind `append_data`.
  unfoldable pub archive_file : (path rel : FilePath) → ℕ → Result IoError (List ℕ) → Visit
  unfolding skip_or_fail appended update
  archive_file path rel len (err e) w = skip_or_fail (open_entry path) rel e w
  archive_file path rel len (ok content) w =
      let (bytes, builder, failure) = tar.file_data w.builder len rel content in
      appended (codes "read") (append_data path) rel failure (record w {
        builder = builder;
        hasher = update c w.hasher bytes;
        bytes_in = w.bytes_in + length bytes;
      })

  unfoldable pub archive_link : (path rel : FilePath) → Visit
  unfolding appended
  archive_link path rel w =
      let (builder, failure) = tar.link_header w.builder path rel in
      appended (codes "symlink") (append_symlink path) rel failure (record w { builder = builder })

  abbrev pub under_header : (path rel : FilePath) → Visit → tar.Builder × Option AppendError → Visit
  under_header path rel children (builder, none) w = children (record w { builder = builder })
  under_header path rel children (builder, some e) w =
      appended (codes "dir header") (append_dir path) rel (some e) (record w { builder = builder })

  -- A directory other than the root gets a header; an error of it that may be skipped leaves the
  -- directory out.
  unfoldable pub archive_dir : (path rel : FilePath) → Visit → Visit
  unfolding appended
  archive_dir path [] children w = children w
  archive_dir path (name ∷ rel) children w =
      under_header path (name ∷ rel) children (tar.dir_header w.builder (name ∷ rel) path) w

  abbrev pub tick_due : Bool → FilePath → Bool → Walk c tar → Walk c tar
  tick_due false rel directory w = w
  tick_due true rel directory w =
      send (some (d.path rel)) (if directory then some (d.path rel) else none) w

  module _ {G : Type 0} (is_match : G → FilePath → Bool) (sel : Option (ArchiveSelection G))
      (due : FilePath → Bool) (base : FilePath) where
    -- The tests and the tick before an entry that has metadata is archived; `due` says whether the
    -- clock has run for the tick's interval there.
    unfoldable pub guarded : (path : FilePath) → Bool → Visit → Visit
    unfolding keeps
    guarded path directory body w =
        if keeps is_match sel base path directory
        then body (tick_due (due path) (relative base path) directory w)
        else (w, none)

    unfoldable pub unless_metadata : (path : FilePath) → Visit → Visit
    unfolding is_system_metadata send_skip_tick
    unless_metadata path body w =
        if is_system_metadata (relative base path)
        then (send_skip_tick (codes "system metadata") (relative base path) w, none)
        else body w

    unfoldable mutual
      unfolding guarded unless_metadata skip_or_fail archive_file archive_link archive_dir

      pub walk_and_archive : (path : FilePath) → Node → Visit
      walk_and_archive path (unreadable e) =
          unless_metadata path (skip_or_fail (stat path) (relative base path) e)
      walk_and_archive path symlink =
          unless_metadata path (guarded path false (archive_link path (relative base path)))
      walk_and_archive path (file len content) =
          unless_metadata path
            (guarded path false (archive_file path (relative base path) len content))
      walk_and_archive path (locked e) = unless_metadata path (
          guarded path true (
            archive_dir path (relative base path)
              (skip_or_fail (read_dir path) (relative base path) e)))
      walk_and_archive path (dir es) = unless_metadata path (
          guarded path true
            (archive_dir path (relative base path) (run_all (sort (visits path es)))))

      -- The walk of each entry of a listing.
      pub visits : (path : FilePath) → Entries → List (Text × Visit)
      visits path nil = []
      visits path (entry name node es) =
          (name, walk_and_archive (name ∷ path) node) ∷ visits path es
