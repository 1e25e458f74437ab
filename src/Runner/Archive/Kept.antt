-- ===== src/Runner/Archive/Kept.antt =====
-- What `walk_and_archive` of crates/tekflash/src/tui/progress_runner.rs hands to the builder.
use tekflash.Common.{
  ℕ, ◌≡◌, refl, sym, subst, Bool, true, false, List, [], ◌∷◌, ◌++◌, Option, none, some, codes,
  Result, ok, err, Text, FilePath, if◌then◌else◌,
}
use tekflash.Archive.Selection.{ArchiveSelection}
use tekflash.Pipeline.Hasher.{HashCrates}
use tekflash.Runner.Progress.{BackupEvent, tick}
use tekflash.Runner.Worker.{
  IoError, WorkerError, Display, open_entry, stat, read_dir, append_dir, append_symlink,
  append_data,
}
use tekflash.Runner.Archive.Tree.{
  Node, unreadable, symlink, file, locked, dir, Entries, nil, entry, is_system_metadata, relative,
  keeps,
}
use tekflash.Runner.Archive.Walk.{
  is_skippable_io_error, TarHost, Walk, Visit, AppendError, insert, sort, run_all, skip_or_fail,
  appended, archive_file, archive_link, under_header, archive_dir, tick_due, guarded,
  unless_metadata, walk_and_archive, visits, text_lt, send_skip_tick,
}

module _ (c : HashCrates) (tar : TarHost) (d : Display)
    (Inv : tar.Builder → List BackupEvent → Type 0)
    (sends : (b : tar.Builder) (es : List BackupEvent) (n o : ℕ) (f g : Option Text)
      → Inv b es
      → Inv b (es ++ tick n o f g ∷ [])) where
  abbrev After : Walk c tar × Option WorkerError → Type 0
  After r = Inv r.0.builder r.0.sent

  branch :
      (b : Bool) (x y : Walk c tar × Option WorkerError)
      → (b ≡ true → After x)
      → (b ≡ false → After y)
      → After (if b then x else y)
  branch true x y f g = f refl
  branch false x y f g = g refl

  -- A visit that keeps what holds of the builder.
  abbrev Keeps : Visit c tar d → Type 0
  Keeps visit = (w : Walk c tar) → Inv w.builder w.sent → Inv (visit w).0.builder (visit w).0.sent

  abbrev AllKeep : List (Text × Visit c tar d) → Type 0
  AllKeep [] = Unit
  AllKeep ((name, visit) ∷ visits) = Keeps visit × AllKeep visits

  insert-AllKeep :
      (x : Text × Visit c tar d) (xs : List (Text × Visit c tar d))
      → Keeps x.1
      → AllKeep xs
      → AllKeep (insert x xs)
  insert-AllKeep x [] k h = (k, tt)
  insert-AllKeep x (y ∷ ys) k (j, h) =
      elim (text_lt y.0 x.0) as (λ t. AllKeep (if t then y ∷ insert x ys else x ∷ y ∷ ys)) [
        | true ↦ (j, insert-AllKeep x ys k h)
        | false ↦ (k, (j, h))
      ]

  sort-AllKeep : (xs : List (Text × Visit c tar d)) → AllKeep xs → AllKeep (sort xs)
  sort-AllKeep [] h = h
  sort-AllKeep (x ∷ xs) (k, h) = insert-AllKeep x (sort xs) k (sort-AllKeep xs h)

  run_all-Keeps : (xs : List (Text × Visit c tar d)) → AllKeep xs → Keeps (run_all c tar d xs)
  run_all-Keeps [] h w i = i
  run_all-Keeps ((name, visit) ∷ xs) (k, h) w i =
      let j = k w i in
      elim (visit w).1
        as (λ o.
          After
            (elim o [ none ↦ run_all c tar d xs (visit w).0 | some e ↦ ((visit w).0, some e) ])) [
              | none ↦ run_all-Keeps xs h (visit w).0 j
              | some e ↦ j
            ]

  skip_or_fail-Keeps :
      (fail : IoError → WorkerError) (rel : FilePath) (e : IoError)
      → Keeps (skip_or_fail c tar d fail rel e)
  unfolding skip_or_fail send_skip_tick
  skip_or_fail-Keeps fail rel e w i =
      branch (is_skippable_io_error e) (send_skip_tick c tar d (d.kind e.kind) rel w, none)
        (w, some (fail e)) (λ h. sends w.builder w.sent _ _ _ _ i) (λ h. i)

  appended-Keeps :
      (reason : Text) (fail : IoError → WorkerError) (rel : FilePath) (o : Option AppendError)
      → Keeps (appended c tar d reason fail rel o)
  unfolding appended send_skip_tick
  appended-Keeps reason fail rel none w i = i
  appended-Keeps reason fail rel (some e) w i =
      elim e.inner
        as (λ o. After (elim o [
          | none ↦ (w, some (fail e.error))
          | some io ↦
              if is_skippable_io_error io
              then (send_skip_tick c tar d reason rel w, none)
              else (w, some (fail e.error))
        ])) [
          | none ↦ i
          | some io ↦
              branch (is_skippable_io_error io) (send_skip_tick c tar d reason rel w, none)
                (w, some (fail e.error)) (λ h. sends w.builder w.sent _ _ _ _ i) (λ h. i)
        ]

  tick_due-Keeps :
      (now : Bool) (rel : FilePath) (directory : Bool) (w : Walk c tar)
      → Inv w.builder w.sent
      → Inv
          (tick_due c tar d now rel directory w).builder
          (tick_due c tar d now rel directory w).sent
  tick_due-Keeps true rel directory w i = sends w.builder w.sent _ _ _ _ i
  tick_due-Keeps false rel directory w i = i

  under_header-Keeps :
      (path rel : FilePath) (children : Visit c tar d) (w : Walk c tar) (b : tar.Builder)
      (o : Option AppendError)
      → Keeps children
      → Inv b w.sent
      → After (under_header c tar d path rel children (b, o) w)
  under_header-Keeps path rel children w b none k i = k (record w { builder = b }) i
  under_header-Keeps path rel children w b (some e) k i =
      appended-Keeps (codes "dir header") (append_dir path) rel (some e) (record w { builder = b })
        i

  module _ {G : Type 0} (is_match : G → FilePath → Bool) (sel : Option (ArchiveSelection G))
      (due : FilePath → Bool) (base : FilePath) where
    -- The entry is no metadata of the system's, and the selection keeps it.
    abbrev pub Allowed : FilePath → Bool → Type 0
    Allowed path directory =
        (is_system_metadata (relative base path) ≡ false)
        × (keeps is_match sel base path directory ≡ true)

    -- What holds of the builder stays so where an allowed entry is appended, also by an append that fails.
    abbrev pub Closed : Type 0
    Closed =
        ((b : tar.Builder) (es : List BackupEvent) (path : FilePath)
          → Allowed path true
          → Inv b es
          → Inv (tar.dir_header b (relative base path) path).0 es)
        × ((b : tar.Builder) (es : List BackupEvent) (path : FilePath)
            → Allowed path false
            → Inv b es
            → Inv (tar.link_header b path (relative base path)).0 es)
        × ((b : tar.Builder) (es : List BackupEvent) (path : FilePath) (len : ℕ) (content : List ℕ)
            → Allowed path false
            → Inv b es
            → Inv (tar.file_data b len (relative base path) content).1 es)

    unless_metadata-Keeps :
        (path : FilePath) (visit : Visit c tar d)
        → (is_system_metadata (relative base path) ≡ false → Keeps visit)
        → Keeps (unless_metadata c tar d is_match sel due base path visit)
    unfolding unless_metadata send_skip_tick
    unless_metadata-Keeps path visit k w i =
        branch (is_system_metadata (relative base path))
          (send_skip_tick c tar d (codes "system metadata") (relative base path) w, none) (visit w)
          (λ h. sends w.builder w.sent _ _ _ _ i) (λ h. k h w i)

    guarded-Keeps :
        (path : FilePath) (directory : Bool) (body : Visit c tar d)
        → (Allowed path directory → Keeps body)
        → Keeps (
            unless_metadata c tar d is_match sel due base path
              (guarded c tar d is_match sel due base path directory body))
    unfolding guarded
    guarded-Keeps path directory body k =
        unless_metadata-Keeps path (guarded c tar d is_match sel due base path directory body)
          (λ fine w i.
            branch (keeps is_match sel base path directory)
              (body (tick_due c tar d (due path) (relative base path) directory w)) (w, none)
              (λ kept.
                k (fine, kept) (tick_due c tar d (due path) (relative base path) directory w)
                  (tick_due-Keeps (due path) (relative base path) directory w i))
              (λ h. i))

    module _ (closed : Closed) where
      archive_dir-Keeps :
          (path rel : FilePath) (children : Visit c tar d)
          → rel ≡ relative base path
          → Allowed path true
          → Keeps children
          → Keeps (archive_dir c tar d path rel children)
      unfolding archive_dir
      archive_dir-Keeps path [] children e a k w i = k w i
      archive_dir-Keeps path (name ∷ rel) children e a k w i =
          under_header-Keeps path (name ∷ rel) children w _ _ k (
            subst (λ r. Inv (tar.dir_header w.builder r path).0 w.sent) (sym e)
              (closed.0 w.builder w.sent path a i))

      archive_file-Keeps :
          (path : FilePath) (len : ℕ) (content : Result IoError (List ℕ))
          → Allowed path false
          → Keeps (archive_file c tar d path (relative base path) len content)
      unfolding archive_file
      archive_file-Keeps path len (err e) a w i =
          skip_or_fail-Keeps (open_entry path) (relative base path) e w i
      archive_file-Keeps path len (ok content) a w i =
          appended-Keeps (codes "read") (append_data path) (relative base path) _ _
            (closed.2 w.builder w.sent path len content a i)

      archive_link-Keeps :
          (path : FilePath)
          → Allowed path false
          → Keeps (archive_link c tar d path (relative base path))
      unfolding archive_link
      archive_link-Keeps path a w i =
          appended-Keeps (codes "symlink") (append_symlink path) (relative base path) _ _
            (closed.1 w.builder w.sent path a i)

      mutual
        unfolding walk_and_archive

        -- What appends of allowed entries and ticks keep, the walk keeps.
        pub walk_and_archive-Keeps :
            (path : FilePath) (node : Node) (w : Walk c tar)
            → Inv w.builder w.sent
            → After (walk_and_archive c tar d is_match sel due base path node w)
        walk_and_archive-Keeps path (unreadable e) w i =
            unless_metadata-Keeps path (skip_or_fail c tar d (stat path) (relative base path) e)
              (λ h. skip_or_fail-Keeps (stat path) (relative base path) e) w i
        walk_and_archive-Keeps path symlink w i =
            guarded-Keeps path false (archive_link c tar d path (relative base path))
              (archive_link-Keeps path) w i
        walk_and_archive-Keeps path (file len content) w i =
            guarded-Keeps path false (archive_file c tar d path (relative base path) len content)
              (archive_file-Keeps path len content) w i
        walk_and_archive-Keeps path (locked e) w i =
            let children = skip_or_fail c tar d (read_dir path) (relative base path) e in
            guarded-Keeps path true (archive_dir c tar d path (relative base path) children)
              (λ a.
                archive_dir-Keeps path (relative base path) children refl a
                  (skip_or_fail-Keeps (read_dir path) (relative base path) e))
              w i
        walk_and_archive-Keeps path (dir es) w i =
            let below = sort (visits c tar d is_match sel due base path es) in
            let children = run_all c tar d below in
            guarded-Keeps path true (archive_dir c tar d path (relative base path) children)
              (λ a. archive_dir-Keeps path (relative base path) children refl a (
                run_all-Keeps below (
                  sort-AllKeep (visits c tar d is_match sel due base path es)
                    (visits-AllKeep path es))))
              w i

        visits-AllKeep :
            (path : FilePath) (es : Entries)
            → AllKeep (visits c tar d is_match sel due base path es)
        visits-AllKeep path nil = tt
        visits-AllKeep path (entry name node es) =
            (walk_and_archive-Keeps (name ∷ path) node, visits-AllKeep path es)
