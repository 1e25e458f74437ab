-- ===== src/Runner/Archive/Reads.antt =====
-- What `walk_and_archive` of crates/tekflash/src/tui/progress_runner.rs reads, against the size that
-- `precompute_total_bytes` finds.
use tekflash.Common.{
  ℕ, ◌+◌, ◌<◌, ◌≡◌, ◌∙◌, refl, sym, ap, subst, Bool, true, false, List, [], ◌∷◌, Option, none, some,
  length, Result, ok, err, arith, Text, FilePath, codes, if◌then◌else◌,
}
use tekflash.Archive.Selection.{ArchiveSelection}
use tekflash.Pipeline.Hasher.{HashCrates}
use tekflash.Runner.Worker.{IoError, WorkerError, Display, open_entry, stat, read_dir}
use tekflash.Runner.Archive.Tree.{
  Node, unreadable, symlink, file, locked, dir, Entries, nil, entry, is_system_metadata, relative,
  keeps, precompute_total_bytes,
}
use tekflash.Runner.Archive.Walk.{
  is_skippable_io_error, TarHost, Walk, Visit, AppendError, insert, sort, run_all, skip_or_fail,
  appended, archive_file, archive_link, under_header, archive_dir, tick_due, guarded,
  unless_metadata, walk_and_archive, visits, text_lt, send_skip_tick,
}
use tekflash.Runner.Archive.Totals.{kept_len, kept_lens, size, precompute_total_bytes_lem}

-- A tree that both walks see alike: what cannot be read may be skipped, and a file's content is as
-- long as its metadata says.
unfoldable mutual
  unfolding is_skippable_io_error

  pub Steady : Node → Type 0
  Steady (unreadable e) = is_skippable_io_error e ≡ true
  Steady symlink = Unit
  Steady (file len (err e)) = (len ≡ 0) × (is_skippable_io_error e ≡ true)
  Steady (file len (ok content)) = length content ≡ len
  Steady (locked e) = is_skippable_io_error e ≡ true
  Steady (dir es) = AllSteady es

  pub AllSteady : Entries → Type 0
  AllSteady nil = Unit
  AllSteady (entry name node es) = Steady node × AllSteady es

-- A builder that never fails, and reads a file's content to its end.
pub record TarLaws (tar : TarHost) : Type 0 where
  pub heads : (b : tar.Builder) (rel path : FilePath) → (tar.dir_header b rel path).1 ≡ none
  pub links : (b : tar.Builder) (path rel : FilePath) → (tar.link_header b path rel).1 ≡ none
  pub reads :
      (b : tar.Builder) (len : ℕ) (rel : FilePath) (content : List ℕ)
      → (b' : tar.Builder) × (tar.file_data b len rel content ≡ (content, b', none))

module _ (c : HashCrates) (tar : TarHost) (laws : TarLaws tar) (d : Display) where
  -- A visit that ends without an error and reads `k` bytes.
  abbrev Reads : Visit c tar d → ℕ → Type 0
  Reads visit k = (w : Walk c tar) → ((visit w).1 ≡ none) × ((visit w).0.bytes_in ≡ w.bytes_in + k)

  abbrev AllRead : List (Text × Visit c tar d) → ℕ → Type 0
  AllRead [] k = k ≡ 0
  AllRead ((name, visit) ∷ visits) k =
      (a : ℕ) × (b : ℕ) × Reads visit a × AllRead visits b × (k ≡ a + b)

  insert-AllRead :
      (x : Text × Visit c tar d) (xs : List (Text × Visit c tar d)) (a b : ℕ)
      → Reads x.1 a
      → AllRead xs b
      → AllRead (insert x xs) (a + b)
  insert-AllRead x [] a b ra rb = (a, 0, ra, refl, omega arith)
  insert-AllRead x (y ∷ ys) a b ra (a', b', ra', rb', e) =
      elim (text_lt y.0 x.0) as (λ t. AllRead (if t then y ∷ insert x ys else x ∷ y ∷ ys) (a + b)) [
        | true ↦ (a', a + b', ra', insert-AllRead x ys a b' ra rb', omega (arith, e))
        | false ↦ (a, b, ra, (a', b', ra', rb', e), refl)
      ]

  sort-AllRead : (xs : List (Text × Visit c tar d)) (k : ℕ) → AllRead xs k → AllRead (sort xs) k
  sort-AllRead [] k h = h
  sort-AllRead (x ∷ xs) k (a, b, ra, rb, e) =
      subst (AllRead (sort (x ∷ xs))) (sym e)
        (insert-AllRead x (sort xs) a b ra (sort-AllRead xs b rb))

  run_all-Reads :
      (xs : List (Text × Visit c tar d)) (k : ℕ) → AllRead xs k → Reads (run_all c tar d xs) k
  run_all-Reads [] k h w = (refl, omega (arith, h))
  run_all-Reads ((name, visit) ∷ xs) k (a, b, ra, rb, e) w =
      let (f, n) = ra w in
      let (g, m) = run_all-Reads xs b rb (visit w).0 in rw (f, run_all) (g, omega (arith, m, n, e))

  skip_or_fail-Reads :
      (fail : IoError → WorkerError) (rel : FilePath) (e : IoError)
      → is_skippable_io_error e ≡ true
      → Reads (skip_or_fail c tar d fail rel e) 0
  unfolding skip_or_fail
  skip_or_fail-Reads fail rel e h w = rw h (refl, omega arith)

  archive_file-Reads :
      (path rel : FilePath) (len : ℕ) (content : Result IoError (List ℕ))
      → Steady (file len content)
      → Reads (archive_file c tar d path rel len content) len
  unfolding archive_file appended Steady
  archive_file-Reads path rel len (err e) (z, h) w =
      let (f, n) = skip_or_fail-Reads (open_entry path) rel e h w in (f, omega (arith, n, z))
  archive_file-Reads path rel len (ok content) h w =
      let (b', r) = laws.reads w.builder len rel content in rw r (refl, omega (arith, h))

  archive_link-Reads : (path rel : FilePath) → Reads (archive_link c tar d path rel) 0
  unfolding archive_link appended
  archive_link-Reads path rel w = rw (laws.links w.builder path rel) (refl, omega arith)

  under_header-Reads :
      (path rel : FilePath) (children : Visit c tar d) (k : ℕ) (w : Walk c tar) (b : tar.Builder)
      (failure : Option AppendError)
      → Reads children k
      → failure ≡ none
      → ((under_header c tar d path rel children (b, failure) w).1 ≡ none)
        × ((under_header c tar d path rel children (b, failure) w).0.bytes_in ≡ w.bytes_in + k)
  under_header-Reads path rel children k w b none r h = r (record w { builder = b })
  under_header-Reads path rel children k w b (some e) r h = cc

  archive_dir-Reads :
      (path rel : FilePath) (children : Visit c tar d) (k : ℕ)
      → Reads children k
      → Reads (archive_dir c tar d path rel children) k
  unfolding archive_dir
  archive_dir-Reads path [] children k r w = r w
  archive_dir-Reads path (name ∷ rel) children k r w =
      under_header-Reads path (name ∷ rel) children k w _ _ r
        (laws.heads w.builder (name ∷ rel) path)

  module _ {G : Type 0} (is_match : G → FilePath → Bool) (sel : Option (ArchiveSelection G))
      (due : FilePath → Bool) (base : FilePath) where
    tick_due-bytes_in :
        (now : Bool) (rel : FilePath) (directory : Bool) (w : Walk c tar)
        → (tick_due c tar d now rel directory w).bytes_in ≡ w.bytes_in
    tick_due-bytes_in true rel directory w = refl
    tick_due-bytes_in false rel directory w = refl

    guarded-Reads :
        (path : FilePath) (directory : Bool) (body : Visit c tar d) (k : ℕ)
        → Reads body k
        → Reads
            (guarded c tar d is_match sel due base path directory body)
            (if keeps is_match sel base path directory then k else 0)
    unfolding guarded
    guarded-Reads path directory body k r w =
        let w' = tick_due c tar d (due path) (relative base path) directory w in
        elim (keeps is_match sel base path directory)
          as (λ b.
            ((if b then body w' else (w, none)).1 ≡ none)
            × ((if b then body w' else (w, none)).0.bytes_in ≡ w.bytes_in + (if b then k else 0))) [
              | true ↦
                  let (f, n) = r w' in
                  (
                    f,
                    omega (arith, n, tick_due-bytes_in (due path) (relative base path) directory w),
                  )
              | false ↦ (refl, omega arith)
            ]

    unless_metadata-Reads :
        (path : FilePath) (body : Visit c tar d) (k : ℕ)
        → Reads body k
        → Reads
            (unless_metadata c tar d is_match sel due base path body)
            (if is_system_metadata (relative base path) then 0 else k)
    unfolding unless_metadata send_skip_tick
    unless_metadata-Reads path body k r w =
        let w' = send_skip_tick c tar d (codes "system metadata") (relative base path) w in
        elim (is_system_metadata (relative base path))
          as (λ b.
            ((if b then (w', none) else body w).1 ≡ none)
            × ((if b then (w', none) else body w).0.bytes_in ≡ w.bytes_in + (if b then 0 else k))) [
              | true ↦ (refl, omega arith)
              | false ↦ r w
            ]

    -- What is never counted: both tests pass over nothing.
    nothing : (b : Bool) (visit : Visit c tar d) → Reads visit (if b then 0 else 0) → Reads visit 0
    nothing true visit r = r
    nothing false visit r = r

    both-Reads :
        (path : FilePath) (directory : Bool) (body : Visit c tar d) (k : ℕ)
        → Reads body k
        → Reads
            (unless_metadata c tar d is_match sel due base path
              (guarded c tar d is_match sel due base path directory body))
            (if is_system_metadata (relative base path)
              then 0
              else if keeps is_match sel base path directory
              then k
              else 0)
    both-Reads path directory body k r =
        unless_metadata-Reads path (guarded c tar d is_match sel due base path directory body) _
          (guarded-Reads path directory body k r)

    both-nothing :
        (path : FilePath) (directory : Bool) (body : Visit c tar d)
        → Reads body 0
        → Reads
            (unless_metadata c tar d is_match sel due base path
              (guarded c tar d is_match sel due base path directory body))
            0
    both-nothing path directory body r =
        let visit = guarded c tar d is_match sel due base path directory body in
        nothing (is_system_metadata (relative base path))
          (unless_metadata c tar d is_match sel due base path visit)
          (unless_metadata-Reads path visit 0 (
            nothing (keeps is_match sel base path directory) visit
              (guarded-Reads path directory body 0 r)))

    mutual
      unfolding walk_and_archive kept_len Steady

      walk_and_archive-Reads :
          (path : FilePath) (node : Node)
          → Steady node
          → Reads
              (walk_and_archive c tar d is_match sel due base path node)
              (kept_len is_match sel base path node)
      walk_and_archive-Reads path (unreadable e) h =
          let visit = skip_or_fail c tar d (stat path) (relative base path) e in
          nothing (is_system_metadata (relative base path))
            (unless_metadata c tar d is_match sel due base path visit)
            (unless_metadata-Reads path visit 0
              (skip_or_fail-Reads (stat path) (relative base path) e h))
      walk_and_archive-Reads path symlink h =
          both-nothing path false (archive_link c tar d path (relative base path))
            (archive_link-Reads path (relative base path))
      walk_and_archive-Reads path (file len content) h =
          both-Reads path false (archive_file c tar d path (relative base path) len content) len
            (archive_file-Reads path (relative base path) len content h)
      walk_and_archive-Reads path (locked e) h =
          both-nothing path true
            (archive_dir c tar d path (relative base path)
              (skip_or_fail c tar d (read_dir path) (relative base path) e))
            (archive_dir-Reads path (relative base path)
              (skip_or_fail c tar d (read_dir path) (relative base path) e) 0
              (skip_or_fail-Reads (read_dir path) (relative base path) e h))
      walk_and_archive-Reads path (dir es) h =
          let below = sort (visits c tar d is_match sel due base path es) in
          let len = kept_lens is_match sel base path es in
          both-Reads path true
            (archive_dir c tar d path (relative base path) (run_all c tar d below)) len
            (archive_dir-Reads path (relative base path) (run_all c tar d below) len (
              run_all-Reads below len (
                sort-AllRead (visits c tar d is_match sel due base path es) len
                  (visits-AllRead path es h))))

      visits-AllRead :
          (path : FilePath) (es : Entries)
          → AllSteady es
          → AllRead
              (visits c tar d is_match sel due base path es)
              (kept_lens is_match sel base path es)
      visits-AllRead path nil h = refl
      visits-AllRead path (entry name node es) (h, hs) = (
        kept_len is_match sel base (name ∷ path) node,
        kept_lens is_match sel base path es,
        walk_and_archive-Reads (name ∷ path) node h,
        visits-AllRead path es hs,
        refl,
      )

    -- On a tree that does not change and with a builder that does not fail, the walk ends without an
    -- error and has read as many bytes as `precompute_total_bytes` finds, given more fuel than the
    -- tree has entries.
    pub walk_and_archive-precompute_total_bytes :
        (fuel : ℕ) (node : Node) (w : Walk c tar)
        → Steady node
        → size node < fuel
        → ((walk_and_archive c tar d is_match sel due base base node w).1 ≡ none)
          × ((walk_and_archive c tar d is_match sel due base base node w).0.bytes_in
              ≡ w.bytes_in + precompute_total_bytes is_match sel fuel base node)
    walk_and_archive-precompute_total_bytes fuel node w steady lt =
        let (f, n) = walk_and_archive-Reads base node steady w in
        (
          f,
          n
              ∙ ap (λ x. w.bytes_in + x)
                  (sym (precompute_total_bytes_lem is_match sel base fuel node lt)),
        )
