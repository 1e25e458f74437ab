-- ===== src/Archive/Tar/Plan.antt =====
-- What `archive_tree` of crates/tekflash-core/src/archive/tar.rs puts into an archive: the tree without
-- the paths at or below which an exclusion matches.
use mathlib.Core.Path.{fun_ext}
use tekflash.Common.{
  ℕ, ◌≡◌, ◌∙◌, refl, sym, ap, Bool, true, false, not, List, [], ◌∷◌, ◌++◌, some, Result, ok, err,
  ◌>>=◌, Text, FilePath, path_eq, path_eq_refl, path_eq→eq, strip_prefix, length, length-append,
  arith, if◌then◌else◌, ◌&&◌, Bool-cases, inl, inr,
}
use tekflash.Archive.Tar.{
  Node, unreadable, symlink, file, locked, dir, Entries, nil, broken, entry, TarError, stat,
  append_dir, read_dir, next_entry, append_symlink, open_file, append_file, finalize, TarBuilder,
  context, excluded, relative, dir_header, walk, walk_entries, archive_tree,
}

-- One step of an archive, at a path that is relative to the root: the error that ends it, a link, a
-- file with what comes of opening it, or the header of a directory.
pub data TarStep (E : Type 0) : Type 0 where
  stop : TarError E → TarStep E
  put_link : TarStep E
  put_file : Result E (List ℕ) → TarStep E
  put_dir : TarStep E

abbrev pub Step : Type 0 → Type 0
Step E = FilePath × TarStep E

module _ {E : Type 0} (base : FilePath) where
  -- Every step of the tree at `below`, in the order of the listings.
  mutual
    pub steps : (below : FilePath) → Node E → List (Step E)
    steps below (unreadable e) = (below, stop (stat (below ++ base) e)) ∷ []
    steps below symlink = (below, put_link) ∷ []
    steps below (file opened) = (below, put_file opened) ∷ []
    steps below (locked e) = (below, put_dir) ∷ (below, stop (read_dir (below ++ base) e)) ∷ []
    steps below (dir es) = (below, put_dir) ∷ steps_of below es

    pub steps_of : (below : FilePath) → Entries E → List (Step E)
    steps_of below nil = []
    steps_of below (broken e) = (below, stop (next_entry e)) ∷ []
    steps_of below (entry name node es) = steps (name ∷ below) node ++ steps_of below es

module _ {E : Type 0} (tar : TarBuilder E) (base : FilePath) where
  -- What the builder makes of a step; the root has no header.
  pub perform : FilePath → TarStep E → tar.State → Result (TarError E) tar.State
  perform below (stop e) b = err e
  perform below put_link b =
      context (append_symlink (below ++ base)) (tar.append_path_with_name (below ++ base) below b)
  perform below (put_file (err e)) b = err (open_file (below ++ base) e)
  perform below (put_file (ok content)) b =
      context (append_file (below ++ base)) (tar.append_file below content b)
  perform [] put_dir b = ok b
  perform (n ∷ below) put_dir b =
      context (append_dir (n ∷ below ++ base)) (tar.append_dir (n ∷ below) (n ∷ below ++ base) b)

  pub replay : List (Step E) → tar.State → Result (TarError E) tar.State
  replay [] b = ok b
  replay ((below, action) ∷ rest) b = perform below action b >>= replay rest

  >>=-assoc :
      {A B C : Type 0} (m : Result (TarError E) A) (f : A → Result (TarError E) B)
      (g : B → Result (TarError E) C)
      → ((m >>= f) >>= g) ≡ (m >>= λ a. f a >>= g)
  >>=-assoc (err e) f g = refl
  >>=-assoc (ok a) f g = refl

  replay-append :
      (xs ys : List (Step E)) (b : tar.State) → replay (xs ++ ys) b ≡ (replay xs b >>= replay ys)
  unfolding replay
  replay-append [] ys b = refl
  replay-append ((below, action) ∷ xs) ys b =
      ap (◌>>=◌ (perform below action b)) (fun_ext (replay-append xs ys))
      ∙ sym (>>=-assoc (perform below action b) (replay xs) (replay ys))

  >>=-ok : {A : Type 0} (m : Result (TarError E) A) → (m >>= λ a. ok a) ≡ m
  >>=-ok (err e) = refl
  >>=-ok (ok a) = refl

-- Neither the path nor a directory above it, down to the root, is excluded.
pub allowed : (FilePath → Bool) → (base below : FilePath) → Bool
allowed ex base [] = not (ex base)
allowed ex base (n ∷ below) = not (ex (n ∷ below ++ base)) && allowed ex base below

pub keep : {E : Type 0} → (FilePath → Bool) → FilePath → List (Step E) → List (Step E)
keep ex base [] = []
keep ex base ((below, action) ∷ rest) =
    let kept = keep ex base rest in if allowed ex base below then (below, action) ∷ kept else kept

-- What stands below the root is the path behind the root's.
strip_prefix-append : (below base : FilePath) → strip_prefix (below ++ base) base ≡ some below
unfolding strip_prefix
strip_prefix-append [] [] = refl
strip_prefix-append [] (c ∷ base) = rw (path_eq_refl (c ∷ base))
strip_prefix-append (n ∷ below) base = elim (Bool-cases (path_eq (n ∷ below ++ base) base)) [
  | inl h ↦
      let same : n ∷ below ++ base ≡ base = path_eq→eq _ _ h in
      let long : length (n ∷ below ++ base) ≡ length base = ap length same in
      absurd (omega (arith, long, length-append {A = Text} below base))
  | inr h ↦ rw (h, strip_prefix-append below base)
]

allowed-below :
    (ex : FilePath → Bool) (base : FilePath) (n : Text) (below : FilePath)
    → allowed ex base below ≡ false
    → allowed ex base (n ∷ below) ≡ false
unfolding allowed
allowed-below ex base n below h = ground arith

module _ {E : Type 0} (ex : FilePath → Bool) (base : FilePath) where
  keep-append :
      (xs ys : List (Step E)) → keep ex base (xs ++ ys) ≡ keep ex base xs ++ keep ex base ys
  unfolding keep
  keep-append [] ys = refl
  keep-append ((below, action) ∷ xs) ys = elim (Bool-cases (allowed ex base below)) [
    | inl h ↦ rw h (ap (◌∷◌ (below, action)) (keep-append xs ys))
    | inr h ↦ rw h (keep-append xs ys)
  ]

  -- Below an excluded directory nothing is kept.
  mutual
    unfolding keep steps

    keep_none :
        (below : FilePath) (node : Node E)
        → allowed ex base below ≡ false
        → keep ex base (steps base below node) ≡ []
    keep_none below (unreadable e) h = rw h
    keep_none below symlink h = rw h
    keep_none below (file opened) h = rw h
    keep_none below (locked e) h = rw h
    keep_none below (dir es) h = rw h (keep_none_of below es h)

    keep_none_of :
        (below : FilePath) (es : Entries E)
        → allowed ex base below ≡ false
        → keep ex base (steps_of base below es) ≡ []
    keep_none_of below nil h = refl
    keep_none_of below (broken e) h = rw h
    keep_none_of below (entry name node es) h =
        keep-append (steps base (name ∷ below) node) (steps_of base below es)
        ∙ ap (λ xs. xs ++ keep ex base (steps_of base below es))
            (keep_none (name ∷ below) node (allowed-below ex base name below h))
        ∙ keep_none_of below es h

module _ {E : Type 0} (tar : TarBuilder E) (shown : FilePath → Text) (excludes : List Text)
    (base : FilePath) where
  abbrev ex : FilePath → Bool
  ex = excluded tar shown excludes base

  abbrev planned : (below : FilePath) → Node E → tar.State → Result (TarError E) tar.State
  planned below node = replay tar base (keep ex base (steps base below node))

  relative-append : (below : FilePath) → relative tar shown excludes base (below ++ base) ≡ below
  relative-append below = rw (strip_prefix-append below base)

  header_lem :
      (below : FilePath) (b : tar.State)
      → dir_header tar shown excludes base below (below ++ base) b
        ≡ perform tar base below put_dir b
  unfolding perform
  header_lem [] b = refl
  header_lem (n ∷ below) b = refl

  above : FilePath → Bool
  above [] = true
  above (n ∷ below) = allowed ex base below

  allowed-above :
      (below : FilePath) → above below ≡ true → allowed ex base below ≡ not (ex (below ++ base))
  unfolding above allowed
  allowed-above [] h = refl
  allowed-above (n ∷ below) h = ground arith

  walk-excluded :
      (below : FilePath) (node : Node E) (b : tar.State)
      → ex (below ++ base) ≡ true
      → walk tar shown excludes base (below ++ base) node b ≡ ok b
  unfolding walk
  walk-excluded below (unreadable e) b h = rw h
  walk-excluded below symlink b h = rw h
  walk-excluded below (file opened) b h = rw h
  walk-excluded below (locked e) b h = rw h
  walk-excluded below (dir es) b h = rw h

  -- The claim for a node is left to show where its own path is not excluded.
  unless_excluded :
      (below : FilePath) (node : Node E) (b : tar.State)
      → above below ≡ true
      → (ex (below ++ base) ≡ false
          → allowed ex base below ≡ true
          → walk tar shown excludes base (below ++ base) node b ≡ planned below node b)
      → walk tar shown excludes base (below ++ base) node b ≡ planned below node b
  unfolding replay
  unless_excluded below node b h rest = elim (Bool-cases (ex (below ++ base))) [
    | inl out ↦
        let k : allowed ex base below ≡ false = allowed-above below h ∙ ap not out in
        walk-excluded below node b out
        ∙ ap (λ xs. replay tar base xs b) (sym (keep_none ex base below node k))
    | inr in' ↦ rest in' (allowed-above below h ∙ ap not in')
  ]

  mutual
    unfolding walk keep steps replay above perform

    walk-planned :
        (below : FilePath) (node : Node E) (b : tar.State)
        → above below ≡ true
        → walk tar shown excludes base (below ++ base) node b ≡ planned below node b
    walk-planned below (unreadable e) b a =
        unless_excluded below (unreadable e) b a (λ h k. rw (h, k))
    walk-planned below symlink b a =
        unless_excluded below symlink b a
          (λ h k. rw (h, k, relative-append below) (sym (>>=-ok tar base _)))
    walk-planned below (file (err e)) b a =
        unless_excluded below (file (err e)) b a (λ h k. rw (h, k))
    walk-planned below (file (ok content)) b a =
        unless_excluded below (file (ok content)) b a
          (λ h k. rw (h, k, relative-append below) (sym (>>=-ok tar base _)))
    walk-planned below (locked e) b a = unless_excluded below (locked e) b a (λ h k.
        rw (h, k, relative-append below)
          (ap (λ m. m >>= λ b'. err (read_dir (below ++ base) e)) (header_lem below b)))
    walk-planned below (dir es) b a = unless_excluded below (dir es) b a (λ h k.
        rw (h, k, relative-append below)
          (ap (λ m. m >>= walk_entries tar shown excludes base (below ++ base) es)
              (header_lem below b)
            ∙ ap (◌>>=◌ (perform tar base below put_dir b))
                (fun_ext (λ b'. walk_entries-planned below es b' k))))

    walk_entries-planned :
        (below : FilePath) (es : Entries E) (b : tar.State)
        → allowed ex base below ≡ true
        → walk_entries tar shown excludes base (below ++ base) es b
          ≡ replay tar base (keep ex base (steps_of base below es)) b
    walk_entries-planned below nil b h = refl
    walk_entries-planned below (broken e) b h = rw h
    walk_entries-planned below (entry name node es) b h =
        ap (λ m. m >>= walk_entries tar shown excludes base (below ++ base) es)
          (walk-planned (name ∷ below) node b h)
        ∙ ap (◌>>=◌ (planned (name ∷ below) node b))
            (fun_ext (λ b'. walk_entries-planned below es b' h))
        ∙ sym (replay-append tar base (keep ex base (steps base (name ∷ below) node)) _ b)
        ∙ ap (λ xs. replay tar base xs b)
            (sym (keep-append ex base (steps base (name ∷ below) node) (steps_of base below es)))

-- The archive of a tree is the steps of the tree in the order of its listings, less those at which
-- or above which an exclusion matches, down to the first error, and then the end of the archive.
pub archive_tree-replay :
    {E : Type 0} (tar : TarBuilder E) (shown : FilePath → Text) (root : FilePath) (node : Node E)
    (excludes : List Text) (b : tar.State)
    → archive_tree tar shown root node excludes b ≡ (
        replay tar root (keep (excluded tar shown excludes root) root (steps root [] node)) b
        >>= λ b'. context finalize (tar.finish b'))
unfolding archive_tree above
archive_tree-replay tar shown root node excludes b =
    ap (λ m. m >>= λ b'. context finalize (tar.finish b'))
      (walk-planned tar shown excludes root [] node b refl)
