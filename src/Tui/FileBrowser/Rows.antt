-- ===== src/Tui/FileBrowser/Rows.antt =====
-- The rows that `refresh` of crates/tekflash/src/tui/views/file_browser.rs reads from a directory.
use tekflash.Common.{
  ◌≡◌, ◌∙◌, refl, sym, ap, subst, Bool, true, false, not, ◌&&◌, List, [], ◌∷◌, Option, none, some,
  codes, starts_with, FilePath, arith, Among, Bool-cases, ◌⊎◌, inl, inr, if◌then◌else◌,
}
use tekflash.Tui.FileBrowser.Defs.{
  FileSystem, DirEntry, Metadata, Entry, normal, entry_le, sort, read_dir, keep_entries, entry_of,
}
use tekflash.Tui.FileBrowser.Order.{IsOrdered, sort-IsOrdered, Among-sort, sort-Among}

-- The row is that of an entry of the directory whose metadata could be read, and whose name begins
-- with a dot only where hidden files are shown.
abbrev pub IsRowOf : FileSystem → FilePath → Bool → Entry → Type 0
IsRowOf fs dir hidden row =
    (ds : List DirEntry) × (d : DirEntry) × (meta : Metadata) × (fs.read_dir dir ≡ some ds)
    × Among d ds
    × (d.metadata ≡ some meta)
    × ((hidden ≡ true) ⊎ (starts_with d.file_name (codes ".") ≡ false))
    × (row.kind ≡ normal)
    × (row.path ≡ d.file_name ∷ dir)
    × (row.name ≡ d.file_name)
    × (row.is_dir ≡ meta.is_dir)
    × (row.size ≡ meta.len)

-- The rows are in order, each is that of an entry of the directory, and every entry has one.
abbrev pub AreRowsOf : FileSystem → FilePath → Bool → Bool → List Entry → Type 0
AreRowsOf fs dir hidden all_types rows =
    IsOrdered all_types rows
    × ((row : Entry) → Among row rows → IsRowOf fs dir hidden row)
    × ((ds : List DirEntry) (d : DirEntry) (meta : Metadata)
        → fs.read_dir dir ≡ some ds
        → Among d ds
        → d.metadata ≡ some meta
        → (hidden ≡ true) ⊎ (starts_with d.file_name (codes ".") ≡ false)
        → (row : Entry) × Among row rows × (row.path ≡ d.file_name ∷ dir))

-- The entry is one that the browser shows.
abbrev IsShown : Bool → DirEntry → Type 0
IsShown hidden d = (hidden ≡ true) ⊎ (starts_with d.file_name (codes ".") ≡ false)

module _ (fs : FileSystem) (dir : FilePath) (hidden : Bool) where
  -- What the loop makes of one entry.
  abbrev kept : DirEntry → List Entry → List Entry
  kept d rest =
      if not hidden && starts_with d.file_name (codes ".")
      then rest
      else elim d.metadata [ none ↦ rest | some meta ↦ entry_of fs dir d meta ∷ rest ]

  keep_entries_cons :
      (d : DirEntry) (ds : List DirEntry)
      → keep_entries fs dir hidden (d ∷ ds) ≡ kept d (keep_entries fs dir hidden ds)
  unfolding keep_entries
  keep_entries_cons d ds = refl

  abbrev Kept : List DirEntry → Entry → Type 0
  Kept ds row =
      (d : DirEntry) × (meta : Metadata) × Among d ds
      × (d.metadata ≡ some meta)
      × IsShown hidden d
      × (row ≡ entry_of fs dir d meta)

  Kept-cons : (d : DirEntry) (ds : List DirEntry) (row : Entry) → Kept ds row → Kept (d ∷ ds) row
  Kept-cons d ds row (e, meta, among, m, shown, eq) = (e, meta, inr among, m, shown, eq)

  kept-none : (d : DirEntry) (rest : List Entry) → d.metadata ≡ none → kept d rest ≡ rest
  kept-none d rest m = ground (arith, m)

  kept-some :
      (d : DirEntry) (rest : List Entry) (meta : Metadata)
      → d.metadata ≡ some meta
      → IsShown hidden d
      → kept d rest ≡ entry_of fs dir d meta ∷ rest
  kept-some d rest meta m shown = ground (arith, m, shown)

  kept-hidden :
      (d : DirEntry) (rest : List Entry)
      → (not hidden && starts_with d.file_name (codes ".")) ≡ true
      → kept d rest ≡ rest
  kept-hidden d rest h = rw h refl

  IsShown-otherwise :
      (d : DirEntry)
      → (not hidden && starts_with d.file_name (codes ".")) ≡ false
      → IsShown hidden d
  IsShown-otherwise d h = ground arith

  kept-Kept :
      (d : DirEntry) (ds : List DirEntry) (rest : List Entry) (row : Entry) (o : Option Metadata)
      → (Among row rest → Kept ds row)
      → d.metadata ≡ o
      → IsShown hidden d
      → Among row (kept d rest)
      → Kept (d ∷ ds) row
  kept-Kept d ds rest row none ih m shown h =
      Kept-cons d ds row (ih (subst (Among row) (kept-none d rest m) h))
  kept-Kept d ds rest row (some meta) ih m shown h =
      elim (subst (Among row) (kept-some d rest meta m shown) h) [
        | inl e ↦ (d, meta, inl refl, m, shown, e)
        | inr k ↦ Kept-cons d ds row (ih k)
      ]

  keep_entries-Kept :
      (ds : List DirEntry) (row : Entry) → Among row (keep_entries fs dir hidden ds) → Kept ds row
  unfolding keep_entries
  keep_entries-Kept [] row h = elim h [ ]
  keep_entries-Kept (d ∷ ds) row h =
      let rest = keep_entries fs dir hidden ds in
      let k = subst (Among row) (keep_entries_cons d ds) h in
      elim (Bool-cases (not hidden && starts_with d.file_name (codes "."))) [
        | inl dotted ↦
            Kept-cons d ds row
              (keep_entries-Kept ds row (subst (Among row) (kept-hidden d rest dotted) k))
        | inr plain ↦
            kept-Kept d ds rest row d.metadata (keep_entries-Kept ds row) refl
              (IsShown-otherwise d plain) k
      ]

  behind_kept :
      (d : DirEntry) (rest : List Entry) (row : Entry) → Among row rest → Among row (kept d rest)
  behind_kept d rest row h =
      elim (not hidden && starts_with d.file_name (codes "."))
        as (λ t. Among row (
          if t
          then rest
          else elim d.metadata [ none ↦ rest | some meta ↦ entry_of fs dir d meta ∷ rest ])) [
            | true ↦ h
            | false ↦
                elim d.metadata
                  as (λ o.
                    Among row
                      (elim o [ none ↦ rest | some meta ↦ entry_of fs dir d meta ∷ rest ])) [
                        | none ↦ h
                        | some meta ↦ inr h
                      ]
          ]

  keep_entries-Among :
      (ds : List DirEntry) (d : DirEntry) (meta : Metadata)
      → Among d ds
      → d.metadata ≡ some meta
      → IsShown hidden d
      → Among (entry_of fs dir d meta) (keep_entries fs dir hidden ds)
  unfolding keep_entries
  keep_entries-Among [] d meta h m shown = elim h [ ]
  keep_entries-Among (e ∷ ds) d meta (inl k) m shown =
      subst (Among (entry_of fs dir d meta))
        (sym (
          keep_entries_cons e ds
          ∙ ap (λ x. kept x (keep_entries fs dir hidden ds)) (sym k)
          ∙ kept-some d (keep_entries fs dir hidden ds) meta m shown))
        (inl refl)
  keep_entries-Among (e ∷ ds) d meta (inr k) m shown =
      subst (Among (entry_of fs dir d meta)) (sym (keep_entries_cons e ds)) (
        behind_kept e (keep_entries fs dir hidden ds) (entry_of fs dir d meta)
          (keep_entries-Among ds d meta k m shown))

  entries_of : Option (List DirEntry) → List Entry
  entries_of none = []
  entries_of (some ds) = keep_entries fs dir hidden ds

  read_dir_eq :
      (o : Option (List DirEntry)) → fs.read_dir dir ≡ o → read_dir fs dir hidden ≡ entries_of o
  unfolding read_dir entries_of
  read_dir_eq none e = ap (λ o. elim o [ none ↦ [] | some ds ↦ keep_entries fs dir hidden ds ]) e
  read_dir_eq (some ds) e =
      ap (λ o. elim o [ none ↦ [] | some ds ↦ keep_entries fs dir hidden ds ]) e

  read_dir-Kept :
      (o : Option (List DirEntry)) (row : Entry)
      → fs.read_dir dir ≡ o
      → Among row (read_dir fs dir hidden)
      → (ds : List DirEntry) × (fs.read_dir dir ≡ some ds) × Kept ds row
  unfolding entries_of
  read_dir-Kept none row e h = elim (subst (Among row) (read_dir_eq none e) h) [ ]
  read_dir-Kept (some ds) row e h =
      (ds, e, keep_entries-Kept ds row (subst (Among row) (read_dir_eq (some ds) e) h))

  read_dir-Among :
      (ds : List DirEntry) (d : DirEntry) (meta : Metadata)
      → fs.read_dir dir ≡ some ds
      → Among d ds
      → d.metadata ≡ some meta
      → IsShown hidden d
      → Among (entry_of fs dir d meta) (read_dir fs dir hidden)
  unfolding entries_of
  read_dir-Among ds d meta e among m shown =
      subst (Among (entry_of fs dir d meta)) (sym (read_dir_eq (some ds) e))
        (keep_entries-Among ds d meta among m shown)

  read_dir-IsRowOf : (row : Entry) → Among row (read_dir fs dir hidden) → IsRowOf fs dir hidden row
  unfolding entry_of
  read_dir-IsRowOf row h =
      let (ds, e, (d, meta, among, m, shown, eq)) = read_dir-Kept (fs.read_dir dir) row refl h in
      (
        ds,
        d,
        meta,
        e,
        among,
        m,
        shown,
        ap (λ x. x.kind) eq,
        ap (λ x. x.path) eq,
        ap (λ x. x.name) eq,
        ap (λ x. x.is_dir) eq,
        ap (λ x. x.size) eq,
      )

  -- The sorted rows of a directory.
  pub sort-AreRowsOf :
      (all_types : Bool)
      → AreRowsOf fs dir hidden all_types (sort (entry_le all_types) (read_dir fs dir hidden))
  unfolding entry_of
  sort-AreRowsOf all_types = (
    sort-IsOrdered all_types (read_dir fs dir hidden),
    λ row h. read_dir-IsRowOf row (Among-sort (entry_le all_types) row (read_dir fs dir hidden) h),
    λ ds d meta e among m shown. (
      entry_of fs dir d meta,
      sort-Among (entry_le all_types) (entry_of fs dir d meta) (read_dir fs dir hidden)
          (read_dir-Among ds d meta e among m shown),
      refl,
    ),
  )
