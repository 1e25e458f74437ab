-- ===== src/Archive/Selection.antt =====
-- crates/tekflash-core/src/archive/selection.rs. `GlobSet` and its matcher come from the globset
-- crate and are parameters; a set of paths is a list, read only through `path_mem`.
pub mod Spec
use tekflash.Common.{
  Result, ok, err, strip_prefix, ◌++◌, Bool, true, false, List, [], ◌∷◌, Option, none, some, Text,
  FilePath, path_mem, path_eq, path_starts_with, ◌&&◌, ◌||◌, if◌then◌else◌, any,
}

pub record ArchiveSelection (G : Type 0) : Type 0 where
  pub included : List FilePath
  pub excluded : List FilePath
  pub excludes_glob : Option G

abbrev is_empty : List FilePath → Bool
is_empty [] = true
is_empty (p ∷ ps) = false

pub includes_everything : {G : Type 0} → ArchiveSelection G → Bool
includes_everything sel = is_empty sel.included

-- The `while let` of step 4, from the path up to the root.
pub included_above : (included excluded : List FilePath) → FilePath → Bool
included_above inc exc [] =
    if path_mem inc [] then true else if path_mem exc [] then false else false
included_above inc exc (c ∷ p) =
    let rest = included_above inc exc p in
    if path_mem inc (c ∷ p) then true else if path_mem exc (c ∷ p) then false else rest

pub is_explicitly_excluded : (included excluded : List FilePath) → FilePath → Bool
is_explicitly_excluded inc exc [] =
    if path_mem exc [] then true else if path_mem inc [] then false else false
is_explicitly_excluded inc exc (c ∷ p) =
    let rest = is_explicitly_excluded inc exc p in
    if path_mem exc (c ∷ p) then true else if path_mem inc (c ∷ p) then false else rest

abbrev pub or_self : Option FilePath → FilePath → FilePath
or_self none p = p
or_self (some r) p = r

module _ {G : Type 0} (is_match : G → FilePath → Bool) where
  -- The glob test of step 1, on the path relative to the source root.
  pub glob_rejects : Option G → FilePath → FilePath → Bool
  glob_rejects none abs_path source_root = false
  glob_rejects (some globs) abs_path source_root =
      is_match globs (or_self (strip_prefix abs_path source_root) abs_path)

  pub is_included : ArchiveSelection G → FilePath → FilePath → Bool
  unfolding glob_rejects is_explicitly_excluded included_above
  is_included sel abs_path source_root =
      if glob_rejects sel.excludes_glob abs_path source_root
      then false
      else if is_explicitly_excluded sel.included sel.excluded abs_path
      then false
      else if is_empty sel.included
      then true
      else included_above sel.included sel.excluded abs_path

-- `Glob::new` and `GlobSetBuilder::build` may fail; the first pattern that does not compile ends it.
module _ {G P E : Type 0} (glob_new : Text → Result E P) (build : List P → Result E G) where
  add_all : List Text → List P → Result E (List P)
  add_all [] added = ok added
  add_all (p ∷ ps) added = elim (glob_new p) [ err e ↦ err e | ok g ↦ add_all ps (added ++ g ∷ []) ]

  pub compile_globs : List Text → Result E (Option G)
  unfolding add_all
  compile_globs [] = ok none
  compile_globs (p ∷ ps) = elim (add_all (p ∷ ps) []) [
    | err e ↦ err e
    | ok added ↦ elim (build added) [ err e ↦ err e | ok g ↦ ok (some g) ]
  ]
