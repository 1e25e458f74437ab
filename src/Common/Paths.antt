-- ===== src/Common/Paths.antt =====
-- Paths with their components written deepest first: the parent of a path is its tail, and the
-- ancestors of a path, itself included, are its suffixes.
use Prim.Native.Nat.{ℕ, zero, suc, ◌≤◌}
use mathlib.Core.Path.{◌≡◌, refl}
use mathlib.Core.Bool.{Bool, true, false, ◌&&◌, ◌||◌}
use mathlib.Core.List.{List, [], ◌∷◌}
use mathlib.Core.Option.{Option, none, some}
use native.Mathlib.Omega.{arith}
use tekflash.Common.Tests.{&&_split, if◌then◌else◌}
use tekflash.Common.Lists.{length, drop, any}
use tekflash.Common.Strings.{Text, text_eq, text_eq_refl, text_eq→eq}

abbrev pub FilePath : Type 0
FilePath = List Text

unfoldable pub path_eq : FilePath → FilePath → Bool
path_eq [] [] = true
path_eq [] (d ∷ q) = false
path_eq (c ∷ p) [] = false
path_eq (c ∷ p) (d ∷ q) = text_eq c d && path_eq p q

-- `Path::parent`: the root has none.
unfoldable pub parent : FilePath → Option FilePath
parent [] = none
parent (c ∷ p) = some p

-- `HashSet::contains`.
unfoldable pub path_mem : List FilePath → FilePath → Bool
path_mem ps p = any (path_eq p) ps

-- `Path::starts_with`: `q` is an ancestor of `p`, or `p` itself.
unfoldable pub path_starts_with : FilePath → FilePath → Bool
path_starts_with [] q = path_eq [] q
path_starts_with (c ∷ p) q = path_eq (c ∷ p) q || path_starts_with p q

pub path_eq_refl : (p : FilePath) → path_eq p p ≡ true
unfolding path_eq
path_eq_refl [] = refl
path_eq_refl (c ∷ p) = ground (arith, text_eq_refl c, path_eq_refl p)

pub path_eq→eq : (p q : FilePath) → path_eq p q ≡ true → p ≡ q
unfolding path_eq
path_eq→eq [] [] h = refl
path_eq→eq [] (d ∷ q) h = cc
path_eq→eq (c ∷ p) [] h = cc
path_eq→eq (c ∷ p) (d ∷ q) h =
    let both = &&_split (text_eq c d) (path_eq p q) h in
    cc (text_eq→eq c d both.0, path_eq→eq p q both.1)

pub path_starts_with-drop :
    (p : FilePath) (k : ℕ) → k ≤ length p → path_starts_with p (drop k p) ≡ true
unfolding path_starts_with
path_starts_with-drop [] zero h = path_eq_refl []
path_starts_with-drop [] (suc k) h = absurd (omega arith)
path_starts_with-drop (c ∷ p) zero h = ground (arith, path_eq_refl (c ∷ p))
path_starts_with-drop (c ∷ p) (suc k) h = ground (arith, path_starts_with-drop p k)

abbrev cons_some : Text → Option FilePath → Option FilePath
cons_some c none = none
cons_some c (some r) = some (c ∷ r)

-- `Path::strip_prefix`: what stands below `root`; `none` where the path is not under it.
unfoldable pub strip_prefix : FilePath → FilePath → Option FilePath
unfolding path_eq
strip_prefix [] root = if path_eq [] root then some [] else none
strip_prefix (c ∷ p) root =
    if path_eq (c ∷ p) root then some [] else cons_some c (strip_prefix p root)
