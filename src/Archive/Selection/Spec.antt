-- ===== src/Archive/Selection/Spec.antt =====
-- What `is_included` decides, stated without its two walks over the ancestors.
use tekflash.Common.{
  ℕ, zero, suc, ◌≤◌, ◌≡◌, refl, ◌↔◌, ◌⊎◌, inl, inr, Bool, true, false, List, [], ◌∷◌, FilePath,
  path_mem, length, drop, arith, if◌then◌else◌, Bool-cases,
}
use tekflash.Archive.Selection.{
  ArchiveSelection, is_empty, included_above, is_explicitly_excluded, glob_rejects, is_included,
}

-- `drop k p` is the ancestor k levels above `p`.
abbrev pub NotExcludedUpTo : List FilePath → FilePath → ℕ → Type 0
NotExcludedUpTo exc p k = (j : ℕ) → j ≤ k → path_mem exc (drop j p) ≡ false

-- The path or an ancestor is checked, and nothing from the path up to there is un-checked.
abbrev pub Fully : List FilePath → List FilePath → FilePath → Type 0
Fully inc exc p =
    (k : ℕ) × (k ≤ length p) × (path_mem inc (drop k p) ≡ true) × NotExcludedUpTo exc p k

module _ (inc exc : List FilePath) where
  at_zero : (p : FilePath) → path_mem exc p ≡ false → NotExcludedUpTo exc p 0
  at_zero p h zero j = h
  at_zero p h (suc n) j = absurd (omega arith)

  above :
      (c : _) (p : FilePath) (k : ℕ)
      → path_mem exc (c ∷ p) ≡ false
      → NotExcludedUpTo exc p k
      → NotExcludedUpTo exc (c ∷ p) (suc k)
  above c p k h up zero j = h
  above c p k h up (suc n) j = up n (omega arith)

  walks→Fully :
      (p : FilePath)
      → is_explicitly_excluded inc exc p ≡ false
      → included_above inc exc p ≡ true
      → Fully inc exc p
  unfolding is_explicitly_excluded included_above
  walks→Fully [] e i = (0, omega arith, ground arith, at_zero [] (ground arith))
  walks→Fully (c ∷ p) e i = elim (Bool-cases (path_mem inc (c ∷ p))) [
    | inl here ↦ (0, omega arith, here, at_zero (c ∷ p) (ground arith))
    | inr not_here ↦
        let (k, le, m, up) = walks→Fully p (ground arith) (ground arith) in
        (suc k, omega arith, m, above c p k (ground arith) up)
  ]

  Fully→walks :
      (p : FilePath) (k : ℕ)
      → k ≤ length p
      → path_mem inc (drop k p) ≡ true
      → NotExcludedUpTo exc p k
      → (is_explicitly_excluded inc exc p ≡ false) × (included_above inc exc p ≡ true)
  unfolding is_explicitly_excluded included_above
  Fully→walks [] zero le m up = ground (arith, up 0 (omega arith))
  Fully→walks [] (suc k) le m up = absurd (omega arith)
  Fully→walks (c ∷ p) zero le m up = ground (arith, up 0 (omega arith))
  Fully→walks (c ∷ p) (suc k) le m up =
      ground (
        arith,
        up 0 (omega arith),
        Fully→walks p k (omega arith) m (λ j h. up (suc j) (omega arith)),
      )

-- With nothing checked, only the un-checked paths count, all the way up to the root.
module _ (exc : List FilePath) where
  unmarked→NotExcluded :
      (p : FilePath) → is_explicitly_excluded [] exc p ≡ false → NotExcludedUpTo exc p (length p)
  unfolding is_explicitly_excluded path_mem
  unmarked→NotExcluded [] e zero j = ground arith
  unmarked→NotExcluded [] e (suc n) j = absurd (omega arith)
  unmarked→NotExcluded (c ∷ p) e zero j = ground arith
  unmarked→NotExcluded (c ∷ p) e (suc n) j = unmarked→NotExcluded p (ground arith) n (omega arith)

  NotExcluded→unmarked :
      (p : FilePath) → NotExcludedUpTo exc p (length p) → is_explicitly_excluded [] exc p ≡ false
  unfolding is_explicitly_excluded path_mem
  NotExcluded→unmarked [] up = ground (arith, up 0 (omega arith))
  NotExcluded→unmarked (c ∷ p) up =
      ground (arith, up 0 (omega arith), NotExcluded→unmarked p (λ j h. up (suc j) (omega arith)))

abbrev pub Selected : List FilePath → List FilePath → FilePath → Type 0
Selected inc exc p = ((inc ≡ []) × NotExcludedUpTo exc p (length p)) ⊎ Fully inc exc p

module _ {G : Type 0} (is_match : G → FilePath → Bool) where
  decided→Selected :
      (inc exc : List FilePath) (p : FilePath)
      → is_explicitly_excluded inc exc p ≡ false
      → (if is_empty inc then true else included_above inc exc p) ≡ true
      → Selected inc exc p
  decided→Selected [] exc p e h = inl (refl, unmarked→NotExcluded exc p e)
  decided→Selected (i ∷ inc) exc p e h = inr (walks→Fully (i ∷ inc) exc p e h)

  Selected→decided :
      (inc exc : List FilePath) (p : FilePath)
      → Selected inc exc p
      → (is_explicitly_excluded inc exc p ≡ false)
        × ((if is_empty inc then true else included_above inc exc p) ≡ true)
  unfolding path_mem
  Selected→decided [] exc p (inl (e, up)) = (NotExcluded→unmarked exc p up, refl)
  Selected→decided [] exc p (inr (k, le, m, up)) = cc
  Selected→decided (i ∷ inc) exc p (inl (e, up)) = cc
  Selected→decided (i ∷ inc) exc p (inr (k, le, m, up)) = Fully→walks (i ∷ inc) exc p k le m up

  -- A path is archived exactly when the globs do not reject it and either nothing is checked and
  -- neither the path nor an ancestor is un-checked, or the path or an ancestor is checked and
  -- nothing from the path up to that one is un-checked.
  pub is_included_iff :
      (sel : ArchiveSelection G) (p root : FilePath)
      → (is_included is_match sel p root ≡ true) ↔ (
          (glob_rejects is_match sel.excludes_glob p root ≡ false)
          × Selected sel.included sel.excluded p)
  unfolding is_included
  is_included_iff sel p root = (
    λ h. (ground arith, decided→Selected sel.included sel.excluded p (ground arith) (ground arith)),
    λ h. ground (arith, Selected→decided sel.included sel.excluded p h.1),
  )
