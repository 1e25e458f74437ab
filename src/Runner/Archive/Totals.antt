-- ===== src/Runner/Archive/Totals.antt =====
-- The size that `precompute_total_bytes` of crates/tekflash/src/tui/progress_runner.rs finds.
use tekflash.Common.{
  ℕ, zero, suc, ◌+◌, ◌<◌, ◌≡◌, ◌∙◌, refl, Bool, true, false, List, [], ◌∷◌, Option, arith, FilePath,
  if◌then◌else◌,
}
use tekflash.Archive.Selection.{ArchiveSelection}
use tekflash.Runner.Archive.Tree.{
  Node, unreadable, symlink, file, locked, dir, Entries, nil, entry, is_system_metadata, relative,
  keeps, push, pop, total_of, precompute_total_bytes,
}

-- The number of entries.
unfoldable mutual
  pub size : Node → ℕ
  size (dir es) = suc (sizes es)
  size _ = 1

  pub sizes : Entries → ℕ
  sizes nil = 0
  sizes (entry name node es) = size node + sizes es

module _ {G : Type 0} (is_match : G → FilePath → Bool) (sel : Option (ArchiveSelection G))
    (base : FilePath) where
  -- The lengths of the files that are kept, by recursion on the tree.
  unfoldable mutual
    unfolding is_system_metadata keeps

    pub kept_len : FilePath → Node → ℕ
    kept_len path (unreadable e) = 0
    kept_len path symlink = 0
    kept_len path (locked e) = 0
    kept_len path (file len content) =
        if is_system_metadata (relative base path)
        then 0
        else if keeps is_match sel base path false
        then len
        else 0
    kept_len path (dir es) =
        let below = kept_lens path es in
        if is_system_metadata (relative base path)
        then 0
        else if keeps is_match sel base path true
        then below
        else 0

    pub kept_lens : FilePath → Entries → ℕ
    kept_lens path nil = 0
    kept_lens path (entry name node es) = kept_len (name ∷ path) node + kept_lens path es

  abbrev stack_len : List (FilePath × Node) → ℕ
  stack_len [] = 0
  stack_len ((path, node) ∷ stack) = kept_len path node + stack_len stack

  abbrev stack_size : List (FilePath × Node) → ℕ
  stack_size [] = 0
  stack_size ((path, node) ∷ stack) = size node + stack_size stack

  push-stack_len :
      (path : FilePath) (es : Entries) (stack : List (FilePath × Node))
      → (stack_len (push path es stack) ≡ kept_lens path es + stack_len stack)
        × (stack_size (push path es stack) ≡ sizes es + stack_size stack)
  unfolding kept_lens sizes
  push-stack_len path nil stack = (omega arith, omega arith)
  push-stack_len path (entry name node es) stack =
      let (l, s) = push-stack_len path es ((name ∷ path, node) ∷ stack) in
      (omega (arith, l), omega (arith, s))

  -- A step of the loop counts the top's share, and leaves a smaller stack.
  pop-stack_len :
      (path : FilePath) (node : Node) (stack : List (FilePath × Node))
      → ((pop is_match sel base path node stack).0
            + stack_len (pop is_match sel base path node stack).1
          ≡ kept_len path node + stack_len stack)
        × (stack_size (pop is_match sel base path node stack).1 < size node + stack_size stack)
  unfolding pop kept_len size
  pop-stack_len path (unreadable e) stack = (refl, omega arith)
  pop-stack_len path symlink stack = ground arith
  pop-stack_len path (locked e) stack = ground arith
  pop-stack_len path (file len content) stack = ground arith
  pop-stack_len path (dir es) stack =
      let (l, s) = push-stack_len path es stack in ground (arith, l, s)

  total_of_lem :
      (fuel : ℕ) (stack : List (FilePath × Node)) (total : ℕ)
      → stack_size stack < fuel
      → total_of is_match sel base fuel stack total ≡ total + stack_len stack
  unfolding total_of
  total_of_lem zero stack total lt = absurd (omega arith)
  total_of_lem (suc fuel) [] total lt = omega arith
  total_of_lem (suc fuel) ((path, node) ∷ stack) total lt =
      let (l, s) = pop-stack_len path node stack in
      let r = pop is_match sel base path node stack in
      total_of_lem fuel r.1 (total + r.0) (omega (arith, s)) ∙ omega (arith, l)

  pub precompute_total_bytes_lem :
      (fuel : ℕ) (node : Node)
      → size node < fuel
      → precompute_total_bytes is_match sel fuel base node ≡ kept_len base node
  unfolding precompute_total_bytes
  precompute_total_bytes_lem fuel node lt =
      total_of_lem fuel ((base, node) ∷ []) 0 (omega arith) ∙ omega arith
