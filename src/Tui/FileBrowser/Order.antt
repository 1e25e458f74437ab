-- ===== src/Tui/FileBrowser/Order.antt =====
-- How `refresh` of crates/tekflash/src/tui/views/file_browser.rs sorts the rows of a directory.
use tekflash.Common.{
  ◌<◌, ◌≡◌, refl, subst, Bool, true, false, List, [], ◌∷◌, Text, arith, Among, Bool-cases, ◌⊎◌, inl,
  inr, if◌then◌else◌,
}
use tekflash.Tui.FileBrowser.Defs.{Entry, rank, text_le, entry_le, insert, sort}

-- The order of two rows: directories ahead of files and then by name, where all types are shown, and
-- else by rank and then by name.
abbrev Before : Bool → Entry → Entry → Type 0
Before true a b =
    ((a.is_dir ≡ true) × (b.is_dir ≡ false))
    ⊎ ((a.is_dir ≡ b.is_dir) × (text_le a.name b.name ≡ true))
Before false a b = (rank a < rank b) ⊎ ((rank a ≡ rank b) × (text_le a.name b.name ≡ true))

abbrev IsAhead : Bool → Entry → List Entry → Type 0
IsAhead all_types x [] = Unit
IsAhead all_types x (y ∷ ys) = Before all_types x y

abbrev pub IsOrdered : Bool → List Entry → Type 0
IsOrdered all_types [] = Unit
IsOrdered all_types (x ∷ xs) = IsAhead all_types x xs × IsOrdered all_types xs

text_le_total : (s t : Text) → text_le s t ≡ false → text_le t s ≡ true
unfolding text_le
text_le_total [] t h = cc
text_le_total (c ∷ s) [] h = refl
text_le_total (c ∷ s) (d ∷ t) h = ground (arith, text_le_total s t)

entry_le-Before :
    (all_types : Bool) (a b : Entry) → entry_le all_types a b ≡ true → Before all_types a b
unfolding entry_le
entry_le-Before true a b h = ground arith
entry_le-Before false a b h = ground arith

entry_le-Before_other :
    (all_types : Bool) (a b : Entry) → entry_le all_types a b ≡ false → Before all_types b a
unfolding entry_le
entry_le-Before_other true a b h = ground (arith, text_le_total a.name b.name)
entry_le-Before_other false a b h = ground (arith, text_le_total a.name b.name)

module _ (all_types : Bool) where
  insert-IsAhead :
      (e x : Entry) (xs : List Entry)
      → Before all_types x e
      → IsAhead all_types x xs
      → IsAhead all_types x (insert (entry_le all_types) e xs)
  unfolding insert
  insert-IsAhead e x [] h k = h
  insert-IsAhead e x (y ∷ ys) h k =
      elim (entry_le all_types e y)
        as (λ t.
          IsAhead all_types x (if t then e ∷ y ∷ ys else y ∷ insert (entry_le all_types) e ys)) [
            | true ↦ h
            | false ↦ k
          ]

  insert-IsOrdered :
      (e : Entry) (xs : List Entry)
      → IsOrdered all_types xs
      → IsOrdered all_types (insert (entry_le all_types) e xs)
  unfolding insert
  insert-IsOrdered e [] h = (tt, tt)
  insert-IsOrdered e (x ∷ xs) (ahead, rest) = elim (Bool-cases (entry_le all_types e x)) [
    | inl le ↦ rw le (entry_le-Before all_types e x le, (ahead, rest))
    | inr other ↦ rw other (
      insert-IsAhead e x xs (entry_le-Before_other all_types e x other) ahead,
      insert-IsOrdered e xs rest,
    )
  ]

  pub sort-IsOrdered : (xs : List Entry) → IsOrdered all_types (sort (entry_le all_types) xs)
  unfolding sort
  sort-IsOrdered [] = tt
  sort-IsOrdered (x ∷ xs) = insert-IsOrdered x (sort (entry_le all_types) xs) (sort-IsOrdered xs)

module _ (le : Entry → Entry → Bool) (row : Entry) where
  inserted_ahead :
      (e x : Entry) (xs : List Entry) → le e x ≡ true → insert le e (x ∷ xs) ≡ e ∷ x ∷ xs
  unfolding insert
  inserted_ahead e x xs t = rw t refl

  inserted_behind :
      (e x : Entry) (xs : List Entry) → le e x ≡ false → insert le e (x ∷ xs) ≡ x ∷ insert le e xs
  unfolding insert
  inserted_behind e x xs f = rw f refl

  Among-insert : (e : Entry) (xs : List Entry) → Among row (insert le e xs) → Among row (e ∷ xs)
  unfolding insert
  Among-insert e [] h = h
  Among-insert e (x ∷ xs) h = elim (Bool-cases (le e x)) [
    | inl t ↦ subst (Among row) (inserted_ahead e x xs t) h
    | inr f ↦ elim (subst (Among row) (inserted_behind e x xs f) h) [
      | inl k ↦ inr (inl k)
      | inr k ↦ elim (Among-insert e xs k) [ inl l ↦ inl l | inr l ↦ inr (inr l) ]
    ]
  ]

  insert-Among : (e : Entry) (xs : List Entry) → Among row (e ∷ xs) → Among row (insert le e xs)
  unfolding insert
  insert-Among e [] h = h
  insert-Among e (x ∷ xs) h =
      elim (le e x) as (λ t. Among row (if t then e ∷ x ∷ xs else x ∷ insert le e xs)) [
        | true ↦ h
        | false ↦ elim h [
          | inl k ↦ inr (insert-Among e xs (inl k))
          | inr k ↦ elim k [ inl l ↦ inl l | inr l ↦ inr (insert-Among e xs (inr l)) ]
        ]
      ]

  pub Among-sort : (xs : List Entry) → Among row (sort le xs) → Among row xs
  unfolding sort
  Among-sort [] h = h
  Among-sort (x ∷ xs) h = elim (Among-insert x (sort le xs) h) [
    | inl k ↦ inl k
    | inr k ↦ inr (Among-sort xs k)
  ]

  pub sort-Among : (xs : List Entry) → Among row xs → Among row (sort le xs)
  unfolding sort
  sort-Among [] h = h
  sort-Among (x ∷ xs) (inl k) = insert-Among x (sort le xs) (inl k)
  sort-Among (x ∷ xs) (inr k) = insert-Among x (sort le xs) (inr (sort-Among xs k))
