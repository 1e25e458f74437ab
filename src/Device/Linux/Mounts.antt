-- ===== src/Device/Linux/Mounts.antt =====
-- The mountpoints that `to_block` of crates/tekflash-core/src/device/linux.rs gives to a disk.
use tekflash.Common.{
  ◌≡◌, ◌≢◌, ◌∙◌, refl, sym, ap, subst, Bool, true, false, List, [], ◌∷◌, ◌++◌, Option, none, some,
  Text, FilePath, path_eq, path_eq→eq, path_eq_refl, any, arith, if◌then◌else◌, ◌||◌, ||_split,
  Bool-cases, ◌⊎◌, inl, inr, ◌↔◌, Among,
}
use tekflash.Device.Linux.{
  Std, LsblkFields, LsblkDev, LsblkDevs, nil, cons, fields, children_of, own_mounts, child_mounts,
  filled_option, filled_all, filled_list, insert, sort, dedup_from, dedup, to_block,
}

Among-any : (p : FilePath) (qs : List FilePath) → Among p qs → any (path_eq p) qs ≡ true
Among-any p [] h = elim h [ ]
Among-any p (q ∷ qs) (inl e) = ground (arith, ap (path_eq p) (sym e), path_eq_refl p)
Among-any p (q ∷ qs) (inr h) = ground (arith, Among-any p qs h)

any-Among : (p : FilePath) (qs : List FilePath) → any (path_eq p) qs ≡ true → Among p qs
any-Among p [] h = cc
any-Among p (q ∷ qs) h = elim (||_split (path_eq p q) (any (path_eq p) qs) h) [
  | inl e ↦ inl (path_eq→eq p q e)
  | inr e ↦ inr (any-Among p qs e)
]

Among-left : (p : FilePath) (xs ys : List FilePath) → Among p xs → Among p (xs ++ ys)
Among-left p [] ys h = elim h [ ]
Among-left p (x ∷ xs) ys (inl e) = inl e
Among-left p (x ∷ xs) ys (inr h) = inr (Among-left p xs ys h)

Among-right : (p : FilePath) (xs ys : List FilePath) → Among p ys → Among p (xs ++ ys)
Among-right p [] ys h = h
Among-right p (x ∷ xs) ys h = inr (Among-right p xs ys h)

Among-append : (p : FilePath) (xs ys : List FilePath) → Among p (xs ++ ys) → Among p xs ⊎ Among p ys
Among-append p [] ys h = inr h
Among-append p (x ∷ xs) ys (inl e) = inl (inl e)
Among-append p (x ∷ xs) ys (inr h) = elim (Among-append p xs ys h) [
  | inl k ↦ inl (inr k)
  | inr k ↦ inr k
]

module _ (std : Std) where
  swapped : (a b c : Bool) → (a || (b || c)) ≡ (b || (a || c))
  swapped a b c = ground arith

  twice : (a b : Bool) → (a || b) ≡ (a || (a || b))
  twice a b = ground arith

  any-insert :
      (p : FilePath → Bool) (q : FilePath) (qs : List FilePath)
      → any p (insert std q qs) ≡ (p q || any p qs)
  any-insert p q [] = refl
  any-insert p q (x ∷ xs) =
      elim (std.path_lt x q)
        as (λ b.
          any p (if b then x ∷ insert std q xs else q ∷ x ∷ xs) ≡ (p q || (p x || any p xs))) [
            | true ↦ ap (λ y. p x || y) (any-insert p q xs) ∙ swapped (p x) (p q) (any p xs)
            | false ↦ refl
          ]

  any-sort : (p : FilePath → Bool) (qs : List FilePath) → any p (sort std qs) ≡ any p qs
  unfolding sort
  any-sort p [] = refl
  any-sort p (q ∷ qs) = any-insert p q (sort std qs) ∙ ap (λ x. p q || x) (any-sort p qs)

  any-dedup_from :
      (p : FilePath → Bool) (q : FilePath) (qs : List FilePath)
      → (p q || any p (dedup_from std q qs)) ≡ (p q || any p qs)
  any-dedup_from p q [] = refl
  any-dedup_from p q (x ∷ xs) = elim (Bool-cases (path_eq x q)) [
    | inl same ↦
        ap (λ b. p q || any p (if b then dedup_from std x xs else x ∷ dedup_from std x xs)) same
        ∙ ap (λ y. p y || any p (dedup_from std x xs)) (sym (path_eq→eq x q same))
        ∙ any-dedup_from p x xs
        ∙ twice (p x) (any p xs)
        ∙ ap (λ y. p y || (p x || any p xs)) (path_eq→eq x q same)
    | inr other ↦
        ap (λ b. p q || any p (if b then dedup_from std x xs else x ∷ dedup_from std x xs)) other
        ∙ ap (λ y. p q || y) (any-dedup_from p x xs)
  ]

  any-dedup : (p : FilePath → Bool) (qs : List FilePath) → any p (dedup std qs) ≡ any p qs
  unfolding dedup
  any-dedup p [] = refl
  any-dedup p (q ∷ qs) = any-dedup_from p q qs

  -- The field of lsblk gives the path, and it is not empty.
  abbrev pub Names : FilePath → Option Text → Type 0
  Names p o = (m : Text) × (o ≡ some m) × (m ≢ []) × (p ≡ std.path_from m)

  abbrev pub OneNames : FilePath → List (Option Text) → Type 0
  OneNames p [] = ⊥
  OneNames p (o ∷ os) = Names p o ⊎ OneNames p os

  -- The device is mounted at the path, by one of the two fields that lsblk has for that.
  abbrev pub IsMountedAt : FilePath → LsblkFields → Type 0
  IsMountedAt p f =
      Names p f.mountpoint ⊎ ((ms : List (Option Text)) × (f.mountpoints ≡ some ms) × OneNames p ms)

  abbrev pub OneIsMountedAt : FilePath → LsblkDevs → Type 0
  OneIsMountedAt p nil = ⊥
  OneIsMountedAt p (cons d ds) = IsMountedAt p (fields d) ⊎ OneIsMountedAt p ds

  filled_option-Names : (p : FilePath) (o : Option Text) → Among p (filled_option std o) → Names p o
  filled_option-Names p none h = elim h [ ]
  filled_option-Names p (some []) h = elim h [ ]
  filled_option-Names p (some (c ∷ m)) (inl e) = (c ∷ m, refl, ground arith, e)
  filled_option-Names p (some (c ∷ m)) (inr h) = elim h [ ]

  Names-filled_option : (p : FilePath) (o : Option Text) → Names p o → Among p (filled_option std o)
  Names-filled_option p none (m, e, some_text, k) = cc
  Names-filled_option p (some []) (m, e, some_text, k) = ground (arith, e)
  Names-filled_option p (some (c ∷ n)) (m, e, some_text, k) = inl (cc (k, e))

  filled_all-OneNames :
      (p : FilePath) (os : List (Option Text)) → Among p (filled_all std os) → OneNames p os
  filled_all-OneNames p [] h = elim h [ ]
  filled_all-OneNames p (o ∷ os) h =
      elim (Among-append p (filled_option std o) (filled_all std os) h) [
        | inl k ↦ inl (filled_option-Names p o k)
        | inr k ↦ inr (filled_all-OneNames p os k)
      ]

  OneNames-filled_all :
      (p : FilePath) (os : List (Option Text)) → OneNames p os → Among p (filled_all std os)
  OneNames-filled_all p [] h = elim h [ ]
  OneNames-filled_all p (o ∷ os) (inl h) =
      Among-left p (filled_option std o) (filled_all std os) (Names-filled_option p o h)
  OneNames-filled_all p (o ∷ os) (inr h) =
      Among-right p (filled_option std o) (filled_all std os) (OneNames-filled_all p os h)

  filled_list-OneNames :
      (p : FilePath) (o : Option (List (Option Text)))
      → Among p (filled_list std o)
      → (ms : List (Option Text)) × (o ≡ some ms) × OneNames p ms
  filled_list-OneNames p none h = elim h [ ]
  filled_list-OneNames p (some ms) h = (ms, refl, filled_all-OneNames p ms h)

  own_mounts-IsMountedAt :
      (p : FilePath) (f : LsblkFields) → Among p (own_mounts std f) → IsMountedAt p f
  unfolding own_mounts
  own_mounts-IsMountedAt p f h =
      elim (Among-append p (filled_option std f.mountpoint) (filled_list std f.mountpoints) h) [
        | inl k ↦ inl (filled_option-Names p f.mountpoint k)
        | inr k ↦ inr (filled_list-OneNames p f.mountpoints k)
      ]

  IsMountedAt-own_mounts :
      (p : FilePath) (f : LsblkFields) → IsMountedAt p f → Among p (own_mounts std f)
  unfolding own_mounts
  IsMountedAt-own_mounts p f (inl h) =
      Among-left p (filled_option std f.mountpoint) (filled_list std f.mountpoints)
        (Names-filled_option p f.mountpoint h)
  IsMountedAt-own_mounts p f (inr (ms, e, h)) =
      Among-right p (filled_option std f.mountpoint) (filled_list std f.mountpoints)
        (subst (λ o. Among p (filled_list std o)) (sym e) (OneNames-filled_all p ms h))

  child_mounts-OneIsMountedAt :
      (p : FilePath) (ds : LsblkDevs) → Among p (child_mounts std ds) → OneIsMountedAt p ds
  unfolding child_mounts
  child_mounts-OneIsMountedAt p nil h = elim h [ ]
  child_mounts-OneIsMountedAt p (cons d ds) h =
      elim (Among-append p (own_mounts std (fields d)) (child_mounts std ds) h) [
        | inl k ↦ inl (own_mounts-IsMountedAt p (fields d) k)
        | inr k ↦ inr (child_mounts-OneIsMountedAt p ds k)
      ]

  OneIsMountedAt-child_mounts :
      (p : FilePath) (ds : LsblkDevs) → OneIsMountedAt p ds → Among p (child_mounts std ds)
  unfolding child_mounts
  OneIsMountedAt-child_mounts p nil h = elim h [ ]
  OneIsMountedAt-child_mounts p (cons d ds) (inl h) =
      Among-left p (own_mounts std (fields d)) (child_mounts std ds)
        (IsMountedAt-own_mounts p (fields d) h)
  OneIsMountedAt-child_mounts p (cons d ds) (inr h) =
      Among-right p (own_mounts std (fields d)) (child_mounts std ds)
        (OneIsMountedAt-child_mounts p ds h)

  -- The mounts of a disk, before they are sorted.
  abbrev found : LsblkDev → List FilePath
  found d = own_mounts std (fields d) ++ child_mounts std (children_of d)

  any-to_block :
      (p : FilePath) (d : LsblkDev) (root_dev : Option Text)
      → any (path_eq p) (to_block std d root_dev).mountpoints ≡ any (path_eq p) (found d)
  unfolding to_block
  any-to_block p d root_dev =
      any-dedup (path_eq p) (sort std (found d)) ∙ any-sort (path_eq p) (found d)

  found-OneIsMountedAt :
      (p : FilePath) (d : LsblkDev)
      → Among p (found d)
      → IsMountedAt p (fields d) ⊎ OneIsMountedAt p (children_of d)
  found-OneIsMountedAt p d h =
      elim (Among-append p (own_mounts std (fields d)) (child_mounts std (children_of d)) h) [
        | inl k ↦ inl (own_mounts-IsMountedAt p (fields d) k)
        | inr k ↦ inr (child_mounts-OneIsMountedAt p (children_of d) k)
      ]

  OneIsMountedAt-found :
      (p : FilePath) (d : LsblkDev)
      → IsMountedAt p (fields d) ⊎ OneIsMountedAt p (children_of d)
      → Among p (found d)
  OneIsMountedAt-found p d (inl h) =
      Among-left p (own_mounts std (fields d)) (child_mounts std (children_of d))
        (IsMountedAt-own_mounts p (fields d) h)
  OneIsMountedAt-found p d (inr h) =
      Among-right p (own_mounts std (fields d)) (child_mounts std (children_of d))
        (OneIsMountedAt-child_mounts p (children_of d) h)

  -- A path is among the mountpoints of a disk exactly when lsblk gives it, as a text that is not
  -- empty, in the field mountpoint or in the list mountpoints of the disk itself or of one of the
  -- devices directly below it.
  pub to_block-IsMountedAt :
      (p : FilePath) (d : LsblkDev) (root_dev : Option Text)
      → Among p (to_block std d root_dev).mountpoints
        ↔ (IsMountedAt p (fields d) ⊎ OneIsMountedAt p (children_of d))
  to_block-IsMountedAt p d root_dev =
      let same = any-to_block p d root_dev in
      let rows = (to_block std d root_dev).mountpoints in
      (
        λ h. found-OneIsMountedAt p d (any-Among p (found d) (sym same ∙ Among-any p rows h)),
        λ h. any-Among p rows (same ∙ Among-any p (found d) (OneIsMountedAt-found p d h)),
      )
