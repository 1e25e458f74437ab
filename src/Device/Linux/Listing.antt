-- ===== src/Device/Linux/Listing.antt =====
-- What the device list of crates/tekflash-core/src/device/linux.rs holds behind the safety filter.
use tekflash.Common.{
  ◌≡◌, ◌∙◌, refl, sym, ap, subst, true, false, List, [], ◌∷◌, ◌++◌, Option, none, some, Text, codes,
  text_eq, text_eq_refl, text_eq→eq, arith, if◌then◌else◌, ||_split, Bool-cases, ◌⊎◌, inl, inr,
}
use tekflash.Device.{BlockDevice, filter, enumerate}
use tekflash.Device.Linux.{
  Std, LsblkFields, LsblkDev, LsblkDevs, nil, cons, fields, kernel_name, is_root, to_block,
  is_whole, to_blocks, or_default,
}

-- The type that lsblk gives: a disk, an optical drive, or none at all.
abbrev pub IsWholeDisk : Option Text → Type 0
IsWholeDisk kind = (kind ≡ none) ⊎ (kind ≡ some (codes "disk")) ⊎ (kind ≡ some (codes "rom"))

-- The kernel's name, which is that of the device where lsblk gives no other.
abbrev pub IsName : LsblkFields → Text → Type 0
IsName f n = (f.kname ≡ some n) ⊎ ((f.kname ≡ none) × (f.name ≡ n))

-- A whole disk whose name is not the one of the root file system's.
abbrev pub IsOffered : Option Text → LsblkFields → Type 0
IsOffered root f = IsWholeDisk f.kind × ¬ ((n : Text) × IsName f n × (root ≡ some n))

-- The value is the one of lsblk, or the default where lsblk has none.
abbrev pub IsGiven : {A : Type 0} → Option A → A → A → Type 0
IsGiven o d a = (o ≡ some a) ⊎ ((o ≡ none) × (a ≡ d))

module _ (std : Std) where
  -- The row for a device: its path below /dev, its size, whether it can be written, no system disk.
  abbrev pub Describes : LsblkFields → BlockDevice → Type 0
  Describes f b =
      ((n : Text) × IsName f n × (b.path ≡ std.path_from (codes "/dev/" ++ n)))
      × IsGiven f.size 0 b.size_bytes
      × IsGiven f.phy_sec 512 b.block_size
      × IsGiven f.ro false b.read_only
      × (b.is_system ≡ false)

  -- The list has a row for each device that is offered, in the order of lsblk, and no other.
  abbrev pub Offers : Option Text → LsblkDevs → List BlockDevice → Type 0
  Offers root nil rows = rows ≡ []
  Offers root (cons d ds) rows =
      (IsOffered root (fields d)
        × (row : BlockDevice) × (rest : List BlockDevice) × (rows ≡ row ∷ rest)
        × Describes (fields d) row
        × Offers root ds rest)
      ⊎ ((¬ IsOffered root (fields d)) × Offers root ds rows)

  is_whole-IsWholeDisk : (kind : Option Text) → is_whole std kind ≡ true → IsWholeDisk kind
  unfolding is_whole
  is_whole-IsWholeDisk none h = inl refl
  is_whole-IsWholeDisk (some k) h =
      elim (||_split (text_eq k (codes "disk")) (text_eq k (codes "rom")) h) [
        | inl e ↦ inr (inl (ap some (text_eq→eq k (codes "disk") e)))
        | inr e ↦ inr (inr (ap some (text_eq→eq k (codes "rom") e)))
      ]

  IsWholeDisk-is_whole : (kind : Option Text) → IsWholeDisk kind → is_whole std kind ≡ true
  unfolding is_whole
  IsWholeDisk-is_whole kind (inl e) = rw e refl
  IsWholeDisk-is_whole kind (inr (inl e)) = rw e refl
  IsWholeDisk-is_whole kind (inr (inr e)) = rw e refl

  or_default-IsGiven : {A : Type 0} → (o : Option A) (d : A) → IsGiven o d (or_default o d)
  or_default-IsGiven none d = inr (refl, refl)
  or_default-IsGiven (some a) d = inl refl

  named : (kname : Option Text) (f : LsblkFields) → f.kname ≡ kname → IsName f (kernel_name f)
  unfolding kernel_name
  named none f e = inr (e, rw e refl)
  named (some n) f e = inl (rw e refl)

  IsName-kernel_name : (f : LsblkFields) (n : Text) → IsName f n → kernel_name f ≡ n
  unfolding kernel_name
  IsName-kernel_name f n (inl e) = rw e refl
  IsName-kernel_name f n (inr (e, k)) = rw e k

  is_root-eq : (root : Option Text) (n : Text) → is_root std root n ≡ true → root ≡ some n
  is_root-eq none n h = cc
  is_root-eq (some r) n h = ap some (text_eq→eq r n h)

  eq-is_root : (root : Option Text) (n : Text) → root ≡ some n → is_root std root n ≡ true
  eq-is_root root n e = rw e (text_eq_refl n)

  kept-IsOffered :
      (root : Option Text) (f : LsblkFields)
      → is_whole std f.kind ≡ true
      → is_root std root (kernel_name f) ≡ false
      → IsOffered root f
  kept-IsOffered root f w r = (
    is_whole-IsWholeDisk f.kind w,
    λ (n, name, e). ground (
      arith,
      r,
      eq-is_root root (kernel_name f) (e ∙ ap some (sym (IsName-kernel_name f n name))),
    ),
  )

  root-not-IsOffered :
      (root : Option Text) (f : LsblkFields)
      → is_root std root (kernel_name f) ≡ true
      → ¬ IsOffered root f
  root-not-IsOffered root f h (w, other) =
      other (kernel_name f, named f.kname f refl, is_root-eq root (kernel_name f) h)

  part-not-IsOffered :
      (root : Option Text) (f : LsblkFields) → is_whole std f.kind ≡ false → ¬ IsOffered root f
  part-not-IsOffered root f h (w, other) = ground (arith, h, IsWholeDisk-is_whole f.kind w)

  to_block-Describes :
      (d : LsblkDev) (root : Option Text)
      → is_root std root (kernel_name (fields d)) ≡ false
      → Describes (fields d) (to_block std d root)
  unfolding to_block
  to_block-Describes d root h = (
    (kernel_name (fields d), named (fields d).kname (fields d) refl, refl),
    or_default-IsGiven (fields d).size 0,
    or_default-IsGiven (fields d).phy_sec 512,
    or_default-IsGiven (fields d).ro false,
    h,
  )

  to_block-is_system :
      (d : LsblkDev) (root : Option Text)
      → (to_block std d root).is_system ≡ is_root std root (kernel_name (fields d))
  unfolding to_block
  to_block-is_system d root = refl

  abbrev rows : Option Text → LsblkDevs → List BlockDevice
  rows root ds = filter (to_blocks std ds root) false

  rows_cons :
      (root : Option Text) (d : LsblkDev) (ds : LsblkDevs)
      → rows root (cons d ds) ≡ (
          if is_whole std (fields d).kind
          then (if is_root std root (kernel_name (fields d))
              then rows root ds
              else to_block std d root ∷ rows root ds)
          else rows root ds)
  unfolding filter to_blocks
  rows_cons root d ds = ground (arith, to_block-is_system d root)

  to_blocks-Offers : (root : Option Text) (ds : LsblkDevs) → Offers root ds (rows root ds)
  unfolding filter to_blocks
  to_blocks-Offers root nil = refl
  to_blocks-Offers root (cons d ds) = elim (Bool-cases (is_whole std (fields d).kind)) [
    | inr part ↦ inr (
      part-not-IsOffered root (fields d) part,
      subst (Offers root ds) (sym (rows_cons root d ds ∙ rw part refl)) (to_blocks-Offers root ds),
    )
    | inl whole ↦ elim (Bool-cases (is_root std root (kernel_name (fields d)))) [
      | inl system ↦ inr (
        root-not-IsOffered root (fields d) system,
        subst (Offers root ds) (sym (rows_cons root d ds ∙ rw (whole, system) refl))
            (to_blocks-Offers root ds),
      )
      | inr other ↦ inl (
        kept-IsOffered root (fields d) whole other,
        to_block std d root,
        rows root ds,
        rows_cons root d ds ∙ rw (whole, other) refl,
        to_block-Describes d root other,
        to_blocks-Offers root ds,
      )
    ]
  ]

  -- Without `show_all` the safety filter leaves a row for each device that is offered.
  pub enumerate-Offers :
      (root : Option Text) (ds : LsblkDevs)
      → (rows : List BlockDevice) × (enumerate (some (to_blocks std ds root)) false ≡ some rows)
        × Offers root ds rows
  unfolding enumerate
  enumerate-Offers root ds = (_, refl, to_blocks-Offers root ds)
