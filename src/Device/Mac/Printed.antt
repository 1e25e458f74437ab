-- ===== src/Device/Mac/Printed.antt =====
-- The output of mount(8), as `mountpoints_for_disk` of crates/tekflash-core/src/device/macos.rs takes
-- it, read back line by line.
use tekflash.Common.{
  ℕ, suc, ◌+◌, ◌<◌, ◌≡◌, ◌≢◌, ◌∙◌, refl, ap, subst, true, false, List, [], ◌∷◌, ◌++◌, map,
  append_assoc, some, Text, FilePath, codes, text_eq, contains, starts_with, find, drop, length,
  take-append, All, All-append, arith, if◌then◌else◌, ◌&&◌,
}
use tekflash.Device.Linux.{Std, trim_start, trim_end}
use tekflash.Device.Mac.Mounts.{
  is_ascii_digit, is_match, backs, mount_path, mountpoints_in, after_on, before_paren, non_empty,
}

-- A mounted file system: the number of its disk, its slice, where it is mounted, and its type with
-- its options.
pub record Mounted : Type 0 where
  pub number : Text
  pub slice : Text
  pub on : Text
  pub options : Text

abbrev IsDigit : ℕ → Type 0
IsDigit c = is_ascii_digit c ≡ true

abbrev pub IsSlice : Text → Type 0
IsSlice [] = Unit {0}
IsSlice (c ∷ []) = ⊥
IsSlice (c ∷ d ∷ ds) = (c ≡ b's') × IsDigit d × All IsDigit ds

-- What mount(8) prints can be read back: the disk and the slice are numbers, and the mountpoint is
-- not blank at its ends and has no ` (` in it.
pub record IsReadable (std : Std) (m : Mounted) : Type 0 where
  pub numbered : All IsDigit m.number
  pub sliced : IsSlice m.slice
  pub somewhere : 0 < length m.on
  pub trimmed : trim_end std (trim_start std m.on) ≡ m.on
  pub no_paren : contains m.on (codes " (") ≡ false

abbrev device : Mounted → Text
device m = codes "/dev/disk" ++ (m.number ++ m.slice)

abbrev behind : Mounted → Text
behind m = codes " on " ++ (m.on ++ (codes " (" ++ m.options))

-- The line of mount(8): `/dev/diskNsM on PATH (OPTIONS)`.
abbrev pub printed : Mounted → Text
printed m = device m ++ behind m

-- A number is told from another one by what stands behind it.
bounded :
    (a b : Text) (c : ℕ) (r : Text)
    → All IsDigit a
    → All IsDigit b
    → is_ascii_digit c ≡ false
    → is_match (c ∷ r) ≡ true
    → (starts_with (b ++ c ∷ r) a && is_match (drop (length a) (b ++ c ∷ r))) ≡ text_eq b a
unfolding backs text_eq
bounded [] [] c r ha hb hc hm = hm
bounded [] (y ∷ b) c r ha hb hc hm = ground arith
bounded (x ∷ a) [] c r ha hb hc hm = ground arith
bounded (x ∷ a) (y ∷ b) c r ha hb hc hm = ground (arith, bounded a b c r)

backs-slice :
    (n num slice rest : Text)
    → All IsDigit n
    → All IsDigit num
    → IsSlice slice
    → backs (codes "disk" ++ n) (codes "/dev/disk" ++ ((num ++ slice) ++ (b' ' ∷ rest)))
      ≡ text_eq num n
unfolding backs
backs-slice n num [] rest hn hm hs =
    rw (append_assoc num [] (b' ' ∷ rest)) (bounded n num b' ' rest hn hm refl refl)
backs-slice n num (c ∷ []) rest hn hm hs = elim hs [ ]
backs-slice n num (c ∷ d ∷ ds) rest hn hm hs = rw (append_assoc num (c ∷ d ∷ ds) (b' ' ∷ rest)) (
    bounded n num c (d ∷ ds ++ b' ' ∷ rest) hn hm (ground (arith, hs.0))
      (ground (arith, hs.0, hs.1)))

-- The first ` on ` stands behind the device, which has no blank.
find-on :
    (f r : Text)
    → All (λ c. c ≢ b' ') f
    → find (f ++ (codes " on " ++ r)) (codes " on ") ≡ some (length f)
unfolding find
find-on [] r h = refl
find-on (c ∷ f) r h = ground (arith, find-on f r)

drop-on : (f r : Text) → drop (length f + 4) (f ++ (codes " on " ++ r)) ≡ r
drop-on [] r = refl
drop-on (c ∷ f) r =
    let e : suc (length f + 4) ≡ suc (length f) + 4 = omega arith in
    subst (λ k. drop k (c ∷ (f ++ (codes " on " ++ r))) ≡ r) e (drop-on f r)

find-paren :
    (p o : Text)
    → contains p (codes " (") ≡ false
    → find (p ++ (codes " (" ++ o)) (codes " (") ≡ some (length p)
unfolding find contains
find-paren [] o h = refl
find-paren (c ∷ []) o h = ground arith
find-paren (c ∷ d ∷ p) o h = ground (arith, find-paren (d ∷ p) o)

abbrev NotBlank : ℕ → Type 0
NotBlank c = c ≢ b' '

digits-NotBlank : (s : Text) → All IsDigit s → All NotBlank s
digits-NotBlank [] h = tt
digits-NotBlank (c ∷ s) h = (ground (arith, h.0), digits-NotBlank s h.1)

slice-NotBlank : (s : Text) → IsSlice s → All NotBlank s
slice-NotBlank [] h = tt
slice-NotBlank (c ∷ []) h = elim h [ ]
slice-NotBlank (c ∷ d ∷ ds) h = (omega (arith, h.0), digits-NotBlank (d ∷ ds) (h.1, h.2))

non_empty_lem : (std : Std) (s : Text) → 0 < length s → non_empty std s ≡ std.path_from s ∷ []
non_empty_lem std [] h = absurd (omega arith)
non_empty_lem std (c ∷ s) h = refl

mount_path-printed :
    (std : Std) (m : Mounted)
    → IsReadable std m
    → mount_path std (printed m) ≡ std.path_from m.on ∷ []
unfolding mount_path
mount_path-printed std m h =
    let part = m.on ++ (codes " (" ++ m.options) in
    let blanks = All-append NotBlank (codes "/dev/disk") (m.number ++ m.slice) (omega arith) (
      All-append NotBlank m.number m.slice (digits-NotBlank m.number h.numbered)
        (slice-NotBlank m.slice h.sliced)) in
    ap (after_on std (printed m)) (find-on (device m) part blanks)
    ∙ ap (λ rest. before_paren std rest (find rest (codes " ("))) (drop-on (device m) part)
    ∙ ap (before_paren std part) (find-paren m.on m.options h.no_paren)
    ∙ ap (λ p. non_empty std (trim_end std (trim_start std p)))
        (take-append m.on (codes " (" ++ m.options) (length m.on) refl)
    ∙ ap (non_empty std) h.trimmed
    ∙ non_empty_lem std m.on h.somewhere

-- The mounts of the disk, in the order of the output.
unfoldable pub mounted_on : Std → Text → List Mounted → List FilePath
mounted_on std n [] = []
mounted_on std n (m ∷ ms) =
    let rest = mounted_on std n ms in if text_eq m.number n then std.path_from m.on ∷ rest else rest

-- From lines that can be read back, the mountpoints of a disk are those of the file systems on the
-- disk with that number and on its slices, and no others.
pub mountpoints_in-printed :
    (std : Std) (n : Text) (ms : List Mounted)
    → All IsDigit n
    → All (IsReadable std) ms
    → mountpoints_in std (codes "disk" ++ n) (map printed ms) ≡ mounted_on std n ms
unfolding mountpoints_in mounted_on
mountpoints_in-printed std n [] hn h = refl
mountpoints_in-printed std n (m ∷ ms) hn h =
    let rest = mountpoints_in std (codes "disk" ++ n) (map printed ms) in
    ap (λ b. if b then mount_path std (printed m) ++ rest else rest)
      (backs-slice n m.number m.slice _ hn (h.0.numbered) (h.0.sliced))
    ∙ ap (λ ps. if text_eq m.number n then ps ++ rest else rest) (mount_path-printed std m h.0)
    ∙ ap (λ qs. if text_eq m.number n then std.path_from m.on ∷ qs else qs)
        (mountpoints_in-printed std n ms hn h.1)
