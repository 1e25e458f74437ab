-- ===== src/Pipeline/Format/Magic.antt =====
-- `detect` against the table of magic numbers in its comments.
use tekflash.Common.{
  Bool-cases, inl, inr, ◌≢◌, ℕ, ◌≡◌, refl, ◌↔◌, Bool, true, false, List, [], ◌∷◌, Option, none,
  some, codes, text_eq, starts_with, get_elem?, arith, if◌then◌else◌,
}
use tekflash.Pipeline.Format.{
  InputFormat, raw, zstd, xz, gzip, bzip2, lz4, brotli, tar, encrypted, detect, tfe1_test,
  zstd_test, xz_test, gzip_test, bzip2_test, lz4_test,
}

-- The formats that a magic number marks, and the number.
abbrev pub magic : InputFormat → Option (List ℕ)
magic encrypted = some (codes "TFE1")
magic zstd = some (0x28 ∷ 0xB5 ∷ 0x2F ∷ 0xFD ∷ [])
magic xz = some (0xFD ∷ 0x37 ∷ 0x7A ∷ 0x58 ∷ 0x5A ∷ 0x00 ∷ [])
magic gzip = some (0x1F ∷ 0x8B ∷ [])
magic bzip2 = some (codes "BZh")
magic lz4 = some (0x04 ∷ 0x22 ∷ 0x4D ∷ 0x18 ∷ [])
magic raw = none
magic brotli = none
magic tar = none

tfe1_lem : (head : List ℕ) → tfe1_test head ≡ starts_with head (codes "TFE1")
unfolding text_eq starts_with
tfe1_lem [] = refl
tfe1_lem (a ∷ []) = ground arith
tfe1_lem (a ∷ b ∷ []) = ground arith
tfe1_lem (a ∷ b ∷ c ∷ []) = ground arith
tfe1_lem (a ∷ b ∷ c ∷ d ∷ r) = ground arith

zstd_lem : (head : List ℕ) → zstd_test head ≡ starts_with head (0x28 ∷ 0xB5 ∷ 0x2F ∷ 0xFD ∷ [])
unfolding starts_with
zstd_lem [] = refl
zstd_lem (a ∷ []) = ground arith
zstd_lem (a ∷ b ∷ []) = ground arith
zstd_lem (a ∷ b ∷ c ∷ []) = ground arith
zstd_lem (a ∷ b ∷ c ∷ d ∷ r) = ground arith

xz_lem :
    (head : List ℕ) → xz_test head ≡ starts_with head (0xFD ∷ 0x37 ∷ 0x7A ∷ 0x58 ∷ 0x5A ∷ 0x00 ∷ [])
unfolding starts_with
xz_lem [] = refl
xz_lem (a ∷ []) = ground arith
xz_lem (a ∷ b ∷ []) = ground arith
xz_lem (a ∷ b ∷ c ∷ []) = ground arith
xz_lem (a ∷ b ∷ c ∷ d ∷ []) = ground arith
xz_lem (a ∷ b ∷ c ∷ d ∷ e ∷ []) = ground arith
xz_lem (a ∷ b ∷ c ∷ d ∷ e ∷ f ∷ r) = ground arith

gzip_lem : (head : List ℕ) → gzip_test head ≡ starts_with head (0x1F ∷ 0x8B ∷ [])
unfolding starts_with
gzip_lem [] = refl
gzip_lem (a ∷ []) = ground arith
gzip_lem (a ∷ b ∷ r) = ground arith

bzip2_lem : (head : List ℕ) → bzip2_test head ≡ starts_with head (codes "BZh")
unfolding text_eq starts_with
bzip2_lem [] = refl
bzip2_lem (a ∷ []) = ground arith
bzip2_lem (a ∷ b ∷ []) = ground arith
bzip2_lem (a ∷ b ∷ c ∷ r) = ground arith

lz4_lem : (head : List ℕ) → lz4_test head ≡ starts_with head (0x04 ∷ 0x22 ∷ 0x4D ∷ 0x18 ∷ [])
unfolding starts_with
lz4_lem [] = refl
lz4_lem (a ∷ []) = ground arith
lz4_lem (a ∷ b ∷ []) = ground arith
lz4_lem (a ∷ b ∷ c ∷ []) = ground arith
lz4_lem (a ∷ b ∷ c ∷ d ∷ r) = ground arith

abbrev pub has_magic : List ℕ → InputFormat → Bool
has_magic head f = elim (magic f) [ none ↦ false | some m ↦ starts_with head m ]

-- The ladder of `detect`, over prefix tests.
ladder : List ℕ → InputFormat
ladder head =
    if has_magic head encrypted
    then encrypted
    else if has_magic head zstd
    then zstd
    else if has_magic head xz
    then xz
    else if has_magic head gzip
    then gzip
    else if has_magic head bzip2
    then bzip2
    else if has_magic head lz4
    then lz4
    else raw

detect-ladder : (head : List ℕ) → detect head ≡ ladder head
unfolding detect ladder
detect-ladder head =
    rw (tfe1_lem head, zstd_lem head, xz_lem head, gzip_lem head, bzip2_lem head, lz4_lem head)

first_byte :
    (head : List ℕ) (b : ℕ) (t : List ℕ)
    → starts_with head (b ∷ t) ≡ true
    → get_elem? head 0 ≡ some b
unfolding starts_with
first_byte [] b t h = cc
first_byte (c ∷ s) b t h = ground arith

-- No two magic numbers begin with the same byte.
abbrev key : InputFormat → Option ℕ
key f = elim (magic f) [ none ↦ none | some m ↦ get_elem? m 0 ]

first_lem : (head : List ℕ) (f : InputFormat) → has_magic head f ≡ true → get_elem? head 0 ≡ key f
first_lem head raw h = cc
first_lem head zstd h = first_byte head _ _ h
first_lem head xz h = first_byte head _ _ h
first_lem head gzip h = first_byte head _ _ h
first_lem head bzip2 h = first_byte head _ _ h
first_lem head lz4 h = first_byte head _ _ h
first_lem head brotli h = cc
first_lem head tar h = cc
first_lem head encrypted h = first_byte head _ _ h

ladder→test :
    (head : List ℕ) (f : InputFormat) → ladder head ≡ f → f ≢ raw → has_magic head f ≡ true
unfolding ladder
ladder→test head f h n = ground arith

test→ladder : (head : List ℕ) (f : InputFormat) → has_magic head f ≡ true → ladder head ≡ f
unfolding ladder
test→ladder head f h = ground (
  arith,
  first_lem head f h,
  first_lem head encrypted,
  first_lem head zstd,
  first_lem head xz,
  first_lem head gzip,
  first_lem head bzip2,
  first_lem head lz4,
)

-- A format with a magic number is detected exactly when the head begins with that number,
-- whatever the order of the tests.
pub detect_iff :
    (head : List ℕ) (f : InputFormat) {m : List ℕ}
    → magic f ≡ some m
    → (detect head ≡ f) ↔ (starts_with head m ≡ true)
detect_iff head f {m} e = (
  λ h. ground (arith, detect-ladder head, ladder→test head f),
  λ h. ground (arith, detect-ladder head, test→ladder head f),
)

ladder_raw : (head : List ℕ) → ((f : InputFormat) → has_magic head f ≡ false) → ladder head ≡ raw
unfolding ladder
ladder_raw head n = ground (arith, n encrypted, n zstd, n xz, n gzip, n bzip2, n lz4)

raw_has_none : (head : List ℕ) → has_magic head raw ≡ false
raw_has_none head = refl

raw→none : (head : List ℕ) (f : InputFormat) → ladder head ≡ raw → has_magic head f ≡ false
raw→none head f h = elim (Bool-cases (has_magic head f)) [
  | inr no_match ↦ no_match
  | inl matches ↦ ground (arith, test→ladder head f matches, raw_has_none head)
]

-- The head is taken for raw data exactly when it begins with none of the magic numbers.
pub detect-raw_iff :
    (head : List ℕ) → (detect head ≡ raw) ↔ ((f : InputFormat) → has_magic head f ≡ false)
detect-raw_iff head = (
  λ h f. raw→none head f (rw (detect-ladder head) at h),
  λ none_fits. rw (detect-ladder head) (ladder_raw head none_fits),
)
