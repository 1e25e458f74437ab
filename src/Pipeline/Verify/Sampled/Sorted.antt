-- ===== src/Pipeline/Verify/Sampled/Sorted.antt =====
-- How `sampled_ranges` of crates/tekflash-core/src/pipeline/verify.rs sorts its ranges.
use tekflash.Common.{
  ℕ, ◌+◌, ◌≤◌, ◌<◌, ◌≡◌, refl, true, false, List, [], ◌∷◌, leb, if◌then◌else◌, arith, All,
  Bool-cases, inl, inr,
}
use mathlib.Core.List.Permᴰ
use mathlib.Core.List.{Permᴰ}
use tekflash.Pipeline.Verify.Sampled.{Range, sum_lengths, insert_range, sort_ranges}

-- A range that is not empty and ends on the device.
abbrev pub OnDevice : ℕ → Range → Type 0
OnDevice total r = (0 < r.1) × (r.0 + r.1 ≤ total)

insert_range-OnDevice :
    (total : ℕ) (r : Range) (rs : List Range)
    → OnDevice total r
    → All (OnDevice total) rs
    → All (OnDevice total) (insert_range r rs)
unfolding insert_range
insert_range-OnDevice total r [] h hs = (h, tt)
insert_range-OnDevice total r (x ∷ xs) h hs =
    elim (leb r.0 x.0)
      as (λ t. All (OnDevice total) (if t then r ∷ x ∷ xs else x ∷ insert_range r xs)) [
        | true ↦ (h, hs)
        | false ↦ (hs.0, insert_range-OnDevice total r xs h hs.1)
      ]

sum_lengths-insert_range :
    (r : Range) (rs : List Range) → sum_lengths (insert_range r rs) ≡ r.1 + sum_lengths rs
unfolding insert_range sum_lengths
sum_lengths-insert_range r [] = refl
sum_lengths-insert_range r (x ∷ xs) = ground (arith, sum_lengths-insert_range r xs)

-- The offsets do not fall.
abbrev IsAhead : Range → List Range → Type 0
IsAhead r [] = Unit
IsAhead r (x ∷ xs) = r.0 ≤ x.0

abbrev pub IsSorted : List Range → Type 0
IsSorted [] = Unit
IsSorted (r ∷ rs) = IsAhead r rs × IsSorted rs

insert_range-IsAhead :
    (r x : Range) (xs : List Range) → x.0 ≤ r.0 → IsAhead x xs → IsAhead x (insert_range r xs)
unfolding insert_range
insert_range-IsAhead r x [] h k = h
insert_range-IsAhead r x (y ∷ ys) h k =
    elim (leb r.0 y.0) as (λ t. IsAhead x (if t then r ∷ y ∷ ys else y ∷ insert_range r ys)) [
      | true ↦ h
      | false ↦ k
    ]

insert_range-IsSorted : (r : Range) (xs : List Range) → IsSorted xs → IsSorted (insert_range r xs)
unfolding insert_range
insert_range-IsSorted r [] h = (tt, tt)
insert_range-IsSorted r (x ∷ xs) (ahead, rest) = elim (Bool-cases (leb r.0 x.0)) [
  | inl le ↦ rw le (ground arith, (ahead, rest))
  | inr gt ↦
      rw gt (insert_range-IsAhead r x xs (ground arith) ahead, insert_range-IsSorted r xs rest)
]

pub sort_ranges-IsSorted : (rs : List Range) → IsSorted (sort_ranges rs)
unfolding sort_ranges
sort_ranges-IsSorted [] = tt
sort_ranges-IsSorted (r ∷ rs) = insert_range-IsSorted r (sort_ranges rs) (sort_ranges-IsSorted rs)

insert_range-Perm : (r : Range) (xs : List Range) → Permᴰ (insert_range r xs) (r ∷ xs)
unfolding insert_range
insert_range-Perm r [] = Permᴰ.refl (r ∷ [])
insert_range-Perm r (x ∷ xs) =
    elim (leb r.0 x.0)
      as (λ t. Permᴰ (if t then r ∷ x ∷ xs else x ∷ insert_range r xs) (r ∷ x ∷ xs)) [
        | true ↦ Permᴰ.refl (r ∷ x ∷ xs)
        | false ↦ Permᴰ.trans (Permᴰ.cons refl (insert_range-Perm r xs)) (Permᴰ.swap refl refl)
      ]

pub sort_ranges-Perm : (rs : List Range) → Permᴰ (sort_ranges rs) rs
unfolding sort_ranges
sort_ranges-Perm [] = Permᴰ.refl []
sort_ranges-Perm (r ∷ rs) =
    Permᴰ.trans (insert_range-Perm r (sort_ranges rs)) (Permᴰ.cons refl (sort_ranges-Perm rs))

pub sort_ranges-OnDevice :
    (total : ℕ) (rs : List Range) → All (OnDevice total) rs → All (OnDevice total) (sort_ranges rs)
unfolding sort_ranges
sort_ranges-OnDevice total [] hs = tt
sort_ranges-OnDevice total (r ∷ rs) hs =
    insert_range-OnDevice total r (sort_ranges rs) hs.0 (sort_ranges-OnDevice total rs hs.1)

pub sum_lengths-sort_ranges : (rs : List Range) → sum_lengths (sort_ranges rs) ≡ sum_lengths rs
unfolding sort_ranges sum_lengths
sum_lengths-sort_ranges [] = refl
sum_lengths-sort_ranges (r ∷ rs) =
    omega (arith, sum_lengths-insert_range r (sort_ranges rs), sum_lengths-sort_ranges rs)
