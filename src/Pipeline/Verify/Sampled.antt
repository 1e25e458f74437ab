-- ===== src/Pipeline/Verify/Sampled.antt =====
-- VerifyPlan and `sampled_ranges` of crates/tekflash-core/src/pipeline/verify.rs. Numbers are u64;
-- the loop runs on fuel.
pub mod Sorted
pub mod Ranges
use tekflash.Common.{
  ℕ, zero, suc, ◌+◌, ◌-◌, ◌*◌, ◌/◌, ◌%◌, ◌^◌, Bool, ◌||◌, List, [], ◌∷◌, ◌++◌, Option, none, some,
  ◌==◌, ltb, leb, if◌then◌else◌, min, max,
}

pub data VerifyMode : Type 0 where
  off full sampled deferred : VerifyMode

pub record VerifyPlan : Type 0 where
  pub mode : VerifyMode
  pub total_bytes : ℕ
  pub sample_pct : ℕ
  pub stripe_seed : ℕ

unfoldable pub full_plan : ℕ → VerifyPlan
full_plan total_bytes = record {
  mode = full;
  total_bytes = total_bytes;
  sample_pct = 100;
  stripe_seed = total_bytes;
}

unfoldable pub sampled_plan : ℕ → ℕ → VerifyPlan
sampled_plan total_bytes pct = record {
  mode = sampled;
  total_bytes = total_bytes;
  sample_pct = min (max pct 1) 100;
  stripe_seed = total_bytes;
}

-- `a & !b`, on the lowest `w` bits.
unfoldable pub and_not : ℕ → ℕ → ℕ → ℕ
and_not zero a b = 0
and_not (suc w) a b = a % 2 * (1 - b % 2) + 2 * and_not w (a / 2) (b / 2)

-- `n | 1`.
unfoldable pub or_one : ℕ → ℕ
or_one n = if n % 2 == 0 then n + 1 else n

-- The generator's next state.
unfoldable pub next_state : ℕ → ℕ
next_state state = (state * 1664525 % 2 ^ 64 + 1013904223) % 2 ^ 64

abbrev pub Range : Type 0
Range = ℕ × ℕ

unfoldable pub sum_lengths : List Range → ℕ
sum_lengths [] = 0
sum_lengths (r ∷ rs) = r.1 + sum_lengths rs

-- `sort_by_key` on the offset, which keeps the order of equal keys.
unfoldable pub insert_range : Range → List Range → List Range
insert_range r [] = r ∷ []
insert_range r (x ∷ xs) =
    let rest = insert_range r xs in if leb r.0 x.0 then r ∷ x ∷ xs else x ∷ rest

unfoldable pub sort_ranges : List Range → List Range
unfolding insert_range
sort_ranges [] = []
sort_ranges (r ∷ rs) = insert_range r (sort_ranges rs)

module _ (total target stripe : ℕ) where
  unfoldable pub aligned_offset : ℕ → ℕ
  aligned_offset state = and_not 64 (state % max total 1) (stripe - 1)

  -- The `while`; without fuel it gives no ranges at all.
  unfoldable pub fill : ℕ → ℕ → ℕ → List Range → Option (List Range)
  unfolding next_state aligned_offset
  fill zero state covered ranges = if ltb covered target then none else some ranges
  fill (suc fuel) state covered ranges =
      let state' = next_state state in
      let aligned = aligned_offset state' in
      let len = min stripe (total - aligned) in
      let skipped = fill fuel state' covered ranges in
      let pushed = fill fuel state' (covered + len) (ranges ++ (aligned, len) ∷ []) in
      if ltb covered target then (if len == 0 then skipped else pushed) else some ranges

-- `total_bytes * sample_pct / 100`, whose product wraps.
unfoldable pub target_of : VerifyPlan → ℕ
target_of plan = plan.total_bytes * plan.sample_pct % 2 ^ 64 / 100

unfoldable pub stripe_of : VerifyPlan → ℕ
unfolding target_of
stripe_of plan = min (1024 * 1024) (max (target_of plan) 1)

-- The first stripe, and the last one where the device has more than two.
unfoldable pub head_and_tail : ℕ → ℕ → List Range
head_and_tail total stripe =
    (0, min stripe total) ∷ (if ltb (2 * stripe) total then (total - stripe, stripe) ∷ [] else [])

abbrev map_sort : Option (List Range) → Option (List Range)
map_sort none = none
map_sort (some rs) = some (sort_ranges rs)

unfoldable pub sampled_ranges : ℕ → VerifyPlan → Option (List Range)
unfolding sort_ranges fill target_of stripe_of head_and_tail or_one sum_lengths
sampled_ranges fuel plan =
    let ranges = head_and_tail plan.total_bytes (stripe_of plan) in
    if plan.total_bytes == 0 || plan.sample_pct == 0
    then some []
    else map_sort (
        fill plan.total_bytes (target_of plan) (stripe_of plan) fuel (or_one plan.stripe_seed)
          (sum_lengths ranges) ranges)
