-- ===== src/Pipeline/Verify/Sampled/Ranges.antt =====
-- Which ranges a sampled verification reads, and how many bytes they add up to.
use tekflash.Common.{
  append-nil, append_assoc, sym, subst, ◌⊎◌, ℕ, zero, suc, ◌+◌, ◌-◌, ◌*◌, ◌/◌, ◌%◌, ◌^◌, ◌≤◌, ◌<◌,
  ◌≡◌, ◌∙◌, ap, refl, false, List, [], ◌∷◌, ◌++◌, Option, some, ◌==◌, ltb, min, max, arith, All,
  All-append, Bool-cases, inl, inr,
}
use mathlib.Core.List.{Permᴰ}
use native.Mathlib.Nat.{mod-lt, mul-le-mul_left}
use tekflash.Pipeline.Verify.Sampled.{
  VerifyPlan, and_not, or_one, next_state, Range, sum_lengths, sort_ranges, aligned_offset, fill,
  target_of, stripe_of, head_and_tail, sampled_ranges,
}
use tekflash.Pipeline.Verify.Sampled.Sorted.{
  OnDevice, IsSorted, sort_ranges-OnDevice, sum_lengths-sort_ranges, sort_ranges-IsSorted,
  sort_ranges-Perm,
}

mul_flag : (x d : ℕ) → d ≤ 1 → x * d ≤ x
mul_flag x zero h = omega arith
mul_flag x (suc zero) h = omega arith
mul_flag x (suc (suc d)) h = absurd (omega arith)

and_not-le : (w a b : ℕ) → and_not w a b ≤ a
unfolding and_not
and_not-le zero a b = omega arith
and_not-le (suc w) a b =
    omega (arith, mul_flag (a % 2) (1 - b % 2) (omega arith), and_not-le w (a / 2) (b / 2))

sum_lengths-snoc : (rs : List Range) (r : Range) → sum_lengths (rs ++ r ∷ []) ≡ sum_lengths rs + r.1
unfolding sum_lengths
sum_lengths-snoc [] r = omega arith
sum_lengths-snoc (x ∷ rs) r = omega (arith, sum_lengths-snoc rs r)

-- The first `n` stripes of a device behind the generator's state: each lies at the remainder of the next
-- state by the size, less the bits of it below the stripe's, and is as long as a stripe or as what is
-- left of the device there.
pub stripes : (total stripe n state : ℕ) → List Range
stripes total stripe zero state = []
stripes total stripe (suc n) state =
    let state' = (state * 1664525 + 1013904223) % 2 ^ 64 in
    let offset = and_not 64 (state' % total) (stripe - 1) in
    (offset, min stripe (total - offset)) ∷ stripes total stripe n state'

next_state_eq : (state : ℕ) → next_state state ≡ (state * 1664525 + 1013904223) % 2 ^ 64
unfolding next_state
next_state_eq state = omega arith

aligned_offset_eq :
    (total target stripe state : ℕ)
    → 0 < total
    → aligned_offset total target stripe state ≡ and_not 64 (state % total) (stripe - 1)
unfolding aligned_offset
aligned_offset_eq total target stripe state h =
    ap (λ n. and_not 64 (state % n) (stripe - 1)) (omega arith)

stripes-suc :
    (total target stripe n state : ℕ)
    → 0 < total
    → stripes total stripe (suc n) state
      ≡ (
        aligned_offset total target stripe (next_state state),
        min stripe (total - aligned_offset total target stripe (next_state state)),
      )
        ∷ stripes total stripe n (next_state state)
unfolding stripes
stripes-suc total target stripe n state h =
    rw
      (
        next_state_eq state,
        aligned_offset_eq total target stripe ((state * 1664525 + 1013904223) % 2 ^ 64) h,
      )
      refl

module _ (total target stripe : ℕ) (some_bytes : 0 < total) (wide : 0 < stripe) where
  aligned-lt : (state : ℕ) → aligned_offset total target stripe state < total
  unfolding aligned_offset
  aligned-lt state = omega (
    arith,
    and_not-le 64 (state % max total 1) (stripe - 1),
    mod-lt state {m = max total 1} (omega arith),
  )

  -- What the loop gives once the fuel makes up for what is not covered.
  abbrev Covers : ℕ → List Range → Option (List Range) → Type 0
  Covers state ranges o =
      (n : ℕ) × (o ≡ some (ranges ++ stripes total stripe n state))
      × All (OnDevice total) (ranges ++ stripes total stripe n state)
      × (target ≤ sum_lengths (ranges ++ stripes total stripe n state))
      × ((n ≡ 0) ⊎ (sum_lengths (ranges ++ stripes total stripe n state) < target + stripe))

  covered_already :
      (state covered : ℕ) (ranges : List Range) (o : Option (List Range))
      → o ≡ some ranges
      → sum_lengths ranges ≡ covered
      → All (OnDevice total) ranges
      → target ≤ covered
      → Covers state ranges o
  unfolding stripes
  covered_already state covered ranges o e s h enough =
      let same = append-nil ranges in
      (
        0,
        e ∙ ap some (sym same),
        subst (All (OnDevice total)) (sym same) h,
        subst (λ rs. target ≤ sum_lengths rs) (sym same) (omega (arith, s, enough)),
        inl refl,
      )

  overshoot :
      (covered : ℕ) (ranges : List Range) (r : Range) (n state : ℕ)
      → sum_lengths ranges ≡ covered
      → covered < target
      → r.1 ≤ stripe
      → (n ≡ 0)
        ⊎ (sum_lengths ((ranges ++ r ∷ []) ++ stripes total stripe n state) < target + stripe)
      → sum_lengths ((ranges ++ r ∷ []) ++ stripes total stripe n state) < target + stripe
  unfolding stripes
  overshoot covered ranges r zero state s below len few =
      subst (λ rs. sum_lengths rs < target + stripe) (sym (append-nil (ranges ++ r ∷ [])))
        (omega (arith, sum_lengths-snoc ranges r, s, below, len))
  overshoot covered ranges r (suc n) state s below len (inl e) = absurd (omega arith)
  overshoot covered ranges r (suc n) state s below len (inr few) = few

  -- One stripe more in front.
  covered_by_one :
      (state covered : ℕ) (ranges : List Range) (r : Range) (o o' : Option (List Range))
      → ((n : ℕ)
          → stripes total stripe (suc n) state ≡ r ∷ stripes total stripe n (next_state state))
      → o ≡ o'
      → sum_lengths ranges ≡ covered
      → covered < target
      → r.1 ≤ stripe
      → Covers (next_state state) (ranges ++ r ∷ []) o'
      → Covers state ranges o
  unfolding stripes
  covered_by_one state covered ranges r o o' next e s below len (n, k, fine, most, few) =
      let all = ranges ++ stripes total stripe (suc n) state in
      let same : (ranges ++ r ∷ []) ++ stripes total stripe n (next_state state) ≡ all =
        append_assoc ranges (r ∷ []) _ ∙ ap (λ x. ranges ++ x) (sym (next n)) in
      (
        suc n,
        e ∙ k ∙ ap some same,
        subst (All (OnDevice total)) same fine,
        subst (λ rs. target ≤ sum_lengths rs) same most,
        inr (
            subst (λ rs. sum_lengths rs < target + stripe) same
              (overshoot covered ranges r n (next_state state) s below len few)),
      )

  fill-Covers :
      (fuel state covered : ℕ) (ranges : List Range)
      → sum_lengths ranges ≡ covered
      → All (OnDevice total) ranges
      → target ≤ covered + fuel
      → Covers state ranges (fill total target stripe fuel state covered ranges)
  unfolding fill
  fill-Covers zero state covered ranges e h enough =
      covered_already state covered ranges _ (ground arith) e h (omega arith)
  fill-Covers (suc fuel) state covered ranges e h enough = elim (Bool-cases (ltb covered target)) [
    | inr stop ↦ covered_already state covered ranges _ (rw stop refl) e h (ground arith)
    | inl go ↦
        let state' = next_state state in
        let aligned = aligned_offset total target stripe state' in
        let len = min stripe (total - aligned) in
        let below = aligned-lt state' in
        covered_by_one state covered ranges (aligned, len) _ _
          (λ n. stripes-suc total target stripe n state some_bytes)
          (ground (arith, go, below, wide)) e (ground arith) (omega arith)
          (fill-Covers fuel state' (covered + len) (ranges ++ (aligned, len) ∷ [])
            (sum_lengths-snoc ranges (aligned, len) ∙ ap (λ n. n + len) e)
            (All-append (OnDevice total) ranges ((aligned, len) ∷ []) h
              (((omega (arith, below, wide)), omega (arith, below)), tt))
            (omega (arith, below, wide, enough)))
  ]

head_and_tail-OnDevice :
    (total stripe : ℕ) → 0 < total → 0 < stripe → All (OnDevice total) (head_and_tail total stripe)
unfolding head_and_tail
head_and_tail-OnDevice total stripe some_bytes wide = (
  (omega arith, omega arith),
  elim (Bool-cases (ltb (2 * stripe) total)) [
    | inl h ↦ rw h ((wide, ground arith), tt)
    | inr h ↦ rw h tt
  ],
)

stripe_of-pos : (plan : VerifyPlan) → 0 < stripe_of plan
unfolding stripe_of
stripe_of-pos plan = omega arith

target_of_lem :
    (plan : VerifyPlan)
    → plan.total_bytes * plan.sample_pct < 2 ^ 64
    → target_of plan ≡ plan.total_bytes * plan.sample_pct / 100
unfolding target_of
target_of_lem plan h = omega arith

share-le : (t p : ℕ) → p ≤ 100 → t * p / 100 ≤ t
share-le t p h = omega (arith, mul-le-mul_left t h)

not_empty : (n : ℕ) → 0 < n → (n == 0) ≡ false
not_empty n h = ground arith

-- A stripe is a MiB, or the share in bytes where that is less.
abbrev pub stripe_for : VerifyPlan → ℕ
stripe_for plan = min 1048576 (max (plan.total_bytes * plan.sample_pct / 100) 1)

-- The device's last stripe, where there are more bytes than two stripes.
abbrev pub IsTail : ℕ → ℕ → List Range → Type 0
IsTail total stripe tail =
    ((2 * stripe < total) × (tail ≡ (total - stripe, stripe) ∷ []))
    ⊎ ((total ≤ 2 * stripe) × (tail ≡ []))

stripe_of-stripe_for :
    (plan : VerifyPlan)
    → plan.total_bytes * plan.sample_pct < 2 ^ 64
    → stripe_of plan ≡ stripe_for plan
unfolding stripe_of
stripe_of-stripe_for plan h = ap (λ t. min 1048576 (max t 1)) (target_of_lem plan h)

head_and_tail-IsTail :
    (total stripe : ℕ)
    → (tail : List Range) × IsTail total stripe tail
      × (head_and_tail total stripe ≡ (0, min stripe total) ∷ tail)
unfolding head_and_tail
head_and_tail-IsTail total stripe = elim (Bool-cases (ltb (2 * stripe) total)) [
  | inl h ↦ (_, inl (ground arith, refl), rw h refl)
  | inr h ↦ (_, inr (ground arith, refl), rw h refl)
]

-- What a plan comes to, with the stripe's length and the share in bytes.
abbrev pub Sampled : VerifyPlan → ℕ → ℕ → Option (List Range) → Type 0
Sampled plan stripe share o =
    (rs : List Range) × (tail : List Range) × (n : ℕ) × (o ≡ some rs)
    × IsTail plan.total_bytes stripe tail
    × Permᴰ rs (
        (0, min stripe plan.total_bytes)
        ∷ (tail ++ stripes plan.total_bytes stripe n (or_one plan.stripe_seed)))
    × IsSorted rs
    × All (OnDevice plan.total_bytes) rs
    × (share ≤ sum_lengths rs)
    × ((n ≡ 0) ⊎ (sum_lengths rs < share + stripe))

sampled_ranges-Sampled :
    (fuel : ℕ) (plan : VerifyPlan)
    → 0 < plan.total_bytes
    → 0 < plan.sample_pct
    → target_of plan ≤ fuel
    → Sampled plan (stripe_of plan) (target_of plan) (sampled_ranges fuel plan)
unfolding sampled_ranges
sampled_ranges-Sampled fuel plan some_bytes share enough =
    let wide = stripe_of-pos plan in
    let start = head_and_tail plan.total_bytes (stripe_of plan) in
    let (tail, is_tail, split) = head_and_tail-IsTail plan.total_bytes (stripe_of plan) in
    let (n, r, fine, most, few) =
      fill-Covers plan.total_bytes (target_of plan) (stripe_of plan) some_bytes wide fuel
        (or_one plan.stripe_seed) (sum_lengths start) start refl
        (head_and_tail-OnDevice plan.total_bytes (stripe_of plan) some_bytes wide)
        (omega (arith, enough)) in
    let rs = start ++ stripes plan.total_bytes (stripe_of plan) n (or_one plan.stripe_seed) in
    let sum = sum_lengths-sort_ranges rs in
    (
      sort_ranges rs,
      tail,
      n,
      rw (not_empty plan.total_bytes some_bytes, not_empty plan.sample_pct share, r),
      is_tail,
      subst
          (λ x.
            Permᴰ (sort_ranges rs)
              (x ++ stripes plan.total_bytes (stripe_of plan) n (or_one plan.stripe_seed)))
          split (sort_ranges-Perm rs),
      sort_ranges-IsSorted rs,
      sort_ranges-OnDevice plan.total_bytes rs fine,
      subst (λ x. target_of plan ≤ x) (sym sum) most,
      subst (λ x. (n ≡ 0) ⊎ (x < target_of plan + stripe_of plan)) (sym sum) few,
    )

-- For a plan over a device with bytes and a share of 1 to 100 per cent whose product does not
-- overflow, `sampled_ranges` comes to an end once the fuel is at least the device's size. The ranges
-- are then, sorted by their offsets, the first stripe of the device, its last one where it has more
-- bytes than two stripes, and some number of stripes at the offsets that the generator gives one
-- after the other. None is empty, all lie on the device, and their lengths, which count a byte as
-- often as it is in a range, add up to the share at least; if the generator was used, to less than one
-- stripe more.
pub sampled_ranges_lem :
    (fuel : ℕ) (plan : VerifyPlan)
    → 0 < plan.total_bytes
    → 0 < plan.sample_pct
    → plan.sample_pct ≤ 100
    → plan.total_bytes * plan.sample_pct < 2 ^ 64
    → plan.total_bytes ≤ fuel
    → Sampled plan
        (stripe_for plan)
        (plan.total_bytes * plan.sample_pct / 100)
        (sampled_ranges fuel plan)
sampled_ranges_lem fuel plan some_bytes share part fits enough =
    let total = target_of_lem plan fits in
    subst (λ t. Sampled plan (stripe_for plan) t (sampled_ranges fuel plan)) total
      (subst (λ x. Sampled plan x (target_of plan) (sampled_ranges fuel plan))
        (stripe_of-stripe_for plan fits)
        (sampled_ranges-Sampled fuel plan some_bytes share
          (omega (arith, total, share-le plan.total_bytes plan.sample_pct part, enough))))
