-- ===== src/Pipeline/Verify/Blocks.antt =====
-- The two blocks that a round of `verify_full` compares, and the streams that begin with them.
use tekflash.Common.{
  ◌≢◌, ℕ, zero, suc, ◌+◌, ◌<◌, ◌≡◌, refl, ap, ◌∙◌, Bool, true, false, List, [], ◌∷◌, ◌++◌, Option,
  none, some, ◌==◌, length, take, min, arith, length-append, Option-cases, trichotomy, inl, inr,
  ◌↔◌,
}
use tekflash.Pipeline.Verify.{VerifyOutcome, first_diff, compare_blocks}

-- The first offset at which two streams differ, or at which one of them ends before the other.
pub mismatch : List ℕ → List ℕ → Option ℕ
mismatch [] [] = none
mismatch [] (y ∷ b) = some 0
mismatch (x ∷ a) [] = some 0
mismatch (x ∷ a) (y ∷ b) = elim (x == y) [
  | false ↦ some 0
  | true ↦ elim (mismatch a b) [ none ↦ none | some i ↦ some (suc i) ]
]

-- At a given offset into the streams.
abbrev pub offset_by : ℕ → Option ℕ → Option ℕ
offset_by n none = none
offset_by n (some i) = some (n + i)

pub mismatch_none_iff : (a b : List ℕ) → (mismatch a b ≡ none) ↔ (a ≡ b)
unfolding mismatch
mismatch_none_iff [] [] = (λ _. refl, λ _. refl)
mismatch_none_iff [] (y ∷ b) = (λ h. cc, λ h. cc)
mismatch_none_iff (x ∷ a) [] = (λ h. cc, λ h. cc)
mismatch_none_iff (x ∷ a) (y ∷ b) =
    let (to, from) = mismatch_none_iff a b in (λ h. ground (arith, to), λ h. ground (arith, from))

first_diff-take :
    (c d : List ℕ) (n : ℕ)
    → n ≡ min (length c) (length d)
    → first_diff (take n c) (take n d) ≡ first_diff c d
unfolding first_diff
first_diff-take [] d zero e = refl
first_diff-take [] d (suc n) e = absurd (omega arith)
first_diff-take (x ∷ c) [] zero e = refl
first_diff-take (x ∷ c) [] (suc n) e = absurd (omega arith)
first_diff-take (x ∷ c) (y ∷ d) zero e = absurd (omega arith)
first_diff-take (x ∷ c) (y ∷ d) (suc n) e = ground (arith, first_diff-take c d n (omega arith))

-- The blocks c and d, and what follows them.
pub differ :
    (c d a b : List ℕ) (p : ℕ) → first_diff c d ≡ some p → mismatch (c ++ a) (d ++ b) ≡ some p
unfolding first_diff mismatch
differ [] d a b p h = cc
differ (x ∷ c) [] a b p h = cc
differ (x ∷ c) (y ∷ d) a b zero h = ground (arith, differ c d a b 0)
differ (x ∷ c) (y ∷ d) a b (suc p) h = ground (arith, differ c d a b p)

pub agree :
    (c d a b : List ℕ)
    → first_diff c d ≡ none
    → length c ≡ length d
    → mismatch (c ++ a) (d ++ b) ≡ offset_by (length c) (mismatch a b)
unfolding first_diff mismatch
agree [] [] a b h e = ground arith
agree [] (y ∷ d) a b h e = absurd (omega arith)
agree (x ∷ c) [] a b h e = absurd (omega arith)
agree (x ∷ c) (y ∷ d) a b h e = ground (arith, agree c d a b)

pub ends_first :
    (c d b : List ℕ)
    → first_diff c d ≡ none
    → length c < length d
    → mismatch (c ++ []) (d ++ b) ≡ some (length c)
unfolding first_diff mismatch
ends_first [] [] b h e = absurd (omega arith)
ends_first [] (y ∷ d) b h e = refl
ends_first (x ∷ c) [] b h e = absurd (omega arith)
ends_first (x ∷ c) (y ∷ d) b h e = ground (arith, ends_first c d b)

pub ends_last :
    (c d a : List ℕ)
    → first_diff c d ≡ none
    → length d < length c
    → mismatch (c ++ a) (d ++ []) ≡ some (length d)
unfolding first_diff mismatch
ends_last [] d a h e = absurd (omega arith)
ends_last (x ∷ c) [] a h e = refl
ends_last (x ∷ c) (y ∷ d) a h e = ground (arith, ends_last c d a)

pub stop_at : Bool → ℕ → Option ℕ → Option VerifyOutcome
stop_at passed bytes_read offset =
    some (record { passed = passed; bytes_read = bytes_read; first_mismatch_offset = offset })

module _ (offset : ℕ) (c d : List ℕ) where
  abbrev pub shared : ℕ
  shared = min (length c) (length d)

  pub compare_differ :
      (p : ℕ)
      → first_diff c d ≡ some p
      → compare_blocks offset c d ≡ stop_at false (offset + shared) (some (offset + p))
  unfolding compare_blocks stop_at
  compare_differ p h = rw (first_diff-take c d shared refl ∙ h, compare_blocks)

  pub compare_lengths :
      first_diff c d ≡ none
      → length c ≢ length d
      → compare_blocks offset c d ≡ stop_at false (offset + shared) (some (offset + shared))
  unfolding compare_blocks stop_at
  compare_lengths h ne = rw (first_diff-take c d shared refl ∙ h, compare_blocks) (ground arith)

  pub compare_end :
      first_diff c d ≡ none
      → length c ≡ length d
      → length c ≡ 0
      → compare_blocks offset c d ≡ stop_at true (offset + shared) none
  unfolding compare_blocks stop_at
  compare_end h e z = rw (first_diff-take c d shared refl ∙ h, compare_blocks) (ground arith)

  pub compare_goes_on :
      first_diff c d ≡ none → length c ≡ length d → 0 < length c → compare_blocks offset c d ≡ none
  unfolding compare_blocks stop_at
  compare_goes_on h e z = rw (first_diff-take c d shared refl ∙ h, compare_blocks) (ground arith)

-- The verdict on two streams, of a pass that began at `offset`.
abbrev pub Verdict : ℕ → List ℕ → List ℕ → VerifyOutcome → Type 0
Verdict offset a b o =
    (o.first_mismatch_offset ≡ offset_by offset (mismatch a b))
    × ((o.passed ≡ true) ↔ (mismatch a b ≡ none))
    × (o.passed ≡ true → o.bytes_read ≡ offset + length a)

module _ (offset : ℕ) (c d a b : List ℕ) where
  -- What a round says of the streams that begin with the blocks c and d.
  abbrev pub Says : Option VerifyOutcome → Type 0
  Says none =
      (0 < length c)
      × (length c ≡ length d)
      × (mismatch (c ++ a) (d ++ b) ≡ offset_by (length c) (mismatch a b))
  Says (some o) = Verdict offset (c ++ a) (d ++ b) o

  stops :
      (p bytes_read : ℕ)
      → mismatch (c ++ a) (d ++ b) ≡ some p
      → Says (stop_at false bytes_read (some (offset + p)))
  unfolding stop_at
  stops p bytes_read h = rw h (refl, (λ e. cc, λ e. cc), λ e. cc)

  no_mismatch :
      first_diff c d ≡ none
      → length c ≡ length d
      → (a ≡ []) × (b ≡ [])
      → mismatch (c ++ a) (d ++ b) ≡ none
  unfolding mismatch
  no_mismatch h e (p, q) =
      agree c d a b h e
      ∙ ap (λ x. offset_by (length c) (mismatch x b)) p
      ∙ ap (λ x. offset_by (length c) (mismatch [] x)) q

  passes :
      mismatch (c ++ a) (d ++ b) ≡ none
      → length (c ++ a) ≡ shared offset c d
      → Says (stop_at true (offset + shared offset c d) none)
  unfolding stop_at
  passes m l = rw (m, l) (refl, (λ _. refl, λ _. refl), λ _. refl)

  pub compare_blocks-Says :
      (length c < length d → a ≡ [])
      → (length d < length c → b ≡ [])
      → (length c ≡ 0 → length d ≡ 0 → (a ≡ []) × (b ≡ []))
      → Says (compare_blocks offset c d)
  compare_blocks-Says c_short d_short both = elim (Option-cases (first_diff c d)) [
    | inr (p, h) ↦ rw (compare_differ offset c d p h) (stops p _ (differ c d a b p h))
    | inl h ↦ elim (trichotomy (length c) (length d)) [
      | inl lt ↦ rw (compare_lengths offset c d h (omega arith)) (
          stops (shared offset c d) _ (
            ap (λ x. mismatch (c ++ x) (d ++ b)) (c_short lt)
            ∙ ends_first c d b h lt
            ∙ ap some (omega arith)))
      | inr (inr gt) ↦ rw (compare_lengths offset c d h (omega arith)) (
          stops (shared offset c d) _ (
            ap (λ x. mismatch (c ++ a) (d ++ x)) (d_short gt)
            ∙ ends_last c d a h gt
            ∙ ap some (omega arith)))
      | inr (inl e) ↦ elim (trichotomy 0 (length c)) [
        | inl some_left ↦
            rw (compare_goes_on offset c d h e some_left) (some_left, e, agree c d a b h e)
        | inr (inr none_left) ↦ absurd (omega arith)
        | inr (inl none_left) ↦
            let empty = both (omega arith) (omega arith) in
            rw (compare_end offset c d h e (omega arith))
              (passes (no_mismatch h e empty) (omega (arith, length-append c a, ap length empty.0)))
      ]
    ]
  ]
