-- ===== src/Pipeline/Verify/Full.antt =====
-- `read_exact_or_eof` fills its buffer; `verify_full` decides whether two streams are equal, and finds where they part.
use tekflash.Common.{
  ◌↔◌, ℕ, zero, suc, ◌+◌, ◌-◌, ◌≤◌, ◌<◌, ◌≡◌, refl, sym, ap, ◌∙◌, true, List, [], ◌∷◌, ◌++◌, Option,
  none, some, length, take, drop, min, Result, ok, arith, take-append_past, drop-append_past,
  take-append-drop, length-append, drop_all, length-take, Option-cases, inl, inr,
}
use tekflash.Pipeline.Reader.{Reader, ReadLaws, Infallible}
use tekflash.Pipeline.Verify.Blocks.{
  mismatch, offset_by, Verdict, Says, compare_blocks-Says, mismatch_none_iff,
}
use tekflash.Pipeline.Verify.{
  VerifyOutcome, VerifyError, buffer_size, read_exact_or_eof, compare_blocks, verify_full,
}

module _ {E : Type 0} (r : Reader E) (rest : r.State → List ℕ) (laws : ReadLaws r rest)
    (total : Infallible r) where
  abbrev Filled : ℕ → r.State → Result (VerifyError E) (List ℕ × r.State) → Type 0
  Filled want s res =
      (p : List ℕ × r.State) × (res ≡ ok p)
      × (p.0 ≡ take want (rest s))
      × (rest p.1 ≡ drop want (rest s))

  Filled-step :
      (fuel want : ℕ) (s s' : r.State) (chunk : List ℕ)
      → r.read s (suc want) ≡ ok (chunk, s')
      → (0 < length chunk
          → Filled
              (suc want - length chunk)
              s'
              (read_exact_or_eof r fuel (suc want - length chunk) s'))
      → Filled (suc want) s (read_exact_or_eof r (suc fuel) (suc want) s)
  unfolding read_exact_or_eof
  Filled-step fuel want s s' [] e ih =
      let ended = laws.at_end s s' (suc want) (omega arith) e in
      let left : rest s' ≡ [] = sym (laws.piece s s' (suc want) [] e) ∙ ended in
      (([], s'), rw (e, read_exact_or_eof), rw ended, rw (ended, left))
  Filled-step fuel want s s' (c ∷ cs) e ih =
      let ((more, t), q, got, left) = ih (omega arith) in
      let split = laws.piece s s' (suc want) (c ∷ cs) e in
      let fits = laws.fits s s' (suc want) (c ∷ cs) e in
      let same : suc want - suc (length cs) ≡ want - length cs = omega arith in
      (
        (c ∷ (cs ++ more), t),
        rw (e, read_exact_or_eof, ← same, q),
        sym (
            ap (take (suc want)) split
            ∙ take-append_past (c ∷ cs) (rest s') (suc want) fits
            ∙ ap (λ x. c ∷ (cs ++ x)) (sym got)),
        left
            ∙ sym
                (ap (drop (suc want)) split ∙ drop-append_past (c ∷ cs) (rest s') (suc want) fits),
      )

  -- The block of a full or a last read.
  pub read_exact_or_eof-Filled :
      (fuel want : ℕ) (s : r.State) → want ≤ fuel → Filled want s (read_exact_or_eof r fuel want s)
  unfolding read_exact_or_eof
  read_exact_or_eof-Filled zero zero s h = (([], s), refl, refl, refl)
  read_exact_or_eof-Filled (suc fuel) zero s h = (([], s), refl, refl, refl)
  read_exact_or_eof-Filled zero (suc want) s h = absurd (omega arith)
  read_exact_or_eof-Filled (suc fuel) (suc want) s h =
      let ((chunk, s'), e) = total.succeeds s (suc want) in
      Filled-step fuel want s s' chunk e
        λ pos. read_exact_or_eof-Filled fuel (suc want - length chunk) s' (omega arith)

module _ (cap : ℕ) (a : List ℕ) where
  short_block : length (take cap a) < cap → drop cap a ≡ []
  short_block h = drop_all cap a (omega (arith, length-take cap a))

  empty_block : 0 < cap → length (take cap a) ≡ 0 → drop cap a ≡ []
  empty_block pos h = drop_all cap a (omega (arith, length-take cap a))

offset_by_zero : (m : Option ℕ) → offset_by 0 m ≡ m
offset_by_zero none = refl
offset_by_zero (some i) = ap some (omega arith)

joined : (cap : ℕ) (a c a' : List ℕ) → c ≡ take cap a → a' ≡ drop cap a → a ≡ c ++ a'
joined cap a c a' p q = rw (p, q) (sym (take-append-drop cap a))

-- Two blocks cut off the two streams, in one round.
block_Says :
    (cap offset : ℕ) (a b : List ℕ)
    → 0 < cap
    → Says offset
        (take cap a)
        (take cap b)
        (drop cap a)
        (drop cap b)
        (compare_blocks offset (take cap a) (take cap b))
block_Says cap offset a b pos =
    compare_blocks-Says offset (take cap a) (take cap b) (drop cap a) (drop cap b)
      (λ h. short_block cap a (omega (arith, length-take cap b)))
      (λ h. short_block cap b (omega (arith, length-take cap a)))
      (λ h k. (empty_block cap a pos h, empty_block cap b pos k))

-- The verdict on what is left, carried over to the whole.
Verdict-longer :
    (offset n : ℕ) (a a' b b' : List ℕ) (o : VerifyOutcome)
    → mismatch a b ≡ offset_by n (mismatch a' b')
    → length a ≡ n + length a'
    → Verdict (offset + n) a' b' o
    → Verdict offset a b o
Verdict-longer offset n a a' b b' o e l v = elim (Option-cases (mismatch a' b')) [
  | inl m ↦ ground (arith, m, v.2)
  | inr (p, m) ↦ ground (arith, m, v.2)
]

module _ {E : Type 0} (source : Reader E) (rest_s : source.State → List ℕ)
    (laws_s : ReadLaws source rest_s) (total_s : Infallible source) (device : Reader E)
    (rest_d : device.State → List ℕ) (laws_d : ReadLaws device rest_d) (total_d : Infallible device)
    (cap : ℕ) (pos : 0 < cap) where
  abbrev Ends : ℕ → List ℕ → List ℕ → Result (VerifyError E) VerifyOutcome → Type 0
  Ends offset a b r = (o : VerifyOutcome) × (r ≡ ok o) × Verdict offset a b o

  -- What is done with the outcome of a comparison.
  go_on :
      ℕ
      → ℕ
      → source.State
      → device.State
      → Option VerifyOutcome
      → Result (VerifyError E) VerifyOutcome
  go_on fuel offset s d (some o) = ok o
  go_on fuel offset s d none = verify_full source device cap fuel offset s d

  verify_round :
      (fuel offset : ℕ) (s s' : source.State) (d d' : device.State) (c k : List ℕ)
      → read_exact_or_eof source cap cap s ≡ ok (c, s')
      → read_exact_or_eof device cap cap d ≡ ok (k, d')
      → verify_full source device cap (suc fuel) offset s d
        ≡ go_on fuel (offset + min (length c) (length k)) s' d' (compare_blocks offset c k)
  unfolding verify_full go_on
  verify_round fuel offset s s' d d' c k e f = ground (arith, e, f)

  round_Ends :
      (fuel offset : ℕ) (s s' : source.State) (d d' : device.State) (res : Option VerifyOutcome)
      (c k a b : List ℕ)
      → a ≡ c ++ rest_s s'
      → b ≡ k ++ rest_d d'
      → Says offset c k (rest_s s') (rest_d d') res
      → (0 < length c
          → length c ≡ length k
          → Ends
              (offset + length c)
              (rest_s s')
              (rest_d d')
              (verify_full source device cap fuel (offset + length c) s' d'))
      → Ends offset a b (go_on fuel (offset + min (length c) (length k)) s' d' res)
  unfolding go_on
  round_Ends fuel offset s s' d d' (some o) c k a b p q says ih = (o, refl, rw (p, q) says)
  round_Ends fuel offset s s' d d' none c k a b p q (some_left, e, m) ih =
      let (o, r, v) = ih some_left e in
      let same : min (length c) (length k) ≡ length c = omega arith in
      (
        o,
        rw (same, r),
        Verdict-longer offset (length c) a (rest_s s') b (rest_d d') o (rw (p, q) m)
            (ap length p ∙ length-append c (rest_s s')) v,
      )

  pub verify_full-Verdict :
      (fuel offset : ℕ) (s : source.State) (d : device.State)
      → length (rest_s s) < fuel
      → (o : VerifyOutcome) × (verify_full source device cap fuel offset s d ≡ ok o)
        × Verdict offset (rest_s s) (rest_d d) o
  verify_full-Verdict zero offset s d h = absurd (omega arith)
  verify_full-Verdict (suc fuel) offset s d h =
      let ((c, s'), e, c_eq, s_left) =
        read_exact_or_eof-Filled source rest_s laws_s total_s cap cap s (omega arith) in
      let ((k, d'), f, k_eq, d_left) =
        read_exact_or_eof-Filled device rest_d laws_d total_d cap cap d (omega arith) in
      let a_eq : rest_s s ≡ c ++ rest_s s' = joined cap (rest_s s) c (rest_s s') c_eq s_left in
      let b_eq : rest_d d ≡ k ++ rest_d d' = joined cap (rest_d d) k (rest_d d') k_eq d_left in
      rw (verify_round fuel offset s s' d d' c k e f) (
        round_Ends fuel offset s s' d d' (compare_blocks offset c k) c k (rest_s s) (rest_d d) a_eq
          b_eq (rw (c_eq, k_eq, s_left, d_left) (block_Says cap offset (rest_s s) (rest_d d) pos))
          (λ some_left e.
            verify_full-Verdict fuel (offset + length c) s' d'
              (omega (arith, ap length a_eq, length-append c (rest_s s')))))

module _ {E : Type 0} (source : Reader E) (rest_s : source.State → List ℕ)
    (laws_s : ReadLaws source rest_s) (total_s : Infallible source) (device : Reader E)
    (rest_d : device.State → List ℕ) (laws_d : ReadLaws device rest_d)
    (total_d : Infallible device) where
  -- On readers that do not fail, however they cut their streams, `verify_full` comes to an end once
  -- the fuel exceeds the source. It passes exactly when the two streams are equal, has then read as
  -- many bytes as the source has, and otherwise names the first offset at which the streams differ
  -- or one of them ends.
  pub verify_full_iff :
      (fuel : ℕ) (s : source.State) (d : device.State)
      → length (rest_s s) < fuel
      → (o : VerifyOutcome) × (verify_full source device buffer_size fuel 0 s d ≡ ok o)
        × ((o.passed ≡ true) ↔ (rest_s s ≡ rest_d d))
        × (o.passed ≡ true → o.bytes_read ≡ length (rest_s s))
        × (o.first_mismatch_offset ≡ mismatch (rest_s s) (rest_d d))
  verify_full_iff fuel s d h =
      let (o, e, (first, passed, count)) =
        verify_full-Verdict source rest_s laws_s total_s device rest_d laws_d total_d buffer_size
          (omega arith) fuel 0 s d h in
      let (to, from) = mismatch_none_iff (rest_s s) (rest_d d) in
      (
        o,
        e,
        (λ p. to (passed.0 p), λ p. passed.1 (from p)),
        λ p. omega (arith, count p),
        first ∙ offset_by_zero (mismatch (rest_s s) (rest_d d)),
      )
