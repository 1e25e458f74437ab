-- ===== src/Pipeline/Copy/Whole.antt =====
-- On a source and a destination that do not fail, `copy` ends and takes all that it wants.
use tekflash.Common.{
  ℕ, zero, suc, ◌<◌, ◌≡◌, ◌∙◌, refl, sym, ap, Bool, List, [], ◌∷◌, Option, none, some, length,
  length-append, Result, ok, arith, inl, inr, ◌⊎◌,
}
use tekflash.Pipeline.Hasher.{HashCrates}
use tekflash.Pipeline.Reader.{Reader, ReadLaws, Infallible}
use tekflash.Pipeline.Writer.{Writer, NeverFull}
use tekflash.Pipeline.Copy.{
  Copying, CopyError, Round, over, next, report, after_write, after_read, round, copy, carry_on,
}

module _ {E : Type 0} (c : HashCrates) (r : Reader E) (rest : r.State → List ℕ)
    (reads : ReadLaws r rest) (total : Infallible r) (w : Writer E) (never_full : NeverFull w)
    (want : ℕ → Option ℕ) (forgiven : E → ℕ → Bool)
    (some_want : (n m : ℕ) → want n ≡ some m → 0 < m) where
  -- No more is wanted, or nothing is left.
  abbrev pub Done : Copying c r w → Type 0
  Done st = (want st.bytes_in ≡ none) ⊎ (rest st.src ≡ [])

  abbrev Returns : Result (CopyError E) (Copying c r w) → Type 0
  Returns res = (st : Copying c r w) × (res ≡ ok st) × Done st

  -- A round ends the loop well, or leaves less to read.
  abbrev Shrinks : Copying c r w → Round E (Copying c r w) → Type 0
  Shrinks st (over res) = Returns res
  Shrinks st (next st') = length (rest st'.src) < length (rest st.src)

  after_read-Shrinks :
      (st : Copying c r w) (n : ℕ) (chunk : List ℕ) (src : r.State)
      → 0 < n
      → r.read st.src n ≡ ok (chunk, src)
      → Shrinks st (after_read c r w want forgiven st (ok (chunk, src)))
  unfolding after_read after_write
  after_read-Shrinks st n [] src pos h = (
    record st { src = src },
    refl,
    inr (sym (reads.piece st.src src n [] h) ∙ reads.at_end st.src src n pos h),
  )
  after_read-Shrinks st n (b ∷ bs) src pos h =
      let (dst, k) = never_full.writes st.dst (b ∷ bs) in
      let split = reads.piece st.src src n (b ∷ bs) h in
      rw (k, after_write) (omega (arith, ap length split, length-append (b ∷ bs) (rest src)))

  round-Shrinks :
      (st : Copying c r w) (o : Option ℕ)
      → want st.bytes_in ≡ o
      → Shrinks st (round c r w want forgiven st o)
  unfolding round
  round-Shrinks st none e = (st, refl, inl e)
  round-Shrinks st (some n) e =
      let ((chunk, src), h) = total.succeeds st.src n in
      rw h (after_read-Shrinks st n chunk src (some_want st.bytes_in n e) h)

  carried-Returns :
      {Ev : Type 0} (tick : Copying c r w → Option Ev) (fuel : ℕ) (st : Copying c r w)
      (sent : List Ev) (round : Round E (Copying c r w))
      → Shrinks st round
      → ((u : Copying c r w)
          → length (rest u.src) < length (rest st.src)
          → Returns (copy c r w want forgiven tick fuel u (report sent (tick u))).1)
      → Returns (carry_on c r w want forgiven tick fuel sent round).1
  carried-Returns tick fuel st sent (over result) good ih = good
  carried-Returns tick fuel st sent (next u) less ih = ih u less

  -- With more fuel than bytes the loop returns, and only once it is done.
  pub copy-Done :
      {Ev : Type 0} (tick : Copying c r w → Option Ev) (fuel : ℕ) (st : Copying c r w)
      (sent : List Ev)
      → length (rest st.src) < fuel
      → (st' : Copying c r w) × ((copy c r w want forgiven tick fuel st sent).1 ≡ ok st') × Done st'
  unfolding copy
  copy-Done tick zero st sent h = absurd (omega arith)
  copy-Done tick (suc fuel) st sent h =
      carried-Returns tick fuel st sent (round c r w want forgiven st (want st.bytes_in))
        (round-Shrinks st _ refl)
        (λ u less. copy-Done tick fuel u (report sent (tick u)) (omega arith))
