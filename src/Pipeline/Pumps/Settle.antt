-- ===== src/Pipeline/Pumps/Settle.antt =====
-- The pumps of crates/tekflash-core/src/pipeline never wait for each other for good.
use tekflash.Common.{
  ℕ, zero, suc, ◌+◌, ◌*◌, ◌<◌, ◌≤◌, ◌≡◌, ◌∙◌, refl, sym, ap, subst, Bool, true, false, List, [],
  ◌∷◌, ◌++◌, length, length-append, Result, ok, err, arith, ltb, lt→ltb, if◌then◌else◌, ◌⊎◌, inl,
  inr,
}
use tekflash.Pipeline.Reader.{Reader, ReadLaws}
use tekflash.Pipeline.Writer.{Writer}
use tekflash.Pipeline.Pumps.{
  Reading, reading, sending, read_all, hung_up, read_failed, Writing, receiving, written,
  write_failed, Pumps, Task, read_task, write_task, got, send, read_step, put, close, drained,
  receive, write_step, step, run,
}

-- Both pumps have returned, with a total or an error.
abbrev pub reader_over : {E : Type 0} → Reading E → Bool
reader_over reading = false
reader_over (sending chunk) = false
reader_over _ = true

abbrev pub writer_over : {E : Type 0} → Writing E → Bool
writer_over receiving = false
writer_over _ = true

module _ {E : Type 0} (r : Reader E) (rest : r.State → List ℕ) (reads : ReadLaws r rest)
    (w : Writer E) (buf_size capacity : ℕ) (some_capacity : 0 < capacity) where
  -- What the pumps have still to do.
  abbrev reader_work : Reading E → ℕ
  reader_work reading = 1
  reader_work (sending chunk) = 3
  reader_work _ = 0

  abbrev writer_work : Writing E → ℕ
  writer_work receiving = 1
  writer_work _ = 0

  abbrev pub work : Pumps r w → ℕ
  work st =
      3 * length (rest st.src) + (reader_work st.reader + (length st.queue + writer_work st.writer))

  abbrev Advances : Pumps r w → Task → Type 0
  Advances st task = work (step r w buf_size capacity task st) < work st

  got-work :
      (st : Pumps r w) (res : Result E (List ℕ × r.State))
      → st.reader ≡ reading
      → r.read st.src buf_size ≡ res
      → work (got r w buf_size capacity st res) < work st
  got-work st (err e) o h = omega (arith, ap reader_work o)
  got-work st (ok ([], src)) o h =
      omega (arith, ap reader_work o, ap length (reads.piece st.src src buf_size [] h))
  got-work st (ok (b ∷ bs, src)) o h = omega (
    arith,
    ap reader_work o,
    ap length (reads.piece st.src src buf_size (b ∷ bs) h),
    length-append (b ∷ bs) (rest src),
  )

  put-work :
      (st : Pumps r w) (chunk : List ℕ) (queue : List (List ℕ)) (res : Result E w.State)
      → st.queue ≡ chunk ∷ queue
      → work (put r w buf_size capacity st (length chunk) queue res) < work st
  put-work st chunk queue (err e) q = omega (arith, ap length q)
  put-work st chunk queue (ok dst) q = omega (arith, ap length q)

  close-work :
      (st : Pumps r w) (res : Result E w.State)
      → st.writer ≡ receiving
      → work (close r w buf_size capacity st res) < work st
  close-work st (err e) p = omega (arith, ap writer_work p)
  close-work st (ok dst) p = omega (arith, ap writer_work p)

  send-work :
      (st : Pumps r w) (chunk : List ℕ) (to : Writing E)
      → st.reader ≡ sending chunk
      → st.writer ≡ to
      → (st.queue ≡ []) ⊎ (writer_over to ≡ true)
      → work (send r w buf_size capacity st chunk to) < work st
  send-work st chunk receiving o p (inl q) =
      let room : ltb (length st.queue) capacity ≡ true =
        ap (λ x. ltb (length x) capacity) q ∙ lt→ltb 0 capacity some_capacity in
      subst
        (λ b.
          work (if b then record st { reader = reading; queue = st.queue ++ chunk ∷ [] } else st)
          < work st)
        (sym room) (omega (arith, ap reader_work o, length-append st.queue (chunk ∷ [])))
  send-work st chunk receiving o p (inr h) = cc
  send-work st chunk (written n) o p q = omega (arith, ap reader_work o)
  send-work st chunk (write_failed e) o p q = omega (arith, ap reader_work o)

  -- A task that is not over, of the two, can go on.
  abbrev Next : Pumps r w → Type 0
  Next st =
      ((reader_over st.reader ≡ true) × (writer_over st.writer ≡ true))
      ⊎ ((task : Task) × Advances st task)

  drained-work :
      (st : Pumps r w) (phase : Reading E)
      → st.writer ≡ receiving
      → reader_over phase ≡ true
      → work (drained r w buf_size capacity st phase) < work st
  drained-work st reading p h = cc
  drained-work st (sending chunk) p h = cc
  drained-work st (read_all n) p h = close-work st (w.flush st.dst) p
  drained-work st (hung_up n) p h = close-work st (w.flush st.dst) p
  drained-work st (read_failed e) p h = close-work st (w.flush st.dst) p

  write_next :
      (st : Pumps r w) (queue : List (List ℕ))
      → st.queue ≡ queue
      → st.writer ≡ receiving
      → (reader_over st.reader ≡ true) ⊎ (0 < length queue)
      → Advances st write_task
  unfolding step
  write_next st [] q p (inr h) = absurd (omega arith)
  write_next st [] q p (inl over) =
      subst (λ y. work (write_step r w buf_size capacity st y) < work st) (sym p)
        (subst (λ x. work (receive r w buf_size capacity st x) < work st) (sym q)
          (drained-work st st.reader p over))
  write_next st (chunk ∷ queue) q p h =
      subst (λ y. work (write_step r w buf_size capacity st y) < work st) (sym p)
        (subst (λ x. work (receive r w buf_size capacity st x) < work st) (sym q)
          (put-work st chunk queue (w.write_all st.dst chunk) q))

  send_next :
      (st : Pumps r w) (chunk : List ℕ) (to : Writing E)
      → st.reader ≡ sending chunk
      → st.writer ≡ to
      → (st.queue ≡ []) ⊎ (writer_over to ≡ true)
      → Advances st read_task
  unfolding step
  send_next st chunk to o p h =
      subst (λ x. work (read_step r w buf_size capacity st x) < work st) (sym o)
        (subst (λ y. work (send r w buf_size capacity st chunk y) < work st) (sym p)
          (send-work st chunk to o p h))

  next :
      (st : Pumps r w) (phase : Reading E) (to : Writing E) (queue : List (List ℕ))
      → st.reader ≡ phase
      → st.writer ≡ to
      → st.queue ≡ queue
      → Next st
  unfolding step
  next st reading to queue o p q = inr (
    read_task,
    subst (λ x. work (read_step r w buf_size capacity st x) < work st) (sym o)
        (got-work st (r.read st.src buf_size) o refl),
  )
  next st (sending chunk) receiving [] o p q =
      inr (read_task, send_next st chunk receiving o p (inl q))
  next st (sending chunk) receiving (c ∷ queue) o p q =
      inr (write_task, write_next st (c ∷ queue) q p (inr (omega arith)))
  next st (sending chunk) (written n) queue o p q =
      inr (read_task, send_next st chunk (written n) o p (inr refl))
  next st (sending chunk) (write_failed e) queue o p q =
      inr (read_task, send_next st chunk (write_failed e) o p (inr refl))
  next st (read_all n) receiving queue o p q =
      inr (write_task, write_next st queue q p (inl (ap reader_over o)))
  next st (hung_up n) receiving queue o p q =
      inr (write_task, write_next st queue q p (inl (ap reader_over o)))
  next st (read_failed n) receiving queue o p q =
      inr (write_task, write_next st queue q p (inl (ap reader_over o)))
  next st (read_all n) (written m) queue o p q = inl (ap reader_over o, ap writer_over p)
  next st (hung_up n) (written m) queue o p q = inl (ap reader_over o, ap writer_over p)
  next st (read_failed n) (written m) queue o p q = inl (ap reader_over o, ap writer_over p)
  next st (read_all n) (write_failed m) queue o p q = inl (ap reader_over o, ap writer_over p)
  next st (hung_up n) (write_failed m) queue o p q = inl (ap reader_over o, ap writer_over p)
  next st (read_failed n) (write_failed m) queue o p q = inl (ap reader_over o, ap writer_over p)

  -- A schedule of at most `n` steps after which both pumps have returned.
  abbrev pub Settles : Pumps r w → ℕ → Type 0
  Settles st n =
      (tasks : List Task) × (length tasks ≤ n)
      × (reader_over (run r w buf_size capacity tasks st).reader ≡ true)
      × (writer_over (run r w buf_size capacity tasks st).writer ≡ true)

  settle : (n : ℕ) (st : Pumps r w) → work st ≤ n → Next st → Settles st n
  unfolding run
  settle n st le (inl (a, b)) = ([], omega arith, a, b)
  settle zero st le (inr (task, lt)) = absurd (omega (arith, lt))
  settle (suc n) st le (inr (task, lt)) =
      let st' = step r w buf_size capacity task st in
      let (tasks, short, a, b) =
        settle n st' (omega (arith, lt))
          (next st' st'.reader st'.writer st'.queue refl refl refl) in
      (task ∷ tasks, omega (arith, short), a, b)

  -- The pumps never wait for each other for good: from every state, also one in which a read or a
  -- write has failed, some schedule of at most `work` steps lets both return.
  pub run-Settles : (st : Pumps r w) → Settles st (work st)
  run-Settles st =
      settle (work st) st (omega arith) (next st st.reader st.writer st.queue refl refl refl)
