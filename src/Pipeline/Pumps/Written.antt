-- ===== src/Pipeline/Pumps/Written.antt =====
-- What `pump` of crates/tekflash-core/src/pipeline/writer.rs has written when it returns.
use tekflash.Common.{
  ℕ, ◌+◌, ◌<◌, ◌≤◌, ◌≡◌, ◌⊎◌, inl, inr, ◌∙◌, refl, sym, ap, subst, List, [], ◌∷◌, ◌++◌,
  append_assoc, length, length-append, Result, ok, err, arith,
}
use tekflash.Pipeline.Reader.{Reader, ReadLaws}
use tekflash.Pipeline.Writer.{Writer, WriteLaws}
use tekflash.Pipeline.Pumps.{
  Reading, reading, sending, read_all, hung_up, read_failed, Writing, receiving, written,
  write_failed, Pumps, Task, read_task, write_task, start, read_step, put, close, drained, receive,
  write_step, run,
}
use tekflash.Pipeline.Pumps.Flow.{queued, held, Kept, Ended, Returned, Flow, read_step-Flow}

append_split :
    (xs ys zs ws : List ℕ)
    → xs ++ ys ≡ zs ++ ws
    → length xs ≤ length zs
    → (us : List ℕ) × (zs ≡ xs ++ us) × (ys ≡ us ++ ws)
append_split [] ys zs ws h le = (zs, refl, h)
append_split (x ∷ xs) ys [] ws h le = absurd (omega arith)
append_split (x ∷ xs) ys (z ∷ zs) ws h le =
    let tails : xs ++ ys ≡ zs ++ ws = cc in
    let heads : x ≡ z = cc in
    let (us, e, l) = append_split xs ys zs ws tails (omega arith) in (us, cc, l)

module _ {E : Type 0} (r : Reader E) (rest : r.State → List ℕ) (reads : ReadLaws r rest)
    (w : Writer E) (content : w.State → List ℕ) (writes : WriteLaws w content)
    (buf_size capacity : ℕ) (some_size : 0 < buf_size) (base source : List ℕ) where
  abbrev KeptHere : Pumps r w → Type 0
  KeptHere = Kept r rest reads w content writes buf_size capacity some_size base source

  abbrev EndedHere : Pumps r w → Reading E → Type 0
  EndedHere = Ended r rest reads w content writes buf_size capacity some_size base source

  abbrev ReturnedHere : Reading E → Type 0
  ReturnedHere = Returned r rest reads w content writes buf_size capacity some_size base source

  abbrev Here : Pumps r w → Writing E → Type 0
  Here = Flow r rest reads w content writes buf_size capacity some_size base source

  put-Flow :
      (st : Pumps r w) (chunk : List ℕ) (queue : List (List ℕ)) (res : Result E w.State)
      → st.queue ≡ chunk ∷ queue
      → st.writer ≡ receiving
      → w.write_all st.dst chunk ≡ res
      → KeptHere st × EndedHere st st.reader
      → Here
          (put r w buf_size capacity st (length chunk) queue res)
          (put r w buf_size capacity st (length chunk) queue res).writer
  put-Flow st chunk queue (err e) q p h f = tt
  put-Flow st chunk queue (ok dst) q p h ((k, n, m), d) =
      let all = writes.appends st.dst dst chunk h in
      let behind = held st.reader ++ rest st.src in
      let moved : base ++ source ≡ content dst ++ (queued queue ++ behind) =
        k
        ∙ ap (λ x. content st.dst ++ (queued x ++ behind)) q
        ∙ ap (λ x. content st.dst ++ x) (append_assoc chunk (queued queue) behind)
        ∙ sym (append_assoc (content st.dst) chunk (queued queue ++ behind))
        ∙ ap (λ x. x ++ (queued queue ++ behind)) (sym all) in
      subst (Here (record st { queue = queue; dst = dst; total_out = st.total_out + length chunk }))
        (sym p)
        ((moved, omega (arith, n, ap length all, length-append (content st.dst) chunk), m), d)

  close-Flow :
      (st : Pumps r w) (res : Result E w.State)
      → st.queue ≡ []
      → ReturnedHere st.reader
      → w.flush st.dst ≡ res
      → KeptHere st × EndedHere st st.reader
      → Here (close r w buf_size capacity st res) (close r w buf_size capacity st res).writer
  close-Flow st (err e) q ret h f = tt
  close-Flow st (ok dst) q ret h ((k, n, m), d) =
      let same = writes.keeps st.dst dst h in
      (
        (
          k ∙ ap (λ x. x ++ (queued st.queue ++ (held st.reader ++ rest st.src))) (sym same),
          n ∙ ap length (sym same),
          m,
        ),
        d,
        q,
        refl,
        ret,
      )

  drained-Flow :
      (st : Pumps r w) (phase : Reading E)
      → st.reader ≡ phase
      → st.queue ≡ []
      → st.writer ≡ receiving
      → KeptHere st × EndedHere st st.reader
      → Here
          (drained r w buf_size capacity st phase)
          (drained r w buf_size capacity st phase).writer
  drained-Flow st reading o q p f = subst (Here st) (sym p) f
  drained-Flow st (sending chunk) o q p f = subst (Here st) (sym p) f
  drained-Flow st (read_all n) o q p f =
      close-Flow st (w.flush st.dst) q (subst ReturnedHere (sym o) tt) refl f
  drained-Flow st (hung_up n) o q p f =
      close-Flow st (w.flush st.dst) q (subst ReturnedHere (sym o) tt) refl f
  drained-Flow st (read_failed e) o q p f =
      close-Flow st (w.flush st.dst) q (subst ReturnedHere (sym o) tt) refl f

  receive-Flow :
      (st : Pumps r w) (queue : List (List ℕ))
      → st.queue ≡ queue
      → st.writer ≡ receiving
      → KeptHere st × EndedHere st st.reader
      → Here
          (receive r w buf_size capacity st queue)
          (receive r w buf_size capacity st queue).writer
  receive-Flow st [] q p f = drained-Flow st st.reader refl q p f
  receive-Flow st (chunk ∷ queue) q p f =
      put-Flow st chunk queue (w.write_all st.dst chunk) q p refl f

  write_step-Flow :
      (st : Pumps r w) (to : Writing E)
      → st.writer ≡ to
      → Here st to
      → Here
          (write_step r w buf_size capacity st to)
          (write_step r w buf_size capacity st to).writer
  write_step-Flow st receiving p f = receive-Flow st st.queue refl p f
  write_step-Flow st (written n) p f = subst (Here st) (sym p) f
  write_step-Flow st (write_failed e) p f = subst (Here st) (sym p) f

  run-Flow :
      (tasks : List Task) (st : Pumps r w)
      → Here st st.writer
      → Here (run r w buf_size capacity tasks st) (run r w buf_size capacity tasks st).writer
  unfolding run
  run-Flow [] st f = f
  run-Flow (read_task ∷ tasks) st f =
      run-Flow tasks (read_step r w buf_size capacity st st.reader) (
        read_step-Flow r rest reads w content writes buf_size capacity some_size base source st
          st.reader st.writer refl refl f)
  run-Flow (write_task ∷ tasks) st f =
      run-Flow tasks (write_step r w buf_size capacity st st.writer)
        (write_step-Flow st st.writer refl f)

  -- At the start nothing is written and all is left.
  start-Flow :
      (src : r.State) (dst : w.State)
      → rest src ≡ source
      → content dst ≡ base
      → Here (start r w buf_size capacity src dst) receiving
  start-Flow src dst s b = (
    (
      ap (λ x. x ++ source) (sym b) ∙ ap (λ x. content dst ++ x) (sym s),
      omega (arith, ap length b),
      omega (arith, ap length s, length-append base source),
    ),
    tt,
  )

  -- How the reader's pump has returned by then.
  Outcome : Pumps r w → ℕ → List ℕ → Type 0
  Outcome st n left =
      ((st.reader ≡ read_all n) × (left ≡ [])) ⊎ ((e : E) × (st.reader ≡ read_failed e))

  tail_of : Pumps r w → List ℕ
  tail_of st = queued st.queue ++ (held st.reader ++ rest st.src)

  phase-Outcome :
      (st : Pumps r w) (phase : Reading E) (n : ℕ)
      → st.reader ≡ phase
      → EndedHere st phase
      → ReturnedHere phase
      → st.queue ≡ []
      → st.total_in + length (rest st.src) ≡ n + length (tail_of st)
      → Outcome st n (tail_of st)
  unfolding Outcome tail_of
  phase-Outcome st reading n o d ret q t = absurd (omega (arith, ret))
  phase-Outcome st (sending chunk) n o d ret q t = absurd (omega (arith, ret))
  phase-Outcome st (hung_up m) n o d ret q t = absurd (omega (arith, d))
  phase-Outcome st (read_failed e) n o d ret q t = inr (e, o)
  phase-Outcome st (read_all m) n o (ended, count) ret q t =
      let none_left : queued st.queue ++ (held st.reader ++ rest st.src) ≡ [] =
        ap (λ x. queued x ++ (held st.reader ++ rest st.src)) q
        ∙ ap (λ x. held x ++ rest st.src) o
        ∙ ended in
      let same : m ≡ n = omega (arith, count, t, ap length none_left, ap length ended) in
      inl (o ∙ ap read_all same, none_left)

  finished-Flow :
      (st : Pumps r w) (n : ℕ)
      → Here st (written n)
      → (bytes left : List ℕ) × (source ≡ bytes ++ left)
        × (content st.dst ≡ base ++ bytes)
        × (n ≡ length bytes)
        × Outcome st n left
  unfolding tail_of
  finished-Flow st n ((k, t, m), d, q, c, ret) =
      let (bytes, e, l) =
        append_split base source (content st.dst) (tail_of st) k (omega (arith, t)) in
      let count : n ≡ length bytes = omega (arith, c, t, ap length e, length-append base bytes) in
      let sum : st.total_in + length (rest st.src) ≡ n + length (tail_of st) = omega (
        arith,
        m,
        count,
        ap length l,
        length-append bytes (tail_of st),
        length-append base source,
      ) in
      (bytes, tail_of st, l, e, count, phase-Outcome st st.reader n refl d ret q sum)

-- Under every interleaving of the two pumps: once the writer's pump has returned a total, it has
-- written a prefix of the source behind what was there, and its total is the length of that prefix;
-- either the reader's pump has returned the same total and the prefix is the whole source, or the
-- reader's pump has returned an error.
pub run-written :
    {E : Type 0} (r : Reader E) (rest : r.State → List ℕ)
    → ReadLaws r rest
    → (w : Writer E) (content : w.State → List ℕ) → WriteLaws w content
    → (buf_size capacity : ℕ) → 0 < buf_size
    → (src : r.State) (dst : w.State) (tasks : List Task) (n : ℕ)
    → (run r w buf_size capacity tasks (start r w buf_size capacity src dst)).writer ≡ written n
    → (bytes left : List ℕ) × (rest src ≡ bytes ++ left)
      × (content (run r w buf_size capacity tasks (start r w buf_size capacity src dst)).dst
          ≡ content dst ++ bytes)
      × (n ≡ length bytes)
      × ((((run r w buf_size capacity tasks (start r w buf_size capacity src dst)).reader
              ≡ read_all n)
            × (left ≡ []))
          ⊎ ((e : E) × ((run r w buf_size capacity tasks
                  (start r w buf_size capacity src dst)).reader
                ≡ read_failed e)))
unfolding Outcome
run-written r rest reads w content writes buf_size capacity some_size src dst tasks n done =
    let st = run r w buf_size capacity tasks (start r w buf_size capacity src dst) in
    let flow =
      run-Flow r rest reads w content writes buf_size capacity some_size (content dst) (rest src)
        tasks (start r w buf_size capacity src dst)
        (start-Flow r rest reads w content writes buf_size capacity some_size (content dst)
          (rest src) src dst refl refl) in
    finished-Flow r rest reads w content writes buf_size capacity some_size (content dst) (rest src)
      st n
      (subst
        (Flow r rest reads w content writes buf_size capacity some_size (content dst) (rest src) st)
        done flow)
