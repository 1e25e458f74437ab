-- ===== src/Pipeline/Pumps/Flow.antt =====
-- No byte is lost or reordered between the pumps of crates/tekflash-core/src/pipeline.
use tekflash.Common.{
  ℕ, ◌+◌, ◌<◌, ◌≡◌, ◌∙◌, refl, sym, ap, subst, Bool, true, false, List, [], ◌∷◌, ◌++◌, append_assoc,
  append-nil, length, length-append, Result, ok, err, arith, ltb, if◌then◌else◌,
}
use tekflash.Pipeline.Reader.{Reader, ReadLaws}
use tekflash.Pipeline.Writer.{Writer, WriteLaws}
use tekflash.Pipeline.Pumps.{
  Reading, reading, sending, read_all, hung_up, read_failed, Writing, receiving, written,
  write_failed, Pumps, got, send, read_step,
}

-- The bytes in the channel, and those that wait to be sent.
abbrev pub queued : List (List ℕ) → List ℕ
queued [] = []
queued (chunk ∷ queue) = chunk ++ queued queue

abbrev pub held : {E : Type 0} → Reading E → List ℕ
held (sending chunk) = chunk
held _ = []

queued-append :
    (queue : List (List ℕ)) (chunk : List ℕ) → queued (queue ++ chunk ∷ []) ≡ queued queue ++ chunk
queued-append [] chunk = append-nil chunk
queued-append (c ∷ queue) chunk =
    ap (λ x. c ++ x) (queued-append queue chunk) ∙ sym (append_assoc c (queued queue) chunk)

module _ {E : Type 0} (r : Reader E) (rest : r.State → List ℕ) (reads : ReadLaws r rest)
    (w : Writer E) (content : w.State → List ℕ) (writes : WriteLaws w content)
    (buf_size capacity : ℕ) (some_size : 0 < buf_size) (base source : List ℕ) where
  -- All that was there at the start is written, in the channel, held or left, in this order; the totals
  -- count it.
  abbrev pub Kept : Pumps r w → Type 0
  Kept st =
      (base ++ source ≡ content st.dst ++ (queued st.queue ++ (held st.reader ++ rest st.src)))
      × (length base + st.total_out ≡ length (content st.dst))
      × (length base + (st.total_in + length (rest st.src)) ≡ length (base ++ source))

  -- What a reader that has returned knows.
  abbrev pub Ended : Pumps r w → Reading E → Type 0
  Ended st (read_all n) = (rest st.src ≡ []) × (n ≡ st.total_in)
  Ended st (hung_up n) = ◌≡◌ {A = ℕ} 0 1
  Ended st _ = Unit

  abbrev pub Returned : Reading E → Type 0
  Returned reading = ◌≡◌ {A = ℕ} 0 1
  Returned (sending chunk) = ◌≡◌ {A = ℕ} 0 1
  Returned _ = Unit

  abbrev pub Flow : Pumps r w → Writing E → Type 0
  Flow st receiving = Kept st × Ended st st.reader
  Flow st (written n) =
      Kept st × Ended st st.reader × (st.queue ≡ []) × (n ≡ st.total_out) × Returned st.reader
  Flow st (write_failed e) = Unit

  -- The order in which a phase stands.
  line : Pumps r w → Reading E → List ℕ
  line st phase = content st.dst ++ (queued st.queue ++ (held phase ++ rest st.src))

  got-Flow :
      (st : Pumps r w) (res : Result E (List ℕ × r.State))
      → st.reader ≡ reading
      → r.read st.src buf_size ≡ res
      → Kept st
      → Flow (got r w buf_size capacity st res) receiving
  unfolding line
  got-Flow st (err e) o h (k, n, m) = ((k ∙ ap (line st) o, n, m), tt)
  got-Flow st (ok ([], src)) o h (k, n, m) =
      let left = reads.piece st.src src buf_size [] h in
      let ended = reads.at_end st.src src buf_size some_size h in
      (
        (
          k ∙ ap (line st) o ∙ ap (λ x. content st.dst ++ (queued st.queue ++ x)) left,
          n,
          omega (arith, m, ap length left),
        ),
        (sym left ∙ ended, refl),
      )
  got-Flow st (ok (b ∷ bs, src)) o h (k, n, m) =
      let left = reads.piece st.src src buf_size (b ∷ bs) h in
      (
        (
          k ∙ ap (line st) o ∙ ap (λ x. content st.dst ++ (queued st.queue ++ x)) left,
          n,
          omega (arith, m, ap length left, length-append (b ∷ bs) (rest src)),
        ),
        tt,
      )

  got-writer :
      (st : Pumps r w) (res : Result E (List ℕ × r.State))
      → (got r w buf_size capacity st res).writer ≡ st.writer
  got-writer st (err e) = refl
  got-writer st (ok ([], src)) = refl
  got-writer st (ok (b ∷ bs, src)) = refl

  send-Flow :
      (st : Pumps r w) (chunk : List ℕ) (now : Bool)
      → st.reader ≡ sending chunk
      → st.writer ≡ receiving
      → Kept st × Ended st st.reader
      → Flow
          (if now then record st { reader = reading; queue = st.queue ++ chunk ∷ [] } else st)
          (if now
            then record st { reader = reading; queue = st.queue ++ chunk ∷ [] }
            else st).writer
  unfolding line
  send-Flow st chunk true o p ((k, n, m), d) =
      subst (Flow (record st { reader = reading; queue = st.queue ++ chunk ∷ [] })) (sym p) (
        (
          k
              ∙ ap (line st) o
              ∙ ap (λ x. content st.dst ++ x)
                  (sym (append_assoc (queued st.queue) chunk (rest st.src))
                    ∙ ap (λ x. x ++ rest st.src) (sym (queued-append st.queue chunk))),
          n,
          m,
        ),
        tt,
      )
  send-Flow st chunk false o p f = subst (Flow st) (sym p) f

  pub read_step-Flow :
      (st : Pumps r w) (phase : Reading E) (to : Writing E)
      → st.reader ≡ phase
      → st.writer ≡ to
      → Flow st to
      → Flow
          (read_step r w buf_size capacity st phase)
          (read_step r w buf_size capacity st phase).writer
  read_step-Flow st reading receiving o p (k, d) =
      let res = r.read st.src buf_size in
      subst (Flow (got r w buf_size capacity st res)) (sym (got-writer st res ∙ p))
        (got-Flow st res o refl k)
  read_step-Flow st reading (written n) o p (k, d, q, t, ret) =
      absurd (omega (arith, subst Returned o ret))
  read_step-Flow st reading (write_failed e) o p f =
      let res = r.read st.src buf_size in
      subst (Flow (got r w buf_size capacity st res)) (sym (got-writer st res ∙ p)) tt
  read_step-Flow st (sending chunk) receiving o p f =
      subst
        (λ y.
          Flow (send r w buf_size capacity st chunk y)
            (send r w buf_size capacity st chunk y).writer)
        (sym p) (send-Flow st chunk (ltb (length st.queue) capacity) o p f)
  read_step-Flow st (sending chunk) (written n) o p (k, d, q, t, ret) =
      absurd (omega (arith, subst Returned o ret))
  read_step-Flow st (sending chunk) (write_failed e) o p f =
      subst
        (λ y.
          Flow (send r w buf_size capacity st chunk y)
            (send r w buf_size capacity st chunk y).writer)
        (sym p) (subst (Flow (record st { reader = hung_up st.total_in })) (sym p) tt)
  read_step-Flow st (read_all n) to o p f = subst (Flow st) (sym p) f
  read_step-Flow st (hung_up n) to o p f = subst (Flow st) (sym p) f
  read_step-Flow st (read_failed e) to o p f = subst (Flow st) (sym p) f
