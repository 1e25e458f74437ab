-- ===== src/Pipeline/Copy/Prefix.antt =====
-- What `copy` has done when it returns without an error, also on a source that fails.
use tekflash.Common.{
  ℕ, zero, suc, ◌+◌, ◌<◌, ◌≤◌, ◌≡◌, ◌∙◌, refl, sym, ap, subst, Bool, true, false, List, [], ◌∷◌,
  ◌++◌, append_assoc, append-nil, Option, none, some, length, length-append, Result, ok, err,
  ok_inj, if◌then◌else◌, arith, ◌⊎◌, inl, inr,
}
use tekflash.Pipeline.Hasher.{HashCrates, Streams, update, update_nil, update-append}
use tekflash.Pipeline.Reader.{Reader, ReadLaws}
use tekflash.Pipeline.Writer.{Writer, WriteLaws}
use tekflash.Pipeline.Copy.{
  Copying, Round, over, next, report, after_write, after_read, round, copy, carry_on, read_error,
}

module _ {E : Type 0} (c : HashCrates) (streams : Streams c) (r : Reader E)
    (rest : r.State → List ℕ) (reads : ReadLaws r rest) (w : Writer E) (content : w.State → List ℕ)
    (writes : WriteLaws w content) (want : ℕ → Option ℕ) (forgiven : E → ℕ → Bool)
    (some_want : (n m : ℕ) → want n ≡ some m → 0 < m) (P : ℕ → Type 0)
    (keeps : (n m k : ℕ) → P n → want n ≡ some m → k ≤ m → P (n + k)) where
  -- From `st` to `st'` a run of bytes was taken off the source, written and hashed; what holds of
  -- the offset still does.
  abbrev pub Moved : Copying c r w → Copying c r w → Type 0
  Moved st st' =
      (bytes : List ℕ) × (rest st.src ≡ bytes ++ rest st'.src)
      × (content st'.dst ≡ content st.dst ++ bytes)
      × (st'.hasher ≡ update c st.hasher bytes)
      × (st'.bytes_in ≡ st.bytes_in + length bytes)
      × (P st.bytes_in → P st'.bytes_in)

  -- The next read of the source fails with an error that is forgiven.
  abbrev pub Forgiven : Copying c r w → Type 0
  Forgiven st =
      (n : ℕ) × (e : E) × (want st.bytes_in ≡ some n)
      × (r.read st.src n ≡ err e)
      × (forgiven e st.bytes_in ≡ true)

  -- Why the loop is over: no more was wanted, the source is at its end, or an error was forgiven.
  abbrev pub Stopped : Copying c r w → Type 0
  Stopped st = (want st.bytes_in ≡ none) ⊎ (rest st.src ≡ []) ⊎ Forgiven st

  abbrev Good : Copying c r w → Round E (Copying c r w) → Type 0
  Good st (over (err e)) = Unit
  Good st (over (ok st')) = Moved st st' × Stopped st'
  Good st (next st') = Moved st st'

  Moved-reflexive : (st : Copying c r w) → Moved st st
  Moved-reflexive st = (
    [],
    refl,
    sym (append-nil (content st.dst)),
    sym (update_nil c streams st.hasher),
    omega arith,
    λ p. p,
  )

  Moved-transitive : (a b d : Copying c r w) → Moved a b → Moved b d → Moved a d
  Moved-transitive a b d (x, s, k, h, n, p) (y, s', k', h', n', p') = (
    x ++ y,
    s ∙ ap (λ z. x ++ z) s' ∙ sym (append_assoc x y (rest d.src)),
    k' ∙ ap (λ z. z ++ y) k ∙ append_assoc (content a.dst) x y,
    h' ∙ ap (λ z. update c z y) h ∙ update-append c streams a.hasher x y,
    omega (arith, n, n', length-append x y),
    λ q. p' (p q),
  )

  after_write-Good :
      (st : Copying c r w) (chunk : List ℕ) (src : r.State) (res : Result E w.State)
      → rest st.src ≡ chunk ++ rest src
      → (P st.bytes_in → P (st.bytes_in + length chunk))
      → w.write_all st.dst chunk ≡ res
      → Good st (after_write c r w want forgiven st chunk src res)
  unfolding after_write
  after_write-Good st chunk src (err e) s p h = tt
  after_write-Good st chunk src (ok dst) s p h =
      (chunk, s, writes.appends st.dst dst chunk h, refl, refl, p)

  forgiven-Good :
      (st : Copying c r w) (n : ℕ) (e : E) (b : Bool)
      → want st.bytes_in ≡ some n
      → r.read st.src n ≡ err e
      → forgiven e st.bytes_in ≡ b
      → Good st (over (if b then ok st else err (read_error st.bytes_in e)))
  forgiven-Good st n e true o f h = (Moved-reflexive st, inr (inr (n, e, o, f, h)))
  forgiven-Good st n e false o f h = tt

  after_read-Good :
      (st : Copying c r w) (n : ℕ) (res : Result E (List ℕ × r.State))
      → want st.bytes_in ≡ some n
      → r.read st.src n ≡ res
      → Good st (after_read c r w want forgiven st res)
  unfolding after_read
  after_read-Good st n (err e) o h = forgiven-Good st n e _ o h refl
  after_read-Good st n (ok ([], src)) o h =
      let ended = reads.at_end st.src src n (some_want st.bytes_in n o) h in
      let left = reads.piece st.src src n [] h in
      (
        (
          [],
          left,
          sym (append-nil (content st.dst)),
          sym (update_nil c streams st.hasher),
          omega arith,
          λ p. p,
        ),
        inr (inl (sym left ∙ ended)),
      )
  after_read-Good st n (ok (b ∷ bs, src)) o h =
      after_write-Good st (b ∷ bs) src _ (reads.piece st.src src n (b ∷ bs) h)
        (λ p. keeps st.bytes_in n (length (b ∷ bs)) p o (reads.fits st.src src n (b ∷ bs) h)) refl

  round-Good :
      (st : Copying c r w) (o : Option ℕ)
      → want st.bytes_in ≡ o
      → Good st (round c r w want forgiven st o)
  unfolding round
  round-Good st none h = (Moved-reflexive st, inl h)
  round-Good st (some n) h = after_read-Good st n _ h refl

  carried-Moved :
      {Ev : Type 0} (tick : Copying c r w → Option Ev) (fuel : ℕ) (st st' : Copying c r w)
      (sent : List Ev) (round : Round E (Copying c r w))
      → Good st round
      → (carry_on c r w want forgiven tick fuel sent round).1 ≡ ok st'
      → ((u : Copying c r w)
          → (copy c r w want forgiven tick fuel u (report sent (tick u))).1 ≡ ok st'
          → Moved u st' × Stopped st')
      → Moved st st' × Stopped st'
  carried-Moved tick fuel st st' sent (over (err e)) g h ih = cc
  carried-Moved tick fuel st st' sent (over (ok u)) g h ih =
      subst (λ v. Moved st v × Stopped v) (ok_inj h) g
  carried-Moved tick fuel st st' sent (next u) g h ih =
      let (m, stop) = ih u h in (Moved-transitive st u st' g m, stop)

  -- A loop that returns has moved a run of bytes and had a reason to stop.
  pub copy-Moved :
      {Ev : Type 0} (tick : Copying c r w → Option Ev) (fuel : ℕ) (st st' : Copying c r w)
      (sent : List Ev)
      → (copy c r w want forgiven tick fuel st sent).1 ≡ ok st'
      → Moved st st' × Stopped st'
  unfolding copy
  copy-Moved tick zero st st' sent h = cc
  copy-Moved tick (suc fuel) st st' sent h =
      carried-Moved tick fuel st st' sent (round c r w want forgiven st (want st.bytes_in))
        (round-Good st _ refl) h (λ u k. copy-Moved tick fuel u st' (report sent (tick u)) k)
