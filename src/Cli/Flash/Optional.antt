-- ===== src/Cli/Flash/Optional.antt =====
-- The copying loop towards a destination that may be missing, as `run_flash` of
-- crates/tekflash/src/cli.rs has it, against the loop towards the destination itself.
use tekflash.Common.{
  ℕ, zero, suc, ◌≡◌, ◌∙◌, refl, ap, Bool, true, false, List, [], ◌∷◌, Option, none, some, Result,
  ok, err, if◌then◌else◌,
}
use tekflash.Pipeline.Copy.{
  CopyError, read_error, Copying, Round, over, next, copied, after_write, after_read, round, copy,
  carry_on,
}
use tekflash.Pipeline.Hasher.{HashCrates}
use tekflash.Pipeline.Reader.{Reader}
use tekflash.Pipeline.Writer.{Writer}
use tekflash.Cli.{optional, some_state}

module _ {E : Type 0} (c : HashCrates) (r : Reader E) (w : Writer E) (want : ℕ → Option ℕ)
    (forgiven : E → ℕ → Bool) where
  -- The variables of the loop, with a destination that is there.
  abbrev pub present : Copying c r w → Copying c r (optional w)
  present st = record {
    src = st.src;
    dst = some st.dst;
    hasher = st.hasher;
    bytes_in = st.bytes_in;
  }

  abbrev pub present_result :
      Result (CopyError E) (Copying c r w) → Result (CopyError E) (Copying c r (optional w))
  present_result (err e) = err e
  present_result (ok st) = ok (present st)

  abbrev present_round : Round E (Copying c r w) → Round E (Copying c r (optional w))
  present_round (over result) = over (present_result result)
  present_round (next st) = next (present st)

  after_write-present :
      (st : Copying c r w) (chunk : List ℕ) (src : r.State) (res : Result E w.State)
      → after_write c r (optional w) want forgiven (present st) chunk src (some_state res)
        ≡ present_round (after_write c r w want forgiven st chunk src res)
  unfolding after_write copied
  after_write-present st chunk src (err e) = refl
  after_write-present st chunk src (ok dst) = refl

  after_read-present :
      (st : Copying c r w) (res : Result E (List ℕ × r.State))
      → after_read c r (optional w) want forgiven (present st) res
        ≡ present_round (after_read c r w want forgiven st res)
  unfolding after_read
  after_read-present st (err e) =
      elim (forgiven e st.bytes_in)
        as (λ b.
          ◌≡◌ {A = Round E (Copying c r (optional w))}
            (over (if b then ok (present st) else err (read_error st.bytes_in e)))
            (present_round (over (if b then ok st else err (read_error st.bytes_in e))))) [
              | true ↦ refl
              | false ↦ refl
            ]
  after_read-present st (ok ([], src)) = refl
  after_read-present st (ok (b ∷ bs, src)) =
      after_write-present st (b ∷ bs) src (w.write_all st.dst (b ∷ bs))

  round-present :
      (st : Copying c r w) (o : Option ℕ)
      → round c r (optional w) want forgiven (present st) o
        ≡ present_round (round c r w want forgiven st o)
  unfolding round
  round-present st none = refl
  round-present st (some n) = after_read-present st (r.read st.src n)

  module _ {Ev : Type 0} (tick : Copying c r (optional w) → Option Ev) where
    abbrev pub tick_present : Copying c r w → Option Ev
    tick_present st = tick (present st)

    carried :
        (fuel : ℕ) (sent : List Ev) (rd : Round E (Copying c r w))
        → ((st : Copying c r w) (sent' : List Ev)
            → (copy c r (optional w) want forgiven tick fuel (present st) sent').1
              ≡ present_result (copy c r w want forgiven tick_present fuel st sent').1)
        → (carry_on c r (optional w) want forgiven tick fuel sent (present_round rd)).1
          ≡ present_result (carry_on c r w want forgiven tick_present fuel sent rd).1
    carried fuel sent (over result) h = refl
    carried fuel sent (next st) h = h st _

    -- Towards a destination that is there the loop does what it does towards the destination itself.
    pub copy-present :
        (fuel : ℕ) (st : Copying c r w) (sent : List Ev)
        → (copy c r (optional w) want forgiven tick fuel (present st) sent).1
          ≡ present_result (copy c r w want forgiven tick_present fuel st sent).1
    unfolding copy
    copy-present zero st sent = refl
    copy-present (suc fuel) st sent =
        ap (λ rd. (carry_on c r (optional w) want forgiven tick fuel sent rd).1)
          (round-present st (want st.bytes_in))
        ∙ carried fuel sent (round c r w want forgiven st (want st.bytes_in)) (copy-present fuel)
