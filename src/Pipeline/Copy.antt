-- ===== src/Pipeline/Copy.antt =====
-- The loop that hashes and copies a stream: `do_backup` and `do_flash` of
-- crates/tekflash/src/tui/progress_runner.rs, `run_flash` and `run_backup` of crates/tekflash/src/cli.rs
-- run it, each with its own way to size a read, to forgive an error and to report.
pub mod Prefix
pub mod Whole
pub mod Sent
use tekflash.Common.{
  ℕ, zero, suc, ◌+◌, Bool, List, [], ◌∷◌, ◌++◌, Option, none, some, length, Result, ok, err,
  if◌then◌else◌,
}
use tekflash.Pipeline.Hasher.{HashCrates, Hasher, update}
use tekflash.Pipeline.Reader.{Reader}
use tekflash.Pipeline.Writer.{Writer}

-- An error of a read at an offset or of a write, or a loop that was cut short.
pub data CopyError (E : Type 0) : Type 0 where
  read_error : ℕ → E → CopyError E
  write_error : E → CopyError E
  cut_short : CopyError E

-- What a round reports goes behind what was sent before.
abbrev pub report : {Ev : Type 0} → List Ev → Option Ev → List Ev
report sent none = sent
report sent (some e) = sent ++ e ∷ []

-- The variables of the loop.
pub record Copying {E : Type 0} (c : HashCrates) (r : Reader E) (w : Writer E) : Type 0 where
  pub src : r.State
  pub dst : w.State
  pub hasher : Hasher c
  pub bytes_in : ℕ

-- How a round ends: the loop is over, with the variables or an error, or it goes on.
pub data Round (E S : Type 0) : Type 0 where
  over : Result (CopyError E) S → Round E S
  next : S → Round E S

-- `want n` sizes the read at offset n, or ends the loop; `forgiven e n` takes an error at offset n
-- for the end.
module _ {E : Type 0} (c : HashCrates) (r : Reader E) (w : Writer E) (want : ℕ → Option ℕ)
    (forgiven : E → ℕ → Bool) where
  unfoldable pub copied : Copying c r w → List ℕ → r.State → w.State → Copying c r w
  unfolding update
  copied st chunk src dst = record {
    src = src;
    dst = dst;
    hasher = update c st.hasher chunk;
    bytes_in = st.bytes_in + length chunk;
  }

  unfoldable pub after_write :
      Copying c r w → List ℕ → r.State → Result E w.State → Round E (Copying c r w)
  unfolding copied
  after_write st chunk src (err e) = over (err (write_error e))
  after_write st chunk src (ok dst) = next (copied st chunk src dst)

  unfoldable pub after_read : Copying c r w → Result E (List ℕ × r.State) → Round E (Copying c r w)
  unfolding after_write
  after_read st (err e) =
      over (if forgiven e st.bytes_in then ok st else err (read_error st.bytes_in e))
  after_read st (ok ([], src)) = over (ok (record st { src = src }))
  after_read st (ok (b ∷ bs, src)) = after_write st (b ∷ bs) src (w.write_all st.dst (b ∷ bs))

  unfoldable pub round : Copying c r w → Option ℕ → Round E (Copying c r w)
  unfolding after_read
  round st none = over (ok st)
  round st (some n) = after_read st (r.read st.src n)

  -- The events that were sent, and the variables behind the loop or its error. `tick` is what a
  -- round reports.
  unfoldable pub copy :
      {Ev : Type 0}
      → (Copying c r w → Option Ev)
      → ℕ
      → Copying c r w
      → List Ev
      → List Ev × Result (CopyError E) (Copying c r w)
  unfolding round
  copy tick zero st sent = (sent, err cut_short)
  copy tick (suc fuel) st sent = elim (round st (want st.bytes_in)) [
    | over result ↦ (sent, result)
    | next st' ↦ copy tick fuel st' (report sent (tick st'))
  ]

  -- What the loop does with a round.
  abbrev pub carry_on :
      {Ev : Type 0}
      → (Copying c r w → Option Ev)
      → ℕ
      → List Ev
      → Round E (Copying c r w)
      → List Ev × Result (CopyError E) (Copying c r w)
  carry_on tick fuel sent (over result) = (sent, result)
  carry_on tick fuel sent (next st) = copy tick fuel st (report sent (tick st))
