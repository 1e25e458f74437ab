-- ===== src/Pipeline/Copy/Sent.antt =====
-- The events that `copy` sends.
use tekflash.Common.{ℕ, zero, suc, ◌≡◌, Bool, false, List, [], ◌∷◌, Option, none, some, arith, any}
use tekflash.Pipeline.Hasher.{HashCrates}
use tekflash.Pipeline.Reader.{Reader}
use tekflash.Pipeline.Writer.{Writer}
use tekflash.Pipeline.Copy.{Copying, Round, over, next, report, round, copy, carry_on}

report-any :
    {Ev : Type 0} (last : Ev → Bool) (sent : List Ev) (o : Option Ev)
    → any last sent ≡ false
    → any last (report [] o) ≡ false
    → any last (report sent o) ≡ false
report-any last sent none h k = h
report-any last [] (some e) h k = k
report-any last (x ∷ xs) (some e) h k = ground (arith, report-any last xs (some e))

module _ {E : Type 0} (c : HashCrates) (r : Reader E) (w : Writer E) (want : ℕ → Option ℕ)
    (forgiven : E → ℕ → Bool) {Ev : Type 0} (last : Ev → Bool) (tick : Copying c r w → Option Ev)
    (quiet : (st : Copying c r w) → any last (report [] (tick st)) ≡ false) where
  carried-any :
      (fuel : ℕ) (sent : List Ev) (round : Round E (Copying c r w))
      → any last sent ≡ false
      → ((st : Copying c r w) (sent : List Ev)
          → any last sent ≡ false
          → any last (copy c r w want forgiven tick fuel st sent).0 ≡ false)
      → any last (carry_on c r w want forgiven tick fuel sent round).0 ≡ false
  carried-any fuel sent (over res) h ih = h
  carried-any fuel sent (next st) h ih =
      ih st (report sent (tick st)) (report-any last sent (tick st) h (quiet st))

  -- If no tick is a last event, the loop sends none.
  pub copy-any :
      (fuel : ℕ) (st : Copying c r w) (sent : List Ev)
      → any last sent ≡ false
      → any last (copy c r w want forgiven tick fuel st sent).0 ≡ false
  unfolding copy
  copy-any zero st sent h = h
  copy-any (suc fuel) st sent h =
      carried-any fuel sent (round c r w want forgiven st (want st.bytes_in)) h (copy-any fuel)
