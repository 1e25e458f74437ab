-- ===== src/Pipeline/Writer.antt =====
-- What the program relies on of `std::io::Write`: a file, a device or an encoder that takes bytes.
use tekflash.Common.{ℕ, ◌≡◌, List, ◌++◌, Result, ok}

-- `counted` is the number of bytes that have come out at the far end, where a `ByteCounter` counts
-- them: behind an encoder it is not the number of bytes that went in.
pub record Writer (E : Type 0) : Type 1 where
  pub State : Type 0
  pub write_all : State → List ℕ → Result E State
  pub flush : State → Result E State
  pub counted : State → ℕ

-- `content s` is what has been handed over by `s`.
pub record WriteLaws {E : Type 0} (w : Writer E) (content : w.State → List ℕ) : Type 0 where
  pub appends :
      (s s' : w.State) (bytes : List ℕ)
      → w.write_all s bytes ≡ ok s'
      → content s' ≡ content s ++ bytes
  pub keeps : (s s' : w.State) → w.flush s ≡ ok s' → content s' ≡ content s

-- No write fails.
pub record NeverFull {E : Type 0} (w : Writer E) : Type 0 where
  pub writes : (s : w.State) (bytes : List ℕ) → (s' : w.State) × (w.write_all s bytes ≡ ok s')
  pub flushes : (s : w.State) → (s' : w.State) × (w.flush s ≡ ok s')
