-- ===== src/Pipeline/Reader.antt =====
-- What the program relies on of `std::io::Read`: a file, a device or a decoder that hands out its
-- content in pieces of its own choice, or an error.
use tekflash.Common.{ℕ, ◌≤◌, ◌<◌, ◌≡◌, List, [], ◌++◌, Result, ok, length}

pub record Reader (E : Type 0) : Type 1 where
  pub State : Type 0
  pub read : State → ℕ → Result E (List ℕ × State)

-- `rest s` is what the reader has left at `s`. A read returns a piece of it that fits the buffer, and
-- an empty one at the end only.
pub record ReadLaws {E : Type 0} (r : Reader E) (rest : r.State → List ℕ) : Type 0 where
  pub piece :
      (s s' : r.State) (n : ℕ) (chunk : List ℕ)
      → r.read s n ≡ ok (chunk, s')
      → rest s ≡ chunk ++ rest s'
  pub fits :
      (s s' : r.State) (n : ℕ) (chunk : List ℕ) → r.read s n ≡ ok (chunk, s') → length chunk ≤ n
  pub at_end : (s s' : r.State) (n : ℕ) → 0 < n → r.read s n ≡ ok ([], s') → rest s ≡ []

-- No read fails.
pub record Infallible {E : Type 0} (r : Reader E) : Type 0 where
  pub succeeds : (s : r.State) (n : ℕ) → (p : List ℕ × r.State) × (r.read s n ≡ ok p)
