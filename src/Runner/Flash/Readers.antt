-- ===== src/Runner/Flash/Readers.antt =====
-- `CountingReader` of crates/tekflash/src/tui/progress_runner.rs, and `std::io::Chain` behind a
-- `Cursor`, with what is left in them.
use tekflash.Common.{
  ℕ, ◌+◌, ◌≤◌, ◌<◌, ◌≡◌, sym, ap, ◌∙◌, List, [], ◌∷◌, ◌++◌, append_assoc, Result, ok, err, ok_inj,
  length, take, drop, take-append-drop, length-take, arith,
}
use tekflash.Pipeline.Reader.{Reader, ReadLaws}

abbrev counted : {E S : Type 0} → ℕ → Result E (List ℕ × S) → Result E (List ℕ × (S × ℕ))
counted k (err e) = err e
counted k (ok (chunk, s)) = ok (chunk, (s, k + length chunk))

-- The counter of the bytes that a reader has handed out stands beside it.
abbrev pub counting : {E : Type 0} → Reader E → Reader E
counting r = record { State = r.State × ℕ; read = λ (s, k) n. counted k (r.read s n) }

abbrev tail_read : {E S : Type 0} → Result E (List ℕ × S) → Result E (List ℕ × (List ℕ × S))
tail_read (err e) = err e
tail_read (ok (chunk, s)) = ok (chunk, ([], s))

abbrev chain_read :
    {E : Type 0} (r : Reader E) → List ℕ × r.State → ℕ → Result E (List ℕ × (List ℕ × r.State))
chain_read r ([], s) n = tail_read (r.read s n)
chain_read r (b ∷ bs, s) n = ok (take n (b ∷ bs), (drop n (b ∷ bs), s))

-- The bytes in front come first, then those of the reader.
abbrev pub chain : {E : Type 0} → Reader E → Reader E
chain r = record { State = List ℕ × r.State; read = chain_read r }

module _ {E : Type 0} (r : Reader E) (rest : r.State → List ℕ) (reads : ReadLaws r rest) where
  counted-ok :
      (k k' : ℕ) (res : Result E (List ℕ × r.State)) (chunk : List ℕ) (s : r.State)
      → counted k res ≡ ok (chunk, (s, k'))
      → (res ≡ ok (chunk, s)) × (k' ≡ k + length chunk)
  counted-ok k k' (err e) chunk s h = cc
  counted-ok k k' (ok (piece, s')) chunk s h =
      let e = ok_inj h in (cc (e), ap (λ x. x.1.1) (sym e) ∙ ap (λ x. k + length x.0) e)

  -- Counting leaves the content alone.
  pub counting-ReadLaws : ReadLaws (counting r) (λ s. rest s.0)
  counting-ReadLaws = record {
    piece = λ s s' n chunk h.
        reads.piece s.0 s'.0 n chunk (counted-ok s.1 s'.1 (r.read s.0 n) chunk s'.0 h).0;
    fits = λ s s' n chunk h.
        reads.fits s.0 s'.0 n chunk (counted-ok s.1 s'.1 (r.read s.0 n) chunk s'.0 h).0;
    at_end = λ s s' n pos h.
        reads.at_end s.0 s'.0 n pos (counted-ok s.1 s'.1 (r.read s.0 n) [] s'.0 h).0;
  }

  tail_read-ok :
      (res : Result E (List ℕ × r.State)) (chunk head : List ℕ) (s : r.State)
      → tail_read res ≡ ok (chunk, (head, s))
      → (res ≡ ok (chunk, s)) × (head ≡ [])
  tail_read-ok (err e) chunk head s h = cc
  tail_read-ok (ok (piece, s')) chunk head s h =
      let e = ok_inj h in (ap (λ x. ok (x.0, x.1.1)) e, ap (λ x. x.1.0) (sym e))

  abbrev pub content : List ℕ × r.State → List ℕ
  content (head, s) = head ++ rest s

  chain-piece :
      (s s' : List ℕ × r.State) (n : ℕ) (chunk : List ℕ)
      → chain_read r s n ≡ ok (chunk, s')
      → content s ≡ chunk ++ content s'
  chain-piece ([], s) (head, s') n chunk h =
      let (e, k) = tail_read-ok (r.read s n) chunk head s' h in rw k (reads.piece s s' n chunk e)
  chain-piece (b ∷ bs, s) (head, s') n chunk h =
      ap (λ z. z ++ rest s) (sym (take-append-drop n (b ∷ bs)))
      ∙ append_assoc (take n (b ∷ bs)) (drop n (b ∷ bs)) (rest s)
      ∙ ap (λ x. x.0 ++ (x.1.0 ++ rest x.1.1)) (ok_inj h)

  chain-fits :
      (s s' : List ℕ × r.State) (n : ℕ) (chunk : List ℕ)
      → chain_read r s n ≡ ok (chunk, s')
      → length chunk ≤ n
  chain-fits ([], s) (head, s') n chunk h =
      reads.fits s s' n chunk (tail_read-ok (r.read s n) chunk head s' h).0
  chain-fits (b ∷ bs, s) (head, s') n chunk h =
      omega (arith, length-take n (b ∷ bs), ap (λ x. length x.0) (ok_inj h))

  chain-at_end :
      (s s' : List ℕ × r.State) (n : ℕ) → 0 < n → chain_read r s n ≡ ok ([], s') → content s ≡ []
  chain-at_end ([], s) (head, s') n pos h =
      reads.at_end s s' n pos (tail_read-ok (r.read s n) [] head s' h).0
  chain-at_end (b ∷ bs, s) (head, s') n pos h =
      absurd (omega (arith, length-take n (b ∷ bs), ap (λ x. length x.0) (ok_inj h)))

  -- The content of the chain is the bytes in front and what the reader has left.
  pub chain-ReadLaws : ReadLaws (chain r) content
  chain-ReadLaws = record { piece = chain-piece; fits = chain-fits; at_end = chain-at_end }
