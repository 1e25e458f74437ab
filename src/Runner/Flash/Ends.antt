-- ===== src/Runner/Flash/Ends.antt =====
-- What `do_flash` of crates/tekflash/src/tui/progress_runner.rs has written when it returns.
use tekflash.Common.{
  ℕ, ◌<◌, ◌≡◌, ◌∙◌, refl, sym, ap, Bool, List, [], ◌++◌, append-nil, some, Result, ok, err, ok_inj,
  arith, inl, inr, >>=-eq-ok,
}
use tekflash.Pipeline.Hasher.{HashCrates, Streams, blake3, update, finalize_hex, digest}
use tekflash.Pipeline.Hasher.{new as new_hasher}
use tekflash.Pipeline.Reader.{ReadLaws}
use tekflash.Pipeline.Writer.{WriteLaws}
use tekflash.Pipeline.Format.{InputFormat, detect, human}
use tekflash.Pipeline.Compress.{DecoderChoice, decoder, from_format}
use tekflash.Pipeline.Copy.{CopyError, read_error, write_error, cut_short, copy}
use tekflash.Pipeline.Copy.Prefix.{Stopped, copy-Moved}
use tekflash.Runner.Progress.{BackupParams, BackupEvent}
use tekflash.Runner.Worker.{
  IoError, WorkerError, Outcome, or_fail, or_fail_eq_ok, Display, open_source, peek, init_decoder,
  open_dest,
}
use tekflash.Runner.Flash.{
  FlashHost, Loop, peeked, opened, flushed, ended, do_flash, after_open, after_peek, want, forgives,
  tick_of,
}
use tekflash.Runner.Flash.Readers.{counting, chain, content, counting-ReadLaws, chain-ReadLaws}

-- What the decoders promise: on a reader that obeys the laws of reading, the decoder of a choice has
-- `unpack` of the reader's content to hand out, and hands it out by the same laws.
pub record Decodes (host : FlashHost) (rest : host.file.State → List ℕ)
    (out : host.decoded.State → List ℕ) (unpack : DecoderChoice → List ℕ → List ℕ) : Type 0 where
  pub starts :
      ReadLaws (counting (chain host.file)) (λ s. s.0.0 ++ rest s.0.1)
      → (k : DecoderChoice) (s : (counting (chain host.file)).State) (d : host.decoded.State)
      → host.decode k s ≡ ok d
      → out d ≡ unpack k (s.0.0 ++ rest s.0.1)
  pub reads : ReadLaws host.decoded out

module _ (c : HashCrates) (streams : Streams c) (host : FlashHost) (d : Display)
    (rest : host.file.State → List ℕ) (file_reads : ReadLaws host.file rest)
    (out : host.decoded.State → List ℕ) (unpack : DecoderChoice → List ℕ → List ℕ)
    (decodes : Decodes host rest out unpack) (written : host.device.State → List ℕ)
    (writes : WriteLaws host.device written) (due : ℕ → Bool) where
  abbrev run :
      ℕ
      → List BackupEvent
      → Loop c host d
      → List BackupEvent × Result (CopyError IoError) (Loop c host d)
  run fuel sent st =
      copy c host.decoded host.device (want c host d) (forgives c host d) (tick_of c host d due)
        fuel st sent

  want-some : (n m : ℕ) → want c host d n ≡ some m → 0 < m
  want-some n m h = ground arith

  -- The image's bytes are on the device behind what was written before, flushed and hashed.
  abbrev Flashed : Loop c host d → Outcome host.device.State → Type 0
  Flashed st o =
      (written o.dst ≡ written st.dst ++ out st.src) × (o.hash_hex ≡ digest c blake3 (out st.src))

  flushed-ok :
      (st : Loop c host d) (res : Result IoError host.device.State) (o : Outcome host.device.State)
      → flushed c host d st res ≡ ok o
      → (res ≡ ok o.dst) × (o.hash_hex ≡ finalize_hex c st.hasher)
  unfolding flushed
  flushed-ok st (err e) o h = cc
  flushed-ok st (ok dst) o h =
      (ap (λ x. ok x.dst) (ok_inj h), sym (ap (λ x. x.hash_hex) (ok_inj h)))

  ended-ok :
      (res : Result (CopyError IoError) (Loop c host d)) (o : Outcome host.device.State)
      → ended c host d res ≡ ok o
      → (st : Loop c host d) × (res ≡ ok st)
        × (host.device.flush st.dst ≡ ok o.dst)
        × (o.hash_hex ≡ finalize_hex c st.hasher)
  unfolding ended
  ended-ok (err (read_error n e)) o h = cc
  ended-ok (err (write_error e)) o h = cc
  ended-ok (err cut_short) o h = cc
  ended-ok (ok st) o h = let (f, k) = flushed-ok st _ o h in (st, refl, f, k)

  whole_image :
      (st : Loop c host d)
      → Stopped c streams host.decoded out decodes.reads host.device written writes
          (want c host d)
          (forgives c host d)
          want-some
          (λ n. Unit)
          (λ n m k p e le. tt)
          st
      → out st.src ≡ []
  whole_image st (inl h) = cc
  whole_image st (inr (inl h)) = h
  whole_image st (inr (inr (n, e, o, f, h))) = cc

  loop-Flashed :
      (fuel : ℕ) (sent : List BackupEvent) (st : Loop c host d) (o : Outcome host.device.State)
      → st.hasher ≡ new_hasher c blake3
      → ended c host d (run fuel sent st).1 ≡ ok o
      → Flashed st o
  unfolding digest
  loop-Flashed fuel sent st o new h =
      let (st', e, f, k) = ended-ok (run fuel sent st).1 o h in
      let ((bytes, s, w, u, n, p), stop) =
        copy-Moved c streams host.decoded out decodes.reads host.device written writes
          (want c host d) (forgives c host d) want-some (λ n. Unit) (λ n m k p e le. tt)
          (tick_of c host d due) fuel st st' sent e in
      let all : out st.src ≡ bytes =
        s ∙ ap (λ x. bytes ++ x) (whole_image st' stop) ∙ append-nil bytes in
      (
        writes.keeps st'.dst o.dst f ∙ w ∙ ap (λ x. written st.dst ++ x) (sym all),
        k
            ∙ ap (finalize_hex c) (u ∙ ap (λ x. update c x bytes) new)
            ∙ ap (digest c blake3) (sym all),
      )

  module _ {G : Type 0} (params : BackupParams G) where
    -- The files behind a flash that returns, and its result: the image is unpacked whole, by the decoder
    -- that its head asks for.
    abbrev pub Imaged : host.file.State → host.device.State → Outcome host.device.State → Type 0
    Imaged src dst o =
        (head : List ℕ) × (file : host.file.State) × (host.file.read src 16 ≡ ok (head, file))
        × (written o.dst ≡ written dst ++ unpack (decoder (from_format (detect head))) (rest src))
        × (o.hash_hex ≡ digest c blake3 (unpack (decoder (from_format (detect head))) (rest src)))

    opened-ok :
        (head : List ℕ) (file : host.file.State) (fmt : InputFormat) (st : Loop c host d)
        → opened c host d params head file fmt ≡ ok st
        → (st.hasher ≡ new_hasher c blake3)
          × (host.open_write params.dest ≡ ok st.dst)
          × (out st.src ≡ unpack (decoder (from_format fmt)) (head ++ rest file))
    unfolding opened
    opened-ok head file fmt st h =
        let (src, e, h1) =
          >>=-eq-ok
            (or_fail (init_decoder (human fmt))
              (host.decode (decoder (from_format fmt)) ((head, file), 0)))
            _ h in
        let (dst, k, h2) =
          >>=-eq-ok (or_fail (open_dest params.dest) (host.open_write params.dest)) _ h1 in
        let started =
          decodes.starts
            (counting-ReadLaws (chain host.file) (content host.file rest file_reads)
              (chain-ReadLaws host.file rest file_reads))
            (decoder (from_format fmt)) ((head, file), 0) src
            (or_fail_eq_ok (init_decoder (human fmt)) _ e) in
        (
          sym (ap (λ x. x.hasher) (ok_inj h2)),
          or_fail_eq_ok (open_dest params.dest) _ k ∙ ap (λ x. ok x.dst) (ok_inj h2),
          ap (λ x. out x.src) (sym (ok_inj h2)) ∙ started,
        )

    peeked-ok :
        (head : List ℕ) (file : host.file.State) (fmt : InputFormat)
        → peeked c host d params ≡ ok (head, file, fmt)
        → (src : host.file.State) × (host.open_file params.source ≡ ok src)
          × (host.file.read src 16 ≡ ok (head, file))
          × (fmt ≡ detect head)
    unfolding peeked
    peeked-ok head file fmt h =
        let (src, e, h1) =
          >>=-eq-ok (or_fail (open_source params.source) (host.open_file params.source)) _ h in
        let ((head', file'), k, h2) = >>=-eq-ok (or_fail peek (host.file.read src 16)) _ h1 in
        (
          src,
          or_fail_eq_ok (open_source params.source) _ e,
          or_fail_eq_ok peek _ k ∙ ap (λ x. ok (x.0, x.1)) (ok_inj h2),
          ap (λ x. x.2) (sym (ok_inj h2)) ∙ ap (λ x. detect x.0) (ok_inj h2),
        )

    after_open-ok :
        (fuel : ℕ) (sent : List BackupEvent) (res : Result WorkerError (Loop c host d))
        (o : Outcome host.device.State)
        → (after_open c host d due fuel sent res).1 ≡ ok o
        → (st : Loop c host d) × (res ≡ ok st) × (ended c host d (run fuel sent st).1 ≡ ok o)
    unfolding after_open
    after_open-ok fuel sent (err e) o h = cc
    after_open-ok fuel sent (ok st) o h = (st, refl, h)

    after_peek-ok :
        (fuel : ℕ) (res : Result WorkerError (List ℕ × host.file.State × InputFormat))
        (o : Outcome host.device.State)
        → peeked c host d params ≡ res
        → (after_peek c host d due fuel params res).1 ≡ ok o
        → (src : host.file.State) × (dst : host.device.State) × (host.open_file params.source
            ≡ ok src)
          × (host.open_write params.dest ≡ ok dst)
          × Imaged src dst o
    unfolding after_peek
    after_peek-ok fuel (err e) o p h = cc
    after_peek-ok fuel (ok (head, file, fmt)) o p h =
        let (src, e, r, f) = peeked-ok head file fmt p in
        let (st, q, k) = after_open-ok fuel _ _ o h in
        let (new, w, u) = opened-ok head file fmt st q in
        let (wrote, hashed) = loop-Flashed fuel _ st o new k in
        let image : out st.src ≡ unpack (decoder (from_format (detect head))) (rest src) =
          u
          ∙ ap (λ x. unpack (decoder (from_format x)) (head ++ rest file)) f
          ∙ ap (unpack (decoder (from_format (detect head))))
              (sym (file_reads.piece src file 16 head r)) in
        (
          src,
          st.dst,
          e,
          w,
          (
            head,
            file,
            r,
            wrote ∙ ap (λ x. written st.dst ++ x) image,
            hashed ∙ ap (digest c blake3) image,
          ),
        )

    -- A flash that returns has written, behind what went through the device's handle before, all
    -- that the decoder has for the whole image file, the peeked head included, where the decoder is
    -- that of the format which that head shows; the hash is that of the same bytes.
    pub do_flash-Imaged :
        (fuel : ℕ) (o : Outcome host.device.State)
        → (do_flash c host d due fuel params).1 ≡ ok o
        → (src : host.file.State) × (dst : host.device.State) × (host.open_file params.source
            ≡ ok src)
          × (host.open_write params.dest ≡ ok dst)
          × Imaged src dst o
    unfolding do_flash
    do_flash-Imaged fuel o h = after_peek-ok fuel _ o refl h
