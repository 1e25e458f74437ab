-- ===== src/Runner/Backup/Ends.antt =====
-- What `do_backup` of crates/tekflash/src/tui/progress_runner.rs has read, written and hashed when it
-- returns.
use tekflash.Common.{
  ℕ, ◌<◌, ◌≤◌, ◌≡◌, ◌∙◌, refl, sym, ap, subst, Bool, List, [], ◌++◌, some, none, length, Result, ok,
  err, ok_inj, arith, ◌⊎◌, inl, inr, >>=-eq-ok,
}
use tekflash.Pipeline.Hasher.{HashCrates, Streams, blake3, update, finalize_hex, digest}
use tekflash.Pipeline.Compress.{encoder}
use tekflash.Pipeline.Hasher.{new as new_hasher}
use tekflash.Pipeline.Reader.{ReadLaws, Infallible}
use tekflash.Pipeline.Writer.{WriteLaws, NeverFull}
use tekflash.Pipeline.Copy.{CopyError, read_error, write_error, cut_short, copy}
use tekflash.Pipeline.Copy.Prefix.{Stopped, copy-Moved}
use tekflash.Pipeline.Copy.Whole.{copy-Done}
use tekflash.Runner.Progress.{BackupParams, BackupEvent}
use tekflash.Runner.Worker.{
  IoError, WorkerError, Outcome, or_fail, open_source, create_dest, init_encoder,
}
use tekflash.Runner.Backup.{
  BackupHost, Loop, opened, ended, after_open, do_backup, to_read, forgives, tick_of,
}
use tekflash.Runner.Backup.Limit.{
  Within, Within_zero, to_read-some, to_read-Within, first, first-append, to_read-none, EndError,
  OneBuffer, forgives-EndError,
}

module _ (c : HashCrates) (streams : Streams c) (host : BackupHost)
    (rest : host.source.State → List ℕ) (reads : ReadLaws host.source rest)
    (content : host.sink.State → List ℕ) (writes : WriteLaws host.sink content)
    (drops : (s : host.sink.State) → content (host.drop_encoder s) ≡ content s) (windows : Bool)
    (due : ℕ → Bool) {G : Type 0} (params : BackupParams G) where
  abbrev run : ℕ → Loop c host → List BackupEvent × Result (CopyError IoError) (Loop c host)
  run fuel st =
      copy c host.source host.sink (to_read params.total_bytes)
        (forgives windows params.total_bytes) (tick_of c host due) fuel st []

  ended-ok :
      (res : Result (CopyError IoError) (Loop c host)) (out : Outcome host.sink.State)
      → ended c host res ≡ ok out
      → (st : Loop c host) × (res ≡ ok st) × (ended c host (ok st) ≡ ok out)
  unfolding ended
  ended-ok (err (read_error n e)) out h = cc
  ended-ok (err (write_error e)) out h = cc
  ended-ok (err cut_short) out h = cc
  ended-ok (ok st) out h = (st, refl, h)

  -- Why a backup of `n` bytes is over that leaves the source in the state `src`: the size was reached,
  -- the source is at its end, or its next read fails with an error of a device's end, at most one
  -- buffer before the size.
  abbrev pub Reason : ℕ → host.source.State → Type 0
  Reason n src =
      ((t : ℕ) × (params.total_bytes ≡ some t) × (t ≤ n))
      ⊎ (rest src ≡ [])
      ⊎ ((m : ℕ) × (e : IoError) × (host.source.read src m ≡ err e)
          × EndError windows e
          × OneBuffer params.total_bytes n)

  -- How a backup from the source's state `src` and the destination's `dst` ends.
  abbrev pub Backed : host.source.State → host.sink.State → Outcome host.sink.State → Type 0
  Backed src dst out =
      (bytes : List ℕ) × (src' : host.source.State) × (rest src ≡ bytes ++ rest src')
      × (out.bytes_in ≡ length bytes)
      × (content out.dst ≡ content dst ++ bytes)
      × (out.hash_hex ≡ digest c blake3 bytes)
      × Within params.total_bytes (length bytes)
      × Reason (length bytes) src'

  -- The same, with the loop's last variables in place of the reason.
  abbrev Taken : Loop c host → Loop c host → Outcome host.sink.State → Type 0
  Taken st st' out =
      (bytes : List ℕ) × (rest st.src ≡ bytes ++ rest st'.src)
      × (out.bytes_in ≡ length bytes)
      × (content out.dst ≡ content st.dst ++ bytes)
      × (out.hash_hex ≡ digest c blake3 bytes)
      × Within params.total_bytes (length bytes)
      × (st'.bytes_in ≡ length bytes)

  loop-Taken :
      (fuel : ℕ) (st st' : Loop c host) (out : Outcome host.sink.State)
      → st.bytes_in ≡ 0
      → st.hasher ≡ new_hasher c blake3
      → (run fuel st).1 ≡ ok st'
      → ended c host (ok st') ≡ ok out
      → Taken st st' out
        × Stopped c streams host.source rest reads host.sink content writes
            (to_read params.total_bytes)
            (forgives windows params.total_bytes)
            (to_read-some params.total_bytes)
            (Within params.total_bytes)
            (to_read-Within params.total_bytes)
            st'
  unfolding ended digest
  loop-Taken fuel st st' out fresh new e k =
      let ((bytes, s, d, h, n, p), stop) =
        copy-Moved c streams host.source rest reads host.sink content writes
          (to_read params.total_bytes) (forgives windows params.total_bytes)
          (to_read-some params.total_bytes) (Within params.total_bytes)
          (to_read-Within params.total_bytes) (tick_of c host due) fuel st st' [] e in
      let o = ok_inj k in
      let q : st'.bytes_in ≡ length bytes = omega (arith, n, fresh) in
      let start = subst (Within params.total_bytes) (sym fresh) (Within_zero params.total_bytes) in
      (
        (
          bytes,
          s,
          sym (ap (λ x. x.bytes_in) o) ∙ q,
          ap (λ x. content x.dst) (sym o) ∙ drops st'.dst ∙ d,
          ap (λ x. x.hash_hex) (sym o) ∙ ap (finalize_hex c) (h ∙ ap (λ x. update c x bytes) new),
          subst (Within params.total_bytes) q (p start),
          q,
        ),
        stop,
      )

  Stopped-Reason :
      (st : Loop c host)
      → Stopped c streams host.source rest reads host.sink content writes
          (to_read params.total_bytes)
          (forgives windows params.total_bytes)
          (to_read-some params.total_bytes)
          (Within params.total_bytes)
          (to_read-Within params.total_bytes)
          st
      → Reason st.bytes_in st.src
  Stopped-Reason st (inl h) = inl (to_read-none params.total_bytes st.bytes_in h)
  Stopped-Reason st (inr (inl h)) = inr (inl h)
  Stopped-Reason st (inr (inr (m, e, o, f, h))) =
      let (kind, near) = forgives-EndError windows params.total_bytes e st.bytes_in h in
      inr (inr (m, e, f, kind, near))

  loop-Backed :
      (fuel : ℕ) (st st' : Loop c host) (out : Outcome host.sink.State)
      → st.bytes_in ≡ 0
      → st.hasher ≡ new_hasher c blake3
      → (run fuel st).1 ≡ ok st'
      → ended c host (ok st') ≡ ok out
      → Backed st.src st.dst out
  loop-Backed fuel st st' out fresh new e k =
      let ((bytes, s, n, d, h, w, q), stop) = loop-Taken fuel st st' out fresh new e k in
      (bytes, st'.src, s, n, d, h, w, subst (λ x. Reason x st'.src) q (Stopped-Reason st' stop))

  opened-fresh :
      (st : Loop c host)
      → opened c host params ≡ ok st
      → (st.bytes_in ≡ 0) × (st.hasher ≡ new_hasher c blake3)
  unfolding opened
  opened-fresh st h =
      let (src, _, h1) =
        >>=-eq-ok (or_fail (open_source params.source) (host.open_fast_read params.source)) _ h in
      let (file, _, h2) =
        >>=-eq-ok (or_fail (create_dest params.dest) (host.create params.dest)) _ h1 in
      let (dst, _, h3) =
        >>=-eq-ok (or_fail init_encoder (host.encode (encoder params.codec params.level) file)) _
          h2 in
      (sym (ap (λ x. x.bytes_in) (ok_inj h3)), sym (ap (λ x. x.hasher) (ok_inj h3)))

  after_open-ok :
      (fuel : ℕ) (o : Result WorkerError (Loop c host)) (out : Outcome host.sink.State)
      → opened c host params ≡ o
      → (after_open c host windows due fuel params.total_bytes o).1 ≡ ok out
      → (st : Loop c host) × (opened c host params ≡ ok st) × Backed st.src st.dst out
  unfolding after_open
  after_open-ok fuel (err e) out o h = cc
  after_open-ok fuel (ok st) out o h =
      let (fresh, new) = opened-fresh st o in
      let (st', e, k) = ended-ok (run fuel st).1 out h in
      (st, o, loop-Backed fuel st st' out fresh new e k)

  -- A backup that returns a result was opened, and it has written and hashed a prefix of the source,
  -- which it counts and which does not pass the size it was given; it is over since that size was
  -- reached, since the source was at its end, or since the next read of the source fails with an
  -- error of a device's end: an unexpected end of the file, or on Windows one of the codes 23, 27, 38
  -- and 87. Where a size was given, such an error comes at most 8 MiB before it.
  pub do_backup-Backed :
      (fuel : ℕ) (out : Outcome host.sink.State)
      → (do_backup c host windows due fuel params).1 ≡ ok out
      → (st : Loop c host) × (opened c host params ≡ ok st) × Backed st.src st.dst out
  unfolding do_backup
  do_backup-Backed fuel out h = after_open-ok fuel _ out refl h

  ended_ok_total :
      (st : Loop c host) → (out : Outcome host.sink.State) × (ended c host (ok st) ≡ ok out)
  unfolding ended
  ended_ok_total st = (_, refl)

  ran :
      (fuel : ℕ) (st st' : Loop c host)
      → (run fuel st).1 ≡ ok st'
      → (after_open c host windows due fuel params.total_bytes (ok st)).1 ≡ ended c host (ok st')
  unfolding after_open
  ran fuel st st' e = ap (ended c host) e

  -- On a source and a destination that do not fail, and with more fuel than the source has bytes, the
  -- backup returns, and it has written, counted and hashed the first bytes of the source up to the
  -- size that it was given, or all of them where it was given none.
  pub do_backup-total :
      (fuel : ℕ) (st : Loop c host)
      → Infallible host.source
      → NeverFull host.sink
      → opened c host params ≡ ok st
      → length (rest st.src) < fuel
      → (out : Outcome host.sink.State) × ((do_backup c host windows due fuel params).1 ≡ ok out)
        × (content out.dst ≡ content st.dst ++ first params.total_bytes (rest st.src))
        × (out.bytes_in ≡ length (first params.total_bytes (rest st.src)))
        × (out.hash_hex ≡ digest c blake3 (first params.total_bytes (rest st.src)))
  unfolding do_backup
  do_backup-total fuel st total never_full o lt =
      let (fresh, new) = opened-fresh st o in
      let (st', e, done) =
        copy-Done c host.source rest reads total host.sink never_full (to_read params.total_bytes)
          (forgives windows params.total_bytes) (to_read-some params.total_bytes)
          (tick_of c host due) fuel st [] lt in
      let (out, k) = ended_ok_total st' in
      let ((bytes, s, n, d, h, w, q), stop) = loop-Taken fuel st st' out fresh new e k in
      let whole : first params.total_bytes (rest st.src) ≡ bytes = rw s (
        first-append params.total_bytes bytes (rest st'.src) w
          (subst (λ x. (to_read params.total_bytes x ≡ none) ⊎ (rest st'.src ≡ [])) q done)) in
      (
        out,
        ap (λ x. (after_open c host windows due fuel params.total_bytes x).1) o
            ∙ ran fuel st st' e
            ∙ k,
        d ∙ ap (λ x. content st.dst ++ x) (sym whole),
        n ∙ ap length (sym whole),
        h ∙ ap (digest c blake3) (sym whole),
      )
