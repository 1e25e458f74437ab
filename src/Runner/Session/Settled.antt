-- ===== src/Runner/Session/Settled.antt =====
-- How each session of crates/tekflash/src/tui/progress_runner.rs ends: the worker's events hold one
-- that ends it, the last.
use tekflash.Common.{
  ℕ, ◌<◌, ◌≡◌, ◌∙◌, refl, ap, Bool, true, false, List, [], ◌∷◌, ◌++◌, Option, none, some, arith,
  any, Result, ok, err, ok_inj, FilePath, length,
}
use tekflash.Pipeline.Hasher.{HashCrates, Streams, blake3, digest}
use tekflash.Pipeline.Reader.{ReadLaws, Infallible}
use tekflash.Pipeline.Writer.{WriteLaws, NeverFull}
use tekflash.Pipeline.Format.{InputFormat}
use tekflash.Pipeline.Copy.{report}
use tekflash.Pipeline.Copy.Sent.{copy-any}
use tekflash.Runner.Progress.{
  BackupParams, BackupProgress, BackupEvent, BackupStatus, OperationKind, backup, archive, flash,
  done, broken, is_last, tick,
}
use tekflash.Runner.Worker.{Display, WorkerError, to_string, Outcome, byte_tick}
use tekflash.Runner.Backup.{BackupHost, do_backup, to_read, forgives}
use tekflash.Runner.Backup.Ends.{do_backup-total}
use tekflash.Runner.Backup.Limit.{first}
use tekflash.Runner.Flash.{FlashHost, do_flash, want, announced, peeked}
use tekflash.Runner.Archive.Run.{ArchiveHost, do_archive, resolved, finished}
use tekflash.Runner.Archive.Walk.{Walk, walk_and_archive}
use tekflash.Runner.Archive.Allowed.{walk_and_archive-is_last}
use tekflash.Runner.Session.{
  SessionHost, Summary, summed, work, last_event, spawn_backup, polls, dispatch,
}
use tekflash.Runner.Session.Delivery.{polls-settled, received, settled}
use tekflash.Runner.Backup as Backup
use tekflash.Runner.Flash as Flash
use tekflash.Runner.Archive.Run as Archive

byte_tick-is_last :
    (due : ℕ → Bool) (n i o : ℕ) → any is_last (report [] (byte_tick due n i o)) ≡ false
unfolding byte_tick
byte_tick-is_last due n i o =
    elim (due n)
      as (λ b.
        any is_last (report [] (elim b [ true ↦ some (tick i o none none) | false ↦ none ]))
        ≡ false) [ true ↦ refl | false ↦ refl ]

any-append :
    (xs ys : List BackupEvent)
    → any is_last xs ≡ false
    → any is_last ys ≡ false
    → any is_last (xs ++ ys) ≡ false
any-append [] ys h k = k
any-append (x ∷ xs) ys h k = ground (arith, any-append xs ys)

module _ (c : HashCrates) (d : Display) where
  backup-is_last :
      (host : BackupHost) (windows : Bool) (due : ℕ → Bool) (fuel : ℕ) (total : Option ℕ)
      (o : Result WorkerError (Backup.Loop c host))
      → any is_last (Backup.after_open c host windows due fuel total o).0 ≡ false
  unfolding do_backup
  backup-is_last host windows due fuel total (err e) = refl
  backup-is_last host windows due fuel total (ok st) =
      copy-any c host.source host.sink (to_read total) (forgives windows total) is_last
        (Backup.tick_of c host due) (λ st. byte_tick-is_last due _ _ _) fuel st [] refl

  flash-is_last :
      (host : FlashHost) (due : ℕ → Bool) (fuel : ℕ) (sent : List BackupEvent)
      (o : Result WorkerError (Flash.Loop c host d))
      → any is_last sent ≡ false
      → any is_last (Flash.after_open c host d due fuel sent o).0 ≡ false
  unfolding do_flash
  flash-is_last host due fuel sent (err e) h = h
  flash-is_last host due fuel sent (ok st) h =
      copy-any c host.decoded host.device (want c host d) (Flash.forgives c host d) is_last
        (Flash.tick_of c host d due) (λ st. byte_tick-is_last due _ _ _) fuel st sent h

  module _ {G : Type 0} (is_match : G → FilePath → Bool) (params : BackupParams G) where
    peeked-is_last :
        (host : FlashHost) (due : ℕ → Bool) (fuel : ℕ)
        (o : Result WorkerError (List ℕ × host.file.State × InputFormat))
        → any is_last (Flash.after_peek c host d due fuel params o).0 ≡ false
    unfolding do_flash
    peeked-is_last host due fuel (err e) = refl
    peeked-is_last host due fuel (ok (head, file, fmt)) =
        flash-is_last host due fuel (announced c host d params fmt ∷ [])
          (Flash.opened c host d params head file fmt) refl

    finished-is_last :
        (host : ArchiveHost) (w : Walk c host.tar) (o : Option WorkerError)
        → any is_last w.sent ≡ false
        → any is_last (finished c host d (w, o)).0 ≡ false
    unfolding do_archive
    finished-is_last host w none h = h
    finished-is_last host w (some e) h = h

    opened-is_last :
        (host : ArchiveHost) (due : FilePath → Bool) (source : FilePath) (sent : List BackupEvent)
        (o : Result WorkerError host.tar.Builder)
        → any is_last sent ≡ false
        → any is_last (Archive.after_open c host d is_match due params source sent o).0 ≡ false
    unfolding do_archive
    opened-is_last host due source sent (err e) h = h
    opened-is_last host due source sent (ok b) h =
        let start = Archive.start c host d b sent in
        let walked =
          walk_and_archive c host.tar d is_match params.archive_selection due source source
            (host.tree source) start in
        finished-is_last host walked.0 walked.1 (
          walk_and_archive-is_last c host.tar d is_match params.archive_selection due source source
            (host.tree source) start h)

    walked-is_last :
        (host : ArchiveHost) (due : FilePath → Bool) (fuel : ℕ) (sent : List BackupEvent)
        (o : Result WorkerError FilePath)
        → any is_last sent ≡ false
        → any is_last (Archive.after_resolve c host d is_match due fuel params (sent, o)).0 ≡ false
    unfolding do_archive
    walked-is_last host due fuel sent (err e) h = h
    walked-is_last host due fuel sent (ok source) h =
        opened-is_last host due source _ (Archive.opened c host d params) (any-append sent _ h refl)

    resolved-is_last :
        (host : ArchiveHost) (source : FilePath) → any is_last (resolved c host d source).0 ≡ false
    unfolding resolved
    resolved-is_last host source = ground arith

    summed-is_last :
        {D : Type 0} (bytes_out : D → ℕ) (r : List BackupEvent × Result WorkerError (Outcome D))
        → any is_last r.0 ≡ false
        → any is_last (summed bytes_out r).0 ≡ false
    summed-is_last bytes_out (sent, err e) h = h
    summed-is_last bytes_out (sent, ok out) h = h

-- The status that a worker's result leaves.
abbrev pub final : Display → ℕ → Result WorkerError Summary → BackupStatus
final d elapsed (ok (bytes_in, hash, bytes_out)) = done hash elapsed
final d elapsed (err e) = broken (to_string d e)

last_event-settled :
    (d : Display) (elapsed : ℕ) (result : Result WorkerError Summary) (s : BackupStatus)
    → (is_last (last_event d elapsed result) ≡ true)
      × (settled (last_event d elapsed result) s ≡ final d elapsed result)
unfolding last_event
last_event-settled d elapsed (ok (n, h, o)) s = (refl, refl)
last_event-settled d elapsed (err e) s = (refl, refl)

module _ (c : HashCrates) (host : SessionHost) (d : Display) {G : Type 0}
    (is_match : G → FilePath → Bool) (windows : Bool) (due : ℕ → Bool) (due_at : FilePath → Bool)
    (fuel : ℕ) (params : BackupParams G) where
  dispatch-is_last :
      (kind : OperationKind)
      → any is_last (dispatch c host d is_match windows due due_at fuel kind params).0 ≡ false
  unfolding work
  dispatch-is_last backup =
      summed-is_last c d is_match params host.backup_host.sink.counted
        (do_backup c host.backup_host windows due fuel params)
        (backup-is_last c d host.backup_host windows due fuel params.total_bytes
          (Backup.opened c host.backup_host params))
  dispatch-is_last archive =
      summed-is_last c d is_match params host.archive_host.tar.counted
        (do_archive c host.archive_host d is_match due_at fuel params)
        (walked-is_last c d is_match params host.archive_host due_at fuel
          (resolved c host.archive_host d params.source).0
          (resolved c host.archive_host d params.source).1
          (resolved-is_last c d is_match params host.archive_host params.source))
  dispatch-is_last flash =
      summed-is_last c d is_match params host.flash_host.device.counted
        (do_flash c host.flash_host d due fuel params)
        (peeked-is_last c d is_match params host.flash_host due fuel
          (peeked c host.flash_host d params))

  -- A session of any kind is over once the worker's events have all come, however they fall into the
  -- polls: it is done with the hash that the worker returned, or has failed with its message.
  pub spawn_backup-settled :
      (elapsed : ℕ) (arrivals : List (List BackupEvent × ℕ)) (p : BackupProgress G)
      → received arrivals
        ≡ spawn_backup d elapsed (work c host d is_match windows due due_at fuel params)
      → (polls [] arrivals p).status
        ≡ final d elapsed (work c host d is_match windows due due_at fuel params).1
  unfolding spawn_backup work
  spawn_backup-settled elapsed arrivals p r =
      let (sent, result) = work c host d is_match windows due due_at fuel params in
      let (l, s) = last_event-settled d elapsed result p.status in
      polls-settled arrivals sent (last_event d elapsed result) p (dispatch-is_last params.kind) l r
      ∙ s

  summed-final :
      {D : Type 0} (bytes_out : D → ℕ) (r : List BackupEvent × Result WorkerError (Outcome D))
      (elapsed : ℕ) (out : Outcome D)
      → r.1 ≡ ok out
      → final d elapsed (summed bytes_out r).1 ≡ done out.hash_hex elapsed
  summed-final bytes_out (sent, err e) elapsed out h = cc
  summed-final bytes_out (sent, ok o) elapsed out h = ap (λ x. done x.hash_hex elapsed) (ok_inj h)

  backed_up-done :
      (kind : OperationKind) (elapsed : ℕ) (out : Outcome host.backup_host.sink.State)
      → kind ≡ backup
      → (do_backup c host.backup_host windows due fuel params).1 ≡ ok out
      → final d elapsed (dispatch c host d is_match windows due due_at fuel kind params).1
        ≡ done out.hash_hex elapsed
  backed_up-done backup elapsed out k h =
      summed-final host.backup_host.sink.counted
        (do_backup c host.backup_host windows due fuel params) elapsed out h
  backed_up-done archive elapsed out k h = cc
  backed_up-done flash elapsed out k h = cc

  -- A backup session whose files were opened, whose source and destination do not fail and whose fuel
  -- is more than the source's bytes is done once its events have come, however they fall into the
  -- polls, and shows the hash of the source's first bytes up to the size that it was given.
  pub spawn_backup-done :
      (streams : Streams c) (rest : host.backup_host.source.State → List ℕ)
      → ReadLaws host.backup_host.source rest
      → Infallible host.backup_host.source
      → (content : host.backup_host.sink.State → List ℕ) → WriteLaws host.backup_host.sink content
      → ((s : host.backup_host.sink.State) → content (host.backup_host.drop_encoder s) ≡ content s)
      → NeverFull host.backup_host.sink
      → (st : Backup.Loop c host.backup_host) → params.kind ≡ backup
      → Backup.opened c host.backup_host params ≡ ok st
      → length (rest st.src) < fuel
      → (elapsed : ℕ) (arrivals : List (List BackupEvent × ℕ)) (p : BackupProgress G)
      → received arrivals
        ≡ spawn_backup d elapsed (work c host d is_match windows due due_at fuel params)
      → (polls [] arrivals p).status
        ≡ done (digest c blake3 (first params.total_bytes (rest st.src))) elapsed
  unfolding work
  spawn_backup-done streams rest reads infallible content writes drops never_full st kind o lt
        elapsed arrivals p r =
      let (out, e, w, n, hashed) =
        do_backup-total c streams host.backup_host rest reads content writes drops windows due
          params fuel st infallible never_full o lt in
      spawn_backup-settled elapsed arrivals p r
      ∙ backed_up-done params.kind elapsed out kind e
      ∙ ap (λ x. done x elapsed) hashed
