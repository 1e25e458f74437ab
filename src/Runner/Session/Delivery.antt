-- ===== src/Runner/Session/Delivery.antt =====
-- What a session's status is once all events have come, for each way they fall into the polls of
-- crates/tekflash/src/tui/progress_runner.rs.
use tekflash.Common.{
  ℕ, ◌≡◌, ◌∙◌, refl, ap, subst, Bool, true, false, not, List, [], ◌∷◌, ◌++◌, arith, any, ◌⊎◌, inl,
  inr, if◌then◌else◌, ◌==◌,
}
use tekflash.Runner.Progress.{
  BackupEvent, BackupProgress, BackupStatus, done, broken, started, tick, finished, failed, apply,
  is_last, drain, poll,
}
use tekflash.Runner.Progress.Poll.{applied, drain_append}
use tekflash.Runner.Session.{polls}

abbrev pub received : List (List BackupEvent × ℕ) → List BackupEvent
received [] = []
received ((batch, live) ∷ arrivals) = batch ++ received arrivals

-- The status that an event leaves.
abbrev pub settled : BackupEvent → BackupStatus → BackupStatus
settled (started n) s = s
settled (tick i o f g) s = s
settled (finished i o hash elapsed) s = done hash elapsed
settled (failed message) s = broken message

any-false :
    (xs ys : List BackupEvent)
    → any is_last (xs ++ ys) ≡ false
    → (any is_last xs ≡ false) × (any is_last ys ≡ false)
any-false [] ys h = (refl, h)
any-false (x ∷ xs) ys h = let (h1, h2) = any-false xs ys (ground arith) in (ground arith, h2)

cons_inj :
    (x y : BackupEvent) (xs ys : List BackupEvent)
    → ◌≡◌ {A = List BackupEvent} (x ∷ xs) (y ∷ ys)
    → (x ≡ y) × (xs ≡ ys)
cons_inj x y xs ys h = (cc h, cc h)

-- A batch ends before the last event, or with it.
batch_cases :
    (batch behind before : List BackupEvent) (e : BackupEvent)
    → batch ++ behind ≡ before ++ e ∷ []
    → ((before' : List BackupEvent) × (before ≡ batch ++ before') × (behind ≡ before' ++ e ∷ []))
      ⊎ ((batch ≡ before ++ e ∷ []) × (behind ≡ []))
batch_cases [] behind before e h = inl (before, refl, h)
batch_cases (b ∷ []) behind [] e h = inr (cc, cc)
batch_cases (b ∷ b' ∷ batch) behind [] e h = cc
batch_cases (b ∷ batch) behind (x ∷ before) e h =
    let (e1, e2) = cons_inj b x (batch ++ behind) (before ++ e ∷ []) h in
    elim (batch_cases batch behind before e e2) [
      | inl (before', k, l) ↦ inl (before', cc, l)
      | inr (k, l) ↦ inr (cc, l)
    ]

module _ {G : Type 0} where
  applied-status :
      (es : List BackupEvent) (p : BackupProgress G)
      → any is_last es ≡ false
      → (applied es p).status ≡ p.status
  unfolding applied apply
  applied-status [] p h = refl
  applied-status (started n ∷ es) p h = applied-status es _ h
  applied-status (tick i o f g ∷ es) p h = applied-status es _ h
  applied-status (finished i o s t ∷ es) p h = cc
  applied-status (failed m ∷ es) p h = cc

  drain-quiet :
      (es : List BackupEvent) (p : BackupProgress G) (changed : Bool)
      → any is_last es ≡ false
      → ((drain es p changed).0.status ≡ p.status) × ((drain es p changed).1 ≡ [])
  unfolding drain apply
  drain-quiet [] p changed h = (refl, refl)
  drain-quiet (started n ∷ es) p changed h = drain-quiet es _ true h
  drain-quiet (tick i o f g ∷ es) p changed h = drain-quiet es _ true h
  drain-quiet (finished i o s t ∷ es) p changed h = cc
  drain-quiet (failed m ∷ es) p changed h = cc

  poll-drain :
      (es : List BackupEvent) (live : ℕ) (p : BackupProgress G)
      → ((poll es live p).0.status ≡ (drain es p false).0.status)
        × ((poll es live p).1 ≡ (drain es p false).1)
  unfolding poll
  poll-drain es live p =
      elim (not (live == (drain es p false).0.bytes_out))
        as (λ b.
          ((if b
              then (
                (record ((drain es p false).0) { bytes_out = live }),
                (drain es p false).1,
                true,
              )
              else drain es p false).0.status
            ≡ (drain es p false).0.status)
          × ((if b
                then (
                  (record ((drain es p false).0) { bytes_out = live }),
                  (drain es p false).1,
                  true,
                )
                else drain es p false).1
              ≡ (drain es p false).1)) [ true ↦ (refl, refl) | false ↦ (refl, refl) ]

  apply-settled : (e : BackupEvent) (p : BackupProgress G) → (apply e p).status ≡ settled e p.status
  unfolding apply
  apply-settled (started n) p = refl
  apply-settled (tick i o f g) p = refl
  apply-settled (finished i o s t) p = refl
  apply-settled (failed m) p = refl

  poll_quiet :
      (es : List BackupEvent) (live : ℕ) (p : BackupProgress G)
      → any is_last es ≡ false
      → ((poll es live p).0.status ≡ p.status) × ((poll es live p).1 ≡ [])
  poll_quiet es live p h =
      let (s, l) = poll-drain es live p in
      let (s', l') = drain-quiet es p false h in (s ∙ s', l ∙ l')

  poll_last :
      (before : List BackupEvent) (e : BackupEvent) (live : ℕ) (p : BackupProgress G)
      → any is_last before ≡ false
      → is_last e ≡ true
      → ((poll (before ++ e ∷ []) live p).0.status ≡ settled e p.status)
        × ((poll (before ++ e ∷ []) live p).1 ≡ [])
  poll_last before e live p h k =
      let (s, l) = poll-drain (before ++ e ∷ []) live p in
      let all = drain_append before e [] p false h k in
      (
        s
            ∙ ap (λ x. x.0.status) all
            ∙ apply-settled e (applied before p)
            ∙ ap (settled e) (applied-status before p h),
        l ∙ ap (λ x. x.1) all,
      )

  polls_quiet :
      (arrivals : List (List BackupEvent × ℕ)) (p : BackupProgress G)
      → any is_last (received arrivals) ≡ false
      → (polls [] arrivals p).status ≡ p.status
  unfolding polls
  polls_quiet [] p h = refl
  polls_quiet ((batch, live) ∷ arrivals) p h =
      let (h1, h2) = any-false batch (received arrivals) h in
      let (s, l) = poll_quiet batch live p h1 in
      ap (λ x. (polls x arrivals (poll batch live p).0).status) l
      ∙ polls_quiet arrivals (poll batch live p).0 h2
      ∙ s

  -- Once all events have come, of which the last one ends the session, the status is the one that it
  -- leaves, however the events fall into polls.
  pub polls-settled :
      (arrivals : List (List BackupEvent × ℕ)) (before : List BackupEvent) (e : BackupEvent)
      (p : BackupProgress G)
      → any is_last before ≡ false
      → is_last e ≡ true
      → received arrivals ≡ before ++ e ∷ []
      → (polls [] arrivals p).status ≡ settled e p.status
  unfolding polls
  polls-settled [] [] e p h k r = cc
  polls-settled [] (x ∷ before) e p h k r = cc
  polls-settled ((batch, live) ∷ arrivals) before e p h k r =
      elim (batch_cases batch (received arrivals) before e r) [
        | inl (before', b, l) ↦
            let (h1, h2) = any-false batch before' (subst (λ x. any is_last x ≡ false) b h) in
            let (s, left) = poll_quiet batch live p h1 in
            ap (λ x. (polls x arrivals (poll batch live p).0).status) left
            ∙ polls-settled arrivals before' e (poll batch live p).0 h2 k l
            ∙ ap (settled e) s
        | inr (b, l) ↦
            let (s, left) = poll_last before e live p h k in
            ap (λ x. (polls (poll x live p).1 arrivals (poll x live p).0).status) b
            ∙ ap (λ x. (polls x arrivals (poll (before ++ e ∷ []) live p).0).status) left
            ∙ polls_quiet arrivals (poll (before ++ e ∷ []) live p).0 (ap (any is_last) l)
            ∙ s
      ]
