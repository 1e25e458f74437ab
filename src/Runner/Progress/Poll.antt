-- ===== src/Runner/Progress/Poll.antt =====
-- What `poll` of crates/tekflash/src/tui/progress_runner.rs makes of the events that wait.
use tekflash.Common.{ℕ, ◌≡◌, Bool, true, false, not, List, [], ◌∷◌, ◌++◌, arith, any}
use tekflash.Runner.Progress.{BackupEvent, BackupProgress, apply, is_last, is_running, drain, poll}

module _ {G : Type 0} where
  -- The events in order.
  unfoldable pub applied : List BackupEvent → BackupProgress G → BackupProgress G
  unfolding apply
  applied [] p = p
  applied (e ∷ es) p = applied es (apply e p)

  -- The loop applies the events in order through the first that ends the session, and leaves those
  -- behind it in the channel.
  pub drain_append :
      (before : List BackupEvent) (e : BackupEvent) (behind : List BackupEvent)
      (p : BackupProgress G) (changed : Bool)
      → any is_last before ≡ false
      → is_last e ≡ true
      → drain (before ++ e ∷ behind) p changed ≡ (apply e (applied before p), behind, true)
  unfolding drain applied
  drain_append [] e behind p changed h he = ground arith
  drain_append (b ∷ bs) e behind p changed h he =
      ground (arith, drain_append bs e behind (apply b p) true)

  apply-is_running :
      (e : BackupEvent) (p : BackupProgress G)
      → is_running p ≡ true
      → is_running (apply e p) ≡ not (is_last e)
  unfolding apply is_running
  apply-is_running e p h = ground arith

  drain-is_running :
      (es : List BackupEvent) (p : BackupProgress G) (changed : Bool)
      → is_running p ≡ true
      → is_running (drain es p changed).0 ≡ not (any is_last es)
  unfolding drain
  drain-is_running [] p changed h = h
  drain-is_running (e ∷ es) p changed h =
      ground (arith, apply-is_running e p h, drain-is_running es (apply e p) true)

  -- A running session is running after `poll` exactly when no event that ends it was waiting, and it
  -- shows the value of the live counter as the bytes written.
  pub poll_lem :
      (es : List BackupEvent) (live : ℕ) (p : BackupProgress G)
      → is_running p ≡ true
      → (is_running (poll es live p).0 ≡ not (any is_last es))
        × ((poll es live p).0.bytes_out ≡ live)
  unfolding poll is_running
  poll_lem es live p h = ground (arith, drain-is_running es p false h)
