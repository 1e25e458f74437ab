-- ===== src/Cli/Verify.antt =====
-- What the command verify of crates/tekflash/src/cli.rs finds.
use tekflash.Common.{
  ℕ, ◌<◌, ◌≡◌, ◌∙◌, ◌↔◌, ◌⊎◌, inl, inr, refl, sym, ap, subst, Bool, true, false, List, none, some,
  length, Result, ok, Text, ◌>>=◌, if◌then◌else◌,
}
use tekflash.Pipeline.Hasher.{HashCrates}
use tekflash.Pipeline.Reader.{ReadLaws, Infallible}
use tekflash.Pipeline.Verify.{verify_full, buffer_size}
use tekflash.Pipeline.Verify.Full.{verify_full_iff}
use tekflash.Cli.{Ended, returned, exit, CliError, VerifyOpts, CliHost, with_io}
use tekflash.Cli.Run.{run_verify, checked, compared, against_of}

module _ {E : Type 0} (c : HashCrates) (host : CliHost E) (rest_s : host.file.State → List ℕ)
    (laws_s : ReadLaws host.file rest_s) (total_s : Infallible host.file)
    (rest_d : host.reread.State → List ℕ) (laws_d : ReadLaws host.reread rest_d)
    (total_d : Infallible host.reread) (fuel : ℕ) where
  -- The end of the command: it returns, or exits with code 1, and returns exactly on equal streams.
  abbrev Verdict : Result (CliError E) Ended → List ℕ → List ℕ → Type 0
  Verdict res a b =
      (e : Ended) × (res ≡ ok e) × ((e ≡ returned) ⊎ (e ≡ exit 1)) × ((e ≡ returned) ↔ (a ≡ b))

  passed-Verdict :
      (passed : Bool) (a b : List ℕ)
      → ((passed ≡ true) ↔ (a ≡ b))
      → Verdict (if passed then ok returned else ok (exit 1)) a b
  passed-Verdict true a b h = (returned, refl, inl refl, (λ e. h.0 refl, λ e. refl))
  passed-Verdict false a b h = (exit 1, refl, inr refl, (λ e. cc, λ e. absurd cc (h.1 e)))

  -- With a file to compare against, or else a manifest, that opens like the device, and where no read
  -- fails, the command comes to an end once the fuel exceeds that file: it returns when the device
  -- holds exactly the bytes of that file, and exits with code 1 otherwise. A manifest is compared as
  -- the bytes that it consists of.
  pub run_verify_iff :
      (opts : VerifyOpts) (against : Text) (s : host.file.State) (d : host.reread.State)
      → against_of c host fuel opts.against opts.manifest ≡ some against
      → host.open_file against ≡ ok s
      → host.reopened opts.device none ≡ ok d
      → length (rest_s s) < fuel
      → (e : Ended) × (run_verify c host fuel opts ≡ ok e)
        × ((e ≡ returned) ⊎ (e ≡ exit 1))
        × ((e ≡ returned) ↔ (rest_s s ≡ rest_d d))
  unfolding run_verify
  run_verify_iff opts against s d a o p lt =
      let (outcome, ran, iff, count, first) =
        verify_full_iff host.file rest_s laws_s total_s host.reread rest_d laws_d total_d fuel s d
          lt in
      let result : run_verify c host fuel opts
          ≡ (if outcome.passed then ok returned else ok (exit 1)) =
        ap (compared c host fuel opts.device) a
        ∙ ap
            (λ f. with_io f >>= λ source. with_io (host.reopened opts.device none) >>= λ x.
              checked (verify_full host.file host.reread buffer_size fuel 0 source x))
            o
        ∙ ap
            (λ f.
              with_io f >>= λ x. checked (verify_full host.file host.reread buffer_size fuel 0 s x))
            p
        ∙ ap checked ran in
      subst (λ x. Verdict x (rest_s s) (rest_d d)) (sym result)
        (passed-Verdict outcome.passed (rest_s s) (rest_d d) iff)
