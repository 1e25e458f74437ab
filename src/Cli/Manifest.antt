-- ===== src/Cli/Manifest.antt =====
-- What the manifest that `run_backup` of crates/tekflash/src/cli.rs writes says of the image.
use tekflash.Common.{
  ℕ, ◌<◌, ◌≡◌, ◌∙◌, sym, ap, Bool, List, [], ◌++◌, append-nil, Option, some, Result, ok, Text,
  >>=-eq-ok, length, arith, inl, inr, ok_inj,
}
use tekflash.Pipeline.Compress.{encoder}
use tekflash.Pipeline.Copy.{copy}
use tekflash.Pipeline.Copy.Prefix.{Stopped, copy-Moved}
use tekflash.Pipeline.Hasher.{HashCrates, Streams, blake3, finalize_hex, digest}
use tekflash.Pipeline.Reader.{ReadLaws}
use tekflash.Pipeline.Writer.{WriteLaws}
use tekflash.Runner.Backup.{BackupHost}
use tekflash.Runner.Worker.{IoError}
use tekflash.Cli.{with_io}
use tekflash.Cli.Choices.{codec_of}
use tekflash.Cli.Run.{looped, with_io_eq_ok, looped_eq_ok}
use tekflash.Cli.Backup.{
  Surroundings, BackupOpts, BackedUp, Loop, start, cli_buf, no_error, silent, image_of, manifest_of,
  backup_to,
}

module _ (c : HashCrates) (streams : Streams c) (host : BackupHost) (env : Surroundings)
    (open_for_read : Text → Result IoError host.source.State)
    (create : Text → Result IoError host.File) (bytes_out_of : host.sink.State → ℕ) (fuel : ℕ)
    (rest : host.source.State → List ℕ) (reads : ReadLaws host.source rest)
    (content : host.sink.State → List ℕ) (writes : WriteLaws host.sink content)
    (drops : (s : host.sink.State) → content (host.drop_encoder s) ≡ content s) where
  abbrev Here : Type 0
  Here = Loop c host env open_for_read create bytes_out_of fuel

  abbrev want : ℕ → Option ℕ
  want = cli_buf c host env open_for_read create bytes_out_of fuel

  abbrev forgiven : IoError → ℕ → Bool
  forgiven = no_error c host env open_for_read create bytes_out_of fuel

  want-some : (n m : ℕ) → want n ≡ some m → 0 < m
  want-some n m h = ground arith

  at_end :
      (st : Here)
      → Stopped c streams host.source rest reads host.sink content writes want forgiven want-some
          (λ n. Unit)
          (λ n m k p e le. tt)
          st
      → rest st.src ≡ []
  at_end st (inl h) = cc
  at_end st (inr (inl h)) = h
  at_end st (inr (inr (n, e, o, f, h))) = cc

  -- The source is in the image, whole, and the manifest counts and hashes it.
  abbrev pub Described : host.source.State → host.sink.State → BackedUp host.sink.State → Type 0
  Described src dst b =
      (content b.image ≡ content dst ++ rest src)
      × (b.manifest.hash_hex ≡ digest c blake3 (rest src))
      × (b.manifest.bytes_in ≡ length (rest src))
      × (b.manifest.source.size_bytes ≡ length (rest src))
      × (b.manifest.bytes_out ≡ bytes_out_of b.image)

  loop-Described :
      (opts : BackupOpts) (output : Text) (src : host.source.State) (dst : host.sink.State)
      (st : Here) (b : BackedUp host.sink.State)
      → (copy c host.source host.sink want forgiven
          (silent c host env open_for_read create bytes_out_of fuel)
          fuel
          (start c host env open_for_read create bytes_out_of fuel src dst)
          []).1
        ≡ ok st
      → image_of c host env open_for_read create bytes_out_of fuel opts output st ≡ b
      → Described src dst b
  unfolding manifest_of digest
  loop-Described opts output src dst st b h e =
      let ((bytes, s, d, u, n, p), stop) =
        copy-Moved c streams host.source rest reads host.sink content writes want forgiven want-some
          (λ n. Unit) (λ n m k p e le. tt)
          (silent c host env open_for_read create bytes_out_of fuel) fuel
          (start c host env open_for_read create bytes_out_of fuel src dst) st [] h in
      let all : rest src ≡ bytes = s ∙ ap (λ x. bytes ++ x) (at_end st stop) ∙ append-nil bytes in
      let count : st.bytes_in ≡ length (rest src) = omega (arith, n, ap length all) in
      (
        ap (λ x. content x.image) (sym e) ∙ drops st.dst ∙ d ∙ ap (λ x. content dst ++ x) (sym all),
        ap (λ x. x.manifest.hash_hex) (sym e)
            ∙ ap (finalize_hex c) u
            ∙ ap (digest c blake3) (sym all),
        ap (λ x. x.manifest.bytes_in) (sym e) ∙ count,
        ap (λ x. x.manifest.source.size_bytes) (sym e) ∙ count,
        ap (λ x. x.manifest.bytes_out) (sym e) ∙ ap (λ x. bytes_out_of x.image) e,
      )

  -- When the command backup returns, the image has the whole source behind what its encoder had been
  -- given before, and the manifest has the source's hash, its length twice and the image's length.
  pub backup_to-Described :
      (opts : BackupOpts) (output : Text) (b : BackedUp host.sink.State)
      → backup_to c host env open_for_read create bytes_out_of fuel opts output ≡ ok b
      → (src : host.source.State) × (file : host.File) × (dst : host.sink.State) × (open_for_read
            opts.source
          ≡ ok src)
        × (create output ≡ ok file)
        × (host.encode (encoder (codec_of opts.codec) (record { level = opts.level })) file
            ≡ ok dst)
        × Described src dst b
  unfolding backup_to
  backup_to-Described opts output b h =
      let (src, o, h1) = >>=-eq-ok (with_io (open_for_read opts.source)) _ h in
      let (file, p, h2) = >>=-eq-ok (with_io (create output)) _ h1 in
      let (dst, q, h3) =
        >>=-eq-ok
          (with_io
            (host.encode (encoder (codec_of opts.codec) (record { level = opts.level })) file))
          _ h2 in
      let (st, k, h4) =
        >>=-eq-ok
          (looped
            (copy c host.source host.sink want forgiven
              (silent c host env open_for_read create bytes_out_of fuel) fuel
              (start c host env open_for_read create bytes_out_of fuel src dst) []).1)
          _ h3 in
      let made = host.encode (encoder (codec_of opts.codec) (record { level = opts.level })) file in
      (
        src,
        file,
        dst,
        with_io_eq_ok (open_for_read opts.source) o,
        with_io_eq_ok (create output) p,
        with_io_eq_ok made q,
        loop-Described opts output src dst st b (looped_eq_ok _ k) (ok_inj h4),
      )
