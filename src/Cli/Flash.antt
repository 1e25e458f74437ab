-- ===== src/Cli/Flash.antt =====
-- What `run_flash` of crates/tekflash/src/cli.rs has written when it comes to its end.
pub mod Optional
use tekflash.Common.{
  ℕ, ◌<◌, ◌≡◌, ◌∙◌, refl, sym, ap, Bool, true, false, List, [], ◌∷◌, ◌++◌, append-nil, Option, none,
  some, Result, ok, err, Text, >>=-eq-ok, arith, inl, inr, ok_inj,
}
use tekflash.Pipeline.Compress.{Codec, decoder}
use tekflash.Pipeline.Copy.{CopyError, Copying, copy}
use tekflash.Pipeline.Copy.Prefix.{Stopped, copy-Moved}
use tekflash.Pipeline.Hasher.{HashCrates, Streams, blake3, finalize_hex, digest}
use tekflash.Pipeline.Reader.{ReadLaws}
use tekflash.Pipeline.Writer.{WriteLaws}
use tekflash.Pipeline.Hasher.{new as new_hasher}
use tekflash.Cli.{Ended, CliError, FlashOpts, CliHost, with_io, optional, some_state}
use tekflash.Cli.Flash.Optional.{present, present_result, tick_present, copy-present}
use tekflash.Cli.Run.{
  Loop, looped, with_io_eq_ok, looped_eq_ok, cli_buf, no_error, silent, start, target_of,
  source_codec, verify_flash, flash_to, run_flash,
}

some_state_eq_ok :
    {E S : Type 0} (res : Result E S) {o : Option S}
    → some_state res ≡ ok o
    → (s : S) × (res ≡ ok s) × (o ≡ some s)
some_state_eq_ok (err e) h = cc
some_state_eq_ok (ok s) h = (s, refl, sym (ok_inj h))

module _ {E : Type 0} (c : HashCrates) (streams : Streams c) (host : CliHost E) (fuel : ℕ)
    (out : host.decoded.State → List ℕ) (reads : ReadLaws host.decoded out)
    (content : host.device.State → List ℕ) (writes : WriteLaws host.device content) where
  abbrev want : ℕ → Option ℕ
  want = cli_buf c host fuel

  abbrev forgiven : E → ℕ → Bool
  forgiven = no_error c host fuel

  want-some : (n m : ℕ) → want n ≡ some m → 0 < m
  want-some n m h = ground arith

  -- What the copy has left on the device and in the hasher.
  abbrev Copied : host.decoded.State → host.device.State → Loop c host fuel → Type 0
  Copied reader dst st =
      (last : host.device.State) × (st.dst ≡ some last)
      × (content last ≡ content dst ++ out reader)
      × (finalize_hex c st.hasher ≡ digest c blake3 (out reader))

  abbrev Direct : Type 0
  Direct = Copying c host.decoded host.device

  abbrev begun : host.decoded.State → host.device.State → Direct
  begun reader dst = record { src = reader; dst = dst; hasher = new_hasher c blake3; bytes_in = 0 }

  abbrev direct_tick : Direct → Option (Unit {0})
  direct_tick st = none

  present_result_eq_ok :
      (res : Result (CopyError E) Direct) {st : Loop c host fuel}
      → present_result c host.decoded host.device want forgiven res ≡ ok st
      → (u : Direct) × (res ≡ ok u) × (present c host.decoded host.device want forgiven u ≡ st)
  present_result_eq_ok (err e) h = cc
  present_result_eq_ok (ok u) h = (u, refl, ok_inj h)

  at_end :
      (st : Direct)
      → Stopped c streams host.decoded out reads host.device content writes want forgiven want-some
          (λ n. Unit)
          (λ n m k p e le. tt)
          st
      → out st.src ≡ []
  at_end st (inl h) = cc
  at_end st (inr (inl h)) = h
  at_end st (inr (inr (n, e, o, f, h))) = cc

  loop-Copied :
      (reader : host.decoded.State) (dst : host.device.State) (st : Loop c host fuel)
      → (copy c host.decoded
          (optional host.device)
          want
          forgiven
          (silent c host fuel)
          fuel
          (start c host fuel reader (some dst))
          []).1
        ≡ ok st
      → Copied reader dst st
  unfolding digest
  loop-Copied reader dst st h =
      let same =
        copy-present c host.decoded host.device want forgiven (silent c host fuel) fuel
          (begun reader dst) [] in
      let (u, e, p) = present_result_eq_ok _ (sym same ∙ h) in
      let ((bytes, s, w, hashed, n, q), stop) =
        copy-Moved c streams host.decoded out reads host.device content writes want forgiven
          want-some (λ n. Unit) (λ n m k p e le. tt) direct_tick fuel (begun reader dst) u [] e in
      let all : out reader ≡ bytes = s ∙ ap (λ x. bytes ++ x) (at_end u stop) ∙ append-nil bytes in
      (
        u.dst,
        ap (λ x. x.dst) (sym p),
        w ∙ ap (λ x. content dst ++ x) (sym all),
        ap (λ x. finalize_hex c x.hasher) (sym p)
            ∙ ap (finalize_hex c) hashed
            ∙ ap (digest c blake3) (sym all),
      )

  target-opened :
      (dry : Bool) (target : Text) (o : Option host.device.State)
      → dry ≡ false
      → target_of c host fuel dry target ≡ ok o
      → (s : host.device.State) × (host.open_write target ≡ ok s) × (o ≡ some s)
  target-opened true target o h e = cc
  target-opened false target o h e = some_state_eq_ok (host.open_write target) (with_io_eq_ok _ e)

  abbrev run_loop :
      host.decoded.State → Option host.device.State → Result (CopyError E) (Loop c host fuel)
  run_loop reader o =
      (copy c host.decoded (optional host.device) want forgiven (silent c host fuel) fuel
        (start c host fuel reader o) []).1

  -- A flash that is no dry run and comes to its end has written the whole decoded image, and what is
  -- left of it is the verification, which is given the image's own hash.
  pub flash_to-Written :
      (opts : FlashOpts) (source target : Text) (ended : Ended)
      → opts.dry_run ≡ false
      → flash_to c host fuel opts source target ≡ ok ended
      → (codec : Codec) × (src : host.file.State) × (reader : host.decoded.State)
        × (dst : host.device.State) × (last : host.device.State) × (source_codec c host fuel source
            ≡ ok codec)
        × (host.open_file source ≡ ok src)
        × (host.decode (decoder codec) src ≡ ok reader)
        × (host.open_write target ≡ ok dst)
        × (content last ≡ content dst ++ out reader)
        × (verify_flash c host fuel opts target (some last) (digest c blake3 (out reader))
            ≡ ok ended)
  unfolding flash_to
  flash_to-Written opts source target ended wet h =
      let (codec, e1, h1) = >>=-eq-ok (source_codec c host fuel source) _ h in
      let (src, e2, h2) = >>=-eq-ok (with_io (host.open_file source)) _ h1 in
      let (reader, e3, h3) = >>=-eq-ok (with_io (host.decode (decoder codec) src)) _ h2 in
      let (o, e4, h4) = >>=-eq-ok (target_of c host fuel opts.dry_run target) _ h3 in
      let (dst, opened, is_dst) = target-opened opts.dry_run target o wet e4 in
      let (st, e5, h5) = >>=-eq-ok (looped (run_loop reader o)) _ h4 in
      let (last, is_last, written, hashed) =
        loop-Copied reader dst st (ap (run_loop reader) (sym is_dst) ∙ looped_eq_ok _ e5) in
      let (after, e6, h6) = >>=-eq-ok (with_io ((optional host.device).flush st.dst)) _ h5 in
      let (flushed, kept, is_flushed) =
        some_state_eq_ok (host.device.flush last)
          (ap (optional host.device).flush (sym is_last) ∙ with_io_eq_ok _ e6) in
      (
        codec,
        src,
        reader,
        dst,
        flushed,
        e1,
        with_io_eq_ok _ e2,
        with_io_eq_ok _ e3,
        opened,
        writes.keeps last flushed kept ∙ written,
        ap (λ x. verify_flash c host fuel opts target x (digest c blake3 (out reader)))
              (sym is_flushed)
            ∙ ap (verify_flash c host fuel opts target after) (sym hashed)
            ∙ h6,
      )
