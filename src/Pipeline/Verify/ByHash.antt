-- ===== src/Pipeline/Verify/ByHash.antt =====
-- `verify_full_by_hash` reads the whole device, whatever was written to it.
use tekflash.Common.{
  ℕ, zero, suc, ◌+◌, ◌≤◌, ◌<◌, ◌≡◌, ◌↔◌, refl, sym, ap, ◌∙◌, Bool, true, false, List, [], ◌∷◌, ◌++◌,
  none, some, Text, length, drop, drop_all, length-drop, length-append, append-nil, Result, ok,
  arith, if◌then◌else◌, text_eq_refl, to_ascii_lowercase,
}
use tekflash.Pipeline.Hasher.{
  HashKind, HashCrates, Hasher, Streams, new, update, digest, update_nil, update-append,
}
use tekflash.Pipeline.Reader.{Reader, ReadLaws, Infallible}
use tekflash.Pipeline.Verify.{
  VerifyOutcome, VerifyError, buffer_size, hash_device, verify_full_by_hash, eq_ignore_ascii_case,
}

module _ {E : Type 0} (c : HashCrates) (streams : Streams c) (device : Reader E)
    (rest : device.State → List ℕ) (laws : ReadLaws device rest) (total : Infallible device)
    (cap : ℕ) (pos : 0 < cap) where
  Hashed : Hasher c → ℕ → device.State → Result (VerifyError E) (Hasher c × ℕ) → Type 0
  Hashed h offset d r = r ≡ ok (update c h (rest d), offset + length (rest d))

  hash_step :
      (fuel offset : ℕ) (h : Hasher c) (d d' : device.State) (chunk : List ℕ)
      → device.read d cap ≡ ok (chunk, d')
      → (0 < length chunk
          → hash_device c device cap fuel (update c h chunk) (offset + length chunk) d'
            ≡ ok (update c (update c h chunk) (rest d'), offset + length chunk + length (rest d')))
      → hash_device c device cap (suc fuel) h offset d
        ≡ ok (update c h (rest d), offset + length (rest d))
  unfolding hash_device
  hash_step fuel offset h d d' [] e ih =
      let ended = laws.at_end d d' cap pos e in
      rw (e, hash_device, ended, update_nil c streams h) (ground arith)
  hash_step fuel offset h d d' (b ∷ bs) e ih =
      let split = laws.piece d d' cap (b ∷ bs) e in
      rw (e, hash_device, ih (omega arith), update-append c streams h (b ∷ bs) (rest d'), split)
        (ground (arith, length-append bs (rest d')))

  pub hash_device_lem :
      (fuel offset : ℕ) (h : Hasher c) (d : device.State)
      → length (rest d) < fuel
      → hash_device c device cap fuel h offset d
        ≡ ok (update c h (rest d), offset + length (rest d))
  hash_device_lem zero offset h d le = absurd (omega arith)
  hash_device_lem (suc fuel) offset h d le =
      let ((chunk, d'), e) = total.succeeds d cap in
      let split = laws.piece d d' cap chunk e in
      hash_step fuel offset h d d' chunk e λ some_left.
        hash_device_lem fuel (offset + length chunk) (update c h chunk) d'
          (omega (arith, ap length split, length-append chunk (rest d')))

-- What a device holds after an image was written over its start.
abbrev pub overwritten : List ℕ → List ℕ → List ℕ
overwritten image old = image ++ drop (length image) old

tail_empty : (image old : List ℕ) → image ≡ overwritten image old → length old ≤ length image
tail_empty image old e = omega (
  arith,
  ap length e,
  length-append image (drop (length image) old),
  length-drop (length image) old,
)

same_digest : (t : Text) → eq_ignore_ascii_case t t ≡ true
unfolding eq_ignore_ascii_case
same_digest t = text_eq_refl (to_ascii_lowercase t)

-- The outcome of a pass, from its verdict and its count.
abbrev outcome : Bool → ℕ → VerifyOutcome
outcome passed count = record {
  passed = passed;
  bytes_read = count;
  first_mismatch_offset = if passed then none else some 0;
}

offset_iff : (b : Bool) → ((outcome b 0).first_mismatch_offset ≡ none) ↔ (b ≡ true)
offset_iff true = (λ _. refl, λ _. refl)
offset_iff false = (λ h. cc, λ h. cc)

module _ {E : Type 0} (c : HashCrates) (streams : Streams c) (device : Reader E)
    (rest : device.State → List ℕ) (laws : ReadLaws device rest) (total : Infallible device) where
  -- On a device that reads without failing the pass comes to an end once the fuel exceeds the device.
  -- It has then read all of the device, and passes exactly when the digest of all of it is the
  -- expected one, up to the case of the digits.
  pub verify_full_by_hash_lem :
      (fuel : ℕ) (d : device.State) (expected : Text) (kind : HashKind)
      → length (rest d) < fuel
      → (o : VerifyOutcome) × (verify_full_by_hash c device buffer_size fuel d expected kind ≡ ok o)
        × (o.passed ≡ eq_ignore_ascii_case (digest c kind (rest d)) expected)
        × (o.bytes_read ≡ length (rest d))
        × ((o.first_mismatch_offset ≡ none) ↔ (o.passed ≡ true))
  unfolding verify_full_by_hash digest
  verify_full_by_hash_lem fuel d expected kind h = (
    outcome (eq_ignore_ascii_case (digest c kind (rest d)) expected) (length (rest d)),
    rw
        (hash_device_lem c streams device rest laws total buffer_size (omega arith) fuel 0
          (new c kind) d h)
        (let e : 0 + length (rest d) ≡ length (rest d) = omega arith in rw e),
    refl,
    refl,
    offset_iff _,
  )

  -- When the digest of an image is compared with that of the whole device that the image was
  -- written over, and the two do not collide, the pass succeeds exactly when the image is as long
  -- as the device: behind a faultless write of a shorter image it fails.
  pub verify_full_by_hash-overwritten :
      (fuel : ℕ) (kind : HashKind) (d : device.State) (image old : List ℕ)
      → rest d ≡ overwritten image old
      → (eq_ignore_ascii_case (digest c kind (rest d)) (digest c kind image) ≡ true
          → rest d ≡ image)
      → length (rest d) < fuel
      → (o : VerifyOutcome) × (verify_full_by_hash c device buffer_size fuel d
            (digest c kind image)
            kind
          ≡ ok o)
        × ((o.passed ≡ true) ↔ (length old ≤ length image))
  verify_full_by_hash-overwritten fuel kind d image old e distinct h =
      let (o, r, passed, _, _) = verify_full_by_hash_lem fuel d (digest c kind image) kind h in
      (
        o,
        r,
        (
          λ p. tail_empty image old (sym (distinct (sym passed ∙ p)) ∙ e),
          λ le.
              passed
              ∙ rw (e, drop_all (length image) old le, append-nil image)
                  (same_digest (digest c kind image)),
        ),
      )
