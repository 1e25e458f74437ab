-- ===== src/Pipeline/Crypto/Envelope.antt =====
-- The envelope that `encrypt_password` writes, parsed by `decrypt_password` and by `detect`.
use tekflash.Common.{
  append-nil, zero, starts_with, ℕ, suc, ◌+◌, ◌^◌, ◌<◌, ◌≡◌, refl, sym, ap, ◌∙◌, true, false, [],
  ◌++◌, ltb, text_eq, length, take, drop, take-append, drop-append, length-append, arith, ok,
  ok_inj, ◌>>=◌, >>=-eq-ok, to_le_bytes, from_le_bytes, from_le_bytes-to_le_bytes,
}
use tekflash.Pipeline.Format.{detect, encrypted}
use tekflash.Pipeline.Format.Magic.{detect_iff}
use tekflash.Pipeline.Crypto.{
  magic, Bytes, Primitives, PasswordParams, header, derive_key, seal_frames, open_frames,
  encrypt_password, decrypt_password, frame_size_log2,
}
use tekflash.Pipeline.Crypto.RoundTrip.{CipherLaws, open_frames-seal_frames}

-- Every Argon2 parameter is a u32.
pub record FitsU32 (params : PasswordParams) : Type 0 where
  pub m_fits : params.m_kib < 2 ^ 32
  pub t_fits : params.t < 2 ^ 32
  pub p_fits : params.p < 2 ^ 32

begins :
    (params : PasswordParams) (salt frames : Bytes)
    → starts_with (header params salt ++ frames) magic ≡ true
unfolding header starts_with
begins params salt frames = refl

detect-header :
    (params : PasswordParams) (salt frames : Bytes)
    → detect (header params salt ++ frames) ≡ encrypted
detect-header params salt frames =
    (detect_iff (header params salt ++ frames) encrypted refl).1 (begins params salt frames)

long_enough : (n k : ℕ) → n ≡ 40 + k → ltb n 40 ≡ false
long_enough n k h = ground arith

module _ (params : PasswordParams) (salt frames : Bytes) (sixteen : length salt ≡ 16) where
  header_fields :
      (length (header params salt ++ frames) ≡ 40 + length frames)
      × (drop 40 (header params salt ++ frames) ≡ frames)
      × (take 16 (drop 24 (header params salt ++ frames)) ≡ salt)
  unfolding header to_le_bytes
  header_fields = (
    omega (arith, length-append salt frames),
    drop-append salt frames 16 sixteen,
    take-append salt frames 16 sixteen,
  )

length-header :
    (params : PasswordParams) (salt : Bytes) → length salt ≡ 16 → length (header params salt) ≡ 40
unfolding header to_le_bytes
length-header params salt sixteen = omega arith

module _ (prims : Primitives) where
  -- What is left of `decrypt_password` behind the header that was written.
  pub decrypt_password-header :
      (password : Bytes) (params : PasswordParams) (salt frames : Bytes)
      → FitsU32 params
      → length salt ≡ 16
      → decrypt_password prims password (header params salt ++ frames) ≡ (do
        key ← derive_key prims password salt params
        open_frames prims (40 + length frames) key (2 ^ frame_size_log2) 0 frames)
  unfolding decrypt_password header to_le_bytes from_le_bytes text_eq
  decrypt_password-header password params salt frames fits sixteen =
      let (len, body, salt_eq) = header_fields params salt frames sixteen in
      let long : ltb (length (header params salt ++ frames)) 40 ≡ false =
        long_enough (length (header params salt ++ frames)) (length frames) len in
      rw (
        long,
        len,
        body,
        salt_eq,
        from_le_bytes-to_le_bytes 4 params.m_kib fits.m_fits,
        from_le_bytes-to_le_bytes 4 params.t fits.t_fits,
        from_le_bytes-to_le_bytes 4 params.p fits.p_fits,
      )

  -- Whatever was sealed under a password and a salt is opened by that password.
  pub decrypt_password-encrypt_password :
      CipherLaws prims
      → (password : Bytes) (params : PasswordParams) (salt plaintext envelope : Bytes)
      → FitsU32 params
      → length salt ≡ 16
      → encrypt_password prims password params salt plaintext ≡ ok envelope
      → decrypt_password prims password envelope ≡ ok plaintext
  unfolding encrypt_password
  decrypt_password-encrypt_password laws password params salt plaintext envelope fits sixteen h =
      let (key, k, h') = >>=-eq-ok (derive_key prims password salt params) _ h in
      let (frames, s, e) = >>=-eq-ok (seal_frames prims (length plaintext) key 0 plaintext) _ h' in
      rw (sym (ok_inj e), decrypt_password-header password params salt frames fits sixteen, k)
        (open_frames-seal_frames prims laws (length plaintext) (40 + length frames) key 0 plaintext
          frames s (omega arith))

  open_empty : (fuel : ℕ) (key : prims.Key) (fs : ℕ) → open_frames prims fuel key fs 0 [] ≡ ok []
  unfolding open_frames
  open_empty zero key fs = refl
  open_empty (suc fuel) key fs = refl

  header_only :
      (params : PasswordParams) (salt frames : Bytes)
      → length salt ≡ 16
      → take 40 (header params salt ++ frames) ≡ header params salt
  header_only params salt frames sixteen =
      take-append (header params salt) frames 40 (length-header params salt sixteen)

  -- An envelope cut off right behind its header opens, under any password that Argon2 takes, to an
  -- empty payload: no frame is left that could fail to authenticate.
  pub decrypt_password-cut_envelope :
      (right wrong : Bytes) (params : PasswordParams) (salt plaintext envelope : Bytes)
      (key : prims.Key)
      → FitsU32 params
      → length salt ≡ 16
      → encrypt_password prims right params salt plaintext ≡ ok envelope
      → derive_key prims wrong salt params ≡ ok key
      → decrypt_password prims wrong (take 40 envelope) ≡ ok []
  unfolding encrypt_password
  decrypt_password-cut_envelope right wrong params salt plaintext envelope key fits sixteen h k =
      let (made, _, h') = >>=-eq-ok (derive_key prims right salt params) _ h in
      let (frames, _, e) = >>=-eq-ok (seal_frames prims (length plaintext) made 0 plaintext) _ h' in
      rw
        (
          ← ok_inj e,
          header_only params salt frames sixteen,
          ← append-nil (header params salt),
          decrypt_password-header wrong params salt [] fits sixteen,
          k,
        )
        (open_empty 40 key _)

  -- What was sealed is recognised by its first bytes.
  pub detect-encrypt_password :
      (password : Bytes) (params : PasswordParams) (salt plaintext envelope : Bytes)
      → encrypt_password prims password params salt plaintext ≡ ok envelope
      → detect envelope ≡ encrypted
  unfolding encrypt_password
  detect-encrypt_password password params salt plaintext envelope h =
      let (made, _, h') = >>=-eq-ok (derive_key prims password salt params) _ h in
      let (frames, _, e) = >>=-eq-ok (seal_frames prims (length plaintext) made 0 plaintext) _ h' in
      ap detect (sym (ok_inj e)) ∙ detect-header params salt frames
