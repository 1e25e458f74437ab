-- ===== src/Pipeline/Crypto.antt =====
-- crates/tekflash-core/src/pipeline/crypto.rs. Argon2id and ChaCha20-Poly1305 are other crates' and
-- come as `Primitives`; the random salt is an argument. `usize` has 64 bits, and a shift by more is
-- taken modulo 64, as a release build does it.
pub mod RoundTrip
pub mod Envelope
use tekflash.Common.{
  ℕ, zero, suc, ◌+◌, ◌-◌, ◌^◌, ◌%◌, Bool, true, false, not, ◌||◌, List, [], ◌∷◌, ◌++◌, Text, codes,
  text_eq, ◌==◌, ltb, leb, if◌then◌else◌, length, get_or, take, drop, to_le_bytes, from_le_bytes,
  Result, ok, err, ◌>>=◌,
}

abbrev pub Bytes : Type 0
Bytes = List ℕ

abbrev pub magic : Bytes
magic = codes "TFE1"

abbrev pub version : ℕ
version = 1

abbrev pub scheme_password : ℕ
scheme_password = 1

abbrev pub frame_size_log2 : ℕ
frame_size_log2 = 14

abbrev pub tag_len : ℕ
tag_len = 16

abbrev pub key_len : ℕ
key_len = 32

pub record PasswordParams : Type 0 where
  pub m_kib : ℕ
  pub t : ℕ
  pub p : ℕ

abbrev pub default_params : PasswordParams
default_params = record { m_kib = 262144; t = 3; p = 4 }

pub data CryptoError : Type 0 where
  argon_params argon_derivation encrypt_failed too_short bad_magic out_of_fuel : CryptoError
  unsupported_version unsupported_scheme decrypt_failed : ℕ → CryptoError

-- `Params::new` and `hash_password_into` of the argon2 crate, and the cipher's two operations on
-- (nonce, associated data, message). A failure carries nothing.
pub record Primitives : Type 1 where
  pub Params : Type 0
  pub Key : Type 0
  pub params_new : ℕ → ℕ → ℕ → ℕ → Result (Unit {0}) Params
  pub hash_password_into : Params → Bytes → Bytes → Result (Unit {0}) Key
  pub encrypt : Key → Bytes → Bytes → Bytes → Result (Unit {0}) Bytes
  pub decrypt : Key → Bytes → Bytes → Bytes → Result (Unit {0}) Bytes

-- `map_err`.
abbrev pub map_err : {A : Type 0} → CryptoError → Result (Unit {0}) A → Result CryptoError A
map_err e (ok a) = ok a
map_err e (err _) = err e

abbrev flag : Bool → ℕ
flag true = 1
flag false = 0

-- Twelve bytes: the counter, the flag of the last frame, three zeros.
unfoldable pub make_nonce : ℕ → Bool → Bytes
make_nonce counter is_last = to_le_bytes 8 counter ++ flag is_last ∷ 0 ∷ 0 ∷ 0 ∷ []

-- The nine bytes of associated data, which both sides build.
unfoldable pub make_aad : ℕ → Bool → Bytes
make_aad counter is_last = to_le_bytes 8 counter ++ flag is_last ∷ []

-- The envelope ahead of the frames.
unfoldable pub header : PasswordParams → Bytes → Bytes
header params salt =
    magic
    ++ version
      ∷ scheme_password
      ∷ 0
      ∷ 0
      ∷ (to_le_bytes 4 params.m_kib
          ++ (to_le_bytes 4 params.t
              ++ (to_le_bytes 4 params.p ++ (to_le_bytes 4 frame_size_log2 ++ salt))))

-- `envelope[from..from + n]`.
abbrev slice : Bytes → ℕ → ℕ → Bytes
slice bytes from n = take n (drop from bytes)

module _ (prims : Primitives) where
  open prims use {Key, params_new, hash_password_into, encrypt, decrypt}

  unfoldable pub derive_key : Bytes → Bytes → PasswordParams → Result CryptoError Key
  derive_key password salt params = do
    p ← map_err argon_params (params_new params.m_kib params.t params.p key_len)
    map_err argon_derivation (hash_password_into p password salt)

  -- The `while` of `encrypt_password`; `rest` is `plaintext[offset..]`, so that the frame ends the
  -- payload when no more than a frame is left. Each round takes at least one byte off.
  unfoldable pub seal_frames : ℕ → Key → ℕ → Bytes → Result CryptoError Bytes
  unfolding make_nonce make_aad
  seal_frames fuel key counter [] = ok []
  seal_frames zero key counter (b ∷ bs) = err out_of_fuel
  seal_frames (suc fuel) key counter (b ∷ bs) =
      let rest = b ∷ bs in
      let frame_size = 2 ^ frame_size_log2 in
      let is_last = leb (length rest) frame_size in
      let more = seal_frames fuel key (counter + 1) (drop frame_size rest) in
      do
        ct ← map_err encrypt_failed (
            encrypt key (make_nonce counter is_last) (make_aad counter is_last)
              (take frame_size rest))
        out ← more
        ok (ct ++ out)

  unfoldable pub encrypt_password :
      Bytes → PasswordParams → Bytes → Bytes → Result CryptoError Bytes
  unfolding derive_key header seal_frames
  encrypt_password password params salt plaintext = do
    key ← derive_key password salt params
    frames ← seal_frames (length plaintext) key 0 plaintext
    ok (header params salt ++ frames)

  -- The `while` of `decrypt_password`; `rest` is `envelope[pos..]`.
  pub open_frames : ℕ → Key → ℕ → ℕ → Bytes → Result CryptoError Bytes
  unfolding make_nonce make_aad
  open_frames fuel key frame_size counter [] = ok []
  open_frames zero key frame_size counter (b ∷ bs) = err out_of_fuel
  open_frames (suc fuel) key frame_size counter (b ∷ bs) =
      let rest = b ∷ bs in
      let remaining = length rest in
      let amount =
        if ltb (frame_size + tag_len) remaining then frame_size + tag_len else remaining in
      let is_last = amount == remaining in
      let more = open_frames fuel key frame_size (counter + 1) (drop amount rest) in
      do
        pt ←
            map_err (decrypt_failed counter) (
              decrypt key (make_nonce counter is_last) (make_aad counter is_last)
                (take amount rest))
        out ← more
        ok (pt ++ out)

  pub decrypt_password : Bytes → Bytes → Result CryptoError Bytes
  unfolding derive_key open_frames
  decrypt_password password envelope =
      if ltb (length envelope) 40
      then err too_short
      else if not (text_eq (take 4 envelope) magic)
      then err bad_magic
      else if not (get_or envelope 4 0 == version)
      then err (unsupported_version (get_or envelope 4 0))
      else if not (get_or envelope 5 0 == scheme_password)
      then err (unsupported_scheme (get_or envelope 5 0))
      else do
        let m_kib = from_le_bytes (slice envelope 8 4)
        let t = from_le_bytes (slice envelope 12 4)
        let p = from_le_bytes (slice envelope 16 4)
        let frame_log = from_le_bytes (slice envelope 20 4)
        key ← derive_key password (slice envelope 24 16) (record { m_kib = m_kib; t = t; p = p })
        open_frames (length envelope) key (2 ^ (frame_log % 64)) 0 (drop 40 envelope)
