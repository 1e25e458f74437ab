-- ===== src/Pipeline/Hasher.antt =====
-- crates/tekflash-core/src/pipeline/hasher.rs. The two hash functions are other crates' and come as
-- `HashCrates`.
use tekflash.Common.{ℕ, ◌+◌, ◌-◌, ◌/◌, ◌%◌, ◌≡◌, List, [], ◌∷◌, ◌++◌, Text, ltb, if◌then◌else◌}

pub data HashKind : Type 0 where
  blake3 sha256 : HashKind

-- The streaming interfaces of the blake3 and sha2 crates.
pub record HashCrates : Type 1 where
  pub Blake : Type 0
  pub blake_new : Blake
  pub blake_update : Blake → List ℕ → Blake
  pub blake_hex : Blake → Text
  pub Sha : Type 0
  pub sha_new : Sha
  pub sha_update : Sha → List ℕ → Sha
  pub sha_bytes : Sha → List ℕ

pub data Hasher (c : HashCrates) : Type 0 where
  blake : c.Blake → Hasher c
  sha : c.Sha → Hasher c

-- `{b:02x}`.
hex_digit : ℕ → ℕ
hex_digit n = if ltb n 10 then b'0' + n else b'a' + (n - 10)

unfoldable pub hex : List ℕ → Text
unfolding hex_digit
hex [] = []
hex (b ∷ bs) = hex_digit (b / 16) ∷ hex_digit (b % 16) ∷ hex bs

module _ (c : HashCrates) where
  unfoldable pub new : HashKind → Hasher c
  new blake3 = blake c.blake_new
  new sha256 = sha c.sha_new

  unfoldable pub update : Hasher c → List ℕ → Hasher c
  update (blake h) bytes = blake (c.blake_update h bytes)
  update (sha h) bytes = sha (c.sha_update h bytes)

  unfoldable pub finalize_hex : Hasher c → Text
  unfolding hex
  finalize_hex (blake h) = c.blake_hex h
  finalize_hex (sha h) = hex (c.sha_bytes h)

  -- The digest of one run of bytes.
  unfoldable pub digest : HashKind → List ℕ → Text
  unfolding new update finalize_hex
  digest kind bytes = finalize_hex (update (new kind) bytes)

-- What the code relies on of a streaming hash: only the bytes matter, not how they are handed over.
pub record Streams (c : HashCrates) : Type 0 where
  pub blake_nil : (h : c.Blake) → c.blake_update h [] ≡ h
  pub blake_append :
      (h : c.Blake) (a b : List ℕ)
      → c.blake_update (c.blake_update h a) b ≡ c.blake_update h (a ++ b)
  pub sha_nil : (h : c.Sha) → c.sha_update h [] ≡ h
  pub sha_append :
      (h : c.Sha) (a b : List ℕ) → c.sha_update (c.sha_update h a) b ≡ c.sha_update h (a ++ b)

module _ (c : HashCrates) (laws : Streams c) where
  pub update_nil : (h : Hasher c) → update c h [] ≡ h
  unfolding update
  update_nil (blake h) = rw (laws.blake_nil h)
  update_nil (sha h) = rw (laws.sha_nil h)

  pub update-append :
      (h : Hasher c) (a b : List ℕ) → update c (update c h a) b ≡ update c h (a ++ b)
  unfolding update
  update-append (blake h) a b = rw (laws.blake_append h a b)
  update-append (sha h) a b = rw (laws.sha_append h a b)
