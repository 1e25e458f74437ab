-- ===== src/Tests/PipelineTests.antt =====
-- The pipeline and the archive selection on small inputs.
use tekflash.Common.{
  ◌↔◌, ◌⊎◌, ◌*◌, ◌/◌, ℕ, ◌≤◌, ◌≡◌, ◌↔◌, refl, Bool, true, false, List, [], ◌∷◌, ◌++◌, none, some,
  Text, codes, ok, length, arith, starts_with, FilePath, take,
}
use tekflash.Pipeline.Format.{InputFormat, zstd, detect}
use tekflash.Pipeline.Format.Magic.{detect_iff}
use tekflash.Pipeline.Compress.{Codec}
use tekflash.Pipeline.Compress.Extension.{detect_codec, IsNamed, detect_codec_iff}
use tekflash.Pipeline.Crypto.{
  Bytes, PasswordParams, header, derive_key, encrypt_password, decrypt_password,
}
use tekflash.Pipeline.Crypto.Envelope.{
  FitsU32, decrypt_password-encrypt_password, decrypt_password-cut_envelope,
}
use tekflash.Pipeline.Hasher.{blake3, digest}
use tekflash.Pipeline.Verify.{
  VerifyOutcome, buffer_size, verify_full, verify_full_by_hash, eq_ignore_ascii_case,
}
use tekflash.Pipeline.Verify.Blocks.{mismatch}
use tekflash.Pipeline.Verify.Full.{verify_full_iff}
use tekflash.Pipeline.Verify.ByHash.{verify_full_by_hash_lem, verify_full_by_hash-overwritten}
use tekflash.Pipeline.Verify.Sampled.{sampled_plan, sampled_ranges}
use tekflash.Pipeline.Verify.Sampled.Ranges.{Sampled, stripe_for, sampled_ranges_lem}
use tekflash.Archive.Selection.{ArchiveSelection, is_included, glob_rejects}
use tekflash.Archive.Selection.Spec.{Selected, is_included_iff}
use tekflash.Device.{BlockDevice, Transport, enumerate}
use tekflash.Tests.Readers.{
  whole, left, whole-ReadLaws, whole-Infallible, toy, toy-CipherLaws, zeros, keeping,
  keeping-Streams,
}

abbrev params : PasswordParams
params = record { m_kib = 8; t = 1; p = 1 }

params-FitsU32 : FitsU32 params
params-FitsU32 = record { m_fits = omega arith; t_fits = omega arith; p_fits = omega arith }

abbrev salt : Bytes
salt = zeros

abbrev payload : Bytes
payload = 7 ∷ 8 ∷ 9 ∷ []

abbrev sealed : Bytes
unfolding header
sealed = header params salt ++ (payload ++ zeros)

sealed_eq : encrypt_password toy (codes "right") params salt payload ≡ ok sealed
unfolding encrypt_password
sealed_eq = refl

decrypt_password-encrypt_password_example : decrypt_password toy (codes "right") sealed ≡ ok payload
decrypt_password-encrypt_password_example =
    decrypt_password-encrypt_password toy toy-CipherLaws (codes "right") params salt payload sealed
      params-FitsU32 refl sealed_eq

wrong_key : derive_key toy (codes "wrong") salt params ≡ ok (codes "wrong" ++ salt)
unfolding derive_key
wrong_key = refl

decrypt_password-cut_envelope_example :
    decrypt_password toy (codes "wrong") (take 40 sealed) ≡ ok []
decrypt_password-cut_envelope_example =
    decrypt_password-cut_envelope toy (codes "right") (codes "wrong") params salt payload sealed
      (codes "wrong" ++ salt) params-FitsU32 refl sealed_eq wrong_key

abbrev zstd_head : List ℕ
zstd_head = 0x28 ∷ 0xB5 ∷ 0x2F ∷ 0xFD ∷ 1 ∷ []

detect_iff_example :
    (detect zstd_head ≡ zstd) ↔ (starts_with zstd_head (0x28 ∷ 0xB5 ∷ 0x2F ∷ 0xFD ∷ []) ≡ true)
detect_iff_example = detect_iff zstd_head zstd refl

detect_codec_iff_example : (detect_codec [] (codes "DISK.ZSD") ≡ Codec.zstd) ↔ (
    (detect [] ≡ InputFormat.zstd)
    ⊎ ((detect [] ≡ InputFormat.raw) × IsNamed Codec.zstd (codes "DISK.ZSD")))
detect_codec_iff_example = detect_codec_iff [] (codes "DISK.ZSD") Codec.zstd (ground arith)

abbrev image : List ℕ
image = 1 ∷ 2 ∷ 3 ∷ []

abbrev short : List ℕ
short = 1 ∷ 2 ∷ []

abbrev written : List ℕ
written = 1 ∷ 2 ∷ 4 ∷ []

verify_full_iff_example :
    (o : VerifyOutcome) × (verify_full whole whole buffer_size 9 0 image written ≡ ok o)
    × ((o.passed ≡ true) ↔ (left image ≡ left written))
    × (o.passed ≡ true → o.bytes_read ≡ length (left image))
    × (o.first_mismatch_offset ≡ mismatch (left image) (left written))
verify_full_iff_example =
    verify_full_iff whole left whole-ReadLaws whole-Infallible whole left whole-ReadLaws
      whole-Infallible 9 image written (omega arith)

verify_full_by_hash_example :
    (o : VerifyOutcome) × (verify_full_by_hash keeping whole buffer_size 9 image image blake3
      ≡ ok o)
    × (o.passed ≡ eq_ignore_ascii_case (digest keeping blake3 (left image)) image)
    × (o.bytes_read ≡ length (left image))
    × ((o.first_mismatch_offset ≡ none) ↔ (o.passed ≡ true))
verify_full_by_hash_example =
    verify_full_by_hash_lem keeping keeping-Streams whole left whole-ReadLaws whole-Infallible 9
      image image blake3 (omega arith)

distinct_digests :
    eq_ignore_ascii_case (digest keeping blake3 image) (digest keeping blake3 short) ≡ true
    → image ≡ short
unfolding eq_ignore_ascii_case digest
distinct_digests h = cc

verify_full_by_hash-overwritten_example :
    (o : VerifyOutcome) × (verify_full_by_hash keeping whole buffer_size 9 image
        (digest keeping blake3 short)
        blake3
      ≡ ok o)
    × ((o.passed ≡ true) ↔ (length image ≤ length short))
verify_full_by_hash-overwritten_example =
    verify_full_by_hash-overwritten keeping keeping-Streams whole left whole-ReadLaws
      whole-Infallible 9 blake3 image short image refl distinct_digests (omega arith)

-- `/home` is checked, `/home/cache` is not.
abbrev home : FilePath
home = codes "home" ∷ []

abbrev selection : ArchiveSelection Text
selection = record {
  included = home ∷ [];
  excluded = (codes "cache" ∷ home) ∷ [];
  excludes_glob = none;
}

abbrev no_match : Text → FilePath → Bool
no_match g p = false

is_included_iff_example : (is_included no_match selection (codes "notes" ∷ home) home ≡ true) ↔ (
    (glob_rejects no_match selection.excludes_glob (codes "notes" ∷ home) home ≡ false)
    × Selected selection.included selection.excluded (codes "notes" ∷ home))
is_included_iff_example = is_included_iff no_match selection (codes "notes" ∷ home) home

abbrev device : Bool → BlockDevice
device is_system = record {
  path = codes "sda" ∷ [];
  vendor = none;
  model = none;
  serial = none;
  size_bytes = 64;
  block_size = 512;
  transport = Transport.usb;
  removable = true;
  is_system = is_system;
  read_only = false;
  mountpoints = [];
}

abbrev two_devices : List BlockDevice
two_devices = device true ∷ device false ∷ []

listed_eq : enumerate (some two_devices) false ≡ some (device false ∷ [])
unfolding enumerate
listed_eq = refl

sampled_ranges_example :
    Sampled
      (sampled_plan 200 5)
      (stripe_for (sampled_plan 200 5))
      ((sampled_plan 200 5).total_bytes * (sampled_plan 200 5).sample_pct / 100)
      (sampled_ranges 200 (sampled_plan 200 5))
unfolding sampled_plan
sampled_ranges_example =
    sampled_ranges_lem 200 (sampled_plan 200 5) (omega arith) (omega arith) (omega arith)
      (omega arith) (omega arith)

-- Half of a small device is its first stripe, so that its end is not read.
end_is_not_sampled : sampled_ranges 200 (sampled_plan 200 50) ≡ some ((0, 100) ∷ [])
unfolding sampled_plan sampled_ranges
end_is_not_sampled = refl
