-- ===== src/Pipeline/Verify.antt =====
-- crates/tekflash-core/src/pipeline/verify.rs. Opening the device is left out: the functions take
-- readers that are open. The loops run on fuel.
pub mod Blocks
pub mod Full
pub mod ByHash
pub mod Sampled
use tekflash.Common.{
  ℕ, zero, suc, ◌+◌, ◌-◌, ◌*◌, Bool, true, false, List, [], ◌∷◌, ◌++◌, Option, none, some, Text,
  text_eq, to_ascii_lowercase, ◌==◌, ltb, if◌then◌else◌, length, take, min, Result, ok, err, ◌>>=◌,
  not,
}
use tekflash.Pipeline.Hasher.{HashKind, HashCrates, Hasher, new, update, finalize_hex}
use tekflash.Pipeline.Reader.{Reader}

pub record VerifyOutcome : Type 0 where
  pub passed : Bool
  pub bytes_read : ℕ
  pub first_mismatch_offset : Option ℕ

-- An error of a read, or a loop that was cut short.
pub data VerifyError (E : Type 0) : Type 0 where
  read_failed : E → VerifyError E
  out_of_fuel : VerifyError E

abbrev pub buffer_size : ℕ
buffer_size = 1024 * 1024

abbrev shift_some : Option ℕ → Option ℕ
shift_some none = none
shift_some (some i) = some (suc i)

-- `a.iter().zip(b.iter()).position(|(x, y)| x != y)`.
pub first_diff : List ℕ → List ℕ → Option ℕ
first_diff [] b = none
first_diff (x ∷ a) [] = none
first_diff (x ∷ a) (y ∷ b) = elim (x == y) [ false ↦ some 0 | true ↦ shift_some (first_diff a b) ]

-- `map_err`, for the context that a failed read is given.
abbrev pub reading : {E A : Type 0} → Result E A → Result (VerifyError E) A
reading (ok a) = ok a
reading (err e) = err (read_failed e)

module _ {E : Type 0} (r : Reader E) where
  -- `read_exact_or_eof` into a buffer with `want` bytes free: the bytes that fill it, up to the end.
  pub read_exact_or_eof : ℕ → ℕ → r.State → Result (VerifyError E) (List ℕ × r.State)
  read_exact_or_eof fuel zero s = ok ([], s)
  read_exact_or_eof zero (suc want) s = err out_of_fuel
  read_exact_or_eof (suc fuel) (suc want) s = elim (r.read s (suc want)) [
    | err e ↦ err (read_failed e)
    | ok (chunk, s') ↦ elim (length chunk) [
      | zero ↦ ok ([], s')
      | suc n ↦ elim (read_exact_or_eof fuel (want - n) s') [
        | err e ↦ err e
        | ok (more, t) ↦ ok (chunk ++ more, t)
      ]
    ]
  ]

-- The comparison that a round makes of the two buffers; `none` lets the loop go on.
pub compare_blocks : ℕ → List ℕ → List ℕ → Option VerifyOutcome
unfolding first_diff
compare_blocks offset src dev =
    let n = min (length src) (length dev) in
    elim (first_diff (take n src) (take n dev)) [
      | some pos ↦ some (record {
        passed = false;
        bytes_read = offset + n;
        first_mismatch_offset = some (offset + pos);
      })
      | none ↦
          if not (length src == length dev)
          then some (record {
            passed = false;
            bytes_read = offset + n;
            first_mismatch_offset = some (offset + n);
          })
          else if length src == 0
          then some
              (record { passed = true; bytes_read = offset + n; first_mismatch_offset = none })
          else none
    ]

module _ {E : Type 0} (source device : Reader E) (cap : ℕ) where
  unfoldable pub verify_full :
      ℕ → ℕ → source.State → device.State → Result (VerifyError E) VerifyOutcome
  unfolding read_exact_or_eof compare_blocks
  verify_full zero offset s d = err out_of_fuel
  verify_full (suc fuel) offset s d = elim (read_exact_or_eof source cap cap s) [
    | err e ↦ err e
    | ok (src, s') ↦ elim (read_exact_or_eof device cap cap d) [
      | err e ↦ err e
      | ok (dev, d') ↦ elim (compare_blocks offset src dev) [
        | some outcome ↦ ok outcome
        | none ↦ verify_full fuel (offset + min (length src) (length dev)) s' d'
      ]
    ]
  ]

unfoldable pub eq_ignore_ascii_case : Text → Text → Bool
unfolding text_eq to_ascii_lowercase
eq_ignore_ascii_case a b = text_eq (to_ascii_lowercase a) (to_ascii_lowercase b)

module _ {E : Type 0} (c : HashCrates) (device : Reader E) (cap : ℕ) where
  -- The loop of `verify_full_by_hash`, with the hasher and the count of bytes.
  pub hash_device : ℕ → Hasher c → ℕ → device.State → Result (VerifyError E) (Hasher c × ℕ)
  hash_device zero h offset d = err out_of_fuel
  hash_device (suc fuel) h offset d = elim (device.read d cap) [
    | err e ↦ err (read_failed e)
    | ok (chunk, d') ↦ elim (length chunk) [
      | zero ↦ ok (h, offset)
      | suc n ↦ hash_device fuel (update c h chunk) (offset + suc n) d'
    ]
  ]

  unfoldable pub verify_full_by_hash :
      ℕ → device.State → Text → HashKind → Result (VerifyError E) VerifyOutcome
  unfolding hash_device eq_ignore_ascii_case
  verify_full_by_hash fuel d expected_hash_hex kind = do
    (h, offset) ← hash_device fuel (new c kind) 0 d
    let passed = eq_ignore_ascii_case (finalize_hex c h) expected_hash_hex
    ok (record {
      passed = passed;
      bytes_read = offset;
      first_mismatch_offset = if passed then none else some 0;
    })
