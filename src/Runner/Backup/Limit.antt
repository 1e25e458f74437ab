-- ===== src/Runner/Backup/Limit.antt =====
-- The size of a read in `do_backup` of crates/tekflash/src/tui/progress_runner.rs, and the errors that end
-- its loop.
use tekflash.Common.{
  ℕ, ◌+◌, ◌<◌, ◌≤◌, ◌≡◌, refl, Bool, true, List, [], ◌++◌, append-nil, Option, none, some, length,
  arith, ◌⊎◌, inl, inr, take, take-append, take_all,
}
use tekflash.Runner.Worker.{IoError, ErrorKind, unexpected_eof, permission_denied, not_found, other}
use tekflash.Runner.Backup.{
  buf_bytes, to_read, is_end_of_device_error, near_end, forgives, is_end_code, is_unexpected_eof,
}

-- The offset does not pass the device's size.
abbrev pub Within : Option ℕ → ℕ → Type 0
Within none n = Unit
Within (some t) n = n ≤ t

pub to_read-some : (total : Option ℕ) (n m : ℕ) → to_read total n ≡ some m → 0 < m
unfolding to_read
to_read-some none n m h = ground arith
to_read-some (some t) n m h = ground arith

pub to_read-Within :
    (total : Option ℕ) (n m k : ℕ)
    → Within total n
    → to_read total n ≡ some m
    → k ≤ m
    → Within total (n + k)
unfolding to_read
to_read-Within none n m k w h le = tt
to_read-Within (some t) n m k w h le = ground arith

pub to_read-none :
    (total : Option ℕ) (n : ℕ) → to_read total n ≡ none → (t : ℕ) × (total ≡ some t) × (t ≤ n)
unfolding to_read
to_read-none none n h = cc
to_read-none (some t) n h = (t, refl, ground arith)

-- The codes by which Windows says that a device has no more sectors.
abbrev pub EndCode : ℕ → Type 0
EndCode code = (code ≡ 23) ⊎ (code ≡ 27) ⊎ (code ≡ 38) ⊎ (code ≡ 87)

-- The errors of a device's end: an unexpected end of the file, and on Windows an error with one of
-- those codes.
abbrev pub EndError : Bool → IoError → Type 0
EndError windows e =
    (e.kind ≡ unexpected_eof)
    ⊎ ((windows ≡ true) × (code : ℕ) × (e.raw_os_error ≡ some code) × EndCode code)

-- The size that was given, if any, is at most one buffer of 8 MiB away.
abbrev pub OneBuffer : Option ℕ → ℕ → Type 0
OneBuffer none n = Unit
OneBuffer (some t) n = t ≤ n + 8388608

near_end-OneBuffer :
    (total : Option ℕ) (n : ℕ) → near_end n total buf_bytes ≡ true → OneBuffer total n
near_end-OneBuffer none n h = tt
near_end-OneBuffer (some t) n h = ground arith

is_end_code-EndCode :
    (o : Option ℕ) → is_end_code o ≡ true → (code : ℕ) × (o ≡ some code) × EndCode code
is_end_code-EndCode none h = cc
is_end_code-EndCode (some code) h = (code, refl, ground arith)

is_unexpected_eof-eq : (k : ErrorKind) → is_unexpected_eof k ≡ true → k ≡ unexpected_eof
is_unexpected_eof-eq unexpected_eof h = refl
is_unexpected_eof-eq permission_denied h = cc
is_unexpected_eof-eq not_found h = cc
is_unexpected_eof-eq other h = cc

end_test-EndError :
    (windows : Bool) (e : IoError)
    → ((windows ≡ true) × (is_end_code e.raw_os_error ≡ true)) ⊎ (is_unexpected_eof e.kind ≡ true)
    → EndError windows e
end_test-EndError windows e (inl (w, h)) =
    let (code, o, k) = is_end_code-EndCode e.raw_os_error h in inr (w, code, o, k)
end_test-EndError windows e (inr h) = inl (is_unexpected_eof-eq e.kind h)

forgives-tests :
    (windows : Bool) (total : Option ℕ) (e : IoError) (n : ℕ)
    → forgives windows total e n ≡ true
    → (near_end n total buf_bytes ≡ true)
      × (((windows ≡ true) × (is_end_code e.raw_os_error ≡ true))
          ⊎ (is_unexpected_eof e.kind ≡ true))
unfolding is_end_of_device_error
forgives-tests windows total e n h = (ground arith, ground arith)

pub forgives-EndError :
    (windows : Bool) (total : Option ℕ) (e : IoError) (n : ℕ)
    → forgives windows total e n ≡ true
    → EndError windows e × OneBuffer total n
forgives-EndError windows total e n h =
    let (near, kind) = forgives-tests windows total e n h in
    (end_test-EndError windows e kind, near_end-OneBuffer total n near)

-- The first `total` bytes, or all of them.
abbrev pub first : Option ℕ → List ℕ → List ℕ
first none bytes = bytes
first (some t) bytes = take t bytes

first_exact :
    (total : Option ℕ) (t : ℕ) (bytes left : List ℕ)
    → total ≡ some t
    → Within total (length bytes)
    → t ≤ length bytes
    → first total (bytes ++ left) ≡ bytes
first_exact none t bytes left e w le = cc
first_exact (some u) t bytes left e w le = take-append bytes left u (ground arith)

pub first-append :
    (total : Option ℕ) (bytes left : List ℕ)
    → Within total (length bytes)
    → (to_read total (length bytes) ≡ none) ⊎ (left ≡ [])
    → first total (bytes ++ left) ≡ bytes
first-append total bytes left w (inl h) =
    let (t, e, le) = to_read-none total (length bytes) h in first_exact total t bytes left e w le
first-append none bytes left w (inr h) = rw h (append-nil bytes)
first-append (some t) bytes left w (inr h) = rw (h, append-nil bytes) (take_all t bytes w)

pub Within_zero : (total : Option ℕ) → Within total 0
Within_zero none = tt
Within_zero (some t) = omega arith
