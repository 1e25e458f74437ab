-- ===== src/Tui/Views/Figures.antt =====
-- Numbers as the views of crates/tekflash/src/tui/views print them, `format_bytes` of
-- crates/tekflash-core/src/device/mod.rs, and the rates of `BackupProgress`. There are no doubles
-- here: the operations of `f64` that the code calls come as `F64`.
pub mod Clock
use tekflash.Common.{
  ℕ, zero, suc, ◌+◌, ◌-◌, ◌*◌, ◌/◌, ◌%◌, ◌^◌, Bool, true, false, List, [], ◌∷◌, ◌++◌, Option, none,
  some, Text, codes, ltb, leb, ◌==◌, length, take, drop, if◌then◌else◌,
}
use tekflash.Runner.Progress.{BackupProgress, done}

pub record F64 : Type 1 where
  pub Double : Type 0
  pub of_u64 : ℕ → Double
  pub as_u64 : Double → ℕ
  pub div : Double → Double → Double
  pub mul : Double → Double → Double
  pub lt : Double → Double → Bool
  pub le : Double → Double → Bool
  pub maximum : Double → Double → Double
  pub minimum : Double → Double → Double
  pub round : Double → Double
  -- `{:.n}`.
  pub fixed : (places : ℕ) → Double → Text
  -- `Duration` in nanoseconds.
  pub as_secs_f64 : ℕ → Double
  pub from_secs_f64 : Double → ℕ

-- `{}` of an integer.
abbrev pub digits : (fuel : ℕ) → ℕ → Text
digits zero n = []
digits (suc f) n =
    let front = digits f (n / 10) in
    let last = (48 + n % 10) ∷ [] in if ltb n 10 then last else front ++ last

unfoldable pub decimal : ℕ → Text
decimal n = digits (suc n) n

-- `{:02}`.
unfoldable pub padded : ℕ → Text
unfolding decimal
padded n = if ltb n 10 then b'0' ∷ decimal n else decimal n

-- `format_duration`, of nanoseconds.
unfoldable pub format_duration : ℕ → Text
unfolding padded
format_duration d =
    let s = d / 10 ^ 9 in
    let h = s / 3600 in
    let m = s % 3600 / 60 in
    let sec = s % 60 in
    if ltb 0 h
    then padded h ++ (b':' ∷ padded m ++ (b':' ∷ padded sec))
    else padded m ++ (b':' ∷ padded sec)

abbrev pub ellipsis : Text
ellipsis = codes "…"

-- A hash is ASCII, so that its bytes are its code points.
unfoldable pub short_hash : Text → Text
short_hash h = if leb (length h) 24 then h else take 12 h ++ (ellipsis ++ drop (length h - 12) h)

-- The last `max - 1` characters behind an ellipsis, where there are more than `max`.
unfoldable pub truncate_left : Text → (max : ℕ) → Text
truncate_left s max = if leb (length s) max then s else ellipsis ++ drop (length s - (max - 1)) s

module _ (f : F64) where
  open f use {Double, of_u64, as_u64, div, mul, lt, le, fixed}

  -- The loop of `human_bytes` and `format_bytes`, with the number of units that are left.
  unfoldable pub scaled : (left : ℕ) → Double → (idx : ℕ) → Double × ℕ
  scaled zero v idx = (v, idx)
  scaled (suc left) v idx =
      let further = scaled left (div v (of_u64 1000)) (idx + 1) in
      if le (of_u64 1000) v then further else (v, idx)

  abbrev unit_name : ℕ → Text
  unit_name idx =
      if idx == 0
      then codes "B"
      else if idx == 1
      then codes "KB"
      else if idx == 2
      then codes "MB"
      else if idx == 3
      then codes "GB"
      else if idx == 4
      then codes "TB"
      else codes "PB"

  abbrev with_unit : (places n : ℕ) → Double × ℕ → Text
  with_unit places n (v, idx) =
      if idx == 0 then decimal n ++ codes " B" else fixed places v ++ (b' ' ∷ unit_name idx)

  -- `human_bytes` of the progress view, of the home view, and `format_bytes` behind `size_human`.
  unfoldable pub human_bytes : ℕ → Text
  unfolding scaled decimal
  human_bytes n = with_unit 2 n (scaled 5 (of_u64 n) 0)

  unfoldable pub human_bytes_home : ℕ → Text
  unfolding scaled decimal
  human_bytes_home n = with_unit 1 n (scaled 4 (of_u64 n) 0)

  unfoldable pub format_bytes : ℕ → Text
  unfolding scaled decimal
  format_bytes n = with_unit 1 n (scaled 5 (of_u64 n) 0)

  unfoldable pub format_rate : Double → Text
  unfolding human_bytes
  format_rate bytes_per_sec =
      let rate = f.maximum bytes_per_sec (of_u64 0) in
      human_bytes (as_u64 rate)
      ++ (codes "/s  (" ++ (human_bytes (as_u64 (mul rate (of_u64 60))) ++ codes "/min)"))

  module _ {G : Type 0} (p : BackupProgress G) where
    abbrev pub clamp_unit : Double → Double
    clamp_unit x = if lt x (of_u64 0) then of_u64 0 else if lt (of_u64 1) x then of_u64 1 else x

    -- `elapsed`: the worker's time where it finished, else the time since the start.
    unfoldable pub elapsed : (since_start : ℕ) → ℕ
    elapsed since_start = elim p.status [ done h e ↦ e | _ ↦ since_start ]

    unfoldable pub average_rate : (since_start : ℕ) → Double
    unfolding elapsed
    average_rate since_start =
        div (of_u64 p.bytes_in)
          (f.maximum (f.as_secs_f64 (elapsed since_start)) (div (of_u64 1) (of_u64 1000)))

    unfoldable pub ratio : Option Double
    ratio = if p.bytes_in == 0 then none else some (div (of_u64 p.bytes_out) (of_u64 p.bytes_in))

    abbrev part_of : Option ℕ → Option Double
    part_of none = none
    part_of (some total) =
        if total == 0 then none else some (clamp_unit (div (of_u64 p.bytes_in) (of_u64 total)))

    unfoldable pub fraction : Option Double
    fraction = part_of p.params.total_bytes

    abbrev eta_at : Double → Option ℕ → Option ℕ
    eta_at rate none = none
    eta_at rate (some total) =
        if leb total p.bytes_in
        then some 0
        else some (
            f.from_secs_f64
              (f.minimum (div (of_u64 (total - p.bytes_in)) rate) (mul (of_u64 86400) (of_u64 30))))

    unfoldable pub eta : (since_start : ℕ) → Option ℕ
    unfolding average_rate
    eta since_start =
        let rate = average_rate since_start in
        if le rate (of_u64 0) then none else eta_at rate p.params.total_bytes

    abbrev projected : Option ℕ → Option ℕ
    projected none = none
    projected (some total) =
        if p.bytes_in == 0
        then none
        else some (as_u64 (mul (of_u64 total) (div (of_u64 p.bytes_out) (of_u64 p.bytes_in))))

    unfoldable pub estimated_output_size : Option ℕ
    estimated_output_size = projected p.params.total_bytes
