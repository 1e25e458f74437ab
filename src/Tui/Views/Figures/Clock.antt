-- ===== src/Tui/Views/Figures/Clock.antt =====
-- `format_duration` of crates/tekflash/src/tui/views/progress.rs read back as a time.
use tekflash.Common.{
  ℕ, zero, suc, ◌+◌, ◌-◌, ◌*◌, ◌/◌, ◌%◌, ◌^◌, ◌<◌, ◌≤◌, ◌≡◌, ◌∙◌, refl, sym, ap, [], ◌∷◌, ◌++◌,
  append_assoc, append-nil, Text, ltb, leb, ltb→lt, leb→le, true, false, ◌==◌, Bool-cases, inl, inr,
  length, length-drop, if◌then◌else◌, arith,
}
use tekflash.Tui.Views.Figures.{digits, decimal, padded, format_duration, truncate_left}

-- A clock's fields in base sixty: `total` is what stands before the last colon, `field` the number
-- behind it.
pub read_clock : (total field : ℕ) → Text → ℕ
read_clock total field [] = total + field
read_clock total field (c ∷ s) =
    read_clock (if c == b':' then (total + field) * 60 else total)
      (if c == b':' then 0 else field * 10 + (c - 48)) s

read_digit :
    (total field d : ℕ) (rest : Text)
    → d < 10
    → read_clock total field ((48 + d) ∷ rest) ≡ read_clock total (field * 10 + d) rest
unfolding read_clock
read_digit total field d rest h =
    let e : ((48 + d) == b':') ≡ false = ground arith in
    rw e (ap (λ x. read_clock total (field * 10 + x) rest) (omega arith))

read_clock-digits :
    (fuel n total : ℕ) (rest : Text)
    → n < fuel
    → read_clock total 0 (digits fuel n ++ rest) ≡ read_clock total n rest
read_clock-digits zero n total rest h = absurd (omega arith)
read_clock-digits (suc f) n total rest h = elim (Bool-cases (ltb n 10)) [
  | inl small ↦ rw small (
      read_digit total 0 (n % 10) rest (omega arith)
      ∙ ap (λ k. read_clock total k rest) (omega (arith, ltb→lt n 10 small)))
  | inr big ↦
      let e : 10 ≤ n = ground arith in
      rw big (
        ap (read_clock total 0) (append_assoc (digits f (n / 10)) ((48 + n % 10) ∷ []) rest)
        ∙ read_clock-digits f (n / 10) total ((48 + n % 10) ∷ rest) (omega arith)
        ∙ read_digit total (n / 10) (n % 10) rest (omega arith)
        ∙ ap (λ k. read_clock total k rest) (omega arith))
]

padded_small : (n : ℕ) → ltb n 10 ≡ true → padded n ≡ b'0' ∷ decimal n
unfolding padded
padded_small n h = rw h

padded_big : (n : ℕ) → ltb n 10 ≡ false → padded n ≡ decimal n
unfolding padded
padded_big n h = rw h

read_clock-decimal :
    (n total : ℕ) (rest : Text) → read_clock total 0 (decimal n ++ rest) ≡ read_clock total n rest
unfolding decimal
read_clock-decimal n total rest = read_clock-digits (suc n) n total rest (omega arith)

read_clock-padded :
    (n total : ℕ) (rest : Text) → read_clock total 0 (padded n ++ rest) ≡ read_clock total n rest
read_clock-padded n total rest = elim (Bool-cases (ltb n 10)) [
  | inl small ↦
      ap (λ t. read_clock total 0 (t ++ rest)) (padded_small n small)
      ∙ read_digit total 0 0 (decimal n ++ rest) (omega arith)
      ∙ ap (λ k. read_clock total k (decimal n ++ rest)) (omega arith)
      ∙ read_clock-decimal n total rest
  | inr big ↦
      ap (λ t. read_clock total 0 (t ++ rest)) (padded_big n big) ∙ read_clock-decimal n total rest
]

read_clock-colon :
    (total field : ℕ) (rest : Text)
    → read_clock total field (b':' ∷ rest) ≡ read_clock ((total + field) * 60) 0 rest
unfolding read_clock
read_clock-colon total field rest = refl

read_clock-last : (n total : ℕ) → read_clock total 0 (padded n) ≡ total + n
unfolding read_clock
read_clock-last n total =
    ap (read_clock total 0) (sym (append-nil (padded n))) ∙ read_clock-padded n total []

abbrev below_hour : ℕ → Text
below_hour s = padded (s % 3600 / 60) ++ (b':' ∷ padded (s % 60))

read_clock-below_hour :
    (s total : ℕ) → read_clock total 0 (below_hour s) ≡ (total + s % 3600 / 60) * 60 + s % 60
read_clock-below_hour s total =
    read_clock-padded (s % 3600 / 60) total (b':' ∷ padded (s % 60))
    ∙ read_clock-colon total (s % 3600 / 60) (padded (s % 60))
    ∙ read_clock-last (s % 60) ((total + s % 3600 / 60) * 60)

-- A duration is printed as the clock that shows its whole seconds.
pub read_clock-format_duration : (d : ℕ) → read_clock 0 0 (format_duration d) ≡ d / 10 ^ 9
unfolding format_duration
read_clock-format_duration d =
    let s = d / 10 ^ 9 in
    let h = s / 3600 in
    elim (Bool-cases (ltb 0 h)) [
      | inl hours ↦ rw hours (
          read_clock-padded h 0 (b':' ∷ below_hour s)
          ∙ read_clock-colon 0 h (below_hour s)
          ∙ read_clock-below_hour s ((0 + h) * 60)
          ∙ omega arith)
      | inr none_left ↦
          let z : h ≡ 0 = ground arith in rw none_left (read_clock-below_hour s 0 ∙ omega arith)
    ]

-- A text is cut to the given length at most.
pub length-truncate_left : (s : Text) (max : ℕ) → 0 < max → length (truncate_left s max) ≤ max
unfolding truncate_left
length-truncate_left s max h = elim (Bool-cases (leb (length s) max)) [
  | inl fits ↦ rw fits (omega (arith, leb→le (length s) max fits))
  | inr long ↦ rw long (ground (arith, length-drop (length s - (max - 1)) s))
]
