-- ===== src/Tui/Views/CodecPicker/Bars.antt =====
-- The bars of crates/tekflash/src/tui/views/codec_picker.rs.
use native.Mathlib.Nat.{div-lt_iff_lt-mul}
use tekflash.Common.{ℕ, ◌-◌, ◌*◌, ◌/◌, ◌≤◌, ◌<◌, ◌≡◌, length, arith, ◌==◌, Bool-cases, inl, inr}
use tekflash.Tui.CodecPicker.{CodecPicker, current, current_level}
use tekflash.Tui.CodecPicker.Levels.{WellFormed, current_level-in_bounds}
use tekflash.Tui.Theme.{Theme}
use tekflash.Tui.Views.CodecPicker.{bar, pos_of, level_pos}
use tekflash.Tui.Views.Home.Fits.{length-bar_of}

tenths : (x d : ℕ) → 0 < d → x ≤ d → 10 * x / d ≤ 10
tenths x d p h =
    let q = div-lt_iff_lt-mul {k = d} {x = 10 * x} {y = 11} p in
    let e : 10 * x < 11 * d = omega arith in omega (arith, q.1 e)

pos_of-le : (lo hi l : ℕ) → lo ≤ l → l ≤ hi → pos_of lo hi l ≤ 10
unfolding pos_of
pos_of-le lo hi l h k = elim (Bool-cases (hi - lo == 0)) [
  | inl none_between ↦ rw none_between (omega arith)
  | inr some_between ↦
      let d : 0 < hi - lo = ground arith in
      let q : 10 * (l - lo) / (hi - lo) ≤ 10 = tenths (l - lo) (hi - lo) d (omega arith) in
      rw some_between (omega (arith, q))
]

-- For a well-formed picker the level stands within the ten cells of its bar, and the bar itself has ten
-- cells at every score.
pub level_pos-fits :
    (p : CodecPicker) (theme : Theme) (score : ℕ)
    → WellFormed p
    → (level_pos p ≤ 10) × (length (bar theme score).0 ≡ 10)
unfolding level_pos bar
level_pos-fits p theme score h =
    let b = current_level-in_bounds p h in
    (
      pos_of-le (current p).min_level (current p).max_level (current_level p) b.0 b.1,
      length-bar_of score 10,
    )
