-- ===== src/Tui/Views/Home/Fits.antt =====
-- What the home view of crates/tekflash/src/tui/views/home.rs fits into its area.
use tekflash.Common.{
  ℕ, false, zero, suc, ◌+◌, ◌-◌, ◌%◌, ◌^◌, ◌≤◌, ◌<◌, ◌≡◌, ◌∙◌, refl, ap, min, List, [], ◌∷◌, Text,
  FilePath, codes, length, length-append, length-take, take, arith, if◌then◌else◌, ◌==◌,
}
use tekflash.Runner.Progress.{BackupProgress}
use tekflash.Tui.Theme.{Theme}
use tekflash.Tui.Views.Figures.{F64}
use tekflash.Tui.Views.Home.{session_panel_h, repeat, bar_of, mini_bar, lines_from, session_lines}

length-lines_from :
    {G : Type 0} (f : F64) (display : FilePath → Text) (theme : Theme) (idx : ℕ)
    (sessions : List (BackupProgress G × f.Double)) (inner_w : ℕ)
    → length (lines_from f display theme idx sessions inner_w) ≡ length sessions
length-lines_from f display theme idx [] inner_w = refl
length-lines_from f display theme idx (s ∷ rest) inner_w =
    ap suc (length-lines_from f display theme (suc idx) rest inner_w)

panel_of : (n height : ℕ) → ℕ
panel_of n height = if n == 0 then 0 else min (2 + min n 6) (height - 13)

panel_of-fits :
    (n height : ℕ)
    → (panel_of n height ≤ 8)
      × (0 < panel_of n height → panel_of n height + (3 + 8 + 2) ≤ height)
      × (21 ≤ height → 0 < n → panel_of n height ≡ 2 + min 6 n)
unfolding panel_of
panel_of-fits zero height = (omega arith, λ h. absurd (omega arith), λ h k. absurd (omega arith))
panel_of-fits (suc n) height =
    let e : (suc n == 0) ≡ false = ground arith in
    rw e (omega arith, λ h. omega arith, λ h k. omega arith)

-- The sessions' panel is never higher than two borders and six lines; where it has a line in it, the
-- header, the table with eight rows and the footer still fit above and below it; and where the area has
-- 21 rows and there is a u16 of sessions at most, each line that is laid out has its row.
pub session_panel_h-fits :
    {G : Type 0} (f : F64) (display : FilePath → Text) (theme : Theme)
    (sessions : List (BackupProgress G × f.Double)) (width height : ℕ)
    → length sessions < 2 ^ 16
    → (session_panel_h (length sessions) height ≤ 8)
      × (0 < session_panel_h (length sessions) height
          → session_panel_h (length sessions) height + (3 + 8 + 2) ≤ height)
      × (21 ≤ height
          → 0 < length sessions
          → session_panel_h (length sessions) height
            ≡ 2 + length (session_lines f display theme sessions width))
unfolding session_panel_h session_lines panel_of
session_panel_h-fits f display theme sessions width height few =
    let n = length sessions in
    let m : n % 2 ^ 16 ≡ n = omega arith in
    let lines : length (session_lines f display theme sessions width) ≡ min 6 n =
      length-lines_from f display theme 0 (take 6 sessions) (width - 2) ∙ length-take 6 sessions in
    rw (m, lines) (panel_of-fits n height)

length-repeat : (n c : ℕ) → length (repeat n (c ∷ [])) ≡ n
length-repeat zero c = refl
length-repeat (suc n) c = ap suc (length-repeat n c)

pub length-bar_of : (k width : ℕ) → length (bar_of (min k width) width) ≡ width
length-bar_of k width =
    length-append (repeat (min k width) (codes "█")) (repeat (width - min k width) (codes "░"))
    ∙ ap (λ n. n + length (repeat (width - min k width) (codes "░")))
        (length-repeat (min k width) _)
    ∙ ap (λ n. min k width + n) (length-repeat (width - min k width) _)
    ∙ omega arith

-- The bar is as wide as asked for, whatever the ratio.
pub length-mini_bar :
    (f : F64) (display : FilePath → Text) (theme : Theme) (ratio : f.Double) (width : ℕ)
    → length (mini_bar f display theme ratio width) ≡ width
unfolding mini_bar
length-mini_bar f display theme ratio width = length-bar_of _ width
