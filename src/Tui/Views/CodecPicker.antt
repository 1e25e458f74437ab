-- ===== src/Tui/Views/CodecPicker.antt =====
-- `render` of crates/tekflash/src/tui/views/codec_picker.rs: the text of the picker with its styles.
pub mod Bars
use tekflash.Common.{
  ℕ, zero, suc, ◌+◌, ◌-◌, ◌*◌, ◌/◌, ◌%◌, ◌^◌, min, Bool, List, [], ◌∷◌, ◌++◌, Text, codes, ◌==◌,
  length, get_or, if◌then◌else◌,
}
use tekflash.Tui.Action.{Action, flash, backup, archive}
use tekflash.Tui.CodecPicker.{
  CodecPicker, CodecChoice, codec_table, current, current_level, output_extension,
}
use tekflash.Tui.Theme.{Theme, title, body, muted_s, success_s}
use tekflash.Tui.Views.Figures.{decimal}
use tekflash.Tui.Views.Home.{right_aligned, bar_of}
use tekflash.Tui.Views.Spans.{Span, Line, unstyled, footer_keys}

-- `bar`: ten cells.
unfoldable pub bar : Theme → (score : ℕ) → Span
unfolding success_s
bar theme score = (bar_of (min score 10) 10, success_s theme)

abbrev heading_of : Action → Text
heading_of backup = codes " Choose compression for backup "
heading_of archive = codes " Choose compression for archive "
heading_of flash = codes " Choose compression "

unfoldable pub header_line : Theme → CodecPicker → Line
unfolding title muted_s
header_line theme p =
    (heading_of p.action, title theme)
    ∷ unstyled (codes "  ")
    ∷ (codes "size & speed bars are rough hints", muted_s theme)
    ∷ []

-- `{:<n}`.
left_aligned : (width : ℕ) → Text → Text
left_aligned zero t = t
left_aligned (suc n) [] = b' ' ∷ left_aligned n []
left_aligned (suc n) (c ∷ t) = c ∷ left_aligned n t

abbrev level_text : CodecChoice → ℕ → Text
level_text c level =
    if c.min_level == c.max_level then codes " — " else b'L' ∷ right_aligned 2 (decimal level)

-- The two lines of a codec at a level.
unfoldable pub item : Theme → CodecChoice → ℕ → List Line
unfolding bar title body muted_s right_aligned decimal left_aligned
item theme c level =
    ((codes "  " ++ left_aligned 11 c.name, body theme)
      ∷ (right_aligned 4 (level_text c level) ++ codes "  ", title theme)
      ∷ (codes "size  ", muted_s theme)
      ∷ bar theme c.size_score
      ∷ unstyled (codes "   ")
      ∷ (codes "speed ", muted_s theme)
      ∷ bar theme c.speed_score
      ∷ [])
    ∷ (unstyled (codes "           ") ∷ (c.blurb, muted_s theme) ∷ [])
    ∷ []

abbrev items_from : Theme → ℕ → List CodecChoice → List ℕ → List (List Line)
items_from theme i [] levels = []
items_from theme i (c ∷ cs) levels =
    item theme c (get_or levels i 0) ∷ items_from theme (suc i) cs levels

unfoldable pub items : Theme → CodecPicker → List (List Line)
unfolding item
items theme p = items_from theme 0 codec_table p.levels

-- Where a level stands between its bounds, in tenths, as a u8.
unfoldable pub pos_of : (min_level max_level level : ℕ) → ℕ
pos_of min_level max_level level =
    let span_len = max_level - min_level in
    (if span_len == 0 then 0 else 10 * (level - min_level) / span_len) % 2 ^ 8

unfoldable pub level_pos : CodecPicker → ℕ
unfolding pos_of
level_pos p = pos_of (current p).min_level (current p).max_level (current_level p)

unfoldable pub level_line : Theme → CodecPicker → Line
unfolding current current_level title body muted_s right_aligned decimal level_pos bar
level_line theme p =
    let c = current p in
    (codes "level: ", muted_s theme)
    ∷ (if c.min_level == c.max_level
        then (codes "no level for this codec", body theme) ∷ []
        else (right_aligned 2 (decimal (current_level p)), title theme)
          ∷ (
            codes "  (range "
                ++ (decimal c.min_level ++ (codes " – " ++ (decimal c.max_level ++ codes ")  "))),
            muted_s theme,
          )
          ∷ bar theme (level_pos p)
          ∷ [])

abbrev output_text : Text → Text
output_text [] = codes "(raw output for the chosen action)"
output_text (c ∷ t) = codes "filename will end in " ++ c ∷ t

unfoldable pub summary : Theme → CodecPicker → List Line
unfolding current level_line output_extension title body muted_s
summary theme p =
    ((codes "codec : ", muted_s theme)
      ∷ ((current p).name, title theme)
      ∷ unstyled (codes "   ")
      ∷ ((current p).blurb, muted_s theme)
      ∷ [])
    ∷ level_line theme p
    ∷ ((codes "output: ", muted_s theme)
        ∷ (output_text (output_extension p p.action), body theme)
        ∷ [])
    ∷ []

unfoldable pub footer_line : Theme → Line
unfolding footer_keys
footer_line theme = footer_keys theme (
    (codes "Up/Dn", codes "choose codec")
    ∷ (codes "Left/Right or -/+", codes "adjust level")
    ∷ (codes "0/9", codes "min/max")
    ∷ (codes "Enter", codes "next")
    ∷ (codes "Esc", codes "cancel")
    ∷ [])
