-- ===== src/Tui/Theme.antt =====
-- crates/tekflash/src/tui/theme.rs. The environment is a function from names to values; reading a number
-- and trimming are the standard library's and parameters.
use tekflash.Common.{
  ℕ, Bool, true, false, [], ◌∷◌, Option, none, some, Text, codes, text_eq, contains, ltb,
  is_some_bool, if◌then◌else◌, ◌==◌, ◌||◌,
}

pub data Tier : Type 0 where
  truecolor indexed256 indexed16 mono : Tier

pub data Mode : Type 0 where
  dark light : Mode

pub data ThemeChoice : Type 0 where
  auto dark light : ThemeChoice

-- The colours of ratatui that the palettes name.
pub data Color : Type 0 where
  rgb : (r g b : ℕ) → Color
  black red green yellow blue cyan gray dark_gray : Color
  light_red light_green light_blue white : Color

pub record Theme : Type 0 where
  pub mode : Mode
  pub tier : Tier
  pub ascii : Bool
  pub fg : Color
  pub bg : Color
  pub accent : Color
  pub success : Color
  pub warning : Color
  pub danger : Color
  pub muted : Color
  pub selected_bg : Color
  pub progress_fill : Color

-- `Style`, as far as the program sets it.
pub record Style : Type 0 where
  pub fore : Option Color
  pub back : Option Color
  pub bold : Bool

unfoldable pub title : Theme → Style
title t = record { fore = some t.accent; back = none; bold = true }

unfoldable pub body : Theme → Style
body t = record { fore = some t.fg; back = none; bold = false }

unfoldable pub muted_s : Theme → Style
muted_s t = record { fore = some t.muted; back = none; bold = false }

unfoldable pub selected : Theme → Style
selected t = record { fore = some t.fg; back = some t.selected_bg; bold = true }

unfoldable pub danger_s : Theme → Style
danger_s t = record { fore = some t.danger; back = none; bold = true }

unfoldable pub success_s : Theme → Style
success_s t = record { fore = some t.success; back = none; bold = true }

unfoldable pub warning_s : Theme → Style
warning_s t = record { fore = some t.warning; back = none; bold = false }

-- `split(';').nth(1)`: what stands between the first two semicolons.
abbrev up_to_semicolon : Text → Text
up_to_semicolon [] = []
up_to_semicolon (c ∷ s) = let rest = up_to_semicolon s in if c == b';' then [] else c ∷ rest

abbrev second_field : Text → Option Text
second_field [] = none
second_field (c ∷ s) =
    let rest = second_field s in if c == b';' then some (up_to_semicolon s) else rest

module _ (env : Text → Option Text) (parse_u8 : Text → Option ℕ) where
  abbrev var_is : Text → Text → Bool
  var_is name value = elim (env name) [ none ↦ false | some v ↦ text_eq v value ]

  abbrev var_or_empty : Text → Text
  var_or_empty name = elim (env name) [ none ↦ [] | some v ↦ v ]

  abbrev mode_of_number : Option ℕ → Mode
  mode_of_number none = Mode.dark
  mode_of_number (some n) = if ltb n 8 then Mode.dark else Mode.light

  abbrev mode_of_field : Option Text → Mode
  mode_of_field none = Mode.dark
  mode_of_field (some bg) = mode_of_number (parse_u8 bg)

  abbrev mode_of_colors : Option Text → Mode
  mode_of_colors none = Mode.dark
  mode_of_colors (some v) = mode_of_field (second_field v)

  -- `parse_u8` trims the field and reads it.
  unfoldable pub detect_mode : Mode
  unfolding text_eq
  detect_mode =
      if var_is (codes "TEKFLASH_THEME") (codes "light")
      then Mode.light
      else if var_is (codes "TEKFLASH_THEME") (codes "dark")
      then Mode.dark
      else mode_of_colors (env (codes "COLORFGBG"))

  abbrev tier_of_term : (term colorterm : Text) → Tier
  tier_of_term term colorterm =
      if text_eq term (codes "dumb")
      then mono
      else if text_eq colorterm (codes "truecolor") || text_eq colorterm (codes "24bit")
      then truecolor
      else if contains term (codes "256color")
          || (contains term (codes "kitty") || contains term (codes "alacritty"))
      then indexed256
      else if text_eq term (codes "linux")
      then indexed16
      else indexed256

  unfoldable pub detect_tier : Tier
  unfolding text_eq contains
  detect_tier =
      if is_some_bool (env (codes "NO_COLOR"))
      then mono
      else tier_of_term (var_or_empty (codes "TERM")) (var_or_empty (codes "COLORTERM"))

  unfoldable pub is_dumb_terminal : Bool
  unfolding text_eq
  is_dumb_terminal = var_is (codes "TERM") (codes "linux") || var_is (codes "TERM") (codes "dumb")

-- The colours in the order of the source: text, ground, accent, success, warning, danger, muted and
-- selection.
abbrev theme_of :
    Mode → Tier → Bool → (fg bg accent success warning danger muted sel : Color) → Theme
theme_of mode tier ascii fg bg accent success warning danger muted sel = record {
  mode = mode;
  tier = tier;
  ascii = ascii;
  fg = fg;
  bg = bg;
  accent = accent;
  success = success;
  warning = warning;
  danger = danger;
  muted = muted;
  selected_bg = sel;
  progress_fill = success;
}

unfoldable pub palette : Mode → Tier → Bool → Theme
palette Mode.dark truecolor ascii =
    theme_of Mode.dark truecolor ascii (rgb 0xE6 0xED 0xF3) (rgb 0x0E 0x11 0x16)
      (rgb 0x7D 0xF9 0xFF) (rgb 0x39 0xFF 0x14) (rgb 0xFF 0xB3 0x00) (rgb 0xFF 0x38 0x60)
      (rgb 0x8B 0x94 0x9E) (rgb 0x26 0x4F 0x78)
palette Mode.light truecolor ascii =
    theme_of Mode.light truecolor ascii (rgb 0x1B 0x1F 0x23) (rgb 0xFA 0xFA 0xF7)
      (rgb 0x00 0x6B 0x7A) (rgb 0x0A 0x7F 0x1F) (rgb 0xA8 0x5C 0x00) (rgb 0xB0 0x00 0x20)
      (rgb 0x6B 0x72 0x80) (rgb 0xCD 0xE7 0xF0)
palette Mode.dark tier ascii =
    theme_of Mode.dark tier ascii white black cyan light_green yellow light_red gray blue
palette Mode.light tier ascii =
    theme_of Mode.light tier ascii black white blue green yellow red dark_gray light_blue

unfoldable pub resolve :
    (env : Text → Option Text) (parse_u8 : Text → Option ℕ) → ThemeChoice → (ascii : Bool) → Theme
unfolding detect_mode detect_tier is_dumb_terminal palette
resolve env parse_u8 choice ascii =
    palette
      (elim choice [
        | ThemeChoice.dark ↦ Mode.dark
        | ThemeChoice.light ↦ Mode.light
        | ThemeChoice.auto ↦ detect_mode env parse_u8
      ])
      (detect_tier env parse_u8) (ascii || is_dumb_terminal env parse_u8)
