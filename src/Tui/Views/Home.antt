-- ===== src/Tui/Views/Home.antt =====
-- crates/tekflash/src/tui/views/home.rs: the rows and lines of the home view, and how high its panel of
-- sessions is.
pub mod Fits
use tekflash.Common.{
  ℕ, zero, suc, ◌+◌, ◌-◌, ◌*◌, ◌%◌, ◌^◌, min, max, Bool, true, false, List, [], ◌∷◌, ◌++◌, map,
  Option, none, some, Text, FilePath, codes, ltb, leb, ◌==◌, length, take, if◌then◌else◌, ◌&&◌,
}
use tekflash.Device.{BlockDevice, name}
use tekflash.Runner.Progress.{BackupProgress, BackupStatus, running, done, broken, is_running}
use tekflash.Tui.Theme.{Theme, Style, title, body, muted_s, warning_s, danger_s, success_s}
use tekflash.Tui.Views.Figures.{F64, human_bytes_home, format_bytes, fraction, decimal}
use tekflash.Tui.Views.Spans.{Span, Line, unstyled, debug, join, footer_keys}

-- Two borders and a line for each session, six at most, where the area has room for them; the number of
-- sessions and the heights are u16.
unfoldable pub session_panel_h : (sessions height : ℕ) → ℕ
session_panel_h sessions height =
    let session_count = sessions % 2 ^ 16 in
    if session_count == 0 then 0 else min (2 + min session_count 6) (height - 13)

-- The row that is highlighted.
unfoldable pub selected_row : (devices selected : ℕ) → Option ℕ
selected_row devices selected = if devices == 0 then none else some (min selected (devices - 1))

unfoldable pub header_line : Theme → (version : Text) → (show_all : Bool) → Line
unfolding title muted_s warning_s
header_line theme version show_all =
    (codes " tekflash ", title theme)
    ∷ unstyled (codes " ")
    ∷ (b'v' ∷ version, muted_s theme)
    ∷ unstyled (codes "   ")
    ∷ (
      if show_all then codes "[showing internal disks]" else codes "[removable only]",
      if show_all then warning_s theme else muted_s theme,
    )
    ∷ []

abbrev repeat : ℕ → Text → Text
repeat zero t = []
repeat (suc n) t = t ++ repeat n t

-- `{:>n}`.
unfoldable pub right_aligned : (width : ℕ) → Text → Text
right_aligned width t = repeat (width - length t) (codes " ") ++ t

-- The two glyphs of `mini_bar`, and the bar with so many of the first.
abbrev pub bar_of : (filled width : ℕ) → Text
bar_of filled width = repeat filled (codes "█") ++ repeat (width - filled) (codes "░")

-- How wide the bar is beside its fixed fields.
unfoldable pub bar_width : (inner_w prefix suffix : ℕ) → ℕ
bar_width inner_w prefix suffix = min (max (inner_w - prefix - suffix) 6) 40

abbrev count {ℓ} : {A : Type ℓ} → (A → Bool) → List A → ℕ
count p [] = 0
count p (x ∷ xs) = let rest = count p xs in if p x then suc rest else rest

unfoldable pub running_count : {G : Type 0} → List (BackupProgress G) → ℕ
unfolding is_running
running_count sessions = count is_running sessions

abbrev sessions_label : (running all : ℕ) → Text
sessions_label live all =
    if live == all && ltb 0 live
    then codes "view sessions"
    else if ltb 0 live
    then codes "view sessions (some finished)"
    else codes "view finished sessions"

abbrev tab_key : (running all : ℕ) → List (Text × Text)
tab_key live all = if all == 0 then [] else (codes "Tab", sessions_label live all) ∷ []

unfoldable pub footer_line : {G : Type 0} → Theme → List (BackupProgress G) → Line
unfolding running_count footer_keys
footer_line theme sessions = footer_keys theme (
    (codes "Up/Dn", codes "select")
      ∷ (codes "Enter", codes "pick action")
      ∷ (codes "a", codes "show-all")
      ∷ tab_key (running_count sessions) (length sessions)
    ++ (codes "r", codes "refresh") ∷ (codes "?", codes "help") ∷ (codes "q", codes "quit") ∷ [])

module _ (f : F64) (display : FilePath → Text) (theme : Theme) where
  abbrev row_style : Bool → Option Style
  row_style true = some (danger_s theme)
  row_style false = none

  -- The cells of a row, and the style of all of them on a system disk.
  unfoldable pub device_row : BlockDevice → List Text × Option Style
  unfolding name format_bytes danger_s
  device_row d = (
    display d.path
        ∷ name display d
        ∷ format_bytes f d.size_bytes
        ∷ debug d.transport
        ∷ (if d.removable then codes "yes" else codes "no ")
        ∷ join (map display d.mountpoints)
        ∷ [],
    row_style d.is_system,
  )

  unfoldable pub mini_bar : f.Double → (width : ℕ) → Text
  mini_bar ratio width =
      let unit =
        if f.lt ratio (f.of_u64 0)
        then f.of_u64 0
        else if f.lt (f.of_u64 1) ratio
        then f.of_u64 1
        else ratio in
      bar_of (min (f.as_u64 (f.round (f.mul unit (f.of_u64 width)))) width) width

  abbrev icon_of : BackupStatus → Span
  icon_of running = (codes " ▶", success_s theme)
  icon_of (done h e) = (codes " ✓", success_s theme)
  icon_of (broken m) = (codes " ✗", danger_s theme)

  abbrev rate_of : BackupStatus → f.Double → Text
  rate_of running instant_rate = human_bytes_home f (f.as_u64 instant_rate) ++ codes "/s"
  rate_of (done h e) instant_rate = codes "complete"
  rate_of (broken m) instant_rate = codes "failed"

  abbrev bar_style : BackupStatus → Style
  bar_style running = success_s theme
  bar_style (done h e) = success_s theme
  bar_style (broken m) = danger_s theme

  abbrev dest_name : FilePath → Text
  dest_name [] = display []
  dest_name (file ∷ above) = file

  abbrev or_zero : Option f.Double → f.Double
  or_zero none = f.of_u64 0
  or_zero (some r) = r

  -- The line of the session `idx`, whose rate is `instant_rate`.
  unfoldable pub session_line : {G : Type 0} → ℕ → BackupProgress G → f.Double → ℕ → Line
  unfolding fraction right_aligned decimal human_bytes_home bar_width mini_bar body muted_s
      success_s danger_s
  session_line idx s instant_rate inner_w =
      let (icon, icon_style) = icon_of s.status in
      let unit = or_zero (fraction f s) in
      let pct =
        right_aligned 3 (decimal (f.as_u64 (f.round (f.mul unit (f.of_u64 100))))) ++ codes "%" in
      let rate = right_aligned 12 (rate_of s.status instant_rate) in
      let dest = dest_name s.params.dest in
      let index = codes " [" ++ (decimal idx ++ codes "]  ") in
      let prefix = codes " " ++ (icon ++ index) in
      let suffix = codes "  " ++ (pct ++ (codes "  " ++ (rate ++ (codes "  -> " ++ dest)))) in
      let bar_w = bar_width inner_w (length prefix) (length suffix) in
      (b' ' ∷ icon, icon_style)
      ∷ (index, muted_s theme)
      ∷ (mini_bar unit bar_w, bar_style s.status)
      ∷ (codes "  " ++ (pct ++ codes "  "), body theme)
      ∷ (rate, body theme)
      ∷ (codes "  -> ", muted_s theme)
      ∷ (dest, body theme)
      ∷ []

  abbrev lines_from : {G : Type 0} → ℕ → List (BackupProgress G × f.Double) → ℕ → List Line
  lines_from idx [] inner_w = []
  lines_from idx ((s, rate) ∷ rest) inner_w =
      session_line idx s rate inner_w ∷ lines_from (suc idx) rest inner_w

  -- The panel shows the first six sessions, each with its rate.
  unfoldable pub session_lines :
      {G : Type 0} → List (BackupProgress G × f.Double) → (width : ℕ) → List Line
  unfolding session_line
  session_lines sessions width = lines_from 0 (take 6 sessions) (width - 2)
