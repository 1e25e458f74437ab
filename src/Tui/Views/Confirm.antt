-- ===== src/Tui/Views/Confirm.antt =====
-- `render` of crates/tekflash/src/tui/views/confirm.rs: the text of the modal with its styles. Where it
-- stands on the screen is ratatui's.
pub mod Warnings
use tekflash.Common.{
  Bool, true, false, List, [], ◌∷◌, ◌++◌, map, Option, none, some, Text, FilePath, codes, ◌||◌,
  if◌then◌else◌,
}
use tekflash.Device.{BlockDevice, name}
use tekflash.Pipeline.Compress.{Codec, CompressionLevel}
use tekflash.Tui.Action.{Action, flash, backup, archive}
use tekflash.Tui.Confirm.{Confirm, ConfirmFocus, cancel, confirm}
use tekflash.Tui.Theme.{Theme, Style, title, body, muted_s, selected, danger_s, success_s}
use tekflash.Tui.Views.Figures.{F64, format_bytes}
use tekflash.Tui.Views.Spans.{Span, Line, unstyled, blank, debug, join, codec_text}

pub record ConfirmView : Type 0 where
  pub border : Style
  pub heading : Span
  pub lines : List Line
  pub buttons : Line

abbrev pub is_flash : Action → Bool
is_flash flash = true
is_flash backup = false
is_flash archive = false

unfoldable pub dangerous : Action → BlockDevice → Bool
dangerous action device = is_flash action || device.is_system

abbrev heading_of : Action → Text
heading_of flash = codes " Confirm flash "
heading_of backup = codes " Confirm backup "
heading_of archive = codes " Confirm archive "

abbrev button_of : Action → Text
button_of flash = codes "  Flash  "
button_of backup = codes "  Back up  "
button_of archive = codes "  Archive  "

abbrev pub overwrite_warning : Text
overwrite_warning = codes "⚠  Flashing will OVERWRITE every byte on the target device."

abbrev pub system_warning : Text
system_warning = codes "⚠  This is the system / boot disk. Writing to it can break this machine."

abbrev pub warning_lines : Theme → Bool → Text → List Line
warning_lines theme false text = []
warning_lines theme true text = blank ∷ ((text, danger_s theme) ∷ []) ∷ []

abbrev pub message_lines : Theme → Option Text → List Line
message_lines theme none = []
message_lines theme (some msg) = blank ∷ ((msg, success_s theme) ∷ []) ∷ []

module _ (f : F64) (display : FilePath → Text) (theme : Theme) where
  abbrev direction_line : Action → (file device : Text) → Line
  direction_line flash file device =
      (file, body theme) ∷ (codes "   ->   ", title theme) ∷ (device, danger_s theme) ∷ []
  direction_line backup file device =
      (device, body theme) ∷ (codes "   ->   ", title theme) ∷ (file, body theme) ∷ []
  direction_line archive file device =
      (device, body theme) ∷ (codes "   ->   ", title theme) ∷ (file, body theme) ∷ []

  abbrev mounts_text : List FilePath → Text
  mounts_text [] = codes "(none)"
  mounts_text (m ∷ ms) = join (map display (m ∷ ms))

  abbrev field_line : Text → Text → Line
  field_line label value = (label, muted_s theme) ∷ unstyled value ∷ []

  abbrev device_lines : BlockDevice → List Line
  device_lines device =
      field_line (codes "device : ") (name display device)
      ∷ field_line (codes "size   : ") (format_bytes f device.size_bytes)
      ∷ field_line (codes "bus    : ") (debug device.transport)
      ∷ field_line (codes "mounts : ") (mounts_text device.mountpoints)
      ∷ []

  abbrev codec_lines : Option Codec → Option CompressionLevel → List Line
  codec_lines none l = []
  codec_lines (some c) none = []
  codec_lines (some c) (some l) = field_line (codes "codec  : ") (codec_text c l) ∷ []

  abbrev pub top_lines : Confirm → BlockDevice → List Line
  top_lines c device =
      ((heading_of c.action, title theme) ∷ [])
        ∷ blank
        ∷ direction_line c.action (display c.file) (display device.path)
        ∷ blank
        ∷ device_lines device
      ++ codec_lines c.codec c.level

  unfoldable pub lines_of : Confirm → BlockDevice → List Line
  unfolding title body muted_s danger_s success_s name format_bytes codec_text
  lines_of c device =
      top_lines c device
      ++ (warning_lines theme device.is_system system_warning
          ++ (warning_lines theme (is_flash c.action) overwrite_warning
              ++ message_lines theme c.result_message))

  abbrev cancel_style : ConfirmFocus → Style
  cancel_style cancel = selected theme
  cancel_style confirm = body theme

  abbrev confirm_style : ConfirmFocus → Bool → Style
  confirm_style cancel danger = body theme
  confirm_style confirm danger = if danger then danger_s theme else success_s theme

  unfoldable pub render : Confirm → BlockDevice → ConfirmView
  unfolding lines_of dangerous selected body danger_s success_s title
  render c device =
      let danger = dangerous c.action device in
      record {
        border =
            if danger
            then danger_s theme
            else record { fore = some theme.accent; back = none; bold = false };
        heading = (heading_of c.action, title theme);
        lines = lines_of c device;
        buttons =
            unstyled (codes "   ")
            ∷ (codes "  Cancel  ", cancel_style c.focus)
            ∷ unstyled (codes "            ")
            ∷ (button_of c.action, confirm_style c.focus danger)
            ∷ [];
      }
