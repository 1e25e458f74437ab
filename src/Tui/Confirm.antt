-- ===== src/Tui/Confirm.antt =====
-- crates/tekflash/src/tui/views/confirm.rs.
use tekflash.Common.{ℕ, Option, none, FilePath, Text}
use tekflash.Pipeline.Compress.{Codec, CompressionLevel}
use tekflash.Tui.Action.{Action}

pub data ConfirmFocus : Type 0 where
  cancel confirm : ConfirmFocus

pub record Confirm : Type 0 where
  pub action : Action
  pub device_idx : ℕ
  pub file : FilePath
  pub focus : ConfirmFocus
  pub codec : Option Codec
  pub level : Option CompressionLevel
  pub result_message : Option Text

unfoldable pub new : Action → ℕ → FilePath → Confirm
new action device_idx file = record {
  action = action;
  device_idx = device_idx;
  file = file;
  focus = cancel;
  codec = none;
  level = none;
  result_message = none;
}

other : ConfirmFocus → ConfirmFocus
other cancel = confirm
other confirm = cancel

unfoldable pub toggle_focus : Confirm → Confirm
unfolding other
toggle_focus c = record c { focus = other c.focus }
