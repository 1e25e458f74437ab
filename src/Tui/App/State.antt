-- ===== src/Tui/App/State.antt =====
-- AppState, and what the handlers of crates/tekflash/src/tui/mod.rs ask of the world around them.
use tekflash.Common.{ℕ, Bool, List, Option, FilePath}
use tekflash.Device.{BlockDevice}
use tekflash.Pipeline.Compress.{Codec, CompressionLevel}
use tekflash.Runner.Progress.{BackupProgress}
use tekflash.Tui.Action.{Action, ActionPicker}
use tekflash.Tui.CodecPicker.{CodecPicker}
use tekflash.Tui.Confirm.{Confirm}
use tekflash.Tui.FileBrowser.Defs.{FileSystem, FileBrowser}

-- crossterm's `KeyCode`, as far as a handler tells the keys apart.
pub data KeyCode : Type 0 where
  char f : ℕ → KeyCode
  esc enter up down left right tab back_tab backspace other : KeyCode

pub record BrowserPurpose : Type 0 where
  pub action : Action
  pub device_idx : ℕ
  pub codec : Codec
  pub level : CompressionLevel

-- `G` is the type of compiled glob sets. The options and the theme are left out: no handler reads
-- them.
pub record AppState (G : Type 0) : Type 0 where
  pub devices : List BlockDevice
  pub selected : ℕ
  pub show_help : Bool
  pub show_all : Bool
  pub action_picker : Option ActionPicker
  pub codec_picker : Option CodecPicker
  pub browser : Option FileBrowser
  pub browser_purpose : Option BrowserPurpose
  pub confirm : Option Confirm
  pub sessions : List (BackupProgress G)
  pub viewing_session : Option ℕ

-- The answers of the operating system at the time of a key press: the file system, the raw device
-- list (none where the backend fails), `resolve_fast_path`, and the length of a file.
pub record System : Type 0 where
  pub fs : FileSystem
  pub enumerate_raw : Option (List BlockDevice)
  pub raw_path : FilePath → FilePath
  pub file_len : FilePath → Option ℕ
