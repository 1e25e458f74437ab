-- ===== src/Tests/TuiTests.antt =====
-- The interface and its sessions on small inputs.
use tekflash.Common.{
  ◌≤◌, ◌≡◌, ◌⊎◌, refl, true, false, [], ◌∷◌, ◌++◌, Option, none, some, Text, codes, FilePath, arith,
}
use tekflash.Device.{BlockDevice, Transport}
use tekflash.Pipeline.Compress.{Codec, default_level, encoder}
use tekflash.Runner.Progress
use tekflash.Runner.Progress.{
  BackupProgress, BackupParams, BackupEvent, OperationKind, ArchiveFormat, started, tick, finished,
  is_running, is_last, apply, drain, poll,
}
use tekflash.Tui.Action.{flash, backup}
use tekflash.Tui.CodecPicker
use tekflash.Tui.CodecPicker.{CodecPicker, current, current_level, picked}
use tekflash.Tui.CodecPicker.Levels
use tekflash.Tui.CodecPicker.Levels.{
  move, higher, new-WellFormed, move-WellFormed, encoder-picked, unclamped,
}
use tekflash.Tui.Confirm.{Confirm, confirm}
use tekflash.Tui.FileBrowser.Defs
use tekflash.Tui.FileBrowser.Defs.{FileSystem, FileBrowser, saving, DirEntry}
use tekflash.Tui.FileBrowser.Ops.{
  open_with_extension, enter_focused, accept_char, composed_save_name, compose, is_valid_input_char,
  refresh, focus_save_here,
}
use tekflash.Tui.FileBrowser.Invariant
use tekflash.Tui.FileBrowser.Invariant.{open_with_extension-WellFormed}
use tekflash.Tui.FileBrowser.Typing.{enter_focused-accept_char}
use tekflash.Tui.FileBrowser.SaveName.{IsSettled, compose-IsSettled}
use tekflash.Tui.App.State.{char, enter, AppState, System}
use tekflash.Tui.App.Dispatch.{dispatch_key}
use tekflash.Tui.App.Sessions.{SessionStep, dispatch_key-SessionStep}
use tekflash.Tui.App.Modals.{open_views, dispatch_key-open_views}
use tekflash.Tui.App.Screen.{on_screen, shown, dispatch_key-on_screen}
use tekflash.Tui.App.Flashing.{flashes, dispatch_key-flashes}
use tekflash.Tui.App.Devices.{
  SameDevices, InRange, busy, dispatch_key-SameDevices, dispatch_key-InRange,
}

abbrev home : FilePath
home = codes "home" ∷ []

abbrev fs : FileSystem
fs = record {
  read_dir = λ dir. some (record { file_name = codes "disk.img"; metadata = none } ∷ []);
  canonicalize = λ p. some p;
  read_head = λ p. none;
  display = λ p. codes "disk.img";
  default_start_dir = home;
}

abbrev sys : System
sys = record { fs = fs; enumerate_raw = none; raw_path = λ p. p; file_len = λ p. some 64 }

abbrev stick : BlockDevice
stick = record {
  path = codes "sdb" ∷ [];
  vendor = none;
  model = none;
  serial = none;
  size_bytes = 64;
  block_size = 512;
  transport = Transport.usb;
  removable = true;
  is_system = false;
  read_only = false;
  mountpoints = [];
}

-- A flash of `/home/disk.img` waits for Enter.
abbrev asked : Confirm
asked = record {
  action = flash;
  device_idx = 0;
  file = codes "disk.img" ∷ home;
  focus = confirm;
  codec = none;
  level = none;
  result_message = none;
}

abbrev state : Option Confirm → AppState Text
state c = record {
  devices = stick ∷ [];
  selected = 0;
  show_help = false;
  show_all = false;
  action_picker = none;
  codec_picker = none;
  browser = none;
  browser_purpose = none;
  confirm = c;
  sessions = [];
  viewing_session = none;
}

dispatch_key-SessionStep_example :
    SessionStep sys
      (state (some asked))
      enter
      (dispatch_key sys (state (some asked)) enter false).0.sessions
dispatch_key-SessionStep_example = dispatch_key-SessionStep sys (state (some asked)) enter false

one_view : open_views (state (some asked)) ≤ 1
unfolding open_views
one_view = omega arith

dispatch_key-open_views_example :
    open_views (dispatch_key sys (state (some asked)) enter false).0 ≤ 1
dispatch_key-open_views_example =
    dispatch_key-open_views sys (state (some asked)) enter false one_view

none_shown : on_screen (state (some asked)) ≡ true
unfolding on_screen shown
none_shown = refl

dispatch_key-on_screen_example :
    on_screen (dispatch_key sys (state (some asked)) enter false).0 ≡ true
dispatch_key-on_screen_example =
    dispatch_key-on_screen sys (state (some asked)) enter false none_shown

view_has_keys : busy (state (some asked)) ≡ true
unfolding busy
view_has_keys = refl

dispatch_key-SameDevices_example :
    SameDevices (state (some asked)) (dispatch_key sys (state (some asked)) enter false).0
dispatch_key-SameDevices_example =
    dispatch_key-SameDevices sys (state (some asked)) enter false view_has_keys

dispatch_key-flashes_example :
    flashes (dispatch_key sys (dispatch_key sys (state none) enter false).0 enter false).0.sessions
    ≤ flashes {G = Text} []
dispatch_key-flashes_example = dispatch_key-flashes sys (state none) enter false false refl

first_selected : InRange (state none)
unfolding InRange
first_selected = omega arith

dispatch_key-InRange_example : InRange (dispatch_key sys (state none) (char b'a') false).0
dispatch_key-InRange_example =
    dispatch_key-InRange sys (state none) (char b'a') false (ground arith) first_selected

move-WellFormed_example : Levels.WellFormed (move higher (CodecPicker.new backup 0))
move-WellFormed_example =
    move-WellFormed higher (CodecPicker.new backup 0) (new-WellFormed backup 0)

encoder-picked_example :
    encoder (picked (CodecPicker.new backup 0)).0 (picked (CodecPicker.new backup 0)).1
    ≡ unclamped
        (current (CodecPicker.new backup 0)).codec
        (current_level (CodecPicker.new backup 0))
encoder-picked_example = encoder-picked (CodecPicker.new backup 0) (new-WellFormed backup 0)

abbrev saving_browser : FileBrowser
saving_browser = open_with_extension fs home saving (some (codes ".img.zst"))

saves : saving_browser.mode ≡ saving
unfolding open_with_extension refresh focus_save_here
saves = ground arith

valid_letter : is_valid_input_char b'a' ≡ true
unfolding is_valid_input_char
valid_letter = refl

enter_focused-accept_char_example :
    (enter_focused fs (accept_char saving_browser b'a')).1
    ≡ Defs.picked (
        composed_save_name
          (record saving_browser { save_name = saving_browser.save_name ++ b'a' ∷ [] })
        ∷ saving_browser.cwd)
enter_focused-accept_char_example =
    enter_focused-accept_char fs saving_browser b'a'
      (open_with_extension-WellFormed fs home saving (some (codes ".img.zst"))) saves valid_letter

compose-IsSettled_example :
    ((IsSettled (codes ".img") (codes "disk")
        × (compose (codes "disk") (some (codes ".img")) ≡ codes "disk"))
      ⊎ ((¬ IsSettled (codes ".img") (codes "disk"))
          × (compose (codes "disk") (some (codes ".img")) ≡ codes "disk" ++ codes ".img")))
    × IsSettled (codes ".img") (compose (codes "disk") (some (codes ".img")))
    × (compose (compose (codes "disk") (some (codes ".img"))) (some (codes ".img"))
        ≡ compose (codes "disk") (some (codes ".img")))
compose-IsSettled_example =
    compose-IsSettled (codes "disk") (codes ".img") (ground arith) (ground arith)

abbrev session : BackupProgress Text
session = Progress.new 0 (record {
  kind = OperationKind.backup;
  source = codes "sdb" ∷ [];
  dest = codes "disk.img" ∷ home;
  codec = Codec.none;
  level = default_level;
  total_bytes = none;
  archive_format = ArchiveFormat.tar;
  archive_selection = none;
})

abbrev ended : BackupEvent
ended = finished 64 64 (codes "af") 2

session_runs : is_running session ≡ true
unfolding is_running Progress.new
session_runs = refl
