-- ===== src/Tui/App/Keys.antt =====
-- `dispatch_key` and the handlers of crates/tekflash/src/tui/mod.rs. The flag that a handler returns
-- asks to leave the interface. An empty path is the path with no component.
use tekflash.Common.{
  ℕ, ◌+◌, ◌-◌, Bool, true, false, not, List, [], ◌∷◌, ◌++◌, Option, none, some, ◌==◌, ltb,
  if◌then◌else◌, length, min,
}
use tekflash.Device.{BlockDevice, enumerate}
use tekflash.Runner.Progress.{
  BackupProgress, BackupParams, OperationKind, ArchiveFormat, is_running,
}
use tekflash.Runner.Progress
use tekflash.Tui.Action
use tekflash.Tui.Action.{Action, ActionPicker, flash, backup, archive, all_actions, selected_action}
use tekflash.Tui.FileBrowser.Defs.{opening}
use tekflash.Tui.FileBrowser.Ops.{open_browser}
use tekflash.Tui.App.State.{KeyCode, char, f, esc, enter, up, down, tab, AppState, System}

abbrev pub or_else {ℓ} : {A : Type ℓ} → Option A → A → A
or_else none a = a
or_else (some b) a = b

abbrev pub map_option {ℓ κ} : {A : Type ℓ} {B : Type κ} → (A → B) → Option A → Option B
map_option g none = none
map_option g (some a) = some (g a)

-- `enumerate(show_all).unwrap_or_default()`.
devices_now : System → Bool → List BlockDevice
unfolding enumerate
devices_now sys show_all = or_else (enumerate sys.enumerate_raw show_all) []

module _ {G : Type 0} where
  -- A new session is appended and shown.
  unfoldable pub start_session : ℕ → BackupParams G → AppState G → AppState G
  unfolding Progress.new
  start_session device_idx params st =
      let sessions = st.sessions ++ Progress.new device_idx params ∷ [] in
      record st { sessions = sessions; viewing_session = some (length sessions - 1) }

  quit_home : AppState G → AppState G × Bool
  quit_home st = if st.show_help then (record st { show_help = false }, false) else (st, true)

  toggle_help : AppState G → AppState G × Bool
  toggle_help st = (record st { show_help = not st.show_help }, false)

  select_up : AppState G → AppState G × Bool
  select_up st = (if ltb 0 st.selected then record st { selected = st.selected - 1 } else st, false)

  select_down : AppState G → AppState G × Bool
  select_down st = (
    if ltb (st.selected + 1) (length st.devices)
        then record st { selected = st.selected + 1 }
        else st,
    false,
  )

  -- The key `a`.
  unfoldable pub toggle_show_all : System → AppState G → AppState G × Bool
  unfolding devices_now
  toggle_show_all sys st =
      let devices = devices_now sys (not st.show_all) in
      (
        record st {
          show_all = not st.show_all;
          devices = devices;
          selected = min st.selected (length devices - 1);
        },
        false,
      )

  -- The key `r`.
  unfoldable pub reload_devices : System → AppState G → AppState G × Bool
  unfolding devices_now
  reload_devices sys st = (record st { devices = devices_now sys st.show_all }, false)

  home_char : System → AppState G → ℕ → AppState G × Bool
  unfolding quit_home toggle_help toggle_show_all select_up select_down reload_devices
  home_char sys st c =
      if c == b'q'
      then quit_home st
      else if c == b'?'
      then toggle_help st
      else if c == b'a'
      then toggle_show_all sys st
      else if c == b'k'
      then select_up st
      else if c == b'j'
      then select_down st
      else if c == b'r'
      then reload_devices sys st
      else (st, false)

  abbrev any_device : AppState G → Bool
  any_device st = ltb 0 (length st.devices)

  unfoldable pub handle_home_key : System → AppState G → KeyCode → AppState G × Bool
  unfolding home_char quit_home toggle_help select_up select_down open_browser Action.new
  handle_home_key sys st (char c) = home_char sys st c
  handle_home_key sys st esc = quit_home st
  handle_home_key sys st (f n) =
      if n == 1
      then toggle_help st
      else if n == 2
      then (
        record st {
          browser = some (open_browser sys.fs sys.fs.default_start_dir opening);
          browser_purpose = none;
        },
        false,
      )
      else (st, false)
  handle_home_key sys st enter = (
    if any_device st then record st { action_picker = some (Action.new st.selected) } else st,
    false,
  )
  handle_home_key sys st up = select_up st
  handle_home_key sys st down = select_down st
  handle_home_key sys st tab =
      (if ltb 0 (length st.sessions) then record st { viewing_session = some 0 } else st, false)
  handle_home_key sys st _ = (st, false)
