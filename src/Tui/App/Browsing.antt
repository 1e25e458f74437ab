-- ===== src/Tui/App/Browsing.antt =====
-- The keys of the file browser, and the session that a picked file starts, in
-- crates/tekflash/src/tui/mod.rs.
use tekflash.Common.{
  ℕ, Bool, not, ◌&&◌, List, [], Option, none, some, FilePath, ◌==◌, ltb, if◌then◌else◌, get_elem?,
}
use tekflash.Device.{BlockDevice}
use tekflash.Runner.Progress.{BackupParams, OperationKind, ArchiveFormat}
use tekflash.Tui.Action.{Action, flash, backup, archive}
use tekflash.Tui.Confirm
use tekflash.Tui.Confirm.{Confirm, ConfirmFocus, cancel, confirm, toggle_focus}
use tekflash.Tui.FileBrowser.Defs.{EnterResult, navigated, nothing, picked, FileBrowser}
use tekflash.Tui.FileBrowser.Ops
use tekflash.Tui.FileBrowser.Ops.{
  open_browser, open_with_extension, enter_focused, go_parent, toggle_hidden, toggle_all_types,
  update_focus_preview, accept_char, is_nil,
}
use tekflash.Tui.App.State.{
  KeyCode, char, esc, enter, up, down, left, right, tab, backspace, BrowserPurpose, AppState,
  System,
}
use tekflash.Tui.App.Keys.{or_else, map_option, start_session}

-- `state.devices.get(i).map(|d| d.path.clone()).unwrap_or_default()`.
unfoldable pub device_path : List BlockDevice → ℕ → FilePath
device_path devices i = or_else (map_option (λ d. d.path) (get_elem? devices i)) []

-- `filter(|n| *n > 0)`.
positive : Option ℕ → Option ℕ
positive none = none
positive (some n) = if ltb 0 n then some n else none

first_mount : BlockDevice → Option FilePath
first_mount d = get_elem? d.mountpoints 0

and_then_mount : Option BlockDevice → Option FilePath
unfolding first_mount
and_then_mount none = none
and_then_mount (some d) = first_mount d

or_option : Option ℕ → Option ℕ → Option ℕ
or_option none b = b
or_option (some a) b = some a

module _ {G : Type 0} where
  unfoldable pub backup_params : System → AppState G → BrowserPurpose → FilePath → BackupParams G
  unfolding device_path positive or_option
  backup_params sys st p dest =
      let fast_source = sys.raw_path (device_path st.devices p.device_idx) in
      record {
        kind = OperationKind.backup;
        source = fast_source;
        dest = dest;
        codec = p.codec;
        level = p.level;
        total_bytes =
            or_option
              (positive (map_option (λ d. d.size_bytes) (get_elem? st.devices p.device_idx)))
              (sys.file_len fast_source);
        archive_format = ArchiveFormat.tar;
        archive_selection = none;
      }

  unfoldable pub archive_params : AppState G → BrowserPurpose → FilePath → BackupParams G
  unfolding device_path and_then_mount
  archive_params st p dest = record {
    kind = OperationKind.archive;
    source =
        or_else (and_then_mount (get_elem? st.devices p.device_idx))
          (device_path st.devices p.device_idx);
    dest = dest;
    codec = p.codec;
    level = p.level;
    total_bytes = none;
    archive_format = ArchiveFormat.tar;
    archive_selection = none;
  }

  -- A picked file, by what the browser was opened for.
  unfoldable pub with_purpose :
      System → AppState G → BrowserPurpose → Action → FilePath → AppState G
  unfolding backup_params archive_params start_session Confirm.new
  with_purpose sys st p backup file = start_session p.device_idx (backup_params sys st p file) st
  with_purpose sys st p archive file = start_session p.device_idx (archive_params st p file) st
  with_purpose sys st p flash file = record st {
    confirm = some (record (Confirm.new p.action p.device_idx file) {
      codec = some p.codec;
      level = some p.level;
    });
  }

  unfoldable pub file_picked : System → AppState G → Option BrowserPurpose → FilePath → AppState G
  unfolding with_purpose
  file_picked sys st none file = record st { browser = none; browser_purpose = none }
  file_picked sys st (some p) file =
      with_purpose sys (record st { browser = none; browser_purpose = none }) p p.action file

  abbrev with_browser : AppState G → FileBrowser → AppState G
  with_browser st b = record st { browser = some b }

  unfoldable pub browser_result : System → AppState G → FileBrowser → EnterResult → AppState G
  unfolding file_picked update_focus_preview
  browser_result sys st b (picked file) =
      file_picked sys (with_browser st b) st.browser_purpose file
  browser_result sys st b navigated = with_browser st (update_focus_preview sys.fs b)
  browser_result sys st b nothing = with_browser st (update_focus_preview sys.fs b)

  unfoldable pub browser_enter : System → AppState G → FileBrowser → AppState G
  unfolding enter_focused browser_result
  browser_enter sys st b =
      let (b', result) = enter_focused sys.fs b in browser_result sys st b' result

  unfoldable pub handle_browser_key :
      System → AppState G → FileBrowser → KeyCode → Bool → AppState G
  unfolding browser_enter toggle_all_types toggle_hidden go_parent accept_char update_focus_preview
      Ops.move_up Ops.move_down Ops.backspace
  handle_browser_key sys st b esc ctrl = record st { browser = none; browser_purpose = none }
  handle_browser_key sys st b tab ctrl = with_browser st (toggle_all_types sys.fs b)
  handle_browser_key sys st b up ctrl =
      with_browser st (update_focus_preview sys.fs (Ops.move_up b))
  handle_browser_key sys st b down ctrl =
      with_browser st (update_focus_preview sys.fs (Ops.move_down b))
  handle_browser_key sys st b left ctrl = with_browser st (go_parent sys.fs b)
  handle_browser_key sys st b backspace ctrl =
      let (b', popped) = Ops.backspace b in
      with_browser st (if not popped then go_parent sys.fs b' else b')
  handle_browser_key sys st b right ctrl = browser_enter sys st b
  handle_browser_key sys st b enter ctrl = browser_enter sys st b
  handle_browser_key sys st b (char c) ctrl =
      with_browser st (if c == b'h' && ctrl then toggle_hidden sys.fs b else accept_char b c)
  handle_browser_key sys st b _ ctrl = st
