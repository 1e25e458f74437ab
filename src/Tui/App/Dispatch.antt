-- ===== src/Tui/App/Dispatch.antt =====
-- The keys of a session and of the confirmation, and `dispatch_key`, in
-- crates/tekflash/src/tui/mod.rs.
use tekflash.Common.{
  ℕ, zero, suc, ◌+◌, ◌-◌, Bool, true, false, not, ◌&&◌, List, [], ◌∷◌, Option, none, some, ◌==◌,
  ltb, if◌then◌else◌, length, get_elem?, min,
}
use tekflash.Pipeline.Compress.{Codec, default_level}
use tekflash.Runner.Progress.{
  BackupProgress, BackupParams, OperationKind, ArchiveFormat, is_running,
}
use tekflash.Tui.Action.{Action, flash}
use tekflash.Tui.Confirm.{Confirm, ConfirmFocus, cancel, confirm, toggle_focus}
use tekflash.Tui.App.State.{KeyCode, char, esc, enter, left, right, tab, back_tab, AppState, System}
use tekflash.Tui.App.Keys.{or_else, start_session, handle_home_key}
use tekflash.Tui.FileBrowser.Defs.{FileBrowser}
use tekflash.Tui.CodecPicker.{CodecPicker}
use tekflash.Tui.Action.{ActionPicker}
use tekflash.Tui.App.Pickers.{handle_action_picker_key, handle_codec_picker_key}
use tekflash.Tui.App.Browsing.{device_path, handle_browser_key}

-- `Vec::remove` at an index within the vector.
unfoldable pub remove_at {ℓ} : {A : Type ℓ} → ℕ → List A → List A
remove_at i [] = []
remove_at zero (s ∷ ss) = ss
remove_at (suc i) (s ∷ ss) = s ∷ remove_at i ss

unfoldable pub is_ctrl_c : KeyCode → Bool → Bool
is_ctrl_c (char c) ctrl = c == b'c' && ctrl
is_ctrl_c _ ctrl = false

module _ {G : Type 0} where
  unfoldable pub ended : Option (BackupProgress G) → Bool
  unfolding is_running
  ended none = false
  ended (some s) = not (is_running s)

  -- Enter on the session at `idx`.
  unfoldable pub dismiss : AppState G → ℕ → AppState G
  unfolding ended remove_at
  dismiss st idx =
      if ended (get_elem? st.sessions idx)
      then (let sessions = remove_at idx st.sessions in
          record st {
            sessions = sessions;
            viewing_session =
                if length sessions == 0 then none else some (min idx (length sessions - 1));
          })
      else st

  next_session : AppState G → ℕ → AppState G
  next_session st idx = record st {
    viewing_session = if ltb (idx + 1) (length st.sessions) then some (idx + 1) else none;
  }

  unfoldable pub handle_progress_key : AppState G → ℕ → KeyCode → AppState G
  unfolding dismiss next_session
  handle_progress_key st idx esc = record st { viewing_session = none }
  handle_progress_key st idx enter = dismiss st idx
  handle_progress_key st idx tab = next_session st idx
  handle_progress_key st idx (char c) =
      if c == b'q' then record st { viewing_session = none } else st
  handle_progress_key st idx _ = st

  unfoldable pub flash_params : System → AppState G → Confirm → BackupParams G
  unfolding device_path
  flash_params sys st c = record {
    kind = OperationKind.flash;
    source = c.file;
    dest = sys.raw_path (device_path st.devices c.device_idx);
    codec = or_else c.codec Codec.none;
    level = or_else c.level default_level;
    total_bytes = sys.file_len c.file;
    archive_format = ArchiveFormat.tar;
    archive_selection = none;
  }

  -- Only a flash goes on behind the confirmation.
  unfoldable pub confirmed : System → AppState G → Confirm → Action → AppState G
  unfolding flash_params start_session
  confirmed sys st c flash =
      start_session c.device_idx (flash_params sys st c) (record st { confirm = none })
  confirmed sys st c _ = record st { confirm = none }

  unfoldable pub confirm_enter : System → AppState G → Confirm → ConfirmFocus → AppState G
  unfolding confirmed
  confirm_enter sys st c cancel = record st { confirm = none }
  confirm_enter sys st c confirm = confirmed sys st c c.action

  abbrev with_confirm : AppState G → Confirm → AppState G
  with_confirm st c = record st { confirm = some c }

  unfoldable pub handle_confirm_key : System → AppState G → Confirm → KeyCode → AppState G
  unfolding confirm_enter toggle_focus
  handle_confirm_key sys st c esc = record st { confirm = none }
  handle_confirm_key sys st c left = with_confirm st (toggle_focus c)
  handle_confirm_key sys st c right = with_confirm st (toggle_focus c)
  handle_confirm_key sys st c tab = with_confirm st (toggle_focus c)
  handle_confirm_key sys st c back_tab = with_confirm st (toggle_focus c)
  handle_confirm_key sys st c enter = confirm_enter sys st c c.focus
  handle_confirm_key sys st c (char k) =
      if k == b'q'
      then record st { confirm = none }
      else if k == b'h'
      then with_confirm st (record c { focus = cancel })
      else if k == b'l'
      then with_confirm st (record c { focus = confirm })
      else st
  handle_confirm_key sys st c _ = st

  -- The view that is open takes the key: the arguments are those of the state.
  unfoldable pub route :
      System
      → AppState G
      → Option ℕ
      → Option Confirm
      → Option FileBrowser
      → Option CodecPicker
      → Option ActionPicker
      → KeyCode
      → Bool
      → AppState G × Bool
  unfolding handle_home_key handle_action_picker_key handle_codec_picker_key handle_browser_key
      handle_confirm_key handle_progress_key
  route sys st (some idx) _ _ _ _ code ctrl = (handle_progress_key st idx code, false)
  route sys st none (some c) _ _ _ code ctrl = (handle_confirm_key sys st c code, false)
  route sys st none none (some b) _ _ code ctrl = (handle_browser_key sys st b code ctrl, false)
  route sys st none none none (some p) _ code ctrl = (handle_codec_picker_key sys st p code, false)
  route sys st none none none none (some p) code ctrl =
      (handle_action_picker_key sys st p code, false)
  route sys st none none none none none code ctrl = handle_home_key sys st code

  -- `ctrl` says that the control key is held.
  unfoldable pub dispatch_key : System → AppState G → KeyCode → Bool → AppState G × Bool
  unfolding route is_ctrl_c
  dispatch_key sys st code ctrl =
      if is_ctrl_c code ctrl
      then (st, true)
      else route sys st st.viewing_session st.confirm st.browser st.codec_picker st.action_picker
          code ctrl
