-- ===== src/Tui/App/Sessions.antt =====
-- Which sessions a key starts or removes.
use tekflash.Common.{
  ℕ, ◌≡◌, refl, Bool, false, List, [], ◌∷◌, ◌++◌, Option, none, some, ◌≢◌, get_elem?, Bool-cases,
  inl, inr, FilePath, Option-cases, ap, arith,
}
use tekflash.Runner.Progress.{BackupProgress, BackupParams, OperationKind, is_running}
use tekflash.Runner.Progress
use tekflash.Tui.Action.{Action, ActionPicker, flash, backup, archive}
use tekflash.Tui.CodecPicker.{CodecPicker}
use tekflash.Tui.FileBrowser.Defs.{EnterResult, navigated, nothing, picked, FileBrowser}
use tekflash.Tui.FileBrowser.Ops.{enter_focused}
use tekflash.Tui.Confirm.{Confirm, ConfirmFocus, cancel, confirm}
use tekflash.Tui.App.State.{
  KeyCode, char, enter, right, backspace, AppState, System, BrowserPurpose,
}
use tekflash.Tui.App.Keys.{start_session, handle_home_key}
use tekflash.Tui.App.Pickers.{handle_action_picker_key, handle_codec_picker_key}
use tekflash.Tui.App.Browsing.{
  device_path, backup_params, archive_params, browser_result, browser_enter, handle_browser_key,
  file_picked, with_purpose,
}
use tekflash.Tui.App.Routing.{by_routing}
use tekflash.Tui.App.Dispatch.{
  remove_at, handle_progress_key, handle_confirm_key, dispatch_key, flash_params, confirmed,
  confirm_enter, dismiss, ended, route,
}

module _ {G : Type 0} where
  -- What a key may do to the sessions: nothing, dismiss the one on screen when it has ended, start a
  -- backup or an archive, or start the flash that the confirmation shows.
  pub data SessionStep (sys : System) (st : AppState G) (k : KeyCode)
      (after : List (BackupProgress G)) : Type 0 where
    kept : after ≡ st.sessions → SessionStep sys st k after
    dismissed :
        (i : ℕ) (s : BackupProgress G)
        → st.viewing_session ≡ some i
        → get_elem? st.sessions i ≡ some s
        → is_running s ≡ false
        → k ≡ enter
        → after ≡ remove_at i st.sessions
        → SessionStep sys st k after
    started_reading :
        (i : ℕ) (params : BackupParams G)
        → params.kind ≢ OperationKind.flash
        → after ≡ st.sessions ++ Progress.new i params ∷ []
        → SessionStep sys st k after
    started_flash :
        (c : Confirm) (params : BackupParams G)
        → st.viewing_session ≡ none
        → st.confirm ≡ some c
        → c.focus ≡ confirm
        → c.action ≡ flash
        → k ≡ enter
        → params.kind ≡ OperationKind.flash
        → params.source ≡ c.file
        → params.dest ≡ sys.raw_path (device_path st.devices c.device_idx)
        → after ≡ st.sessions ++ Progress.new c.device_idx params ∷ []
        → SessionStep sys st k after

  handle_home_key_lem :
      (sys : System) (st : AppState G) (k : KeyCode)
      → (handle_home_key sys st k).0.sessions ≡ st.sessions
  unfolding handle_home_key
  handle_home_key_lem sys st k = ground arith

  handle_codec_picker_key_lem :
      (sys : System) (st : AppState G) (p : CodecPicker) (k : KeyCode)
      → (handle_codec_picker_key sys st p k).sessions ≡ st.sessions
  unfolding handle_codec_picker_key
  handle_codec_picker_key_lem sys st p k = ground arith

  handle_action_picker_key_lem :
      (sys : System) (st : AppState G) (p : ActionPicker) (k : KeyCode)
      → (handle_action_picker_key sys st p k).sessions ≡ st.sessions
  unfolding handle_action_picker_key
  handle_action_picker_key_lem sys st p k = ground arith

  -- A session that reads its device.
  started :
      (sys : System) (st st' : AppState G) (k : KeyCode) (i : ℕ) (params : BackupParams G)
      → st'.sessions ≡ st.sessions
      → params.kind ≢ OperationKind.flash
      → SessionStep sys st k (start_session i params st').sessions
  unfolding start_session
  started sys st st' k i params h n =
      started_reading i params n (ap (λ s. s ++ Progress.new i params ∷ []) h)

  with_purpose-SessionStep :
      (sys : System) (st st' : AppState G) (k : KeyCode) (p : BrowserPurpose) (a : Action)
      (file : FilePath)
      → st'.sessions ≡ st.sessions
      → SessionStep sys st k (with_purpose sys st' p a file).sessions
  unfolding with_purpose backup_params archive_params
  with_purpose-SessionStep sys st st' k p flash file h = kept h
  with_purpose-SessionStep sys st st' k p backup file h =
      started sys st st' k p.device_idx (backup_params sys st' p file) h (ground arith)
  with_purpose-SessionStep sys st st' k p archive file h =
      started sys st st' k p.device_idx (archive_params st' p file) h (ground arith)

  file_picked-SessionStep :
      (sys : System) (st st' : AppState G) (k : KeyCode) (purpose : Option BrowserPurpose)
      (file : FilePath)
      → st'.sessions ≡ st.sessions
      → SessionStep sys st k (file_picked sys st' purpose file).sessions
  unfolding file_picked
  file_picked-SessionStep sys st st' k none file h = kept h
  file_picked-SessionStep sys st st' k (some p) file h =
      with_purpose-SessionStep sys st (record st' { browser = none; browser_purpose = none }) k p
        p.action file h

  browser_result-SessionStep :
      (sys : System) (st : AppState G) (b : FileBrowser) (result : EnterResult) (k : KeyCode)
      → SessionStep sys st k (browser_result sys st b result).sessions
  unfolding browser_result
  browser_result-SessionStep sys st b (picked file) k =
      file_picked-SessionStep sys st (record st { browser = some b }) k st.browser_purpose file refl
  browser_result-SessionStep sys st b navigated k = kept refl
  browser_result-SessionStep sys st b nothing k = kept refl

  browser_enter-SessionStep :
      (sys : System) (st : AppState G) (b : FileBrowser) (k : KeyCode)
      → SessionStep sys st k (browser_enter sys st b).sessions
  unfolding browser_enter
  browser_enter-SessionStep sys st b k =
      browser_result-SessionStep sys st (enter_focused sys.fs b).0 (enter_focused sys.fs b).1 k

  handle_browser_key-SessionStep :
      (sys : System) (st : AppState G) (b : FileBrowser) (k : KeyCode) (ctrl : Bool)
      → SessionStep sys st k (handle_browser_key sys st b k ctrl).sessions
  unfolding handle_browser_key
  handle_browser_key-SessionStep sys st b enter ctrl = browser_enter-SessionStep sys st b enter
  handle_browser_key-SessionStep sys st b right ctrl = browser_enter-SessionStep sys st b right
  handle_browser_key-SessionStep sys st b backspace ctrl = kept refl
  handle_browser_key-SessionStep sys st b (char c) ctrl = kept refl
  handle_browser_key-SessionStep sys st b _ ctrl = kept refl

  dismiss-SessionStep :
      (sys : System) (st : AppState G) (i : ℕ)
      → st.viewing_session ≡ some i
      → SessionStep sys st enter (dismiss st i).sessions
  unfolding dismiss ended
  dismiss-SessionStep sys st i h = elim (Option-cases (get_elem? st.sessions i)) [
    | inl e ↦ kept (ground arith)
    | inr (s, e) ↦ elim (Bool-cases (is_running s)) [
      | inl r ↦ kept (ground arith)
      | inr r ↦ dismissed i s h e r refl (ground arith)
    ]
  ]

  handle_progress_key-SessionStep :
      (sys : System) (st : AppState G) (i : ℕ) (k : KeyCode)
      → st.viewing_session ≡ some i
      → SessionStep sys st k (handle_progress_key st i k).sessions
  unfolding handle_progress_key
  handle_progress_key-SessionStep sys st i enter h = dismiss-SessionStep sys st i h
  handle_progress_key-SessionStep sys st i (char c) h = kept (ground arith)
  handle_progress_key-SessionStep sys st i _ h = kept refl

  confirmed-SessionStep :
      (sys : System) (st : AppState G) (c : Confirm) (a : Action)
      → st.viewing_session ≡ none
      → st.confirm ≡ some c
      → c.focus ≡ confirm
      → c.action ≡ a
      → SessionStep sys st enter (confirmed sys st c a).sessions
  unfolding confirmed flash_params start_session
  confirmed-SessionStep sys st c flash h h' hf ha =
      started_flash c (flash_params sys st c) h h' hf ha refl refl refl refl refl
  confirmed-SessionStep sys st c backup h h' hf ha = kept refl
  confirmed-SessionStep sys st c archive h h' hf ha = kept refl

  confirm_enter-SessionStep :
      (sys : System) (st : AppState G) (c : Confirm) (fo : ConfirmFocus)
      → st.viewing_session ≡ none
      → st.confirm ≡ some c
      → c.focus ≡ fo
      → SessionStep sys st enter (confirm_enter sys st c fo).sessions
  unfolding confirm_enter
  confirm_enter-SessionStep sys st c cancel h h' hf = kept refl
  confirm_enter-SessionStep sys st c confirm h h' hf =
      confirmed-SessionStep sys st c c.action h h' hf refl

  handle_confirm_key-SessionStep :
      (sys : System) (st : AppState G) (c : Confirm) (k : KeyCode)
      → st.viewing_session ≡ none
      → st.confirm ≡ some c
      → SessionStep sys st k (handle_confirm_key sys st c k).sessions
  unfolding handle_confirm_key
  handle_confirm_key-SessionStep sys st c enter h h' =
      confirm_enter-SessionStep sys st c c.focus h h' refl
  handle_confirm_key-SessionStep sys st c (char x) h h' = kept (ground arith)
  handle_confirm_key-SessionStep sys st c _ h h' = kept refl

  route-SessionStep :
      (sys : System) (st : AppState G) (v : Option ℕ) (c : Option Confirm) (b : Option FileBrowser)
      (cp : Option CodecPicker) (ap : Option ActionPicker) (k : KeyCode) (ctrl : Bool)
      → st.viewing_session ≡ v
      → st.confirm ≡ c
      → SessionStep sys st k (route sys st v c b cp ap k ctrl).0.sessions
  unfolding route
  route-SessionStep sys st (some i) c b cp ap k ctrl h h' =
      handle_progress_key-SessionStep sys st i k h
  route-SessionStep sys st none (some c) b cp ap k ctrl h h' =
      handle_confirm_key-SessionStep sys st c k h h'
  route-SessionStep sys st none none (some b) cp ap k ctrl h h' =
      handle_browser_key-SessionStep sys st b k ctrl
  route-SessionStep sys st none none none (some p) ap k ctrl h h' =
      kept (handle_codec_picker_key_lem sys st p k)
  route-SessionStep sys st none none none none (some p) k ctrl h h' =
      kept (handle_action_picker_key_lem sys st p k)
  route-SessionStep sys st none none none none none k ctrl h h' =
      kept (handle_home_key_lem sys st k)

  -- After any key the sessions are unchanged, or the ended session on screen has been dismissed by
  -- Enter, or a session that reads its device (a backup or an archive) has been appended, or a flash
  -- has been appended; the last only by Enter in the open confirmation of a flash with the focus on
  -- Confirm, and it writes the confirmed file to the confirmed device's raw node.
  pub dispatch_key-SessionStep :
      (sys : System) (st : AppState G) (k : KeyCode) (ctrl : Bool)
      → SessionStep sys st k (dispatch_key sys st k ctrl).0.sessions
  dispatch_key-SessionStep sys st k ctrl =
      by_routing (λ r. SessionStep sys st k r.0.sessions) sys st k ctrl (kept refl)
        (route-SessionStep sys st _ _ _ _ _ k ctrl refl refl)
