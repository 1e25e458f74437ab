-- ===== src/Tui/App/Screen.antt =====
-- Every key keeps the session on screen among the sessions.
use tekflash.Common.{
  ℕ, ◌-◌, ◌<◌, ◌≡◌, refl, ap, Bool, true, List, [], ◌∷◌, ◌++◌, Option, none, some, length, arith,
  FilePath, zero, suc, ltb,
}
use tekflash.Runner.Progress.{BackupProgress, BackupParams}
use tekflash.Tui.Action.{Action, ActionPicker, flash, backup, archive}
use tekflash.Tui.CodecPicker.{CodecPicker}
use tekflash.Tui.FileBrowser.Defs.{EnterResult, navigated, nothing, picked, FileBrowser}
use tekflash.Tui.FileBrowser.Ops.{enter_focused}
use tekflash.Tui.Confirm.{Confirm, ConfirmFocus, cancel, confirm}
use tekflash.Tui.App.State.{KeyCode, enter, right, AppState, System, BrowserPurpose}
use tekflash.Tui.App.Keys.{start_session, handle_home_key}
use tekflash.Tui.App.Pickers.{handle_action_picker_key, handle_codec_picker_key}
use tekflash.Tui.App.Browsing.{
  handle_browser_key, browser_enter, browser_result, file_picked, with_purpose,
}
use tekflash.Runner.Progress
use tekflash.Tui.App.Routing.{by_routing}
use tekflash.Tui.App.Dispatch.{
  flash_params, remove_at, dismiss, handle_progress_key, handle_confirm_key, confirm_enter,
  confirmed, route, dispatch_key,
}

-- A session that is shown is in the list.
unfoldable pub shown : Option ℕ → ℕ → Bool
shown none n = true
shown (some i) n = ltb i n

length-remove_at {ℓ} :
    {A : Type ℓ} (i : ℕ) (xs : List A) → i < length xs → length (remove_at i xs) ≡ length xs - 1
unfolding remove_at
length-remove_at i [] h = refl
length-remove_at zero (x ∷ xs) h = omega arith
length-remove_at (suc i) (x ∷ xs) h = ground (arith, length-remove_at i xs (ground arith))

length_snoc {ℓ} : {A : Type ℓ} (xs : List A) (x : A) → length (xs ++ x ∷ []) ≡ suc (length xs)
length_snoc [] x = refl
length_snoc (y ∷ xs) x = ap suc (length_snoc xs x)

module _ {G : Type 0} where
  -- The index of the session on screen, if any, is below the number of sessions.
  unfoldable pub on_screen : AppState G → Bool
  on_screen st = shown st.viewing_session (length st.sessions)

  start_lem :
      (i : ℕ) (params : BackupParams G) (st : AppState G)
      → on_screen (start_session i params st) ≡ true
  unfolding on_screen shown start_session
  start_lem i params st = ground (arith, length_snoc st.sessions (Progress.new i params))

  home_lem :
      (sys : System) (st : AppState G) (k : KeyCode)
      → on_screen st ≡ true
      → on_screen (handle_home_key sys st k).0 ≡ true
  unfolding on_screen shown handle_home_key
  home_lem sys st k h = ground arith

  codec_lem :
      (sys : System) (st : AppState G) (p : CodecPicker) (k : KeyCode)
      → on_screen st ≡ true
      → on_screen (handle_codec_picker_key sys st p k) ≡ true
  unfolding on_screen shown handle_codec_picker_key
  codec_lem sys st p k h = ground arith

  action_lem :
      (sys : System) (st : AppState G) (p : ActionPicker) (k : KeyCode)
      → on_screen st ≡ true
      → on_screen (handle_action_picker_key sys st p k) ≡ true
  unfolding on_screen shown handle_action_picker_key
  action_lem sys st p k h = ground arith

  dismiss_lem :
      (st : AppState G) (i : ℕ)
      → st.viewing_session ≡ some i
      → on_screen st ≡ true
      → on_screen (dismiss st i) ≡ true
  unfolding on_screen shown dismiss
  dismiss_lem st i e h = ground (arith, length-remove_at i st.sessions)

  progress_lem :
      (st : AppState G) (i : ℕ) (k : KeyCode)
      → st.viewing_session ≡ some i
      → on_screen st ≡ true
      → on_screen (handle_progress_key st i k) ≡ true
  unfolding on_screen shown handle_progress_key
  progress_lem st i enter e h = dismiss_lem st i e h
  progress_lem st i k e h = ground arith

  confirmed_lem :
      (sys : System) (st : AppState G) (c : Confirm) (a : Action)
      → on_screen st ≡ true
      → on_screen (confirmed sys st c a) ≡ true
  unfolding on_screen shown confirmed flash_params
  confirmed_lem sys st c flash h = start_lem _ _ (record st { confirm = none })
  confirmed_lem sys st c backup h = h
  confirmed_lem sys st c archive h = h

  confirm_enter_lem :
      (sys : System) (st : AppState G) (c : Confirm) (fo : ConfirmFocus)
      → on_screen st ≡ true
      → on_screen (confirm_enter sys st c fo) ≡ true
  unfolding on_screen shown confirm_enter
  confirm_enter_lem sys st c cancel h = h
  confirm_enter_lem sys st c confirm h = confirmed_lem sys st c c.action h

  confirm_lem :
      (sys : System) (st : AppState G) (c : Confirm) (k : KeyCode)
      → on_screen st ≡ true
      → on_screen (handle_confirm_key sys st c k) ≡ true
  unfolding on_screen shown handle_confirm_key
  confirm_lem sys st c enter h = confirm_enter_lem sys st c c.focus h
  confirm_lem sys st c k h = ground arith

  purpose_lem :
      (sys : System) (st : AppState G) (p : BrowserPurpose) (a : Action) (file : FilePath)
      → on_screen st ≡ true
      → on_screen (with_purpose sys st p a file) ≡ true
  unfolding on_screen shown with_purpose
  purpose_lem sys st p backup file h = start_lem _ _ st
  purpose_lem sys st p archive file h = start_lem _ _ st
  purpose_lem sys st p flash file h = h

  picked_lem :
      (sys : System) (st : AppState G) (p : Option BrowserPurpose) (file : FilePath)
      → on_screen st ≡ true
      → on_screen (file_picked sys st p file) ≡ true
  unfolding on_screen shown file_picked
  picked_lem sys st none file h = h
  picked_lem sys st (some p) file h =
      purpose_lem sys (record st { browser = none; browser_purpose = none }) p p.action file h

  result_lem :
      (sys : System) (st : AppState G) (b' : FileBrowser) (r : EnterResult)
      → on_screen st ≡ true
      → on_screen (browser_result sys st b' r) ≡ true
  unfolding on_screen shown browser_result
  result_lem sys st b' (picked file) h =
      picked_lem sys (record st { browser = some b' }) st.browser_purpose file h
  result_lem sys st b' navigated h = h
  result_lem sys st b' nothing h = h

  browser_lem :
      (sys : System) (st : AppState G) (b : FileBrowser) (k : KeyCode) (ctrl : Bool)
      → on_screen st ≡ true
      → on_screen (handle_browser_key sys st b k ctrl) ≡ true
  unfolding on_screen shown handle_browser_key browser_enter
  browser_lem sys st b enter ctrl h =
      result_lem sys st (enter_focused sys.fs b).0 (enter_focused sys.fs b).1 h
  browser_lem sys st b right ctrl h =
      result_lem sys st (enter_focused sys.fs b).0 (enter_focused sys.fs b).1 h
  browser_lem sys st b k ctrl h = ground arith

  route_lem :
      (sys : System) (st : AppState G) (v : Option ℕ) (c : Option Confirm) (b : Option FileBrowser)
      (cp : Option CodecPicker) (ap : Option ActionPicker) (k : KeyCode) (ctrl : Bool)
      → st.viewing_session ≡ v
      → on_screen st ≡ true
      → on_screen (route sys st v c b cp ap k ctrl).0 ≡ true
  unfolding route
  route_lem sys st (some i) c b cp ap k ctrl e h = progress_lem st i k e h
  route_lem sys st none (some c) b cp ap k ctrl e h = confirm_lem sys st c k h
  route_lem sys st none none (some b) cp ap k ctrl e h = browser_lem sys st b k ctrl h
  route_lem sys st none none none (some p) ap k ctrl e h = codec_lem sys st p k h
  route_lem sys st none none none none (some p) k ctrl e h = action_lem sys st p k h
  route_lem sys st none none none none none k ctrl e h = home_lem sys st k h

  -- When the session on screen, if any, is one of the sessions, it is after any key, also behind a
  -- key that starts a session or removes the one on screen.
  pub dispatch_key-on_screen :
      (sys : System) (st : AppState G) (k : KeyCode) (ctrl : Bool)
      → on_screen st ≡ true
      → on_screen (dispatch_key sys st k ctrl).0 ≡ true
  dispatch_key-on_screen sys st k ctrl h =
      by_routing (λ r. on_screen r.0 ≡ true) sys st k ctrl (h)
        (route_lem sys st _ _ _ _ _ k ctrl refl h)
