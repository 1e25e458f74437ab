-- ===== src/Tui/App/Modals.antt =====
-- Every key keeps one modal view at most.
use tekflash.Common.{ℕ, ◌+◌, ◌≤◌, ◌≡◌, refl, ap, Bool, Option, none, some, arith, FilePath}
use tekflash.Tui.Action.{Action, ActionPicker}
use tekflash.Tui.CodecPicker.{CodecPicker}
use tekflash.Tui.FileBrowser.Defs.{EnterResult, navigated, nothing, picked, FileBrowser}
use tekflash.Tui.FileBrowser.Ops.{enter_focused}
use tekflash.Tui.Confirm.{Confirm}
use tekflash.Tui.App.State.{KeyCode, enter, right, AppState, System, BrowserPurpose}
use tekflash.Tui.App.Keys.{start_session, handle_home_key}
use tekflash.Tui.App.Pickers.{handle_action_picker_key, handle_codec_picker_key}
use tekflash.Tui.App.Browsing.{
  handle_browser_key, browser_enter, browser_result, file_picked, with_purpose,
}
use tekflash.Tui.App.Routing.{by_routing}
use tekflash.Tui.App.Dispatch.{handle_progress_key, handle_confirm_key, route, dispatch_key}

abbrev one_if_open {ℓ} : {A : Type ℓ} → Option A → ℕ
one_if_open none = 0
one_if_open (some a) = 1

module _ {G : Type 0} where
  unfoldable pub open_views : AppState G → ℕ
  open_views st =
      one_if_open st.action_picker
      + one_if_open st.codec_picker
      + one_if_open st.browser
      + one_if_open st.confirm

  home_lem :
      (sys : System) (st : AppState G) (k : KeyCode)
      → open_views st ≡ 0
      → open_views (handle_home_key sys st k).0 ≤ 1
  unfolding open_views handle_home_key
  home_lem sys st k h = ground arith

  codec_lem :
      (sys : System) (st : AppState G) (p : CodecPicker) (k : KeyCode)
      → open_views st ≤ 1
      → st.codec_picker ≡ some p
      → open_views (handle_codec_picker_key sys st p k) ≤ 1
  unfolding open_views handle_codec_picker_key
  codec_lem sys st p k h = ground arith

  action_lem :
      (sys : System) (st : AppState G) (p : ActionPicker) (k : KeyCode)
      → open_views st ≤ 1
      → st.action_picker ≡ some p
      → open_views (handle_action_picker_key sys st p k) ≤ 1
  unfolding open_views handle_action_picker_key
  action_lem sys st p k h = ground arith

  progress_lem :
      (st : AppState G) (i : ℕ) (k : KeyCode)
      → open_views (handle_progress_key st i k) ≡ open_views st
  unfolding open_views handle_progress_key
  progress_lem st i k = ground arith

  confirm_lem :
      (sys : System) (st : AppState G) (p : Confirm) (k : KeyCode)
      → open_views st ≤ 1
      → st.confirm ≡ some p
      → open_views (handle_confirm_key sys st p k) ≤ 1
  unfolding open_views handle_confirm_key start_session
  confirm_lem sys st p k h = ground arith

  purpose_lem :
      (sys : System) (st : AppState G) (p : BrowserPurpose) (a : Action) (file : FilePath)
      → open_views st ≡ 0
      → open_views (with_purpose sys st p a file) ≤ 1
  unfolding open_views with_purpose start_session
  purpose_lem sys st p a file h = ground arith

  picked_lem :
      (sys : System) (st : AppState G) (p : Option BrowserPurpose) (file : FilePath)
      → open_views st ≤ 1
      → (b : FileBrowser) → st.browser ≡ some b
      → open_views (file_picked sys st p file) ≤ 1
  unfolding open_views file_picked
  picked_lem sys st none file h b e = ground arith
  picked_lem sys st (some p) file h b e =
      purpose_lem sys (record st { browser = none; browser_purpose = none }) p p.action file
        (ground arith)

  result_lem :
      (sys : System) (st : AppState G) (b b' : FileBrowser) (r : EnterResult)
      → open_views st ≤ 1
      → st.browser ≡ some b
      → open_views (browser_result sys st b' r) ≤ 1
  unfolding open_views browser_result
  result_lem sys st b b' (picked file) h e =
      picked_lem sys (record st { browser = some b' }) st.browser_purpose file (ground arith) b'
        refl
  result_lem sys st b b' navigated h e = ground arith
  result_lem sys st b b' nothing h e = ground arith

  browser_lem :
      (sys : System) (st : AppState G) (b : FileBrowser) (k : KeyCode) (ctrl : Bool)
      → open_views st ≤ 1
      → st.browser ≡ some b
      → open_views (handle_browser_key sys st b k ctrl) ≤ 1
  unfolding open_views handle_browser_key browser_enter
  browser_lem sys st b enter ctrl h e =
      result_lem sys st b (enter_focused sys.fs b).0 (enter_focused sys.fs b).1 h e
  browser_lem sys st b right ctrl h e =
      result_lem sys st b (enter_focused sys.fs b).0 (enter_focused sys.fs b).1 h e
  browser_lem sys st b k ctrl h e = ground arith

  route_lem :
      (sys : System) (st : AppState G) (v : Option ℕ) (c : Option Confirm) (b : Option FileBrowser)
      (cp : Option CodecPicker) (ap : Option ActionPicker) (k : KeyCode) (ctrl : Bool)
      → st.confirm ≡ c
      → st.browser ≡ b
      → st.codec_picker ≡ cp
      → st.action_picker ≡ ap
      → open_views st ≤ 1
      → open_views (route sys st v c b cp ap k ctrl).0 ≤ 1
  unfolding route open_views
  route_lem sys st (some i) c b cp ap k ctrl hc hb hp ha h = ground (arith, progress_lem st i k)
  route_lem sys st none (some c) b cp ap k ctrl hc hb hp ha h = confirm_lem sys st c k h hc
  route_lem sys st none none (some b) cp ap k ctrl hc hb hp ha h = browser_lem sys st b k ctrl h hb
  route_lem sys st none none none (some p) ap k ctrl hc hb hp ha h = codec_lem sys st p k h hp
  route_lem sys st none none none none (some p) k ctrl hc hb hp ha h = action_lem sys st p k h ha
  route_lem sys st none none none none none k ctrl hc hb hp ha h = home_lem sys st k (ground arith)

  -- When at most one of the action picker, the codec picker, the file browser and the confirmation
  -- is open, at most one of them is open after any key.
  pub dispatch_key-open_views :
      (sys : System) (st : AppState G) (k : KeyCode) (ctrl : Bool)
      → open_views st ≤ 1
      → open_views (dispatch_key sys st k ctrl).0 ≤ 1
  dispatch_key-open_views sys st k ctrl h =
      by_routing (λ r. open_views r.0 ≤ 1) sys st k ctrl (h)
        (route_lem sys st _ _ _ _ _ k ctrl refl refl refl refl h)
