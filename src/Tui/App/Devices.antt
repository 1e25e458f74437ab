-- ===== src/Tui/App/Devices.antt =====
-- What a key may do to the device list and to the selection in it.
use tekflash.Common.{
  ℕ, ◌-◌, ◌≤◌, ◌≡◌, refl, ap, ◌≢◌, ◌||◌, is_some_bool, Bool, true, Option, none, some, length,
  arith, FilePath,
}
use tekflash.Tui.Action.{Action, ActionPicker}
use tekflash.Tui.CodecPicker.{CodecPicker}
use tekflash.Tui.FileBrowser.Defs.{EnterResult, navigated, nothing, picked, FileBrowser}
use tekflash.Tui.FileBrowser.Ops.{enter_focused}
use tekflash.Tui.Confirm.{Confirm}
use tekflash.Tui.App.State.{KeyCode, char, enter, right, AppState, System, BrowserPurpose}
use tekflash.Tui.App.Keys.{start_session, handle_home_key}
use tekflash.Tui.App.Pickers.{handle_action_picker_key, handle_codec_picker_key}
use tekflash.Tui.App.Browsing.{
  handle_browser_key, browser_enter, browser_result, file_picked, with_purpose,
}
use tekflash.Tui.App.Routing.{by_routing}
use tekflash.Tui.App.Dispatch.{handle_progress_key, handle_confirm_key, route, dispatch_key}

module _ {G : Type 0} where
  -- The devices and the selection among them.
  unfoldable pub SameDevices : AppState G → AppState G → Type 0
  SameDevices st st' = (st'.devices ≡ st.devices) × (st'.selected ≡ st.selected)

  codec_lem :
      (sys : System) (st : AppState G) (p : CodecPicker) (k : KeyCode)
      → SameDevices st (handle_codec_picker_key sys st p k)
  unfolding SameDevices handle_codec_picker_key
  codec_lem sys st p k = ground arith

  action_lem :
      (sys : System) (st : AppState G) (p : ActionPicker) (k : KeyCode)
      → SameDevices st (handle_action_picker_key sys st p k)
  unfolding SameDevices handle_action_picker_key
  action_lem sys st p k = ground arith

  progress_lem :
      (st : AppState G) (i : ℕ) (k : KeyCode) → SameDevices st (handle_progress_key st i k)
  unfolding SameDevices handle_progress_key
  progress_lem st i k = ground arith

  confirm_lem :
      (sys : System) (st : AppState G) (c : Confirm) (k : KeyCode)
      → SameDevices st (handle_confirm_key sys st c k)
  unfolding SameDevices handle_confirm_key start_session
  confirm_lem sys st c k = ground arith

  purpose_lem :
      (sys : System) (st : AppState G) (p : BrowserPurpose) (a : Action) (file : FilePath)
      → SameDevices st (with_purpose sys st p a file)
  unfolding SameDevices with_purpose start_session
  purpose_lem sys st p a file = ground arith

  picked_lem :
      (sys : System) (st : AppState G) (p : Option BrowserPurpose) (file : FilePath)
      → SameDevices st (file_picked sys st p file)
  unfolding SameDevices file_picked
  picked_lem sys st none file = (refl, refl)
  picked_lem sys st (some p) file =
      purpose_lem sys (record st { browser = none; browser_purpose = none }) p p.action file

  result_lem :
      (sys : System) (st : AppState G) (b' : FileBrowser) (r : EnterResult)
      → SameDevices st (browser_result sys st b' r)
  unfolding SameDevices browser_result
  result_lem sys st b' (picked file) =
      picked_lem sys (record st { browser = some b' }) st.browser_purpose file
  result_lem sys st b' navigated = (refl, refl)
  result_lem sys st b' nothing = (refl, refl)

  browser_lem :
      (sys : System) (st : AppState G) (b : FileBrowser) (k : KeyCode) (ctrl : Bool)
      → SameDevices st (handle_browser_key sys st b k ctrl)
  unfolding SameDevices handle_browser_key browser_enter
  browser_lem sys st b enter ctrl =
      result_lem sys st (enter_focused sys.fs b).0 (enter_focused sys.fs b).1
  browser_lem sys st b right ctrl =
      result_lem sys st (enter_focused sys.fs b).0 (enter_focused sys.fs b).1
  browser_lem sys st b k ctrl = ground arith

  unfoldable pub InRange : AppState G → Type 0
  InRange st = st.selected ≤ length st.devices - 1

  home_lem :
      (sys : System) (st : AppState G) (k : KeyCode)
      → k ≢ char b'r'
      → InRange st
      → InRange (handle_home_key sys st k).0
  unfolding InRange handle_home_key
  home_lem sys st k n h = ground arith

  -- A view other than the home view takes the keys.
  unfoldable pub busy : AppState G → Bool
  busy st =
      is_some_bool st.viewing_session
      || is_some_bool st.confirm
      || is_some_bool st.browser
      || is_some_bool st.codec_picker
      || is_some_bool st.action_picker

  route_lem :
      (sys : System) (st : AppState G) (v : Option ℕ) (c : Option Confirm) (b : Option FileBrowser)
      (cp : Option CodecPicker) (ap : Option ActionPicker) (k : KeyCode) (ctrl : Bool)
      → (is_some_bool v || is_some_bool c || is_some_bool b || is_some_bool cp || is_some_bool ap)
        ≡ true
      → SameDevices st (route sys st v c b cp ap k ctrl).0
  unfolding route
  route_lem sys st (some i) c b cp ap k ctrl h = progress_lem st i k
  route_lem sys st none (some c) b cp ap k ctrl h = confirm_lem sys st c k
  route_lem sys st none none (some b) cp ap k ctrl h = browser_lem sys st b k ctrl
  route_lem sys st none none none (some p) ap k ctrl h = codec_lem sys st p k
  route_lem sys st none none none none (some p) k ctrl h = action_lem sys st p k
  route_lem sys st none none none none none k ctrl h = ground arith

  -- While a session, the confirmation, the file browser or a picker takes the keys, no key changes
  -- the device list or the selection, so that the device index of a view means the same device until
  -- the home view is back.
  pub dispatch_key-SameDevices :
      (sys : System) (st : AppState G) (k : KeyCode) (ctrl : Bool)
      → busy st ≡ true
      → SameDevices st (dispatch_key sys st k ctrl).0
  unfolding busy
  dispatch_key-SameDevices sys st k ctrl h =
      by_routing (λ r. SameDevices st r.0) sys st k ctrl (unfold SameDevices in (refl, refl))
        (route_lem sys st _ _ _ _ _ k ctrl h)

  route-InRange :
      (sys : System) (st : AppState G) (v : Option ℕ) (c : Option Confirm) (b : Option FileBrowser)
      (cp : Option CodecPicker) (ap : Option ActionPicker) (k : KeyCode) (ctrl : Bool)
      → k ≢ char b'r'
      → InRange st
      → InRange (route sys st v c b cp ap k ctrl).0
  unfolding InRange SameDevices route
  route-InRange sys st (some i) c b cp ap k ctrl n h = ground (arith, progress_lem st i k)
  route-InRange sys st none (some c) b cp ap k ctrl n h = ground (arith, confirm_lem sys st c k)
  route-InRange sys st none none (some b) cp ap k ctrl n h =
      ground (arith, browser_lem sys st b k ctrl)
  route-InRange sys st none none none (some p) ap k ctrl n h = ground (arith, codec_lem sys st p k)
  route-InRange sys st none none none none (some p) k ctrl n h =
      ground (arith, action_lem sys st p k)
  route-InRange sys st none none none none none k ctrl n h = home_lem sys st k n h

  -- When the selection is below the number of devices, or zero, it is so after any key but `r`.
  pub dispatch_key-InRange :
      (sys : System) (st : AppState G) (k : KeyCode) (ctrl : Bool)
      → k ≢ char b'r'
      → InRange st
      → InRange (dispatch_key sys st k ctrl).0
  dispatch_key-InRange sys st k ctrl n h =
      by_routing (λ r. InRange r.0) sys st k ctrl (h) (route-InRange sys st _ _ _ _ _ k ctrl n h)
