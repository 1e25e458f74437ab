-- ===== src/Tui/App/Flashing.antt =====
-- A flash is never started by Enter alone: the confirmation opens with the focus on Cancel.
use tekflash.Common.{
  ℕ, ◌≡◌, ◌≢◌, ◌+◌, ◌≤◌, false, refl, ap, Bool, true, List, [], ◌∷◌, ◌++◌, Option, none, some,
  arith, FilePath, zero, suc,
}
use tekflash.Runner.Progress.{BackupProgress, BackupParams}
use tekflash.Tui.Action.{Action, ActionPicker}
use tekflash.Tui.CodecPicker.{CodecPicker}
use tekflash.Tui.FileBrowser.Defs.{EnterResult, navigated, nothing, picked, FileBrowser}
use tekflash.Tui.FileBrowser.Ops.{enter_focused}
use tekflash.Tui.Confirm
use tekflash.Tui.Confirm.{Confirm, ConfirmFocus, cancel, confirm}
use tekflash.Tui.App.State.{KeyCode, enter, right, AppState, System, BrowserPurpose}
use tekflash.Tui.App.Keys.{start_session, handle_home_key}
use tekflash.Tui.App.Pickers.{handle_action_picker_key, handle_codec_picker_key}
use tekflash.Tui.App.Browsing.{
  handle_browser_key, browser_enter, browser_result, file_picked, with_purpose,
}
use tekflash.Runner.Progress
use tekflash.Tui.App.Routing.{by_routing}
use tekflash.Tui.App.Dispatch.{remove_at, handle_progress_key, route, dispatch_key}
use tekflash.Runner.Progress.{OperationKind}
use tekflash.Tui.App.Sessions.{
  SessionStep, kept, dismissed, started_reading, started_flash, dispatch_key-SessionStep,
}

-- No confirmation is open, or its focus is on Cancel.
unfoldable pub guarded : Option Confirm → Bool
guarded none = true
guarded (some c) = elim c.focus [ cancel ↦ true | confirm ↦ false ]

abbrev one_if_flash : OperationKind → ℕ
one_if_flash OperationKind.flash = 1
one_if_flash k = 0

not_flash : (k : OperationKind) → k ≢ OperationKind.flash → one_if_flash k ≡ 0
not_flash OperationKind.flash h = absurd (h refl)
not_flash OperationKind.backup h = refl
not_flash OperationKind.archive h = refl

module _ {G : Type 0} where
  -- The number of sessions that flash a device.
  unfoldable pub flashes : List (BackupProgress G) → ℕ
  flashes [] = 0
  flashes (s ∷ ss) = one_if_flash s.params.kind + flashes ss

  flashes-remove_at : (i : ℕ) (ss : List (BackupProgress G)) → flashes (remove_at i ss) ≤ flashes ss
  unfolding flashes remove_at
  flashes-remove_at i [] = omega arith
  flashes-remove_at zero (s ∷ ss) = omega arith
  flashes-remove_at (suc i) (s ∷ ss) = omega (arith, flashes-remove_at i ss)

  flashes-snoc :
      (ss : List (BackupProgress G)) (s : BackupProgress G)
      → flashes (ss ++ s ∷ []) ≡ flashes ss + one_if_flash s.params.kind
  unfolding flashes
  flashes-snoc [] s = omega arith
  flashes-snoc (x ∷ ss) s = omega (arith, flashes-snoc ss s)

  flashes-new :
      (ss : List (BackupProgress G)) (i : ℕ) (params : BackupParams G)
      → params.kind ≢ OperationKind.flash
      → flashes (ss ++ Progress.new i params ∷ []) ≡ flashes ss
  unfolding Progress.new
  flashes-new ss i params h =
      omega (arith, flashes-snoc ss (Progress.new i params), not_flash params.kind h)

  flashes-SessionStep :
      (sys : System) (st : AppState G) (k : KeyCode) (after : List (BackupProgress G))
      → guarded st.confirm ≡ true
      → SessionStep sys st k after
      → flashes after ≤ flashes st.sessions
  unfolding guarded
  flashes-SessionStep sys st k after g (kept e) = omega (arith, ap flashes e)
  flashes-SessionStep sys st k after g (dismissed i s v a r n e) =
      omega (arith, ap flashes e, flashes-remove_at i st.sessions)
  flashes-SessionStep sys st k after g (started_reading i params n e) =
      omega (arith, ap flashes e, flashes-new st.sessions i params n)
  flashes-SessionStep sys st k after g (started_flash c params v o f a n m s d e) =
      absurd (ground (arith, g, o, f))

  purpose_lem :
      (sys : System) (st : AppState G) (p : BrowserPurpose) (a : Action) (file : FilePath)
      → guarded st.confirm ≡ true
      → guarded (with_purpose sys st p a file).confirm ≡ true
  unfolding guarded with_purpose start_session Confirm.new
  purpose_lem sys st p a file h = ground arith

  picked_lem :
      (sys : System) (st : AppState G) (p : Option BrowserPurpose) (file : FilePath)
      → guarded st.confirm ≡ true
      → guarded (file_picked sys st p file).confirm ≡ true
  unfolding file_picked
  picked_lem sys st none file h = h
  picked_lem sys st (some p) file h =
      purpose_lem sys (record st { browser = none; browser_purpose = none }) p p.action file h

  result_lem :
      (sys : System) (st : AppState G) (b' : FileBrowser) (r : EnterResult)
      → guarded st.confirm ≡ true
      → guarded (browser_result sys st b' r).confirm ≡ true
  unfolding browser_result
  result_lem sys st b' (picked file) h =
      picked_lem sys (record st { browser = some b' }) st.browser_purpose file h
  result_lem sys st b' navigated h = h
  result_lem sys st b' nothing h = h

  browser_lem :
      (sys : System) (st : AppState G) (b : FileBrowser) (k : KeyCode) (ctrl : Bool)
      → guarded st.confirm ≡ true
      → guarded (handle_browser_key sys st b k ctrl).confirm ≡ true
  unfolding handle_browser_key browser_enter
  browser_lem sys st b enter ctrl h =
      result_lem sys st (enter_focused sys.fs b).0 (enter_focused sys.fs b).1 h
  browser_lem sys st b right ctrl h =
      result_lem sys st (enter_focused sys.fs b).0 (enter_focused sys.fs b).1 h
  browser_lem sys st b k ctrl h = ground arith

  home_lem :
      (sys : System) (st : AppState G) (k : KeyCode)
      → (handle_home_key sys st k).0.confirm ≡ st.confirm
  unfolding handle_home_key
  home_lem sys st k = ground arith

  codec_lem :
      (sys : System) (st : AppState G) (p : CodecPicker) (k : KeyCode)
      → (handle_codec_picker_key sys st p k).confirm ≡ st.confirm
  unfolding handle_codec_picker_key
  codec_lem sys st p k = ground arith

  action_lem :
      (sys : System) (st : AppState G) (p : ActionPicker) (k : KeyCode)
      → (handle_action_picker_key sys st p k).confirm ≡ st.confirm
  unfolding handle_action_picker_key
  action_lem sys st p k = ground arith

  progress_lem :
      (st : AppState G) (i : ℕ) (k : KeyCode) → (handle_progress_key st i k).confirm ≡ st.confirm
  unfolding handle_progress_key
  progress_lem st i k = ground arith

  route_lem :
      (sys : System) (st : AppState G) (v : Option ℕ) (c : Option Confirm) (b : Option FileBrowser)
      (cp : Option CodecPicker) (ap : Option ActionPicker) (k : KeyCode) (ctrl : Bool)
      → c ≡ none
      → guarded st.confirm ≡ true
      → guarded (route sys st v c b cp ap k ctrl).0.confirm ≡ true
  unfolding route
  route_lem sys st (some i) c b cp ap k ctrl e h = ground (arith, progress_lem st i k, h)
  route_lem sys st none (some c) b cp ap k ctrl e h = cc
  route_lem sys st none none (some b) cp ap k ctrl e h = browser_lem sys st b k ctrl h
  route_lem sys st none none none (some p) ap k ctrl e h = ground (arith, codec_lem sys st p k, h)
  route_lem sys st none none none none (some p) k ctrl e h =
      ground (arith, action_lem sys st p k, h)
  route_lem sys st none none none none none k ctrl e h = ground (arith, home_lem sys st k, h)

  dispatch_key-guarded :
      (sys : System) (st : AppState G) (k : KeyCode) (ctrl : Bool)
      → st.confirm ≡ none
      → guarded (dispatch_key sys st k ctrl).0.confirm ≡ true
  unfolding guarded
  dispatch_key-guarded sys st k ctrl e =
      let h : guarded st.confirm ≡ true = ap guarded e in
      by_routing (λ r. guarded r.0.confirm ≡ true) sys st k ctrl h
        (route_lem sys st _ st.confirm _ _ _ k ctrl e h)

  -- From a state with no confirmation open, no key followed by Enter adds a session that flashes a
  -- device.
  pub dispatch_key-flashes :
      (sys : System) (st : AppState G) (k : KeyCode) (ctrl ctrl' : Bool)
      → st.confirm ≡ none
      → flashes (dispatch_key sys (dispatch_key sys st k ctrl).0 enter ctrl').0.sessions
        ≤ flashes st.sessions
  unfolding guarded
  dispatch_key-flashes sys st k ctrl ctrl' e =
      let st' = (dispatch_key sys st k ctrl).0 in
      omega (
        arith,
        flashes-SessionStep sys st' enter _ (dispatch_key-guarded sys st k ctrl e)
            (dispatch_key-SessionStep sys st' enter ctrl'),
        flashes-SessionStep sys st k _ (ap guarded e) (dispatch_key-SessionStep sys st k ctrl),
      )
