-- ===== src/Tui/App/Routing.antt =====
-- A property of what `dispatch_key` returns, from the two ways it returns.
use tekflash.Common.{Bool, true, false, if◌then◌else◌}
use tekflash.Tui.App.State.{KeyCode, AppState, System}
use tekflash.Tui.App.Dispatch.{route, is_ctrl_c, dispatch_key}

abbrev pub routed : {G : Type 0} → System → AppState G → KeyCode → Bool → AppState G × Bool
routed sys st k ctrl =
    route sys st st.viewing_session st.confirm st.browser st.codec_picker st.action_picker k ctrl

-- Ctrl-C leaves the state as it is; any other key is routed to the view that is open.
pub by_routing :
    {G : Type 0} (P : AppState G × Bool → Type 0) (sys : System) (st : AppState G) (k : KeyCode)
    (ctrl : Bool)
    → P (st, true)
    → P (routed sys st k ctrl)
    → P (dispatch_key sys st k ctrl)
unfolding dispatch_key
by_routing P sys st k ctrl stay go =
    elim (is_ctrl_c k ctrl) as (λ x. P (if x then (st, true) else routed sys st k ctrl)) [
      | true ↦ stay
      | false ↦ go
    ]
