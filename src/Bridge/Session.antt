-- ===== src/Bridge/Session.antt =====
-- `drive_session_locked` and `request_safety_disarm` of the node (mavros_hardware_bridge_node.cpp).
use Prim.Native.String.{String}
use mowglimavros.Prelude.{
  ℕ, Bool, true, false, not, ◌&&◌, ◌||◌, Option, none, some, List, [], ◌∷◌, ◌++◌, ◌==◌,
  if◌then◌else◌,
}
use mowglimavros.Safety.{Reason, hardware_safety_switch, service_emergency_stop}
use mowglimavros.Safety as Safety
use mowglimavros.Blade.Request.{force_off}
use mowglimavros.Session.Controller as SessionController
use mowglimavros.Session.Controller.{Kind, Command, FcuSessionController, is_mode}
use mowglimavros.Bridge.Node.{
  Node, Env, Client, set_mode, arming, requests_mode, requests_arm, drops,
  high_level_state_autonomous, motion_session_active, emergency, send,
  publish_neutral_manual_control,
}
use mowglimavros.Bridge.Replies.{cancel_pending_blade_starts}
use mowglimavros.Bridge.Blade.{end_failed_if, drive_blade, is_released}

-- The emergencies that ask for HOLD, beside DISARM.
abbrev pub holds : Reason → Bool
holds hardware_safety_switch = true
holds service_emergency_stop = true
holds _ = false

module _ {F : Type 0} where
  abbrev pub guided_wanted : Env → Node F → Bool
  guided_wanted e n =
      n.high_level_state == high_level_state_autonomous && e.guided_velocity_implemented

  -- The mode that the node demands.
  unfoldable pub mode_for : Env → Node F → String
  mode_for e n =
      let stop = emergency e n in
      if stop && not (holds (Safety.project e.now n.safety).reason)
      then n.mode
      else if stop || not (motion_session_active n)
      then "HOLD"
      else if guided_wanted e n
      then "GUIDED"
      else "MANUAL"

  -- The demand on the session, and its tick.
  unfoldable pub demand_session : Env → Node F → Node F
  unfolding mode_for
  demand_session e n =
      let stop = emergency e n in
      record n {
        session = SessionController.tick e.steady (
            SessionController.demand (mode_for e n)
              (not stop && (motion_session_active n || n.blade_test_active)) stop n.session);
      }

  -- A velocity is neutralised when the session stops being ready for it.
  unfoldable pub watch_traction : Env → Node F → Node F
  watch_traction e n =
      let traction_ready =
        motion_session_active n
        && not (emergency e n)
        && SessionController.ready n.session
        && n.session.wanted_arm in
      let m =
        if n.traction_was_ready && not traction_ready
        then publish_neutral_manual_control e n
        else n in
      record m { traction_was_ready = traction_ready }

  abbrev pub forget_each : List (ℕ × (Client × ℕ)) → Node F → Node F
  forget_each [] n = n
  forget_each ((serial, (client, id)) ∷ l) n = forget_each l (
      if SessionController.current serial n.session
      then record n { session_rpc_ids = n.session_rpc_ids ++ (serial, (client, id)) ∷ [] }
      else send (drops client id) n)

  unfoldable pub forget_session_rpc : Node F → Node F
  forget_session_rpc n = forget_each n.session_rpc_ids (record n { session_rpc_ids = [] })

  -- The request of a command of the session is sent, or completed as refused.
  abbrev pub requested : Env → FcuSessionController × Option Command → Node F → Node F
  requested e (s, none) n = record n { session = s }
  requested e (s, some c) n =
      let m = record n { session = s } in
      let arms = not (is_mode c.kind) && c.arm in
      let a = if arms then publish_neutral_manual_control e m else m in
      let client = if is_mode c.kind then set_mode else arming in
      let o = if is_mode c.kind then requests_mode c.mode else requests_arm c.arm in
      if e.sends
      then record a {
        session_rpc_ids = a.session_rpc_ids ++ (c.serial, (client, e.request_id)) ∷ [];
        sent = o ∷ a.sent;
      }
      else record a { session = SessionController.complete c.serial false e.steady s }

  unfoldable pub request_session : Env → Node F → Node F
  request_session e n =
      let allow_arm = not (emergency e n) && is_released n.safety.hardware_safety_state in
      requested e (SessionController.next e.steady e.mode_ready e.arm_ready allow_arm n.session) n

  -- `drive_session_locked`.
  unfoldable pub drive_session : Env → Node F → Node F
  unfolding demand_session watch_traction forget_session_rpc request_session
  drive_session e n =
      let a = watch_traction e (demand_session e n) in
      let b = end_failed_if (SessionController.failed a.session) e a in
      request_session e (forget_session_rpc b)

  -- The first half of `request_safety_disarm`.
  unfoldable pub safety_demand : Bool → Env → Node F → Node F
  safety_demand hold e n =
      let a =
        cancel_pending_blade_starts (record n { mow_enabled = false; blade_test_active = false }) in
      let b = publish_neutral_manual_control e (record a { blade = force_off e.steady a.blade }) in
      record b {
        session = SessionController.demand (if hold then "HOLD" else b.mode) false true b.session;
      }

  -- `request_safety_disarm`: the new state, and whether DISARM is queued or observed.
  unfoldable pub request_safety_disarm : Bool → Env → Node F → Node F × Bool
  unfolding safety_demand drive_session
  request_safety_disarm hold e n =
      let m = drive_session e (drive_blade e (safety_demand hold e n)) in
      (m, SessionController.disarm_pending m.session || (m.connected && not m.armed))
