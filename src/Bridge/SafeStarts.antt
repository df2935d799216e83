-- ===== src/Bridge/SafeStarts.antt =====
-- Every callback of the node (mavros_hardware_bridge_node.cpp) starts the blade in a safe state only.
use Prim.Native.String.{String}
use mowglimavros.Prelude.{Bool, true, false, not, ◌&&◌, ◌||◌, ◌≡◌, inl, inr, if_both, same}
use mowglimavros.Prelude.Int.{ℤ, pos, ltb_ℤ, eqb_ℤ}
use mowglimavros.Prelude.Double.{Double}
use mowglimavros.Esc.{EscObservation}
use mowglimavros.Session.Controller as SessionController
use mowglimavros.Bridge.Node.{
  Node, Env, Twist, motion_session_active, emergency, send, guided, manual,
}
use mowglimavros.Bridge.Session.{guided_wanted, drive_session}
use mowglimavros.Bridge.Handlers.{lose_link}
use mowglimavros.Bridge.Telemetry.{
  on_cmd_vel, note_state, drop_wire, take_link, on_mavros_state, on_esc_telemetry, on_slots,
}
use mowglimavros.Bridge.Calls.{
  Call, timer, high_level_status, sys_status, button, imu, power, gnss_status, wheel_odom,
  mower_control, emergency_stop, blade_reply, session_reply, blade_wire, blade_output, cmd_vel,
  mavros_state, esc_telemetry, slots, step,
}
use mowglimavros.Bridge.Still.{starts, cancel-Still, neutral-Still}
use mowglimavros.Bridge.Starts.{Safe, silent_starts}
use mowglimavros.Bridge.Moves.{
  Guarded, drive_blade-Moves, drive_session-Still, drives-Moves, quiet-Guarded, after-Guarded,
}
use mowglimavros.Bridge.Steps.{
  same-Guarded, timer-Guarded, high_level-Guarded, sys_status-Guarded, button-Guarded, imu-Guarded,
  power-Guarded, gnss-Guarded, wheel-Guarded, mower_control-Guarded, emergency_stop-Guarded,
  blade_reply-Guarded, session_reply-Guarded, blade_wire-Guarded, blade_output-Guarded,
}

module _ (D : Double) where
  open D use {F, is_finite}

  cmd_vel-Guarded : (v : Twist F) (e : Env) (n : Node F) → Guarded e n (on_cmd_vel D v e n)
  unfolding on_cmd_vel
  cmd_vel-Guarded v e n =
      let m = drive_session e n in
      let h = drive_session-Still e n in
      let b = not (is_finite v.linear) || not (is_finite v.angular) in
      let w =
        emergency e m
        || not (motion_session_active m)
        || not m.session.wanted_arm
        || not (SessionController.ready m.session) in
      if_both (Guarded e n) b (quiet-Guarded e n m h.quiet) (
        if_both (Guarded e n) w (quiet-Guarded e n _ (λ q. h.quiet ((neutral-Still e m).quiet q))) (
          if_both (Guarded e n) (guided_wanted e m)
            (quiet-Guarded e n (send (guided v) m) (λ q. h.quiet q))
            (quiet-Guarded e n (send (manual v) m) (λ q. h.quiet q))))

  drop_wire_quiet :
      (connected : Bool) (n : Node F)
      → starts (drop_wire D connected n).sent ≡ true
      → starts n.sent ≡ true
  unfolding drop_wire
  drop_wire_quiet connected n =
      if_both (λ (x : Node F). starts x.sent ≡ true → starts n.sent ≡ true)
        (same n.connected connected) (λ q. q) (λ q. q)

  note_state_quiet :
      (connected armed : Bool) (mode : String) (e : Env) (n : Node F)
      → starts (note_state D connected armed mode e n).sent ≡ true
      → starts n.sent ≡ true
  unfolding note_state take_link lose_link
  note_state_quiet connected armed mode e n h =
      let lost = n.connected && not connected in
      let b = take_link D lost connected e (drop_wire D connected n) in
      drop_wire_quiet connected n (
        if_both (λ (x : Node F). starts x.sent ≡ true → starts b.sent ≡ true) lost
          (cancel-Still b).quiet (λ q. q) h)

  mavros_state-Guarded :
      (connected armed : Bool) (mode : String) (e : Env) (n : Node F)
      → Guarded e n (on_mavros_state D connected armed mode e n)
  unfolding on_mavros_state
  mavros_state-Guarded connected armed mode e n =
      let m = note_state D connected armed mode e n in
      after-Guarded e n m _ (note_state_quiet connected armed mode e n) (drives-Moves e m)

  esc_telemetry-Guarded :
      (o : EscObservation F) (e : Env) (n : Node F) → Guarded e n (on_esc_telemetry D o e n)
  unfolding on_esc_telemetry
  esc_telemetry-Guarded o e n = if_both (Guarded e n) (not n.connected) (same-Guarded e n) (
      if_both (Guarded e n)
        (ltb_ℤ n.blade_esc_slot (pos 0) || not (eqb_ℤ (pos o.esc_index) n.blade_esc_slot))
        (quiet-Guarded e n _ (λ q. q)) (after-Guarded e n _ _ (λ q. q) (drive_blade-Moves e _)))

  slots-Guarded :
      (right left blade : ℤ) (e : Env) (n : Node F) → Guarded e n (on_slots D right left blade e n)
  unfolding on_slots
  slots-Guarded right left blade e n = after-Guarded e n _ _ (λ q. q) (drive_blade-Moves e _)

  step-Guarded : (e : Env) (c : Call F) (n : Node F) → Guarded e n (step D e c n)
  unfolding step
  step-Guarded e timer n = timer-Guarded e n
  step-Guarded e (high_level_status state) n = high_level-Guarded state e n
  step-Guarded e (sys_status present enabled) n = sys_status-Guarded present enabled e n
  step-Guarded e (button state) n = button-Guarded state e n
  step-Guarded e (imu tilted) n = imu-Guarded tilted e n
  step-Guarded e (power finite charger status) n = power-Guarded finite charger status e n
  step-Guarded e (gnss_status sequence backend valid) n = gnss-Guarded sequence backend valid e n
  step-Guarded e wheel_odom n = wheel-Guarded e n
  step-Guarded e (mower_control header enabled direction) n =
      mower_control-Guarded header enabled direction e n
  step-Guarded e (emergency_stop active) n = emergency_stop-Guarded active e n
  step-Guarded e (blade_reply token accepted) n = blade_reply-Guarded token accepted e n
  step-Guarded e (session_reply serial accepted) n = session_reply-Guarded serial accepted e n
  step-Guarded e (blade_wire channel pwm) n = blade_wire-Guarded channel pwm e n
  step-Guarded e (blade_output stamp pwm) n = blade_output-Guarded stamp pwm e n
  step-Guarded e (cmd_vel v) n = cmd_vel-Guarded v e n
  step-Guarded e (mavros_state connected armed mode) n =
      mavros_state-Guarded connected armed mode e n
  step-Guarded e (esc_telemetry o) n = esc_telemetry-Guarded o e n
  step-Guarded e (slots right left blade) n = slots-Guarded right left blade e n

  -- Whatever callback of the node runs: if it sends a command that starts the blade, then the state
  -- it leaves has mowing enabled, a live link, an armed FCU, a state of the FCU of at most 2.5 seconds
  -- and one of the safety switch of at most 3, a released switch, no emergency, and a slot of the
  -- blade.
  pub step-starts :
      (e : Env) (c : Call F) (n : Node F)
      → starts n.sent ≡ false
      → starts (step D e c n).sent ≡ true
      → Safe e (step D e c n)
  step-starts e c n q h = elim ((step-Guarded e c n).guarded h) [
    | inl p ↦ silent_starts n p q
    | inr s ↦ s
  ]
