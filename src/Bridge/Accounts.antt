-- ===== src/Bridge/Accounts.antt =====
-- The account of the requests of ~/mower_control over runs of the node
-- (mavros_hardware_bridge_node.cpp).
use Prim.Native.String.{String}
use mowglimavros.Prelude.{
  ℕ, ◌+◌, Bool, false, not, ◌&&◌, ◌||◌, ◌≡◌, ◌∙◌, refl, arith, List, [], ◌∷◌, same, if_both,
}
use mowglimavros.Prelude.Int.{pos, ltb_ℤ, eqb_ℤ}
use mowglimavros.Prelude.Double.{Double}
use mowglimavros.Esc.{EscObservation}
use mowglimavros.Session.Controller as SessionController
use mowglimavros.Bridge.Node.{Node, Env, Twist, motion_session_active, emergency}
use mowglimavros.Bridge.Session.{drive_session, guided_wanted}
use mowglimavros.Bridge.Handlers.{
  on_timer, lose_link, on_imu, on_power, on_gnss_status, on_wheel_odom,
}
use mowglimavros.Bridge.Telemetry.{
  on_blade_reply, on_session_reply, on_cmd_vel, drop_wire, take_link, note_state, on_mavros_state,
  on_esc_telemetry, on_slots,
}
use mowglimavros.Bridge.Calls.{
  Call, timer, high_level_status, sys_status, button, imu, power, gnss_status, wheel_odom,
  mower_control, emergency_stop, blade_reply, session_reply, blade_wire, blade_output, cmd_vel,
  mavros_state, esc_telemetry, slots, step, run,
}
use mowglimavros.Bridge.Owed.{one, owed, owed-cancel, owed-neutral, owed-drive_blade}
use mowglimavros.Bridge.Requests.{
  Same, owed-drives, owed-high_level, owed-sys_status, owed-button, owed-mower_control,
  owed-emergency_stop, owed-blade_wire, owed-blade_output, owed-drive_session, owed-disarm_if,
}

-- The request `h` comes with the call.
abbrev arrives : {F : Type 0} → ℕ → Call F → ℕ
arrives h (mower_control header enabled direction) = one h header
arrives h _ = 0

abbrev pub arrivals : {F : Type 0} → ℕ → List (Env × Call F) → ℕ
arrivals h [] = 0
arrivals h ((e, c) ∷ cs) = arrives h c + arrivals h cs

-- A call that changes nothing of the account.
none_came : (a b : ℕ) → a ≡ b → a ≡ b + 0
none_came a b q = omega arith

module _ (D : Double) where
  open D use {F, is_finite}

  owed-cmd_vel : (h : ℕ) (v : Twist F) (e : Env) (n : Node F) → Same h n (on_cmd_vel D v e n)
  unfolding on_cmd_vel
  owed-cmd_vel h v e n =
      let m = drive_session e n in
      let s = owed-drive_session h e n in
      let b = not (is_finite v.linear) || not (is_finite v.angular) in
      let w =
        emergency e m
        || not (motion_session_active m)
        || not m.session.wanted_arm
        || not (SessionController.ready m.session) in
      let P = λ (x : Node F). Same h n x in
      if_both P b s (
        if_both P w (owed-neutral h e m ∙ s)
          (if_both P (guided_wanted e m) (omega arith) (omega arith)))

  owed-drop_wire : (h : ℕ) (b : Bool) (n : Node F) → Same h n (drop_wire D b n)
  unfolding drop_wire
  owed-drop_wire h b n = if_both (λ (x : Node F). Same h n x) (same n.connected b) refl refl

  owed-note_state :
      (h : ℕ) (connected armed : Bool) (mode : String) (e : Env) (n : Node F)
      → Same h n (note_state D connected armed mode e n)
  unfolding note_state take_link lose_link
  owed-note_state h connected armed mode e n =
      let lost = n.connected && not connected in
      let b = take_link D lost connected e (drop_wire D connected n) in
      if_both (λ (x : Node F). Same h b x) lost (owed-cancel h b) refl
      ∙ owed-drop_wire h connected n

  owed-mavros_state :
      (h : ℕ) (connected armed : Bool) (mode : String) (e : Env) (n : Node F)
      → Same h n (on_mavros_state D connected armed mode e n)
  unfolding on_mavros_state
  owed-mavros_state h connected armed mode e n =
      owed-drives h e (note_state D connected armed mode e n)
      ∙ owed-note_state h connected armed mode e n

  owed-esc_telemetry :
      (h : ℕ) (o : EscObservation F) (e : Env) (n : Node F) → Same h n (on_esc_telemetry D o e n)
  unfolding on_esc_telemetry
  owed-esc_telemetry h o e n =
      let P = λ (x : Node F). Same h n x in
      if_both P (not n.connected) refl (
        if_both P (ltb_ℤ n.blade_esc_slot (pos 0) || not (eqb_ℤ (pos o.esc_index) n.blade_esc_slot))
          refl (owed-drive_blade h e _))

  owed-step :
      (h : ℕ) (e : Env) (c : Call F) (n : Node F) → owed h (step D e c n) ≡ owed h n + arrives h c
  unfolding step on_timer on_imu on_power on_gnss_status on_wheel_odom on_blade_reply
      on_session_reply on_slots
  owed-step h e timer n = none_came _ _ (owed-drives h e n)
  owed-step h e (high_level_status state) n = none_came _ _ (owed-high_level h state e n)
  owed-step h e (sys_status present enabled) n =
      none_came _ _ (owed-sys_status h present enabled e n)
  owed-step h e (button state) n = none_came _ _ (owed-button h state e n)
  owed-step h e (imu tilted) n = none_came _ _ (owed-disarm_if h _ false e _)
  owed-step h e (power finite charger status) n = none_came _ _ refl
  owed-step h e (gnss_status sequence backend valid) n = none_came _ _ refl
  owed-step h e wheel_odom n = none_came _ _ refl
  owed-step h e (mower_control header enabled direction) n =
      owed-mower_control h header enabled direction e n
  owed-step h e (emergency_stop active) n = none_came _ _ (owed-emergency_stop h active e n)
  owed-step h e (blade_reply token accepted) n = none_came _ _ (owed-drive_blade h e _)
  owed-step h e (session_reply serial accepted) n = none_came _ _ (owed-drives h e _)
  owed-step h e (blade_wire channel pwm) n = none_came _ _ (owed-blade_wire h channel pwm e n)
  owed-step h e (blade_output stamp pwm) n = none_came _ _ (owed-blade_output h stamp pwm e n)
  owed-step h e (cmd_vel v) n = none_came _ _ (owed-cmd_vel h v e n)
  owed-step h e (mavros_state connected armed mode) n =
      none_came _ _ (owed-mavros_state h connected armed mode e n)
  owed-step h e (esc_telemetry o) n = none_came _ _ (owed-esc_telemetry h o e n)
  owed-step h e (slots right left blade) n = none_came _ _ (owed-drive_blade h e _)

  -- No request of ~/mower_control is lost or answered twice: over every run of callbacks, the answers
  -- given to a request and the places where it still waits, for the session or for the blade, grow
  -- together by as many as it came.
  pub owed-run :
      (h : ℕ) (cs : List (Env × Call F)) (n : Node F)
      → owed h (run D cs n) ≡ owed h n + arrivals h cs
  unfolding run
  owed-run h [] n = omega arith
  owed-run h ((e, c) ∷ cs) n =
      let i = owed-run h cs (step D e c n) in let j = owed-step h e c n in omega arith
