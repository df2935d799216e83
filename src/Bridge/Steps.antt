-- ===== src/Bridge/Steps.antt =====
-- The callbacks of the node (mavros_hardware_bridge_node.cpp) that do not look at telemetry start the
-- blade in a safe state only.
use Prim.Native.String.{String}
use mowglimavros.Prelude.{
  ℕ, Bool, true, false, not, ◌&&◌, ◌||◌, ◌≡◌, inl, Option, none, some, List, if_both, ltb, leb,
  ◌==◌, if◌then◌else◌,
}
use mowglimavros.Prelude.Int.{ℤ, leb_ℤ, eqb_ℤ}
use mowglimavros.Session.Controller as SessionController
use mowglimavros.Blade.Types.{Direction, is}
use mowglimavros.Blade.Request.{force_off, permission}
use mowglimavros.Bridge.Node.{
  Node, Env, motion_session_active, emergency, length, publish_neutral_manual_control,
  BladeWireExpectation,
}
use mowglimavros.Bridge.Replies.{cancel_pending_blade_starts, request_blade}
use mowglimavros.Bridge.Blade.{drive_blade, end_failed_blade_test, expire_wire, blade_allowed}
use mowglimavros.Bridge.Session.{drive_session}
use mowglimavros.Bridge.Handlers.{
  on_timer, on_high_level_status, disarm_if, on_sys_status, on_button, on_imu, on_power,
  on_gnss_status, on_wheel_odom, stop_blade, start_driven, head_differs, start_refused, start_blade,
  on_mower_control, on_emergency_stop, direction_of,
}
use mowglimavros.Bridge.Telemetry.{
  on_blade_reply, on_session_reply, claimed, on_blade_wire, on_blade_output, claim,
}
use mowglimavros.Bridge.Still.{
  starts, Still, updated-Kept, same-Still, trans-Still, test-Still, cancel-Still, force_off-Still,
  neutral-Still, request-Still, end_failed-Still,
}
use mowglimavros.Bridge.Moves.{
  Moves, Guarded, Still-Moves, trans-Moves, drive_blade-Moves, drive_session-Moves, drives-Moves,
  disarm-Moves, quiet-Guarded, after-Guarded,
}

module _ {F : Type 0} where
  pub Moves-Guarded : (e : Env) (n m : Node F) → Moves e n m → Guarded e n m
  Moves-Guarded e n m h = record { guarded = h.guarded }

  pub same-Guarded : (e : Env) (n : Node F) → Guarded e n n
  same-Guarded e n = quiet-Guarded e n n (λ q. q)

  pub timer-Guarded : (e : Env) (n : Node F) → Guarded e n (on_timer e n)
  unfolding on_timer
  timer-Guarded e n = Moves-Guarded e n _ (drives-Moves e n)

  pub high_level-Guarded :
      (state : ℕ) (e : Env) (n : Node F) → Guarded e n (on_high_level_status state e n)
  unfolding on_high_level_status
  high_level-Guarded state e n =
      let m = record n { high_level_state = state } in
      let t = record m { blade_test_active = false } in
      let a = cancel_pending_blade_starts t in
      let f = record a { blade = force_off e.steady a.blade } in
      let b = publish_neutral_manual_control e f in
      let k = motion_session_active n && not (motion_session_active m) in
      if_both (λ (x : Node F). Guarded e n (drive_blade e (drive_session e x))) k
        (after-Guarded e n b _
          (λ q.
            (cancel-Still t).quiet
              ((force_off-Still e.steady a).quiet ((neutral-Still e f).quiet q)))
          (trans-Moves (drive_blade-Moves e b) (drives-Moves e (drive_blade e b))))
        (after-Guarded e n m _ (λ q. q) (drives-Moves e m))

  pub disarm_if-Guarded :
      (b hold : Bool) (e : Env) (n p : Node F)
      → (starts p.sent ≡ true → starts n.sent ≡ true)
      → Guarded e n (disarm_if b hold e p)
  unfolding disarm_if
  disarm_if-Guarded b hold e n p h =
      if_both (Guarded e n) b (after-Guarded e n p _ h (disarm-Moves hold e p))
        (quiet-Guarded e n p h)

  pub sys_status-Guarded :
      (present enabled : Bool) (e : Env) (n : Node F)
      → Guarded e n (on_sys_status present enabled e n)
  unfolding on_sys_status
  sys_status-Guarded present enabled e n =
      if_both (Guarded e n) (not n.connected) (same-Guarded e n)
        (disarm_if-Guarded _ true e n _ (λ q. q))

  pub button-Guarded : (state : Option ℕ) (e : Env) (n : Node F) → Guarded e n (on_button state e n)
  unfolding on_button
  button-Guarded none e n = same-Guarded e n
  button-Guarded (some state) e n =
      if_both (Guarded e n) (not n.connected) (same-Guarded e n)
        (disarm_if-Guarded _ false e n _ (λ q. q))

  pub imu-Guarded : (tilted : Bool) (e : Env) (n : Node F) → Guarded e n (on_imu tilted e n)
  unfolding on_imu
  imu-Guarded tilted e n = disarm_if-Guarded _ false e n _ (λ q. q)

  pub power-Guarded :
      (finite charger : Bool) (status : String) (e : Env) (n : Node F)
      → Guarded e n (on_power finite charger status e n)
  unfolding on_power
  power-Guarded finite charger status e n = quiet-Guarded e n _ (λ q. q)

  pub gnss-Guarded :
      (sequence : ℕ) (backend : String) (valid : Bool) (e : Env) (n : Node F)
      → Guarded e n (on_gnss_status sequence backend valid e n)
  unfolding on_gnss_status
  gnss-Guarded sequence backend valid e n = quiet-Guarded e n _ (λ q. q)

  pub wheel-Guarded : (e : Env) (n : Node F) → Guarded e n (on_wheel_odom e n)
  unfolding on_wheel_odom
  wheel-Guarded e n = quiet-Guarded e n _ (λ q. q)

  pub stop-Guarded : (header : ℕ) (e : Env) (n : Node F) → Guarded e n (stop_blade header e n)
  unfolding stop_blade
  stop-Guarded header e n =
      let transport = e.ardupilot && e.command_ready in
      let t = cancel_pending_blade_starts n in
      let a = record t { blade_test_active = false } in
      let b = record a {
        session = SessionController.demand "HOLD" false (emergency e a) a.session;
      } in
      let c = record b { blade = permission (blade_allowed e b) e.steady b.blade } in
      let d = if motion_session_active n then a else c in
      let r = request_blade transport header Direction.off e.steady e.steady d in
      after-Guarded e n r _
        (λ q. (cancel-Still n).quiet (
          if_both (λ (x : Node F). starts x.sent ≡ true → starts t.sent ≡ true)
            (motion_session_active n) (λ p. p) (λ p. p)
            ((request-Still transport header Direction.off e.steady e.steady d).quiet q)))
        (trans-Moves (drive_blade-Moves e r) (drive_session-Moves e (drive_blade e r)))

  -- A change of the permission, and then a request and a drive.
  permitted-Moves :
      (header : ℕ) (d : Direction) (e : Env) (b : Bool) (n : Node F)
      → let m = record n { blade = permission b e.steady n.blade } in
        Moves e n (drive_blade e (request_blade true header d e.steady e.steady m))
  permitted-Moves header d e b n =
      let m = record n { blade = permission b e.steady n.blade } in
      let r = request_blade true header d e.steady e.steady m in
      let g : Moves e n m = record { kept = updated-Kept n; guarded = λ q. inl q } in
      trans-Moves g (
        trans-Moves (Still-Moves e m r (request-Still true header d e.steady e.steady m))
          (drive_blade-Moves e r))

  start_driven-Moves :
      (header : ℕ) (d : Direction) (e : Env) (n : Node F) → Moves e n (start_driven header d e n)
  unfolding start_driven
  start_driven-Moves header d e n =
      let failing =
        SessionController.failed n.session
        || (not (motion_session_active n) && not n.blade_test_active) in
      let f = end_failed_blade_test e n in
      if_both (Moves e n) failing
        (trans-Moves (Still-Moves e n f (end_failed-Still e n))
          (record { kept = updated-Kept f; guarded = λ q. inl q }))
        (if_both (Moves e n) (SessionController.ready n.session)
          (permitted-Moves header d e (blade_allowed e n) n)
          (if_both (Moves e n) (leb 32 (length n.pending_blade_starts))
            (record { kept = updated-Kept n; guarded = λ q. inl q })
            (record { kept = updated-Kept n; guarded = λ q. inl q })))

  pub start-Guarded :
      (header : ℕ) (d : Direction) (e : Env) (n : Node F) → Guarded e n (start_blade header d e n)
  unfolding start_blade
  start-Guarded header d e n =
      let k = head_differs d n.pending_blade_starts in
      let a = if k then cancel_pending_blade_starts n else n in
      let b = drive_blade e (drive_session e a) in
      let t = record b { blade_test_active = true } in
      let c = if motion_session_active b then b else publish_neutral_manual_control e t in
      let quiet =
        if_both (λ (x : Node F). starts x.sent ≡ true → starts n.sent ≡ true) k
          (cancel-Still n).quiet (λ q. q) in
      let tested : Still b c =
        if_both (Still b) (motion_session_active b) (same-Still b)
          (trans-Still (test-Still true b) (neutral-Still e t)) in
      let driven = trans-Moves (trans-Moves (drives-Moves e a) (Still-Moves e b c tested)) (
        trans-Moves (drive_session-Moves e c)
          (start_driven-Moves header d e (drive_session e c))) in
      let refused =
        trans-Moves (drives-Moves e a) (record { kept = updated-Kept b; guarded = λ q. inl q }) in
      if_both (Guarded e n) (start_refused e b) (after-Guarded e n a _ quiet refused)
        (after-Guarded e n a _ quiet driven)

  pub mower_control-Guarded :
      (header enabled direction : ℕ) (e : Env) (n : Node F)
      → Guarded e n (on_mower_control header enabled direction e n)
  unfolding on_mower_control
  mower_control-Guarded header enabled direction e n =
      let d = direction_of enabled direction in
      let wrong = ltb 1 enabled || (not (enabled == 0) && ltb 1 direction) in
      if_both (Guarded e n) wrong (quiet-Guarded e n _ (λ q. q)) (
        if_both (Guarded e n) (is d Direction.off) (stop-Guarded header e n)
          (start-Guarded header d e n))

  pub emergency_stop-Guarded :
      (active : Bool) (e : Env) (n : Node F) → Guarded e n (on_emergency_stop active e n).0
  unfolding on_emergency_stop
  emergency_stop-Guarded true e n = after-Guarded e n _ _ (λ q. q) (disarm-Moves true e _)
  emergency_stop-Guarded false e n = after-Guarded e n _ _ (λ q. q) (drives-Moves e _)

  pub blade_reply-Guarded :
      (token : ℕ) (accepted : Bool) (e : Env) (n : Node F)
      → Guarded e n (on_blade_reply token accepted e n)
  unfolding on_blade_reply
  blade_reply-Guarded token accepted e n = after-Guarded e n _ _ (λ q. q) (drive_blade-Moves e _)

  pub session_reply-Guarded :
      (serial : ℕ) (accepted : Bool) (e : Env) (n : Node F)
      → Guarded e n (on_session_reply serial accepted e n)
  unfolding on_session_reply
  session_reply-Guarded serial accepted e n = after-Guarded e n _ _ (λ q. q) (drives-Moves e _)

  pub claimed-Guarded :
      (o : Option (List BladeWireExpectation)) (e : Env) (n : Node F) → Guarded e n (claimed e o n)
  claimed-Guarded (some rest) e n = quiet-Guarded e n _ (λ q. q)
  claimed-Guarded none e n =
      after-Guarded e n _ _ (force_off-Still e.steady n).quiet (drive_blade-Moves e _)

  pub blade_wire-Guarded :
      (channel pwm : ℤ) (e : Env) (n : Node F) → Guarded e n (on_blade_wire channel pwm e n)
  unfolding on_blade_wire expire_wire
  blade_wire-Guarded channel pwm e n =
      let m = expire_wire e n in
      let c = claim pwm m.blade_wire_expectations in
      let h = claimed-Guarded c e m in
      if_both (Guarded e n) (not (eqb_ℤ channel n.blade.config.channel)) (same-Guarded e n)
        (record { guarded = h.guarded })

  pub blade_output-Guarded :
      (stamp : ℤ) (pwm : Option ℤ) (e : Env) (n : Node F)
      → Guarded e n (on_blade_output stamp pwm e n)
  unfolding on_blade_output
  blade_output-Guarded stamp none e n = same-Guarded e n
  blade_output-Guarded stamp (some pwm) e n =
      if_both (Guarded e n) (not n.connected || leb_ℤ stamp n.last_blade_output_stamp)
        (same-Guarded e n) (after-Guarded e n _ _ (λ q. q) (drive_blade-Moves e _))
