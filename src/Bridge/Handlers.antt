-- ===== src/Bridge/Handlers.antt =====
-- The callbacks of the node (mavros_hardware_bridge_node.cpp) that change its state.
use Prim.Native.String.{String}
use mowglimavros.Prelude.{
  ℕ, Bool, true, false, not, ◌&&◌, ◌||◌, Option, none, some, List, [], ◌∷◌, ◌++◌, ◌*◌, ◌==◌, ltb,
  leb, if◌then◌else◌,
}
use mowglimavros.Prelude.Int.{pos, pos_part, neg_part, sub_ℕ, ◌-ℤ◌, leb_ℤ, eqb_ℤ}
use mowglimavros.Safety as Safety
use mowglimavros.Safety.{HardwareSafetyState, engaged}
use mowglimavros.Readiness as Readiness
use mowglimavros.Blade.Types.{Direction, forward, reverse, is}
use mowglimavros.Blade.Request.{force_off, permission}
use mowglimavros.Session.Controller as SessionController
use mowglimavros.Bridge.Node.{
  Node, Env, motion_session_active, emergency, publish_neutral_manual_control, length,
  PendingBladeStart,
}
use mowglimavros.Bridge.Replies.{reply_blade, cancel_pending_blade_starts, request_blade}
use mowglimavros.Bridge.Blade.{end_failed_blade_test, drive_blade, blade_allowed, is_released}
use mowglimavros.Bridge.Session.{drive_session, request_safety_disarm}

abbrev is_engaged : HardwareSafetyState → Bool
is_engaged engaged = true
is_engaged _ = false

-- The request of ~/mower_control: its two bytes.
unfoldable pub direction_of : ℕ → ℕ → Direction
direction_of mow_enabled mow_direction =
    if mow_enabled == 0 then Direction.off else if mow_direction == 0 then forward else reverse

abbrev pub head_differs : Direction → List PendingBladeStart → Bool
head_differs d [] = false
head_differs d (p ∷ _) = not (is p.direction d)

module _ {F : Type 0} where
  -- The timer of 50 milliseconds.
  unfoldable pub on_timer : Env → Node F → Node F
  on_timer e n = drive_blade e (drive_session e n)

  unfoldable pub on_high_level_status : ℕ → Env → Node F → Node F
  unfolding cancel_pending_blade_starts
  on_high_level_status state e n =
      let m = record n { high_level_state = state } in
      let a = cancel_pending_blade_starts (record m { blade_test_active = false }) in
      let b = publish_neutral_manual_control e (record a { blade = force_off e.steady a.blade }) in
      drive_blade e (
        drive_session e
          (if motion_session_active n && not (motion_session_active m) then drive_blade e b else m))

  -- What a lost link clears of the power, the ESCs and the charger.
  unfoldable pub lose_link : Bool → Node F → Node F
  lose_link lost n = record n {
    last_power_receipt_ns = if lost then pos 0 else n.last_power_receipt_ns;
    is_charging = not lost && n.is_charging;
    charger_enabled = not lost && n.charger_enabled;
    charger_status = if lost then "unknown" else n.charger_status;
  }

  -- What `on_button` and `on_sys_status` ask for after they release the lock.
  unfoldable pub disarm_if : Bool → Bool → Env → Node F → Node F
  disarm_if b hold e n = if b then (request_safety_disarm hold e n).0 else n

  -- MOTOR_OUTPUTS of SYS_STATUS, present and enabled.
  unfoldable pub on_sys_status : Bool → Bool → Env → Node F → Node F
  on_sys_status present enabled e n =
      let s = Safety.observe_motor_outputs present enabled n.safety in
      let newly =
        not (is_engaged n.safety.hardware_safety_state) && is_engaged s.hardware_safety_state in
      if not n.connected
      then n
      else disarm_if newly true e (record n { last_hardware_safety_ms = e.steady; safety = s })

  -- A decoded BUTTON_CHANGE, if the message is one.
  unfoldable pub on_button : Option ℕ → Env → Node F → Node F
  on_button none e n = n
  on_button (some state) e n =
      let s = Safety.observe_button_change state e.now n.safety in
      let double_lift = s.left_wheel_lifted && s.right_wheel_lifted in
      if not n.connected
      then n
      else disarm_if (double_lift && not n.double_lift_disarm_sent) false e
          (record n { safety = s; double_lift_disarm_sent = double_lift })

  -- `tilted` is the comparison of the inclination with its threshold.
  unfoldable pub on_imu : Bool → Env → Node F → Node F
  on_imu tilted e n =
      let r = Readiness.imu e.now n.readiness in
      let started = if eqb_ℤ n.tilt_started_ns (pos 0) then e.now else n.tilt_started_ns in
      let limit =
        sub_ℕ (pos_part n.tilt_emergency_ms * 1000000) (neg_part n.tilt_emergency_ms * 1000000) in
      let active = tilted && leb_ℤ limit (e.now -ℤ started) in
      disarm_if (active && not n.tilt_disarm_sent) false e (record n {
        readiness = r;
        tilt_started_ns = if tilted then started else pos 0;
        tilt_disarm_sent = active;
        safety = Safety.observe_tilt active n.safety;
      })

  -- A report of the power: the voltage is a number, the charger is enabled, and its status.
  unfoldable pub on_power : Bool → Bool → String → Env → Node F → Node F
  on_power finite charger status e n = record n {
    last_power_receipt_ns = e.now;
    is_charging = charger;
    charger_enabled = charger;
    charger_status = status;
    readiness = Readiness.traction e.now finite n.readiness;
  }

  unfoldable pub on_gnss_status : ℕ → String → Bool → Env → Node F → Node F
  on_gnss_status sequence backend fix_valid e n = record n {
    readiness = Readiness.gnss e.now sequence backend fix_valid n.readiness;
  }

  unfoldable pub on_wheel_odom : Env → Node F → Node F
  on_wheel_odom e n = record n { readiness = Readiness.wheel e.now n.readiness }

  -- `on_mower_control` for a request to stop.
  unfoldable pub stop_blade : ℕ → Env → Node F → Node F
  unfolding cancel_pending_blade_starts request_blade blade_allowed
  stop_blade header e n =
      let transport = e.ardupilot && e.command_ready in
      let a = record (cancel_pending_blade_starts n) { blade_test_active = false } in
      let b = record a {
        session = SessionController.demand "HOLD" false (emergency e a) a.session;
      } in
      let c = record b { blade = permission (blade_allowed e b) e.steady b.blade } in
      let d = if motion_session_active n then a else c in
      drive_session e
        (drive_blade e (request_blade transport header Direction.off e.steady e.steady d))

  -- The protections that refuse a start at once.
  unfoldable pub start_refused : Env → Node F → Bool
  start_refused e n =
      not (e.ardupilot && e.command_ready)
      || not n.mowing_enabled
      || not n.connected
      || emergency e n
      || not (is_released n.safety.hardware_safety_state)
      || n.blade.fault

  -- From a driven session on: the request is refused, kept until the session is ready, or made.
  unfoldable pub start_driven : ℕ → Direction → Env → Node F → Node F
  unfolding end_failed_blade_test request_blade blade_allowed
  start_driven header d e n =
      let m = record n { blade = permission (blade_allowed e n) e.steady n.blade } in
      if SessionController.failed n.session
        || (not (motion_session_active n) && not n.blade_test_active)
      then reply_blade header false (end_failed_blade_test e n)
      else if SessionController.ready n.session
      then drive_blade e (request_blade true header d e.steady e.steady m)
      else if leb 32 (length n.pending_blade_starts)
      then reply_blade header false n
      else record n {
        pending_blade_starts =
            n.pending_blade_starts
            ++ record { header = header; direction = d; started_ms = e.steady } ∷ [];
      }

  -- `on_mower_control` for a request to start.
  unfoldable pub start_blade : ℕ → Direction → Env → Node F → Node F
  unfolding cancel_pending_blade_starts start_refused start_driven
  start_blade header d e n =
      let a = if head_differs d n.pending_blade_starts then cancel_pending_blade_starts n else n in
      let b = drive_blade e (drive_session e a) in
      let c =
        if motion_session_active b
        then b
        else publish_neutral_manual_control e (record b { blade_test_active = true }) in
      if start_refused e b
      then reply_blade header false b
      else start_driven header d e (drive_session e c)

  unfoldable pub on_mower_control : ℕ → ℕ → ℕ → Env → Node F → Node F
  unfolding direction_of stop_blade start_blade
  on_mower_control header mow_enabled mow_direction e n =
      let d = direction_of mow_enabled mow_direction in
      if ltb 1 mow_enabled || (not (mow_enabled == 0) && ltb 1 mow_direction)
      then reply_blade header false n
      else if is d Direction.off
      then stop_blade header e n
      else start_blade header d e n

  unfoldable pub on_emergency_stop : Bool → Env → Node F → Node F × Bool
  on_emergency_stop active e n =
      let s = Safety.set_service_emergency active n.safety in
      if active
      then request_safety_disarm true e (record n { safety = s; mow_enabled = false })
      else (
        drive_blade e (drive_session e (record n { safety = Safety.clear_released_latches s })),
        true,
      )
