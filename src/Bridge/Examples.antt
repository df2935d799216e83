-- ===== src/Bridge/Examples.antt =====
-- The node (mavros_hardware_bridge_node.cpp) at concrete inputs, over integers for double.
use mowglimavros.Bridge.Accounts.{arrivals, owed-run}
use mowglimavros.Bridge.Owed.{owed}
use mowglimavros.Bridge.Calls.{mower_control, run, Call}
use mowglimavros.Prelude.{true, false, ◌≡◌, refl, Option, some, [], List, ◌+◌, ◌∷◌}
use mowglimavros.Prelude.Int.{ℤ, pos, ◌-ℤ◌}
use mowglimavros.Prelude.Double.{fixed_point}
use mowglimavros.Safety as Safety
use mowglimavros.Readiness as Readiness
use mowglimavros.Esc as Esc
use mowglimavros.Blade.Types as BladeTypes
use mowglimavros.Blade.Types.{Direction, forward, BladeControl, Config, wait_stop_before_reverse}
use mowglimavros.Session.Controller as SessionController
use mowglimavros.Session.Controller.{FcuSessionController}
use mowglimavros.Bridge.Node.{Node, Env, Twist, emergency, high_level_state_manual_mowing}
use mowglimavros.Blade.Request.{permission}
use mowglimavros.Blade.Transport.{tick, next}
use mowglimavros.Bridge.Session.{
  drive_session, demand_session, mode_for, watch_traction, forget_session_rpc, request_session,
}
use mowglimavros.Bridge.Blade.{
  drive_blade, blade_allowed, expire_wire, settle_blade, permit, start_pending, time_out,
  forget_blade_rpc, reply_all, dispatch,
}
use mowglimavros.Bridge.Handlers.{on_timer, on_emergency_stop}
use mowglimavros.Bridge.Telemetry.{on_cmd_vel}
use mowglimavros.Bridge.Calls.{timer, step}
use mowglimavros.Bridge.Still.{starts, velocities}
use mowglimavros.Bridge.Starts.{Safe, drive_blade-starts}
use mowglimavros.Bridge.SafeStarts.{step-starts}
use mowglimavros.Bridge.Velocity.{Drivable, cmd_vel-Drivable}
use mowglimavros.Bridge.Emergency.{Disarms, emergency_stop-Disarms}

abbrev config : Config
config = record {
  channel = pos 7;
  neutral = pos 1500;
  forward = pos 2000;
  reverse = pos 1000;
  ack_timeout_ms = pos 2000;
  stop_timeout_ms = pos 20000;
  freshness_ms = pos 1000;
  coast_ms = pos 1000;
}

-- A blade that has stood still for long enough to start.
abbrev standing : BladeControl
standing = record (BladeTypes.initial config) {
  state = wait_stop_before_reverse;
  requested = forward;
  confirmed = Direction.off;
  connected = true;
  allowed = true;
  queued_neutral = false;
  wait_since = pos 9000;
  stop_since = pos 7000;
  stop_samples = 6;
  sample_receipt = pos 9900;
  sample_zero = true;
}

abbrev confirmed_session : FcuSessionController
confirmed_session = record SessionController.initial {
  wanted_mode = "MANUAL";
  mode = "MANUAL";
  wanted_arm = true;
  armed = true;
  connected = true;
}

abbrev node : Node (Option ℤ)
node = record {
  mowing_enabled = true;
  mow_enabled = false;
  tilt_emergency_ms = pos 500;
  tilt_started_ns = pos 0;
  tilt_disarm_sent = false;
  double_lift_disarm_sent = false;
  blade = standing;
  session = confirmed_session;
  blade_test_active = false;
  traction_was_ready = true;
  session_rpc_ids = [];
  pending_blade_starts = [];
  blade_replies = [];
  blade_rpc_ids = [];
  last_fcu_receipt_ms = pos 9000;
  last_hardware_safety_ms = pos 9500;
  last_blade_output_stamp = pos 0;
  blade_wire_expectations = [];
  safety = record Safety.initial { hardware_safety_state = Safety.released };
  is_charging = false;
  charger_enabled = false;
  charger_status = "unknown";
  readiness = Readiness.create (pos 5000) true false;
  esc_tracker = Esc.create fixed_point (pos 3000);
  right_esc_slot = pos 0;
  left_esc_slot = pos 1;
  blade_esc_slot = pos 2;
  connected = true;
  armed = true;
  mode = "MANUAL";
  last_power_receipt_ns = pos 0;
  high_level_state = high_level_state_manual_mowing;
  sent = [];
}

abbrev env : Env
env = record {
  steady = pos 10000;
  now = pos 1000;
  ardupilot = true;
  guided_velocity_implemented = true;
  command_ready = true;
  mode_ready = true;
  arm_ready = true;
  sends = true;
  request_id = 41;
}

abbrev ahead : Twist (Option ℤ)
ahead = record { linear = some (pos 1); angular = some (pos 0) }

drive_starts : starts (drive_blade env node).sent ≡ true
unfolding drive_blade ◌-ℤ◌ Safety.initial Safety.project Safety.source_of Safety.lifted_count
    SessionController.initial SessionController.ready SessionController.failed
    SessionController.demand SessionController.tick SessionController.next SessionController.send
    SessionController.choose BladeTypes.initial BladeTypes.satisfied BladeTypes.sample_stale
    permission tick next emergency blade_allowed expire_wire settle_blade permit start_pending
    time_out forget_blade_rpc reply_all dispatch drive_session demand_session mode_for
    watch_traction forget_session_rpc request_session
drive_starts = refl

timer_starts : starts (step fixed_point env timer node).sent ≡ true
unfolding step on_timer drive_blade ◌-ℤ◌ Safety.initial Safety.project Safety.source_of
    Safety.lifted_count SessionController.initial SessionController.ready SessionController.failed
    SessionController.demand SessionController.tick SessionController.next SessionController.send
    SessionController.choose BladeTypes.initial BladeTypes.satisfied BladeTypes.sample_stale
    permission tick next emergency blade_allowed expire_wire settle_blade permit start_pending
    time_out forget_blade_rpc reply_all dispatch drive_session demand_session mode_for
    watch_traction forget_session_rpc request_session
timer_starts = refl

ahead_passed : velocities (on_cmd_vel fixed_point ahead env node).sent ≡ true
unfolding on_cmd_vel ◌-ℤ◌ Safety.initial Safety.project Safety.source_of Safety.lifted_count
    SessionController.initial SessionController.ready SessionController.failed
    SessionController.demand SessionController.tick SessionController.next SessionController.send
    SessionController.choose BladeTypes.initial BladeTypes.satisfied BladeTypes.sample_stale
    permission tick next emergency blade_allowed expire_wire settle_blade permit start_pending
    time_out forget_blade_rpc reply_all dispatch drive_session demand_session mode_for
    watch_traction forget_session_rpc request_session
ahead_passed = refl

drive_blade-starts_example :
    (SessionController.ready node.session ≡ true) × (node.session.wanted_arm ≡ true) × Safe env node
drive_blade-starts_example = drive_blade-starts env node refl drive_starts

step-starts_example : Safe env (step fixed_point env timer node)
step-starts_example = step-starts fixed_point env timer node refl timer_starts

cmd_vel-Drivable_example : Drivable fixed_point ahead env (on_cmd_vel fixed_point ahead env node)
cmd_vel-Drivable_example = cmd_vel-Drivable fixed_point ahead env node refl ahead_passed

emergency_stop-Disarms_example :
    let m = (on_emergency_stop true env node).0 in Disarms m.session × (starts m.sent ≡ false)
emergency_stop-Disarms_example = emergency_stop-Disarms env node refl

-- Two requests, one of which comes with a value that is refused, and the timer.
abbrev calls : List (Env × Call (Option ℤ))
calls = (env, mower_control 5 1 0) ∷ (env, mower_control 6 2 0) ∷ (env, timer) ∷ []

owed-run_example : owed 6 (run fixed_point calls node) ≡ owed 6 node + arrivals 6 calls
owed-run_example = owed-run fixed_point 6 calls node
