-- ===== src/Safety.antt =====
-- SafetyState of ros2/src/mowgli_mavros_bridge/include/mowgli_mavros_bridge/safety_state.hpp: the
-- sources of an emergency, their latches, and the projection that is published.
pub mod Emergency
mod Examples
use mowglimavros.Prelude.{
  ℕ, ◌%◌, ◌/◌, Bool, true, false, not, ◌&&◌, ◌||◌, Option, none, some, ◌+◌, ltb, ◌==◌,
  if◌then◌else◌,
}
use mowglimavros.Prelude.Int.{ℤ, pos, ◌-ℤ◌, leb_ℤ, ltb_ℤ}

pub data HardwareSafetyState : Type 0 where
  unknown released engaged : HardwareSafetyState

pub data Reason : Type 0 where
  no_reason hardware_safety_switch service_emergency_stop tilt wheel_lift : Reason

-- `lift_duration_sec` is the nanoseconds that the source divides by 1e9.
pub record EmergencyState : Type 0 where
  pub active_emergency : Bool
  pub latched_emergency : Bool
  pub lift_warning : Bool
  pub lift_duration_ns : ℤ
  pub reason : Reason

pub record SafetyState : Type 0 where
  pub hardware_safety_state : HardwareSafetyState
  pub hardware_emergency_latched : Bool
  pub service_emergency_active : Bool
  pub service_emergency_latched : Bool
  pub tilt_active : Bool
  pub tilt_latched : Bool
  pub wheel_lift_state_valid : Bool
  pub left_wheel_lifted : Bool
  pub right_wheel_lifted : Bool
  pub raw_button_state : ℕ
  pub last_button_change_ns : ℤ
  pub lift_started_ns : ℤ

unfoldable pub initial : SafetyState
initial = record {
  hardware_safety_state = unknown;
  hardware_emergency_latched = false;
  service_emergency_active = false;
  service_emergency_latched = false;
  tilt_active = false;
  tilt_latched = false;
  wheel_lift_state_valid = false;
  left_wheel_lifted = false;
  right_wheel_lifted = false;
  raw_button_state = 0;
  last_button_change_ns = pos 0;
  lift_started_ns = pos 0;
}

pub observe_motor_outputs : Bool → Bool → SafetyState → SafetyState
observe_motor_outputs present enabled s =
    if not present
    then record s { hardware_safety_state = unknown; hardware_emergency_latched = false }
    else record s {
      hardware_safety_state = if enabled then released else engaged;
      hardware_emergency_latched = not enabled;
    }

-- `lift_started_ns_` after a change: set when the lift begins, cleared when it ends.
pub lift_start : Bool → Bool → ℤ → ℤ → ℤ
lift_start lifted was_lifted receipt_ns started =
    if lifted && not was_lifted then receipt_ns else if not lifted then pos 0 else started

-- The bits 0 and 1 of a byte are the left and the right wheel.
pub observe_button_change : ℕ → ℤ → SafetyState → SafetyState
unfolding lift_start
observe_button_change state receipt_ns s =
    let was_lifted = s.wheel_lift_state_valid && (s.left_wheel_lifted || s.right_wheel_lifted) in
    let left = not (state % 2 == 0) in
    let right = not ((state / 2) % 2 == 0) in
    record s {
      raw_button_state = state;
      left_wheel_lifted = left;
      right_wheel_lifted = right;
      wheel_lift_state_valid = true;
      last_button_change_ns = receipt_ns;
      lift_started_ns = lift_start (left || right) was_lifted receipt_ns s.lift_started_ns;
    }

unfoldable pub set_service_emergency : Bool → SafetyState → SafetyState
set_service_emergency active s = record s {
  service_emergency_active = active;
  service_emergency_latched = active;
}

pub observe_tilt : Bool → SafetyState → SafetyState
observe_tilt active s = record s {
  tilt_active = active;
  tilt_latched = if active then true else s.tilt_latched;
}

pub clear_released_latches : SafetyState → SafetyState
clear_released_latches s = record s {
  service_emergency_latched = false;
  tilt_latched = if s.tilt_active then s.tilt_latched else false;
}

pub disconnect : SafetyState → SafetyState
disconnect s = record s {
  hardware_safety_state = unknown;
  hardware_emergency_latched = false;
  wheel_lift_state_valid = false;
  lift_started_ns = pos 0;
}

abbrev is_engaged : HardwareSafetyState → Bool
is_engaged engaged = true
is_engaged _ = false

abbrev to_unsigned : Bool → ℕ
to_unsigned true = 1
to_unsigned false = 0

unfoldable pub lifted_count : SafetyState → ℕ
lifted_count s =
    if s.wheel_lift_state_valid
    then to_unsigned s.left_wheel_lifted + to_unsigned s.right_wheel_lifted
    else 0

-- The four branches on the source of an emergency: active, and the reason.
unfoldable pub source_of : ℕ → SafetyState → Bool × Reason
source_of lifted s =
    if is_engaged s.hardware_safety_state
    then (true, hardware_safety_switch)
    else if s.service_emergency_active
    then (true, service_emergency_stop)
    else if s.tilt_active
    then (true, tilt)
    else if ltb 0 lifted
    then (lifted == 2, wheel_lift)
    else (false, no_reason)

unfoldable pub project : ℤ → SafetyState → EmergencyState
unfolding lifted_count source_of
project now s =
    let lifted = lifted_count s in
    let (active, reason) = source_of lifted s in
    record {
      active_emergency = active;
      latched_emergency =
          s.hardware_emergency_latched
          || s.service_emergency_latched
          || s.tilt_latched
          || is_engaged s.hardware_safety_state;
      lift_warning = s.wheel_lift_state_valid && lifted == 1;
      lift_duration_ns =
          if s.wheel_lift_state_valid
            && ltb_ℤ (pos 0) s.lift_started_ns
            && leb_ℤ s.lift_started_ns now
          then now -ℤ s.lift_started_ns
          else pos 0;
      reason = reason;
    }
