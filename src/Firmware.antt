-- ===== src/Firmware.antt =====
-- FirmwareProvider of ros2/src/mowgli_mavros_bridge/src/firmware_provider.cpp and of
-- include/mowgli_mavros_bridge/firmware_provider.hpp beside it, and rover_manual_control.hpp. The two
-- concrete providers are the constructors of a data type.
pub mod Providers
mod Examples
use Prim.Native.String.{String, ◌++◌ as append}
use text.Mathlib.Text.{◌==◌ as str_eq}
use mowglimavros.Prelude.{ℕ, Bool, true, false, ◌||◌, Option, none, some, if◌then◌else◌}
use mowglimavros.Prelude.Int.{ℤ, pos, negsuc, pos_part, neg_part, sub_ℕ}
use mowglimavros.Prelude.Double.{Double}

-- ArduPilotProvider and PX4Provider.
pub data Provider : Type 0 where
  ardu_pilot px4 : Provider

pub data ManualControlMapping : Type 0 where
  rover_steering_y_throttle_z : ManualControlMapping

pub record FirmwareCapabilities : Type 0 where
  pub manual_control_mapping : ManualControlMapping
  pub manual_control_mapping_implemented : Bool
  pub arm_implemented : Bool
  pub disarm_implemented : Bool
  pub mode_control_implemented : Bool
  pub blade_control_implemented : Bool
  pub actuation_validated : Bool

pub record EmergencyPolicy : Type 0 where
  pub mode : String
  pub disarm : Bool

-- The result of `make_firmware_provider`: a provider, or std::invalid_argument with its text.
pub data Made : Type 0 where
  provided : Provider → Made
  invalid_argument : String → Made

unfoldable pub capabilities : Provider → FirmwareCapabilities
capabilities p = record {
  manual_control_mapping = rover_steering_y_throttle_z;
  manual_control_mapping_implemented = true;
  arm_implemented = true;
  disarm_implemented = true;
  mode_control_implemented = true;
  blade_control_implemented = true;
  actuation_validated = false;
}

unfoldable pub default_emergency_policy : Provider → EmergencyPolicy
default_emergency_policy p = record { mode = "HOLD"; disarm = true }

unfoldable pub emergency_policy : Provider → String → Bool → EmergencyPolicy
emergency_policy p configured_mode configured_disarm = record {
  mode = configured_mode;
  disarm = configured_disarm;
}

unfoldable pub name : Provider → String
name ardu_pilot = "ardupilot"
name px4 = "px4"

unfoldable pub guided_velocity_implemented : Provider → Bool
guided_velocity_implemented ardu_pilot = true
guided_velocity_implemented px4 = false

unfoldable pub make_firmware_provider : String → Made
make_firmware_provider firmware =
    if str_eq firmware "ardupilot"
    then provided ardu_pilot
    else if str_eq firmware "px4"
    then provided px4
    else if str_eq firmware "betaflight" || str_eq firmware "inav" || str_eq firmware "mowgli"
    then invalid_argument (append "MAVROS_FIRMWARE=" (append firmware ": not implemented"))
    else invalid_argument "C++ provider requires a resolved ardupilot or px4 firmware"

-- The fields of geometry_msgs/TwistStamped that are read.
pub record TwistStamped (F : Type 0) : Type 0 where
  pub stamp_ns : ℤ
  pub frame_id : String
  pub linear_x : F
  pub angular_z : F

-- The fields of mavros_msgs/ManualControl that are set.
pub record ManualControl : Type 0 where
  pub y : ℤ
  pub z : ℤ

-- The fields of mavros_msgs/PositionTarget that are set.
pub record PositionTarget (F : Type 0) : Type 0 where
  pub stamp_ns : ℤ
  pub frame_id : String
  pub coordinate_frame : ℕ
  pub type_mask : ℕ
  pub velocity_x : F
  pub yaw_rate : F

abbrev pub opposite : ℤ → ℤ
opposite a = sub_ℕ (neg_part a) (pos_part a)

-- The conversions of double to int16_t and to float are parameters, and so is the value of
-- FRAME_BODY_NED.
module _ (D : Double) (to_int16 : D.F → ℤ) where
  open D use {F, of_int, lt, times}

  abbrev pub lowest : F
  lowest = of_int (negsuc 999)

  abbrev pub highest : F
  highest = of_int (pos 1000)

  -- `std::clamp(v, -1000.0, 1000.0)`.
  unfoldable pub clamp : F → F
  clamp v = if lt v lowest then lowest else if lt highest v then highest else v

  unfoldable pub rover_manual_control_from_twist : TwistStamped F → F → F → ManualControl
  rover_manual_control_from_twist twist linear_scale yaw_scale = record {
    y = to_int16 (clamp (times twist.angular_z yaw_scale));
    z = to_int16 (clamp (times twist.linear_x linear_scale));
  }

  unfoldable pub manual_control_from_twist : Provider → TwistStamped F → F → F → ManualControl
  manual_control_from_twist px4 twist linear_scale yaw_scale =
      rover_manual_control_from_twist twist linear_scale yaw_scale
  manual_control_from_twist ardu_pilot twist linear_scale yaw_scale =
      let command = rover_manual_control_from_twist twist linear_scale yaw_scale in
      record command { y = opposite command.y }

module _ {F : Type 0} (to_float : F → F) (frame_body_ned : ℕ) where
  -- `none` is the exception std::logic_error.
  unfoldable pub guided_velocity_from_twist : Provider → TwistStamped F → Option (PositionTarget F)
  guided_velocity_from_twist p twist =
      if guided_velocity_implemented p
      then some (record {
        stamp_ns = twist.stamp_ns;
        frame_id = twist.frame_id;
        coordinate_frame = frame_body_ned;
        type_mask = 1511;
        velocity_x = twist.linear_x;
        yaw_rate = to_float twist.angular_z;
      })
      else none
