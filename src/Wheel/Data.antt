-- ===== src/Wheel/Data.antt =====
-- The data of ros2/src/mavros_esc_wheel_odometry/include/mavros_esc_wheel_odometry:
-- wheel_odometry_core.hpp and motor_tick_integrator.hpp. `F` is the type double.
use mowglimavros.Prelude.{ℕ, Bool}
use mowglimavros.Prelude.Int.{ℤ}

pub data WheelSource : Type 0 where
  no_source wheel_distance esc_status ardupilot_legacy : WheelSource

pub record WheelGeometry (F : Type 0) : Type 0 where
  pub left_esc_slot : ℤ
  pub right_esc_slot : ℤ
  pub track_width_m : F
  pub ticks_per_meter : F

pub record WheelMotionObservation (F : Type 0) : Type 0 where
  pub left_mps : F
  pub right_mps : F
  pub sample_stamp_ns : ℤ
  pub receipt_stamp_ns : ℤ
  pub source : WheelSource
  pub valid : Bool

pub record WheelObservation (F : Type 0) : Type 0 where
  pub sample_stamp_ns : ℤ
  pub receipt_stamp_ns : ℤ
  pub linear_x_mps : F
  pub angular_z_rps : F

pub record MotorRpmObservation (F : Type 0) : Type 0 where
  pub left_rpm : F
  pub right_rpm : F
  pub sample_stamp_ns : ℤ
  pub receipt_stamp_ns : ℤ

pub record MotorTickState (F : Type 0) : Type 0 where
  pub left_ticks : F
  pub right_ticks : F
  pub left_sample_ns : ℤ
  pub right_sample_ns : ℤ
  pub left_receipt_ns : ℤ
  pub right_receipt_ns : ℤ
  pub left_valid : Bool
  pub right_valid : Bool
  pub epoch : ℕ
  pub left_segment : ℕ
  pub right_segment : ℕ
