-- ===== src/Engine/Data.antt =====
-- The data of ros2/src/mavros_esc_wheel_odometry/include/mavros_esc_wheel_odometry/observation_engine.hpp.
-- An array is a function of the index; float and double are both `F`.
use Prim.Native.String.{String}
use mowglimavros.Prelude.{ℕ, Bool, Option, none, false}
use mowglimavros.Prelude.Int.{ℤ, pos}
use mowglimavros.Prelude.Double.{Double}
use mowglimavros.Wheel.Data.{WheelGeometry, WheelMotionObservation, WheelSource}
use mowglimavros.Wheel.Core.{WheelOdometryCore}
use mowglimavros.Wheel.Legacy.{LegacyWheelAdapter}
use mowglimavros.Wheel.Integrator.{MotorTickIntegrator}

pub data EscSource : Type 0 where
  common ardu_pilot_legacy : EscSource

pub record EscObservationData (F : Type 0) : Type 0 where
  pub index : ℕ
  pub source : EscSource
  pub stamp_ns : ℤ
  pub metadata_stamp_ns : ℤ
  pub valid : Bool
  pub rpm : ℤ
  pub rpm_valid : Bool
  pub rpm_direction_valid : Bool
  pub voltage : F
  pub current : F
  pub temperature : F
  pub voltage_valid : Bool
  pub current_valid : Bool
  pub temperature_valid : Bool
  pub failure_flags : ℕ
  pub error_count : ℕ
  pub failure_flags_valid : Bool
  pub error_count_valid : Bool
  pub totalcurrent : F
  pub count : ℕ
  pub totalcurrent_valid : Bool
  pub count_valid : Bool

pub record CommonStatusPacket (F : Type 0) : Type 0 where
  pub index : ℕ
  pub time_us : ℕ
  pub rpm : ℕ → ℤ
  pub voltage : ℕ → F
  pub current : ℕ → F
  pub component_id : ℕ

pub record CommonInfoPacket : Type 0 where
  pub index : ℕ
  pub count : ℕ
  pub time_us : ℕ
  pub temperature : ℕ → ℤ
  pub failure_flags : ℕ → ℕ
  pub error_count : ℕ → ℕ
  pub component_id : ℕ

pub record LegacyEscPacket (F : Type 0) : Type 0 where
  pub index : ℕ
  pub counts : ℕ → ℕ
  pub rpm : ℕ → ℕ
  pub voltage : ℕ → F
  pub current : ℕ → F
  pub temperature : ℕ → F
  pub totalcurrent : ℕ → F

pub record DistancePacket (F : Type 0) : Type 0 where
  pub time_us : ℕ
  pub count : ℕ
  pub distance : ℕ → F
  pub component_id : ℕ

pub record ObservationConfig (F : Type 0) : Type 0 where
  pub geometry : WheelGeometry F
  pub source : String
  pub left_wheel_index : ℤ
  pub right_wheel_index : ℤ
  pub timeout_ns : ℤ
  pub legacy_enabled : Bool
  pub wheel_distance_component_id : ℤ
  pub esc_component_id : ℤ
  pub common_pair_max_skew_s : F
  pub max_distance_speed_mps : F

pub record Status (F : Type 0) : Type 0 where
  pub report : EscObservationData F
  pub time_us : ℕ
  pub seen : Bool

pub record Info : Type 0 where
  pub time_us : ℕ
  pub stamp_ns : ℤ
  pub temperature : ℤ
  pub failure_flags : ℕ
  pub error_count : ℕ
  pub seen : Bool
  pub valid : Bool

pub record Legacy (F : Type 0) : Type 0 where
  pub report : EscObservationData F
  pub count : Option ℕ

pub record Distance (F : Type 0) : Type 0 where
  pub left : F
  pub right : F
  pub time_us : ℕ
  pub receipt_ns : ℤ
  pub valid : Bool

pub record ObservationEngine (F : Type 0) : Type 0 where
  pub config : ObservationConfig F
  pub core : WheelOdometryCore F
  pub legacy : LegacyWheelAdapter F
  pub common_motor_ticks : MotorTickIntegrator F
  pub legacy_motor_ticks : MotorTickIntegrator F
  pub connected : Bool
  pub status : ℕ → Status F
  pub info : ℕ → Info
  pub legacy_esc : ℕ → Legacy F
  pub common_count : Option ℕ
  pub common_component : Option ℕ
  pub common_status_owner : Bool
  pub common_owner_stamp_ns : ℤ
  pub last_receipt_ns : ℤ
  pub distance : Distance F
  pub distance_component : Option ℕ
  pub distance_baseline : Option (Distance F)
  pub legacy_motion : Option (WheelMotionObservation F)
  pub active : WheelSource
  pub published_left : ℕ
  pub published_right : ℕ
  pub common_epoch_baseline_needed : Bool
  pub common_configuration_ns : ℤ

module _ (D : Double) where
  open D use {F, of_int}

  abbrev zero_value : F
  zero_value = of_int (pos 0)

  -- `EscObservationData{}`.
  unfoldable pub no_data : EscObservationData F
  no_data = record {
    index = 0;
    source = common;
    stamp_ns = pos 0;
    metadata_stamp_ns = pos 0;
    valid = false;
    rpm = pos 0;
    rpm_valid = false;
    rpm_direction_valid = false;
    voltage = zero_value;
    current = zero_value;
    temperature = zero_value;
    voltage_valid = false;
    current_valid = false;
    temperature_valid = false;
    failure_flags = 0;
    error_count = 0;
    failure_flags_valid = false;
    error_count_valid = false;
    totalcurrent = zero_value;
    count = 0;
    totalcurrent_valid = false;
    count_valid = false;
  }

  abbrev pub no_status : Status F
  no_status = record { report = no_data; time_us = 0; seen = false }

  abbrev pub no_legacy : Legacy F
  no_legacy = record { report = no_data; count = none }

  abbrev pub no_distance : Distance F
  no_distance = record {
    left = zero_value;
    right = zero_value;
    time_us = 0;
    receipt_ns = pos 0;
    valid = false;
  }

abbrev pub no_info : Info
no_info = record {
  time_us = 0;
  stamp_ns = pos 0;
  temperature = pos 0;
  failure_flags = 0;
  error_count = 0;
  seen = false;
  valid = false;
}
