-- ===== src/Wheel/Examples.antt =====
-- The wheel odometry (ros2/src/mavros_esc_wheel_odometry) at concrete inputs, over integers for
-- double.
use mowglimavros.Prelude.{ℕ, true, Option, none, some, [], ◌∷◌}
use mowglimavros.Prelude.Int.{ℤ, pos, pos_part}
use mowglimavros.Prelude.Double.{fixed_point}
use mowglimavros.Wheel.Data.{WheelGeometry, WheelMotionObservation, esc_status}
use mowglimavros.Wheel.Core.{WheelOdometryCore}
use mowglimavros.Wheel.Legacy.{LegacyWheelAdapter}
use mowglimavros.Wheel.Integrator
use mowglimavros.Wheel.Ticks
use mowglimavros.Wheel.Order.{Ordered, observations, observations-Ordered}

abbrev geometry : WheelGeometry (Option ℤ)
geometry = record {
  left_esc_slot = pos 0;
  right_esc_slot = pos 1;
  track_width_m = some (pos 1);
  ticks_per_meter = some (pos 10);
}

abbrev moved : ℕ → WheelMotionObservation (Option ℤ)
moved t = record {
  left_mps = some (pos 1);
  right_mps = some (pos 2);
  sample_stamp_ns = pos t;
  receipt_stamp_ns = pos t;
  source = esc_status;
  valid = true;
}

abbrev core : WheelOdometryCore (Option ℤ)
core = record { geometry = geometry; last_sample_ns = pos 0; last_receipt_ns = pos 0 }

observations-Ordered_example :
    Ordered fixed_point
      (pos 0)
      (pos 0)
      (observations fixed_point (moved 5 ∷ moved 4 ∷ moved 6 ∷ []) core)
observations-Ordered_example =
    observations-Ordered fixed_point (moved 5 ∷ moved 4 ∷ moved 6 ∷ []) core

abbrev turning : Integrator.Wheel (Option ℤ)
turning = record {
  ticks = some (pos 7);
  rpm = some (pos 60);
  ticks_per_second = some (pos 1);
  sample_ns = pos 100;
  receipt_ns = pos 110;
  valid = true;
  segment = 4;
}

abbrev both_advanced : LegacyWheelAdapter (Option ℤ)
both_advanced = record {
  geometry = geometry;
  timeout_ns = pos 50;
  left = record { count = some 3; advanced = true; stamp = pos 100 };
  right = record { count = some 4; advanced = true; stamp = pos 110 };
}

abbrev whole : Option ℤ → ℕ
whole none = 0
whole (some v) = pos_part v

abbrev tracked : Ticks.Wheel (Option ℤ)
tracked = record {
  valid = true;
  segment = 1;
  sample_ns = pos 100;
  ticks = some (pos 5);
  fractional_count = some (pos 0);
  count = 9;
  direction = 1;
}
