-- ===== src/Wheel/Core.antt =====
-- WheelOdometryCore of ros2/src/mavros_esc_wheel_odometry/src/wheel_odometry_core.cpp: the
-- differential-drive equation behind a guard on the order of the stamps.
use mowglimavros.Prelude.{Bool, true, false, not, ◌&&◌, ◌||◌, Option, none, some, if◌then◌else◌}
use mowglimavros.Prelude.Int.{ℤ, pos, leb_ℤ, ltb_ℤ}
use mowglimavros.Prelude.Double.{Double}
use mowglimavros.Wheel.Data.{
  WheelSource, no_source, WheelGeometry, WheelMotionObservation, WheelObservation,
}

pub record WheelOdometryCore (F : Type 0) : Type 0 where
  pub geometry : WheelGeometry F
  pub last_sample_ns : ℤ
  pub last_receipt_ns : ℤ

abbrev pub is_none : WheelSource → Bool
is_none no_source = true
is_none _ = false

module _ (D : Double) where
  open D use {F, of_int, is_finite, lt, plus, minus, over}

  unfoldable pub create : WheelGeometry F → WheelOdometryCore F
  create geometry = record { geometry = geometry; last_sample_ns = pos 0; last_receipt_ns = pos 0 }

  unfoldable pub valid : WheelOdometryCore F → Bool
  valid s = is_finite s.geometry.track_width_m && lt (of_int (pos 0)) s.geometry.track_width_m

  unfoldable pub reset : WheelOdometryCore F → WheelOdometryCore F
  reset s = record s { last_sample_ns = pos 0; last_receipt_ns = pos 0 }

  -- The early return of `receive_motion`.
  unfoldable pub refused : WheelMotionObservation F → WheelOdometryCore F → Bool
  unfolding valid
  refused m s =
      not (valid s)
      || not m.valid
      || is_none m.source
      || not (is_finite m.left_mps)
      || not (is_finite m.right_mps)
      || leb_ℤ m.sample_stamp_ns s.last_sample_ns
      || leb_ℤ m.receipt_stamp_ns (pos 0)
      || ltb_ℤ m.receipt_stamp_ns s.last_receipt_ns

  unfoldable pub receive_motion :
      WheelMotionObservation F
      → WheelOdometryCore F
      → WheelOdometryCore F × Option (WheelObservation F)
  unfolding refused
  receive_motion m s =
      let linear = over (plus m.left_mps m.right_mps) (of_int (pos 2)) in
      let angular = over (minus m.right_mps m.left_mps) s.geometry.track_width_m in
      if refused m s || not (is_finite linear) || not (is_finite angular) then (s, none) else (
        record s { last_sample_ns = m.sample_stamp_ns; last_receipt_ns = m.receipt_stamp_ns },
        some (record {
          sample_stamp_ns = m.sample_stamp_ns;
          receipt_stamp_ns = m.receipt_stamp_ns;
          linear_x_mps = linear;
          angular_z_rps = angular;
        }),
      )
