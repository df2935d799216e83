-- ===== src/Wheel/Ticks.antt =====
-- WheelTickProjector of
-- ros2/src/mavros_esc_wheel_odometry/include/mavros_esc_wheel_odometry/wheel_tick_projection.hpp:
-- fractional revolutions as an unsigned 32-bit count and a direction.
use mowglimavros.Prelude.{
  ℕ, ◌+◌, ◌%◌, ◌^◌, Bool, true, false, not, ◌&&◌, ◌||◌, Option, none, some, ◌==◌, if◌then◌else◌,
}
use mowglimavros.Prelude.Int.{ℤ, pos, leb_ℤ}
use mowglimavros.Prelude.Double.{Double}
use mowglimavros.Wheel.Data.{
  wheel_distance, WheelSource, no_source, esc_status, ardupilot_legacy, MotorTickState,
}

pub record Wheel (F : Type 0) : Type 0 where
  pub valid : Bool
  pub segment : ℕ
  pub sample_ns : ℤ
  pub ticks : F
  pub fractional_count : F
  pub count : ℕ
  pub direction : ℕ

pub record WheelTickProjection : Type 0 where
  pub left_valid : Bool
  pub right_valid : Bool
  pub left_count : ℕ
  pub right_count : ℕ
  pub left_direction : ℕ
  pub right_direction : ℕ

pub record WheelTickProjector (F : Type 0) : Type 0 where
  pub source : WheelSource
  pub epoch : ℕ
  pub left : Wheel F
  pub right : Wheel F

-- Only the two ESC sources carry ticks.
abbrev pub counted : WheelSource → Bool
counted esc_status = true
counted ardupilot_legacy = true
counted _ = false

abbrev pub same_source : WheelSource → WheelSource → Bool
same_source no_source no_source = true
same_source wheel_distance wheel_distance = true
same_source esc_status esc_status = true
same_source ardupilot_legacy ardupilot_legacy = true
same_source _ _ = false

-- `whole` is `static_cast<uint32_t>(std::floor(x))`.
module _ (D : Double) (whole : D.F → ℕ) where
  open D use {F, of_int, is_finite, lt, plus, minus, times, magnitude}

  abbrev zero_count : F
  zero_count = of_int (pos 0)

  -- The magnitude of a step, in thousandths of a revolution.
  abbrev pub counts : F → F
  counts delta = times (magnitude delta) (of_int (pos 1000))

  abbrev pub turned : F → ℕ → ℕ
  turned delta direction =
      if lt zero_count delta then 1 else if lt delta zero_count then 0 else direction

  -- The direction of a step is the other one.
  abbrev pub reverses : F → ℕ → Bool
  reverses delta direction =
      (lt zero_count delta && direction == 0) || (lt delta zero_count && direction == 1)

  -- `project_wheel` for a report that continues the segment.
  unfoldable pub advance : F → ℤ → Wheel F → Wheel F × Bool
  advance ticks sample_ns w =
      let delta = minus ticks w.ticks in
      let kept = if reverses delta w.direction then zero_count else w.fractional_count in
      let fraction = plus kept (counts delta) in
      if not (is_finite delta) || lt (of_int (pos 2147483647)) (counts delta)
      then (record w { sample_ns = sample_ns; ticks = ticks; valid = false }, false)
      else (
        record w {
          sample_ns = sample_ns;
          ticks = ticks;
          direction = turned delta w.direction;
          count = (w.count + whole fraction) % 2 ^ 32;
          fractional_count = minus fraction (of_int (pos (whole fraction)));
        },
        true,
      )

  unfoldable pub project_wheel : Bool → ℕ → F → ℤ → Wheel F → Wheel F × Bool
  project_wheel valid segment ticks sample_ns w =
      if not valid || not (is_finite ticks)
      then (record w { valid = false }, false)
      else if not w.valid || not (w.segment == segment)
      then (
        record w {
          valid = true;
          segment = segment;
          ticks = ticks;
          sample_ns = sample_ns;
          fractional_count = zero_count;
        },
        true,
      )
      else if leb_ℤ sample_ns w.sample_ns
      then (w, false)
      else advance ticks sample_ns w

  abbrev dropped : Wheel F → Wheel F
  dropped w = record w { valid = false }

  -- A new source or epoch starts from new references; the counts go on.
  unfoldable pub rebase : WheelSource → ℕ → WheelTickProjector F → WheelTickProjector F
  rebase source epoch s = if same_source s.source source && s.epoch == epoch then s else record s {
    source = source;
    epoch = epoch;
    left = record (s.left) { valid = false; fractional_count = zero_count };
    right = record (s.right) { valid = false; fractional_count = zero_count };
  }

  unfoldable pub project :
      WheelSource
      → MotorTickState F
      → WheelTickProjector F
      → WheelTickProjector F × Option WheelTickProjection
  project source t s =
      let r = rebase source t.epoch s in
      let (left, left_new) =
        project_wheel t.left_valid t.left_segment t.left_ticks t.left_sample_ns r.left in
      let (right, right_new) =
        project_wheel t.right_valid t.right_segment t.right_ticks t.right_sample_ns r.right in
      if not (counted source) || (not t.left_valid && not t.right_valid)
      then (record s { left = dropped s.left; right = dropped s.right }, none)
      else (
        record r { left = left; right = right },
        if not left_new && not right_new
            then none
            else some (record {
              left_valid = left.valid;
              right_valid = right.valid;
              left_count = left.count;
              right_count = right.count;
              left_direction = left.direction;
              right_direction = right.direction;
            }),
      )
