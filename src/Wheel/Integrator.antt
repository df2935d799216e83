-- ===== src/Wheel/Integrator.antt =====
-- MotorTickIntegrator of ros2/src/mavros_esc_wheel_odometry/src/motor_tick_integrator.cpp: motor
-- revolutions from speed reports, one segment for each unbroken series of reports.
use mowglimavros.Prelude.{
  ℕ, Bool, true, false, not, ◌&&◌, ◌||◌, Option, none, some, inc64, leb, ◌==◌, if◌then◌else◌,
}
use mowglimavros.Prelude.Int.{ℤ, pos, ◌-ℤ◌, leb_ℤ, ltb_ℤ}
use mowglimavros.Prelude.Double.{Double}
use mowglimavros.Wheel.Data.{WheelSource, WheelMotionObservation, MotorTickState}

pub record Wheel (F : Type 0) : Type 0 where
  pub ticks : F
  pub rpm : F
  pub ticks_per_second : F
  pub sample_ns : ℤ
  pub receipt_ns : ℤ
  pub valid : Bool
  pub segment : ℕ

-- The array of two wheels: 0 is the left one.
pub record MotorTickIntegrator (F : Type 0) : Type 0 where
  pub timeout_ns : ℤ
  pub epoch : ℕ
  pub left : Wheel F
  pub right : Wheel F

abbrev pub later : ℤ → ℤ → ℤ
later a b = if ltb_ℤ a b then b else a

module _ (D : Double) where
  open D use {F, of_int, is_finite, lt, plus, times, over}

  unfoldable pub still : Wheel F
  still = record {
    ticks = of_int (pos 0);
    rpm = of_int (pos 0);
    ticks_per_second = of_int (pos 0);
    sample_ns = pos 0;
    receipt_ns = pos 0;
    valid = false;
    segment = 0;
  }

  unfoldable pub create : ℤ → MotorTickIntegrator F
  unfolding still
  create timeout_ns = record { timeout_ns = timeout_ns; epoch = 0; left = still; right = still }

  -- One nanosecond in seconds, 1e-9.
  abbrev pub nano : F
  nano = over (of_int (pos 1)) (of_int (pos 1000000000))

  abbrev pub contiguous : ℤ → ℤ → ℤ → Wheel F → Bool
  contiguous timeout sample receipt old =
      old.valid
      && leb_ℤ (sample -ℤ old.sample_ns) timeout
      && leb_ℤ (receipt -ℤ old.receipt_ns) timeout

  -- The sum after a report: the mean of the two speeds over the time between them.
  abbrev pub integrated : F → ℤ → Wheel F → F
  integrated rpm sample old = plus old.ticks (
      times (plus (over old.rpm (of_int (pos 120))) (over rpm (of_int (pos 120))))
        (times (of_int (sample -ℤ old.sample_ns)) nano))

  -- `observe` on one wheel: the new wheel, and whether the report was taken.
  unfoldable pub observe_wheel : ℤ → F → ℤ → ℤ → Wheel F → Wheel F × Bool
  observe_wheel timeout rpm sample receipt old =
      let joined = contiguous timeout sample receipt old in
      let ticks = if joined then integrated rpm sample old else old.ticks in
      let rate = over rpm (of_int (pos 60)) in
      if not (is_finite rpm)
        || leb_ℤ sample (pos 0)
        || leb_ℤ receipt (pos 0)
        || leb_ℤ timeout (pos 0)
        || (old.valid && (leb_ℤ sample old.sample_ns || ltb_ℤ receipt old.receipt_ns))
        || not (is_finite ticks)
        || not (is_finite rate)
      then (old, false)
      else (
        record {
          ticks = ticks;
          rpm = rpm;
          ticks_per_second = rate;
          sample_ns = sample;
          receipt_ns = receipt;
          valid = true;
          segment = if joined then old.segment else inc64 old.segment;
        },
        true,
      )

  unfoldable pub observe : ℕ → F → ℤ → ℤ → MotorTickIntegrator F → MotorTickIntegrator F × Bool
  observe wheel rpm sample receipt s =
      let (l, left_taken) = observe_wheel s.timeout_ns rpm sample receipt s.left in
      let (r, right_taken) = observe_wheel s.timeout_ns rpm sample receipt s.right in
      if leb 2 wheel
      then (s, false)
      else if wheel == 0
      then (record s { left = l }, left_taken)
      else (record s { right = r }, right_taken)

  unfoldable pub reset : MotorTickIntegrator F → MotorTickIntegrator F
  unfolding still
  reset s = record s { left = still; right = still; epoch = inc64 s.epoch }

  unfoldable pub retain_counts :
      MotorTickIntegrator F → MotorTickIntegrator F → MotorTickIntegrator F
  retain_counts previous s = record s {
    left = previous.left;
    right = previous.right;
    epoch = previous.epoch;
  }

  unfoldable pub invalidate : ℕ → MotorTickIntegrator F → MotorTickIntegrator F
  invalidate wheel s =
      if leb 2 wheel
      then s
      else if wheel == 0
      then record s { left = record (s.left) { valid = false } }
      else record s { right = record (s.right) { valid = false } }

  abbrev unreferenced : Wheel F → Wheel F
  unreferenced w = record w { valid = false; sample_ns = pos 0; receipt_ns = pos 0 }

  unfoldable pub reset_references : MotorTickIntegrator F → MotorTickIntegrator F
  reset_references s = record s { left = unreferenced s.left; right = unreferenced s.right }

  unfoldable pub state : MotorTickIntegrator F → MotorTickState F
  state s = record {
    left_ticks = s.left.ticks;
    right_ticks = s.right.ticks;
    left_sample_ns = s.left.sample_ns;
    right_sample_ns = s.right.sample_ns;
    left_receipt_ns = s.left.receipt_ns;
    right_receipt_ns = s.right.receipt_ns;
    left_valid = s.left.valid;
    right_valid = s.right.valid;
    epoch = s.epoch;
    left_segment = s.left.segment;
    right_segment = s.right.segment;
  }

  unfoldable pub motion :
      F → WheelSource → MotorTickIntegrator F → Option (WheelMotionObservation F)
  motion tpm source s =
      let left = over s.left.ticks_per_second tpm in
      let right = over s.right.ticks_per_second tpm in
      if not (is_finite tpm)
        || not (lt (of_int (pos 0)) tpm)
        || not s.left.valid
        || not s.right.valid
        || not (is_finite left)
        || not (is_finite right)
      then none
      else some (record {
        left_mps = left;
        right_mps = right;
        sample_stamp_ns = later s.left.sample_ns s.right.sample_ns;
        receipt_stamp_ns = later s.left.receipt_ns s.right.receipt_ns;
        source = source;
        valid = true;
      })
