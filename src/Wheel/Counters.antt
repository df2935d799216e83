-- ===== src/Wheel/Counters.antt =====
-- The message counters of LegacyWheelAdapter (legacy_wheel_adapter.cpp) and the tick counts of
-- WheelTickProjector (wheel_tick_projection.hpp).
use mowglimavros.Prelude.{ℕ, Bool, true, ◌≡◌, ◌≢◌, ◌⊎◌, ◌↔◌, ◌<◌, ◌^◌, none, some, arith}
use mowglimavros.Prelude.Int.{ℤ, ◌-ℤ◌, ◌≤ℤ◌, ◌<ℤ◌}
use mowglimavros.Prelude.Double.{Double}
use mowglimavros.Wheel.Data.{WheelSource, MotorTickState, MotorRpmObservation}
use mowglimavros.Wheel.Legacy.{Slot, LegacyWheelAdapter, counter_advanced, receive_rpm, count_slot}
use mowglimavros.Wheel.Ticks.{Wheel, WheelTickProjector, project_wheel, advance, rebase, project}

-- On 16-bit counters the test by wrapped subtraction says exactly that they differ.
pub counter_advanced_iff :
    (p c : ℕ) → p < 2 ^ 16 → c < 2 ^ 16 → (counter_advanced p c ≡ true) ↔ (p ≢ c)
unfolding counter_advanced
counter_advanced_iff p c hp hc = (λ h. ground arith, λ h. ground arith)

module _ (D : Double) where
  open D use {F, is_finite}

  -- A speed report is passed on only if the counters of both ESCs have advanced since the last one,
  -- not after the report and at most the time-out before it; it uses up both advances, so that the
  -- next report is not passed on before new counters arrive.
  pub receive_rpm_once :
      (l r l' r' : F) (now later : ℤ) (s : LegacyWheelAdapter F) (o : MotorRpmObservation F)
      → (receive_rpm D l r now s).1 ≡ some o
      → (s.left.advanced ≡ true)
        × (s.right.advanced ≡ true)
        × (s.left.stamp ≤ℤ now)
        × (s.right.stamp ≤ℤ now)
        × (now -ℤ s.left.stamp ≤ℤ s.timeout_ns)
        × (now -ℤ s.right.stamp ≤ℤ s.timeout_ns)
        × (o.receipt_stamp_ns ≡ now)
        × (receive_rpm D l' r' later (receive_rpm D l r now s).0
            ≡ ((receive_rpm D l r now s).0, none))
  unfolding receive_rpm
  receive_rpm_once l r l' r' now later s o e = ground arith

  -- A counter that repeats, or arrives with an earlier receipt, proves no motion.
  pub count_slot_replayed :
      (count n : ℕ) (receipt : ℤ) (w : Slot)
      → w.count ≡ some n
      → (count ≡ n) ⊎ (receipt <ℤ w.stamp)
      → count_slot count receipt w ≡ w
  unfolding count_slot
  count_slot_replayed count n receipt w e h = ground arith

  module _ (whole : F → ℕ) where
    -- Counts are carried on: a report that starts a segment, repeats a sample or is invalid leaves the
    -- count and the direction, and only a later sample of the same segment can add to the count.
    pub project_wheel_count :
        (valid : Bool) (segment : ℕ) (ticks : F) (sample : ℤ) (w : Wheel F)
        → let (t, new) = project_wheel D whole valid segment ticks sample w in
          (t.count ≢ w.count
            → (w.valid ≡ true)
              × (w.segment ≡ segment)
              × (w.sample_ns <ℤ sample)
              × (new ≡ true)
              × (t.sample_ns ≡ sample))
          × ((t.valid ≡ true) → (valid ≡ true) × (is_finite ticks ≡ true) × (t.segment ≡ segment))
    unfolding project_wheel advance
    project_wheel_count valid segment ticks sample w = (λ n. ground arith, λ n. ground arith)

    -- A projection for the same source and state as the one before has nothing new to report.
    pub project_twice :
        (source : WheelSource) (t : MotorTickState F) (s : WheelTickProjector F)
        → s.left.valid ≡ true
        → s.right.valid ≡ true
        → s.left.segment ≡ t.left_segment
        → s.right.segment ≡ t.right_segment
        → t.left_sample_ns ≤ℤ s.left.sample_ns
        → t.right_sample_ns ≤ℤ s.right.sample_ns
        → s.epoch ≡ t.epoch
        → s.source ≡ source
        → t.left_valid ≡ true
        → t.right_valid ≡ true
        → (project D whole source t s).1 ≡ none
    unfolding project rebase project_wheel
    project_twice carrier t s a b c d e f g h i j = ground arith
