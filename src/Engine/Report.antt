-- ===== src/Engine/Report.antt =====
-- What ObservationEngine reports: `motor_ticks`, `touched` and `esc` (observation_engine.cpp).
use mowglimavros.Prelude.{
  ℕ, ◌/◌, Bool, true, false, not, ◌&&◌, ◌||◌, ltb, leb, is_some, if◌then◌else◌,
}
use mowglimavros.Prelude.Int.{ℤ, pos, pos_part, eqb_ℤ}
use mowglimavros.Prelude.Double.{Double}
use mowglimavros.Wheel.Data.{
  WheelSource, MotorTickState, esc_status, ardupilot_legacy, wheel_distance, no_source,
}
use mowglimavros.Wheel.Integrator as Integrator
use mowglimavros.Engine.Config.{
  fresh, common_mapping, left_status, right_status, out_of_count, apart,
}
use mowglimavros.Engine.Data.{ObservationEngine, EscObservationData, Info, common, no_data}

module _ (D : Double) where
  open D use {F, of_int, times, over}

  -- `MotorTickState{}`.
  unfoldable pub no_ticks : MotorTickState F
  no_ticks = record {
    left_ticks = of_int (pos 0);
    right_ticks = of_int (pos 0);
    left_sample_ns = pos 0;
    right_sample_ns = pos 0;
    left_receipt_ns = pos 0;
    right_receipt_ns = pos 0;
    left_valid = false;
    right_valid = false;
    epoch = 0;
    left_segment = 0;
    right_segment = 0;
  }

  -- The ticks of a source, before the age is looked at.
  unfoldable pub ticks_of : WheelSource → ObservationEngine F → MotorTickState F
  unfolding no_ticks common_mapping
  ticks_of esc_status s =
      let out = Integrator.state D s.common_motor_ticks in
      let g = s.config.geometry in
      record out {
        left_valid =
            common_mapping D s
            && out.left_valid
            && (left_status D s).report.valid
            && not (out_of_count s.common_count (pos_part g.left_esc_slot));
        right_valid =
            common_mapping D s
            && out.right_valid
            && (right_status D s).report.valid
            && not (out_of_count s.common_count (pos_part g.right_esc_slot));
      }
  ticks_of ardupilot_legacy s = Integrator.state D s.legacy_motor_ticks
  ticks_of wheel_distance s = no_ticks
  ticks_of no_source s = no_ticks

  unfoldable pub motor_ticks : WheelSource → ℤ → ObservationEngine F → MotorTickState F
  unfolding ticks_of fresh
  motor_ticks source now s =
      let out = ticks_of source s in
      record out {
        left_valid = out.left_valid && s.connected && fresh D out.left_receipt_ns now s;
        right_valid = out.right_valid && s.connected && fresh D out.right_receipt_ns now s;
      }

  unfoldable pub touched : ℕ → ObservationEngine F → Bool
  touched index s =
      ltb index 64
      && ((s.status index).seen
          || (s.info index).seen
          || (ltb index 12 && is_some (s.legacy_esc index).count))

  -- The information of a slot that is complete and fresh.
  unfoldable pub informed : ℤ → Info → ObservationEngine F → Bool
  unfolding fresh
  informed now i s = i.seen && i.valid && fresh D i.stamp_ns now s

  unfoldable pub inform : Info → EscObservationData F → EscObservationData F
  inform i out =
      let known = not (eqb_ℤ i.temperature (pos 32767)) in
      record out {
        metadata_stamp_ns = i.stamp_ns;
        temperature_valid = known;
        temperature =
            if known
            then times (of_int i.temperature) (over (of_int (pos 1)) (of_int (pos 100)))
            else out.temperature;
        failure_flags = i.failure_flags;
        error_count = i.error_count;
        failure_flags_valid = true;
        error_count_valid = true;
      }

  -- The report of a slot with a COMMON sample that is valid and fresh.
  unfoldable pub common_report : ℕ → ℤ → ObservationEngine F → EscObservationData F
  unfolding informed inform
  common_report index now s =
      let c = s.status index in
      let i = s.info index in
      if informed now i s && leb (apart c.time_us i.time_us) (pos_part s.config.timeout_ns / 1000)
      then inform i c.report
      else c.report

  -- `if (!out.valid) {…}`.
  unfoldable pub silence : EscObservationData F → EscObservationData F
  silence out = if out.valid then out else record out {
    rpm_valid = false;
    voltage_valid = false;
    current_valid = false;
    temperature_valid = false;
    failure_flags_valid = false;
    error_count_valid = false;
    totalcurrent_valid = false;
    count_valid = false;
  }

  -- What is left of a slot whose COMMON sample is not valid and fresh.
  unfoldable pub cached_report : ℕ → ℤ → ObservationEngine F → EscObservationData F
  unfolding fresh no_data
  cached_report index now s =
      let l = s.legacy_esc index in
      let c = s.status index in
      if ltb index 12 && is_some l.count
      then record (l.report) { valid = l.report.valid && fresh D l.report.stamp_ns now s }
      else if c.seen
      then record (c.report) { valid = false }
      else record (no_data D) { index = index }

  unfoldable pub esc : ℕ → ℤ → ObservationEngine F → EscObservationData F
  unfolding common_report cached_report informed inform silence fresh no_data
  esc index now s =
      let c = s.status index in
      let in_count = not (out_of_count s.common_count index) in
      let out = cached_report index now s in
      if not s.connected || leb 64 index
      then record (no_data D) { index = index }
      else if c.seen && c.report.valid && in_count && fresh D c.report.stamp_ns now s
      then common_report index now s
      else if not c.seen
          && in_count
          && informed now (s.info index) s
          && not (ltb index 12 && is_some (s.legacy_esc index).count)
      then inform (s.info index) (record out { source = common })
      else silence out
