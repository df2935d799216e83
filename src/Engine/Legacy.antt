-- ===== src/Engine/Legacy.antt =====
-- `legacy_esc` and `legacy_rpm` of ObservationEngine (observation_engine.cpp).
use mowglimavros.Prelude.{
  ℕ, ◌+◌, Bool, true, false, not, ◌&&◌, ◌||◌, Option, none, some, ◌==◌, if◌then◌else◌,
}
use mowglimavros.Prelude.Int.{ℤ, pos, leb_ℤ, ltb_ℤ}
use mowglimavros.Prelude.Double.{Double}
use mowglimavros.Wheel.Data.{
  WheelObservation, WheelMotionObservation, MotorRpmObservation, ardupilot_legacy,
}
use mowglimavros.Wheel.Legacy as LegacyWheel
use mowglimavros.Wheel.Legacy.{counter_advanced}
use mowglimavros.Wheel.Integrator as Integrator
use mowglimavros.Wheel.Ticks.{same_source}
use mowglimavros.Engine.Config.{write, four_rounds}
use mowglimavros.Engine.Data.{ObservationEngine, LegacyEscPacket, ardu_pilot_legacy}
use mowglimavros.Engine.State.{receive_clock}
use mowglimavros.Engine.Select.{select}
use mowglimavros.Engine.Common.{receive_if}

-- The first counter that is not 0, or one that differs from the last.
unfoldable pub proves_life : Option ℕ → ℕ → Bool
unfolding counter_advanced
proves_life none count = not (count == 0)
proves_life (some previous) count = counter_advanced previous count

module _ (D : Double) where
  open D use {F, of_int, is_finite}

  abbrev or_zero : F → F
  or_zero a = if is_finite a then a else of_int (pos 0)

  -- One round of the loop of `legacy_esc`.
  unfoldable pub legacy_slot : LegacyEscPacket F → ℤ → ℕ → ObservationEngine F → ObservationEngine F
  unfolding proves_life
  legacy_slot p receipt i s =
      let slot = p.index + i in
      let old = s.legacy_esc slot in
      let d = old.report in
      let alive = proves_life old.count (p.counts i) in
      let stamp = if alive then receipt else d.stamp_ns in
      if ltb_ℤ receipt d.stamp_ns then s else record s {
        legacy_esc =
            write slot
              (record {
                count = some (p.counts i);
                report = record d {
                  stamp_ns = stamp;
                  valid = if alive then true else d.valid;
                  index = slot;
                  source = ardu_pilot_legacy;
                  rpm = pos (p.rpm i);
                  rpm_valid = true;
                  rpm_direction_valid = false;
                  voltage_valid = is_finite (p.voltage i);
                  current_valid = is_finite (p.current i);
                  temperature_valid = is_finite (p.temperature i);
                  voltage = or_zero (p.voltage i);
                  current = or_zero (p.current i);
                  temperature = or_zero (p.temperature i);
                  metadata_stamp_ns = stamp;
                  totalcurrent_valid = is_finite (p.totalcurrent i);
                  totalcurrent = or_zero (p.totalcurrent i);
                  count = p.counts i;
                  count_valid = true;
                };
              })
              s.legacy_esc;
      }

  unfoldable pub legacy_esc : LegacyEscPacket F → ℤ → ObservationEngine F → ObservationEngine F
  unfolding receive_clock
  legacy_esc p receipt s =
      let t = receive_clock D receipt s in
      let u = record t {
        legacy = LegacyWheel.receive_esc_counts D (pos p.index) p.counts receipt t.legacy;
      } in
      if not s.connected
        || leb_ℤ receipt (pos 0)
        || (not (p.index == 0) && not (p.index == 4) && not (p.index == 8))
      then s
      else four_rounds (legacy_slot p receipt) u

  -- The motion of a speed report that was passed on, and the integrator after it.
  unfoldable pub integrate_legacy :
      Option (MotorRpmObservation F)
      → ObservationEngine F
      → ObservationEngine F × Option (WheelMotionObservation F)
  integrate_legacy none s = (s, none)
  integrate_legacy (some raw) s =
      let (a, left_ok) =
        Integrator.observe D 0 raw.left_rpm raw.sample_stamp_ns raw.receipt_stamp_ns
          s.legacy_motor_ticks in
      let (b, right_ok) =
        Integrator.observe D 1 raw.right_rpm raw.sample_stamp_ns raw.receipt_stamp_ns a in
      if not s.config.legacy_enabled then (s, none) else (
        record s { legacy_motor_ticks = b },
        if left_ok && right_ok
            then Integrator.motion D s.config.geometry.ticks_per_meter ardupilot_legacy b
            else none,
      )

  abbrev keep_motion : Option (WheelMotionObservation F) → ObservationEngine F → ObservationEngine F
  keep_motion none s = s
  keep_motion (some m) s = record s { legacy_motion = some m }

  -- The tail of `legacy_rpm` on a motion or none.
  unfoldable pub publish_legacy :
      ℤ
      → Option (WheelMotionObservation F)
      → ObservationEngine F
      → ObservationEngine F × Option (WheelObservation F)
  publish_legacy receipt motion s =
      let t = select D receipt (keep_motion motion s) in
      if same_source t.active ardupilot_legacy then receive_if D motion t else (t, none)

  unfoldable pub lose_legacy : ObservationEngine F → ObservationEngine F
  lose_legacy s = record s {
    legacy_motion = none;
    legacy_motor_ticks = Integrator.reset_references D s.legacy_motor_ticks;
  }

  unfoldable pub legacy_rpm :
      F → F → ℤ → ObservationEngine F → ObservationEngine F × Option (WheelObservation F)
  unfolding receive_clock integrate_legacy publish_legacy lose_legacy
  legacy_rpm left right receipt s =
      let t = receive_clock D receipt s in
      let (adapter, raw) = LegacyWheel.receive_rpm D left right receipt t.legacy in
      let (u, motion) = integrate_legacy raw (record t { legacy = adapter }) in
      if not s.connected || leb_ℤ receipt (pos 0)
      then (s, none)
      else if not (is_finite left) || not (is_finite right)
      then (select D receipt (lose_legacy t), none)
      else publish_legacy receipt motion u
