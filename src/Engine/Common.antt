-- ===== src/Engine/Common.antt =====
-- `common_status` and `common_info` of ObservationEngine (observation_engine.cpp).
use mowglimavros.Prelude.{
  ℕ, ◌+◌, ◌*◌, ◌%◌, Bool, true, false, not, ◌&&◌, ◌||◌, Option, none, some, ltb, leb, ◌==◌, same,
  if◌then◌else◌,
}
use mowglimavros.Prelude.Int.{ℤ, pos, leb_ℤ, eqb_ℤ}
use mowglimavros.Prelude.Double.{Double}
use mowglimavros.Wheel.Data.{WheelObservation, WheelMotionObservation, esc_status}
use mowglimavros.Wheel.Core as Core
use mowglimavros.Wheel.Integrator as Integrator
use mowglimavros.Wheel.Ticks.{same_source}
use mowglimavros.Engine.Config.{
  sample_time_valid, common_mapping, left_status, right_status, write, out_of_count, any_range,
  four_rounds,
}
use mowglimavros.Engine.Data.{
  ObservationEngine, Status, EscObservationData, common, CommonStatusPacket,
}
use mowglimavros.Engine.State.{receive_clock, accept_common_status, reset_common}
use mowglimavros.Engine.Select.{select_for, common_available}

module _ (D : Double) where
  open D use {F, of_int, is_finite, lt}

  -- `a != b` on numbers that are not NaN.
  abbrev pub differs : F → F → Bool
  differs a b = lt a b || lt b a

  abbrev or_zero : F → F
  or_zero a = if is_finite a then a else of_int (pos 0)

  -- Another measurement under the time of the last one.
  unfoldable pub conflicts : ℕ → CommonStatusPacket F → EscObservationData F → Bool
  conflicts i p d =
      not (eqb_ℤ d.rpm (p.rpm i))
      || not (same d.voltage_valid (is_finite (p.voltage i)))
      || not (same d.current_valid (is_finite (p.current i)))
      || (is_finite (p.voltage i) && differs d.voltage (p.voltage i))
      || (is_finite (p.current i) && differs d.current (p.current i))

  abbrev at_left : ℕ → ObservationEngine F → Bool
  at_left slot s = eqb_ℤ (pos slot) s.config.geometry.left_esc_slot

  abbrev at_right : ℕ → ObservationEngine F → Bool
  at_right slot s = eqb_ℤ (pos slot) s.config.geometry.right_esc_slot

  unfoldable pub invalidate_slot : ℕ → ObservationEngine F → ObservationEngine F
  invalidate_slot slot s =
      let old = s.status slot in
      let a = s.common_motor_ticks in
      let b = if at_left slot s then Integrator.invalidate D 0 a else a in
      let c = if at_right slot s then Integrator.invalidate D 1 b else b in
      record s {
        status =
            write slot (record old { report = record (old.report) { valid = false } }) s.status;
        common_motor_ticks = c;
      }

  -- The new content of a slot, from a sample that is not a repeat.
  unfoldable pub measured : ℕ → ℕ → ℤ → CommonStatusPacket F → Status F → Status F
  measured i slot receipt p old = record {
    seen = true;
    time_us = p.time_us;
    report = record (old.report) {
      index = slot;
      source = common;
      stamp_ns = receipt;
      valid = true;
      rpm = p.rpm i;
      rpm_valid = true;
      rpm_direction_valid = true;
      voltage_valid = is_finite (p.voltage i);
      current_valid = is_finite (p.current i);
      voltage = or_zero (p.voltage i);
      current = or_zero (p.current i);
    };
  }

  unfoldable pub measure_slot :
      ℕ → ℕ → ℤ → CommonStatusPacket F → ObservationEngine F → ObservationEngine F
  unfolding measured
  measure_slot i slot receipt p s =
      let rpm = of_int (p.rpm i) in
      let sample = pos (p.time_us * 1000) in
      let a = s.common_motor_ticks in
      let b = if at_left slot s then (Integrator.observe D 0 rpm sample receipt a).0 else a in
      let c = if at_right slot s then (Integrator.observe D 1 rpm sample receipt b).0 else b in
      record s {
        status = write slot (measured i slot receipt p (s.status slot)) s.status;
        common_owner_stamp_ns = receipt;
        common_motor_ticks = c;
      }

  -- One round of the second loop of `common_status`.
  unfoldable pub status_slot :
      CommonStatusPacket F → ℤ → ℕ → ObservationEngine F → ObservationEngine F
  unfolding measure_slot invalidate_slot conflicts
  status_slot p receipt i s =
      let slot = p.index + i in
      let old = s.status slot in
      if out_of_count s.common_count slot
      then s
      else if old.seen && p.time_us == old.time_us
      then if conflicts i p old.report then invalidate_slot slot s else s
      else measure_slot i slot receipt p s

  -- Some slot of the packet has a later sample: the producer started again.
  unfoldable pub status_epoch_changed : CommonStatusPacket F → ObservationEngine F → Bool
  unfolding any_range
  status_epoch_changed p s =
      any_range 4 p.index (λ slot. (s.status slot).seen && ltb p.time_us (s.status slot).time_us)

  unfoldable pub restart : CommonStatusPacket F → ObservationEngine F → ObservationEngine F
  unfolding reset_common status_epoch_changed
  restart p s =
      if status_epoch_changed p s
      then record (reset_common D s) {
        common_component = some p.component_id;
        common_status_owner = true;
        common_epoch_baseline_needed = true;
      }
      else s

  -- `motion ? core_.receive_motion(*motion) : nullopt`.
  abbrev pub receive_if :
      Option (WheelMotionObservation F)
      → ObservationEngine F
      → ObservationEngine F × Option (WheelObservation F)
  receive_if none s = (s, none)
  receive_if (some m) s =
      let (core, o) = Core.receive_motion D m s.core in (record s { core = core }, o)

  -- The floors after a published observation.
  unfoldable pub note_published :
      ObservationEngine F × Option (WheelObservation F)
      → ObservationEngine F × Option (WheelObservation F)
  note_published (s, none) = (s, none)
  note_published (s, some o) = (
    record s {
      published_left = (left_status D s).time_us;
      published_right = (right_status D s).time_us;
    },
    some o,
  )

  -- `common_status` once the source is selected: what is published.
  unfoldable pub publish_common :
      ℤ → ObservationEngine F → ObservationEngine F × Option (WheelObservation F)
  unfolding common_available
  publish_common receipt s =
      let l = left_status D s in
      let r = right_status D s in
      if not (same_source s.active esc_status)
        || not (common_available D receipt s)
        || leb_ℤ l.report.stamp_ns s.common_configuration_ns
        || leb_ℤ r.report.stamp_ns s.common_configuration_ns
      then (s, none)
      else if s.common_epoch_baseline_needed
      then (
        record s {
          common_epoch_baseline_needed = false;
          published_left = l.time_us;
          published_right = r.time_us;
        },
        none,
      )
      else if leb l.time_us s.published_left || leb r.time_us s.published_right
      then (s, none)
      else note_published (
          receive_if
            (Integrator.motion D s.config.geometry.ticks_per_meter esc_status s.common_motor_ticks)
            s)

  -- The loops of `common_status`, and its tail.
  unfoldable pub common_status_accepted :
      CommonStatusPacket F
      → ℤ
      → ObservationEngine F
      → ObservationEngine F × Option (WheelObservation F)
  unfolding restart publish_common
  common_status_accepted p receipt s =
      let previous_left = if common_mapping D s then (left_status D s).time_us else 0 in
      let previous_right = if common_mapping D s then (right_status D s).time_us else 0 in
      let t = four_rounds (status_slot p receipt) (restart p s) in
      publish_common receipt (select_for D receipt true previous_left previous_right t)

  abbrev pub accepted_status :
      CommonStatusPacket F
      → ℤ
      → ObservationEngine F
      → Option (ObservationEngine F)
      → ObservationEngine F × Option (WheelObservation F)
  accepted_status p receipt s none = (s, none)
  accepted_status p receipt s (some t) = common_status_accepted p receipt t

  -- The early return of `common_status`.
  abbrev pub status_ignored : CommonStatusPacket F → ℤ → ObservationEngine F → Bool
  status_ignored p receipt s =
      not s.connected
      || leb_ℤ receipt (pos 0)
      || not (sample_time_valid p.time_us)
      || ltb 60 p.index
      || not (p.index % 4 == 0)

  unfoldable pub common_status :
      CommonStatusPacket F
      → ℤ
      → ObservationEngine F
      → ObservationEngine F × Option (WheelObservation F)
  unfolding common_status_accepted receive_clock accept_common_status
  common_status p receipt s =
      let t = receive_clock D receipt s in
      if status_ignored p receipt s
      then (s, none)
      else accepted_status p receipt t (accept_common_status D p.component_id receipt t)
