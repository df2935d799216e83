-- ===== src/Esc.antt =====
-- EscTelemetryTracker of
-- ros2/src/mowgli_mavros_bridge/include/mowgli_mavros_bridge/esc_telemetry_tracker.hpp, and the blade
-- projection of vesc_telemetry_projection.hpp beside it. The 64 slots are a function of the index;
-- the type float and its operations are a parameter.
pub mod Validity
pub mod Projection
mod Examples
use mowglimavros.Prelude.{
  ℕ, ◌+◌, ◌*◌, ◌/◌, Bool, true, false, not, ◌&&◌, ◌||◌, ltb, leb, ◌==◌, if◌then◌else◌,
}
use mowglimavros.Prelude.Int.{ℤ, pos, negsuc, ◌-ℤ◌, leb_ℤ, ltb_ℤ, eqb_ℤ, pos_part, neg_part}
use mowglimavros.Prelude.Double.{Double}

-- builtin_interfaces/Time.
pub record Time : Type 0 where
  pub sec : ℤ
  pub nanosec : ℕ

-- The message EscObservation.
pub record EscObservation (F : Type 0) : Type 0 where
  pub stamp : Time
  pub metadata_stamp : Time
  pub source : ℕ
  pub esc_index : ℕ
  pub valid : Bool
  pub rpm : ℤ
  pub rpm_valid : Bool
  pub voltage : F
  pub voltage_valid : Bool
  pub current : F
  pub current_valid : Bool
  pub temperature : F
  pub temperature_valid : Bool
  pub failure_flags : ℕ
  pub failure_flags_valid : Bool
  pub error_count : ℕ
  pub error_count_valid : Bool
  pub totalcurrent : F
  pub totalcurrent_valid : Bool
  pub count : ℕ
  pub count_valid : Bool

pub record EscSample (F : Type 0) : Type 0 where
  pub rpm : ℤ
  pub voltage : F
  pub current : F
  pub totalcurrent : F
  pub temperature : F
  pub count : ℕ
  pub failure_flags : ℕ
  pub error_count : ℕ
  pub source : ℕ
  pub rpm_valid : Bool
  pub voltage_valid : Bool
  pub current_valid : Bool
  pub temperature_valid : Bool
  pub totalcurrent_valid : Bool
  pub count_valid : Bool
  pub failure_flags_valid : Bool
  pub error_count_valid : Bool

pub record EscState (F : Type 0) : Type 0 where
  pub sample : EscSample F
  pub observed : Bool
  pub valid : Bool
  pub online : Bool
  pub stale : Bool
  pub age_ms : ℤ
  pub last_update_ns : ℤ
  pub metadata_ns : ℤ

pub record EscTelemetryTracker (F : Type 0) : Type 0 where
  pub timeout_ns : ℤ
  pub states : ℕ → EscState F

abbrev pub source_common : ℕ
source_common = 1

abbrev pub source_ardupilot_legacy : ℕ
source_ardupilot_legacy = 2

-- 0 for a stamp that is not one.
pub ns : Time → ℤ
ns t =
    if leb_ℤ (pos 0) t.sec && ltb t.nanosec 1000000000
    then pos (pos_part t.sec * 1000000000 + t.nanosec)
    else pos 0

-- Division by 1000000 on int64_t, towards 0.
abbrev pub millis : ℤ → ℤ
millis d = pos (pos_part d / 1000000) -ℤ pos (neg_part d / 1000000)

pub fresh : ℤ → ℤ → ℤ → Bool
fresh timeout stamp now = ltb_ℤ (pos 0) stamp && leb_ℤ stamp now && leb_ℤ (now -ℤ stamp) timeout

module _ (D : Double) where
  open D use {F, nan, of_int, is_finite, magnitude}

  -- `EscState{}`.
  pub empty : EscState F
  empty = record {
    sample = record {
      rpm = pos 0;
      voltage = of_int (pos 0);
      current = of_int (pos 0);
      totalcurrent = of_int (pos 0);
      temperature = of_int (pos 0);
      count = 0;
      failure_flags = 0;
      error_count = 0;
      source = 0;
      rpm_valid = false;
      voltage_valid = false;
      current_valid = false;
      temperature_valid = false;
      totalcurrent_valid = false;
      count_valid = false;
      failure_flags_valid = false;
      error_count_valid = false;
    };
    observed = false;
    valid = false;
    online = false;
    stale = false;
    age_ms = negsuc 0;
    last_update_ns = pos 0;
    metadata_ns = pos 0;
  }

  pub create : ℤ → EscTelemetryTracker F
  create timeout_ns = record { timeout_ns = timeout_ns; states = λ i. empty }

  pub reset : EscTelemetryTracker F → EscTelemetryTracker F
  reset s = record s { states = λ i. empty }

  -- The two early returns of `observe`.
  pub ignored : EscObservation F → ℤ → EscTelemetryTracker F → Bool
  ignored o now s =
      let stamp = ns o.stamp in
      let state = s.states o.esc_index in
      leb 64 o.esc_index
      || leb_ℤ now (pos 0)
      || leb_ℤ s.timeout_ns (pos 0)
      || (not (o.source == source_common) && not (o.source == source_ardupilot_legacy))
      || ltb_ℤ now stamp
      || (state.sample.source == o.source
          && ltb_ℤ (pos 0) stamp
          && ltb_ℤ stamp state.last_update_ns)

  -- The slot after an observation that is not ignored; `online`, `stale` and `age_ms` stay.
  pub absorb : EscObservation F → EscState F → EscState F
  absorb o state = record state {
    sample = record {
      rpm = o.rpm;
      voltage = o.voltage;
      current = o.current;
      totalcurrent = o.totalcurrent;
      temperature = o.temperature;
      count = o.count;
      failure_flags = o.failure_flags;
      error_count = o.error_count;
      source = o.source;
      rpm_valid = o.rpm_valid;
      voltage_valid = o.voltage_valid && is_finite o.voltage;
      current_valid = o.current_valid && is_finite o.current;
      temperature_valid = o.temperature_valid && is_finite o.temperature;
      totalcurrent_valid = o.totalcurrent_valid && is_finite o.totalcurrent;
      count_valid = o.count_valid;
      failure_flags_valid = o.failure_flags_valid;
      error_count_valid = o.error_count_valid;
    };
    observed =
        state.observed || o.valid || o.temperature_valid || o.failure_flags_valid
        || o.error_count_valid;
    valid = o.valid && ltb_ℤ (pos 0) (ns o.stamp);
    last_update_ns = ns o.stamp;
    metadata_ns = ns o.metadata_stamp;
  }

  pub observe : EscObservation F → ℤ → EscTelemetryTracker F → EscTelemetryTracker F
  observe o now s = if ignored o now s then s else record s {
    states = λ i. if i == o.esc_index then absorb o (s.states o.esc_index) else s.states i;
  }

  -- The validity of a slot at a time.
  pub judge : ℤ → ℤ → EscState F → EscState F
  judge timeout now state =
      let online = state.valid && fresh timeout state.last_update_ns now in
      let metadata_fresh = fresh timeout state.metadata_ns now in
      record state {
        age_ms =
            if ltb_ℤ (pos 0) state.last_update_ns && leb_ℤ state.last_update_ns now
            then millis (now -ℤ state.last_update_ns)
            else negsuc 0;
        online = online;
        stale = state.observed && not online;
        sample = record (state.sample) {
          rpm_valid = state.sample.rpm_valid && online;
          voltage_valid = state.sample.voltage_valid && online;
          current_valid = state.sample.current_valid && online;
          totalcurrent_valid = state.sample.totalcurrent_valid && online;
          count_valid = state.sample.count_valid && online;
          temperature_valid = state.sample.temperature_valid && metadata_fresh;
          failure_flags_valid = state.sample.failure_flags_valid && metadata_fresh;
          error_count_valid = state.sample.error_count_valid && metadata_fresh;
        };
      }

  pub project : ℕ → ℤ → EscTelemetryTracker F → EscState F
  project index now s = if leb 64 index then empty else judge s.timeout_ns now (s.states index)
