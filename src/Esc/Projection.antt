-- ===== src/Esc/Projection.antt =====
-- blade_telemetry_from_esc of
-- ros2/src/mowgli_mavros_bridge/include/mowgli_mavros_bridge/vesc_telemetry_projection.hpp.
use mowglimavros.Prelude.{ℕ, Bool, true, false, not, ◌||◌, ◌≡◌, ◌≢◌, arith, if◌then◌else◌}
use mowglimavros.Prelude.Int.{ℤ, pos, ◌-ℤ◌, ◌≤ℤ◌, leb_ℤ, eqb_ℤ}
use mowglimavros.Prelude.Double.{Double}
use mowglimavros.Esc.{EscState, EscTelemetryTracker, project, judge, empty, fresh}

pub record BladeTelemetryProjection (F : Type 0) : Type 0 where
  pub status : ℕ
  pub temperature : F
  pub current : F
  pub rpm : F
  pub stamp_ns : ℤ
  pub available : Bool

abbrev pub status_unavailable : ℕ
status_unavailable = 99

abbrev pub status_stopped : ℕ
status_stopped = 200

abbrev pub status_running : ℕ
status_running = 201

module _ (D : Double) where
  open D use {F, nan, of_int, magnitude}

  unfoldable pub blade_telemetry_from_esc : EscState F → BladeTelemetryProjection F
  blade_telemetry_from_esc e =
      if not e.online
        || not e.observed
        || leb_ℤ e.last_update_ns (pos 0)
        || not e.sample.rpm_valid
        || not e.sample.current_valid
      then record {
        status = status_unavailable;
        temperature = nan;
        current = of_int (pos 0);
        rpm = of_int (pos 0);
        stamp_ns = pos 0;
        available = false;
      }
      else record {
        status = if eqb_ℤ e.sample.rpm (pos 0) then status_stopped else status_running;
        temperature = if e.sample.temperature_valid then e.sample.temperature else nan;
        current = e.sample.current;
        rpm = magnitude (of_int e.sample.rpm);
        stamp_ns = e.last_update_ns;
        available = true;
      }

  -- The blade is reported as stopped only on fresh telemetry that measured rpm 0 within the time-out
  -- before now, and as running only on such telemetry that measured another rpm; otherwise it is
  -- unavailable, with status 99 and stamp 0.
  pub blade_status :
      (i : ℕ) (now : ℤ) (s : EscTelemetryTracker F)
      → let e = project D i now s in
        let b = blade_telemetry_from_esc e in
        (b.status ≡ status_stopped
          → (e.sample.rpm ≡ pos 0) × (b.stamp_ns ≤ℤ now) × (now -ℤ b.stamp_ns ≤ℤ s.timeout_ns))
        × (b.status ≡ status_running
            → (e.sample.rpm ≢ pos 0) × (b.stamp_ns ≤ℤ now) × (now -ℤ b.stamp_ns ≤ℤ s.timeout_ns))
        × (b.available ≡ false → (b.status ≡ status_unavailable) × (b.stamp_ns ≡ pos 0))
  unfolding blade_telemetry_from_esc project judge empty fresh
  blade_status i now s = (λ h. ground arith, λ h. ground arith, λ h. ground arith)
