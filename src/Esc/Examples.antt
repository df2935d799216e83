-- ===== src/Esc/Examples.antt =====
-- EscTelemetryTracker (esc_telemetry_tracker.hpp) at concrete inputs, over integers for float.
use mowglimavros.Esc.Validity.{Sound, project_online, run, observes, project-Sound}
use mowglimavros.Prelude.{ℕ, true, false, ◌≡◌, refl, inl, Option, none, some, [], ◌∷◌}
use mowglimavros.Prelude.Int.{ℤ, pos, ◌-ℤ◌}
use mowglimavros.Prelude.Double.{fixed_point}
use mowglimavros.Esc.{
  EscObservation, EscTelemetryTracker, ns, fresh, create, observe, ignored, absorb, judge, project,
  empty,
}

abbrev stamped : ℕ → EscObservation (Option ℤ)
stamped t = record {
  stamp = record { sec = pos t; nanosec = 0 };
  metadata_stamp = record { sec = pos t; nanosec = 0 };
  source = 1;
  esc_index = 2;
  valid = true;
  rpm = pos 0;
  rpm_valid = true;
  voltage = some (pos 24);
  voltage_valid = true;
  current = none;
  current_valid = true;
  temperature = some (pos 30);
  temperature_valid = true;
  failure_flags = 0;
  failure_flags_valid = true;
  error_count = 0;
  error_count_valid = true;
  totalcurrent = none;
  totalcurrent_valid = false;
  count = 0;
  count_valid = false;
}

observed : EscTelemetryTracker (Option ℤ)
unfolding create observe ignored absorb judge project empty ns fresh ◌-ℤ◌
observed = observe fixed_point (stamped 5) (pos 5000000001) (create fixed_point (pos 3000000000))

project-Sound_example : Sound fixed_point (
    project fixed_point 2 (pos 5000000009) (
      run fixed_point
        (observes (stamped 5) (pos 5000000001) ∷ [])
        (create fixed_point (pos 3000000000))))
project-Sound_example =
    project-Sound fixed_point (observes (stamped 5) (pos 5000000001) ∷ []) (pos 3000000000)
      (pos 5000000009) 2

project_online_example : (project fixed_point 2 (pos 5000000009) observed).online ≡ true
unfolding observed
project_online_example = (project_online fixed_point 2 (pos 5000000009) observed).0 (inl refl)
