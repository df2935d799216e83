-- ===== src/Engine/Examples.antt =====
-- ObservationEngine (observation_engine.cpp) at concrete inputs, over integers for double.
use mowglimavros.Prelude.{ℕ, true, false, ◌≡◌, refl, Option, none, some, List, [], ◌∷◌}
use mowglimavros.Prelude.Int.{ℤ, pos, negsuc}
use mowglimavros.Prelude.Double.{fixed_point}
use mowglimavros.Wheel.Data.{wheel_distance as distance_source}
use mowglimavros.Prelude.Int.{◌-ℤ◌}
use mowglimavros.Wheel.Core as Core
use mowglimavros.Engine.State.{connection, receive_clock, accept_common_status}
use mowglimavros.Engine.Common.{common_status}
use mowglimavros.Engine.Config.{sample_time_valid, distance_mapping, wheel_configured}
use mowglimavros.Engine.Select.{select}
use mowglimavros.Engine.Distance.{speed}
use mowglimavros.Engine.Data.{
  ObservationConfig, ObservationEngine, CommonStatusPacket, CommonInfoPacket, DistancePacket,
}
use mowglimavros.Engine.Config.{initial, fresh}
use mowglimavros.Engine.Distance.{wheel_distance}
use mowglimavros.Engine.Report.{esc}
use mowglimavros.Engine.Calls.{
  Call, connects, statuses, informs, moves, step, run, outputs, reconfigures,
}
use mowglimavros.Engine.Invariant.{Sourced}
use mowglimavros.Engine.Runs.{run-initial-Sourced}
use mowglimavros.Engine.Leases.{Leased, run-Leased}
use mowglimavros.Engine.Reports.{Honest, esc-Honest}
use mowglimavros.Engine.Measured.{Observed}
use mowglimavros.Engine.Speeds.{wheel_distance-Observed}

abbrev config : ObservationConfig (Option ℤ)
config = record {
  geometry = record {
    left_esc_slot = pos 0;
    right_esc_slot = pos 1;
    track_width_m = some (pos 1);
    ticks_per_meter = some (pos 10);
  };
  source = "auto";
  left_wheel_index = pos 0;
  right_wheel_index = pos 1;
  timeout_ns = pos 3000000;
  legacy_enabled = false;
  wheel_distance_component_id = negsuc 0;
  esc_component_id = negsuc 0;
  common_pair_max_skew_s = some (pos 1000);
  max_distance_speed_mps = some (pos 100);
}

-- A report of encoders, both of which are at the distance `d`.
abbrev distance : ℕ → ℤ → DistancePacket (Option ℤ)
distance t d = record { time_us = t; count = 2; distance = λ i. some d; component_id = 1 }

abbrev rotation : ℕ → ℕ → CommonStatusPacket (Option ℤ)
rotation id t = record {
  index = 0;
  time_us = t;
  rpm = λ i. pos 60;
  voltage = λ i. some (pos 24);
  current = λ i. none;
  component_id = id;
}

abbrev metadata : ℕ → CommonInfoPacket
metadata id = record {
  index = 0;
  count = 4;
  time_us = 7;
  temperature = λ i. pos 30;
  failure_flags = λ i. 0;
  error_count = λ i. 0;
  component_id = id;
}

abbrev drive : List (ℤ × Call (Option ℤ))
drive =
    (pos 100, connects true)
    ∷ (pos 110, moves (distance 50 (pos 5)))
    ∷ (pos 120, moves (distance 60 (pos 7)))
    ∷ []

abbrev driven : ObservationEngine (Option ℤ)
driven = run fixed_point drive (initial fixed_point config)

-- Encoders that report are the active source, and their second report is published.
drive_active : driven.active ≡ distance_source
unfolding initial run step wheel_distance connection sample_time_valid distance_mapping select
    wheel_configured Core.valid Core.reset Core.create ◌-ℤ◌ speed
drive_active = refl

drive_published :
    outputs fixed_point drive (initial fixed_point config)
    ≡ record {
      sample_stamp_ns = pos 60000;
      receipt_stamp_ns = pos 120;
      linear_x_mps = some (pos 4);
      angular_z_rps = some (pos 0);
    }
      ∷ []
unfolding outputs initial run step wheel_distance connection sample_time_valid distance_mapping
    select wheel_configured Core.valid Core.reset Core.create Core.receive_motion ◌-ℤ◌ speed
drive_published = refl

-- Encoders report, the engine is configured anew, and encoders report again.
abbrev resumed : List (ℤ × Call (Option ℤ))
resumed =
    (pos 100, connects true)
    ∷ (pos 110, moves (distance 50 (pos 5)))
    ∷ (pos 120, reconfigures config true)
    ∷ (pos 130, moves (distance 60 (pos 7)))
    ∷ []

run-initial-Sourced_example :
    Sourced fixed_point (run fixed_point resumed (initial fixed_point config))
run-initial-Sourced_example = run-initial-Sourced fixed_point config resumed

wheel_distance-Observed_example :
    Observed fixed_point driven
      (distance 70 (pos 9))
      (pos 130)
      (wheel_distance fixed_point (distance 70 (pos 9)) (pos 130) driven)
wheel_distance-Observed_example =
    wheel_distance-Observed fixed_point (distance 70 (pos 9)) (pos 130) driven

-- Component 1 holds the lease from time 100 on.
abbrev leased : ObservationEngine (Option ℤ)
leased = record (initial fixed_point config) {
  connected = true;
  common_component = some 1;
  common_status_owner = true;
  common_owner_stamp_ns = pos 100;
  last_receipt_ns = pos 100;
}

abbrev intruders : List (ℤ × Call (Option ℤ))
intruders = (pos 110, statuses (rotation 2 9)) ∷ (pos 120, informs (metadata 3)) ∷ []

intruders-Leased : Leased fixed_point 1 intruders leased
unfolding initial step fresh common_status receive_clock accept_common_status sample_time_valid ◌-ℤ◌
intruders-Leased = (refl, refl, refl, (refl, refl, refl, tt))

run-Leased_example :
    ((last : ℤ) × (run fixed_point intruders leased ≡ record leased { last_receipt_ns = last }))
    × (outputs fixed_point intruders leased ≡ [])
run-Leased_example = run-Leased fixed_point 1 intruders leased refl refl intruders-Leased

esc-Honest_example : Honest fixed_point 1 (pos 130) leased (esc fixed_point 1 (pos 130) leased)
esc-Honest_example = esc-Honest fixed_point 1 (pos 130) leased
