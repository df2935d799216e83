-- ===== src/Power/Examples.antt =====
-- PowerState (power_state.hpp) at concrete inputs, with millivolts for double.
use mowglimavros.Power.Charger.{project_stale}
use mowglimavros.Prelude.{true, ◌≡◌, refl, Option, none, some}
use mowglimavros.Prelude.Int.{ℤ, pos, ◌-ℤ◌}
use mowglimavros.Prelude.Double.{fixed_point}
use mowglimavros.Power.{
  BatterySample, PowerState, create, observe_dock, fresh, presence, hysteresis, project,
}

abbrev dock_sample : ℤ → ℤ → BatterySample (Option ℤ)
dock_sample v at = record { voltage = some (some v); current = none; receipt_ns = at }

-- A charger was present at 28 V.
charging : PowerState (Option ℤ)
unfolding create observe_dock project presence hysteresis fresh ◌-ℤ◌
charging =
    (project fixed_point (pos 2) (
      observe_dock fixed_point (dock_sample (pos 28000) (pos 1))
        (create fixed_point (pos 5000) (some (pos 20000)) (some (pos 15000))))).0

project_stale_example : fixed_point.lt charging.charger_on_voltage (some (pos 28000)) ≡ true
unfolding charging
project_stale_example =
    project_stale fixed_point (pos 9000) (pos 9002) (dock_sample (pos 28000) (pos 9001)) charging
      refl refl
