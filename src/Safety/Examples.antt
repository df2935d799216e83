-- ===== src/Safety/Examples.antt =====
-- SafetyState (safety_state.hpp) at concrete inputs.
use mowglimavros.Prelude.{true, false, ◌≡◌, refl, inl, inr, List, [], ◌∷◌}
use mowglimavros.Prelude.Int.{pos}
use mowglimavros.Safety.{
  initial, observe_motor_outputs, observe_tilt, clear_released_latches, project,
}
use mowglimavros.Safety.Emergency.{
  Call, run, step, project_active, run_latched, tilt_stays_latched, release_clears, disconnects,
  motor_outputs, button_change, tilts, run-Inv, initial-Inv,
}

abbrev history : List Call
history =
    motor_outputs true false ∷ button_change 2 (pos 7) ∷ tilts true ∷ disconnects ∷ tilts false ∷ []

project_active_example : (project (pos 9) (run (tilts true ∷ []) initial)).active_emergency ≡ true
unfolding run step observe_tilt
project_active_example =
    (project_active (pos 9) (run (tilts true ∷ []) initial)).0.1 (inr (inr (inl refl)))

run_latched_example :
    (project (pos 9) (run (motor_outputs true false ∷ []) initial)).latched_emergency ≡ true
unfolding run step initial observe_motor_outputs
run_latched_example = (run_latched (motor_outputs true false ∷ []) (pos 9)).0 (inl refl)

tilt_stays_latched_example :
    (project
      (pos 9)
      (run (disconnects ∷ tilts false ∷ []) (observe_tilt true initial))).latched_emergency
    ≡ true
tilt_stays_latched_example =
    tilt_stays_latched (disconnects ∷ tilts false ∷ []) (pos 9) initial (λ e. cc, (λ e. cc, tt))

release_clears_example :
    (project (pos 9) (clear_released_latches (run (tilts true ∷ []) initial))).latched_emergency
    ≡ true
unfolding run step observe_tilt
release_clears_example =
    (release_clears (pos 9) (run (tilts true ∷ []) initial)
        (run-Inv (tilts true ∷ []) initial initial-Inv)).1
      (inr refl)
