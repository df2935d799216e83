-- ===== src/Readiness/Examples.antt =====
-- ReadinessState (readiness_state.cpp) at concrete inputs.
use mowglimavros.Prelude.{true, false, ◌≡◌, refl, List, [], ◌∷◌}
use mowglimavros.Prelude.Int.{pos, ◌-ℤ◌}
use mowglimavros.Readiness.{
  ReadinessState, create, connection, imu, wheel, traction, gnss, adopt, accept_gnss, project,
}
use mowglimavros.Readiness.Freshness.{
  Call, run, step, connects, project_ready, wheels, connection_unready, imus, tractions, fixes,
}

abbrev reports : List Call
reports =
    connects true ∷ imus (pos 10) ∷ tractions (pos 11) true ∷ fixes (pos 12) 4 "gps1" true ∷ []

online : ReadinessState
unfolding run step create connection imu wheel traction gnss adopt accept_gnss project ◌-ℤ◌
online = run reports (create (pos 5000) true false)

project_ready_example : online.traction_valid ≡ true
unfolding online
project_ready_example = ((project_ready (pos 20) online).0 refl).3

connection_unready_example :
    (project (pos 30) (run (wheels (pos 21) ∷ connects true ∷ []) (connection false online))).ready
    ≡ false
unfolding online
connection_unready_example =
    connection_unready (wheels (pos 21) ∷ connects true ∷ []) false (pos 30) online (λ e. cc)
      (λ r e. cc, (λ r e. cc, tt))
