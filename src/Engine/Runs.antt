-- ===== src/Engine/Runs.antt =====
-- The invariant of ObservationEngine (observation_engine.cpp) over its calls.
use mowglimavros.Engine.Telemetry.{
  common_status-Sourced, common_info-Sourced, legacy_esc-Sourced, legacy_rpm-Sourced,
}
use mowglimavros.Engine.Encoders.{wheel_distance-Sourced}
use mowglimavros.Engine.State.{receive_clock, reset, retain_esc_observations, retain_common}
use mowglimavros.Prelude.{◌≡◌, List, [], ◌∷◌, Bool, refl, arith, if_both}
use mowglimavros.Prelude.Int.{ℤ}
use mowglimavros.Prelude.Double.{Double}
use mowglimavros.Engine.Data.{ObservationEngine}
use mowglimavros.Engine.Invariant.{Sourced, idle-Sourced}
use mowglimavros.Wheel.Data.{no_source}
use mowglimavros.Engine.Data.{ObservationConfig}
use mowglimavros.Engine.Config.{initial, create, config_bad}
use mowglimavros.Engine.State.{connection}
use mowglimavros.Engine.Select.{poll}
use mowglimavros.Engine.Invariant.{select-Sourced}
use mowglimavros.Engine.Calls.{
  Call, connects, polls, statuses, informs, counts_escs, turns, moves, step, run, reconfigures,
  replace,
}

module _ (D : Double) where
  open D use {F}

  active-connection : (b : Bool) (s : ObservationEngine F) → (connection D b s).active ≡ no_source
  unfolding connection reset
  active-connection b s = refl

  poll-Sourced : (now : ℤ) (s : ObservationEngine F) → Sourced D (poll D now s)
  unfolding poll
  poll-Sourced now s = select-Sourced D now (receive_clock D now s)

  active-retain :
      (previous : ObservationEngine F) (now : ℤ) (retain : Bool) (s : ObservationEngine F)
      → (retain_esc_observations D previous now retain s).active ≡ s.active
  unfolding retain_esc_observations retain_common
  active-retain previous now retain s = ground arith

  -- A new engine has no source, whatever it takes over.
  replace-Sourced :
      (now : ℤ) (retain : Bool) (config : ObservationConfig F) (s : ObservationEngine F)
      → Sourced D s
      → Sourced D (replace D now retain (create D config) s)
  unfolding create initial
  replace-Sourced now retain config s h =
      if_both (λ t. Sourced D (replace D now retain t s)) (config_bad D config) h
        (idle-Sourced D _ (active-retain s now retain (initial D config)))

  step-Sourced :
      (now : ℤ) (c : Call F) (s : ObservationEngine F) → Sourced D s → Sourced D (step D now c s).0
  unfolding step
  step-Sourced now (connects b) s h = idle-Sourced D (connection D b s) (active-connection b s)
  step-Sourced now polls s h = poll-Sourced now s
  step-Sourced now (statuses p) s h = (common_status-Sourced D p now s h).state
  step-Sourced now (informs p) s h = common_info-Sourced D p now s h
  step-Sourced now (counts_escs p) s h = legacy_esc-Sourced D p now s h
  step-Sourced now (turns l r) s h = (legacy_rpm-Sourced D l r now s h).state
  step-Sourced now (moves p) s h = (wheel_distance-Sourced D p now s h).state
  step-Sourced now (reconfigures config retain) s h = replace-Sourced now retain config s h

  pub run-Sourced :
      (cs : List (ℤ × Call F)) (s : ObservationEngine F) → Sourced D s → Sourced D (run D cs s)
  unfolding run
  run-Sourced [] s h = h
  run-Sourced ((now, c) ∷ cs) s h = run-Sourced cs _ (step-Sourced now c s h)

  -- In every run of calls from the constructor on, with changes of the configuration the way the
  -- plugin makes them (retain_esc_observations on an engine that is fresh from its constructor and
  -- takes the place of the old one), an active source means a live link, a complete configuration,
  -- and data of that source that are present and valid: for encoders a valid sample, for COMMON
  -- telemetry two mapped slots within the count that were seen and are valid, for legacy telemetry a
  -- motion and its permission.
  pub run-initial-Sourced :
      (config : ObservationConfig F) (cs : List (ℤ × Call F))
      → Sourced D (run D cs (initial D config))
  unfolding initial
  run-initial-Sourced config cs =
      run-Sourced cs (initial D config) (idle-Sourced D (initial D config) refl)
