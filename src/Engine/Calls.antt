-- ===== src/Engine/Calls.antt =====
-- The calls of ObservationEngine (observation_engine.cpp) that change its state, and their runs. A
-- change of the configuration puts a new engine in the place of the old one, which hands over what it
-- has observed; with a configuration that the constructor refuses the old one stays.
use mowglimavros.Prelude.{Bool, Option, none, some, List, [], ◌∷◌}
use mowglimavros.Prelude.Int.{ℤ}
use mowglimavros.Prelude.Double.{Double}
use mowglimavros.Wheel.Data.{WheelObservation}
use mowglimavros.Engine.Data.{
  ObservationEngine, ObservationConfig, CommonStatusPacket, CommonInfoPacket, LegacyEscPacket,
  DistancePacket,
}
use mowglimavros.Engine.State.{connection, retain_esc_observations}
use mowglimavros.Engine.Config.{create}
use mowglimavros.Engine.Select.{poll}
use mowglimavros.Engine.Common.{common_status}
use mowglimavros.Engine.Info.{common_info}
use mowglimavros.Engine.Legacy.{legacy_esc, legacy_rpm}
use mowglimavros.Engine.Distance.{wheel_distance}

pub data Call (F : Type 0) : Type 0 where
  connects : Bool → Call F
  polls : Call F
  statuses : CommonStatusPacket F → Call F
  informs : CommonInfoPacket → Call F
  counts_escs : LegacyEscPacket F → Call F
  turns : F → F → Call F
  moves : DistancePacket F → Call F
  reconfigures : ObservationConfig F → Bool → Call F

module _ (D : Double) where
  open D use {F}

  -- `none`: the constructor has thrown.
  abbrev pub replace :
      ℤ → Bool → Option (ObservationEngine F) → ObservationEngine F → ObservationEngine F
  replace now retain_legacy_ticks none s = s
  replace now retain_legacy_ticks (some t) s = retain_esc_observations D s now retain_legacy_ticks t

  -- A call at a time of receipt: the new state, and what it publishes.
  unfoldable pub step :
      ℤ → Call F → ObservationEngine F → ObservationEngine F × Option (WheelObservation F)
  step now (connects b) s = (connection D b s, none)
  step now polls s = (poll D now s, none)
  step now (statuses p) s = common_status D p now s
  step now (informs p) s = (common_info D p now s, none)
  step now (counts_escs p) s = (legacy_esc D p now s, none)
  step now (turns l r) s = legacy_rpm D l r now s
  step now (moves p) s = wheel_distance D p now s
  step now (reconfigures config retain) s = (replace now retain (create D config) s, none)

  unfoldable pub run : List (ℤ × Call F) → ObservationEngine F → ObservationEngine F
  run [] s = s
  run ((now, c) ∷ cs) s = run cs (step now c s).0

  abbrev cons? : Option (WheelObservation F) → List (WheelObservation F) → List (WheelObservation F)
  cons? none l = l
  cons? (some o) l = o ∷ l

  -- What a list of calls publishes.
  unfoldable pub outputs : List (ℤ × Call F) → ObservationEngine F → List (WheelObservation F)
  outputs [] s = []
  outputs ((now, c) ∷ cs) s = cons? (step now c s).1 (outputs cs (step now c s).0)
