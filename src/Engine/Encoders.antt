-- ===== src/Engine/Encoders.antt =====
-- What the reports of the wheel encoders keep in ObservationEngine (observation_engine.cpp).
use mowglimavros.Engine.Telemetry.{
  reset_distance-Sourced, receive_clock-Sourced, receive_if-Alike, unchanged,
}
use mowglimavros.Engine.State.{reset_distance}
use mowglimavros.Prelude.{
  arith, Option, none, some, if_both, Ends, if◌then◌else◌, ◌&&◌, ltb, ◌==◌, not,
}
use mowglimavros.Prelude.Int.{ℤ}
use mowglimavros.Prelude.Double.{Double}
use mowglimavros.Engine.Data.{ObservationEngine}
use mowglimavros.Engine.Invariant.{Sourced, Alike, Alike-Sourced}
use mowglimavros.Engine.Data.{DistancePacket, Distance}
use mowglimavros.Engine.Config.{fresh}
use mowglimavros.Engine.Select.{select}
use mowglimavros.Engine.Distance.{
  wheel_distance, distance_owned, take_distance, publish_distance, lose_distance, from_baseline,
  next_distance, good,
}
use mowglimavros.Engine.Invariant.{select-Sourced}

module _ (D : Double) where
  open D use {F}

  lose_distance-Sourced : (now : ℤ) (s : ObservationEngine F) → Sourced D (lose_distance D now s)
  unfolding lose_distance
  lose_distance-Sourced now s = select-Sourced D now _

  publish_distance-Sourced :
      (baseline next : Distance F) (now : ℤ) (s : ObservationEngine F)
      → Sourced D s
      → Ends (Sourced D) (publish_distance D baseline next now s)
  unfolding publish_distance
  publish_distance-Sourced baseline next now s h = if_both (Ends (Sourced D)) _ (unchanged D s h) (
      if_both (Ends (Sourced D)) _ (unchanged D _ (lose_distance-Sourced now s))
        (record { state = Alike-Sourced D s _ (receive_if-Alike D (some _) s) h }))

  baseline-Alike :
      (b : Option (Distance F)) (s : ObservationEngine F)
      → Alike D s (record s { distance_baseline = b })
  baseline-Alike b s = ground arith

  from_baseline-Sourced :
      (b : Option (Distance F)) (next : Distance F) (now : ℤ) (s : ObservationEngine F)
      → Sourced D s
      → Ends (Sourced D) (from_baseline D b next now s)
  from_baseline-Sourced none next now s h =
      unchanged D _ (Alike-Sourced D s _ (baseline-Alike (some next) s) h)
  from_baseline-Sourced (some b) next now s h =
      publish_distance-Sourced b next now _ (Alike-Sourced D s _ (baseline-Alike (some next) s) h)

  take_distance-Sourced :
      (p : DistancePacket F) (now : ℤ) (s : ObservationEngine F)
      → Ends (Sourced D) (take_distance D p now s)
  unfolding take_distance
  take_distance-Sourced p now s =
      let next = next_distance D p now s in
      let a =
        if s.distance.valid && ltb p.time_us s.distance.time_us then reset_distance D s else s in
      let c = record a {
        distance_baseline =
            if fresh D a.distance.receipt_ns now a then a.distance_baseline else none;
        distance = next;
        distance_component = some p.component_id;
      } in
      let b = select D now c in
      let h = select-Sourced D now c in
      if_both (Ends (Sourced D)) _ (unchanged D b h)
        (from_baseline-Sourced b.distance_baseline next now b h)

  distance_owned-Sourced :
      (p : DistancePacket F) (now : ℤ) (s : ObservationEngine F)
      → Sourced D s
      → Ends (Sourced D) (distance_owned D p now s)
  unfolding distance_owned
  distance_owned-Sourced p now s h =
      let lost = lose_distance D now s in
      let l = lose_distance-Sourced now s in
      if_both (Ends (Sourced D)) (not (good D p s)) (unchanged D lost l) (
        if_both (Ends (Sourced D)) (s.distance.valid && p.time_us == s.distance.time_us)
          (record { state = if_both (Sourced D) _ l h }) (take_distance-Sourced p now s))

  pub wheel_distance-Sourced :
      (p : DistancePacket F) (now : ℤ) (s : ObservationEngine F)
      → Sourced D s
      → Ends (Sourced D) (wheel_distance D p now s)
  unfolding wheel_distance
  wheel_distance-Sourced p now s h =
      let t = receive_clock-Sourced D now s h in
      if_both (Ends (Sourced D)) _ (unchanged D s h) (
        if_both (Ends (Sourced D)) _ (unchanged D _ t)
          (distance_owned-Sourced p now _ (if_both (Sourced D) _ (reset_distance-Sourced D _ t) t)))
