-- ===== src/Engine/Distance.antt =====
-- `wheel_distance` of ObservationEngine (observation_engine.cpp).
use mowglimavros.Prelude.{
  ℕ, ◌-◌, ◌*◌, ◌/◌, Bool, true, false, not, ◌&&◌, ◌||◌, Option, none, some, ltb, leb, ◌==◌,
  if◌then◌else◌,
}
use mowglimavros.Prelude.Int.{ℤ, pos, leb_ℤ, ltb_ℤ, pos_part}
use mowglimavros.Prelude.Double.{Double}
use mowglimavros.Wheel.Data.{WheelObservation, wheel_distance as distance_source}
use mowglimavros.Wheel.Ticks.{same_source}
use mowglimavros.Engine.Config.{
  fresh, distance_mapping, sample_time_valid, id_refused, is_other, micro, any_range,
}
use mowglimavros.Engine.Data.{ObservationEngine, Distance, DistancePacket}
use mowglimavros.Engine.State.{receive_clock, reset_distance}
use mowglimavros.Engine.Select.{select}
use mowglimavros.Engine.Common.{receive_if, differs}

module _ (D : Double) where
  open D use {F, of_int, is_finite, lt, minus, times, over, magnitude}

  -- `distance_.valid = false; distance_baseline_.reset(); select(receipt);`.
  unfoldable pub lose_distance : ℤ → ObservationEngine F → ObservationEngine F
  lose_distance receipt s =
      select D receipt
        (record s { distance = record (s.distance) { valid = false }; distance_baseline = none })

  -- The packet's time, its wheels and its distances can be used.
  unfoldable pub good : DistancePacket F → ObservationEngine F → Bool
  unfolding any_range
  good p s =
      sample_time_valid p.time_us
      && distance_mapping D p.count s
      && not (
          any_range (if ltb p.count 16 then p.count else 16) 0
            (λ i. not (is_finite (p.distance i))))

  abbrev pub next_distance : DistancePacket F → ℤ → ObservationEngine F → Distance F
  next_distance p receipt s = record {
    left = p.distance (pos_part s.config.left_wheel_index);
    right = p.distance (pos_part s.config.right_wheel_index);
    time_us = p.time_us;
    receipt_ns = receipt;
    valid = true;
  }

  -- `std::abs(v) > max || !std::isfinite(v)`.
  unfoldable pub too_fast : F → ObservationEngine F → Bool
  too_fast v s = not (is_finite v) || lt s.config.max_distance_speed_mps (magnitude v)

  -- The speed of one wheel between two samples.
  unfoldable pub speed : F → F → ℕ → F
  speed a b dt_us = over (minus b a) (times (of_int (pos dt_us)) (micro D))

  -- The tail of `wheel_distance` from a baseline on, which `next` has replaced.
  unfoldable pub publish_distance :
      Distance F
      → Distance F
      → ℤ
      → ObservationEngine F
      → ObservationEngine F × Option (WheelObservation F)
  unfolding too_fast
  publish_distance baseline next receipt s =
      let dt = next.time_us - baseline.time_us in
      let left = speed baseline.left next.left dt in
      let right = speed baseline.right next.right dt in
      if leb next.time_us baseline.time_us
        || ltb_ℤ next.receipt_ns baseline.receipt_ns
        || ltb (pos_part s.config.timeout_ns / 1000) dt
      then (s, none)
      else if too_fast left s || too_fast right s
      then (lose_distance receipt s, none)
      else receive_if D
          (some (record {
            left_mps = left;
            right_mps = right;
            sample_stamp_ns = pos (next.time_us * 1000);
            receipt_stamp_ns = receipt;
            source = distance_source;
            valid = true;
          }))
          s

  abbrev pub from_baseline :
      Option (Distance F)
      → Distance F
      → ℤ
      → ObservationEngine F
      → ObservationEngine F × Option (WheelObservation F)
  from_baseline none next receipt s = (record s { distance_baseline = some next }, none)
  from_baseline (some baseline) next receipt s =
      publish_distance baseline next receipt (record s { distance_baseline = some next })

  -- From a sample that is neither bad nor a repeat.
  unfoldable pub take_distance :
      DistancePacket F → ℤ → ObservationEngine F → ObservationEngine F × Option (WheelObservation F)
  unfolding publish_distance reset_distance fresh
  take_distance p receipt s =
      let next = next_distance p receipt s in
      let a =
        if s.distance.valid && ltb p.time_us s.distance.time_us then reset_distance D s else s in
      let b = select D receipt (record a {
        distance_baseline =
            if fresh D a.distance.receipt_ns receipt a then a.distance_baseline else none;
        distance = next;
        distance_component = some p.component_id;
      }) in
      if not (same_source b.active distance_source)
      then (b, none)
      else from_baseline b.distance_baseline next receipt b

  -- From a packet of the component that owns the source, or takes it.
  unfoldable pub distance_owned :
      DistancePacket F → ℤ → ObservationEngine F → ObservationEngine F × Option (WheelObservation F)
  unfolding good take_distance lose_distance
  distance_owned p receipt s =
      let next = next_distance p receipt s in
      if not (good p s)
      then (lose_distance receipt s, none)
      else if s.distance.valid && p.time_us == s.distance.time_us
      then (
        if differs D next.left s.distance.left || differs D next.right s.distance.right
            then lose_distance receipt s
            else s,
        none,
      )
      else take_distance p receipt s

  -- Another component's packet while the source is live.
  unfoldable pub distance_refused : DistancePacket F → ℤ → ObservationEngine F → Bool
  unfolding fresh
  distance_refused p receipt s =
      id_refused s.config.wheel_distance_component_id p.component_id
      || (is_other s.distance_component p.component_id
          && s.distance.valid
          && fresh D s.distance.receipt_ns receipt s)

  unfoldable pub wheel_distance :
      DistancePacket F → ℤ → ObservationEngine F → ObservationEngine F × Option (WheelObservation F)
  unfolding receive_clock distance_refused distance_owned reset_distance
  wheel_distance p receipt s =
      let t = receive_clock D receipt s in
      let u = if is_other t.distance_component p.component_id then reset_distance D t else t in
      if not s.connected || leb_ℤ receipt (pos 0)
      then (s, none)
      else if distance_refused p receipt t
      then (t, none)
      else distance_owned p receipt u
