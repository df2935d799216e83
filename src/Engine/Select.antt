-- ===== src/Engine/Select.antt =====
-- `common_available`, `select` and `poll` of ObservationEngine (observation_engine.cpp).
use mowglimavros.Prelude.{ℕ, Bool, false, not, ◌&&◌, ◌||◌, Option, none, some, if◌then◌else◌}
use mowglimavros.Prelude.Int.{ℤ, pos, pos_part}
use mowglimavros.Prelude.Double.{Double}
use mowglimavros.Wheel.Data.{
  WheelSource, WheelMotionObservation, no_source, wheel_distance, esc_status, ardupilot_legacy,
}
use mowglimavros.Wheel.Core as Core
use mowglimavros.Wheel.Ticks.{same_source}
use mowglimavros.Engine.Config.{
  fresh, common_mapping, wheel_configured, allows, left_status, right_status, out_of_count, apart,
  micro,
}
use mowglimavros.Engine.Data.{ObservationEngine, Status}
use mowglimavros.Engine.State.{receive_clock}

module _ (D : Double) where
  open D use {F, of_int, lt, times}

  -- One wheel's part of `common_available`.
  abbrev pub reported : ℤ → ObservationEngine F → Status F → Bool
  reported now s w = w.seen && w.report.valid && fresh D w.report.stamp_ns now s

  abbrev pub paired : ObservationEngine F → Bool
  paired s = not (
      lt s.config.common_pair_max_skew_s (
        times (of_int (pos (apart (left_status D s).time_us (right_status D s).time_us)))
          (micro D)))

  unfoldable pub common_available : ℤ → ObservationEngine F → Bool
  unfolding fresh common_mapping
  common_available now s =
      common_mapping D s
      && reported now s (left_status D s)
      && reported now s (right_status D s)
      && not (out_of_count s.common_count (pos_part s.config.geometry.left_esc_slot))
      && not (out_of_count s.common_count (pos_part s.config.geometry.right_esc_slot))
      && paired s

  abbrev pub distance_available : ℤ → ObservationEngine F → Bool
  distance_available now s = s.distance.valid && fresh D s.distance.receipt_ns now s

  abbrev pub fresh_motion : ℤ → ObservationEngine F → Option (WheelMotionObservation F) → Bool
  fresh_motion now s none = false
  fresh_motion now s (some m) = fresh D m.receipt_stamp_ns now s

  abbrev pub legacy_available : ℤ → ObservationEngine F → Bool
  legacy_available now s = s.config.legacy_enabled && fresh_motion now s s.legacy_motion

  -- The local `next` of `select`.
  unfoldable pub wanted : ℤ → ObservationEngine F → WheelSource
  wanted now s =
      if not (s.connected && wheel_configured D s)
      then no_source
      else if allows D wheel_distance s && distance_available now s
      then wheel_distance
      else if allows D esc_status s && common_available now s
      then esc_status
      else if allows D ardupilot_legacy s && legacy_available now s
      then ardupilot_legacy
      else no_source

  -- The two floors after a change of the source, from the cached and the earlier sample times.
  unfoldable pub floors : Bool → ℕ → ℕ → WheelSource → ObservationEngine F → ℕ × ℕ
  floors common_update previous_left previous_right next s =
      let to_common = same_source next esc_status in
      if not (common_mapping D s)
      then (s.published_left, s.published_right)
      else if (not to_common
            && (not (same_source next no_source) || not (same_source s.active esc_status)))
          || (to_common && not common_update)
      then ((left_status D s).time_us, (right_status D s).time_us)
      else if to_common && not (same_source s.active no_source)
      then (previous_left, previous_right)
      else (s.published_left, s.published_right)

  unfoldable pub switch : Bool → ℕ → ℕ → WheelSource → ObservationEngine F → ObservationEngine F
  unfolding floors
  switch common_update previous_left previous_right next s =
      if same_source next s.active
      then s
      else let f = floors common_update previous_left previous_right next s in
        record s {
          core = Core.reset D s.core;
          published_left = f.0;
          published_right = f.1;
          distance_baseline = if same_source next wheel_distance then some s.distance else none;
          active = next;
        }

  -- `select(now, common_update, previous_left, previous_right)`.
  unfoldable pub select_for : ℤ → Bool → ℕ → ℕ → ObservationEngine F → ObservationEngine F
  unfolding wanted switch
  select_for now common_update previous_left previous_right s =
      switch common_update previous_left previous_right (wanted now s) s

  unfoldable pub select : ℤ → ObservationEngine F → ObservationEngine F
  unfolding select_for
  select now s = select_for now false 0 0 s

  unfoldable pub poll : ℤ → ObservationEngine F → ObservationEngine F
  unfolding receive_clock select
  poll now s = select now (receive_clock D now s)
