-- ===== src/Engine/State.antt =====
-- The resets, the clock, the leases of the COMMON producer and the reconfiguration of
-- ObservationEngine (observation_engine.cpp).
use mowglimavros.Prelude.{
  ℕ, Bool, true, false, not, ◌&&◌, ◌||◌, Option, none, some, is_some, if◌then◌else◌,
}
use mowglimavros.Prelude.Int.{ℤ, pos, ltb_ℤ, eqb_ℤ}
use mowglimavros.Prelude.Double.{Double}
use mowglimavros.Wheel.Data.{WheelSource, no_source, wheel_distance, esc_status}
use mowglimavros.Wheel.Core as Core
use mowglimavros.Wheel.Legacy as LegacyWheel
use mowglimavros.Wheel.Integrator as Integrator
use mowglimavros.Wheel.Ticks.{same_source}
use mowglimavros.Engine.Data.{ObservationEngine, no_status, no_info, no_legacy, no_distance}
use mowglimavros.Engine.Config.{fresh, id_refused, is_other, same_component, held_id}

module _ (D : Double) where
  open D use {F, of_int, is_finite, lt, times, over}

  -- `if (active_ == source) {core_.reset(); active_ = None;}`.
  unfoldable pub leave : WheelSource → ObservationEngine F → ObservationEngine F
  leave source s =
      if same_source s.active source
      then record s { core = Core.reset D s.core; active = no_source }
      else s

  unfoldable pub reset_common : ObservationEngine F → ObservationEngine F
  unfolding leave
  reset_common s = leave esc_status (record s {
    status = λ i. no_status D;
    info = λ i. no_info;
    common_count = none;
    common_component = none;
    common_motor_ticks = Integrator.reset D s.common_motor_ticks;
    common_owner_stamp_ns = pos 0;
    common_status_owner = false;
    published_left = 0;
    published_right = 0;
    common_epoch_baseline_needed = false;
    common_configuration_ns = pos 0;
  })

  unfoldable pub reset_distance : ObservationEngine F → ObservationEngine F
  unfolding leave
  reset_distance s =
      leave wheel_distance
        (record s { distance = no_distance D; distance_component = none; distance_baseline = none })

  unfoldable pub reset : ObservationEngine F → ObservationEngine F
  unfolding reset_common reset_distance
  reset s =
      let t = reset_distance (reset_common s) in
      record t {
        core = Core.reset D t.core;
        legacy = LegacyWheel.reset D t.legacy;
        legacy_esc = λ i. no_legacy D;
        legacy_motion = none;
        legacy_motor_ticks = Integrator.reset D t.legacy_motor_ticks;
        active = no_source;
        last_receipt_ns = pos 0;
      }

  unfoldable pub receive_clock : ℤ → ObservationEngine F → ObservationEngine F
  unfolding reset
  receive_clock receipt s = record (if ltb_ℤ receipt s.last_receipt_ns then reset s else s) {
    last_receipt_ns = receipt;
  }

  unfoldable pub connection : Bool → ObservationEngine F → ObservationEngine F
  unfolding reset
  connection connected s = record (reset s) { connected = connected }

  -- `none`: the packet is refused.
  unfoldable pub accept_common_status : ℕ → ℤ → ObservationEngine F → Option (ObservationEngine F)
  unfolding fresh reset_common
  accept_common_status component receipt s =
      let other = is_other s.common_component component in
      if id_refused s.config.esc_component_id component
        || (other && s.common_status_owner && fresh D s.common_owner_stamp_ns receipt s)
      then none
      else some (record (if other then reset_common s else s) {
        common_component = some component;
        common_status_owner = true;
      })

  unfoldable pub accept_common_info : ℕ → ObservationEngine F → Option (ObservationEngine F)
  unfolding reset_common
  accept_common_info component s =
      let other = is_other s.common_component component in
      if id_refused s.config.esc_component_id component || (other && s.common_status_owner)
      then none
      else some (record (if other then reset_common s else s) { common_component = some component })

  -- The part of `retain_esc_observations` on the COMMON producer.
  unfoldable pub retain_common : ObservationEngine F → ObservationEngine F → ObservationEngine F
  retain_common previous s =
      if ltb_ℤ s.config.esc_component_id (pos 0)
        || (is_some previous.common_component
            && not (id_refused s.config.esc_component_id (held_id previous.common_component)))
      then record s {
        status = previous.status;
        info = previous.info;
        common_count = previous.common_count;
        common_component = previous.common_component;
        common_owner_stamp_ns = previous.common_owner_stamp_ns;
        common_status_owner = previous.common_status_owner;
      }
      else record s { status = λ i. no_status D; info = λ i. no_info }

  unfoldable pub retain_esc_observations :
      ObservationEngine F → ℤ → Bool → ObservationEngine F → ObservationEngine F
  unfolding retain_common
  retain_esc_observations previous configuration_ns retain_legacy_ticks s =
      let same_slots =
        eqb_ℤ s.config.geometry.left_esc_slot previous.config.geometry.left_esc_slot
        && eqb_ℤ s.config.geometry.right_esc_slot previous.config.geometry.right_esc_slot in
      let t = retain_common previous s in
      record t {
        connected = previous.connected;
        legacy_esc = previous.legacy_esc;
        last_receipt_ns = previous.last_receipt_ns;
        common_motor_ticks =
            if same_slots && same_component t.common_component previous.common_component
            then Integrator.retain_counts D previous.common_motor_ticks s.common_motor_ticks
            else s.common_motor_ticks;
        legacy_motor_ticks =
            if same_slots && retain_legacy_ticks
            then Integrator.retain_counts D previous.legacy_motor_ticks s.legacy_motor_ticks
            else s.legacy_motor_ticks;
        common_configuration_ns = configuration_ns;
      }
