-- ===== src/Engine/Info.antt =====
-- `common_info` of ObservationEngine (observation_engine.cpp).
use mowglimavros.Prelude.{
  ℕ, ◌+◌, ◌%◌, Bool, true, false, not, ◌&&◌, ◌||◌, Option, none, some, ltb, leb, ◌==◌,
  if◌then◌else◌,
}
use mowglimavros.Prelude.Int.{ℤ, pos, leb_ℤ, eqb_ℤ}
use mowglimavros.Prelude.Double.{Double}
use mowglimavros.Engine.Config.{sample_time_valid, write, any_range, four_rounds}
use mowglimavros.Engine.Data.{ObservationEngine, Info, CommonInfoPacket}
use mowglimavros.Engine.State.{receive_clock, accept_common_info}
use mowglimavros.Engine.Select.{select}

abbrev info_of : CommonInfoPacket → ℤ → Bool → ℕ → Info
info_of p stamp valid i = record {
  time_us = p.time_us;
  stamp_ns = stamp;
  temperature = p.temperature i;
  failure_flags = p.failure_flags i;
  error_count = p.error_count i;
  seen = true;
  valid = valid;
}

unfoldable pub info_conflicts : CommonInfoPacket → ℕ → Info → Bool
info_conflicts p i old =
    not (eqb_ℤ old.temperature (p.temperature i))
    || not (old.failure_flags == p.failure_flags i)
    || not (old.error_count == p.error_count i)

module _ (D : Double) where
  open D use {F}

  -- `for (i = 0; i < 4 && packet.index + i < packet.count; ++i)`: a round past the count does nothing.
  unfoldable pub reset_info : CommonInfoPacket → ℕ → ObservationEngine F → ObservationEngine F
  reset_info p i s =
      let slot = p.index + i in
      if ltb slot p.count
      then record s { info = write slot (info_of p (pos 0) false i) s.info }
      else s

  unfoldable pub update_info : CommonInfoPacket → ℤ → ℕ → ObservationEngine F → ObservationEngine F
  unfolding info_conflicts
  update_info p receipt i s =
      let slot = p.index + i in
      let old = s.info slot in
      if not (ltb slot p.count)
      then s
      else if old.seen && p.time_us == old.time_us
      then if info_conflicts p i old
        then record s { info = write slot (record old { valid = false }) s.info }
        else s
      else record s { info = write slot (info_of p receipt true i) s.info }

  unfoldable pub info_epoch_changed : CommonInfoPacket → ObservationEngine F → Bool
  unfolding any_range
  info_epoch_changed p s =
      any_range 4 p.index
        (λ slot. ltb slot p.count && (s.info slot).seen && ltb p.time_us (s.info slot).time_us)

  -- The slots past the count are invalid and have no information.
  unfoldable pub bound_slots : ℕ → ObservationEngine F → ObservationEngine F
  bound_slots count s = record s {
    common_count = some count;
    status = λ slot.
        let old = s.status slot in
        if leb count slot
        then record old { report = record (old.report) { valid = false } }
        else old;
    info = λ slot. if leb count slot then record (s.info slot) { seen = false } else s.info slot;
  }

  unfoldable pub common_info_accepted :
      CommonInfoPacket → ℤ → ObservationEngine F → ObservationEngine F
  unfolding info_epoch_changed bound_slots
  common_info_accepted p receipt s =
      if info_epoch_changed p s
      then select D receipt (four_rounds (reset_info p) s)
      else select D receipt (four_rounds (update_info p receipt) (bound_slots p.count s))

  abbrev pub accepted_info :
      CommonInfoPacket
      → ℤ
      → ObservationEngine F
      → Option (ObservationEngine F)
      → ObservationEngine F
  accepted_info p receipt s none = s
  accepted_info p receipt s (some t) = common_info_accepted p receipt t

  abbrev pub info_ignored : CommonInfoPacket → ℤ → ObservationEngine F → Bool
  info_ignored p receipt s =
      not s.connected
      || leb_ℤ receipt (pos 0)
      || not (sample_time_valid p.time_us)
      || ltb 60 p.index
      || not (p.index % 4 == 0)
      || ltb 64 p.count
      || (if p.count == 0 then not (p.index == 0) else leb p.count p.index)

  unfoldable pub common_info : CommonInfoPacket → ℤ → ObservationEngine F → ObservationEngine F
  unfolding common_info_accepted receive_clock accept_common_info
  common_info p receipt s =
      let t = receive_clock D receipt s in
      if info_ignored p receipt s
      then s
      else accepted_info p receipt t (accept_common_info D p.component_id t)
