-- ===== src/Engine/Telemetry.antt =====
-- What the reports of the motor controllers (ESCs) keep in ObservationEngine (observation_engine.cpp).
use mowglimavros.Engine.Common.{note_published, publish_common, receive_if, common_status_accepted}
use mowglimavros.Engine.State.{receive_clock, reset_distance, reset}
use mowglimavros.Prelude.{
  true, ◌≡◌, arith, Option, ℕ, Bool-cases, none, some, inl, inr, if_both, Ends, Bool, false,
}
use mowglimavros.Prelude.Int.{ℤ, pos, ltb_ℤ}
use mowglimavros.Prelude.Double.{Double}
use mowglimavros.Wheel.Data.{esc_status, WheelMotionObservation, WheelObservation}
use mowglimavros.Wheel.Integrator as Integrator
use mowglimavros.Wheel.Core as Core
use mowglimavros.Wheel.Legacy as LegacyWheel
use mowglimavros.Engine.Data.{ObservationEngine, CommonStatusPacket}
use mowglimavros.Engine.Config.{
  wheel_configured, common_mapping, left_status, right_status, four_rounds,
}
use mowglimavros.Engine.Invariant.{Sourced, Alike, Alike-Sourced, select_for-Sourced, idle-Sourced}
use mowglimavros.Engine.Data.{Legacy, CommonInfoPacket, LegacyEscPacket}
use mowglimavros.Engine.State.{accept_common_status, accept_common_info}
use mowglimavros.Engine.Common.{common_status, accepted_status}
use mowglimavros.Engine.Info.{common_info, common_info_accepted, accepted_info}
use mowglimavros.Engine.Legacy.{
  legacy_esc, legacy_slot, legacy_rpm, integrate_legacy, publish_legacy, lose_legacy,
}
use mowglimavros.Engine.Invariant.{select-Sourced}

-- What every round keeps, the four keep.
four_rounds_keep {ℓ κ} :
    {S : Type ℓ} (P : S → Type κ) (round : ℕ → S → S)
    → ((slot : ℕ) (now : S) → P now → P (round slot now))
    → (start : S) → P start
    → P (four_rounds round start)
unfolding four_rounds
four_rounds_keep P round keep start h = keep 3 _ (keep 2 _ (keep 1 _ (keep 0 start h)))

module _ (D : Double) where
  open D use {F}

  geometry-receive_motion :
      (m : WheelMotionObservation F) (c : Core.WheelOdometryCore F)
      → (Core.receive_motion D m c).0.geometry ≡ c.geometry
  unfolding Core.receive_motion
  geometry-receive_motion m c = ground arith

  pub reset_distance-Sourced :
      (s : ObservationEngine F) → Sourced D s → Sourced D (reset_distance D s)
  unfolding reset_distance wheel_configured Core.valid Core.reset common_mapping
  reset_distance-Sourced s h = ground arith

  pub receive_clock-Sourced :
      (now : ℤ) (s : ObservationEngine F) → Sourced D s → Sourced D (receive_clock D now s)
  unfolding receive_clock reset
  receive_clock-Sourced now s h = elim (Bool-cases (ltb_ℤ now s.last_receipt_ns)) [
    | inl e ↦ idle-Sourced D (receive_clock D now s) (ground arith)
    | inr e ↦ Alike-Sourced D s (receive_clock D now s) (ground arith) h
  ]

  Alike-refl : (s : ObservationEngine F) → Alike D s s
  Alike-refl s = ground arith

  floors-Alike :
      (b : Bool) (l r : ℕ) (s : ObservationEngine F)
      → Alike D s
          (record s { common_epoch_baseline_needed = b; published_left = l; published_right = r })
  floors-Alike b l r s = ground arith

  pub receive_if-Alike :
      (m : Option (WheelMotionObservation F)) (s : ObservationEngine F)
      → Alike D s (receive_if D m s).0
  receive_if-Alike none s = ground arith
  receive_if-Alike (some m) s = ground (arith, geometry-receive_motion m s.core)

  note_published-Alike :
      (s : ObservationEngine F) (r : ObservationEngine F × Option (WheelObservation F))
      → Alike D s r.0
      → Ends (Alike D s) (note_published D r)
  unfolding note_published
  note_published-Alike s (t, none) a = record { state = a }
  note_published-Alike s (t, some o) a = record { state = ground (arith, a) }

  publish_common-Alike :
      (now : ℤ) (s : ObservationEngine F) → Ends (Alike D s) (publish_common D now s)
  unfolding publish_common
  publish_common-Alike now s =
      let m =
        Integrator.motion D s.config.geometry.ticks_per_meter esc_status s.common_motor_ticks in
      let same : Ends {B = Option (WheelObservation F)} (Alike D s) (s, none) = record {
        state = Alike-refl s;
      } in
      if_both (Ends (Alike D s)) _ same (
        if_both (Ends (Alike D s)) _
          (record {
            state = floors-Alike false (left_status D s).time_us (right_status D s).time_us s;
          })
          (if_both (Ends (Alike D s)) _ same
            (note_published-Alike s (receive_if D m s) (receive_if-Alike m s))))

  common_status_accepted-Sourced :
      (p : CommonStatusPacket F) (now : ℤ) (s : ObservationEngine F)
      → Sourced D (common_status_accepted D p now s).0
  unfolding common_status_accepted
  common_status_accepted-Sourced p now s =
      Alike-Sourced D _ _ (publish_common-Alike now _).state (select_for-Sourced D now true _ _ _)

  -- A result with the state left as it was.
  pub unchanged :
      (s : ObservationEngine F)
      → Sourced D s
      → Ends {B = Option (WheelObservation F)} (Sourced D) (s, none)
  unchanged s h = record { state = h }

  accepted_status-Sourced :
      (p : CommonStatusPacket F) (now : ℤ) (s : ObservationEngine F)
      (o : Option (ObservationEngine F))
      → Sourced D s
      → Ends (Sourced D) (accepted_status D p now s o)
  accepted_status-Sourced p now s none h = unchanged s h
  accepted_status-Sourced p now s (some t) h = record {
    state = common_status_accepted-Sourced p now t;
  }

  pub common_status-Sourced :
      (p : CommonStatusPacket F) (now : ℤ) (s : ObservationEngine F)
      → Sourced D s
      → Ends (Sourced D) (common_status D p now s)
  unfolding common_status
  common_status-Sourced p now s h =
      let t = receive_clock D now s in
      if_both (Ends (Sourced D)) _ (unchanged s h) (
        accepted_status-Sourced p now t (accept_common_status D p.component_id now t)
          (receive_clock-Sourced now s h))

  accepted_info-Sourced :
      (p : CommonInfoPacket) (now : ℤ) (s : ObservationEngine F) (o : Option (ObservationEngine F))
      → Sourced D s
      → Sourced D (accepted_info D p now s o)
  unfolding common_info_accepted
  accepted_info-Sourced p now s none h = h
  accepted_info-Sourced p now s (some t) h =
      if_both (Sourced D) _ (select-Sourced D now _) (select-Sourced D now _)

  pub common_info-Sourced :
      (p : CommonInfoPacket) (now : ℤ) (s : ObservationEngine F)
      → Sourced D s
      → Sourced D (common_info D p now s)
  unfolding common_info
  common_info-Sourced p now s h =
      let t = receive_clock D now s in
      if_both (Sourced D) _ h (
        accepted_info-Sourced p now t (accept_common_info D p.component_id t)
          (receive_clock-Sourced now s h))

  slots-Alike :
      (f : ℕ → Legacy F) (s t : ObservationEngine F)
      → Alike D s t
      → Alike D s (record t { legacy_esc = f })
  slots-Alike f s t a = ground (arith, a)

  legacy_slot-Alike :
      (p : LegacyEscPacket F) (now : ℤ) (j : ℕ) (s t : ObservationEngine F)
      → Alike D s t
      → Alike D s (legacy_slot D p now j t)
  unfolding legacy_slot
  legacy_slot-Alike p now j s t a = if_both (Alike D s) _ a (slots-Alike _ s t a)

  counted-Alike :
      (offset : ℤ) (counts : ℕ → ℕ) (now : ℤ) (s : ObservationEngine F)
      → Alike D s
          (record s { legacy = LegacyWheel.receive_esc_counts D offset counts now s.legacy })
  unfolding LegacyWheel.receive_esc_counts
  counted-Alike offset counts now s = ground arith

  pub legacy_esc-Sourced :
      (p : LegacyEscPacket F) (now : ℤ) (s : ObservationEngine F)
      → Sourced D s
      → Sourced D (legacy_esc D p now s)
  unfolding legacy_esc
  legacy_esc-Sourced p now s h =
      let t = receive_clock D now s in
      let u = record t {
        legacy = LegacyWheel.receive_esc_counts D (pos p.index) p.counts now t.legacy;
      } in
      if_both (Sourced D) _ h (
        Alike-Sourced D t _
          (four_rounds_keep (Alike D t) (legacy_slot D p now)
            (λ j v a. legacy_slot-Alike p now j t v a) u
            (counted-Alike (pos p.index) p.counts now t))
          (receive_clock-Sourced now s h))

  publish_legacy-Sourced :
      (now : ℤ) (m : Option (WheelMotionObservation F)) (s : ObservationEngine F)
      → Ends (Sourced D) (publish_legacy D now m s)
  unfolding publish_legacy
  publish_legacy-Sourced now m s =
      if_both (Ends (Sourced D)) _
        (record { state = Alike-Sourced D _ _ (receive_if-Alike m _) (select-Sourced D now _) })
        (unchanged _ (select-Sourced D now _))

  pub legacy_rpm-Sourced :
      (l r : F) (now : ℤ) (s : ObservationEngine F)
      → Sourced D s
      → Ends (Sourced D) (legacy_rpm D l r now s)
  unfolding legacy_rpm
  legacy_rpm-Sourced l r now s h =
      let t = receive_clock D now s in
      let a = LegacyWheel.receive_rpm D l r now t.legacy in
      let u = integrate_legacy D a.1 (record t { legacy = a.0 }) in
      if_both (Ends (Sourced D)) _ (unchanged s h) (
        if_both (Ends (Sourced D)) _ (unchanged _ (select-Sourced D now (lose_legacy D t)))
          (publish_legacy-Sourced now u.1 u.0))
