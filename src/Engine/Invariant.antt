-- ===== src/Engine/Invariant.antt =====
-- What holds of the active source of ObservationEngine (observation_engine.cpp) between two calls.
use mowglimavros.Prelude.{ℕ, Bool, true, false, ◌≡◌, ◌≢◌, arith, is_some, refl}
use mowglimavros.Prelude.Int.{ℤ, pos_part}
use mowglimavros.Prelude.Double.{Double}
use mowglimavros.Wheel.Data.{no_source, wheel_distance, esc_status, ardupilot_legacy}
use mowglimavros.Wheel.Core as Core
use mowglimavros.Wheel.Legacy as LegacyWheel
use mowglimavros.Engine.Data.{ObservationEngine}
use mowglimavros.Engine.Config.{
  wheel_configured, common_mapping, left_status, right_status, out_of_count,
}
use mowglimavros.Engine.Select.{select_for, select, common_available}
use mowglimavros.Engine.Selection.{Chosen, select_for-Chosen}

module _ (D : Double) where
  open D use {F}

  -- Both wheels have been seen and are valid, and the count of the ESCs covers them.
  abbrev pub Covered : ObservationEngine F → Type 0
  Covered s =
      (common_mapping D s ≡ true)
      × ((left_status D s).seen ≡ true)
      × ((left_status D s).report.valid ≡ true)
      × ((right_status D s).seen ≡ true)
      × ((right_status D s).report.valid ≡ true)
      × (out_of_count s.common_count (pos_part s.config.geometry.left_esc_slot) ≡ false)
      × (out_of_count s.common_count (pos_part s.config.geometry.right_esc_slot) ≡ false)

  -- The active source has a live link, a configuration, and data that were valid when it was chosen.
  pub record Sourced (s : ObservationEngine F) : Type 0 where
    pub live : s.active ≢ no_source → (s.connected ≡ true) × (wheel_configured D s ≡ true)
    pub by_distance : s.active ≡ wheel_distance → s.distance.valid ≡ true
    pub by_common : s.active ≡ esc_status → Covered s
    pub by_legacy :
        s.active ≡ ardupilot_legacy
        → (is_some s.legacy_motion ≡ true) × (s.config.legacy_enabled ≡ true)

  pub idle-Sourced : (s : ObservationEngine F) → s.active ≡ no_source → Sourced s
  idle-Sourced s e = ground arith

  pub common_available-Covered :
      (now : ℤ) (s : ObservationEngine F) → common_available D now s ≡ true → Covered s
  unfolding common_available
  common_available-Covered now s e = (
    ground arith,
    ground arith,
    ground arith,
    ground arith,
    ground arith,
    ground arith,
    ground arith,
  )

  Chosen-Sourced : (now : ℤ) (s : ObservationEngine F) → Chosen D now s → Sourced s
  Chosen-Sourced now s c = record {
    live = c.live;
    by_distance = λ e. let q = (c.by_distance e).1 in ground arith;
    by_common = λ e. common_available-Covered now s (c.by_common e).1;
    by_legacy = λ e. let q = (c.by_legacy e).1 in (ground arith, ground arith);
  }

  pub select_for-Sourced :
      (now : ℤ) (b : Bool) (l r : ℕ) (s : ObservationEngine F) → Sourced (select_for D now b l r s)
  select_for-Sourced now b l r s = Chosen-Sourced now _ (select_for-Chosen D now b l r s)

  pub select-Sourced : (now : ℤ) (s : ObservationEngine F) → Sourced (select D now s)
  unfolding select
  select-Sourced now s = select_for-Sourced now false 0 0 s

  -- The fields that the invariant reads are the same.
  pub record Alike (s t : ObservationEngine F) : Type 0 where
    pub config : t.config ≡ s.config
    pub core_geometry : t.core.geometry ≡ s.core.geometry
    pub legacy_geometry : t.legacy.geometry ≡ s.legacy.geometry
    pub legacy_timeout : t.legacy.timeout_ns ≡ s.legacy.timeout_ns
    pub connected : t.connected ≡ s.connected
    pub status : t.status ≡ s.status
    pub count : t.common_count ≡ s.common_count
    pub distance : t.distance.valid ≡ s.distance.valid
    pub motion : t.legacy_motion ≡ s.legacy_motion
    pub active : t.active ≡ s.active

  Alike-configured :
      (s t : ObservationEngine F) → Alike s t → wheel_configured D t ≡ wheel_configured D s
  unfolding wheel_configured Core.valid LegacyWheel.valid
  Alike-configured s t a = rw (a.config, a.core_geometry, a.legacy_geometry, a.legacy_timeout) refl

  pub Alike-Sourced : (s t : ObservationEngine F) → Alike s t → Sourced s → Sourced t
  unfolding common_mapping
  Alike-Sourced s t a h = ground (arith, Alike-configured s t a)
