-- ===== src/Engine/Selection.antt =====
-- What `select` of ObservationEngine (observation_engine.cpp) leaves, and what holds of the source
-- between two calls.
use mowglimavros.Prelude.{
  ℕ, Bool, true, false, ◌≡◌, ◌≢◌, arith, sym, ◌∙◌, ◌⊎◌, Bool-cases, inl, inr, refl,
}
use mowglimavros.Prelude.Int.{ℤ}
use mowglimavros.Prelude.Double.{Double}
use mowglimavros.Wheel.Data.{WheelSource, no_source, wheel_distance, esc_status, ardupilot_legacy}
use mowglimavros.Wheel.Core as Core
use mowglimavros.Wheel.Ticks.{same_source}
use mowglimavros.Engine.Data.{ObservationEngine}
use mowglimavros.Engine.Config.{allows, wheel_configured, fresh, common_mapping}
use mowglimavros.Engine.Select.{
  wanted, switch, select_for, common_available, distance_available, legacy_available,
}

module _ (D : Double) where
  open D use {F}

  -- The source is the first of the allowed and available ones, in the order of the sources.
  pub record Chosen (now : ℤ) (s : ObservationEngine F) : Type 0 where
    pub live : s.active ≢ no_source → (s.connected ≡ true) × (wheel_configured D s ≡ true)
    pub by_distance :
        s.active ≡ wheel_distance
        → (allows D wheel_distance s ≡ true) × (distance_available D now s ≡ true)
    pub by_common :
        s.active ≡ esc_status
        → (allows D esc_status s ≡ true)
          × (common_available D now s ≡ true)
          × ((allows D wheel_distance s ≡ false) ⊎ (distance_available D now s ≡ false))
    pub by_legacy :
        s.active ≡ ardupilot_legacy
        → (allows D ardupilot_legacy s ≡ true)
          × (legacy_available D now s ≡ true)
          × ((allows D wheel_distance s ≡ false) ⊎ (distance_available D now s ≡ false))
          × ((allows D esc_status s ≡ false) ⊎ (common_available D now s ≡ false))
    pub by_none :
        s.active ≡ no_source
        → s.connected ≡ true
        → wheel_configured D s ≡ true
        → ((allows D wheel_distance s ≡ false) ⊎ (distance_available D now s ≡ false))
          × ((allows D esc_status s ≡ false) ⊎ (common_available D now s ≡ false))
          × ((allows D ardupilot_legacy s ≡ false) ⊎ (legacy_available D now s ≡ false))

  wanted-Chosen : (now : ℤ) (s : ObservationEngine F) → wanted D now s ≡ s.active → Chosen now s
  unfolding wanted
  wanted-Chosen now s e = ground arith

  wanted-switch :
      (now : ℤ) (b : Bool) (l r : ℕ) (next : WheelSource) (s : ObservationEngine F)
      → wanted D now (switch D b l r next s) ≡ wanted D now s
  unfolding wanted switch common_available wheel_configured fresh common_mapping Core.valid
      Core.reset
  wanted-switch now b l r next s = elim (Bool-cases (same_source next s.active)) [
    | inl e ↦ rw e refl
    | inr e ↦ rw e refl
  ]

  active-switch :
      (b : Bool) (l r : ℕ) (next : WheelSource) (s : ObservationEngine F)
      → (switch D b l r next s).active ≡ next
  unfolding switch
  active-switch b l r next s = ground arith

  pub select_for-Chosen :
      (now : ℤ) (b : Bool) (l r : ℕ) (s : ObservationEngine F)
      → Chosen now (select_for D now b l r s)
  unfolding select_for
  select_for-Chosen now b l r s =
      wanted-Chosen now (switch D b l r (wanted D now s) s)
        (wanted-switch now b l r (wanted D now s) s ∙ sym (active-switch b l r (wanted D now s) s))
