-- ===== src/Power/Charger.antt =====
-- The charger's presence in PowerState (power_state.hpp).
use mowglimavros.Prelude.{Bool, true, false, ◌≡◌, ◌⊎◌, refl, Option, some, List, [], ◌∷◌, arith}
use mowglimavros.Prelude.Int.{ℤ}
use mowglimavros.Prelude.Double.{Double}
use mowglimavros.Power.{
  BatterySample, PowerState, observe_dock, fresh, hysteresis, presence, project, or_nan, voltage_of,
}

module _ (D : Double) where
  open D use {F, nan, is_finite, lt}

  presence_on :
      (f : Bool) (v : Option F) (s : PowerState F)
      → presence D f v s ≡ true
      → (f ≡ true)
        × (is_finite (or_nan D v) ≡ true)
        × (((s.charger_present ≡ false) × (lt s.charger_on_voltage (or_nan D v) ≡ true))
            ⊎ ((s.charger_present ≡ true) × (lt (or_nan D v) s.charger_off_voltage ≡ false)))
  unfolding presence hysteresis
  presence_on f v s h = ground arith

  -- A charger is reported only if the dock has a fresh and finite voltage that is above the upper
  -- threshold, or not below the lower one with a charger reported before; the report is the memory
  -- of the next one.
  pub project_charger :
      (now : ℤ) (s : PowerState F)
      → ((project D now s).0.charger_present ≡ (project D now s).1.charger_enabled)
        × ((project D now s).1.charger_enabled ≡ true
            → ((project D now s).1.dock_fresh ≡ true)
              × (is_finite (project D now s).1.v_charge ≡ true)
              × (((s.charger_present ≡ false)
                    × (lt s.charger_on_voltage (project D now s).1.v_charge ≡ true))
                  ⊎ ((s.charger_present ≡ true)
                      × (lt (project D now s).1.v_charge s.charger_off_voltage ≡ false))))
  unfolding project
  project_charger now s = (
    refl,
    λ h.
        let f = fresh D s.stale_after_ns s.dock now in
        ground (arith, presence_on f (voltage_of D s.dock) s h),
  )

  -- The states after each of a list of dock samples is observed and projected at its time.
  pub watch : List (ℤ × BatterySample F) → PowerState F → PowerState F
  watch [] s = s
  watch ((now, m) ∷ ms) s = watch ms (project D now (observe_dock D m s)).0

  -- A fresh sample with a finite voltage between the thresholds.
  abbrev pub InBand : F → F → ℤ → List (ℤ × BatterySample F) → Type 0
  InBand low high stale [] = Unit {0}
  InBand low high stale ((now, m) ∷ ms) =
      ((v : F) × (m.voltage ≡ some v)
        × (is_finite v ≡ true)
        × (lt v low ≡ false)
        × (lt high v ≡ false)
        × (fresh D stale (some m) now ≡ true))
      × InBand low high stale ms

  step_band :
      (now : ℤ) (m : BatterySample F) (s : PowerState F) (v : F)
      → m.voltage ≡ some v
      → is_finite v ≡ true
      → lt v s.charger_off_voltage ≡ false
      → lt s.charger_on_voltage v ≡ false
      → fresh D s.stale_after_ns (some m) now ≡ true
      → (project D now (observe_dock D m s)).0
        ≡ record s { dock = some m; charger_present = s.charger_present }
  unfolding project observe_dock presence hysteresis
  step_band now m s v e f l h r = ground arith

  -- Within the band the report does not chatter: over any fresh samples between the thresholds it
  -- stays what it was.
  pub watch_band :
      (ms : List (ℤ × BatterySample F)) (s : PowerState F)
      → InBand s.charger_off_voltage s.charger_on_voltage s.stale_after_ns ms
      → (watch ms s).charger_present ≡ s.charger_present
  unfolding watch
  watch_band [] s h = refl
  watch_band ((now, m) ∷ ms) s ((v, e, f, l, u, r), h) =
      rw (step_band now m s v e f l u r, watch) (watch_band ms (record s { dock = some m }) h)

  -- A charger that was present is not carried over missing or stale telemetry: after a projection
  -- without a fresh dock sample the next report needs a voltage above the upper threshold.
  pub project_stale :
      (now later : ℤ) (m : BatterySample F) (s : PowerState F)
      → fresh D s.stale_after_ns s.dock now ≡ false
      → let t = observe_dock D m (project D now s).0 in
        (project D later t).1.charger_enabled ≡ true
        → lt s.charger_on_voltage (project D later t).1.v_charge ≡ true
  unfolding project observe_dock presence hysteresis
  project_stale now later m s f h = ground arith
