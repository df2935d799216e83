-- ===== src/Esc/Validity.antt =====
-- Which fields of an ESC are valid (esc_telemetry_tracker.hpp).
use mowglimavros.Prelude.{ℕ, true, false, ◌≡◌, ◌≢◌, ◌⊎◌, List, [], ◌∷◌, arith}
use mowglimavros.Prelude.Int.{ℤ, pos, ◌-ℤ◌, ◌≤ℤ◌, ◌<ℤ◌}
use mowglimavros.Prelude.Double.{Double}
use mowglimavros.Esc.{
  Time, EscObservation, EscState, EscTelemetryTracker, ns, fresh, empty, create, reset, ignored,
  absorb, observe, judge, project, millis,
}

module _ (D : Double) where
  open D use {F, is_finite}

  -- What a history of observations leaves in a slot: a valid voltage, current, temperature or total
  -- is a finite number, and the stamps are not negative.
  pub record Sound (e : EscState F) : Type 0 where
    pub voltage : e.sample.voltage_valid ≡ true → is_finite e.sample.voltage ≡ true
    pub current : e.sample.current_valid ≡ true → is_finite e.sample.current ≡ true
    pub temperature : e.sample.temperature_valid ≡ true → is_finite e.sample.temperature ≡ true
    pub totalcurrent : e.sample.totalcurrent_valid ≡ true → is_finite e.sample.totalcurrent ≡ true
    pub updated : pos 0 ≤ℤ e.last_update_ns
    pub noted : pos 0 ≤ℤ e.metadata_ns

  -- The calls that change the tracker.
  pub data Call : Type 0 where
    observes : EscObservation F → ℤ → Call
    resets : Call

  unfoldable pub run : List Call → EscTelemetryTracker F → EscTelemetryTracker F
  run [] s = s
  run (observes o now ∷ cs) s = run cs (observe D o now s)
  run (resets ∷ cs) s = run cs (reset D s)

  empty-Sound : Sound (empty D)
  unfolding empty
  empty-Sound = ground arith

  ns_nonneg : (t : Time) → pos 0 ≤ℤ ns t
  unfolding ns
  ns_nonneg t = ground arith

  absorb-Sound : (o : EscObservation F) (e : EscState F) → Sound (absorb D o e)
  unfolding absorb
  absorb-Sound o e = ground (arith, ns_nonneg o.stamp, ns_nonneg o.metadata_stamp)

  observe-Sound :
      (o : EscObservation F) (now : ℤ) (s : EscTelemetryTracker F)
      → ((i : ℕ) → Sound (s.states i))
      → (i : ℕ) → Sound ((observe D o now s).states i)
  unfolding observe
  observe-Sound o now s h i = ground (arith, h i, absorb-Sound o (s.states o.esc_index))

  run-Sound :
      (cs : List Call) (s : EscTelemetryTracker F)
      → ((i : ℕ) → Sound (s.states i))
      → (i : ℕ) → Sound ((run cs s).states i)
  unfolding run
  run-Sound [] s h i = h i
  run-Sound (observes o now ∷ cs) s h i =
      run-Sound cs (observe D o now s) (observe-Sound o now s h) i
  run-Sound (resets ∷ cs) s h i = run-Sound cs (reset D s) (λ j. unfold reset in empty-Sound) i

  judge-Sound : (t now : ℤ) (e : EscState F) → Sound e → Sound (judge D t now e)
  unfolding judge
  judge-Sound t now e h = ground arith

  -- After any observations and resets, a projected voltage, current, temperature or total current
  -- that is marked valid is a finite number.
  pub project-Sound :
      (cs : List Call) (timeout now : ℤ) (i : ℕ)
      → Sound (project D i now (run cs (create D timeout)))
  unfolding project create
  project-Sound cs timeout now i =
      let s : EscTelemetryTracker F = record { timeout_ns = timeout; states = λ j. empty D } in
      let h =
        judge-Sound (run cs s).timeout_ns now ((run cs s).states i)
          (run-Sound cs s (λ j. empty-Sound) i) in
      ground (arith, h, empty-Sound)

  millis_nonneg : (a b : ℤ) → b ≤ℤ a → pos 0 ≤ℤ millis (a -ℤ b)
  unfolding ◌-ℤ◌
  millis_nonneg a b h = ground arith

  judge_online :
      (t now : ℤ) (e : EscState F)
      → (judge D t now e).online ≡ true
      → (pos 0 <ℤ e.last_update_ns)
        × (e.last_update_ns ≤ℤ now)
        × (now -ℤ e.last_update_ns ≤ℤ t)
        × ((judge D t now e).age_ms ≡ millis (now -ℤ e.last_update_ns))
        × ((judge D t now e).stale ≡ false)
  unfolding judge fresh
  judge_online t now e h = ground arith

  judge_metadata :
      (t now : ℤ) (e : EscState F)
      → ((judge D t now e).sample.temperature_valid ≡ true)
        ⊎ ((judge D t now e).sample.failure_flags_valid ≡ true)
        ⊎ ((judge D t now e).sample.error_count_valid ≡ true)
      → (pos 0 <ℤ e.metadata_ns) × (e.metadata_ns ≤ℤ now) × (now -ℤ e.metadata_ns ≤ℤ t)
  unfolding judge fresh
  judge_metadata t now e h = ground arith

  -- A projected rpm, voltage, current, total current or count is valid only while the ESC is online,
  -- and a temperature, failure flags or an error count only while its metadata are not in the future
  -- and at most the time-out old. An ESC is online only while its last update is not in the future
  -- and at most the time-out old; its age is then not negative and it is not stale. One that was
  -- observed and is not online is stale.
  pub project_online :
      (i : ℕ) (now : ℤ) (s : EscTelemetryTracker F)
      → let e = project D i now s in
        ((e.sample.rpm_valid ≡ true)
            ⊎ (e.sample.voltage_valid ≡ true)
            ⊎ (e.sample.current_valid ≡ true)
            ⊎ (e.sample.totalcurrent_valid ≡ true)
            ⊎ (e.sample.count_valid ≡ true)
          → e.online ≡ true)
        × ((e.sample.temperature_valid ≡ true)
              ⊎ (e.sample.failure_flags_valid ≡ true)
              ⊎ (e.sample.error_count_valid ≡ true)
            → (pos 0 <ℤ e.metadata_ns)
              × (e.metadata_ns ≤ℤ now)
              × (now -ℤ e.metadata_ns ≤ℤ s.timeout_ns))
        × (e.online ≡ true
            → (pos 0 <ℤ e.last_update_ns)
              × (e.last_update_ns ≤ℤ now)
              × (now -ℤ e.last_update_ns ≤ℤ s.timeout_ns)
              × (pos 0 ≤ℤ e.age_ms)
              × (e.stale ≡ false))
        × (e.online ≡ false → e.observed ≡ true → e.stale ≡ true)
  unfolding project judge empty
  project_online i now s = (
    λ h. ground arith,
    λ h. ground (arith, judge_metadata s.timeout_ns now (s.states i)),
    λ h.
        let e = s.states i in
        ground (arith, judge_online s.timeout_ns now e, millis_nonneg now e.last_update_ns),
    λ a b. ground arith,
  )

  -- An observation reaches its own slot only.
  pub project_other :
      (o : EscObservation F) (at now : ℤ) (i : ℕ) (s : EscTelemetryTracker F)
      → i ≢ o.esc_index
      → project D i now (observe D o at s) ≡ project D i now s
  unfolding project observe
  project_other o at now i s n = ground arith

  -- An observation that is older than the last one from the same source, or from the future, changes
  -- nothing; so an ESC cannot be made fresh again by a replay.
  pub observe_replayed :
      (o : EscObservation F) (now : ℤ) (s : EscTelemetryTracker F)
      → (now <ℤ ns o.stamp)
        ⊎ (((s.states o.esc_index).sample.source ≡ o.source)
            × (pos 0 <ℤ ns o.stamp)
            × (ns o.stamp <ℤ (s.states o.esc_index).last_update_ns))
      → observe D o now s ≡ s
  unfolding observe ignored
  observe_replayed o now s h = ground arith
