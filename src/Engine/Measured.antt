-- ===== src/Engine/Measured.antt =====
-- What a report of encoder distances has to do with what ObservationEngine (observation_engine.cpp)
-- publishes for it.
use mowglimavros.Prelude.{
  ℕ, ◌*◌, ◌<◌, ◌≤◌, ◌/◌, ◌⊎◌, Bool, true, false, ◌≡◌, arith, refl, subst, ◌∙◌, ◌-◌, Option, some,
  none,
}
use mowglimavros.Prelude.Int.{ℤ, pos, pos_part}
use mowglimavros.Prelude.Double.{Double}
use mowglimavros.Wheel.Data.{WheelSource, WheelObservation}
use mowglimavros.Wheel.Core as Core
use mowglimavros.Engine.Data.{ObservationEngine, DistancePacket, Distance}
use mowglimavros.Engine.Config.{micro}
use mowglimavros.Engine.State.{receive_clock, reset, reset_common, reset_distance}
use mowglimavros.Engine.Select.{select, select_for, switch, wanted}

module _ (D : Double) where
  open D use {F, of_int, is_finite, lt, plus, minus, times, over, magnitude}

  -- The way of a wheel since the baseline over the time since the baseline, in seconds.
  pub record IsSpeed (from to : F) (since at : ℕ) (v : F) : Type 0 where
    pub quotient : v ≡ over (minus to from) (times (of_int (pos (at - since))) (micro D))
    pub finite : is_finite v ≡ true

  -- What is published for a report in a state.
  pub record Measured (s : ObservationEngine F) (p : DistancePacket F) (now : ℤ)
      (o : WheelObservation F) : Type 0 where
    pub baseline : Distance F
    pub left : F
    pub right : F
    pub was_baseline : s.distance_baseline ≡ some baseline
    pub earlier : baseline.time_us < p.time_us
    pub recent : p.time_us - baseline.time_us ≤ pos_part s.config.timeout_ns / 1000
    pub left_lem :
        IsSpeed baseline.left
          (p.distance (pos_part s.config.left_wheel_index))
          baseline.time_us
          p.time_us
          left
    pub right_lem :
        IsSpeed baseline.right
          (p.distance (pos_part s.config.right_wheel_index))
          baseline.time_us
          p.time_us
          right
    pub left_bounded : lt s.config.max_distance_speed_mps (magnitude left) ≡ false
    pub right_bounded : lt s.config.max_distance_speed_mps (magnitude right) ≡ false
    pub linear : o.linear_x_mps ≡ over (plus left right) (of_int (pos 2))
    pub angular : o.angular_z_rps ≡ over (minus right left) s.core.geometry.track_width_m
    pub sample : o.sample_stamp_ns ≡ pos (p.time_us * 1000)
    pub receipt : o.receipt_stamp_ns ≡ now

  abbrev pub AllMeasured :
      ObservationEngine F → DistancePacket F → ℤ → Option (WheelObservation F) → Type 0
  AllMeasured s p now none = Unit {0}
  AllMeasured s p now (some o) = Measured s p now o

  -- What a call publishes, if it does, is measured.
  pub record Observed (s : ObservationEngine F) (p : DistancePacket F) (now : ℤ)
      (r : ObservationEngine F × Option (WheelObservation F)) : Type 0 where
    pub result : AllMeasured s p now r.1

  -- The configuration is that of the other state.
  pub record Alike (s t : ObservationEngine F) : Type 0 where
    pub config : t.config ≡ s.config
    pub geometry : t.core.geometry ≡ s.core.geometry

  -- And a baseline, if there is one, is that of the other state.
  pub record Follows (s t : ObservationEngine F) : Type 0 where
    pub alike : Alike s t
    pub baseline : (b : Distance F) → t.distance_baseline ≡ some b → s.distance_baseline ≡ some b

  pub trans-Alike : {s t u : ObservationEngine F} → Alike s t → Alike t u → Alike s u
  trans-Alike f g = record { config = g.config ∙ f.config; geometry = g.geometry ∙ f.geometry }

  pub same-Follows : (s : ObservationEngine F) → Follows s s
  same-Follows s = record { alike = record { config = refl; geometry = refl }; baseline = λ b e. e }

  pub reset_distance-Follows : (s : ObservationEngine F) → Follows s (reset_distance D s)
  unfolding reset_distance Core.reset
  reset_distance-Follows s = ground arith

  pub receive_clock-Follows :
      (now : ℤ) (s : ObservationEngine F) → Follows s (receive_clock D now s)
  unfolding receive_clock reset reset_common reset_distance Core.reset
  receive_clock-Follows now s = ground arith

  switch-Alike :
      (b : Bool) (l r : ℕ) (next : WheelSource) (s : ObservationEngine F)
      → Alike s (switch D b l r next s)
  unfolding switch Core.reset
  switch-Alike b l r next s = ground arith

  -- A source that is newly selected starts from the newest report.
  switch-baseline :
      (c : Bool) (l r : ℕ) (next : WheelSource) (s : ObservationEngine F) (b : Distance F)
      → (switch D c l r next s).distance_baseline ≡ some b
      → (s.distance_baseline ≡ some b) ⊎ (s.distance ≡ b)
  unfolding switch
  switch-baseline c l r next s b e = ground arith

  pub select-Alike : (now : ℤ) (s : ObservationEngine F) → Alike s (select D now s)
  unfolding select select_for
  select-Alike now s = switch-Alike false 0 0 (wanted D now s) s

  pub select-baseline :
      (now : ℤ) (s : ObservationEngine F) (b : Distance F)
      → (select D now s).distance_baseline ≡ some b
      → (s.distance_baseline ≡ some b) ⊎ (s.distance ≡ b)
  unfolding select select_for
  select-baseline now s = switch-baseline false 0 0 (wanted D now s) s

  pub silent :
      {s : ObservationEngine F} {p : DistancePacket F} {now : ℤ} (t : ObservationEngine F)
      → Observed s p now (t, none)
  silent t = record { result = tt }

  -- What is measured from a state is measured from the one it follows.
  pub follow-Measured :
      {s t : ObservationEngine F} {p : DistancePacket F} {now : ℤ}
      (r : ObservationEngine F × Option (WheelObservation F))
      → Follows s t
      → Observed t p now r
      → Observed s p now r
  follow-Measured (u, none) f o = silent u
  follow-Measured {p = p} (u, some w) f o =
      let m = o.result in
      let a = f.alike in
      let e = a.config in
      record {
        result = record {
          baseline = m.baseline;
          left = m.left;
          right = m.right;
          was_baseline = f.baseline m.baseline m.was_baseline;
          earlier = m.earlier;
          recent =
              subst (λ c. p.time_us - m.baseline.time_us ≤ pos_part c.timeout_ns / 1000) e m.recent;
          left_lem =
              subst
                (λ c.
                  IsSpeed m.baseline.left (p.distance (pos_part c.left_wheel_index))
                    m.baseline.time_us p.time_us m.left)
                e m.left_lem;
          right_lem =
              subst
                (λ c.
                  IsSpeed m.baseline.right (p.distance (pos_part c.right_wheel_index))
                    m.baseline.time_us p.time_us m.right)
                e m.right_lem;
          left_bounded =
              subst (λ c. lt c.max_distance_speed_mps (magnitude m.left) ≡ false) e m.left_bounded;
          right_bounded =
              subst (λ c. lt c.max_distance_speed_mps (magnitude m.right) ≡ false) e
                m.right_bounded;
          linear = m.linear;
          angular =
              subst (λ g. w.angular_z_rps ≡ over (minus m.right m.left) g.track_width_m) a.geometry
                m.angular;
          sample = m.sample;
          receipt = m.receipt;
        };
      }
