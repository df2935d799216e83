-- ===== src/Engine/Speeds.antt =====
-- The observations that ObservationEngine (observation_engine.cpp) makes from encoder distances.
use mowglimavros.Prelude.{
  ℕ, ◌*◌, ◌<◌, ◌≤◌, ◌/◌, leb, ap, Bool, true, false, not, ◌&&◌, ◌||◌, ◌≡◌, arith, refl, if_cases,
  if_both, Bool-cases, inl, inr, subst, ltb, ◌-◌, Option, some, none, ◌==◌, if◌then◌else◌,
}
use mowglimavros.Prelude.Int.{ℤ, pos, pos_part, ltb_ℤ}
use mowglimavros.Prelude.Double.{Double}
use mowglimavros.Wheel.Data.{WheelObservation, WheelMotionObservation}
use mowglimavros.Wheel.Core as Core
use mowglimavros.Engine.Data.{ObservationEngine, DistancePacket, Distance}
use mowglimavros.Engine.Config.{fresh, is_other, micro}
use mowglimavros.Engine.State.{receive_clock, reset_distance}
use mowglimavros.Engine.Select.{select}
use mowglimavros.Engine.Common.{receive_if}
use mowglimavros.Engine.Distance.{
  wheel_distance, distance_owned, take_distance, from_baseline, publish_distance, next_distance,
  too_fast, speed, good,
}
use mowglimavros.Engine.Measured.{
  Observed, Alike, Follows, reset_distance-Follows, receive_clock-Follows, same-Follows,
  trans-Alike, select-Alike, select-baseline, silent, follow-Measured,
}

first_false : (a b : Bool) → (a || b) ≡ false → a ≡ false
first_false a b e = ground arith

second_false : (a b : Bool) → (a || b) ≡ false → b ≡ false
second_false a b e = ground arith

module _ (D : Double) where
  open D use {F, of_int, is_finite, lt, plus, minus, times, over, magnitude}

  slow :
      (v : F) (s : ObservationEngine F)
      → too_fast D v s ≡ false
      → (is_finite v ≡ true) × (lt s.config.max_distance_speed_mps (magnitude v) ≡ false)
  unfolding too_fast
  slow v s e = (ground arith, ground arith)

  -- The observation of two speeds that are within the limit.
  receive_motion-Observed :
      (b : Distance F) (p : DistancePacket F) (now : ℤ) (s : ObservationEngine F)
      (m : WheelMotionObservation F)
      → b.time_us < p.time_us
      → p.time_us - b.time_us ≤ pos_part s.config.timeout_ns / 1000
      → m.left_mps
        ≡ over
            (minus (p.distance (pos_part s.config.left_wheel_index)) b.left)
            (times (of_int (pos (p.time_us - b.time_us))) (micro D))
      → m.right_mps
        ≡ over
            (minus (p.distance (pos_part s.config.right_wheel_index)) b.right)
            (times (of_int (pos (p.time_us - b.time_us))) (micro D))
      → m.sample_stamp_ns ≡ pos (p.time_us * 1000)
      → m.receipt_stamp_ns ≡ now
      → too_fast D m.left_mps s ≡ false
      → too_fast D m.right_mps s ≡ false
      → Observed D (record s { distance_baseline = some b }) p now (receive_if D (some m) s)
  unfolding Core.receive_motion
  receive_motion-Observed b p now s m t k f g e r a c =
      let linear = over (plus m.left_mps m.right_mps) (of_int (pos 2)) in
      let angular = over (minus m.right_mps m.left_mps) s.core.geometry.track_width_m in
      let refuse = Core.refused D m s.core || not (is_finite linear) || not (is_finite angular) in
      elim (Bool-cases refuse) [
        | inl q ↦ rw q (silent D _)
        | inr q ↦ rw q (record {
          result = record {
            baseline = b;
            left = m.left_mps;
            right = m.right_mps;
            was_baseline = refl;
            earlier = t;
            recent = k;
            left_lem = record { quotient = f; finite = (slow m.left_mps s a).0 };
            right_lem = record { quotient = g; finite = (slow m.right_mps s c).0 };
            left_bounded = (slow m.left_mps s a).1;
            right_bounded = (slow m.right_mps s c).1;
            linear = refl;
            angular = refl;
            sample = e;
            receipt = r;
          };
        })
      ]

  publish_distance-Observed :
      (b : Distance F) (p : DistancePacket F) (now : ℤ) (s : ObservationEngine F)
      → Observed D
          (record s { distance_baseline = some b })
          p
          now
          (publish_distance D b (next_distance D p now s) now s)
  unfolding publish_distance speed
  publish_distance-Observed b p now s =
      let next = next_distance D p now s in
      let P = Observed D (record s { distance_baseline = some b }) p now in
      let dt = p.time_us - b.time_us in
      let left = speed D b.left next.left dt in
      let right = speed D b.right next.right dt in
      let refuse =
        leb p.time_us b.time_us
        || ltb_ℤ now b.receipt_ns
        || ltb (pos_part s.config.timeout_ns / 1000) dt in
      if_cases P refuse (λ e. silent D s)
        (λ e.
          if_cases P (too_fast D left s || too_fast D right s) (λ k. silent D _)
            (λ k.
              receive_motion-Observed b p now s _ (ground arith) (ground arith) refl refl refl refl
                (first_false (too_fast D left s) _ k) (second_false (too_fast D left s) _ k)))

  earlier-Observed :
      {s t : ObservationEngine F} {p : DistancePacket F} {now : ℤ}
      (r : ObservationEngine F × Option (WheelObservation F)) (b : Distance F)
      → Alike D s t
      → (b.time_us < p.time_us → s.distance_baseline ≡ some b)
      → Observed D (record t { distance_baseline = some b }) p now r
      → Observed D s p now r
  earlier-Observed (u, none) b a h o = silent D u
  earlier-Observed (u, some w) b a h o =
      follow-Measured D (u, some w)
        (record {
          alike = record { config = a.config; geometry = a.geometry };
          baseline = λ c e. ground (arith, h, o.result.earlier, o.result.was_baseline);
        })
        o

  next_same :
      (p : DistancePacket F) (now : ℤ) (s t : ObservationEngine F)
      → Alike D s t
      → next_distance D p now t ≡ next_distance D p now s
  next_same p now s t a = rw a.config refl

  kept_only :
      (k : Bool) (b : Option (Distance F)) (d : Distance F)
      → (if k then b else none) ≡ some d
      → b ≡ some d
  kept_only k b d e = ground arith

  not_earlier :
      (b : Option (Distance F)) (d : Distance F) (n : ℕ)
      → n ≡ d.time_us
      → d.time_us < n
      → b ≡ some d
  not_earlier b d n e l = ground arith

  -- Only an earlier baseline is measured from.
  from_baseline-Observed :
      (b : Option (Distance F)) (p : DistancePacket F) (now : ℤ) (s t : ObservationEngine F)
      → Alike D s t
      → ((c : Distance F) → b ≡ some c → c.time_us < p.time_us → s.distance_baseline ≡ some c)
      → Observed D s p now (from_baseline D b (next_distance D p now t) now t)
  from_baseline-Observed none p now s t a h = silent D _
  from_baseline-Observed (some b) p now s t a h =
      let next = next_distance D p now t in
      let r = publish_distance D b next now (record t { distance_baseline = some next }) in
      earlier-Observed r b a (h b refl)
        (publish_distance-Observed b p now (record t { distance_baseline = some next }))

  take_distance-Observed :
      (p : DistancePacket F) (now : ℤ) (s : ObservationEngine F)
      → Observed D s p now (take_distance D p now s)
  unfolding take_distance
  take_distance-Observed p now s =
      let P = Observed D s p now in
      let next = next_distance D p now s in
      let older = s.distance.valid && ltb p.time_us s.distance.time_us in
      let a = if older then reset_distance D s else s in
      let kept = fresh D a.distance.receipt_ns now a in
      let c = record a {
        distance_baseline = if kept then a.distance_baseline else none;
        distance = next;
        distance_component = some p.component_id;
      } in
      let b = select D now c in
      let f : Follows D s a =
        if_both (Follows D s) older (reset_distance-Follows D s) (same-Follows D s) in
      let g : Alike D s b =
        trans-Alike D (record { config = f.alike.config; geometry = f.alike.geometry })
          (select-Alike D now c) in
      if_both P _ (silent D b) (
        subst (λ x. P (from_baseline D b.distance_baseline x now b)) (next_same p now s b g)
          (from_baseline-Observed b.distance_baseline p now s b g (λ d e l.
            elim (select-baseline D now c d e) [
              | inl q ↦ f.baseline d (kept_only kept a.distance_baseline d q)
              | inr q ↦ not_earlier s.distance_baseline d p.time_us (ap (λ x. x.time_us) q) l
            ])))

  distance_owned-Observed :
      (p : DistancePacket F) (now : ℤ) (s : ObservationEngine F)
      → Observed D s p now (distance_owned D p now s)
  unfolding distance_owned
  distance_owned-Observed p now s =
      let P = Observed D s p now in
      if_both P (not (good D p s)) (silent D _) (
        if_both P (s.distance.valid && p.time_us == s.distance.time_us) (silent D _)
          (take_distance-Observed p now s))

  -- An observation that is published for a report of encoder distances is made of the speeds of the
  -- two wheels: each is the way from the baseline that the engine held to the reported distance of
  -- the configured wheel, over the time between them, where the baseline is earlier than the report
  -- by at most the time-out. Both speeds are finite and within the limit. What is published is their
  -- mean and their difference over the track width, with the time of the report as the time of
  -- sampling and with the time of its receipt.
  pub wheel_distance-Observed :
      (p : DistancePacket F) (now : ℤ) (s : ObservationEngine F)
      → Observed D s p now (wheel_distance D p now s)
  unfolding wheel_distance
  wheel_distance-Observed p now s =
      let P = Observed D s p now in
      let t = receive_clock D now s in
      let other = is_other t.distance_component p.component_id in
      let u = if other then reset_distance D t else t in
      if_both P _ (silent D s) (
        if_both P _ (silent D t) (
          follow-Measured D (distance_owned D p now u) (receive_clock-Follows D now s) (
            follow-Measured D (distance_owned D p now u)
              (if_both (Follows D t) other (reset_distance-Follows D t) (same-Follows D t))
              (distance_owned-Observed p now u))))
