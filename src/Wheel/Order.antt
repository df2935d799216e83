-- ===== src/Wheel/Order.antt =====
-- The order of the observations of WheelOdometryCore (wheel_odometry_core.cpp) and the segments of
-- MotorTickIntegrator (motor_tick_integrator.cpp).
use mowglimavros.Prelude.{
  true, false, ◌≡◌, none, some, List, [], ◌∷◌, arith, Option-cases, inc64, inl, subst, sym, inr,
}
use mowglimavros.Prelude.Int.{ℤ, ◌≤ℤ◌, ◌<ℤ◌}
use mowglimavros.Prelude.Double.{Double}
use mowglimavros.Wheel.Data.{WheelMotionObservation, WheelObservation}
use mowglimavros.Wheel.Core.{WheelOdometryCore, receive_motion}
use mowglimavros.Wheel.Integrator.{Wheel, observe_wheel, contiguous, integrated}

module _ (D : Double) where
  open D use {F, is_finite, of_int, lt}

  -- The observations of a list of motions, oldest first.
  pub observations :
      List (WheelMotionObservation F) → WheelOdometryCore F → List (WheelObservation F)
  observations [] s = []
  observations (m ∷ ms) s = elim (receive_motion D m s).1 [
    | none ↦ observations ms (receive_motion D m s).0
    | some o ↦ o ∷ observations ms (receive_motion D m s).0
  ]

  -- Later samples than `sample`, and receipts not before `receipt`, all along; every value is finite.
  abbrev pub Ordered : ℤ → ℤ → List (WheelObservation F) → Type 0
  Ordered sample receipt [] = Unit {0}
  Ordered sample receipt (o ∷ os) =
      (sample <ℤ o.sample_stamp_ns)
      × (receipt ≤ℤ o.receipt_stamp_ns)
      × (is_finite o.linear_x_mps ≡ true)
      × (is_finite o.angular_z_rps ≡ true)
      × Ordered o.sample_stamp_ns o.receipt_stamp_ns os

  receive_none :
      (m : WheelMotionObservation F) (s : WheelOdometryCore F)
      → (receive_motion D m s).1 ≡ none
      → (receive_motion D m s).0 ≡ s
  unfolding receive_motion
  receive_none m s e = ground arith

  receive_some :
      (m : WheelMotionObservation F) (s : WheelOdometryCore F) (o : WheelObservation F)
      → (receive_motion D m s).1 ≡ some o
      → (s.last_sample_ns <ℤ o.sample_stamp_ns)
        × (s.last_receipt_ns ≤ℤ o.receipt_stamp_ns)
        × (is_finite o.linear_x_mps ≡ true)
        × (is_finite o.angular_z_rps ≡ true)
        × ((receive_motion D m s).0.last_sample_ns ≡ o.sample_stamp_ns)
        × ((receive_motion D m s).0.last_receipt_ns ≡ o.receipt_stamp_ns)
  unfolding receive_motion
  receive_some m s o e = ground arith

  tail :
      (ms : List (WheelMotionObservation F)) (t : WheelOdometryCore F) {a b : ℤ}
      → t.last_sample_ns ≡ a
      → t.last_receipt_ns ≡ b
      → Ordered t.last_sample_ns t.last_receipt_ns (observations ms t)
      → Ordered a b (observations ms t)
  tail ms t {a} {b} p q h =
      subst (λ x. Ordered x b (observations ms t)) p
        (subst (λ y. Ordered t.last_sample_ns y (observations ms t)) q h)

  -- Whatever motions arrive, the observations that come out have strictly later samples, receipts
  -- that do not go back, and finite velocities.
  pub observations-Ordered :
      (ms : List (WheelMotionObservation F)) (s : WheelOdometryCore F)
      → Ordered s.last_sample_ns s.last_receipt_ns (observations ms s)
  unfolding observations
  observations-Ordered [] s = tt
  observations-Ordered (m ∷ ms) s = elim (Option-cases (receive_motion D m s).1) [
    | inl e ↦
        let t = (receive_motion D m s).0 in
        rw (e, observations)
          (subst (λ t. Ordered s.last_sample_ns s.last_receipt_ns (observations ms t))
            (sym (receive_none m s e)) (observations-Ordered ms s))
    | inr (o, e) ↦
        let q = receive_some m s o e in
        rw (e, observations)
          (
            q.0,
            q.1,
            q.2,
            q.3,
            tail ms (receive_motion D m s).0 q.4 q.5
                (observations-Ordered ms (receive_motion D m s).0),
          )
  ]

  -- A report is integrated only into an unbroken series: one that follows within the time-out adds
  -- the mean speed over the interval and stays in its segment, any other taken one leaves the sum and
  -- starts a new segment; a refused one changes nothing.
  pub observe_segments :
      (timeout sample receipt : ℤ) (rpm : F) (w : Wheel F)
      → let (t, taken) = observe_wheel D timeout rpm sample receipt w in
        (taken ≡ false → t ≡ w)
        × (taken ≡ true
            → (t.valid ≡ true)
              × (t.sample_ns ≡ sample)
              × (t.receipt_ns ≡ receipt)
              × (is_finite t.ticks ≡ true)
              × (w.valid ≡ true → (w.sample_ns <ℤ sample) × (w.receipt_ns ≤ℤ receipt))
              × (contiguous D timeout sample receipt w ≡ true
                  → (t.ticks ≡ integrated D rpm sample w) × (t.segment ≡ w.segment))
              × (contiguous D timeout sample receipt w ≡ false
                  → (t.ticks ≡ w.ticks) × (t.segment ≡ inc64 w.segment)))
  unfolding observe_wheel
  observe_segments timeout sample receipt rpm w = (λ e. ground arith, λ e. ground arith)
