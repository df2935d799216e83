-- ===== src/Readiness/Freshness.antt =====
-- What readiness rests on, over all histories of the calls of ReadinessState (readiness_state.cpp).
use Prim.Native.String.{String}
use text.Mathlib.TextEquality.{eq_iff}
use mowglimavros.Prelude.{
  ℕ, Bool, true, false, ◌≡◌, ◌≢◌, ◌↔◌, refl, Option, none, some, List, [], ◌∷◌, arith, ◌≤◌, ◌<◌,
}
use mowglimavros.Prelude.Int.{ℤ, pos, ◌-ℤ◌, ◌≤ℤ◌, ◌<ℤ◌}
use mowglimavros.Readiness.{
  ReadinessState, connection, imu, wheel, traction, adopt, accept_gnss, gnss, fresh, project,
}

pub data Call : Type 0 where
  connects : Bool → Call
  imus : ℤ → Call
  wheels : ℤ → Call
  tractions : ℤ → Bool → Call
  fixes : ℤ → ℕ → String → Bool → Call

unfoldable pub step : Call → ReadinessState → ReadinessState
step (connects b) s = connection b s
step (imus r) s = imu r s
step (wheels r) s = wheel r s
step (tractions r v) s = traction r v s
step (fixes r n i v) s = gnss r n i v s

unfoldable pub run : List Call → ReadinessState → ReadinessState
run [] s = s
run (c ∷ cs) s = run cs (step c s)

abbrev Positive : Option ℤ → Type 0
Positive none = Unit {0}
Positive (some r) = pos 0 <ℤ r

-- Stamps are positive and belong to the present connection; a valid fix has a stamp or an adopted
-- incarnation.
pub record Inv (s : ReadinessState) : Type 0 where
  pub imu_seen : Positive s.imu_stamp
  pub gnss_seen : Positive s.gnss_stamp
  pub wheel_seen : Positive s.wheel_stamp
  pub traction_seen : Positive s.traction_stamp
  pub link :
      s.connected ≡ false
      → (s.imu_stamp ≡ none)
        × (s.gnss_stamp ≡ none)
        × (s.wheel_stamp ≡ none)
        × (s.traction_stamp ≡ none)
        × (s.gnss_valid ≡ false)
        × (s.traction_valid ≡ false)
  pub counted : (r : ℤ) → s.gnss_stamp ≡ some r → 0 < s.gnss_sequence

gnss-Inv :
    (r : ℤ) (n : ℕ) (i : String) (v : Bool) (s : ReadinessState) → Inv s → Inv (gnss r n i v s)
unfolding gnss adopt accept_gnss
gnss-Inv r n i v s h = ground arith

step-Inv : (c : Call) (s : ReadinessState) → Inv s → Inv (step c s)
unfolding step connection imu wheel traction
step-Inv (connects b) s h = ground arith
step-Inv (imus r) s h = ground arith
step-Inv (wheels r) s h = ground arith
step-Inv (tractions r v) s h = ground arith
step-Inv (fixes r n i v) s h = gnss-Inv r n i v s h

pub run-Inv : (cs : List Call) (s : ReadinessState) → Inv s → Inv (run cs s)
unfolding run
run-Inv [] s h = h
run-Inv (c ∷ cs) s h = run-Inv cs (step c s) (step-Inv c s h)

-- Received at or before `now`, and not more than the time-out ago.
abbrev pub Within : ℤ → ℤ → Option ℤ → Type 0
Within timeout now none = ⊥
Within timeout now (some r) = (r ≤ℤ now) × (now -ℤ r ≤ℤ timeout)

fresh-Within : (t now : ℤ) (o : Option ℤ) → fresh t o now ≡ true → Within t now o
fresh-Within t now none h = cc
fresh-Within t now (some r) h = ground arith

Within-fresh : (t now : ℤ) (o : Option ℤ) → Within t now o → fresh t o now ≡ true
Within-fresh t now none h = absurd h
Within-fresh t now (some r) h = ground arith

-- `ready` holds exactly while connected, with IMU and valid traction telemetry within the time-out,
-- and with a valid fix and wheel odometry within it where these are required.
pub project_ready :
    (now : ℤ) (s : ReadinessState)
    → (project now s).ready ≡ true ↔ (
        (s.connected ≡ true)
        × Within s.timeout_ns now s.imu_stamp
        × Within s.timeout_ns now s.traction_stamp
        × (s.traction_valid ≡ true)
        × (s.gnss_required ≡ true → Within s.timeout_ns now s.gnss_stamp × (s.gnss_valid ≡ true))
        × (s.wheel_odometry_required ≡ true → Within s.timeout_ns now s.wheel_stamp))
unfolding project
project_ready now s = (
  λ h. (
    ground arith,
    fresh-Within _ _ _ (ground arith),
    fresh-Within _ _ _ (ground arith),
    ground arith,
    λ g. (fresh-Within _ _ _ (ground arith), ground arith),
    λ w. fresh-Within _ _ _ (ground arith),
  ),
  λ h.
      let fresh_if = λ (o : Option ℤ). Within-fresh s.timeout_ns now o in
      ground (
        arith,
        fresh_if s.imu_stamp h.1,
        fresh_if s.traction_stamp h.2,
        fresh_if s.gnss_stamp,
        fresh_if s.wheel_stamp,
      ),
)

-- No call of the list reports an IMU message.
abbrev pub Unreported : List Call → Type 0
Unreported [] = Unit {0}
Unreported (c ∷ cs) = ((r : ℤ) → c ≢ imus r) × Unreported cs

imu_stamp-step :
    (c : Call) (s : ReadinessState)
    → ((r : ℤ) → c ≢ imus r)
    → s.imu_stamp ≡ none
    → (step c s).imu_stamp ≡ none
unfolding step connection wheel traction gnss adopt accept_gnss
imu_stamp-step (imus r) s n e = absurd (n r refl)
imu_stamp-step c s n e = ground arith

imu_stamp-run :
    (cs : List Call) (s : ReadinessState)
    → Unreported cs
    → s.imu_stamp ≡ none
    → (run cs s).imu_stamp ≡ none
unfolding run
imu_stamp-run [] s n e = e
imu_stamp-run (c ∷ cs) s n e = imu_stamp-run cs (step c s) n.1 (imu_stamp-step c s n.0 e)

-- A change of the connection withdraws readiness: whatever else is reported or reconnects, it does
-- not come back before an IMU message does.
pub connection_unready :
    (cs : List Call) (b : Bool) (now : ℤ) (s : ReadinessState)
    → b ≢ s.connected
    → Unreported cs
    → (project now (run cs (connection b s))).ready ≡ false
unfolding project connection
connection_unready cs b now s n u = ground (arith, imu_stamp-run cs (connection b s) u)

-- A fix with a sequence number already seen from the same incarnation changes nothing while the
-- last fix is within the time-out; once that has expired, it is taken as a restarted source.
pub gnss_replayed :
    (r later : ℤ) (n : ℕ) (v : Bool) (s : ReadinessState)
    → s.gnss_stamp ≡ some r
    → n ≤ s.gnss_sequence
    → (later -ℤ r ≤ℤ s.timeout_ns → gnss later n s.gnss_incarnation v s ≡ s)
      × (s.timeout_ns <ℤ later -ℤ r
          → s.connected ≡ true
          → pos 0 <ℤ later
          → 0 < n
          → s.gnss_incarnation ≢ ""
          → ((gnss later n s.gnss_incarnation v s).gnss_stamp ≡ some later)
            × ((gnss later n s.gnss_incarnation v s).gnss_sequence ≡ n))
unfolding gnss adopt accept_gnss
gnss_replayed r later n v s e le =
    let self = eq_iff s.gnss_incarnation s.gnss_incarnation in
    let named = eq_iff s.gnss_incarnation "" in
    (λ y. ground (arith, self), λ o c p q i. ground (arith, self, named))

-- Without a live connection no observation counts.
pub step_disconnected :
    (c : Call) (s : ReadinessState) → s.connected ≡ false → c ≢ connects true → step c s ≡ s
unfolding step connection imu wheel traction gnss
step_disconnected c s d n = ground arith
