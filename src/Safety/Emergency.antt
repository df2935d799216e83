-- ===== src/Safety/Emergency.antt =====
-- The emergencies of SafetyState (safety_state.hpp) over all histories of its calls.
use mowglimavros.Prelude.{ℕ, Bool, true, false, ◌≡◌, ◌⊎◌, ◌↔◌, List, [], ◌∷◌, arith, ◌≢◌, refl}
use mowglimavros.Prelude.Int.{ℤ, pos, ◌≤ℤ◌}
use mowglimavros.Safety.{
  engaged, SafetyState, initial, observe_motor_outputs, observe_button_change,
  set_service_emergency, observe_tilt, clear_released_latches, disconnect, project,
}

pub data Call : Type 0 where
  motor_outputs : Bool → Bool → Call
  button_change : ℕ → ℤ → Call
  service_emergency : Bool → Call
  tilts : Bool → Call
  clears_latches : Call
  disconnects : Call

unfoldable pub step : Call → SafetyState → SafetyState
step (motor_outputs present enabled) s = observe_motor_outputs present enabled s
step (button_change state receipt_ns) s = observe_button_change state receipt_ns s
step (service_emergency active) s = set_service_emergency active s
step (tilts active) s = observe_tilt active s
step clears_latches s = clear_released_latches s
step disconnects s = disconnect s

unfoldable pub run : List Call → SafetyState → SafetyState
run [] s = s
run (c ∷ cs) s = run cs (step c s)

-- The latches follow their sources.
pub record Inv (s : SafetyState) : Type 0 where
  pub hardware : s.hardware_emergency_latched ≡ true ↔ s.hardware_safety_state ≡ engaged
  pub service : s.service_emergency_latched ≡ true → s.service_emergency_active ≡ true
  pub tilt_lem : s.tilt_active ≡ true → s.tilt_latched ≡ true
  pub grounded :
      (s.wheel_lift_state_valid ≡ false)
        ⊎ ((s.left_wheel_lifted ≡ false) × (s.right_wheel_lifted ≡ false))
      → s.lift_started_ns ≡ pos 0

step-Inv : (c : Call) (s : SafetyState) → Inv s → Inv (step c s)
unfolding step observe_motor_outputs observe_button_change set_service_emergency observe_tilt
    clear_released_latches disconnect
step-Inv (motor_outputs p e) s h = ground arith
step-Inv (button_change b r) s h = ground arith
step-Inv (service_emergency a) s h = ground arith
step-Inv (tilts a) s h = ground arith
step-Inv clears_latches s h = ground arith
step-Inv disconnects s h = ground arith

pub run-Inv : (cs : List Call) (s : SafetyState) → Inv s → Inv (run cs s)
unfolding run
run-Inv [] s h = h
run-Inv (c ∷ cs) s h = run-Inv cs (step c s) (step-Inv c s h)

pub initial-Inv : Inv initial
unfolding initial
initial-Inv = ground arith

-- An emergency is active exactly if the hardware switch is engaged, the service demands it, the
-- mower is tilted, or a valid report has both wheels lifted. A lift warning is given exactly if a
-- valid report has one wheel lifted and the other one not.
pub project_active :
    (now : ℤ) (s : SafetyState)
    → ((project now s).active_emergency ≡ true ↔ (
        (s.hardware_safety_state ≡ engaged)
        ⊎ (s.service_emergency_active ≡ true)
        ⊎ (s.tilt_active ≡ true)
        ⊎ ((s.wheel_lift_state_valid ≡ true)
            × (s.left_wheel_lifted ≡ true)
            × (s.right_wheel_lifted ≡ true))))
      × ((project now s).lift_warning ≡ true
          ↔ ((s.wheel_lift_state_valid ≡ true) × (s.left_wheel_lifted ≢ s.right_wheel_lifted)))
unfolding project
project_active now s =
    ((λ h. ground arith, λ h. ground arith), (λ h. ground arith, λ h. ground arith))

-- After any calls from the initial state: an active hardware or tilt emergency is latched too, and a
-- lift duration other than 0 means that a valid report has a wheel lifted and no later time before
-- its start.
pub run_latched :
    (cs : List Call) (now : ℤ)
    → let s = run cs initial in
      (((s.hardware_safety_state ≡ engaged) ⊎ (s.tilt_active ≡ true))
        → (project now s).latched_emergency ≡ true)
      × ((project now s).lift_duration_ns ≢ pos 0
          → (s.wheel_lift_state_valid ≡ true)
            × ((s.left_wheel_lifted ≡ true) ⊎ (s.right_wheel_lifted ≡ true))
            × (s.lift_started_ns ≤ℤ now))
unfolding project
run_latched cs now =
    let h = run-Inv cs initial initial-Inv in (λ e. ground arith, λ e. ground arith)

-- No call of the list releases the latches.
abbrev pub Unreleased : List Call → Type 0
Unreleased [] = Unit {0}
Unreleased (c ∷ cs) = (c ≢ clears_latches) × Unreleased cs

step_tilt_latched :
    (c : Call) (s : SafetyState)
    → c ≢ clears_latches
    → s.tilt_latched ≡ true
    → (step c s).tilt_latched ≡ true
unfolding step observe_motor_outputs observe_button_change set_service_emergency observe_tilt
    disconnect
step_tilt_latched c s n h = ground arith

run_tilt_latched :
    (cs : List Call) (s : SafetyState)
    → Unreleased cs
    → s.tilt_latched ≡ true
    → (run cs s).tilt_latched ≡ true
unfolding run
run_tilt_latched [] s n h = h
run_tilt_latched (c ∷ cs) s n h = run_tilt_latched cs (step c s) n.1 (step_tilt_latched c s n.0 h)

-- Once a tilt is observed, the published emergency stays latched over all calls, a disconnection and
-- a levelled mower among them, until the latches are released.
pub tilt_stays_latched :
    (cs : List Call) (now : ℤ) (s : SafetyState)
    → Unreleased cs
    → (project now (run cs (observe_tilt true s))).latched_emergency ≡ true
unfolding project observe_tilt
tilt_stays_latched cs now s n = ground (arith, run_tilt_latched cs (observe_tilt true s) n refl)

-- Even a release keeps the latch while the tilt lasts; with every source gone it clears all latches.
pub release_clears :
    (now : ℤ) (s : SafetyState)
    → Inv s
    → ((project now (clear_released_latches s)).latched_emergency ≡ true
        ↔ ((s.hardware_safety_state ≡ engaged) ⊎ (s.tilt_active ≡ true)))
unfolding project clear_released_latches
release_clears now s h = (λ e. ground arith, λ e. ground arith)

-- A change of one wheel while another is lifted keeps the start of the lift; the first wheel sets it
-- to the receipt, and the last one down clears it.
pub lift_clock :
    (b : ℕ) (at : ℤ) (s : SafetyState)
    → let t = observe_button_change b at s in
      let down =
        λ (r : SafetyState). (r.left_wheel_lifted ≡ false) × (r.right_wheel_lifted ≡ false) in
      (down t → t.lift_started_ns ≡ pos 0)
      × (¬ down t → (s.wheel_lift_state_valid ≡ false) ⊎ down s → t.lift_started_ns ≡ at)
      × (¬ down t
          → s.wheel_lift_state_valid ≡ true
          → ¬ down s
          → t.lift_started_ns ≡ s.lift_started_ns)
unfolding observe_button_change
lift_clock b at s = (λ d. ground arith, λ u v. ground arith, λ u v w. ground arith)
