-- ===== src/Session/Invariant.antt =====
-- What holds of an FcuSessionController (fcu_session_controller.hpp) between two calls.
use Prim.Native.String.{String}
use mowglimavros.Prelude.{
  ℕ, Bool, true, false, ◌≡◌, inl, inr, Option, none, some, List, [], ◌∷◌, arith, Option-cases,
}
use mowglimavros.Prelude.Int.{ℤ}
use mowglimavros.Session.Controller.{
  Command, FcuSessionController, Reason, confirmation_timeout, request_refused, initial, is_mode,
  confirms, settle, fail, demand, note_state, observe, tick, choose, send, next, complete,
}

-- The pending command is the newest, is pending on a live link, and is not both acknowledged and
-- confirmed.
abbrev Pending : FcuSessionController → Option Command → Type 0
Pending s none = Unit {0}
Pending s (some c) =
    (c.serial ≡ s.serial)
    × (s.connected ≡ true)
    × (is_mode c.kind ≡ true → c.arm ≡ false)
    × (s.acked ≡ true → confirms s c ≡ false)

pub record Inv (s : FcuSessionController) : Type 0 where
  pub pending_lem : Pending s s.pending

pub data Call : Type 0 where
  demands : String → Bool → Bool → Call
  observes : Bool → Bool → String → Call
  ticks : Call
  nexts : Bool → Bool → Bool → Call
  completes : ℕ → Bool → Call

unfoldable pub step : ℤ → Call → FcuSessionController → FcuSessionController
step now (demands wanted arms disarm) s = demand wanted arms disarm s
step now (observes connected armed seen) s = observe connected armed seen s
step now ticks s = tick now s
step now (nexts mode_service arm_service allow_arm) s =
    (next now mode_service arm_service allow_arm s).0
step now (completes serial accepted) s = complete serial accepted now s

unfoldable pub run : List (ℤ × Call) → FcuSessionController → FcuSessionController
run [] s = s
run ((now, c) ∷ cs) s = run cs (step now c s)

-- All but the settling, which needs less.
abbrev Issued : FcuSessionController → Option Command → Type 0
Issued s none = Unit {0}
Issued s (some c) =
    (c.serial ≡ s.serial) × (s.connected ≡ true) × (is_mode c.kind ≡ true → c.arm ≡ false)

settle-Inv : (s : FcuSessionController) → Issued s s.pending → Inv (settle s)
unfolding settle
settle-Inv s h = elim (Option-cases s.pending) [ inl e ↦ ground arith | inr (c, e) ↦ ground arith ]

demand-Inv : (m : String) (a d : Bool) (s : FcuSessionController) → Inv s → Inv (demand m a d s)
unfolding demand confirms
demand-Inv m a d s h = ground arith

note_state-Issued :
    (b a : Bool) (m : String) (s : FcuSessionController)
    → Inv s
    → Issued (note_state b a m s) (note_state b a m s).pending
unfolding note_state
note_state-Issued b a m s h = ground arith

observe-Inv : (b a : Bool) (m : String) (s : FcuSessionController) → Inv s → Inv (observe b a m s)
unfolding observe
observe-Inv b a m s h = settle-Inv (note_state b a m s) (note_state-Issued b a m s h)

fail-Inv : (r : Reason) (s : FcuSessionController) → Inv s → Inv (fail r s)
unfolding fail
fail-Inv r s h = ground arith

tick-Inv : (now : ℤ) (s : FcuSessionController) → Inv s → Inv (tick now s)
unfolding tick
tick-Inv now s h = ground (arith, fail-Inv confirmation_timeout s h)

next-Inv :
    (now : ℤ) (ms ar al : Bool) (s : FcuSessionController) → Inv s → Inv (next now ms ar al s).0
unfolding next send choose
next-Inv now ms ar al s h = ground (arith, tick-Inv now s h)

complete-Inv :
    (serial : ℕ) (b : Bool) (now : ℤ) (s : FcuSessionController)
    → Inv s
    → Inv (complete serial b now s)
unfolding complete
complete-Inv serial b now s h =
    let t = tick now s in
    ground
      (arith, tick-Inv now s h, fail-Inv request_refused t, settle-Inv (record t { acked = true }))

pub step-Inv : (now : ℤ) (c : Call) (s : FcuSessionController) → Inv s → Inv (step now c s)
unfolding step
step-Inv now (demands m a d) s h = demand-Inv m a d s h
step-Inv now (observes b a m) s h = observe-Inv b a m s h
step-Inv now ticks s h = tick-Inv now s h
step-Inv now (nexts ms ar al) s h = next-Inv now ms ar al s h
step-Inv now (completes serial b) s h = complete-Inv serial b now s h

run-Inv : (cs : List (ℤ × Call)) (s : FcuSessionController) → Inv s → Inv (run cs s)
unfolding run
run-Inv [] s h = h
run-Inv ((now, c) ∷ cs) s h = run-Inv cs (step now c s) (step-Inv now c s h)

-- In every run of calls from the initial state, a pending command carries the newest serial, the
-- link is up, and the command is not both acknowledged and confirmed by the observed state.
pub run-initial-Inv : (cs : List (ℤ × Call)) → Inv (run cs initial)
unfolding initial
run-initial-Inv cs = run-Inv cs initial (record { pending_lem = tt })
