-- ===== src/Session/Examples.antt =====
-- FcuSessionController (fcu_session_controller.hpp) at concrete inputs: a session that is opened in
-- the mode MANUAL.
use mowglimavros.Session.Failures.{mode_failure_stays}
use mowglimavros.Session.Commands.{demand_disarms, next_arms, observe_disarms}
use mowglimavros.Session.Rounds.{Cooperative, round, round_ready}
use mowglimavros.Prelude.{true, false, ◌≡◌, refl, some, List, [], ◌∷◌, inc64}
use mowglimavros.Prelude.Int.{ℤ, pos, ◌-ℤ◌}
use mowglimavros.Session.Controller.{
  Kind, Command, FcuSessionController, initial, demand, observe, next, complete, tick, ready,
  current, settle, note_state, confirms, fail, failed, choose, send,
}
use mowglimavros.Session.Invariant.{
  Call, run, Inv, demands, run-initial-Inv, step, observes, nexts, completes,
}

abbrev opening : List (ℤ × Call)
opening = (pos 0, demands "MANUAL" true false) ∷ (pos 0, observes true false "HOLD") ∷ []

abbrev moded : List (ℤ × Call)
moded =
    (pos 0, demands "MANUAL" true false)
    ∷ (pos 0, observes true false "HOLD")
    ∷ (pos 10, nexts true true true)
    ∷ (pos 20, completes 1 true)
    ∷ (pos 30, observes true false "MANUAL")
    ∷ []

opened : FcuSessionController
unfolding run step initial demand observe note_state settle confirms failed next choose send
    complete current tick fail ready ◌-ℤ◌
opened = run opening initial

in_mode : FcuSessionController
unfolding opened
in_mode = run moded initial

set_mode : Command
set_mode = record { serial = 1; kind = Kind.mode; mode = "MANUAL"; arm = false }

-- The MODE command is pending.
changing : FcuSessionController
unfolding opened
changing = (next (pos 10) true true true opened).0

arming : Command
arming = record { serial = 2; kind = Kind.arm; mode = "MANUAL"; arm = true }

run-initial-Inv_example : Inv (run moded initial)
run-initial-Inv_example = run-initial-Inv moded

next_arms_example : arming.kind ≡ Kind.arm
unfolding in_mode arming
next_arms_example = (next_arms (pos 40) true true true in_mode arming refl refl).0

demand_disarms_example :
    (next (pos 20) true true true (demand "HOLD" false true changing)).1
    ≡ some (record { serial = inc64 changing.serial; kind = Kind.arm; mode = "HOLD"; arm = false })
unfolding changing
demand_disarms_example = demand_disarms "HOLD" false (pos 20) true true changing refl refl

-- A safety disarm is in force and carried out.
secured : FcuSessionController
unfolding opened
secured = record opened { safety_disarm = true }

observe_disarms_example :
    (next (pos 20) true true true (observe true true "HOLD" secured)).1
    ≡ some (record {
      serial = inc64 secured.serial;
      kind = Kind.arm;
      mode = secured.wanted_mode;
      arm = false;
    })
unfolding secured
observe_disarms_example = observe_disarms "HOLD" (pos 20) true true secured refl refl refl

open_opened : Cooperative opened
unfolding opened
open_opened = record {
  link = refl;
  idle = refl;
  mode_open = refl;
  arm_open = refl;
  no_safety = refl;
}

round_ready_example :
    ready (round (pos 40) true true true (round (pos 10) true true true opened)) ≡ true
round_ready_example =
    round_ready (pos 10) (pos 40) true true true opened open_opened
      (record { mode_there = refl; arm_there = refl; may_arm = λ w. refl })

mode_failure_stays_example :
    (observe true false "HOLD" (record opened { mode_failed = true })).mode_failed ≡ true
unfolding opened
mode_failure_stays_example =
    (mode_failure_stays (pos 20) true true true true false true 1 "HOLD"
      (record opened { mode_failed = true }) refl (λ e. cc)).3
