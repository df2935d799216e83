-- ===== src/Blade/Examples.antt =====
-- BladeControl (blade_control.hpp) at concrete inputs: the default configuration, and a blade that is
-- stopped, observed and started.
use mowglimavros.Blade.Requests.{tick_overdue}
use mowglimavros.Blade.Samples.{complete_overtaken}
use mowglimavros.Blade.Sequence.{Separated, emitted-Separated}
use mowglimavros.Blade.Transport.{
  sample_ignored, take_source, take_receipt, count_stop, output, enabled, sample, tick,
}
use mowglimavros.Blade.Types.{Direction}
use mowglimavros.Blade.Request.{connection, force_off, permission, request}
use mowglimavros.Blade.Invariant.{next-Inv, complete-Inv, Inv, initial-Inv, step-Inv}
use mowglimavros.Prelude.{ℕ, true, false, ◌≡◌, refl, some, List, [], ◌∷◌, arith, inc64}
use mowglimavros.Prelude.Int.{ℤ, pos, ◌≤ℤ◌, ◌-ℤ◌}
use mowglimavros.Blade.Types.{forward, Command, Config, BladeControl, initial, create, pwm}
use mowglimavros.Blade.Transport.{Sample, next, complete}
use mowglimavros.Blade.Calls.{
  Call, connects, permits, requests, samples, nexts, completes, step, run, emitted,
}
use mowglimavros.Blade.Commands.{Permitted, next_starts_after_stop, run-Inv}
use mowglimavros.Blade.Starts.{next_starts}

abbrev default : Config
default = record {
  channel = pos 3;
  neutral = pos 1500;
  forward = pos 1450;
  reverse = pos 1550;
  ack_timeout_ms = pos 3000;
  stop_timeout_ms = pos 15000;
  freshness_ms = pos 1000;
  coast_ms = pos 1000;
}

default-create : create default ≡ some (initial default)
unfolding create
default-create = refl

abbrev still : ℕ → Sample
still stamp = record {
  source = pos 1;
  stamp = pos stamp;
  count = 0;
  count_valid = false;
  valid = true;
  rpm = pos 0;
}

-- The neutral is sent and accepted, and five samples show the blade at rest.
abbrev demanded : List (ℤ × Call)
demanded =
    (pos 0, connects true)
    ∷ (pos 0, permits true)
    ∷ (pos 10, nexts)
    ∷ (pos 20, completes 2 true)
    ∷ (pos 100, samples (still 1))
    ∷ (pos 400, samples (still 2))
    ∷ (pos 700, samples (still 3))
    ∷ (pos 1000, samples (still 4))
    ∷ (pos 1100, samples (still 5))
    ∷ (pos 1200, requests forward)
    ∷ []

abbrev start : Command
start = record { token = 3; channel = pos 3; pwm = pos 1450; direction = forward }

-- The states; their line opens the whole component.
waiting : BladeControl
unfolding run step initial connection permission request sample sample_ignored take_source
    take_receipt count_stop next tick complete output enabled ◌-ℤ◌
waiting = run demanded (initial default)

-- Handed over at 1200 ms, and accepted at 1250 ms.
started : BladeControl
unfolding waiting
started = (next (pos 1200) waiting).0

running : BladeControl
unfolding started
running = complete 3 true (pos 1250) started

next_starts_after_stop_example :
    Permitted (pos 1200) start waiting
    × (waiting.config.coast_ms ≤ℤ pos 1200 -ℤ waiting.neutral_since)
unfolding waiting
next_starts_after_stop_example = next_starts_after_stop default demanded (pos 1200) start refl refl

next_starts_example :
    (next (pos 1200) waiting).1
    ≡ some (record {
      token = inc64 waiting.token;
      channel = waiting.config.channel;
      pwm = pwm waiting.config start.direction;
      direction = forward;
    })
unfolding waiting
next_starts_example = (next_starts (pos 1200) waiting forward refl).1 (
  next_starts_after_stop_example.0,
  record { received = omega arith; not_later = omega arith; within = λ e. omega arith },
)

emitted-Separated_example : Separated false (emitted demanded (initial default))
emitted-Separated_example = emitted-Separated default demanded

waiting-Inv : Inv waiting
unfolding waiting
waiting-Inv = run-Inv demanded (initial default) (initial-Inv default)

started-Inv : Inv started
unfolding started
started-Inv = next-Inv (pos 1200) waiting waiting-Inv

running-Inv : Inv running
unfolding running
running-Inv = complete-Inv 3 true (pos 1250) started started-Inv

complete_overtaken_example :
    let t = (next (pos 1300) (force_off (pos 1260) started)).0 in complete 3 true (pos 1400) t ≡ t
unfolding started
complete_overtaken_example =
    complete_overtaken started start (pos 1260) (pos 1300) (pos 1400) true started-Inv (omega arith)
      refl

step-Inv_example : Inv (step (pos 1300) (requests Direction.off) running).0
step-Inv_example = step-Inv (pos 1300) (requests Direction.off) running running-Inv

tick_overdue_example : (tick (pos 4200) started).fault ≡ true
unfolding started
tick_overdue_example = (tick_overdue (pos 4200) started start refl (omega arith)).0
