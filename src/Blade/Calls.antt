-- ===== src/Blade/Calls.antt =====
-- The public methods of BladeControl (blade_control.hpp) as data, and runs of them.
use mowglimavros.Prelude.{ℕ, Bool, true, false, Option, none, some, List, ◌∷◌, []}
use mowglimavros.Prelude.Int.{ℤ}
use mowglimavros.Blade.Types.{Direction, forward, reverse, Command, BladeControl}
use mowglimavros.Blade.Request.{force_off, connection, permission, request, service_timeout}
use mowglimavros.Blade.Transport.{Sample, sample, tick, next, complete, output}

-- The public calls that change the state.
pub data Call : Type 0 where
  connects : Bool → Call
  permits : Bool → Call
  requests : Direction → Call
  forces_off : Call
  times_out : Call
  samples : Sample → Call
  ticks : Call
  nexts : Call
  completes : ℕ → Bool → Call
  outputs : ℤ → Call

-- One call at a time: the new state, and the command that `next` hands to the transport.
unfoldable pub step : ℤ → Call → BladeControl → BladeControl × Option Command
step now (connects b) s = (connection b now s, none)
step now (permits b) s = (permission b now s, none)
step now (requests d) s = ((request d now s).0, none)
step now forces_off s = (force_off now s, none)
step now times_out s = (service_timeout now s, none)
step now (samples m) s = (sample m now s, none)
step now ticks s = (tick now s, none)
step now nexts s = next now s
step now (completes token accepted) s = (complete token accepted now s, none)
step now (outputs value) s = (output value now s, none)

abbrev pub is_on : Direction → Bool
is_on forward = true
is_on reverse = true
is_on _ = false

-- A run of timed calls: the last state, and the commands handed over, oldest first.
unfoldable pub run : List (ℤ × Call) → BladeControl → BladeControl
run [] s = s
run ((now, c) ∷ cs) s = run cs (step now c s).0

abbrev pub cons? : Option Command → List Command → List Command
cons? none l = l
cons? (some c) l = c ∷ l

unfoldable pub emitted : List (ℤ × Call) → BladeControl → List Command
emitted [] s = []
emitted ((now, c) ∷ cs) s = cons? (step now c s).1 (emitted cs (step now c s).0)
