-- ===== src/Blade/Sequence.antt =====
-- The order of the commands that BladeControl (blade_control.hpp) hands over.
use mowglimavros.Prelude.{
  Bool, true, false, ◌≡◌, Option, none, some, List, [], ◌∷◌, arith, ℕ, ◌⊎◌, ◌≢◌, is_some,
  Option-cases, inl, inr,
}
use mowglimavros.Prelude.Int.{ℤ}
use mowglimavros.Blade.Types.{Direction, Command, BladeControl, is, Config, initial}
use mowglimavros.Blade.Request.{force_off, connection, permission, request, service_timeout}
use mowglimavros.Blade.Transport.{
  sample, tick, tick_ack, tick_sample, tick_wait, next, choose, emit, complete, output, take_source,
  take_receipt, count_stop, Sample,
}
use mowglimavros.Blade.Calls.{
  is_on, emitted, step, Call, connects, permits, requests, samples, completes, nexts, outputs,
  forces_off, times_out, ticks,
}

-- No two neighbours are both other than neutral; `last` is the one before the list.
abbrev pub Separated : Bool → List Command → Type 0
Separated last [] = Unit {0}
Separated last (c ∷ cs) =
    (last ≡ true → is_on c.direction ≡ true → ⊥) × Separated (is_on c.direction) cs

-- A neutral has to come before the next start: none is in flight, and one is queued, or the state
-- is not confirmed OFF, or a start is in flight.
abbrev is_neutral : Option Command → Bool
is_neutral none = false
is_neutral (some c) = is c.direction Direction.off

abbrev Guarded : BladeControl → Type 0
Guarded s =
    (is_neutral s.in_flight ≡ false)
    × ((s.queued_neutral ≡ true) ⊎ (s.confirmed ≢ Direction.off) ⊎ (is_some s.in_flight ≡ true))

connection-Guarded :
    (b : Bool) (now : ℤ) (s : BladeControl) → Guarded s → Guarded (connection b now s)
unfolding connection
connection-Guarded b now s g = ground arith

permission-Guarded :
    (b : Bool) (now : ℤ) (s : BladeControl) → Guarded s → Guarded (permission b now s)
unfolding permission
permission-Guarded b now s g = ground arith

request-Guarded :
    (d : Direction) (now : ℤ) (s : BladeControl) → Guarded s → Guarded (request d now s).0
unfolding request
request-Guarded d now s g = ground arith

force_off-Guarded : (now : ℤ) (s : BladeControl) → Guarded (force_off now s)
unfolding force_off
force_off-Guarded now s = ground arith

service_timeout-Guarded : (now : ℤ) (s : BladeControl) → Guarded (service_timeout now s)
unfolding service_timeout
service_timeout-Guarded now s = ground arith

sample-Guarded : (m : Sample) (now : ℤ) (s : BladeControl) → Guarded s → Guarded (sample m now s)
unfolding sample take_source take_receipt count_stop
sample-Guarded m now s g = ground arith

tick_ack-Guarded : (now : ℤ) (s : BladeControl) → Guarded s → Guarded (tick_ack now s)
unfolding tick_ack
tick_ack-Guarded now s g = ground arith

tick_sample-Guarded : (now : ℤ) (s : BladeControl) → Guarded s → Guarded (tick_sample now s)
unfolding tick_sample
tick_sample-Guarded now s g = ground arith

tick_wait-Guarded : (now : ℤ) (s : BladeControl) → Guarded s → Guarded (tick_wait now s)
unfolding tick_wait
tick_wait-Guarded now s g = ground arith

tick-Guarded : (now : ℤ) (s : BladeControl) → Guarded s → Guarded (tick now s)
unfolding tick
tick-Guarded now s g =
    tick_wait-Guarded now (tick_sample now (tick_ack now s))
      (tick_sample-Guarded now (tick_ack now s) (tick_ack-Guarded now s g))

complete-Guarded :
    (token : ℕ) (b : Bool) (now : ℤ) (s : BladeControl)
    → Guarded s
    → Guarded (complete token b now s)
unfolding complete
complete-Guarded token b now s g = ground arith

output-Guarded : (v now : ℤ) (s : BladeControl) → Guarded s → Guarded (output v now s)
unfolding output
output-Guarded v now s g = ground arith

-- A guarded state hands over nothing, and stays guarded, or hands over a neutral.
next-Guarded :
    (now : ℤ) (s : BladeControl)
    → Guarded s
    → (((next now s).1 ≡ none) × Guarded (next now s).0) ⊎ (is_neutral (next now s).1 ≡ true)
unfolding next choose emit
next-Guarded now s g = ground (arith, tick-Guarded now s g)

-- Whatever other command is handed over leaves a guarded state.
next_on-Guarded :
    (now : ℤ) (s : BladeControl) (c : Command)
    → (next now s).1 ≡ some c
    → is c.direction Direction.off ≡ false
    → Guarded (next now s).0
unfolding next choose emit
next_on-Guarded now s c e o = ground arith

step-Guarded :
    (now : ℤ) (c : Call) (s : BladeControl)
    → (step now c s).1 ≡ none
    → Guarded s
    → Guarded (step now c s).0
unfolding step
step-Guarded now (connects b) s e g = connection-Guarded b now s g
step-Guarded now (permits b) s e g = permission-Guarded b now s g
step-Guarded now (requests d) s e g = request-Guarded d now s g
step-Guarded now forces_off s e g = force_off-Guarded now s
step-Guarded now times_out s e g = service_timeout-Guarded now s
step-Guarded now (samples m) s e g = sample-Guarded m now s g
step-Guarded now ticks s e g = tick-Guarded now s g
step-Guarded now nexts s e g = ground (arith, next-Guarded now s g)
step-Guarded now (completes token b) s e g = complete-Guarded token b now s g
step-Guarded now (outputs v) s e g = output-Guarded v now s g

step_neutral :
    (now : ℤ) (c : Call) (s : BladeControl) (k : Command)
    → (step now c s).1 ≡ some k
    → Guarded s
    → is_on k.direction ≡ true
    → ⊥
unfolding step
step_neutral now nexts s k e g on = ground (arith, next-Guarded now s g)
step_neutral now _ s k e g on = cc

step_on-Guarded :
    (now : ℤ) (c : Call) (s : BladeControl) (k : Command)
    → (step now c s).1 ≡ some k
    → is_on k.direction ≡ true
    → Guarded (step now c s).0
unfolding step
step_on-Guarded now nexts s k e on = ground (arith, next_on-Guarded now s k)
step_on-Guarded now _ s k e on = cc

separated :
    (cs : List (ℤ × Call)) (last : Bool) (s : BladeControl)
    → (last ≡ true → Guarded s)
    → Separated last (emitted cs s)
unfolding emitted
separated [] last s g = tt
separated ((now, c) ∷ cs) last s g = elim (Option-cases (step now c s).1) [
  | inl e ↦ rw e (separated cs last (step now c s).0 (λ l. step-Guarded now c s e (g l)))
  | inr (k, e) ↦ rw e (
    λ l on. step_neutral now c s k e (g l) on,
    separated cs (is_on k.direction) (step now c s).0 (λ on. step_on-Guarded now c s k e on),
  )
]

-- In every run of calls, at any times and with any replies, telemetry and requests, two commands
-- that start the blade never follow one another: a neutral is handed over in between.
pub emitted-Separated :
    (cfg : Config) (cs : List (ℤ × Call)) → Separated false (emitted cs (initial cfg))
emitted-Separated cfg cs = separated cs false (initial cfg) (λ l. cc)
