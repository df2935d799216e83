-- ===== src/Blade/Invariant.antt =====
-- What holds of a BladeControl (blade_control.hpp) between two calls.
use mowglimavros.Prelude.{
  ℕ, Bool, true, false, ◌≡◌, ◌≢◌, Option, none, some, arith, Option-cases, inl, inr,
}
use mowglimavros.Prelude.Int.{ℤ, pos, ◌≤ℤ◌}
use mowglimavros.Blade.Calls.{
  Call, connects, permits, requests, forces_off, times_out, samples, ticks, nexts, completes,
  outputs, step, is_on,
}
use mowglimavros.Blade.Types.{Direction, unknown, State, Command, Config, BladeControl, initial}
use mowglimavros.Blade.Request.{force_off, connection, permission, request, service_timeout}
use mowglimavros.Blade.Transport.{
  Sample, sample, tick, next, complete, output, count_stop, fail, restart_stop, settle, tick_ack,
  tick_sample, tick_wait, emit, choose, take_receipt, take_source,
}

-- A command in flight is the newest; one that is not neutral still has all that it was sent for.
abbrev pub InFlight : BladeControl → Option Command → Type 0
InFlight s none = Unit {0}
InFlight s (some c) =
    (c.token ≡ s.token)
    × (c.direction ≢ unknown)
    × (is_on c.direction ≡ true
        → (s.connected ≡ true)
          × (s.allowed ≡ true)
          × (s.fault ≡ false)
          × (s.requested ≡ c.direction)
          × (s.confirmed ≡ Direction.off)
          × (s.queued_neutral ≡ false))

pub record Inv (s : BladeControl) : Type 0 where
  pub demanded : s.requested ≢ unknown
  pub fault_off : s.fault ≡ true → s.requested ≡ Direction.off
  pub fault_state : s.fault ≡ true → s.state ≡ State.failed
  pub flight : InFlight s s.in_flight
  pub confirmed_on : is_on s.confirmed ≡ true → (s.connected ≡ true) × (s.allowed ≡ true)
  pub coasting : pos 0 ≤ℤ s.stop_since → s.neutral_since ≤ℤ s.stop_since

pub initial-Inv : (c : Config) → Inv (initial c)
unfolding initial
initial-Inv c = ground arith

force_off-Inv : (now : ℤ) (s : BladeControl) → Inv (force_off now s)
unfolding force_off
force_off-Inv now s = ground arith

connection-Inv : (b : Bool) (now : ℤ) (s : BladeControl) → Inv s → Inv (connection b now s)
unfolding connection
connection-Inv b now s h = ground arith

permission-Inv : (b : Bool) (now : ℤ) (s : BladeControl) → Inv s → Inv (permission b now s)
unfolding permission
permission-Inv b now s h = ground arith

request-Inv : (d : Direction) (now : ℤ) (s : BladeControl) → Inv s → Inv (request d now s).0
unfolding request
request-Inv d now s h = ground arith

service_timeout-Inv : (now : ℤ) (s : BladeControl) → Inv (service_timeout now s)
unfolding service_timeout
service_timeout-Inv now s = ground arith

restart_stop-Inv : (b : Bool) (s : BladeControl) → Inv s → Inv (restart_stop b s)
unfolding restart_stop
restart_stop-Inv b s h = ground arith

count_stop-Inv : (now : ℤ) (s : BladeControl) → Inv s → Inv (count_stop now s)
unfolding count_stop
count_stop-Inv now s h = ground arith

fail-Inv : (b : Bool) (s : BladeControl) → Inv s → Inv (fail b s)
unfolding fail
fail-Inv b s h = ground arith

tick_ack-Inv : (now : ℤ) (s : BladeControl) → Inv s → Inv (tick_ack now s)
unfolding tick_ack
tick_ack-Inv now s h = ground arith

tick_sample-Inv : (now : ℤ) (s : BladeControl) → Inv s → Inv (tick_sample now s)
unfolding tick_sample
tick_sample-Inv now s h = ground arith

tick_wait-Inv : (now : ℤ) (s : BladeControl) → Inv s → Inv (tick_wait now s)
unfolding tick_wait
tick_wait-Inv now s h = ground arith

settle-Inv :
    (c : Command) (b : Bool) (now : ℤ) (s : BladeControl)
    → s.in_flight ≡ some c
    → Inv s
    → Inv (settle c.direction b now s)
unfolding settle
settle-Inv c b now s e h = ground arith

output-Inv : (v now : ℤ) (s : BladeControl) → Inv s → Inv (output v now s)
unfolding output
output-Inv v now s h = ground arith

take_source-Inv : (m : Sample) (s : BladeControl) → Inv s → Inv (take_source m s)
unfolding take_source
take_source-Inv m s h = ground arith

take_receipt-Inv : (m : Sample) (now : ℤ) (s : BladeControl) → Inv s → Inv (take_receipt m now s)
unfolding take_receipt
take_receipt-Inv m now s h = ground arith

sample-Inv : (m : Sample) (now : ℤ) (s : BladeControl) → Inv s → Inv (sample m now s)
unfolding sample
sample-Inv m now s h =
    let t = take_receipt m now (take_source m s) in
    ground (arith, count_stop-Inv now t (take_receipt-Inv m now _ (take_source-Inv m s h)))

pub tick-Inv : (now : ℤ) (s : BladeControl) → Inv s → Inv (tick now s)
unfolding tick
tick-Inv now s h = tick_wait-Inv now _ (tick_sample-Inv now _ (tick_ack-Inv now s h))

emit-Inv :
    (now : ℤ) (s : BladeControl)
    → s.in_flight ≡ none
    → Inv s
    → Inv (emit now (choose now s).0 (choose now s).1).0
unfolding emit choose
emit-Inv now s e h = ground arith

pub next-Inv : (now : ℤ) (s : BladeControl) → Inv s → Inv (next now s).0
unfolding next
next-Inv now s h = ground (arith, tick-Inv now s h, emit-Inv now (tick now s))

pub complete-Inv :
    (token : ℕ) (b : Bool) (now : ℤ) (s : BladeControl) → Inv s → Inv (complete token b now s)
unfolding complete
complete-Inv token b now s h = elim (Option-cases s.in_flight) [
  | inl e ↦ rw (e, complete) h
  | inr (c, e) ↦ rw (e, complete) (ground (arith, settle-Inv c b now s e h))
]

-- Every public call keeps the invariant: a fault has no demand but OFF, a command in flight is the
-- newest, one that is not neutral still has the link, the permission and the demand it was sent for,
-- and a confirmed direction other than OFF has the link and the permission.
pub step-Inv : (now : ℤ) (c : Call) (s : BladeControl) → Inv s → Inv (step now c s).0
unfolding step
step-Inv now (connects b) s h = connection-Inv b now s h
step-Inv now (permits b) s h = permission-Inv b now s h
step-Inv now (requests d) s h = request-Inv d now s h
step-Inv now forces_off s h = force_off-Inv now s
step-Inv now times_out s h = service_timeout-Inv now s
step-Inv now (samples m) s h = sample-Inv m now s h
step-Inv now ticks s h = tick-Inv now s h
step-Inv now nexts s h = next-Inv now s h
step-Inv now (completes token b) s h = complete-Inv token b now s h
step-Inv now (outputs v) s h = output-Inv v now s h
