-- ===== src/Blade/Requests.antt =====
-- The answers of `request`, and what time-outs and refusals do, in BladeControl (blade_control.hpp).
use mowglimavros.Prelude.{true, false, ◌≡◌, ◌≢◌, ◌⊎◌, ◌↔◌, none, some, arith, is_some}
use mowglimavros.Prelude.Int.{ℤ, ◌≤ℤ◌, ◌<ℤ◌, pos, ◌-ℤ◌, -ℤ_parts}
use mowglimavros.Blade.Types.{
  Direction, unknown, Command, BladeControl, Result, rejected, pending, satisfied, sample_stale,
}
use mowglimavros.Blade.Request.{request, permission}
use mowglimavros.Blade.Transport.{
  tick, tick_ack, tick_sample, tick_wait, next, choose, emit, enabled,
}
use mowglimavros.Blade.Calls.{is_on}
use mowglimavros.Blade.Commands.{tick-config}
use mowglimavros.Blade.Invariant.{Inv}

-- `request` answers Rejected exactly while disconnected, under a fault, for Unknown, and for a start
-- that is not allowed or whose newest sample is missing or stale; a rejected request changes nothing.
pub request_rejected :
    (d : Direction) (now : ℤ) (s : BladeControl)
    → ((request d now s).1 ≡ rejected ↔ (
        (s.connected ≡ false)
        ⊎ (s.fault ≡ true)
        ⊎ (d ≡ unknown)
        ⊎ ((is_on d ≡ true) × ((s.allowed ≡ false) ⊎ (sample_stale now s ≡ true)))))
      × ((request d now s).1 ≡ rejected → (request d now s).0 ≡ s)
unfolding request
request_rejected d now s = ((λ e. ground arith, λ e. ground arith), λ e. ground arith)

-- `request` answers Confirmed exactly if the blade is connected and already in the demanded
-- direction, with no fault, nothing in flight and no neutral queued (and, for a start, allowed and
-- with a fresh sample).
pub request_confirmed :
    (d : Direction) (now : ℤ) (s : BladeControl)
    → (request d now s).1 ≡ Result.confirmed
    → (s.confirmed ≡ d)
      × (s.requested ≡ d)
      × (s.connected ≡ true)
      × (s.fault ≡ false)
      × (s.in_flight ≡ none)
      × (s.queued_neutral ≡ false)
      × ((request d now s).0 ≡ s)
unfolding request
request_confirmed d now s e = ground arith

-- A pending request for a start leaves a neutral to be sent first, unless OFF is confirmed with
-- nothing in flight and none queued: then the sequencer waits for standstill from `now` on.
pub request_pending :
    (d : Direction) (now : ℤ) (s : BladeControl)
    → is_on d ≡ true
    → d ≢ s.requested
    → (request d now s).1 ≡ pending
    → ((request d now s).0.requested ≡ d)
      × (((request d now s).0.queued_neutral ≡ true)
          ⊎ ((s.confirmed ≡ Direction.off)
              × (s.in_flight ≡ none)
              × ((request d now s).0.wait_since ≡ now)))
unfolding request
request_pending d now s on n e = ground arith

-- After a tick that finds the command in flight `ack_timeout_ms` old, a fault is latched, OFF is
-- demanded and nothing is in flight; after a start, a neutral is queued.
pub tick_overdue :
    (now : ℤ) (s : BladeControl) (c : Command)
    → s.in_flight ≡ some c
    → s.config.ack_timeout_ms ≤ℤ now -ℤ s.sent_at
    → let t = tick now s in
      (t.fault ≡ true)
      × (t.requested ≡ Direction.off)
      × (t.in_flight ≡ none)
      × (is_on c.direction ≡ true → t.queued_neutral ≡ true)
unfolding tick tick_ack tick_sample tick_wait
tick_overdue now s c e o = ground arith

-- The command in flight, if any, is younger than `ack_timeout_ms`.
abbrev Young : ℤ → BladeControl → Type 0
Young now s = (is_some s.in_flight ≡ true) → (now -ℤ s.sent_at) <ℤ s.config.ack_timeout_ms

tick_ack-Young : (now : ℤ) (s : BladeControl) → Young now (tick_ack now s)
unfolding tick_ack
tick_ack-Young now s = ground arith

tick_sample-Young : (now : ℤ) (s : BladeControl) → Young now s → Young now (tick_sample now s)
unfolding tick_sample
tick_sample-Young now s h = ground arith

tick_wait-Young : (now : ℤ) (s : BladeControl) → Young now s → Young now (tick_wait now s)
unfolding tick_wait
tick_wait-Young now s h = ground arith

tick-Young : (now : ℤ) (s : BladeControl) → Young now (tick now s)
unfolding tick
tick-Young now s =
    tick_wait-Young now (tick_sample now (tick_ack now s))
      (tick_sample-Young now (tick_ack now s) (tick_ack-Young now s))

emit-Young :
    (now : ℤ) (s : BladeControl)
    → pos 0 <ℤ s.config.ack_timeout_ms
    → Young now s
    → Young now (emit now (choose now s).0 (choose now s).1).0
unfolding emit choose
emit-Young now s p y = ground (arith, -ℤ_parts now now)

-- A command that `next` leaves in flight is younger than `ack_timeout_ms`, if that is positive.
pub next_bounded :
    (now : ℤ) (s : BladeControl)
    → pos 0 <ℤ s.config.ack_timeout_ms
    → is_some (next now s).0.in_flight ≡ true
    → (now -ℤ (next now s).0.sent_at) <ℤ (next now s).0.config.ack_timeout_ms
unfolding next
next_bounded now s p e =
    let t = tick now s in ground (arith, tick-Young now s, tick-config now s, emit-Young now t)

-- Reported as enabled, the blade is connected and allowed, no fault is latched, and the confirmed
-- direction is the demanded start; then a withdrawn permission leaves it not enabled, with OFF
-- demanded and a neutral queued.
pub enabled-permission :
    (s : BladeControl) (now : ℤ)
    → Inv s
    → enabled s ≡ true
    → (s.connected ≡ true)
      × (s.allowed ≡ true)
      × (s.fault ≡ false)
      × (is_on s.requested ≡ true)
      × (s.confirmed ≡ s.requested)
      × (let t = permission false now s in
          (enabled t ≡ false) × (t.requested ≡ Direction.off) × (t.queued_neutral ≡ true))
unfolding enabled satisfied permission
enabled-permission s now inv e = ground arith
