-- ===== src/Blade/Starts.antt =====
-- Exactly when `next` of BladeControl (blade_control.hpp) starts the blade.
use mowglimavros.Prelude.{true, false, ◌≡◌, none, some, arith, inc64, subst, ◌↔◌}
use mowglimavros.Prelude.Int.{ℤ, pos, ◌≤ℤ◌, ◌-ℤ◌, ◌<ℤ◌}
use mowglimavros.Blade.Types.{Direction, Command, BladeControl, pwm, wait_stop_before_reverse}
use mowglimavros.Blade.Transport.{tick, next, tick_ack, tick_sample, tick_wait, emit, choose}
use mowglimavros.Blade.Calls.{is_on}
use mowglimavros.Blade.Commands.{Permitted, tick_quiet, emit_on, next-some, next_on}

tick_ack_idle : (now : ℤ) (s : BladeControl) → s.in_flight ≡ none → tick_ack now s ≡ s
unfolding tick_ack
tick_ack_idle now s e = ground arith

tick_sample_fresh :
    (now : ℤ) (s : BladeControl)
    → pos 0 ≤ℤ s.sample_receipt
    → now -ℤ s.sample_receipt ≤ℤ s.config.freshness_ms
    → tick_sample now s ≡ s
unfolding tick_sample
tick_sample_fresh now s r f = ground arith

tick_wait_within :
    (now : ℤ) (s : BladeControl)
    → (s.state ≡ wait_stop_before_reverse → (now -ℤ s.wait_since) <ℤ s.config.stop_timeout_ms)
    → tick_wait now s ≡ s
unfolding tick_wait
tick_wait_within now s w = ground arith

choose_start :
    (now : ℤ) (s : BladeControl) (c : Command)
    → Permitted now c s
    → is_on c.direction ≡ true
    → pos 0 ≤ℤ s.sample_receipt
    → s.sample_receipt ≤ℤ now
    → choose now s ≡ (s, c.direction)
unfolding choose
choose_start now s c p on r r' = ground arith

emit_known :
    (now : ℤ) (s : BladeControl) (d : Direction)
    → is_on d ≡ true
    → (emit now s d).1
      ≡ some (record {
        token = inc64 s.token;
        channel = s.config.channel;
        pwm = pwm s.config d;
        direction = d;
      })
unfolding emit
emit_known now s d on = ground arith

next_idle :
    (now : ℤ) (s : BladeControl)
    → tick now s ≡ s
    → s.in_flight ≡ none
    → next now s ≡ emit now (choose now s).0 (choose now s).1
unfolding next
next_idle now s q e = rw q (rw (e, next))

next_hands_over :
    (now : ℤ) (s : BladeControl) (c : Command)
    → Permitted now c s
    → is_on c.direction ≡ true
    → pos 0 ≤ℤ s.sample_receipt
    → s.sample_receipt ≤ℤ now
    → (s.state ≡ wait_stop_before_reverse → (now -ℤ s.wait_since) <ℤ s.config.stop_timeout_ms)
    → (next now s).1
      ≡ some (record {
        token = inc64 s.token;
        channel = s.config.channel;
        pwm = pwm s.config c.direction;
        direction = c.direction;
      })
next_hands_over now s c p on r r' w =
    rw (next_idle now s quiet p.idle, choose_start now s c p on r r')
      (emit_known now s c.direction on)
  where
    quiet : tick now s ≡ s
    quiet =
        unfold tick in
        rw (tick_ack_idle now s p.idle, tick_sample_fresh now s r p.fresh)
          (tick_wait_within now s w)

-- What else a start needs, beside its permission: the newest sample was received at `now` or before,
-- and a wait for standstill is within its limit.
pub record Timely (now : ℤ) (s : BladeControl) : Type 0 where
  pub received : pos 0 ≤ℤ s.sample_receipt
  pub not_later : s.sample_receipt ≤ℤ now
  pub within :
      s.state ≡ wait_stop_before_reverse → (now -ℤ s.wait_since) <ℤ s.config.stop_timeout_ms

emit_timely :
    (now : ℤ) (s : BladeControl) (c : Command)
    → (emit now (choose now s).0 (choose now s).1).1 ≡ some c
    → is_on c.direction ≡ true
    → (pos 0 ≤ℤ s.sample_receipt) × (s.sample_receipt ≤ℤ now)
unfolding emit choose
emit_timely now s c e on = ground arith

tick_within :
    (now : ℤ) (s : BladeControl)
    → (tick now s).fault ≡ false
    → s.in_flight ≡ none
    → s.state ≡ wait_stop_before_reverse
    → (now -ℤ s.wait_since) <ℤ s.config.stop_timeout_ms
unfolding tick tick_ack tick_sample tick_wait
tick_within now s h n w = ground arith

start-Timely :
    (now : ℤ) (s : BladeControl) (c : Command)
    → (next now s).1 ≡ some c
    → is_on c.direction ≡ true
    → Timely now s
start-Timely now s c e on =
    let q = next-some now s c e in
    let p = emit_on now (tick now s) c q.0 q.1 on in
    let quiet = tick_quiet now s p.no_fault in
    let r =
      subst (λ t. (pos 0 ≤ℤ t.sample_receipt) × (t.sample_receipt ≤ℤ now)) quiet
        (emit_timely now (tick now s) c q.1 on) in
    record {
      received = r.0;
      not_later = r.1;
      within = tick_within now s p.no_fault (next_on now s c e on).idle;
    }

-- `next` hands over a start of the blade exactly if that start is permitted in the state (the FCU is
-- connected, the blade allowed, no fault latched, nothing in flight, no neutral queued, OFF confirmed,
-- the direction demanded, five samples of the stop proof, the newest one fresh and of rpm 0, and the
-- coast time over), the newest sample was received at `now` or before, and a wait for standstill is
-- within its limit.
pub next_starts :
    (now : ℤ) (s : BladeControl) (d : Direction)
    → is_on d ≡ true
    → let c : Command = record {
      token = inc64 s.token;
      channel = s.config.channel;
      pwm = pwm s.config d;
      direction = d;
    } in
      (next now s).1 ≡ some c ↔ (Permitted now c s × Timely now s)
next_starts now s d on =
    let c : Command = record {
      token = inc64 s.token;
      channel = s.config.channel;
      pwm = pwm s.config d;
      direction = d;
    } in
    (
      λ e. (next_on now s c e on, start-Timely now s c e on),
      λ (p, t). next_hands_over now s c p on t.received t.not_later t.within,
    )
