-- ===== src/Blade/Commands.antt =====
-- When `next` of BladeControl (blade_control.hpp) hands a command to the transport.
use mowglimavros.Prelude.{
  true, false, ◌≡◌, none, some, arith, List, ◌≤◌, [], ◌∷◌, inc64, Option-cases, refl, subst, inl,
  inr,
}
use mowglimavros.Prelude.Int.{ℤ, pos, ◌≤ℤ◌, ◌-ℤ◌, -ℤ_parts}
use mowglimavros.Blade.Types.{Direction, Command, BladeControl, Config, pwm, initial}
use mowglimavros.Blade.Transport.{tick, next, tick_ack, tick_sample, tick_wait, emit, choose}
use mowglimavros.Blade.Calls.{Call, is_on, run}
use mowglimavros.Blade.Invariant.{Inv, step-Inv, initial-Inv}

pub run-Inv : (cs : List (ℤ × Call)) (s : BladeControl) → Inv s → Inv (run cs s)
unfolding run
run-Inv [] s h = h
run-Inv ((now, c) ∷ cs) s h = run-Inv cs _ (step-Inv now c s h)

-- A pass of `tick` that reports no failure changed nothing.
pub tick_quiet : (now : ℤ) (s : BladeControl) → (tick now s).fault ≡ false → tick now s ≡ s
unfolding tick tick_ack tick_sample tick_wait
tick_quiet now s h = ground arith

-- What a command other than neutral needs.
pub record Permitted (now : ℤ) (c : Command) (s : BladeControl) : Type 0 where
  pub connected : s.connected ≡ true
  pub allowed : s.allowed ≡ true
  pub no_fault : s.fault ≡ false
  pub idle : s.in_flight ≡ none
  pub no_neutral : s.queued_neutral ≡ false
  pub off_confirmed : s.confirmed ≡ Direction.off
  pub demanded : s.requested ≡ c.direction
  pub standing : s.sample_zero ≡ true
  pub fresh : now -ℤ s.sample_receipt ≤ℤ s.config.freshness_ms
  pub five : 5 ≤ s.stop_samples
  pub since : pos 0 ≤ℤ s.stop_since
  pub coasted : s.config.coast_ms ≤ℤ now -ℤ s.stop_since

pub emit_on :
    (now : ℤ) (s : BladeControl) (c : Command)
    → s.in_flight ≡ none
    → (emit now (choose now s).0 (choose now s).1).1 ≡ some c
    → is_on c.direction ≡ true
    → Permitted now c s
unfolding emit choose
emit_on now s c i e on = ground arith

next_clear :
    (now : ℤ) (s : BladeControl)
    → let t = tick now s in
      t.in_flight ≡ none → next now s ≡ emit now (choose now t).0 (choose now t).1
unfolding next
next_clear now s n = rw n refl

next_busy :
    (now : ℤ) (s : BladeControl) (d : Command)
    → (tick now s).in_flight ≡ some d
    → next now s ≡ (tick now s, none)
unfolding next
next_busy now s d q = rw q refl

some_is_none : {P : Type 0} (c : Command) → none ≡ some c → P
some_is_none c e = ground arith

pub next-some :
    (now : ℤ) (s : BladeControl) (c : Command)
    → (next now s).1 ≡ some c
    → let t = tick now s in
      (t.in_flight ≡ none) × ((emit now (choose now t).0 (choose now t).1).1 ≡ some c)
next-some now s c e = elim (Option-cases (tick now s).in_flight) [
  | inl n ↦ (n, subst (λ r. r.1 ≡ some c) (next_clear now s n) e)
  | inr (d, q) ↦ some_is_none c (subst (λ r. r.1 ≡ some c) (next_busy now s d q) e)
]

pub next_on :
    (now : ℤ) (s : BladeControl) (c : Command)
    → (next now s).1 ≡ some c
    → is_on c.direction ≡ true
    → Permitted now c s
next_on now s c e on =
    let q = next-some now s c e in
    let p = emit_on now (tick now s) c q.0 q.1 on in
    subst (Permitted now c) (tick_quiet now s p.no_fault) p

emit_form :
    (now : ℤ) (s : BladeControl) (c : Command)
    → (emit now (choose now s).0 (choose now s).1).1 ≡ some c
    → (c.pwm ≡ pwm s.config c.direction)
      × (c.channel ≡ s.config.channel)
      × (c.token ≡ inc64 s.token)
      × ((emit now (choose now s).0 (choose now s).1).0.in_flight ≡ some c)
      × ((emit now (choose now s).0 (choose now s).1).0.sent_at ≡ now)
unfolding emit choose
emit_form now s c e = ground arith

pub tick-config : (now : ℤ) (s : BladeControl) → (tick now s).config ≡ s.config
unfolding tick tick_ack tick_sample tick_wait
tick-config now s = ground arith

-- Whatever is handed over goes to the configured channel with the pulse of its direction, and is
-- then the command in flight.
pub next_form :
    (now : ℤ) (s : BladeControl) (c : Command)
    → (next now s).1 ≡ some c
    → (c.pwm ≡ pwm s.config c.direction)
      × (c.channel ≡ s.config.channel)
      × ((next now s).0.in_flight ≡ some c)
      × ((next now s).0.sent_at ≡ now)
unfolding next
next_form now s c e = let q = emit_form now (tick now s) c in ground (arith, q, tick-config now s)

-- In a run of calls from the initial state, a command that starts the blade is handed over only
-- while the FCU is connected, the blade is allowed and no fault is latched, with nothing in flight,
-- no neutral queued, OFF confirmed, the direction demanded, a fresh sample of rpm 0 and five samples
-- of the stop proof, and no earlier than `coast_ms` after the last confirmed or forced neutral.
pub next_starts_after_stop :
    (cfg : Config) (cs : List (ℤ × Call)) (now : ℤ) (c : Command)
    → let s = run cs (initial cfg) in
      (next now s).1 ≡ some c
      → is_on c.direction ≡ true
      → Permitted now c s × (s.config.coast_ms ≤ℤ now -ℤ s.neutral_since)
next_starts_after_stop cfg cs now c e on =
    let s = run cs (initial cfg) in
    let p = next_on now s c e on in
    let inv = run-Inv cs (initial cfg) (initial-Inv cfg) in
    (
      p,
      omega (
        arith,
        inv.coasting,
        p.since,
        p.coasted,
        -ℤ_parts now s.stop_since,
        -ℤ_parts now s.neutral_since,
      ),
    )
