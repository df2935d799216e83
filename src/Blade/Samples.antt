-- ===== src/Blade/Samples.antt =====
-- Telemetry and replies of BladeControl (blade_control.hpp): replays and late replies count for
-- nothing.
use mowglimavros.Prelude.{
  ℕ, Bool, ◌≡◌, ◌≢◌, ◌<◌, refl, ◌^◌, none, some, arith, inc64, Option-cases, inl, inr,
}
use mowglimavros.Prelude.Int.{ℤ}
use mowglimavros.Blade.Types.{Command, BladeControl}
use mowglimavros.Blade.Request.{force_off}
use mowglimavros.Blade.Transport.{
  Sample, sample, sample_ignored, take_source, take_receipt, count_stop, tick, next, complete,
  choose, tick_ack, emit, tick_sample, tick_wait, fail,
}
use mowglimavros.Blade.Invariant.{Inv}

stamp-count_stop :
    (m : Sample) (now : ℤ) (s : BladeControl)
    → (count_stop now (take_receipt m now (take_source m s))).sample_stamp ≡ m.stamp
unfolding count_stop take_receipt take_source
stamp-count_stop m now s = ground arith

-- A sample that was delivered once changes nothing when it is delivered again, whenever that is.
pub sample_replayed :
    (m : Sample) (now later : ℤ) (s : BladeControl)
    → sample m later (sample m now s) ≡ sample m now s
unfolding sample sample_ignored
sample_replayed m now later s = ground (arith, stamp-count_stop m now s)

complete_other :
    (token : ℕ) (b : Bool) (now : ℤ) (s : BladeControl)
    → ((c : Command) → s.in_flight ≡ some c → c.token ≢ token)
    → complete token b now s ≡ s
unfolding complete
complete_other token b now s h = elim (Option-cases s.in_flight) [
  | inl e ↦ ground arith
  | inr (c, e) ↦ ground (arith, h c e)
]

token-next :
    (now : ℤ) (s : BladeControl) (c : Command)
    → s.in_flight ≡ none
    → (next now s).0.in_flight ≡ some c
    → c.token ≡ inc64 (tick now s).token
unfolding next choose emit tick tick_ack tick_sample tick_wait fail
token-next now s c i e = ground arith

token-tick : (now : ℤ) (s : BladeControl) → s.in_flight ≡ none → (tick now s).token ≡ s.token
unfolding tick tick_ack tick_sample tick_wait fail
token-tick now s i = ground arith

-- The reply to a command that `force_off` has overtaken is ignored, also after the next command is
-- handed over.
pub complete_overtaken :
    (s : BladeControl) (c : Command) (now later at : ℤ) (accepted : Bool)
    → Inv s
    → s.token < 2 ^ 64
    → s.in_flight ≡ some c
    → let t = (next later (force_off now s)).0 in complete c.token accepted at t ≡ t
unfolding force_off
complete_overtaken s c now later at accepted inv w e =
    let u = force_off now s in
    complete_other c.token accepted at (next later u).0
      (λ k f. ground (arith, token-next later u k refl f, token-tick later u refl, inv.flight))
