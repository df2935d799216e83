-- ===== src/Blade/Transport.antt =====
-- The transport side of BladeControl (blade_control.hpp): telemetry samples, time-outs, the next
-- servo command, its completion and the observed output.
use mowglimavros.Prelude.{
  ℕ, Bool, true, false, not, ◌&&◌, ◌||◌, Option, none, some, leb, ◌==◌, inc64, inc32, is_some,
  if◌then◌else◌,
}
use mowglimavros.Prelude.Int.{ℤ, pos, negsuc, ◌-ℤ◌, ltb_ℤ, leb_ℤ, eqb_ℤ}
use mowglimavros.Blade.Types.{
  Direction, forward, unknown, State, fwd, rev, wait_stop_before_reverse, Command, BladeControl, is,
  is_waiting, on_wire, on_in_flight, sample_stale, satisfied, pwm,
}
use mowglimavros.Blade.Request.{force_off}

-- One telemetry report, the arguments of `sample` but the time.
pub record Sample : Type 0 where
  pub source : ℤ
  pub stamp : ℤ
  pub count : ℕ
  pub count_valid : Bool
  pub valid : Bool
  pub rpm : ℤ

-- The early return of `sample`.
unfoldable pub sample_ignored : Sample → BladeControl → Bool
sample_ignored m s =
    not m.valid
    || (not (eqb_ℤ m.source (pos 1)) && not (eqb_ℤ m.source (pos 2)))
    || (eqb_ℤ m.source (pos 2) && not m.count_valid)
    || leb_ℤ m.stamp (pos 0)
    || leb_ℤ m.stamp s.sample_stamp
    || (eqb_ℤ s.sample_source m.source
        && eqb_ℤ m.source (pos 2)
        && (not m.count_valid || m.count == s.sample_count))

-- `stop_since_ = -1; stop_samples_ = 0;` under a test.
unfoldable pub restart_stop : Bool → BladeControl → BladeControl
restart_stop b s = if b then record s { stop_since = negsuc 0; stop_samples = 0 } else s

unfoldable pub count_stop : ℤ → BladeControl → BladeControl
unfolding restart_stop
count_stop now s =
    if s.sample_zero && leb_ℤ s.neutral_since now && is s.confirmed Direction.off
    then record s {
      stop_since = if ltb_ℤ s.stop_since (pos 0) then now else s.stop_since;
      stop_samples = inc32 s.stop_samples;
    }
    else restart_stop true s

-- The source, the stamp and the counter of an accepted sample.
unfoldable pub take_source : Sample → BladeControl → BladeControl
unfolding restart_stop
take_source m s = record (restart_stop (not (eqb_ℤ s.sample_source m.source)) s) {
  sample_source = m.source;
  sample_stamp = m.stamp;
  sample_count = m.count;
}

-- Its time of receipt: a gap longer than `freshness_ms` restarts the stop proof.
unfoldable pub take_receipt : Sample → ℤ → BladeControl → BladeControl
unfolding restart_stop
take_receipt m now s =
    let late =
      leb_ℤ (pos 0) s.sample_receipt && ltb_ℤ s.config.freshness_ms (now -ℤ s.sample_receipt) in
    record (restart_stop late s) { sample_receipt = now; sample_zero = eqb_ℤ m.rpm (pos 0) }

unfoldable pub sample : Sample → ℤ → BladeControl → BladeControl
sample m now s =
    if sample_ignored m s then s else count_stop now (take_receipt m now (take_source m s))

unfoldable pub stopped : ℤ → BladeControl → Bool
stopped now s =
    s.sample_zero
    && leb_ℤ (pos 0) s.sample_receipt
    && leb_ℤ s.sample_receipt now
    && leb_ℤ (now -ℤ s.sample_receipt) s.config.freshness_ms
    && leb_ℤ (pos 0) s.stop_since
    && leb_ℤ s.config.coast_ms (now -ℤ s.stop_since)
    && leb 5 s.stop_samples

unfoldable pub fail : Bool → BladeControl → BladeControl
fail send_neutral s =
    let neutral_pending = on_wire s.in_flight Direction.off in
    let cancel = is_some s.in_flight && not neutral_pending in
    record s {
      in_flight = if cancel then none else s.in_flight;
      token = if cancel then inc64 s.token else s.token;
      revision = inc64 s.revision;
      fault = true;
      requested = Direction.off;
      state = State.failed;
      queued_neutral = s.queued_neutral || (send_neutral && not neutral_pending);
    }

-- The three tests of `tick`, in order.
unfoldable pub tick_ack : ℤ → BladeControl → BladeControl
unfolding fail
tick_ack now s =
    if is_some s.in_flight && leb_ℤ s.config.ack_timeout_ms (now -ℤ s.sent_at)
    then fail (on_in_flight s.in_flight) (record s { in_flight = none })
    else s

unfoldable pub tick_sample : ℤ → BladeControl → BladeControl
unfolding fail sample_stale
tick_sample now s =
    if not (is s.requested Direction.off) && sample_stale now s then fail true s else s

unfoldable pub tick_wait : ℤ → BladeControl → BladeControl
unfolding fail
tick_wait now s =
    if is_waiting s.state
      && not (is_some s.in_flight)
      && leb_ℤ s.config.stop_timeout_ms (now -ℤ s.wait_since)
    then fail false s
    else s

unfoldable pub tick : ℤ → BladeControl → BladeControl
unfolding tick_ack tick_sample tick_wait
tick now s = tick_wait now (tick_sample now (tick_ack now s))

-- The choice of `next` once nothing is in flight: the new state and the direction to send.
unfoldable pub choose : ℤ → BladeControl → BladeControl × Direction
unfolding stopped
choose now s =
    if s.queued_neutral
    then (record s { queued_neutral = false }, Direction.off)
    else if not s.fault
        && s.connected
        && s.allowed
        && not (is s.requested Direction.off)
        && is s.confirmed Direction.off
        && stopped now s
    then (s, s.requested)
    else (s, unknown)

unfoldable pub emit : ℤ → BladeControl → Direction → BladeControl × Option Command
unfolding pwm
emit now s target =
    if is target unknown
    then (s, none)
    else let command : Command = record {
      token = inc64 s.token;
      channel = s.config.channel;
      pwm = pwm s.config target;
      direction = target;
    } in
      (record s { token = inc64 s.token; in_flight = some command; sent_at = now }, some command)

unfoldable pub next : ℤ → BladeControl → BladeControl × Option Command
unfolding tick choose emit
next now s =
    let t = tick now s in
    if is_some t.in_flight then (t, none) else let (u, target) = choose now t in emit now u target

unfoldable pub current : ℕ → BladeControl → Bool
current token s = elim s.in_flight [ none ↦ false | some c ↦ c.token == token ]

-- `complete` once the reply is that of the command in flight.
unfoldable pub settle : Direction → Bool → ℤ → BladeControl → BladeControl
unfolding fail
settle direction accepted now s =
    let s₁ = record s { in_flight = none } in
    if not accepted
    then fail (not (is direction Direction.off)) s₁
    else let s₂ = record s₁ { confirmed = direction } in
      if is direction Direction.off
      then record s₂ {
        neutral_since = now;
        stop_since = negsuc 0;
        stop_samples = 0;
        wait_since = now;
        state =
            if s₂.fault
            then State.failed
            else if is s₂.requested Direction.off
            then State.off
            else wait_stop_before_reverse;
      }
      else if is s₂.requested direction && not s₂.queued_neutral
      then record s₂ { state = if is direction forward then fwd else rev }
      else s₂

unfoldable pub complete : ℕ → Bool → ℤ → BladeControl → BladeControl
unfolding settle
complete token accepted now s = elim s.in_flight [
  | none ↦ s
  | some c ↦ if c.token == token then settle c.direction accepted now s else s
]

unfoldable pub output : ℤ → ℤ → BladeControl → BladeControl
unfolding force_off pwm
output pwm_value now s =
    if is_some s.in_flight || s.queued_neutral || is s.confirmed unknown
    then s
    else if eqb_ℤ pwm_value (pwm s.config s.confirmed)
    then s
    else force_off now s

unfoldable pub enabled : BladeControl → Bool
enabled s = s.allowed && satisfied s && not (is s.confirmed Direction.off)
