-- ===== src/Blade/Request.antt =====
-- The functional side of BladeControl (blade_control.hpp): connection, permission, requests and the
-- forced return to neutral. A mutating method returns the new record.
use mowglimavros.Prelude.{
  Bool, true, not, ◌&&◌, ◌||◌, none, inc64, same, is_some, if◌then◌else◌, false,
}
use mowglimavros.Prelude.Int.{ℤ, pos, negsuc}
use mowglimavros.Blade.Types.{
  Direction, unknown, State, transition_to_off, wait_stop_before_reverse, Result, rejected, pending,
  BladeControl, is, on_in_flight, sample_stale, satisfied,
}

unfoldable pub force_off : ℤ → BladeControl → BladeControl
force_off now s = record s {
  revision = inc64 s.revision;
  requested = Direction.off;
  confirmed = unknown;
  in_flight = none;
  token = inc64 s.token;
  queued_neutral = true;
  fault = false;
  stop_since = negsuc 0;
  stop_samples = 0;
  neutral_since = now;
  state = transition_to_off;
}

unfoldable pub connection : Bool → ℤ → BladeControl → BladeControl
unfolding force_off
connection connected now s =
    if same connected s.connected
    then s
    else force_off now (record s {
      connected = connected;
      sample_stamp = pos 0;
      sample_source = negsuc 0;
      sample_receipt = negsuc 0;
    })

unfoldable pub permission : Bool → ℤ → BladeControl → BladeControl
unfolding force_off
permission allowed now s =
    if s.allowed && not allowed
    then record (force_off now s) { allowed = allowed }
    else record s { allowed = allowed }

unfoldable pub request_refused : Direction → ℤ → BladeControl → Bool
unfolding sample_stale
request_refused d now s =
    not s.connected
    || is d unknown
    || (not (is d Direction.off) && (not s.allowed || s.fault || sample_stale now s))
    || s.fault

-- The body of `request` after its three early returns, with the new revision and demand in place.
unfoldable pub request_accepted : Direction → ℤ → BladeControl → BladeControl
unfolding force_off
request_accepted d now s =
    if is d Direction.off
    then force_off now s
    else if not (is s.confirmed Direction.off) || is_some s.in_flight || s.queued_neutral
    then record (if on_in_flight s.in_flight
        then record (force_off now s) { requested = d }
        else s) { queued_neutral = true; state = transition_to_off }
    else record s { state = wait_stop_before_reverse; wait_since = now }

unfoldable pub request : Direction → ℤ → BladeControl → BladeControl × Result
unfolding request_refused request_accepted satisfied
request d now s =
    if request_refused d now s
    then (s, rejected)
    else if is d s.requested
    then (s, if satisfied s then Result.confirmed else pending)
    else (request_accepted d now (record s { revision = inc64 s.revision; requested = d }), pending)

unfoldable pub service_timeout : ℤ → BladeControl → BladeControl
unfolding force_off
service_timeout now s = record (force_off now s) { fault = true; state = State.failed }
