-- ===== src/Session/Failures.antt =====
-- Time-outs, refusals and replies of FcuSessionController (fcu_session_controller.hpp).
use Prim.Native.String.{String}
use text.Mathlib.TextEquality.{eq_iff}
use mowglimavros.Prelude.{ℕ, Bool, true, false, ◌≡◌, ◌≢◌, none, some, arith}
use mowglimavros.Prelude.Int.{ℤ, pos, ◌-ℤ◌, ◌≤ℤ◌, ◌<ℤ◌}
use mowglimavros.Session.Controller.{
  Kind, Command, FcuSessionController, confirmation_timeout, current, settle, fail, note_state,
  observe, tick, choose, send, next, complete, error_text,
}

-- A command that has been pending for three seconds is given up with the source's error text; what
-- it asked for is marked as failed if it is still the demand.
pub tick_times_out :
    (now : ℤ) (s : FcuSessionController) (c : Command)
    → s.pending ≡ some c
    → pos 3000 ≤ℤ now -ℤ s.sent_at
    → let t = tick now s in
      (t.pending ≡ none)
      × (t.error ≡ error_text c.kind confirmation_timeout)
      × (c.kind ≡ Kind.mode → c.mode ≡ s.wanted_mode → t.mode_failed ≡ true)
      × (c.kind ≡ Kind.arm → c.arm ≡ s.wanted_arm → t.arm_failed ≡ true)
unfolding tick fail
tick_times_out now s c e o = ground (arith, eq_iff c.mode s.wanted_mode)

-- A reply with another serial than the pending command's does no more than the passing of time.
pub complete_stale :
    (serial : ℕ) (b : Bool) (now : ℤ) (s : FcuSessionController)
    → current serial s ≡ false
    → complete serial b now s ≡ tick now s
unfolding complete current tick fail
complete_stale serial b now s h = ground arith

-- After a failed MODE, `next` sends no MODE again until the demand changes or the mode is met: no
-- passing of time, reply or observation of another mode lifts the failure.
pub mode_failure_stays :
    (now : ℤ) (ms ar al connected armed b : Bool) (serial : ℕ) (seen : String)
    (s : FcuSessionController)
    → s.mode_failed ≡ true
    → seen ≢ s.wanted_mode
    → ((next now ms ar al s).0.mode_failed ≡ true)
      × ((c : Command) → (next now ms ar al s).1 ≡ some c → c.kind ≡ Kind.arm)
      × ((complete serial b now s).mode_failed ≡ true)
      × ((observe connected armed seen s).mode_failed ≡ true)
unfolding next send choose complete current tick fail observe note_state settle
mode_failure_stays now ms ar al connected armed b serial seen s f n =
    (ground arith, λ c e. ground arith, ground arith, ground (arith, eq_iff seen s.wanted_mode))

complete_young :
    (now : ℤ) (s : FcuSessionController) (c : Command)
    → s.pending ≡ some c
    → (now -ℤ s.sent_at) <ℤ pos 3000
    → complete c.serial true now s ≡ settle (record s { acked = true })
unfolding complete current tick
complete_young now s c e y = ground arith

observe_acked :
    (armed : Bool) (seen : String) (s : FcuSessionController) (c : Command)
    → s.pending ≡ some c
    → (c.kind ≡ Kind.mode → seen ≡ c.mode)
    → (c.kind ≡ Kind.arm → armed ≡ c.arm)
    → (observe true armed seen (settle (record s { acked = true }))).pending ≡ none
unfolding observe note_state settle
observe_acked armed seen s c e m a = ground (arith, eq_iff seen c.mode)

complete_seen :
    (now : ℤ) (armed : Bool) (seen : String) (s : FcuSessionController) (c : Command)
    → s.pending ≡ some c
    → (now -ℤ s.sent_at) <ℤ pos 3000
    → (c.kind ≡ Kind.mode → seen ≡ c.mode)
    → (c.kind ≡ Kind.arm → armed ≡ c.arm)
    → (complete c.serial true now (observe true armed seen s)).pending ≡ none
unfolding observe note_state settle complete current tick
complete_seen now armed seen s c e y m a = ground (arith, eq_iff seen c.mode)

-- The acknowledgement and the observation that confirms a command may come in either order: the
-- command is over after both.
pub settles_in_any_order :
    (now : ℤ) (armed : Bool) (seen : String) (s : FcuSessionController) (c : Command)
    → s.pending ≡ some c
    → (now -ℤ s.sent_at) <ℤ pos 3000
    → (c.kind ≡ Kind.mode → seen ≡ c.mode)
    → (c.kind ≡ Kind.arm → armed ≡ c.arm)
    → ((observe true armed seen (complete c.serial true now s)).pending ≡ none)
      × ((complete c.serial true now (observe true armed seen s)).pending ≡ none)
settles_in_any_order now armed seen s c e y m a = (
  rw (complete_young now s c e y) (observe_acked armed seen s c e m a),
  complete_seen now armed seen s c e y m a,
)
