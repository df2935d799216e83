-- ===== src/Session/Commands.antt =====
-- What `next` of FcuSessionController (fcu_session_controller.hpp) sends.
use Prim.Native.String.{String}
use text.Mathlib.TextEquality.{eq_iff}
use mowglimavros.Prelude.{Bool, true, false, ◌≡◌, ◌⊎◌, none, some, arith, inc64}
use mowglimavros.Prelude.Int.{ℤ, pos, ◌-ℤ◌, ◌<ℤ◌}
use mowglimavros.Session.Controller.{
  Kind, Command, FcuSessionController, ready, settle, fail, demand, note_state, observe, tick,
  choose, send, next,
}

-- What an ARM command needs of the controller.
pub record Armable (ar al : Bool) (s : FcuSessionController) : Type 0 where
  pub demanded : s.wanted_arm ≡ true
  pub disarmed : s.armed ≡ false
  pub in_mode : s.mode ≡ s.wanted_mode
  pub link : s.connected ≡ true
  pub service : ar ≡ true
  pub permitted : al ≡ true
  pub not_failed : s.arm_failed ≡ false
  pub not_forced : (s.safety_disarm ≡ false) ⊎ (s.force_disarm ≡ false)

tick-Armable :
    (now : ℤ) (ar al : Bool) (s : FcuSessionController)
    → Armable ar al (tick now s)
    → Armable ar al s
unfolding tick fail
tick-Armable now ar al s h = ground arith

send_arms :
    (now : ℤ) (ms ar al : Bool) (t : FcuSessionController) (c : Command)
    → t.connected ≡ true
    → (send now t (choose ms ar al t)).1 ≡ some c
    → c.arm ≡ true
    → (c.kind ≡ Kind.arm) × Armable ar al t
unfolding send choose
send_arms now ms ar al t c l e a = ground (arith, eq_iff t.mode t.wanted_mode)

-- An ARM command is sent only on demand, while disarmed, over a live link with the service there,
-- in the demanded mode, with the caller's permission, after no failed ARM, and not while a safety
-- disarm is forced.
pub next_arms :
    (now : ℤ) (ms ar al : Bool) (s : FcuSessionController) (c : Command)
    → (next now ms ar al s).1 ≡ some c
    → c.arm ≡ true
    → (c.kind ≡ Kind.arm) × Armable ar al s
unfolding next
next_arms now ms ar al s c e a =
    let t = tick now s in
    let q = send_arms now ms ar al t c in ground (arith, q, tick-Armable now ar al s)

-- While a command younger than three seconds is pending, `next` sends nothing and changes nothing.
pub next_waits :
    (now : ℤ) (ms ar al : Bool) (s : FcuSessionController) (c : Command)
    → s.pending ≡ some c
    → (now -ℤ s.sent_at) <ℤ pos 3000
    → next now ms ar al s ≡ (s, none)
unfolding next tick
next_waits now ms ar al s c e y = ground arith

-- A new safety disarm goes ahead of whatever was pending: the next command is DISARM.
pub demand_disarms :
    (m : String) (a : Bool) (now : ℤ) (ms al : Bool) (s : FcuSessionController)
    → s.connected ≡ true
    → s.safety_disarm ≡ false
    → let t = demand m a true s in
      (next now ms true al t).1
      ≡ some (record { serial = inc64 s.serial; kind = Kind.arm; mode = m; arm = false })
unfolding next send choose tick demand
demand_disarms m a now ms al s c d = ground arith

-- Under a safety disarm, where the FCU was last seen disarmed and nothing is pending: once it is seen
-- armed over a live link, a pass of `next` right after, with the ARM service there, sends DISARM,
-- also if an earlier ARM or DISARM has failed.
pub observe_disarms :
    (m : String) (now : ℤ) (ms al : Bool) (s : FcuSessionController)
    → s.safety_disarm ≡ true
    → s.armed ≡ false
    → s.pending ≡ none
    → let t = observe true true m s in
      (next now ms true al t).1
      ≡ some
          (record { serial = inc64 s.serial; kind = Kind.arm; mode = s.wanted_mode; arm = false })
unfolding next send choose tick observe note_state settle
observe_disarms m now ms al s d a p = ground arith

-- A ready controller that no safety disarm drives is at rest.
pub ready_rests :
    (now : ℤ) (ms ar al : Bool) (s : FcuSessionController)
    → ready s ≡ true
    → (s.safety_disarm ≡ true → (s.force_disarm ≡ false) × (s.armed ≡ false))
    → next now ms ar al s ≡ (s, none)
unfolding next send choose tick ready
ready_rests now ms ar al s r d = ground arith
