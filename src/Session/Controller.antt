-- ===== src/Session/Controller.antt =====
-- The state and the methods of FcuSessionController
-- (ros2/src/mowgli_mavros_bridge/include/mowgli_mavros_bridge/fcu_session_controller.hpp).
use Prim.Native.String.{String}
use text.Mathlib.Text.{◌==◌ as str_eq}
use mowglimavros.Prelude.{
  ℕ, Bool, true, false, not, ◌&&◌, ◌||◌, Option, none, some, ◌==◌, inc64, same, is_some,
  if◌then◌else◌,
}
use mowglimavros.Prelude.Int.{ℤ, pos, ◌-ℤ◌, leb_ℤ}

pub data Kind : Type 0 where
  mode arm : Kind

pub record Command : Type 0 where
  pub serial : ℕ
  pub kind : Kind
  pub mode : String
  pub arm : Bool

-- The argument of `fail`.
pub data Reason : Type 0 where
  confirmation_timeout request_refused : Reason

pub record FcuSessionController : Type 0 where
  pub wanted_mode : String
  pub mode : String
  pub error : String
  pub wanted_arm : Bool
  pub armed : Bool
  pub connected : Bool
  pub safety_disarm : Bool
  pub force_disarm : Bool
  pub mode_failed : Bool
  pub arm_failed : Bool
  pub acked : Bool
  pub serial : ℕ
  pub sent_at : ℤ
  pub pending : Option Command

unfoldable pub initial : FcuSessionController
initial = record {
  wanted_mode = "HOLD";
  mode = "";
  error = "";
  wanted_arm = false;
  armed = false;
  connected = false;
  safety_disarm = false;
  force_disarm = false;
  mode_failed = false;
  arm_failed = false;
  acked = false;
  serial = 0;
  sent_at = pos 0;
  pending = none;
}

abbrev pub is_mode : Kind → Bool
is_mode Kind.mode = true
is_mode Kind.arm = false

unfoldable pub failed : FcuSessionController → Bool
failed s = s.mode_failed || s.arm_failed

unfoldable pub current : ℕ → FcuSessionController → Bool
current serial s = elim s.pending [ none ↦ false | some c ↦ c.serial == serial ]

unfoldable pub command_acknowledged : FcuSessionController → Bool
command_acknowledged s = is_some s.pending && s.acked

unfoldable pub disarm_pending : FcuSessionController → Bool
disarm_pending s = elim s.pending [ none ↦ false | some c ↦ not (is_mode c.kind) && not c.arm ]

unfoldable pub ready : FcuSessionController → Bool
ready s =
    s.connected
    && not (is_some s.pending)
    && str_eq s.mode s.wanted_mode
    && same s.armed s.wanted_arm

-- The observed state is what the pending command asks for.
unfoldable pub confirms : FcuSessionController → Command → Bool
confirms s c = if is_mode c.kind then str_eq s.mode c.mode else same s.armed c.arm

unfoldable pub settle : FcuSessionController → FcuSessionController
unfolding confirms failed
settle s = elim s.pending [
  | none ↦ s
  | some c ↦
      if s.acked && confirms s c
      then record s { pending = none; error = if failed s then s.error else "" }
      else s
]

-- `std::string(mode ? "mode:" : "arming:") + reason`.
abbrev pub error_text : Kind → Reason → String
error_text Kind.mode confirmation_timeout = "mode:confirmation_timeout"
error_text Kind.mode request_refused = "mode:request_refused"
error_text Kind.arm confirmation_timeout = "arming:confirmation_timeout"
error_text Kind.arm request_refused = "arming:request_refused"

unfoldable pub fail : Reason → FcuSessionController → FcuSessionController
fail reason s = elim s.pending [
  | none ↦ s
  | some c ↦ record s {
    mode_failed = s.mode_failed || (is_mode c.kind && str_eq c.mode s.wanted_mode);
    arm_failed = s.arm_failed || (not (is_mode c.kind) && same c.arm s.wanted_arm);
    error = error_text c.kind reason;
    pending = none;
  }
]

unfoldable pub demand : String → Bool → Bool → FcuSessionController → FcuSessionController
demand wanted arms disarm s =
    if str_eq s.wanted_mode wanted && same s.wanted_arm arms && same s.safety_disarm disarm
    then s
    else let rising = disarm && not s.safety_disarm in
      record s {
        wanted_mode = wanted;
        wanted_arm = arms;
        mode_failed = false;
        arm_failed = false;
        error = "";
        pending = if rising then none else s.pending;
        force_disarm = if rising then true else s.force_disarm;
        safety_disarm = disarm;
      }

-- `observe` up to its call of `settle`.
unfoldable pub note_state : Bool → Bool → String → FcuSessionController → FcuSessionController
note_state connected armed seen s =
    let rearmed = s.safety_disarm && armed && not s.armed in
    let mode_met = connected && str_eq seen s.wanted_mode in
    let arm_met = connected && same armed s.wanted_arm in
    record s {
      pending = if connected then s.pending else none;
      force_disarm = if rearmed then true else s.force_disarm;
      connected = connected;
      armed = armed;
      mode = seen;
      mode_failed = if mode_met then false else s.mode_failed;
      arm_failed = if arm_met then false else if rearmed then false else s.arm_failed;
    }

unfoldable pub observe : Bool → Bool → String → FcuSessionController → FcuSessionController
observe connected armed seen s = settle (note_state connected armed seen s)

unfoldable pub tick : ℤ → FcuSessionController → FcuSessionController
tick now s =
    if is_some s.pending && leb_ℤ (pos 3000) (now -ℤ s.sent_at)
    then fail confirmation_timeout s
    else s

-- What `next` sends when it is connected and nothing is pending: the kind, the arm flag, and the
-- new `force_disarm_`.
unfoldable pub choose : Bool → Bool → Bool → FcuSessionController → Option (Kind × Bool × Bool)
choose mode_service arm_service allow_arm s =
    if s.safety_disarm && (s.force_disarm || s.armed) && not s.arm_failed
    then if arm_service then some (Kind.arm, false, false) else none
    else if not (str_eq s.mode s.wanted_mode) && not s.mode_failed
    then if mode_service
      then some (Kind.mode, false, s.force_disarm)
      else if s.wanted_arm || not s.armed || s.arm_failed || not arm_service
      then none
      else some (Kind.arm, false, s.force_disarm)
    else if not (same s.armed s.wanted_arm) && not s.arm_failed
    then if s.wanted_arm && (not (str_eq s.mode s.wanted_mode) || not allow_arm) || not arm_service
      then none
      else some (Kind.arm, s.wanted_arm, s.force_disarm)
    else none

unfoldable pub send :
    ℤ → FcuSessionController → Option (Kind × Bool × Bool) → FcuSessionController × Option Command
send now s none = (s, none)
send now s (some (kind, arms, force)) =
    let command : Command = record {
      serial = inc64 s.serial;
      kind = kind;
      mode = s.wanted_mode;
      arm = arms;
    } in
    (
      record s {
        force_disarm = force;
        serial = inc64 s.serial;
        pending = some command;
        acked = false;
        sent_at = now;
      },
      some command,
    )

unfoldable pub next :
    ℤ → Bool → Bool → Bool → FcuSessionController → FcuSessionController × Option Command
next now mode_service arm_service allow_arm s =
    let t = tick now s in
    if not t.connected || is_some t.pending
    then (t, none)
    else send now t (choose mode_service arm_service allow_arm t)

unfoldable pub complete : ℕ → Bool → ℤ → FcuSessionController → FcuSessionController
complete serial accepted now s =
    let t = tick now s in
    if not (current serial t)
    then t
    else if not accepted
    then fail request_refused t
    else settle (record t { acked = true })
