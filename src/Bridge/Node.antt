-- ===== src/Bridge/Node.antt =====
-- The state of MavrosHardwareBridgeNode (mowgli_mavros_bridge/mavros_hardware_bridge_node.hpp), what
-- a callback reads from outside, and what the node sends.
use Prim.Native.String.{String}
use mowglimavros.Prelude.{ℕ, Bool, true, false, ◌||◌, List, [], ◌∷◌, ◌==◌, suc, if◌then◌else◌}
use mowglimavros.Prelude.Int.{ℤ}
use mowglimavros.Blade.Types as BladeTypes
use mowglimavros.Blade.Types.{Direction, BladeControl}
use mowglimavros.Session.Controller.{FcuSessionController}
use mowglimavros.Safety.{SafetyState}
use mowglimavros.Safety as Safety
use mowglimavros.Readiness.{ReadinessState}
use mowglimavros.Esc.{EscTelemetryTracker}

-- A request of the service ~/mower_control is known by a number, its header.
pub record PendingBladeStart : Type 0 where
  pub header : ℕ
  pub direction : Direction
  pub started_ms : ℤ

pub record BladeReply : Type 0 where
  pub header : ℕ
  pub revision : ℕ
  pub started_ms : ℤ

pub record BladeWireExpectation : Type 0 where
  pub pwm : ℤ
  pub until_ms : ℤ

-- The services of the FCU that the node calls.
pub data Client : Type 0 where
  command_long set_mode arming : Client

pub record Twist (F : Type 0) : Type 0 where
  pub linear : F
  pub angular : F

-- What the node sends. `replies` answers a request of ~/mower_control; a velocity is sent on one of
-- two transports, as is its neutral.
pub data Output (F : Type 0) : Type 0 where
  replies : ℕ → Bool → Output F
  neutral_manual : Output F
  neutral_guided : Output F
  manual : Twist F → Output F
  guided : Twist F → Output F
  commands : BladeTypes.Command → Output F
  requests_mode : String → Output F
  requests_arm : Bool → Output F
  drops : Client → ℕ → Output F

-- What a callback reads from outside: the two clocks, the firmware provider, which services are
-- ready, whether a request can be sent, and the number the client gives it.
pub record Env : Type 0 where
  pub steady : ℤ
  pub now : ℤ
  pub ardupilot : Bool
  pub guided_velocity_implemented : Bool
  pub command_ready : Bool
  pub mode_ready : Bool
  pub arm_ready : Bool
  pub sends : Bool
  pub request_id : ℕ

-- `sent` holds what was sent, the latest first.
pub record Node (F : Type 0) : Type 0 where
  pub mowing_enabled : Bool
  pub mow_enabled : Bool
  pub tilt_emergency_ms : ℤ
  pub tilt_started_ns : ℤ
  pub tilt_disarm_sent : Bool
  pub double_lift_disarm_sent : Bool
  pub blade : BladeControl
  pub session : FcuSessionController
  pub blade_test_active : Bool
  pub traction_was_ready : Bool
  pub session_rpc_ids : List (ℕ × (Client × ℕ))
  pub pending_blade_starts : List PendingBladeStart
  pub blade_replies : List BladeReply
  pub blade_rpc_ids : List (ℕ × ℕ)
  pub last_fcu_receipt_ms : ℤ
  pub last_hardware_safety_ms : ℤ
  pub last_blade_output_stamp : ℤ
  pub blade_wire_expectations : List BladeWireExpectation
  pub safety : SafetyState
  pub is_charging : Bool
  pub charger_enabled : Bool
  pub charger_status : String
  pub readiness : ReadinessState
  pub esc_tracker : EscTelemetryTracker F
  pub right_esc_slot : ℤ
  pub left_esc_slot : ℤ
  pub blade_esc_slot : ℤ
  pub connected : Bool
  pub armed : Bool
  pub mode : String
  pub last_power_receipt_ns : ℤ
  pub high_level_state : ℕ
  pub sent : List (Output F)

abbrev pub length {ℓ} : {A : Type ℓ} → List A → ℕ
length [] = 0
length (_ ∷ l) = suc (length l)

-- `std::any_of`.
abbrev pub any {ℓ} : {A : Type ℓ} → (A → Bool) → List A → Bool
any f [] = false
any f (a ∷ l) = f a || any f l

abbrev pub is_empty {ℓ} : {A : Type ℓ} → List A → Bool
is_empty [] = true
is_empty (_ ∷ _) = false

-- The values of the message mowgli_interfaces/msg/HighLevelStatus.
abbrev pub high_level_state_autonomous : ℕ
high_level_state_autonomous = 2

abbrev pub high_level_state_recording : ℕ
high_level_state_recording = 3

abbrev pub high_level_state_manual_mowing : ℕ
high_level_state_manual_mowing = 4

abbrev pub high_level_motion_active : ℕ → Bool
high_level_motion_active s =
    s == high_level_state_autonomous
    || s == high_level_state_recording
    || s == high_level_state_manual_mowing

module _ {F : Type 0} where
  abbrev pub motion_session_active : Node F → Bool
  motion_session_active n = high_level_motion_active n.high_level_state

  -- `safety_state_.project(now)`: an emergency that is active or latched.
  unfoldable pub emergency : Env → Node F → Bool
  emergency e n = let s = Safety.project e.now n.safety in s.active_emergency || s.latched_emergency

  abbrev pub send : Output F → Node F → Node F
  send o n = record n { sent = o ∷ n.sent }

  abbrev pub publish_neutral_manual_control : Env → Node F → Node F
  publish_neutral_manual_control e n =
      if e.guided_velocity_implemented
      then send neutral_guided (send neutral_manual n)
      else send neutral_manual n
