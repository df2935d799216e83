-- ===== src/Bridge/Calls.antt =====
-- The callbacks of the node (mavros_hardware_bridge_node.cpp) as one step, and their runs.
use Prim.Native.String.{String}
use mowglimavros.Prelude.{ℕ, Bool, Option, List, [], ◌∷◌}
use mowglimavros.Prelude.Int.{ℤ}
use mowglimavros.Prelude.Double.{Double}
use mowglimavros.Esc.{EscObservation}
use mowglimavros.Bridge.Node.{Node, Env, Twist}
use mowglimavros.Bridge.Handlers.{
  on_timer, on_high_level_status, on_sys_status, on_button, on_imu, on_power, on_gnss_status,
  on_wheel_odom, on_mower_control, on_emergency_stop,
}
use mowglimavros.Bridge.Telemetry.{
  on_blade_reply, on_session_reply, on_blade_wire, on_blade_output, on_cmd_vel, on_mavros_state,
  on_esc_telemetry, on_slots,
}

pub data Call (F : Type 0) : Type 0 where
  timer : Call F
  high_level_status : ℕ → Call F
  sys_status : Bool → Bool → Call F
  button : Option ℕ → Call F
  imu : Bool → Call F
  power : Bool → Bool → String → Call F
  gnss_status : ℕ → String → Bool → Call F
  wheel_odom : Call F
  mower_control : ℕ → ℕ → ℕ → Call F
  emergency_stop : Bool → Call F
  blade_reply : ℕ → Bool → Call F
  session_reply : ℕ → Bool → Call F
  blade_wire : ℤ → ℤ → Call F
  blade_output : ℤ → Option ℤ → Call F
  cmd_vel : Twist F → Call F
  mavros_state : Bool → Bool → String → Call F
  esc_telemetry : EscObservation F → Call F
  slots : ℤ → ℤ → ℤ → Call F

module _ (D : Double) where
  open D use {F}

  unfoldable pub step : Env → Call F → Node F → Node F
  step e timer n = on_timer e n
  step e (high_level_status state) n = on_high_level_status state e n
  step e (sys_status present enabled) n = on_sys_status present enabled e n
  step e (button state) n = on_button state e n
  step e (imu tilted) n = on_imu tilted e n
  step e (power finite charger status) n = on_power finite charger status e n
  step e (gnss_status sequence backend valid) n = on_gnss_status sequence backend valid e n
  step e wheel_odom n = on_wheel_odom e n
  step e (mower_control header enabled direction) n = on_mower_control header enabled direction e n
  step e (emergency_stop active) n = (on_emergency_stop active e n).0
  step e (blade_reply token accepted) n = on_blade_reply token accepted e n
  step e (session_reply serial accepted) n = on_session_reply serial accepted e n
  step e (blade_wire channel pwm) n = on_blade_wire channel pwm e n
  step e (blade_output stamp pwm) n = on_blade_output stamp pwm e n
  step e (cmd_vel v) n = on_cmd_vel D v e n
  step e (mavros_state connected armed mode) n = on_mavros_state D connected armed mode e n
  step e (esc_telemetry o) n = on_esc_telemetry D o e n
  step e (slots right left blade) n = on_slots D right left blade e n

  unfoldable pub run : List (Env × Call F) → Node F → Node F
  run [] n = n
  run ((e, c) ∷ cs) n = run cs (step e c n)
