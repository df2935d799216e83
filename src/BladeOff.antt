-- ===== src/BladeOff.antt =====
-- BladeOffControl of ros2/src/mowgli_mavros_bridge/include/mowgli_mavros_bridge/blade_off_control.hpp:
-- one neutral command for each connection.
pub mod Generations
mod Examples
use mowglimavros.Prelude.{
  ℕ, Bool, true, false, ◌&&◌, Option, none, some, ◌==◌, inc64, if◌then◌else◌,
}
use mowglimavros.Prelude.Int.{ℤ, pos, leb_ℤ}

pub data Decision : Type 0 where
  send_neutral already_accepted failed on_inhibited : Decision

pub data State : Type 0 where
  idle pending confirmed failed : State

pub record Command : Type 0 where
  pub id : ℕ
  pub channel : ℤ
  pub pwm : ℤ

pub record BladeOffControl : Type 0 where
  pub channel : ℤ
  pub neutral_pwm : ℤ
  pub generation : ℕ
  pub state : State

-- `none` is the exception std::invalid_argument.
pub create : ℤ → ℤ → Option BladeOffControl
create channel neutral_pwm =
    if leb_ℤ (pos 1) channel
      && leb_ℤ channel (pos 32)
      && leb_ℤ (pos 1000) neutral_pwm
      && leb_ℤ neutral_pwm (pos 2000)
    then some
        (record { channel = channel; neutral_pwm = neutral_pwm; generation = 0; state = idle })
    else none

abbrev verdict : State → Decision
verdict State.failed = Decision.failed
verdict idle = send_neutral
verdict _ = already_accepted

pub decide : Bool → BladeOffControl → Decision
decide enabled s = if enabled then on_inhibited else verdict s.state

-- The new state, and the generation that the reply has to name.
pub begin : BladeOffControl → BladeOffControl × ℕ
begin s = (record s { state = pending }, s.generation)

abbrev is_pending : State → Bool
is_pending pending = true
is_pending _ = false

pub complete : ℕ → Bool → BladeOffControl → BladeOffControl
complete generation accepted s =
    if generation == s.generation && is_pending s.state
    then record s { state = if accepted then confirmed else State.failed }
    else s

pub reset_connection : BladeOffControl → BladeOffControl
reset_connection s = record s { generation = inc64 s.generation; state = idle }

-- MAV_CMD_DO_SET_SERVO; the casts to float are exact on these ranges.
pub command : BladeOffControl → Command
command s = record { id = 183; channel = s.channel; pwm = s.neutral_pwm }
