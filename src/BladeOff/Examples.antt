-- ===== src/BladeOff/Examples.antt =====
-- BladeOffControl (blade_off_control.hpp) at concrete inputs.
use mowglimavros.Prelude.{true, false, ◌≡◌, arith}
use mowglimavros.Prelude.Int.{pos}
use mowglimavros.BladeOff.{BladeOffControl, idle, decide, begin, send_neutral}
use mowglimavros.BladeOff.Generations.{resets, complete_earlier}

abbrev third : BladeOffControl
third = record { channel = pos 3; neutral_pwm = pos 1500; generation = 7; state = idle }

complete_earlier_example : decide false (resets 2 (begin third).0) ≡ send_neutral
complete_earlier_example = (complete_earlier 1 true true third (omega arith) (omega arith)).0
