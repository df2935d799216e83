-- ===== src/Session.antt =====
-- FcuSessionController of
-- ros2/src/mowgli_mavros_bridge/include/mowgli_mavros_bridge/fcu_session_controller.hpp: the sequencer
-- of MODE and ARM commands. Modes are texts; a mutating method returns the new record.
pub mod Controller
pub mod Invariant
pub mod Commands
pub mod Rounds
pub mod Failures
mod Examples
