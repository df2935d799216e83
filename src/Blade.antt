-- ===== src/Blade.antt =====
-- BladeControl of ros2/src/mowgli_mavros_bridge/include/mowgli_mavros_bridge/blade_control.hpp: the
-- sequencer between a blade demand and the servo commands that carry it out.
pub mod Types
pub mod Request
pub mod Transport
pub mod Calls
pub mod Invariant
pub mod Commands
pub mod Starts
pub mod Sequence
pub mod Samples
pub mod Requests
mod Examples
