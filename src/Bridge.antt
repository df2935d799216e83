-- ===== src/Bridge.antt =====
-- The node of ros2/src/mowgli_mavros_bridge/src/mavros_hardware_bridge_node.cpp: its callbacks drive
-- the blade and the session of the flight controller (FCU) from what they observe.
pub mod Node
pub mod Replies
pub mod Blade
pub mod Session
pub mod Handlers
pub mod Telemetry
pub mod Calls
pub mod Still
pub mod Settles
pub mod Starts
pub mod Moves
pub mod Steps
pub mod SafeStarts
pub mod Velocity
pub mod Emergency
pub mod Owed
pub mod Requests
pub mod Accounts
mod Examples
