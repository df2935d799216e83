-- ===== src/Engine.antt =====
-- ObservationEngine of ros2/src/mavros_esc_wheel_odometry/src/observation_engine.cpp and
-- include/mavros_esc_wheel_odometry/observation_engine.hpp: reports of ESCs and encoders go in, one
-- source of wheel motion is chosen, and its observations come out.
pub mod Data
pub mod Config
pub mod State
pub mod Select
pub mod Common
pub mod Info
pub mod Legacy
pub mod Distance
pub mod Report
pub mod Selection
pub mod Calls
pub mod Invariant
pub mod Telemetry
pub mod Encoders
pub mod Runs
pub mod Leases
pub mod Reports
pub mod Measured
pub mod Speeds
mod Examples
