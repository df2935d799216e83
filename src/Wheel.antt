-- ===== src/Wheel.antt =====
-- The wheel odometry of ros2/src/mavros_esc_wheel_odometry: the data that its parts share
-- (include/mavros_esc_wheel_odometry/wheel_odometry_core.hpp and motor_tick_integrator.hpp).
pub mod Data
pub mod Core
pub mod Integrator
pub mod Legacy
pub mod Ticks
pub mod Order
pub mod Counters
mod Examples
