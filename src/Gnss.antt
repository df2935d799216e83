-- ===== src/Gnss.antt =====
-- The GNSS adapter of ros2/src/mavros_gnss_adapter/include/mavros_gnss_adapter: adapter_state.hpp and
-- the parts of status_mapping.hpp that it rests on.
pub mod Status
pub mod Adapter
pub mod Validity
pub mod Fixes
mod Examples
