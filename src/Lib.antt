-- ===== src/Lib.antt =====
-- mowglimavros: models and proofs for the C++ components that stand between a MAVROS flight controller
-- (FCU) and the mower. All paths below are under ros2/src.
--
-- The parts and their files:
--
-- Blade: BladeControl of mowgli_mavros_bridge/include/mowgli_mavros_bridge/blade_control.hpp, which
--   turns requests for the blade into servo commands. Blade/Types has the fields and the getters,
--   Blade/Request the operations that demand (connection, permission, request, service_timeout,
--   force_off), Blade/Transport those of telemetry and commands (sample, tick, next, complete, output),
--   Blade/Calls runs of calls. Blade/Invariant, Commands, Starts, Sequence, Samples and
--   Requests prove.
-- Session: FcuSessionController of fcu_session_controller.hpp beside it, which brings the FCU to a
--   flight mode and an arming state. Session/Controller is the model; Session/Invariant, Commands,
--   Rounds and Failures prove.
-- Safety: SafetyState of safety_state.hpp, the emergency latches; Safety/Emergency proves.
-- Readiness: ReadinessState of readiness_state.hpp and src/readiness_state.cpp, the freshness of the
--   sensors; Readiness/Freshness proves.
-- Esc: EscTelemetryTracker of esc_telemetry_tracker.hpp and, in Esc/Projection,
--   blade_telemetry_from_esc of vesc_telemetry_projection.hpp; Esc/Validity proves.
-- BladeOff: BladeOffControl of blade_off_control.hpp, the sequencer that only sends neutral.
-- Firmware: FirmwareProvider of firmware_provider.hpp and src/firmware_provider.cpp, with
--   rover_manual_control.hpp; Firmware/Providers proves.
-- Power: PowerState of mavros_battery_observer/include/mavros_battery_observer/power_state.hpp;
--   Power/Charger proves.
-- Wheel: mavros_esc_wheel_odometry. Wheel/Core is WheelOdometryCore, Wheel/Integrator
--   MotorTickIntegrator, Wheel/Legacy LegacyWheelAdapter, Wheel/Ticks WheelTickProjector; Wheel/Order
--   and Wheel/Counters prove.
-- Gnss: mavros_gnss_adapter. Gnss/Status is status_mapping.hpp, Gnss/Adapter is AdapterState of
--   adapter_state.hpp; Gnss/Validity and Gnss/Fixes prove.
-- Ntrip: the answer of a caster in mowgli_ntrip_client/src/ntrip_connection.cpp, where Ntrip/Payload and
--   Handshake prove, in Ntrip/Base64 the encoding of its credentials, where Ntrip/Sextets and RoundTrip
--   prove, and in Ntrip/Chunks the chunks of ntrip_client_node.cpp beside it.
-- Engine: ObservationEngine of mavros_esc_wheel_odometry/src/observation_engine.cpp and
--   observation_engine.hpp, which takes reports of ESCs and encoders, chooses one source of wheel
--   motion and publishes its observations. Engine/Config, State, Select, Common, Info, Legacy, Distance
--   and Report are its methods, Engine/Calls runs of calls; Engine/Selection, Invariant, Telemetry,
--   Encoders, Runs, Leases, Reports, Measured and Speeds prove.
-- Bridge: the node of mowgli_mavros_bridge/src/mavros_hardware_bridge_node.cpp. Bridge/Node is its state
--   and what it sends, Bridge/Replies the answers of its service, Bridge/Blade drive_blade_locked,
--   Bridge/Session drive_session_locked and request_safety_disarm, Bridge/Handlers and Bridge/Telemetry
--   its callbacks, Bridge/Calls one step of any of them; Bridge/Still, Settles, Starts, Moves, Steps,
--   SafeStarts, Velocity, Emergency, Owed, Requests and Accounts prove.
-- Prelude: names of the library passed on, Boolean tests, integers (Prelude/Int) and floating point
--   as an interface (Prelude/Double).
--
-- The node of mowgli_mavros_bridge owns one object of each class of that package and calls it from its
-- ROS callbacks and timers; the plugins of the other packages do the same with theirs. Each object is
-- used by one caller at a time, so a state is a record, a method that changes it is a function that
-- returns the new record, and what a caller can do is a list of calls. A callback of the node reads each
-- clock once, and what it reads from outside is a record Env; what it sends is a list in its state, the
-- latest first. Each component has a module Examples with concrete runs.
--
-- Conventions: int64_t and int32_t are integers without overflow, since times are nanoseconds or
-- milliseconds of a clock; unsigned counters, tokens and generations wrap at their width. float and
-- double are a type with operations of which nothing is assumed; the examples use integers with one
-- value that is not a number. Where a class takes a time-out in seconds the model takes it converted.
-- The reason texts of Safety are constructors, and a std::invalid_argument is none, or a text in
-- Firmware. An enumeration is a data type; a byte whose values come from a message is a number.
--
-- Every loop of these parts is a recursion on a list, or counted over a fixed number of wheels or slots,
-- but that of Ntrip/Chunks, whose fuel is the number of bytes: each round takes at least one.
--
-- Not modelled: the plugins (ROS transport), the parameters of the node and the messages that it
-- publishes for display, the trigonometry of its inclination test (its outcome is an argument), the
-- connection states and timers of the NTRIP client, the firmware detection, the decoding of MAVLink
-- messages (button_change_decoder.hpp, ellipsoid_altitude.hpp), getters of one field and texts for
-- display. Where the code uses them, their results are arguments of the operations.
mod Prelude
pub mod Blade
pub mod Session
pub mod Safety
pub mod Readiness
pub mod Esc
pub mod Power
pub mod BladeOff
pub mod Wheel
pub mod Gnss
pub mod Firmware
pub mod Ntrip
pub mod Engine
pub mod Bridge
