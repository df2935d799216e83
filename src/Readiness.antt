-- ===== src/Readiness.antt =====
-- ReadinessState of ros2/src/mowgli_mavros_bridge/src/readiness_state.cpp (declared in
-- ros2/src/mowgli_mavros_bridge/include/mowgli_mavros_bridge/readiness_state.hpp): freshness of the
-- IMU, GNSS, wheel and traction observations, in nanoseconds of receipt.
pub mod Freshness
mod Examples
use Prim.Native.String.{String}
use text.Mathlib.Text.{◌==◌ as str_eq}
use mowglimavros.Prelude.{
  ℕ, Bool, true, false, not, ◌&&◌, ◌||◌, Option, none, some, leb, ◌==◌, same, if◌then◌else◌,
}
use mowglimavros.Prelude.Int.{ℤ, pos, ◌-ℤ◌, leb_ℤ, ltb_ℤ}

pub record Readiness : Type 0 where
  pub connected : Bool
  pub imu_fresh : Bool
  pub gnss_fresh : Bool
  pub gnss_valid : Bool
  pub wheel_fresh : Bool
  pub traction_fresh : Bool
  pub traction_valid : Bool
  pub ready : Bool

pub record ReadinessState : Type 0 where
  pub timeout_ns : ℤ
  pub gnss_required : Bool
  pub wheel_odometry_required : Bool
  pub last_status_ns : ℤ
  pub connected : Bool
  pub imu_stamp : Option ℤ
  pub gnss_stamp : Option ℤ
  pub wheel_stamp : Option ℤ
  pub traction_stamp : Option ℤ
  pub gnss_valid : Bool
  pub traction_valid : Bool
  pub gnss_sequence : ℕ
  pub gnss_incarnation : String

-- The constructor; the conversion of the time-out from seconds is the caller's.
pub create : ℤ → Bool → Bool → ReadinessState
create timeout_ns gnss_required wheel_odometry_required = record {
  timeout_ns = timeout_ns;
  gnss_required = gnss_required;
  wheel_odometry_required = wheel_odometry_required;
  last_status_ns = pos 0;
  connected = false;
  imu_stamp = none;
  gnss_stamp = none;
  wheel_stamp = none;
  traction_stamp = none;
  gnss_valid = false;
  traction_valid = false;
  gnss_sequence = 0;
  gnss_incarnation = "";
}

pub connection : Bool → ReadinessState → ReadinessState
connection connected s = if same s.connected connected then s else record s {
  connected = connected;
  imu_stamp = none;
  gnss_stamp = none;
  wheel_stamp = none;
  traction_stamp = none;
  gnss_valid = false;
  traction_valid = false;
  gnss_sequence = 0;
  gnss_incarnation = "";
  last_status_ns = pos 0;
}

pub imu : ℤ → ReadinessState → ReadinessState
imu receipt s =
    if s.connected && ltb_ℤ (pos 0) receipt
    then record s { imu_stamp = some receipt; last_status_ns = receipt }
    else s

pub wheel : ℤ → ReadinessState → ReadinessState
wheel receipt s =
    if s.connected && ltb_ℤ (pos 0) receipt
    then record s { wheel_stamp = some receipt; last_status_ns = receipt }
    else s

pub traction : ℤ → Bool → ReadinessState → ReadinessState
traction receipt valid s =
    if s.connected && ltb_ℤ (pos 0) receipt
    then record s {
      traction_stamp = some receipt;
      traction_valid = valid;
      last_status_ns = receipt;
    }
    else s

-- `!stamp || receipt - *stamp <= timeout`: the prior observation has not expired.
abbrev pub unexpired : Option ℤ → ℤ → ℤ → Bool
unexpired none receipt timeout = true
unexpired (some stamp) receipt timeout = leb_ℤ (receipt -ℤ stamp) timeout

-- A new incarnation starts without an observation.
pub adopt : String → ReadinessState → ReadinessState
adopt incarnation s =
    if str_eq incarnation s.gnss_incarnation
    then s
    else record s { gnss_stamp = none; gnss_sequence = 0; gnss_incarnation = incarnation }

pub accept_gnss : ℤ → ℕ → Bool → ReadinessState → ReadinessState
accept_gnss receipt sequence valid s =
    if leb sequence s.gnss_sequence && unexpired s.gnss_stamp receipt s.timeout_ns
    then s
    else record s {
      gnss_sequence = sequence;
      gnss_stamp = some receipt;
      gnss_valid = valid;
      last_status_ns = receipt;
    }

pub gnss : ℤ → ℕ → String → Bool → ReadinessState → ReadinessState
gnss receipt sequence incarnation valid s =
    if not s.connected || leb_ℤ receipt (pos 0) || sequence == 0 || str_eq incarnation ""
    then s
    else accept_gnss receipt sequence valid (adopt incarnation s)

abbrev pub fresh : ℤ → Option ℤ → ℤ → Bool
fresh timeout none now = false
fresh timeout (some stamp) now = leb_ℤ stamp now && leb_ℤ (now -ℤ stamp) timeout

pub project : ℤ → ReadinessState → Readiness
project now s =
    let imu_fresh = fresh s.timeout_ns s.imu_stamp now in
    let gnss_fresh = fresh s.timeout_ns s.gnss_stamp now in
    let wheel_fresh = fresh s.timeout_ns s.wheel_stamp now in
    let traction_fresh = fresh s.timeout_ns s.traction_stamp now in
    record {
      connected = s.connected;
      imu_fresh = imu_fresh;
      gnss_fresh = gnss_fresh;
      gnss_valid = s.gnss_valid;
      wheel_fresh = wheel_fresh;
      traction_fresh = traction_fresh;
      traction_valid = s.traction_valid;
      ready =
          s.connected
          && imu_fresh
          && traction_fresh
          && s.traction_valid
          && (not s.gnss_required || (gnss_fresh && s.gnss_valid))
          && (not s.wheel_odometry_required || wheel_fresh);
    }
