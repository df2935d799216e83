-- ===== src/Power.antt =====
-- PowerState of ros2/src/mavros_battery_observer/include/mavros_battery_observer/power_state.hpp: the
-- charger's presence by hysteresis, and the voltages and currents that are published. The arithmetic
-- on double is a parameter.
pub mod Charger
mod Examples
use mowglimavros.Prelude.{
  Bool, true, false, not, ◌&&◌, ◌||◌, Option, none, some, is_some, if◌then◌else◌,
}
use mowglimavros.Prelude.Int.{ℤ, pos, ◌-ℤ◌, leb_ℤ, ltb_ℤ}
use mowglimavros.Prelude.Double.{Double}

pub record BatterySample (F : Type 0) : Type 0 where
  pub voltage : Option F
  pub current : Option F
  pub receipt_ns : ℤ

pub record PowerProjection (F : Type 0) : Type 0 where
  pub v_charge : F
  pub v_battery : F
  pub charge_current : F
  pub battery_current : F
  pub charger_enabled : Bool
  pub dock_fresh : Bool
  pub battery_fresh : Bool

pub record PowerState (F : Type 0) : Type 0 where
  pub stale_after_ns : ℤ
  pub charger_on_voltage : F
  pub charger_off_voltage : F
  pub charger_present : Bool
  pub dock : Option (BatterySample F)
  pub battery : Option (BatterySample F)

module _ (D : Double) where
  open D use {F, nan, of_int, is_finite, lt, minus, negate}

  -- The constructor; the conversion of the time-out from seconds is the caller's.
  pub create : ℤ → F → F → PowerState F
  create stale_after_ns on off = record {
    stale_after_ns = stale_after_ns;
    charger_on_voltage = on;
    charger_off_voltage = off;
    charger_present = false;
    dock = none;
    battery = none;
  }

  pub valid : PowerState F → Bool
  valid s =
      ltb_ℤ (pos 0) s.stale_after_ns
      && is_finite s.charger_on_voltage
      && is_finite s.charger_off_voltage
      && not (lt s.charger_off_voltage (of_int (pos 0)))
      && lt s.charger_off_voltage s.charger_on_voltage

  pub observe_dock : BatterySample F → PowerState F → PowerState F
  observe_dock sample s = record s { dock = some sample }

  pub observe_battery : BatterySample F → PowerState F → PowerState F
  observe_battery sample s = record s { battery = some sample }

  pub reset : PowerState F → PowerState F
  reset s = record s { dock = none; battery = none; charger_present = false }

  pub fresh : ℤ → Option (BatterySample F) → ℤ → Bool
  fresh stale_after none now = false
  fresh stale_after (some m) now = leb_ℤ m.receipt_ns now && leb_ℤ (now -ℤ m.receipt_ns) stale_after

  abbrev pub voltage_of : Option (BatterySample F) → Option F
  voltage_of none = none
  voltage_of (some m) = m.voltage

  abbrev pub current_of : Option (BatterySample F) → Option F
  current_of none = none
  current_of (some m) = m.current

  -- Hysteresis at a voltage: OFF below the lower threshold, ON above the upper one.
  pub hysteresis : F → PowerState F → Bool
  hysteresis v s =
      if not (is_finite v)
      then false
      else if s.charger_present
      then not (lt v s.charger_off_voltage)
      else lt s.charger_on_voltage v

  -- The next `charger_present_`: no charger without a fresh dock voltage.
  pub presence : Bool → Option F → PowerState F → Bool
  presence false v s = false
  presence true none s = false
  presence true (some v) s = hysteresis v s

  abbrev or_nan : Option F → F
  or_nan none = nan
  or_nan (some a) = a

  abbrev negated : Option F → F
  negated none = nan
  negated (some a) = negate a

  abbrev difference : Option F → Option F → F
  difference none b = nan
  difference (some a) none = nan
  difference (some a) (some b) = minus a b

  -- `project` updates the mutable `charger_present_`.
  pub project : ℤ → PowerState F → PowerState F × PowerProjection F
  project now s =
      let dock_fresh = fresh s.stale_after_ns s.dock now in
      let battery_fresh = fresh s.stale_after_ns s.battery now in
      let present = presence dock_fresh (voltage_of s.dock) s in
      (
        record s { charger_present = present },
        record {
          v_charge = if dock_fresh then or_nan (voltage_of s.dock) else nan;
          v_battery = if battery_fresh then or_nan (voltage_of s.battery) else nan;
          charge_current =
              if dock_fresh && battery_fresh
              then difference (current_of s.dock) (current_of s.battery)
              else nan;
          battery_current = if battery_fresh then negated (current_of s.battery) else nan;
          charger_enabled = present;
          dock_fresh = dock_fresh;
          battery_fresh = battery_fresh;
        },
      )
