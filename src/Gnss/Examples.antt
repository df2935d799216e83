-- ===== src/Gnss/Examples.antt =====
-- The GNSS adapter (adapter_state.hpp) at concrete inputs, over integers for double.
use mowglimavros.Gnss.Fixes.{Released, take_fixes-Released}
use mowglimavros.Gnss.Validity.{observe_status_valid}
use mowglimavros.Prelude.{true, false, ◌≡◌, refl, Option, none, some, [], ◌∷◌}
use mowglimavros.Prelude.Int.{ℤ, pos, ◌-ℤ◌}
use mowglimavros.Prelude.Double.{fixed_point}
use mowglimavros.Gnss.Status.{
  UniversalValues, UniversalStatus, Status, map_status, map_fix, map_rtk,
}
use mowglimavros.Gnss.Adapter.{
  AdapterState, NavSatFix, observe_status, adopt, advance, publish, push_bounded, expire, is_fresh,
  take_fixes, create,
}

abbrev values : UniversalValues
values = record {
  no_fix = 0;
  fix = 1;
  rtk_float = 2;
  rtk_fixed = 3;
  dead_reckoning = 4;
  fix_2d = 5;
  fix_3d = 6;
  dgps = 7;
  mode_unknown = 0;
  mode_none = 1;
  mode_float = 2;
  mode_fixed = 3;
  baseline_unknown = 0;
  baseline_computed = 1;
  baseline_not_solved = 2;
  baseline_insufficient_observations = 3;
  baseline_no_convergence = 4;
  baseline_out_of_tolerance = 5;
  baseline_covariance_trace_exceeded = 6;
  baseline_not_configured = 7;
  cap_rtk_mode = 1;
  cap_horizontal_accuracy = 8;
  cap_vertical_accuracy = 16;
  cap_hdop = 2;
  cap_vdop = 4;
  cap_satellites_used = 128;
  cap_satellites_visible = 256;
  cap_satellites_tracked = 512;
  cap_mean_cn0 = 8192;
  cap_max_cn0 = 16384;
  cap_correction_age = 4096;
  cap_heading = 32;
  cap_dual_antenna_heading = 32768;
  cap_interference_state = 65536;
  cap_jamming_state = 131072;
  cap_heading_accuracy = 64;
  cap_differential_corrections = 1024;
  cap_corrections_active = 2048;
  cap_dual_antenna_baseline = 262144;
  cap_baseline_azimuth = 524288;
  cap_baseline_pitch = 1048576;
  cap_baseline_length = 2097152;
  cap_baseline_solution_status = 4194304;
}

abbrev rtk : UniversalStatus (Unit {0})
rtk = record {
  stamp_ns = pos 1000;
  source_id = "gps1";
  source_incarnation = "a";
  position_observation_sequence = 1;
  fix_type = 3;
  fix_valid = true;
  rtk_mode = 3;
  baseline_solution_status = 1;
  capability_flags = 0;
  value_flags = 0;
  differential_corrections = true;
  corrections_active = true;
  measured = tt;
}

abbrev unset : Status (Unit {0})
unset = record {
  stamp_ns = pos 0;
  backend = "";
  source_id = "";
  source_incarnation = "";
  position_observation_sequence = 0;
  fix_type = 0;
  fix_valid = false;
  rtk_mode = 0;
  baseline_solution_status = 0;
  dead_reckoning = false;
  capability_flags = 0;
  value_flags = 0;
  differential_corrections = false;
  corrections_active = false;
  measured = tt;
}

abbrev waiting_fix : NavSatFix (Option ℤ)
waiting_fix = record {
  stamp_ns = pos 1000;
  frame_id = "";
  no_fix = false;
  latitude = some (pos 1);
  longitude = some (pos 2);
  altitude = some (pos 3);
}

-- A fix waits for its status.
abbrev blank : AdapterState (Option ℤ) (Unit {0})
blank = record {
  backend = "mavros_gps1";
  timeout_ns = pos 3000000000;
  identity = "";
  sequence = 0;
  position_stamp = pos 0;
  position_receipt = none;
  last_fix_stamp = pos 0;
  status = unset;
  accepted_stamps = [];
  altitudes = [];
  pending = record { fix = waiting_fix; receipt_ns = pos 400 } ∷ [];
}

abbrev expired : Status (Unit {0}) → Status (Unit {0})
expired s = record s {
  fix_valid = false;
  fix_type = 0;
  rtk_mode = 0;
  value_flags = 0;
  differential_corrections = false;
  corrections_active = false;
  dead_reckoning = false;
}

located : AdapterState (Option ℤ) (Unit {0})
unfolding observe_status adopt advance publish map_status map_fix map_rtk push_bounded is_fresh
    expire ◌-ℤ◌
located = observe_status values rtk (pos 500) blank

created :
    create {F = Option ℤ} unset "mavros_gps1" (pos 3000000000)
    ≡ some (record blank { pending = [] })
unfolding create
created = refl

no_time_out : create {F = Option ℤ} unset "mavros_gps1" (pos 0) ≡ none
unfolding create
no_time_out = refl

observe_status_valid_example : rtk.fix_valid ≡ true
unfolding located
observe_status_valid_example = (observe_status_valid values rtk (pos 500) blank refl).0

take_fixes-Released_example :
    Released fixed_point located.last_fix_stamp located.accepted_stamps
      (take_fixes fixed_point (pos 200000500) located).1
take_fixes-Released_example = take_fixes-Released fixed_point (pos 200000500) located
