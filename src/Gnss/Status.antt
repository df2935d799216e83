-- ===== src/Gnss/Status.antt =====
-- Status mapping of ros2/src/mavros_gnss_adapter/include/mavros_gnss_adapter/status_mapping.hpp. The
-- constants of universal_gnss_ros2 are parameters; the values of
-- mowgli_interfaces/msg/GnssStatus.msg are written out. `M` stands for the measured values
-- that are copied unchanged.
use Prim.Native.Nat.{bit_and, bit_or}
use Prim.Native.String.{String}
use mowglimavros.Prelude.{ℕ, List, [], ◌∷◌, Bool, not, ◌&&◌, ◌==◌, if◌then◌else◌}
use mowglimavros.Prelude.Int.{ℤ}

-- Values of universal_gnss_ros2/msg/GnssStatus.
pub record UniversalValues : Type 0 where
  pub no_fix : ℕ
  pub fix : ℕ
  pub rtk_float : ℕ
  pub rtk_fixed : ℕ
  pub dead_reckoning : ℕ
  pub fix_2d : ℕ
  pub fix_3d : ℕ
  pub dgps : ℕ
  pub mode_unknown : ℕ
  pub mode_none : ℕ
  pub mode_float : ℕ
  pub mode_fixed : ℕ
  pub baseline_unknown : ℕ
  pub baseline_computed : ℕ
  pub baseline_not_solved : ℕ
  pub baseline_insufficient_observations : ℕ
  pub baseline_no_convergence : ℕ
  pub baseline_out_of_tolerance : ℕ
  pub baseline_covariance_trace_exceeded : ℕ
  pub baseline_not_configured : ℕ
  pub cap_rtk_mode : ℕ
  pub cap_horizontal_accuracy : ℕ
  pub cap_vertical_accuracy : ℕ
  pub cap_hdop : ℕ
  pub cap_vdop : ℕ
  pub cap_satellites_used : ℕ
  pub cap_satellites_visible : ℕ
  pub cap_satellites_tracked : ℕ
  pub cap_mean_cn0 : ℕ
  pub cap_max_cn0 : ℕ
  pub cap_correction_age : ℕ
  pub cap_heading : ℕ
  pub cap_dual_antenna_heading : ℕ
  pub cap_interference_state : ℕ
  pub cap_jamming_state : ℕ
  pub cap_heading_accuracy : ℕ
  pub cap_differential_corrections : ℕ
  pub cap_corrections_active : ℕ
  pub cap_dual_antenna_baseline : ℕ
  pub cap_baseline_azimuth : ℕ
  pub cap_baseline_pitch : ℕ
  pub cap_baseline_length : ℕ
  pub cap_baseline_solution_status : ℕ

pub record UniversalStatus (M : Type 0) : Type 0 where
  pub stamp_ns : ℤ
  pub source_id : String
  pub source_incarnation : String
  pub position_observation_sequence : ℕ
  pub fix_type : ℕ
  pub fix_valid : Bool
  pub rtk_mode : ℕ
  pub baseline_solution_status : ℕ
  pub capability_flags : ℕ
  pub value_flags : ℕ
  pub differential_corrections : Bool
  pub corrections_active : Bool
  pub measured : M

-- `header.stamp` is kept in nanoseconds.
pub record Status (M : Type 0) : Type 0 where
  pub stamp_ns : ℤ
  pub backend : String
  pub source_id : String
  pub source_incarnation : String
  pub position_observation_sequence : ℕ
  pub fix_type : ℕ
  pub fix_valid : Bool
  pub rtk_mode : ℕ
  pub baseline_solution_status : ℕ
  pub dead_reckoning : Bool
  pub capability_flags : ℕ
  pub value_flags : ℕ
  pub differential_corrections : Bool
  pub corrections_active : Bool
  pub measured : M

abbrev pub fix_type_no_fix : ℕ
fix_type_no_fix = 0

abbrev pub fix_type_dead_reckoning : ℕ
fix_type_dead_reckoning = 4

abbrev pub rtk_mode_unknown : ℕ
rtk_mode_unknown = 0

unfoldable pub map_fix : UniversalValues → ℕ → ℕ
map_fix u value =
    if value == u.no_fix
    then 0
    else if value == u.fix
    then 1
    else if value == u.rtk_float
    then 2
    else if value == u.rtk_fixed
    then 3
    else if value == u.dead_reckoning
    then 4
    else if value == u.fix_2d
    then 5
    else if value == u.fix_3d
    then 6
    else if value == u.dgps
    then 7
    else 0

unfoldable pub map_rtk : UniversalValues → ℕ → ℕ
map_rtk u value =
    if value == u.mode_unknown
    then 0
    else if value == u.mode_none
    then 1
    else if value == u.mode_float
    then 2
    else if value == u.mode_fixed
    then 3
    else 0

unfoldable pub map_baseline : UniversalValues → ℕ → ℕ
map_baseline u value =
    if value == u.baseline_unknown
    then 0
    else if value == u.baseline_computed
    then 1
    else if value == u.baseline_not_solved
    then 2
    else if value == u.baseline_insufficient_observations
    then 3
    else if value == u.baseline_no_convergence
    then 4
    else if value == u.baseline_out_of_tolerance
    then 5
    else if value == u.baseline_covariance_trace_exceeded
    then 6
    else if value == u.baseline_not_configured
    then 7
    else 0

-- Each upstream capability bit with the bit of the message.
abbrev pub translations : UniversalValues → List (ℕ × ℕ)
translations u =
    (u.cap_rtk_mode, 1)
    ∷ (u.cap_horizontal_accuracy, 8)
    ∷ (u.cap_vertical_accuracy, 16)
    ∷ (u.cap_hdop, 2)
    ∷ (u.cap_vdop, 4)
    ∷ (u.cap_satellites_used, 128)
    ∷ (u.cap_satellites_visible, 256)
    ∷ (u.cap_satellites_tracked, 512)
    ∷ (u.cap_mean_cn0, 8192)
    ∷ (u.cap_max_cn0, 16384)
    ∷ (u.cap_correction_age, 4096)
    ∷ (u.cap_heading, 32)
    ∷ (u.cap_dual_antenna_heading, 32768)
    ∷ (u.cap_interference_state, 65536)
    ∷ (u.cap_jamming_state, 131072)
    ∷ (u.cap_heading_accuracy, 64)
    ∷ (u.cap_differential_corrections, 1024)
    ∷ (u.cap_corrections_active, 2048)
    ∷ (u.cap_dual_antenna_baseline, 262144)
    ∷ (u.cap_baseline_azimuth, 524288)
    ∷ (u.cap_baseline_pitch, 1048576)
    ∷ (u.cap_baseline_length, 2097152)
    ∷ (u.cap_baseline_solution_status, 4194304)
    ∷ []

abbrev pub set_flag : ℕ → ℕ × ℕ → ℕ → ℕ
set_flag flags (bit, out) result = if bit_and flags bit == 0 then result else bit_or result out

unfoldable pub set_flags : ℕ → List (ℕ × ℕ) → ℕ → ℕ
set_flags flags [] result = result
set_flags flags (t ∷ ts) result = set_flags flags ts (set_flag flags t result)

unfoldable pub map_flags : UniversalValues → ℕ → ℕ
map_flags u flags = set_flags flags (translations u) 0

module _ {M : Type 0} (u : UniversalValues) where
  -- `"mavros_" + source`, given whole.
  unfoldable pub map_status : UniversalStatus M → String → Status M
  map_status input backend =
      let kind = map_fix u input.fix_type in
      record {
        stamp_ns = input.stamp_ns;
        backend = backend;
        source_id = input.source_id;
        source_incarnation = input.source_incarnation;
        position_observation_sequence = input.position_observation_sequence;
        fix_type = kind;
        fix_valid = input.fix_valid && not (kind == fix_type_no_fix);
        rtk_mode = map_rtk u input.rtk_mode;
        baseline_solution_status = map_baseline u input.baseline_solution_status;
        dead_reckoning = kind == fix_type_dead_reckoning;
        capability_flags = map_flags u input.capability_flags;
        value_flags = map_flags u (bit_and input.value_flags input.capability_flags);
        differential_corrections = input.differential_corrections;
        corrections_active = input.corrections_active;
        measured = input.measured;
      }
