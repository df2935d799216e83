-- ===== src/Engine/Config.antt =====
-- The constructor of ObservationEngine (observation_engine.cpp), its tests on the configuration, and
-- small helpers on indexes and components.
use Prim.Native.String.{String}
use text.Mathlib.Text.{◌==◌ as str_eq}
use mowglimavros.Prelude.{
  ℕ, zero, suc, ◌-◌, Bool, true, false, not, ◌&&◌, ◌||◌, Option, none, some, ltb, leb, ◌==◌,
  if◌then◌else◌, suc, ◌+◌,
}
use mowglimavros.Prelude.Int.{ℤ, pos, negsuc, ◌-ℤ◌, leb_ℤ, ltb_ℤ, eqb_ℤ, pos_part}
use mowglimavros.Prelude.Double.{Double}
use mowglimavros.Wheel.Data.{WheelSource, no_source, wheel_distance, esc_status, ardupilot_legacy}
use mowglimavros.Wheel.Core as Core
use mowglimavros.Wheel.Legacy as LegacyWheel
use mowglimavros.Wheel.Integrator as Integrator
use mowglimavros.Engine.Data.{
  ObservationConfig, ObservationEngine, Status, no_status, no_info, no_legacy, no_distance,
}

-- `std::numeric_limits<int64_t>::max() / 1000`.
abbrev pub max_time_us : ℕ
max_time_us = 9223372036854775

unfoldable pub sample_time_valid : ℕ → Bool
sample_time_valid us = ltb 0 us && leb us max_time_us

abbrev pub source_name : WheelSource → String
source_name wheel_distance = "wheel_distance"
source_name esc_status = "esc_status"
source_name ardupilot_legacy = "ardupilot_legacy"
source_name no_source = "none"

-- `for (unsigned i = 0; i < 4; ++i)`, the loop on the four slots of a packet.
unfoldable pub four_rounds {ℓ} : {S : Type ℓ} → (ℕ → S → S) → S → S
four_rounds round start = round 3 (round 2 (round 1 (round 0 start)))

-- Some index from `i` on, `n` of them, passes the test.
unfoldable pub any_range : ℕ → ℕ → (ℕ → Bool) → Bool
any_range zero i test = false
any_range (suc n) i test = test i || any_range n (i + 1) test

-- An index of an array of `n` entries, or -1.
unfoldable pub index_bad : ℤ → ℕ → Bool
index_bad i n = ltb_ℤ i (negsuc 0) || leb_ℤ (pos n) i

-- The entry `i` of an array is written.
abbrev pub write {ℓ} : {A : Type ℓ} → ℕ → A → (ℕ → A) → ℕ → A
write i v f = λ j. if j == i then v else f j

-- `std::max(a, b) - std::min(a, b)`.
abbrev pub apart : ℕ → ℕ → ℕ
apart a b = if ltb a b then b - a else a - b

-- A component id that differs from the one that is held.
abbrev pub is_other : Option ℕ → ℕ → Bool
is_other none component = false
is_other (some held) component = not (held == component)

abbrev pub held_id : Option ℕ → ℕ
held_id none = 0
held_id (some c) = c

-- The two component ids, present or not, are the same.
abbrev pub same_component : Option ℕ → Option ℕ → Bool
same_component none none = true
same_component (some a) (some b) = a == b
same_component _ _ = false

-- A configured id that is not the packet's.
abbrev pub id_refused : ℤ → ℕ → Bool
id_refused configured component = leb_ℤ (pos 0) configured && not (eqb_ℤ (pos component) configured)

-- `count_ && slot >= *count_`.
abbrev pub out_of_count : Option ℕ → ℕ → Bool
out_of_count none slot = false
out_of_count (some count) slot = leb count slot

module _ (D : Double) where
  open D use {F, of_int, is_finite, lt, times, over}

  abbrev pub micro : F
  micro = over (of_int (pos 1)) (of_int (pos 1000000))

  abbrev billionth : F
  billionth = over (of_int (pos 1)) (of_int (pos 1000000000))

  abbrev positive : F → Bool
  positive a = is_finite a && lt (of_int (pos 0)) a

  abbrev not_negative : F → Bool
  not_negative a = is_finite a && not (lt a (of_int (pos 0)))

  -- The tests of the constructor.
  unfoldable pub config_bad : ObservationConfig F → Bool
  unfolding index_bad
  config_bad c =
      let g = c.geometry in
      (not (str_eq c.source "auto")
        && not (str_eq c.source "wheel_distance")
        && not (str_eq c.source "esc_status")
        && not (str_eq c.source "ardupilot_legacy"))
      || index_bad g.left_esc_slot 64
      || index_bad g.right_esc_slot 64
      || (leb_ℤ (pos 0) g.left_esc_slot && eqb_ℤ g.left_esc_slot g.right_esc_slot)
      || not (not_negative g.ticks_per_meter)
      || not (not_negative g.track_width_m)
      || index_bad c.left_wheel_index 16
      || index_bad c.right_wheel_index 16
      || (leb_ℤ (pos 0) c.left_wheel_index && eqb_ℤ c.left_wheel_index c.right_wheel_index)
      || index_bad c.wheel_distance_component_id 256
      || index_bad c.esc_component_id 256
      || not (positive c.common_pair_max_skew_s)
      || lt (times (of_int c.timeout_ns) billionth) c.common_pair_max_skew_s
      || leb_ℤ c.timeout_ns (pos 0)
      || not (positive c.max_distance_speed_mps)

  unfoldable pub initial : ObservationConfig F → ObservationEngine F
  initial config = record {
    config = config;
    core = Core.create D config.geometry;
    legacy = LegacyWheel.create D config.geometry config.timeout_ns;
    common_motor_ticks = Integrator.create D config.timeout_ns;
    legacy_motor_ticks = Integrator.create D config.timeout_ns;
    connected = false;
    status = λ i. no_status D;
    info = λ i. no_info;
    legacy_esc = λ i. no_legacy D;
    common_count = none;
    common_component = none;
    common_status_owner = false;
    common_owner_stamp_ns = pos 0;
    last_receipt_ns = pos 0;
    distance = no_distance D;
    distance_component = none;
    distance_baseline = none;
    legacy_motion = none;
    active = no_source;
    published_left = 0;
    published_right = 0;
    common_epoch_baseline_needed = false;
    common_configuration_ns = pos 0;
  }

  -- `none` is the exception std::invalid_argument.
  unfoldable pub create : ObservationConfig F → Option (ObservationEngine F)
  unfolding config_bad initial
  create config = if config_bad config then none else some (initial config)

  unfoldable pub fresh : ℤ → ℤ → ObservationEngine F → Bool
  fresh stamp now s =
      ltb_ℤ (pos 0) stamp && leb_ℤ stamp now && leb_ℤ (now -ℤ stamp) s.config.timeout_ns

  unfoldable pub common_mapping : ObservationEngine F → Bool
  common_mapping s =
      let g = s.config.geometry in
      leb_ℤ (pos 0) g.left_esc_slot
      && ltb_ℤ g.left_esc_slot (pos 64)
      && leb_ℤ (pos 0) g.right_esc_slot
      && ltb_ℤ g.right_esc_slot (pos 64)
      && not (eqb_ℤ g.left_esc_slot g.right_esc_slot)

  unfoldable pub distance_mapping : ℕ → ObservationEngine F → Bool
  distance_mapping count s =
      leb 2 count
      && leb count 16
      && leb_ℤ (pos 0) s.config.left_wheel_index
      && leb_ℤ (pos 0) s.config.right_wheel_index
      && not (eqb_ℤ s.config.left_wheel_index s.config.right_wheel_index)
      && ltb_ℤ s.config.left_wheel_index (pos count)
      && ltb_ℤ s.config.right_wheel_index (pos count)

  -- The source is the named one, or chosen automatically.
  abbrev pub allows : WheelSource → ObservationEngine F → Bool
  allows source s = str_eq s.config.source "auto" || str_eq s.config.source (source_name source)

  unfoldable pub wheel_configured : ObservationEngine F → Bool
  unfolding distance_mapping common_mapping
  wheel_configured s =
      let scaled = lt (of_int (pos 0)) s.config.geometry.ticks_per_meter in
      Core.valid D s.core
      && ((allows wheel_distance s && distance_mapping 16 s)
          || (allows esc_status s && common_mapping s && scaled)
          || (allows ardupilot_legacy s
              && s.config.legacy_enabled
              && LegacyWheel.valid D s.legacy
              && scaled))

  -- The slots of the two wheels, where `common_mapping` holds.
  abbrev pub left_status : ObservationEngine F → Status F
  left_status s = s.status (pos_part s.config.geometry.left_esc_slot)

  abbrev pub right_status : ObservationEngine F → Status F
  right_status s = s.status (pos_part s.config.geometry.right_esc_slot)
