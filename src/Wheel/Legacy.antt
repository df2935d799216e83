-- ===== src/Wheel/Legacy.antt =====
-- LegacyWheelAdapter of ros2/src/mavros_esc_wheel_odometry/src/legacy_wheel_adapter.cpp: a signed
-- speed counts only after the message counters of both ESCs have advanced.
use mowglimavros.Prelude.{
  ℕ, ◌+◌, ◌-◌, ◌%◌, ◌^◌, Bool, true, false, not, ◌&&◌, ◌||◌, Option, none, some, ◌==◌,
  if◌then◌else◌,
}
use mowglimavros.Prelude.Int.{ℤ, pos, ◌-ℤ◌, leb_ℤ, ltb_ℤ, eqb_ℤ, pos_part}
use mowglimavros.Prelude.Double.{Double}
use mowglimavros.Wheel.Data.{WheelGeometry, MotorRpmObservation}

-- One entry of the arrays `counts_`, `advanced_` and `stamps_`.
pub record Slot : Type 0 where
  pub count : Option ℕ
  pub advanced : Bool
  pub stamp : ℤ

pub record LegacyWheelAdapter (F : Type 0) : Type 0 where
  pub geometry : WheelGeometry F
  pub timeout_ns : ℤ
  pub left : Slot
  pub right : Slot

-- `static_cast<uint16_t>(current - previous) != 0U`.
unfoldable pub counter_advanced : ℕ → ℕ → Bool
counter_advanced previous current = not ((current + 2 ^ 16 - previous) % 2 ^ 16 == 0)

abbrev pub no_slot : Slot
no_slot = record { count = none; advanced = false; stamp = pos 0 }

-- One wheel's part of the loop of `receive_esc_counts`, once its ESC is in the group.
unfoldable pub count_slot : ℕ → ℤ → Slot → Slot
unfolding counter_advanced
count_slot count receipt w = elim w.count [
  | none ↦ record w { count = some count }
  | some previous ↦
      if counter_advanced previous count && leb_ℤ w.stamp receipt
      then record { count = some count; advanced = true; stamp = receipt }
      else w
]

-- The group of four counters that starts at `offset` is a function of the index.
unfoldable pub group_slot : ℤ → (ℕ → ℕ) → ℤ → ℤ → Slot → Slot
group_slot offset counts receipt esc w =
    let index = esc -ℤ offset in
    if ltb_ℤ index (pos 0) || leb_ℤ (pos 4) index
    then w
    else count_slot (counts (pos_part index)) receipt w

module _ (D : Double) where
  open D use {F, is_finite}

  unfoldable pub create : WheelGeometry F → ℤ → LegacyWheelAdapter F
  create geometry timeout_ns = record {
    geometry = geometry;
    timeout_ns = timeout_ns;
    left = no_slot;
    right = no_slot;
  }

  unfoldable pub valid : LegacyWheelAdapter F → Bool
  valid s =
      leb_ℤ (pos 0) s.geometry.left_esc_slot
      && ltb_ℤ s.geometry.left_esc_slot (pos 12)
      && leb_ℤ (pos 0) s.geometry.right_esc_slot
      && ltb_ℤ s.geometry.right_esc_slot (pos 12)
      && not (eqb_ℤ s.geometry.left_esc_slot s.geometry.right_esc_slot)
      && ltb_ℤ (pos 0) s.timeout_ns

  unfoldable pub reset : LegacyWheelAdapter F → LegacyWheelAdapter F
  reset s = record s { left = no_slot; right = no_slot }

  unfoldable pub receive_esc_counts : ℤ → (ℕ → ℕ) → ℤ → LegacyWheelAdapter F → LegacyWheelAdapter F
  receive_esc_counts offset counts receipt s =
      if (not (eqb_ℤ offset (pos 0)) && not (eqb_ℤ offset (pos 4)) && not (eqb_ℤ offset (pos 8)))
        || leb_ℤ receipt (pos 0)
      then s
      else record s {
        left = group_slot offset counts receipt s.geometry.left_esc_slot s.left;
        right = group_slot offset counts receipt s.geometry.right_esc_slot s.right;
      }

  unfoldable pub stamp_bad : ℤ → ℤ → ℤ → Bool
  stamp_bad timeout receipt stamp =
      leb_ℤ stamp (pos 0) || ltb_ℤ receipt stamp || ltb_ℤ timeout (receipt -ℤ stamp)

  -- `advanced_ = {}`.
  abbrev consumed : LegacyWheelAdapter F → LegacyWheelAdapter F
  consumed s = record s {
    left = record (s.left) { advanced = false };
    right = record (s.right) { advanced = false };
  }

  unfoldable pub receive_rpm :
      F → F → ℤ → LegacyWheelAdapter F → LegacyWheelAdapter F × Option (MotorRpmObservation F)
  unfolding valid stamp_bad
  receive_rpm left right receipt s =
      if not (valid s)
        || not s.left.advanced
        || not s.right.advanced
        || leb_ℤ receipt (pos 0)
        || not (is_finite left)
        || not (is_finite right)
      then (s, none)
      else (
        consumed s,
        if stamp_bad s.timeout_ns receipt s.left.stamp
              || stamp_bad s.timeout_ns receipt s.right.stamp
            then none
            else some (record {
              left_rpm = left;
              right_rpm = right;
              sample_stamp_ns = receipt;
              receipt_stamp_ns = receipt;
            }),
      )
