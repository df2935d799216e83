-- ===== src/Firmware/Examples.antt =====
-- The firmware providers (firmware_provider.cpp) at concrete inputs, over integers for double.
use mowglimavros.Prelude.{◌≡◌, refl, true, false, Option, none, some, arith, ◌↔◌}
use mowglimavros.Prelude.Int.{ℤ, pos, negsuc}
use mowglimavros.Prelude.Double.{fixed_point}
use mowglimavros.Firmware.{
  ardu_pilot, px4, TwistStamped, manual_control_from_twist, name, make_firmware_provider, provided,
  rover_manual_control_from_twist, clamp,
}
use mowglimavros.Firmware.Providers.{make_name, manual_control_bounds, Bounded}

make_name_example : make_firmware_provider "px4" ≡ provided px4 ↔ "px4" ≡ name px4
make_name_example = make_name "px4" px4

abbrev to_int : Option ℤ → ℤ
to_int none = pos 0
to_int (some a) = a

to_int-Bounded :
    (v : Option ℤ)
    → fixed_point.is_finite v ≡ true
    → fixed_point.lt v (some (negsuc 999)) ≡ false
    → fixed_point.lt (some (pos 1000)) v ≡ false
    → Bounded (to_int v)
to_int-Bounded none f l h = ground arith
to_int-Bounded (some (pos n)) f l h = ground arith
to_int-Bounded (some (negsuc n)) f l h = ground arith

abbrev turning : TwistStamped (Option ℤ)
turning = record {
  stamp_ns = pos 1;
  frame_id = "base_link";
  linear_x = some (pos 3);
  angular_z = some (negsuc 4);
}

manual_control_bounds_example :
    let c =
      manual_control_from_twist fixed_point to_int ardu_pilot turning
        (some (pos 100))
        (some (pos 1000)) in
    Bounded c.y × Bounded c.z
manual_control_bounds_example =
    manual_control_bounds fixed_point to_int refl refl refl refl refl to_int-Bounded ardu_pilot
      turning (some (pos 100)) (some (pos 1000)) refl refl

-- A turn to the right beyond the limit steers fully to the right.
turns :
    manual_control_from_twist fixed_point to_int ardu_pilot turning
      (some (pos 100))
      (some (pos 1000))
    ≡ record { y = pos 1000; z = pos 300 }
unfolding manual_control_from_twist rover_manual_control_from_twist clamp
turns = refl
