-- ===== src/Firmware/Providers.antt =====
-- What the firmware providers (firmware_provider.cpp, rover_manual_control.hpp) promise.
use Prim.Native.String.{String}
use text.Mathlib.TextEquality.{eq_iff}
use text.Mathlib.Text.{◌==◌ as str_eq}
use mowglimavros.Prelude.{false, ◌≡◌, arith, ◌↔◌, ap}
use mowglimavros.Prelude.Int.{ℤ, pos, negsuc, ◌≤ℤ◌}
use mowglimavros.Prelude.Double.{Double}
use mowglimavros.Firmware.{
  Provider, ardu_pilot, px4, provided, name, make_firmware_provider, lowest, opposite, true,
  highest, clamp, manual_control_from_twist, rover_manual_control_from_twist, TwistStamped,
}

apart :
    (firmware : String)
    → firmware ≡ "ardupilot"
    → firmware ≡ "px4"
    → str_eq firmware "px4" ≡ str_eq "ardupilot" "px4"
apart firmware a b = ap (λ f. str_eq f "px4") a

-- A provider is made exactly for its own name; every other text is an error.
pub make_name :
    (firmware : String) (p : Provider)
    → make_firmware_provider firmware ≡ provided p ↔ firmware ≡ name p
unfolding make_firmware_provider name
make_name firmware ardu_pilot = ground (arith, eq_iff firmware "ardupilot", eq_iff firmware "px4")
make_name firmware px4 =
    ground (arith, eq_iff firmware "ardupilot", eq_iff firmware "px4", apart firmware)

abbrev pub Bounded : ℤ → Type 0
Bounded a = (negsuc 999 ≤ℤ a) × (a ≤ℤ pos 1000)

opposite-Bounded : (a : ℤ) → Bounded a → Bounded (opposite a)
opposite-Bounded a h = ground (arith, h)

module _ (D : Double) (to_int16 : D.F → ℤ) where
  open D use {F, of_int, is_finite, lt, times}

  -- Of the limits it is used that they are finite and in order, of the conversion to int16_t that it
  -- cuts off the fraction of a number between them.
  module _ (low_finite : is_finite (lowest D to_int16) ≡ true)
      (high_finite : is_finite (highest D to_int16) ≡ true)
      (low_low : lt (lowest D to_int16) (lowest D to_int16) ≡ false)
      (high_low : lt (highest D to_int16) (lowest D to_int16) ≡ false)
      (high_high : lt (highest D to_int16) (highest D to_int16) ≡ false)
      (truncates : (v : F)
        → is_finite v ≡ true
        → lt v (lowest D to_int16) ≡ false
        → lt (highest D to_int16) v ≡ false
        → Bounded (to_int16 v)) where
    clamp-Bounded : (v : F) → is_finite v ≡ true → Bounded (to_int16 (clamp D to_int16 v))
    unfolding clamp
    clamp-Bounded v f = ground (
      arith,
      truncates v f,
      truncates (lowest D to_int16) low_finite low_low high_low,
      truncates (highest D to_int16) high_finite high_low high_high,
    )

    -- For either firmware, steering and throttle of a manual command are within 1000 of 0, whatever
    -- the velocities and scales, as long as their products are finite.
    pub manual_control_bounds :
        (p : Provider) (twist : TwistStamped F) (linear_scale yaw_scale : F)
        → is_finite (times twist.angular_z yaw_scale) ≡ true
        → is_finite (times twist.linear_x linear_scale) ≡ true
        → let c = manual_control_from_twist D to_int16 p twist linear_scale yaw_scale in
          Bounded c.y × Bounded c.z
    unfolding manual_control_from_twist rover_manual_control_from_twist
    manual_control_bounds px4 twist l y a b =
        (clamp-Bounded (times twist.angular_z y) a, clamp-Bounded (times twist.linear_x l) b)
    manual_control_bounds ardu_pilot twist l y a b = (
      opposite-Bounded (to_int16 (clamp D to_int16 (times twist.angular_z y)))
          (clamp-Bounded (times twist.angular_z y) a),
      clamp-Bounded (times twist.linear_x l) b,
    )
