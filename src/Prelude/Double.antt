-- ===== src/Prelude/Double.antt =====
-- Floating point as an interface: what the sources use of double and float. No law is assumed; a
-- section that needs one takes it as a hypothesis. `fixed_point` is a model on integers with a value
-- that is not a number.
use mowglimavros.Prelude.{Bool, true, false, ◌*◌, ◌+◌, Option, none, some}
use mowglimavros.Prelude.Int.{ℤ, pos, pos_part, neg_part, sub_ℕ, ltb_ℤ}

pub record Double : Type 1 where
  pub F : Type 0
  pub nan : F
  pub of_int : ℤ → F
  pub is_finite : F → Bool
  pub lt : F → F → Bool
  pub plus : F → F → F
  pub minus : F → F → F
  pub times : F → F → F
  pub over : F → F → F
  pub negate : F → F
  pub magnitude : F → F

abbrev both : (ℤ → ℤ → ℤ) → Option ℤ → Option ℤ → Option ℤ
both f none b = none
both f (some a) none = none
both f (some a) (some b) = some (f a b)

abbrev fixed_lt : Option ℤ → Option ℤ → Bool
fixed_lt none b = false
fixed_lt (some a) none = false
fixed_lt (some a) (some b) = ltb_ℤ a b

abbrev is_number : Option ℤ → Bool
is_number none = false
is_number (some a) = true

abbrev opposite : ℤ → ℤ
opposite a = sub_ℕ (neg_part a) (pos_part a)

abbrev sum : ℤ → ℤ → ℤ
sum a b = sub_ℕ (pos_part a + pos_part b) (neg_part a + neg_part b)

abbrev product : ℤ → ℤ → ℤ
product a b =
    sub_ℕ (pos_part a * pos_part b + neg_part a * neg_part b)
      (pos_part a * neg_part b + neg_part a * pos_part b)

abbrev lift : (ℤ → ℤ) → Option ℤ → Option ℤ
lift f none = none
lift f (some a) = some (f a)

-- Division keeps the dividend: no theorem reads its value.
abbrev pub fixed_point : Double
fixed_point = record {
  F = Option ℤ;
  nan = none;
  of_int = some;
  is_finite = is_number;
  lt = fixed_lt;
  plus = both sum;
  minus = both (λ a b. sum a (opposite b));
  times = both product;
  over = both (λ a b. a);
  negate = lift opposite;
  magnitude = lift (λ a. pos (pos_part a + neg_part a));
}
