-- ===== src/Ntrip/Sextets.antt =====
-- The letters that base64_encode of ros2/src/mowgli_ntrip_client/src/ntrip_connection.cpp writes for
-- one, two and three bytes.
use mowglimavros.Prelude.{ℕ, ◌+◌, ◌*◌, ◌/◌, ◌%◌, ◌^◌, ◌<◌, ◌≡◌, refl, arith, List, [], ◌∷◌}
use mowglimavros.Ntrip.Base64.{letter, flush, last_letter, encode_from}

first_sextet : (v a : ℕ) → a < 256 → (v * 256 + a) % 2 ^ 32 / 4 % 64 ≡ a / 4
first_sextet v a l = omega arith

second_sextet :
    (v a b : ℕ)
    → a < 256
    → b < 256
    → ((v * 256 + a) % 2 ^ 32 * 256 + b) % 2 ^ 32 / 16 % 64 ≡ a % 4 * 16 + b / 16
second_sextet v a b l m = omega arith

third_sextet :
    (v a b c : ℕ)
    → a < 256
    → b < 256
    → c < 256
    → (((v * 256 + a) % 2 ^ 32 * 256 + b) % 2 ^ 32 * 256 + c) % 2 ^ 32 / 64 % 64
      ≡ b % 16 * 4 + c / 64
third_sextet v a b c l m k = omega arith

fourth_sextet :
    (v a b c : ℕ)
    → c < 256
    → (((v * 256 + a) % 2 ^ 32 * 256 + b) % 2 ^ 32 * 256 + c) % 2 ^ 32 / 1 % 64 ≡ c % 64
fourth_sextet v a b c k = omega arith

pub encode_triple :
    (v a b c : ℕ) (rest : List ℕ)
    → a < 256
    → b < 256
    → c < 256
    → encode_from v 0 (a ∷ b ∷ c ∷ rest)
      ≡ letter (a / 4)
        ∷ letter (a % 4 * 16 + b / 16)
        ∷ letter (b % 16 * 4 + c / 64)
        ∷ letter (c % 64)
        ∷ encode_from ((((v * 256 + a) % 2 ^ 32 * 256 + b) % 2 ^ 32 * 256 + c) % 2 ^ 32) 0 rest
unfolding encode_from flush
encode_triple v a b c rest l m k =
    rw
      (
        ← first_sextet v a l,
        ← second_sextet v a b l m,
        ← third_sextet v a b c l m k,
        ← fourth_sextet v a b c k,
      )
      refl

one_sextet : (v a : ℕ) → a < 256 → (v * 256 + a) % 2 ^ 32 * 256 % 2 ^ 32 / 16 % 64 ≡ a % 4 * 16
one_sextet v a l = omega arith

two_sextet :
    (v a b : ℕ)
    → b < 256
    → ((v * 256 + a) % 2 ^ 32 * 256 + b) % 2 ^ 32 * 256 % 2 ^ 32 / 64 % 64 ≡ b % 16 * 4
two_sextet v a b m = omega arith

pub encode_one :
    (v a : ℕ) → a < 256 → encode_from v 0 (a ∷ []) ≡ letter (a / 4) ∷ letter (a % 4 * 16) ∷ []
unfolding encode_from flush last_letter
encode_one v a l = rw (← first_sextet v a l, ← one_sextet v a l) refl

pub encode_two :
    (v a b : ℕ)
    → a < 256
    → b < 256
    → encode_from v 0 (a ∷ b ∷ [])
      ≡ letter (a / 4) ∷ letter (a % 4 * 16 + b / 16) ∷ letter (b % 16 * 4) ∷ []
unfolding encode_from flush last_letter
encode_two v a b l m =
    rw (← first_sextet v a l, ← second_sextet v a b l m, ← two_sextet v a b m) refl
