-- ===== src/Ntrip/Base64.antt =====
-- base64_encode of ros2/src/mowgli_ntrip_client/src/ntrip_connection.cpp. A text is a list of bytes.
use mowglimavros.Prelude.{
  ℕ, zero, suc, ◌+◌, ◌-◌, ◌*◌, ◌/◌, ◌%◌, ◌^◌, List, [], ◌∷◌, ◌++◌, ltb, leb, if◌then◌else◌,
}
use mowglimavros.Ntrip.{codes}
use mowglimavros.Ntrip.Chunks.{length}

abbrev nth : ℕ → List ℕ → ℕ
nth i [] = 0
nth zero (b ∷ bs) = b
nth (suc i) (b ∷ bs) = nth i bs

unfoldable pub table : List ℕ
table = codes "ABCDEFGHIJKLMNOPQRSTUVWXYZabcdefghijklmnopqrstuvwxyz0123456789+/"

unfoldable pub letter : ℕ → ℕ
unfolding table
letter i = nth i table

-- The inner loop; `held` is `value_bits + 6`, and each round takes six of them, so that `held` rounds
-- are enough.
unfoldable pub flush : ℕ → ℕ → ℕ → List ℕ × ℕ
unfolding letter
flush zero value held = ([], held)
flush (suc rounds) value held =
    let (l, h) = flush rounds value (held - 6) in
    if leb 6 held then (letter (value / 2 ^ (held - 6) % 64) ∷ l, h) else ([], held)

-- The letter of the bits that are left.
unfoldable pub last_letter : ℕ → ℕ → List ℕ
unfolding letter
last_letter value held =
    if ltb 0 held then letter (value * 256 % 2 ^ 32 / 2 ^ (held + 2) % 64) ∷ [] else []

-- The outer loop.
unfoldable pub encode_from : ℕ → ℕ → List ℕ → List ℕ
unfolding flush last_letter
encode_from value held [] = last_letter value held
encode_from value held (c ∷ cs) =
    let v = (value * 256 + c) % 2 ^ 32 in
    let (l, h) = flush (held + 8) v (held + 8) in l ++ encode_from v h cs

-- `while (output.size() % 4 != 0) {output.push_back('=');}`, by `output.size() % 4`.
unfoldable pub pad : ℕ → List ℕ
pad zero = []
pad (suc zero) = 61 ∷ 61 ∷ 61 ∷ []
pad (suc (suc zero)) = 61 ∷ 61 ∷ []
pad (suc (suc (suc n))) = 61 ∷ []

unfoldable pub base64_encode : List ℕ → List ℕ
unfolding encode_from pad
base64_encode input = let output = encode_from 0 0 input in output ++ pad (length output % 4)
