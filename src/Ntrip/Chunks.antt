-- ===== src/Ntrip/Chunks.antt =====
-- split_rtcm_chunks of ros2/src/mowgli_ntrip_client/src/ntrip_client_node.cpp: the bytes of the
-- stream in messages of limited size.
use mowglimavros.Prelude.{ℕ, zero, suc, ◌<◌, ◌≤◌, ◌≡◌, refl, List, [], ◌∷◌, ◌++◌, arith, ap}
use mowglimavros.Ntrip.{take, drop}

abbrev pub max_rtcm_message_bytes : ℕ
max_rtcm_message_bytes = 720

abbrev pub length : List ℕ → ℕ
length [] = 0
length (b ∷ bs) = suc (length bs)

-- The loop, from the bytes at `offset` on, on fuel: each round takes at least a byte.
unfoldable pub chunks_from : ℕ → ℕ → List ℕ → List (List ℕ)
chunks_from size fuel [] = []
chunks_from size zero (b ∷ bs) = []
chunks_from size (suc fuel) (b ∷ bs) =
    take size (b ∷ bs) ∷ chunks_from size fuel (drop size (b ∷ bs))

unfoldable pub split_rtcm_chunks : List ℕ → List (List ℕ)
split_rtcm_chunks bytes = chunks_from max_rtcm_message_bytes (length bytes) bytes

abbrev pub concat : List (List ℕ) → List ℕ
concat [] = []
concat (c ∷ cs) = c ++ concat cs

-- None of the chunks is empty or longer than `size`.
abbrev pub Within : ℕ → List (List ℕ) → Type 0
Within size [] = Unit {0}
Within size (c ∷ cs) = (0 < length c) × (length c ≤ size) × Within size cs

take-drop : (n : ℕ) (xs : List ℕ) → take n xs ++ drop n xs ≡ xs
unfolding drop
take-drop zero xs = refl
take-drop (suc n) [] = refl
take-drop (suc n) (x ∷ xs) = ap (λ l. x ∷ l) (take-drop n xs)

length-drop : (n : ℕ) (xs : List ℕ) → length (drop n xs) ≤ length xs
unfolding drop
length-drop zero xs = omega arith
length-drop (suc n) [] = omega arith
length-drop (suc n) (x ∷ xs) = omega (arith, length-drop n xs)

length-take : (n : ℕ) (xs : List ℕ) → length (take n xs) ≤ n
length-take zero xs = omega arith
length-take (suc n) [] = omega arith
length-take (suc n) (x ∷ xs) = omega (arith, length-take n xs)

concat-chunks_from :
    (n fuel : ℕ) (xs : List ℕ) → length xs ≤ fuel → concat (chunks_from (suc n) fuel xs) ≡ xs
unfolding chunks_from drop
concat-chunks_from n fuel [] h = refl
concat-chunks_from n zero (x ∷ xs) h = ground arith
concat-chunks_from n (suc fuel) (x ∷ xs) h =
    let rest = concat-chunks_from n fuel (drop n xs) (omega (arith, h, length-drop n xs)) in
    rw rest (take-drop (suc n) (x ∷ xs))

chunks_from-Within : (n fuel : ℕ) (xs : List ℕ) → Within (suc n) (chunks_from (suc n) fuel xs)
unfolding chunks_from drop
chunks_from-Within n fuel [] = tt
chunks_from-Within n zero (x ∷ xs) = tt
chunks_from-Within n (suc fuel) (x ∷ xs) =
    (omega arith, omega (arith, length-take n xs), chunks_from-Within n fuel (drop n xs))

-- The messages hold the bytes that came, each once and in order; none is empty, and none is longer
-- than 720 bytes.
pub split_rtcm_chunks-Within :
    (bytes : List ℕ)
    → (concat (split_rtcm_chunks bytes) ≡ bytes) × Within 720 (split_rtcm_chunks bytes)
unfolding split_rtcm_chunks
split_rtcm_chunks-Within bytes = (
  concat-chunks_from 719 (length bytes) bytes (omega arith),
  chunks_from-Within 719 (length bytes) bytes,
)
