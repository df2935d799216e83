-- ===== src/Ntrip/RoundTrip.antt =====
-- A decoder gives back what base64_encode of
-- ros2/src/mowgli_ntrip_client/src/ntrip_connection.cpp encodes.
use mowglimavros.Prelude.{
  ℕ, zero, suc, ◌+◌, ◌*◌, ◌/◌, ◌%◌, ◌^◌, ◌<◌, ◌≡◌, refl, ap, ◌∙◌, arith, Bool, Bool-cases, inl, inr,
  true, false, not, ◌&&◌, List, [], ◌∷◌, ◌++◌, ◌==◌, if◌then◌else◌,
}
use mowglimavros.Ntrip.Sextets.{encode_triple, encode_one, encode_two}
use mowglimavros.Ntrip.Chunks.{length}
use mowglimavros.Ntrip.Base64.{table, letter, last_letter, encode_from, pad, base64_encode}

-- The index of a letter in the table.
abbrev find : ℕ → List ℕ → ℕ
find byte [] = 0
find byte (b ∷ bs) = let rest = find byte bs in if b == byte then 0 else suc rest

unfoldable pub value_of : ℕ → ℕ
unfolding table
value_of byte = find byte table

-- The decoder: four letters are three bytes, or two or one where they end in `=`.
unfoldable pub decode : List ℕ → List ℕ
unfolding value_of
decode [] = []
decode (a ∷ []) = []
decode (a ∷ b ∷ []) = []
decode (a ∷ b ∷ c ∷ []) = []
decode (a ∷ b ∷ c ∷ d ∷ rest) =
    let r = decode rest in
    let first = value_of a * 4 + value_of b / 16 in
    let second = value_of b % 16 * 16 + value_of c / 4 in
    let third = value_of c % 4 * 64 + value_of d in
    if c == 61
    then first ∷ []
    else if d == 61
    then first ∷ second ∷ []
    else first ∷ second ∷ third ∷ r

-- A test of all numbers below `n`.
abbrev holds_below : ℕ → (ℕ → Bool) → Bool
holds_below zero f = true
holds_below (suc n) f = f n && holds_below n f

holds_below_at : (n : ℕ) (f : ℕ → Bool) (i : ℕ) → holds_below n f ≡ true → i < n → f i ≡ true
holds_below_at zero f i h l = ground arith
holds_below_at (suc n) f i h l = elim (Bool-cases (i == n)) [
  | inl e ↦ let q : i ≡ n = ground arith in rw q (ground arith)
  | inr e ↦ holds_below_at n f i (ground arith) (ground arith)
]

letters : holds_below 64 (λ i. value_of (letter i) == i && not (letter i == 61)) ≡ true
unfolding value_of letter table
letters = refl

value_of-letter : (i : ℕ) → i < 64 → value_of (letter i) ≡ i
value_of-letter i l =
    let h = holds_below_at 64 (λ i. value_of (letter i) == i && not (letter i == 61)) i letters l in
    ground arith

letter_not_padding : (i : ℕ) → i < 64 → (letter i == 61) ≡ false
letter_not_padding i l =
    let h = holds_below_at 64 (λ i. value_of (letter i) == i && not (letter i == 61)) i letters l in
    ground arith

decode_full :
    (s t u w : ℕ) (rest : List ℕ)
    → s < 64
    → t < 64
    → u < 64
    → w < 64
    → decode (letter s ∷ letter t ∷ letter u ∷ letter w ∷ rest)
      ≡ (s * 4 + t / 16) ∷ (t % 16 * 16 + u / 4) ∷ (u % 4 * 64 + w) ∷ decode rest
unfolding decode
decode_full s t u w rest i j k l =
    rw
      (
        letter_not_padding u k,
        letter_not_padding w l,
        value_of-letter s i,
        value_of-letter t j,
        value_of-letter u k,
        value_of-letter w l,
      )
      refl

decode_two :
    (s t u : ℕ)
    → s < 64
    → t < 64
    → u < 64
    → decode (letter s ∷ letter t ∷ letter u ∷ 61 ∷ [])
      ≡ (s * 4 + t / 16) ∷ (t % 16 * 16 + u / 4) ∷ []
unfolding decode
decode_two s t u i j k =
    rw (letter_not_padding u k, value_of-letter s i, value_of-letter t j, value_of-letter u k) refl

decode_one :
    (s t : ℕ)
    → s < 64
    → t < 64
    → decode (letter s ∷ letter t ∷ 61 ∷ 61 ∷ []) ≡ (s * 4 + t / 16) ∷ []
unfolding decode
decode_one s t i j = rw (value_of-letter s i, value_of-letter t j) refl

-- Every element is a byte.
abbrev pub AllBytes : List ℕ → Type 0
AllBytes [] = Unit {0}
AllBytes (b ∷ bs) = (b < 256) × AllBytes bs

abbrev padded : List ℕ → List ℕ
padded output = output ++ pad (length output % 4)

pad_four : (n : ℕ) → pad (suc (suc (suc (suc n))) % 4) ≡ pad (n % 4)
pad_four n = let e : suc (suc (suc (suc n))) % 4 ≡ n % 4 = omega arith in ap pad e

padded_empty : (v : ℕ) → decode (padded (encode_from v 0 [])) ≡ []
unfolding encode_from last_letter pad decode
padded_empty v = refl

same_byte : (a : ℕ) → a / 4 * 4 + a % 4 * 16 / 16 ≡ a
same_byte a = omega arith

first_byte : (a b : ℕ) → b < 256 → a / 4 * 4 + (a % 4 * 16 + b / 16) / 16 ≡ a
first_byte a b m = omega arith

second_byte :
    (a b c : ℕ)
    → b < 256
    → c < 256
    → (a % 4 * 16 + b / 16) % 16 * 16 + (b % 16 * 4 + c / 64) / 4 ≡ b
second_byte a b c m k = omega arith

second_of_two : (a b : ℕ) → b < 256 → (a % 4 * 16 + b / 16) % 16 * 16 + b % 16 * 4 / 4 ≡ b
second_of_two a b m = omega arith

third_byte : (b c : ℕ) → c < 256 → (b % 16 * 4 + c / 64) % 4 * 64 + c % 64 ≡ c
third_byte b c k = omega arith

padded_one : (v a : ℕ) → a < 256 → decode (padded (encode_from v 0 (a ∷ []))) ≡ a ∷ []
unfolding pad
padded_one v a l =
    rw (encode_one v a l)
      (decode_one (a / 4) (a % 4 * 16) (omega arith) (omega arith) ∙ ap (λ x. x ∷ []) (same_byte a))

padded_two :
    (v a b : ℕ) → a < 256 → b < 256 → decode (padded (encode_from v 0 (a ∷ b ∷ []))) ≡ a ∷ b ∷ []
unfolding pad
padded_two v a b l m = rw (encode_two v a b l m) (
    decode_two (a / 4) (a % 4 * 16 + b / 16) (b % 16 * 4) (omega arith) (omega arith) (omega arith)
    ∙ rw (first_byte a b m, second_of_two a b m) refl)

-- Three bytes are four letters, in front of those of the rest.
padded_triple :
    (v a b c : ℕ) (rest : List ℕ)
    → a < 256
    → b < 256
    → c < 256
    → let w = (((v * 256 + a) % 2 ^ 32 * 256 + b) % 2 ^ 32 * 256 + c) % 2 ^ 32 in
      decode (padded (encode_from v 0 (a ∷ b ∷ c ∷ rest)))
      ≡ a ∷ b ∷ c ∷ decode (padded (encode_from w 0 rest))
padded_triple v a b c rest l m k =
    let w = (((v * 256 + a) % 2 ^ 32 * 256 + b) % 2 ^ 32 * 256 + c) % 2 ^ 32 in
    let tail = encode_from w 0 rest in
    rw (encode_triple v a b c rest l m k, pad_four (length tail))
      (decode_full (a / 4) (a % 4 * 16 + b / 16) (b % 16 * 4 + c / 64) (c % 64) (padded tail)
          (omega arith) (omega arith) (omega arith) (omega arith)
        ∙ rw (first_byte a b m, second_byte a b c m k, third_byte b c k) refl)

decode-padded : (bs : List ℕ) (v : ℕ) → AllBytes bs → decode (padded (encode_from v 0 bs)) ≡ bs
decode-padded [] v h = padded_empty v
decode-padded (a ∷ []) v (l, h) = padded_one v a l
decode-padded (a ∷ b ∷ []) v (l, (m, h)) = padded_two v a b l m
decode-padded (a ∷ b ∷ c ∷ rest) v (l, (m, (k, h))) =
    padded_triple v a b c rest l m k ∙ ap (λ r. a ∷ b ∷ c ∷ r) (decode-padded rest _ h)

-- A decoder of the format gives back every list of bytes that base64_encode has encoded.
pub decode-base64_encode : (bytes : List ℕ) → AllBytes bytes → decode (base64_encode bytes) ≡ bytes
unfolding base64_encode
decode-base64_encode bytes h = decode-padded bytes 0 h
