-- ===== src/Ntrip/Payload.antt =====
-- Where the payload stands in the first bytes of a caster (ntrip_connection.cpp), told without a
-- search.
use mowglimavros.Prelude.{
  ℕ, suc, ◌+◌, Bool, true, false, ◌≡◌, List, [], ◌∷◌, Option, none, some, arith, Bool-cases, inl,
  inr, subst, sym, refl, if◌then◌else◌, ◌∙◌,
}
use mowglimavros.Ntrip.{
  drop, skip_breaks, after, is_break, find, find_break, extract_text_prefix, starts_with, textual,
}

-- The end of a header: two line ends in a row.
abbrev pub blank : List ℕ
blank = 13 ∷ 10 ∷ 13 ∷ 10 ∷ []

-- The payload stands behind the first end of a header, and only text before it.
pub data AfterBlank (payload : List ℕ) : List ℕ → Type 0 where
  blank_here : AfterBlank payload (13 ∷ 10 ∷ 13 ∷ 10 ∷ payload)
  blank_later :
      {x : ℕ} {xs : List ℕ}
      → textual x ≡ true
      → starts_with (x ∷ xs) blank ≡ false
      → AfterBlank payload xs
      → AfterBlank payload (x ∷ xs)

-- No end of a header stands in the text at the front.
pub data NoBlank : List ℕ → Type 0 where
  all_text : NoBlank []
  text_over : {x : ℕ} {xs : List ℕ} → textual x ≡ false → NoBlank (x ∷ xs)
  no_blank_here :
      {x : ℕ} {xs : List ℕ} → starts_with (x ∷ xs) blank ≡ false → NoBlank xs → NoBlank (x ∷ xs)

abbrev breaks_first : List ℕ → Bool
breaks_first [] = false
breaks_first (x ∷ xs) = is_break x

-- The payload stands behind all the bytes of a line end.
pub data AfterBreaks (payload : List ℕ) : List ℕ → Type 0 where
  breaks_over : breaks_first payload ≡ false → AfterBreaks payload payload
  one_break :
      {x : ℕ} {xs : List ℕ}
      → is_break x ≡ true
      → AfterBreaks payload xs
      → AfterBreaks payload (x ∷ xs)

-- The payload stands behind the first line, which is text, and the line end behind it.
pub data AfterLine (payload : List ℕ) : List ℕ → Type 0 where
  line_end :
      {x : ℕ} {xs : List ℕ}
      → is_break x ≡ true
      → AfterBreaks payload xs
      → AfterLine payload (x ∷ xs)
  line_byte :
      {x : ℕ} {xs : List ℕ}
      → is_break x ≡ false
      → textual x ≡ true
      → AfterLine payload xs
      → AfterLine payload (x ∷ xs)

-- No line end stands in the text at the front.
pub data NoBreak : List ℕ → Type 0 where
  no_more : NoBreak []
  text_ends : {x : ℕ} {xs : List ℕ} → textual x ≡ false → NoBreak (x ∷ xs)
  no_break_here : {x : ℕ} {xs : List ℕ} → is_break x ≡ false → NoBreak xs → NoBreak (x ∷ xs)

-- What is delivered of a chunk whose first line reports success.
pub data Payload (payload chunk : List ℕ) : Type 0 where
  behind_header : AfterBlank payload chunk → Payload payload chunk
  behind_line : NoBlank chunk → AfterLine payload chunk → Payload payload chunk
  none_of_it : NoBreak chunk → payload ≡ [] → Payload payload chunk

AllText : List ℕ → Type 0
AllText [] = Unit {0}
AllText (x ∷ xs) = (textual x ≡ true) × AllText xs

blank_text : AllText blank
unfolding textual AllText
blank_text = (refl, (refl, (refl, (refl, tt))))

-- The text at the front begins with a text exactly where the bytes do.
starts_with-extract_text_prefix :
    (xs n : List ℕ) → AllText n → starts_with (extract_text_prefix xs) n ≡ starts_with xs n
unfolding starts_with extract_text_prefix AllText
starts_with-extract_text_prefix xs [] t = refl
starts_with-extract_text_prefix [] (p ∷ ps) t = refl
starts_with-extract_text_prefix (x ∷ xs) (p ∷ ps) (t, ts) =
    ground (arith, starts_with-extract_text_prefix xs ps ts)

starts_with-blank : (xs : List ℕ) → starts_with xs blank ≡ true → AfterBlank (drop 4 xs) xs
unfolding starts_with drop
starts_with-blank [] e = ground arith
starts_with-blank (a ∷ []) e = ground arith
starts_with-blank (a ∷ b ∷ []) e = ground arith
starts_with-blank (a ∷ b ∷ c ∷ []) e = ground arith
starts_with-blank (a ∷ b ∷ c ∷ d ∷ xs) e =
    let f : a ≡ 13 = ground arith in
    let g : b ≡ 10 = ground arith in
    let h : c ≡ 13 = ground arith in let k : d ≡ 10 = ground arith in rw (f, g, h, k) blank_here

after-some : (o : Option ℕ) (h : ℕ) → after o ≡ some h → (k : ℕ) × ((o ≡ some k) × (h ≡ suc k))
after-some none h e = ground arith
after-some (some k) h e = (k, (refl, ground arith))

after-none : (o : Option ℕ) → after o ≡ none → o ≡ none
after-none none e = refl
after-none (some k) e = ground arith

text_first :
    (x : ℕ) (xs : List ℕ)
    → textual x ≡ true
    → extract_text_prefix (x ∷ xs) ≡ x ∷ extract_text_prefix xs
unfolding extract_text_prefix
text_first x xs t = rw t refl

text_none : (x : ℕ) (xs : List ℕ) → textual x ≡ false → extract_text_prefix (x ∷ xs) ≡ []
unfolding extract_text_prefix
text_none x xs t = rw t refl

-- The search steps over the text at the front as it does over the bytes.
find-step :
    (x : ℕ) (xs : List ℕ)
    → textual x ≡ true
    → find blank (extract_text_prefix (x ∷ xs))
      ≡ (if starts_with (x ∷ xs) blank then some 0 else after (find blank (extract_text_prefix xs)))
unfolding find
find-step x xs t =
    rw (← starts_with-extract_text_prefix (x ∷ xs) blank blank_text, text_first x xs t) refl

find_break-step :
    (x : ℕ) (xs : List ℕ)
    → textual x ≡ true
    → find_break (extract_text_prefix (x ∷ xs))
      ≡ (if is_break x then some 0 else after (find_break (extract_text_prefix xs)))
unfolding find_break
find_break-step x xs t = rw (text_first x xs t) refl

find-over :
    (x : ℕ) (xs : List ℕ) → textual x ≡ false → find blank (extract_text_prefix (x ∷ xs)) ≡ none
unfolding find starts_with
find-over x xs t = rw (text_none x xs t) refl

find_break-over :
    (x : ℕ) (xs : List ℕ) → textual x ≡ false → find_break (extract_text_prefix (x ∷ xs)) ≡ none
unfolding find_break
find_break-over x xs t = rw (text_none x xs t) refl

none_is_some : {P : Type 0} (h : ℕ) → none ≡ some h → P
none_is_some h e = ground arith

some_is_none : {P : Type 0} (h : ℕ) → some h ≡ none → P
some_is_none h e = ground arith

same_some : (h k : ℕ) → some h ≡ some k → h ≡ k
same_some h k e = ground arith

pick_here :
    (b : Bool) (o r : Option ℕ) → b ≡ true → (if b then some 0 else after o) ≡ r → some 0 ≡ r
pick_here b o r e f = ground arith

pick_later :
    (b : Bool) (o r : Option ℕ) → b ≡ false → (if b then some 0 else after o) ≡ r → after o ≡ r
pick_later b o r e f = ground arith

drop_later : (n k x : ℕ) (xs : List ℕ) → n ≡ suc k → drop n (x ∷ xs) ≡ drop k xs
unfolding drop
drop_later n k x xs e = rw e refl

pub find-some :
    (xs : List ℕ) (h : ℕ)
    → find blank (extract_text_prefix xs) ≡ some h
    → AfterBlank (drop (h + 4) xs) xs
find-some [] h e = none_is_some h (unfold find starts_with extract_text_prefix in e)
find-some (x ∷ xs) h e = elim (Bool-cases (textual x)) [
  | inr t ↦ none_is_some h (sym (find-over x xs t) ∙ e)
  | inl t ↦
      let f = sym (find-step x xs t) ∙ e in
      elim (Bool-cases (starts_with (x ∷ xs) blank)) [
        | inl s ↦
            let q : 0 ≡ h = same_some 0 h (pick_here _ _ (some h) s f) in
            subst (λ k. AfterBlank (drop (k + 4) (x ∷ xs)) (x ∷ xs)) q
              (starts_with-blank (x ∷ xs) s)
        | inr s ↦
            let (k, (g, q)) =
              after-some (find blank (extract_text_prefix xs)) h (pick_later _ _ (some h) s f) in
            blank_later t s (
              subst (λ y. AfterBlank y xs)
                (sym (drop_later (h + 4) (k + 4) x xs (omega (arith, q)))) (find-some xs k g))
      ]
]

pub find-none : (xs : List ℕ) → find blank (extract_text_prefix xs) ≡ none → NoBlank xs
find-none [] e = all_text
find-none (x ∷ xs) e = elim (Bool-cases (textual x)) [
  | inr t ↦ text_over t
  | inl t ↦
      let f = sym (find-step x xs t) ∙ e in
      elim (Bool-cases (starts_with (x ∷ xs) blank)) [
        | inl s ↦ some_is_none 0 (pick_here _ _ none s f)
        | inr s ↦ no_blank_here s (find-none xs (after-none _ (pick_later _ _ none s f)))
      ]
]

pub find_break-none : (xs : List ℕ) → find_break (extract_text_prefix xs) ≡ none → NoBreak xs
find_break-none [] e = no_more
find_break-none (x ∷ xs) e = elim (Bool-cases (textual x)) [
  | inr t ↦ text_ends t
  | inl t ↦
      let f = sym (find_break-step x xs t) ∙ e in
      elim (Bool-cases (is_break x)) [
        | inl s ↦ some_is_none 0 (pick_here _ _ none s f)
        | inr s ↦ no_break_here s (find_break-none xs (after-none _ (pick_later _ _ none s f)))
      ]
]

skip_breaks-AfterBreaks : (xs : List ℕ) → AfterBreaks (skip_breaks xs) xs
unfolding skip_breaks
skip_breaks-AfterBreaks [] = breaks_over refl
skip_breaks-AfterBreaks (x ∷ xs) = elim (Bool-cases (is_break x)) [
  | inl b ↦ rw b (one_break b (skip_breaks-AfterBreaks xs))
  | inr n ↦ rw n (breaks_over n)
]

first_break :
    (x : ℕ) (xs : List ℕ) → is_break x ≡ true → AfterLine (skip_breaks (drop 0 (x ∷ xs))) (x ∷ xs)
unfolding skip_breaks drop
first_break x xs s = rw s (line_end s (skip_breaks-AfterBreaks xs))

pub find_break-some :
    (xs : List ℕ) (l : ℕ)
    → find_break (extract_text_prefix xs) ≡ some l
    → AfterLine (skip_breaks (drop l xs)) xs
find_break-some [] l e = none_is_some l (unfold find_break extract_text_prefix in e)
find_break-some (x ∷ xs) l e = elim (Bool-cases (textual x)) [
  | inr t ↦ none_is_some l (sym (find_break-over x xs t) ∙ e)
  | inl t ↦
      let f = sym (find_break-step x xs t) ∙ e in
      elim (Bool-cases (is_break x)) [
        | inl s ↦
            let q : 0 ≡ l = same_some 0 l (pick_here _ _ (some l) s f) in
            subst (λ k. AfterLine (skip_breaks (drop k (x ∷ xs))) (x ∷ xs)) q (first_break x xs s)
        | inr s ↦
            let (k, (g, q)) =
              after-some (find_break (extract_text_prefix xs)) l (pick_later _ _ (some l) s f) in
            line_byte s t (
              subst (λ y. AfterLine (skip_breaks y) xs) (sym (drop_later l k x xs q))
                (find_break-some xs k g))
      ]
]
