-- ===== src/Ntrip/Handshake.antt =====
-- What the answer of a caster delivers (ntrip_connection.cpp).
use mowglimavros.Prelude.{
  ℕ, true, false, ◌≡◌, List, [], ◌∷◌, Option, none, some, arith, inl, inr, subst, sym, ◌⊎◌, refl,
}
use mowglimavros.Ntrip.Payload.{
  blank, Payload, behind_header, behind_line, none_of_it, find-some, find-none, find_break-none,
  find_break-some,
}
use mowglimavros.Ntrip.{
  streaming, answer, after_header, extract_initial_payload, find, find_break, extract_text_prefix,
  extract_status_line, is_success_status_line, looks_like_rtcm3_stream,
}

after_header-Payload :
    (chunk : List ℕ) (h l : Option ℕ)
    → find blank (extract_text_prefix chunk) ≡ h
    → find_break (extract_text_prefix chunk) ≡ l
    → Payload (after_header chunk h l) chunk
after_header-Payload chunk (some h) l e f = behind_header (find-some chunk h e)
after_header-Payload chunk none (some l) e f =
    behind_line (find-none chunk e) (find_break-some chunk l f)
after_header-Payload chunk none none e f = none_of_it (find_break-none chunk f) refl

streaming_cases :
    (chunk payload : List ℕ)
    → answer chunk ≡ streaming payload
    → ((looks_like_rtcm3_stream chunk ≡ true) × (payload ≡ chunk))
      ⊎ ((looks_like_rtcm3_stream chunk ≡ false)
          × (is_success_status_line (extract_status_line (extract_text_prefix chunk)) ≡ true)
          × (payload ≡ extract_initial_payload chunk (extract_text_prefix chunk)))
unfolding answer
streaming_cases [] p e = ground arith
streaming_cases (b ∷ bs) p e = ground arith

-- A stream that starts at once is delivered whole. Otherwise the first line reports success, and what
-- is delivered is what follows the first end of a header in the text at the front of the bytes;
-- without one, what follows the line end of the first line, all of its bytes; and without a line end
-- nothing.
pub answer-Payload :
    (chunk payload : List ℕ)
    → answer chunk ≡ streaming payload
    → ((looks_like_rtcm3_stream chunk ≡ true) × (payload ≡ chunk))
      ⊎ ((looks_like_rtcm3_stream chunk ≡ false)
          × (is_success_status_line (extract_status_line (extract_text_prefix chunk)) ≡ true)
          × Payload payload chunk)
unfolding extract_initial_payload
answer-Payload chunk payload e =
    let t = extract_text_prefix chunk in
    elim (streaming_cases chunk payload e) [
      | inl q ↦ inl q
      | inr (n, s, q) ↦ inr (
        n,
        s,
        subst (λ x. Payload x chunk) (sym q)
            (after_header-Payload chunk (find blank t) (find_break t) refl refl),
      )
    ]
