-- ===== src/Ntrip/Examples.antt =====
-- The answer of a caster (ntrip_connection.cpp) at concrete inputs.
use mowglimavros.Ntrip.Base64.{base64_encode, encode_from, flush, last_letter, letter, table, pad}
use mowglimavros.Ntrip.RoundTrip.{decode, decode-base64_encode}
use mowglimavros.Prelude.{ℕ, ◌≡◌, refl, List, [], ◌∷◌, ◌++◌, arith, ◌⊎◌}
use mowglimavros.Ntrip.{
  codes, answer, streaming, caster_rejected, looks_like_rtcm3_stream, has_non_ascii, non_ascii,
  textual, starts_with_any, starts_with, extract_text_prefix, extract_status_line,
  is_textual_error_response, is_success_status_line, extract_initial_payload, find, find_break,
  drop, skip_breaks, true, false,
}
use mowglimavros.Ntrip.Chunks.{concat, split_rtcm_chunks, Within, split_rtcm_chunks-Within}
use mowglimavros.Ntrip.Payload.{Payload}
use mowglimavros.Ntrip.Handshake.{answer-Payload}

-- "ICY 200 OK", a blank line, and the start of an RTCM message.
abbrev accepted : List ℕ
accepted = codes "ICY 200 OK" ++ 13 ∷ 10 ∷ 13 ∷ 10 ∷ 211 ∷ 0 ∷ 19 ∷ []

accepted_streams : answer accepted ≡ streaming (211 ∷ 0 ∷ 19 ∷ [])
unfolding answer looks_like_rtcm3_stream has_non_ascii non_ascii textual starts_with_any starts_with
    extract_text_prefix extract_status_line is_textual_error_response is_success_status_line
    extract_initial_payload find find_break drop skip_breaks
accepted_streams = refl

refused :
    answer (codes "HTTP/1.1 401 Unauthorized" ++ 13 ∷ 10 ∷ [])
    ≡ caster_rejected (codes "HTTP/1.1 401 Unauthorized")
unfolding answer looks_like_rtcm3_stream has_non_ascii non_ascii textual starts_with_any starts_with
    extract_text_prefix extract_status_line is_textual_error_response
refused = refl

answer-Payload_example :
    ((looks_like_rtcm3_stream accepted ≡ true) × (211 ∷ 0 ∷ 19 ∷ [] ≡ accepted))
    ⊎ ((looks_like_rtcm3_stream accepted ≡ false)
        × (is_success_status_line (extract_status_line (extract_text_prefix accepted)) ≡ true)
        × Payload (211 ∷ 0 ∷ 19 ∷ []) accepted)
answer-Payload_example = answer-Payload accepted (211 ∷ 0 ∷ 19 ∷ []) accepted_streams

split_rtcm_chunks-Within_example :
    (concat (split_rtcm_chunks accepted) ≡ accepted) × Within 720 (split_rtcm_chunks accepted)
split_rtcm_chunks-Within_example = split_rtcm_chunks-Within accepted

-- `user:pass`, as it stands in the request.
credentials_encoded : base64_encode (codes "user:pass") ≡ codes "dXNlcjpwYXNz"
unfolding base64_encode encode_from flush last_letter letter table pad
credentials_encoded = refl

decode-base64_encode_example :
    decode (base64_encode (77 ∷ 97 ∷ 255 ∷ 0 ∷ [])) ≡ 77 ∷ 97 ∷ 255 ∷ 0 ∷ []
decode-base64_encode_example =
    decode-base64_encode (77 ∷ 97 ∷ 255 ∷ 0 ∷ [])
      (omega arith, (omega arith, (omega arith, (omega arith, tt))))
