-- ===== src/Ntrip.antt =====
-- The answer of an NTRIP caster and the parts of the request in
-- ros2/src/mowgli_ntrip_client/src/ntrip_connection.cpp. A buffer and a text are lists of bytes.
pub mod Payload
pub mod Handshake
pub mod Chunks
pub mod Base64
pub mod Sextets
pub mod RoundTrip
mod Examples
use Prim.Native.Char.{Char, code}
use Prim.Native.String.{String}
use mowglimavros.Prelude.{
  ℕ, zero, suc, ◌+◌, Bool, true, false, not, ◌&&◌, ◌||◌, List, [], ◌∷◌, Option, none, some, ltb,
  leb, ◌==◌, if◌then◌else◌,
}

abbrev pub codes : String → List ℕ
codes String.[] = []
codes (String.◌∷◌ c s) = code c ∷ codes s

unfoldable pub starts_with : List ℕ → List ℕ → Bool
starts_with value [] = true
starts_with [] (p ∷ ps) = false
starts_with (v ∷ vs) (p ∷ ps) = v == p && starts_with vs ps

-- Some of the texts starts the value.
unfoldable pub starts_with_any : List ℕ → List String → Bool
starts_with_any value [] = false
starts_with_any value (t ∷ ts) = starts_with value (codes t) || starts_with_any value ts

unfoldable pub is_success_status_line : List ℕ → Bool
is_success_status_line line =
    starts_with_any line ("ICY 200" ∷ "HTTP/1.0 200" ∷ "HTTP/1.1 200" ∷ [])

unfoldable pub is_textual_error_response : List ℕ → Bool
is_textual_error_response text = starts_with_any text (
    "SOURCETABLE" ∷ "ERROR" ∷ "ICY 401" ∷ "ICY 403" ∷ "ICY 404" ∷ "HTTP/1.0 401" ∷ "HTTP/1.0 403"
    ∷ "HTTP/1.0 404" ∷ "HTTP/1.1 401" ∷ "HTTP/1.1 403" ∷ "HTTP/1.1 404" ∷ [])

-- The test of `std::count_if`.
unfoldable pub non_ascii : ℕ → Bool
non_ascii byte = byte == 0 || ltb byte 9 || (ltb 13 byte && ltb byte 32) || ltb 126 byte

unfoldable pub has_non_ascii : List ℕ → Bool
has_non_ascii [] = false
has_non_ascii (b ∷ bs) = non_ascii b || has_non_ascii bs

-- Carriage return, line feed, tab, or a printable character.
unfoldable pub textual : ℕ → Bool
textual byte = byte == 13 || byte == 10 || byte == 9 || (leb 32 byte && leb byte 126)

unfoldable pub extract_text_prefix : List ℕ → List ℕ
extract_text_prefix [] = []
extract_text_prefix (b ∷ bs) = if textual b then b ∷ extract_text_prefix bs else []

abbrev pub take : ℕ → List ℕ → List ℕ
take zero bs = []
take (suc n) [] = []
take (suc n) (b ∷ bs) = b ∷ take n bs

unfoldable pub drop : ℕ → List ℕ → List ℕ
drop zero bs = bs
drop (suc n) [] = []
drop (suc n) (b ∷ bs) = drop n bs

abbrev first_is : ℕ → List ℕ → Bool
first_is byte [] = false
first_is byte (b ∷ bs) = b == byte

unfoldable pub looks_like_rtcm3_stream : List ℕ → Bool
looks_like_rtcm3_stream buffer =
    first_is 211 buffer
    || (has_non_ascii buffer
        && not (
            starts_with_any (extract_text_prefix (take 32 buffer))
              ("HTTP/" ∷ "ICY " ∷ "SOURCETABLE" ∷ "ERROR" ∷ [])))

abbrev pub is_break : ℕ → Bool
is_break b = b == 13 || b == 10

unfoldable pub extract_status_line : List ℕ → List ℕ
extract_status_line [] = []
extract_status_line (b ∷ bs) = if is_break b then [] else b ∷ extract_status_line bs

-- `std::string::find` and `find_first_of("\r\n")`, `none` for npos.
abbrev after : Option ℕ → Option ℕ
after none = none
after (some n) = some (suc n)

unfoldable pub find : List ℕ → List ℕ → Option ℕ
find needle [] = if starts_with [] needle then some 0 else none
find needle (b ∷ bs) =
    let rest = find needle bs in if starts_with (b ∷ bs) needle then some 0 else after rest

unfoldable pub find_break : List ℕ → Option ℕ
find_break [] = none
find_break (b ∷ bs) = let rest = find_break bs in if is_break b then some 0 else after rest

unfoldable pub skip_breaks : List ℕ → List ℕ
skip_breaks [] = []
skip_breaks (b ∷ bs) = let rest = skip_breaks bs in if is_break b then rest else b ∷ bs

abbrev pub after_line : List ℕ → Option ℕ → List ℕ
after_line buffer none = []
after_line buffer (some line_end) = skip_breaks (drop line_end buffer)

abbrev pub after_header : List ℕ → Option ℕ → Option ℕ → List ℕ
after_header buffer (some header_end) line_end = drop (header_end + 4) buffer
after_header buffer none line_end = after_line buffer line_end

unfoldable pub extract_initial_payload : List ℕ → List ℕ → List ℕ
extract_initial_payload buffer text_prefix =
    after_header buffer (find (13 ∷ 10 ∷ 13 ∷ 10 ∷ []) text_prefix) (find_break text_prefix)

-- What the handler of the first read does: it reconnects with a state and a text, or it streams and
-- delivers the bytes.
pub data Answer : Type 0 where
  invalid_response : List ℕ → Answer
  caster_rejected : List ℕ → Answer
  streaming : List ℕ → Answer

abbrev or_else : List ℕ → List ℕ → List ℕ
or_else [] text = text
or_else (b ∷ bs) text = b ∷ bs

abbrev pub answer_text : List ℕ → List ℕ → List ℕ → Answer
answer_text initial_chunk text_prefix status_line =
    if is_textual_error_response text_prefix || is_textual_error_response status_line
    then caster_rejected (or_else status_line text_prefix)
    else if not (is_success_status_line status_line)
    then invalid_response (or_else status_line (codes "unrecognized handshake response"))
    else streaming (extract_initial_payload initial_chunk text_prefix)

unfoldable pub answer : List ℕ → Answer
answer [] = invalid_response (codes "empty handshake response")
answer (b ∷ bs) =
    let text_prefix = extract_text_prefix (b ∷ bs) in
    if looks_like_rtcm3_stream (b ∷ bs)
    then streaming (b ∷ bs)
    else answer_text (b ∷ bs) text_prefix (extract_status_line text_prefix)

unfoldable pub normalize_mountpoint : List ℕ → List ℕ
normalize_mountpoint [] = 47 ∷ []
normalize_mountpoint (b ∷ bs) = if b == 47 then b ∷ bs else 47 ∷ b ∷ bs
