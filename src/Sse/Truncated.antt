-- ===== src/Sse/Truncated.antt =====
-- What the JSON reader does with a text that is cut behind a backslash.
use yllm.Base.Outcome.{fault}
use yllm.Base.Text.{Bytes}
use yllm.Base.{◌≡◌, ◌∙◌, [], ◌∷◌, ◌++◌, refl, inl, inr}
use yllm.Json.{scan_string, json_parse, field, find_field, json_find_in_obj}
use yllm.Json.Object.{scan_string_plain}
use yllm.Sse.Escape.{escape_cases, scan_string_escaped}
use yllm.Sse.{sse_escape}

scan_string_truncated : (w : Bytes) → scan_string (sse_escape w ++ b'\\' ∷ []) ≡ fault
unfolding sse_escape
scan_string_truncated [] = unfold scan_string in refl
scan_string_truncated (c ∷ w) = elim (escape_cases c) [
  | inl (e, a, b) ↦
      rw e (scan_string_plain c (sse_escape w ++ b'\\' ∷ []) a b ∙ scan_string_truncated w)
  | inr (d, e, back) ↦
      rw e (scan_string_escaped d (sse_escape w ++ b'\\' ∷ []) ∙ scan_string_truncated w)
]

-- On a string, or on an object whose first key is one, that is cut behind a backslash, the reader
-- leaves the text.
pub json_parse_truncated :
    (w key : Bytes)
    → (json_parse (b'"' ∷ (sse_escape w ++ b'\\' ∷ [])) ≡ fault)
      × (json_find_in_obj (b'{' ∷ b'"' ∷ (sse_escape w ++ b'\\' ∷ [])) key ≡ fault)
unfolding json_parse json_find_in_obj find_field field
json_parse_truncated w key = (rw (scan_string_truncated w) refl, rw (scan_string_truncated w) refl)
