-- ===== src/Tests/Sse.antt =====
-- The stream of tokens at concrete inputs.
use yllm.Base.Int.{pos}
use yllm.Base.Outcome.{done, fault}
use yllm.Base.Print.{print_int}
use yllm.Base.Text.{Bytes, codes}
use yllm.Base.{◌≡◌, ◌≢◌, some, ◌≤◌, refl, true, List, [], ◌∷◌, ◌++◌, length, take, arith}
use yllm.Json.{json_find, JsonVal, json_parse, json_find_in_obj, json_str, json_str_unescape}
use yllm.Sse.Event.{sse_on_token-json_find}
use yllm.Sse.Escape.{json_parse-sse_escape}
use yllm.Sse.Stream.{sse_run, sse_run-join, client_text, join}
use yllm.Sse.Truncated.{json_parse_truncated}
use yllm.Sse.{
  SseCtx, sse_escape, sse_on_done, sse_on_token, http_sse_data, utf8_complete_len, complete_len,
  joined,
}

abbrev fresh : SseCtx
fresh = record {
  model = codes "qwen";
  n_tokens = 0;
  prompt_tokens = pos 3;
  include_usage = true;
  pending = [];
}

-- A character of three bytes that comes in two tokens.
abbrev halves : List (Bytes × Bytes)
halves = (codes "8", b'a' ∷ 0xE4 ∷ []) ∷ (codes "9", 0xBD ∷ 0xA0 ∷ b'"' ∷ []) ∷ []

json_parse-sse_escape_example :
    (json_parse (b'"' ∷ (sse_escape (codes "a\"") ++ b'"' ∷ codes ",1"))
      ≡ done (
        record {
          type = json_str;
          start = sse_escape (codes "a\"") ++ b'"' ∷ codes ",1";
          len = length (sse_escape (codes "a\""));
        },
        codes ",1",
      ))
    × (json_str_unescape
          (take (length (sse_escape (codes "a\""))) (sse_escape (codes "a\"") ++ b'"' ∷ codes ",1"))
        ≡ codes "a\"")
json_parse-sse_escape_example = json_parse-sse_escape (codes "a\"") (codes ",1")

json_parse_truncated_example :
    (json_parse (b'"' ∷ (sse_escape (codes "a") ++ b'\\' ∷ [])) ≡ fault)
    × (json_find_in_obj (b'{' ∷ b'"' ∷ (sse_escape (codes "a") ++ b'\\' ∷ [])) (codes "n") ≡ fault)
json_parse_truncated_example = json_parse_truncated (codes "a") (codes "n")

sse_run-join_example :
    (client_text (sse_run fresh halves).1 ++ (sse_run fresh halves).0.pending ≡ join halves)
    × (length (sse_run fresh halves).0.pending ≤ 3)
    × ((sse_run fresh halves).0.n_tokens ≡ 2)
sse_run-join_example =
    sse_run-join fresh halves (omega arith) refl
      (((omega arith, (refl, tt)), omega arith), (((omega arith, (refl, tt)), omega arith), tt))

-- The size of what goes out at the end, with the counts.
end_of_stream : length (sse_on_done (codes "1700000000") fresh (codes "stop")) ≡ 330
unfolding sse_on_done print_int
end_of_stream = refl

ready : utf8_complete_len (joined fresh.pending (codes "a\"")) ≢ 0
unfolding utf8_complete_len complete_len joined
ready = omega arith

sse_on_token-json_find_example :
    (text : Bytes) × (v : JsonVal) × ((sse_on_token (codes "17") fresh (codes "a\"")).1
      ≡ some (http_sse_data text))
    × (json_find text (codes "choices.0.delta.content") ≡ done (some v))
    × (v.type ≡ json_str)
    × (json_str_unescape (take v.len v.start)
        ≡ take
            (utf8_complete_len (joined fresh.pending (codes "a\"")))
            (joined fresh.pending (codes "a\"")))
sse_on_token-json_find_example =
    sse_on_token-json_find b'1' (codes "7") fresh (codes "a\"") (refl, (refl, tt)) refl
      (omega arith) ready
