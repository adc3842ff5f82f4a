-- ===== src/Sse/Chunk.antt =====
-- The chunks of the stream, as the JSON reader reads them.
use yllm.Base.Outcome.{done}
use yllm.Base.Scan.{is_digit, atoi}
use yllm.Base.Text.{Bytes, codes, equal}
use yllm.Base.{
  ℕ, ◌≡◌, refl, ap, sym, ◌∙◌, true, some, [], ◌∷◌, ◌++◌, arith, length, All, append_assoc,
}
use yllm.Json.Object.{
  is_plain, find_field_here, find_field_next, json_parse_object, json_parse_array,
  json_parse-is_plain, json_parse_digits, json_skip_ws_digit,
}
use yllm.Json.Suffix.{EndsWell}
use yllm.Json.{
  json_str, json_obj, json_arr, json_parse, json_find_in_obj, find_index, skip_values, find_path,
  json_find,
}
use yllm.Sse.Escape.{json_parse-sse_escape}
use yllm.Sse.{sse_escape, chunk}

-- The rest of a chunk, from the text on.
abbrev pub content : Bytes → Bytes
content w = sse_escape w ++ codes "\"},\"finish_reason\":null}]}"

abbrev delta : Bytes → Bytes
delta w = codes "{\"content\":\"" ++ content w

abbrev choice : Bytes → Bytes
choice w = codes "{\"index\":0,\"delta\":" ++ delta w

abbrev choices : Bytes → Bytes
choices w = codes "[" ++ choice w

EndsWell-append : (s : Bytes) (c : ℕ) (t : Bytes) → EndsWell (c ∷ t) → EndsWell (s ++ c ∷ t)
EndsWell-append [] c t h = h
EndsWell-append (a ∷ []) c t h = h
EndsWell-append (a ∷ b ∷ s) c t h = EndsWell-append (b ∷ s) c t h

EndsWell-content : (s w : Bytes) → EndsWell (s ++ content w)
EndsWell-content s w =
    rw (sym (append_assoc s (sse_escape w) (codes "\"},\"finish_reason\":null}]}")))
      (EndsWell-append (s ++ sse_escape w) b'"' (codes "},\"finish_reason\":null}]}") (omega arith))

find_content :
    (w : Bytes)
    → json_find_in_obj (delta w) (codes "content")
      ≡ done (some (record { type = json_str; start = content w; len = length (sse_escape w) }))
unfolding json_find_in_obj
find_content w =
    find_field_here _ (codes "content") (b'"' ∷ content w) _ _ refl
      (json_parse-sse_escape w (codes "},\"finish_reason\":null}]}")).0

find_delta :
    (w : Bytes)
    → (n : ℕ) × (json_find_in_obj (choice w) (codes "delta")
        ≡ done (some (record { type = json_obj; start = delta w; len = n })))
unfolding json_find_in_obj equal
find_delta w =
    let (n, e, is) =
      json_parse_object (codes "\"content\":\"" ++ content w)
        (EndsWell-content (codes "{\"content\":\"") w) in
    let (m, number) =
      json_parse_digits b'0' [] b',' (codes "\"delta\":" ++ delta w) (refl, tt) refl in
    (
      n,
      find_field_next _ (codes "delta") (codes "index") (codes "0,\"delta\":" ++ delta w) _
            (codes "\"delta\":" ++ delta w) refl refl number
          ∙ find_field_here _ (codes "delta") (delta w) _ e refl is,
    )

find_choice :
    (w : Bytes)
    → (n : ℕ) × (find_index (codes "0") (choices w)
        ≡ done (some (record { type = json_obj; start = choice w; len = n })))
unfolding find_index skip_values atoi
find_choice w =
    let (n, e, is) =
      json_parse_object (codes "\"index\":0,\"delta\":" ++ delta w)
        (EndsWell-content (codes "{\"index\":0,\"delta\":{\"content\":\"") w) in
    (n, rw is refl)

find_choices :
    (d : ℕ) (ds model w : Bytes)
    → All (λ b. is_digit b ≡ true) (d ∷ ds)
    → is_plain model ≡ true
    → (n : ℕ) × (json_find_in_obj (chunk (d ∷ ds) model (sse_escape w)) (codes "choices")
        ≡ done (some (record { type = json_arr; start = choices w; len = n })))
unfolding json_find_in_obj equal
find_choices d ds model w digits plain =
    let key = codes "choices" in
    let array_field = codes "\"choices\":" ++ choices w in
    let model_text = b'"' ∷ (model ++ b'"' ∷ b',' ∷ array_field) in
    let model_field = codes "\"model\":" ++ model_text in
    let created_text = d ∷ (ds ++ b',' ∷ model_field) in
    let created_field = codes "\"created\":" ++ created_text in
    let object_text = codes "\"chat.completion.chunk\"," ++ created_field in
    let object_field = codes "\"object\":" ++ object_text in
    let (n, e, array) =
      json_parse_array (choice w)
        (EndsWell-content (codes "[{\"index\":0,\"delta\":{\"content\":\"") w) in
    let (n4, name) = json_parse-is_plain model (b',' ∷ array_field) plain in
    let (n3, number) = json_parse_digits d ds b',' model_field digits refl in
    let (n2, object_) =
      json_parse-is_plain (codes "chat.completion.chunk") (b',' ∷ created_field) refl in
    let (n1, id) = json_parse-is_plain (codes "chatcmpl-1") (b',' ∷ object_field) refl in
    let visible = json_skip_ws_digit d (ds ++ b',' ∷ model_field) digits.0 in
    (
      n,
      find_field_next _ key (codes "id") (codes "\"chatcmpl-1\"," ++ object_field) _ object_field
            refl refl id
          ∙ (find_field_next _ key (codes "object") object_text _ created_field refl refl object_
              ∙ (find_field_next _ key (codes "created") created_text _ model_field refl refl
                    (ap json_parse visible ∙ number)
                  ∙ (find_field_next _ key (codes "model") model_text _ array_field refl refl name
                      ∙ find_field_here _ key (choices w) _ e refl array))),
    )

-- A chunk whose clock is printed in digits, and whose model has no quote and no backslash, has its
-- text at choices.0.delta.content.
pub json_find-chunk :
    (d : ℕ) (ds model w : Bytes)
    → All (λ b. is_digit b ≡ true) (d ∷ ds)
    → is_plain model ≡ true
    → json_find (chunk (d ∷ ds) model (sse_escape w)) (codes "choices.0.delta.content")
      ≡ done (some (record { type = json_str; start = content w; len = length (sse_escape w) }))
unfolding json_find find_path
json_find-chunk d ds model w digits plain =
    rw ((find_choices d ds model w digits plain).1)
      (rw ((find_choice w).1) (rw ((find_delta w).1) (rw (find_content w) refl)))
