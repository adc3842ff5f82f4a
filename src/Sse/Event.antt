-- ===== src/Sse/Event.antt =====
-- The event that a token sends, as the JSON reader reads it.
use yllm.Base.Outcome.{done}
use yllm.Base.Scan.{is_digit}
use yllm.Base.Text.{Bytes, codes}
use yllm.Base.{
  ℕ, zero, suc, ◌+◌, ◌-◌, ◌*◌, ◌≤◌, ◌<◌, ◌≡◌, ◌≢◌, refl, ap, ◌∙◌, true, false, none, some, [], ◌∷◌,
  ◌++◌, arith, length, take, All, ◌==◌, if◌then◌else◌, length-append, length-take,
  take_of_length-le, take-append,
}
use yllm.Json.Object.{is_plain}
use yllm.Json.{JsonVal, json_str, json_find, json_str_unescape}
use yllm.Sse.Escape.{json_str_unescape-sse_escape}
use yllm.Sse.{
  SseCtx, escape_byte, sse_escape, chunk, sse_on_token, sse_token, joined, utf8_complete_len,
  http_sse_data,
}
use yllm.Sse.Chunk.{content, json_find-chunk}

length-escape_byte-le : (c : ℕ) → length (escape_byte c) ≤ 2
unfolding escape_byte
length-escape_byte-le c = ground arith

length-sse_escape-le : (w : Bytes) → length (sse_escape w) ≤ 2 * length w
unfolding sse_escape
length-sse_escape-le [] = omega arith
length-sse_escape-le (c ∷ w) = omega (
  arith,
  length-append (escape_byte c) (sse_escape w),
  length-escape_byte-le c,
  length-sse_escape-le w,
)

length-chunk :
    (created model escaped : Bytes)
    → length (chunk created model escaped)
      ≡ 142 + (length created + (length model + length escaped))
length-chunk created model escaped =
    let behind = codes "\"},\"finish_reason\":null}]}" in
    let behind_model =
      codes "\",\"choices\":[{\"index\":0,\"delta\":{\"content\":\"" ++ (escaped ++ behind) in
    let behind_created = codes ",\"model\":\"" ++ (model ++ behind_model) in
    omega (
      arith,
      length-append created behind_created,
      length-append model behind_model,
      length-append escaped behind,
    )

-- A chunk fits its buffer.
chunk_fits :
    (created model w : Bytes) (size : ℕ)
    → length created + length model < 114
    → length w ≤ size
    → take (256 + size * 2 - 1) (chunk created model (sse_escape w))
      ≡ chunk created model (sse_escape w)
chunk_fits created model w size short le =
    take_of_length-le (256 + size * 2 - 1) (chunk created model (sse_escape w))
      (omega (arith, length-chunk created model (sse_escape w), length-sse_escape-le w, short, le))

-- What goes out where there is something to send.
event :
    (n : ℕ) (s : Bytes) (f : Bytes → Bytes)
    → n ≢ 0
    → (elim (if n == 0 then none else some s) [ none ↦ none | some e ↦ some (f e) ]) ≡ some (f s)
event zero s f h = absurd (h refl)
event (suc n) s f h = let positive : (suc n == 0) ≡ false = ground arith in rw positive refl

-- Where a token completes a character, with a clock in digits and a plain model that are together
-- shorter than 114 bytes: one event goes out, whole, and the reader finds in it, at
-- choices.0.delta.content, a string whose bytes are unescaped to the complete characters.
pub sse_on_token-json_find :
    (d : ℕ) (ds : Bytes) (sc : SseCtx) (utf8 : Bytes)
    → All (λ b. is_digit b ≡ true) (d ∷ ds)
    → is_plain sc.model ≡ true
    → length (d ∷ ds) + length sc.model < 114
    → utf8_complete_len (joined sc.pending utf8) ≢ 0
    → (text : Bytes) × (v : JsonVal) × ((sse_on_token (d ∷ ds) sc utf8).1
        ≡ some (http_sse_data text))
      × (json_find text (codes "choices.0.delta.content") ≡ done (some v))
      × (v.type ≡ json_str)
      × (json_str_unescape (take v.len v.start)
          ≡ take (utf8_complete_len (joined sc.pending utf8)) (joined sc.pending utf8))
unfolding sse_on_token sse_token
sse_on_token-json_find d ds sc utf8 digits plain short ready =
    let buf = joined sc.pending utf8 in
    let complete = utf8_complete_len buf in
    let w = take complete buf in
    (
      chunk (d ∷ ds) sc.model (sse_escape w),
      record { type = json_str; start = content w; len = length (sse_escape w) },
      event complete (sse_escape w)
            (λ e. http_sse_data (take (256 + complete * 2 - 1) (chunk (d ∷ ds) sc.model e))) ready
          ∙ ap (λ t. some (http_sse_data t))
              (chunk_fits (d ∷ ds) sc.model w complete short
                (omega (arith, length-take complete buf))),
      json_find-chunk d ds sc.model w digits plain,
      refl,
      rw (take-append (sse_escape w) (codes "\"},\"finish_reason\":null}]}"))
          (json_str_unescape-sse_escape w),
    )
