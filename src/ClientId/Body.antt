-- ===== src/ClientId/Body.antt =====
-- The key that stands in a body.
use yllm.Base.Outcome.{done, fault}
use yllm.Base.Text.{Bytes, codes}
use yllm.Base.{
  ℕ, ◌<◌, ◌≡◌, refl, true, none, some, ◌∷◌, ◌++◌, arith, if◌then◌else◌, length, take, ltb, leb,
  lt→ltb, length-append, Bool-cases, inl, inr,
}
use yllm.ClientId.{copy_id, id_of_body, id_of_header, names, pick_client_sess_id}
use yllm.Http.{HttpRequest}
use yllm.Json.Object.{find_field_here}
use yllm.Json.{json_str, json_find, json_find_in_obj, find_path, json_str_unescape}
use yllm.Sse.Escape.{json_parse-sse_escape}
use yllm.Sse.{sse_escape, escape_byte}

-- An object that begins with the key's field.
abbrev pub id_body : Bytes → Bytes → Bytes
id_body w rest = codes "{\"conversation_id\":\"" ++ (sse_escape w ++ b'"' ∷ rest)

find_id :
    (w rest : Bytes)
    → json_find_in_obj (id_body w rest) (codes "conversation_id")
      ≡ done (
          some (record {
            type = json_str;
            start = sse_escape w ++ b'"' ∷ rest;
            len = length (sse_escape w);
          }))
unfolding json_find_in_obj
find_id w rest =
    find_field_here _ (codes "conversation_id") (b'"' ∷ (sse_escape w ++ b'"' ∷ rest)) _ rest refl
      (json_parse-sse_escape w rest).0

json_find_id :
    (w rest : Bytes)
    → json_find (id_body w rest) (codes "conversation_id")
      ≡ done (
          some (record {
            type = json_str;
            start = sse_escape w ++ b'"' ∷ rest;
            len = length (sse_escape w);
          }))
unfolding json_find find_path
json_find_id w rest = rw (find_id w rest) refl

escape_byte_some : (c : ℕ) → 0 < length (escape_byte c)
unfolding escape_byte
escape_byte_some c = ground arith

some_byte : (c : ℕ) (w : Bytes) → 0 < length (sse_escape (c ∷ w))
unfolding sse_escape
some_byte c w = omega (arith, escape_byte_some c, length-append (escape_byte c) (sse_escape w))

-- For a request whose headers give no key, with an object as its body that begins with a string for
-- the key, which is not empty: the key is that string where it is shorter than the buffer, and
-- otherwise the buffer is overrun.
pub pick_client_sess_id-id_body :
    (q : HttpRequest) (c : ℕ) (w rest : Bytes) (outsz : ℕ)
    → id_of_header q outsz names ≡ none
    → pick_client_sess_id (some q) (some (id_body (c ∷ w) rest)) outsz
      ≡ (if leb outsz (length (c ∷ w)) then fault else done (c ∷ w))
unfolding pick_client_sess_id id_of_body copy_id
pick_client_sess_id-id_body q c w rest outsz header =
    let text = c ∷ w in
    let read : json_str_unescape (take (length (sse_escape text)) (sse_escape text ++ b'"' ∷ rest))
        ≡ text =
      (json_parse-sse_escape text rest).1 in
    let long : ltb 0 (length (sse_escape text)) ≡ true = lt→ltb 0 _ (some_byte c w) in
    elim (Bool-cases (leb outsz (length text))) [
      | inl over ↦
          rw
            (
              pick_client_sess_id,
              header,
              id_of_body,
              json_find_id text rest,
              long,
              copy_id,
              read,
              over,
            )
            refl
      | inr fits ↦
          rw
            (
              pick_client_sess_id,
              header,
              id_of_body,
              json_find_id text rest,
              long,
              copy_id,
              read,
              fits,
            )
            refl
    ]
