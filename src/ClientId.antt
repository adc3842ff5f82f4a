-- ===== src/ClientId.antt =====
-- The key of a client's conversation: pick_client_sess_id of serve/router_http.c.
pub mod Body
use yllm.Base.Outcome.{Outcome, done, fault, ◌>>=◌}
use yllm.Base.Text.{Bytes, codes, is_empty}
use yllm.Base.{
  ℕ, Bool, true, false, ◌&&◌, Option, none, some, List, [], ◌∷◌, if◌then◌else◌, length, take, ltb,
  leb,
}
use yllm.Http.{HttpRequest, http_header_get}
use yllm.Json.{JsonType, JsonVal, json_str, json_find, json_str_unescape}

abbrev pub is_str : JsonType → Bool
is_str json_str = true
is_str _ = false

-- The unescaped text and its terminator are written to `out`, of `outsz` bytes, before the length is
-- looked at.
unfoldable pub copy_id : ℕ → JsonVal → Outcome Bytes
copy_id outsz v =
    let text = json_str_unescape (take v.len v.start) in
    if leb outsz (length text) then fault else done text

-- The loop over the keys.
unfoldable pub id_of_body : Bytes → ℕ → List Bytes → Outcome Bytes
id_of_body body outsz [] = done []
id_of_body body outsz (key ∷ keys) =
    let rest = id_of_body body outsz keys in
    json_find body key >>= λ o. elim o [
      | none ↦ rest
      | some v ↦
          let copied = copy_id outsz v >>= λ text. if is_empty text then rest else done text in
          if is_str v.type && ltb 0 v.len then copied else rest
    ]

abbrev pub keys : List Bytes
keys = codes "conversation_id" ∷ codes "session_id" ∷ codes "chat_id" ∷ []

-- A header that is there, and is not empty.
unfoldable pub id_of_header : HttpRequest → ℕ → List Bytes → Option Bytes
id_of_header req outsz [] = none
id_of_header req outsz (name ∷ names) =
    let rest = id_of_header req outsz names in
    elim (http_header_get req.headers name outsz) [
      | none ↦ rest
      | some text ↦ if is_empty text then rest else some text
    ]

abbrev pub names : List Bytes
names = codes "X-Session-Id" ∷ codes "X-Conversation-Id" ∷ []

-- What is left in `out`; a missing request or body is NULL.
unfoldable pub pick_client_sess_id : Option HttpRequest → Option Bytes → ℕ → Outcome Bytes
pick_client_sess_id req body outsz =
    let from_header : Option Bytes = elim req [
      | none ↦ none
      | some q ↦ id_of_header q outsz names
    ] in
    elim from_header [
      | some text ↦ done text
      | none ↦ elim body [ none ↦ done [] | some text ↦ id_of_body text outsz keys ]
    ]
