-- ===== src/Tests/ClientId.antt =====
-- The key of a conversation at concrete requests.
use yllm.Base.Outcome.{done, fault}
use yllm.Base.Text.{codes}
use yllm.Base.{◌≡◌, refl, some, none, [], ◌∷◌, length, leb, if◌then◌else◌}
use yllm.ClientId.Body.{id_body, pick_client_sess_id-id_body}
use yllm.ClientId.{id_of_header, names, pick_client_sess_id}
use yllm.Http.{HttpRequest, http_header_get, header_value, strip_name}

abbrev request : HttpRequest
request = record {
  method = codes "POST";
  path = codes "/v1";
  version = codes "HTTP/1.1";
  headers = codes "Host: a" ∷ [];
  body = none;
}

no_key : id_of_header request 4 names ≡ none
unfolding id_of_header http_header_get header_value strip_name
no_key = refl

pick_client_sess_id-id_body_example :
    pick_client_sess_id (some request) (some (id_body (codes "a\"b") (codes "}"))) 4
    ≡ (if leb 4 (length (codes "a\"b")) then fault else done (codes "a\"b"))
pick_client_sess_id-id_body_example =
    pick_client_sess_id-id_body request b'a' (codes "\"b") (codes "}") 4 no_key
