-- ===== src/Tests/Http.antt =====
-- The HTTP reader at concrete requests.
use yllm.Base.Outcome.{done, fault}
use yllm.Base.Scan.{is_space, atoi}
use yllm.Base.Text.{Bytes, codes, equal}
use yllm.Base.{
  ℕ, zero, suc, ◌<◌, ◌≡◌, ◌≢◌, refl, true, Bool, not, ◌&&◌, some, List, [], ◌∷◌, ◌++◌, map, All,
  arith, ◌==◌,
}
use yllm.Http.Full.{http_parse_request_full, http_parse_request_negative}
use yllm.Http.Lines.{crlf, IsHeader, IsWord}
use yllm.Http.Lookup.{http_header_get-lookup, header_text, cut, lookup}
use yllm.Http.RoundTrip.{IsRequest, print_request, http_parse_request-print_request}
use yllm.Http.{
  HttpRequest, http_parse_request, http_header_get, http_auth_key, auth_value, strip_name,
  content_length,
}
use yllm.Wire.Frame.RoundTrip.{IsLineByte}

abbrev is_line : Bytes → Bool
is_line [] = true
is_line (c ∷ s) = not (c == b'\n') && (not (c == b'\r') && (not (c == 0) && is_line s))

is_line→IsLineByte : (s : Bytes) → is_line s ≡ true → All IsLineByte s
is_line→IsLineByte [] h = tt
is_line→IsLineByte (c ∷ s) h = (
  (ground (arith, h), ground (arith, h), ground (arith, h)),
  is_line→IsLineByte s (ground (arith, h)),
)

abbrev two_bytes : Bytes
two_bytes = codes "Content-Length: 2"

abbrev minus_one : Bytes
minus_one = codes "Content-Length: -1"

-- As many headers of one byte.
abbrev copies : ℕ → List Bytes
copies zero = []
copies (suc n) = (b'a' ∷ []) ∷ copies n

copies-IsHeader : (n : ℕ) → All IsHeader (copies n)
copies-IsHeader zero = tt
copies-IsHeader (suc n) =
    ((is_line→IsLineByte (b'a' ∷ []) refl, omega arith, omega arith), copies-IsHeader n)

abbrev request : List Bytes → Bytes → HttpRequest
request headers body = record {
  method = b'P' ∷ [];
  path = b'/' ∷ [];
  version = b'1' ∷ [];
  headers = headers;
  body = some body;
}

one_byte : (size c : ℕ) → 0 < size → not (is_space c) ≡ true → c ≢ 0 → IsWord size (c ∷ [])
one_byte size c room visible byte = (((visible, byte), tt), omega arith, omega arith)

request-IsRequest :
    (h : Bytes) (n : ℕ) (body : Bytes) → IsHeader h → IsRequest (request (h ∷ copies n) body)
request-IsRequest h n body header = record {
  method = one_byte 15 b'P' (omega arith) refl (omega arith);
  path = one_byte 511 b'/' (omega arith) refl (omega arith);
  version = one_byte 15 b'1' (omega arith) refl (omega arith);
  headers = (header, copies-IsHeader n);
}

two_bytes-IsHeader : IsHeader two_bytes
two_bytes-IsHeader = (is_line→IsLineByte two_bytes refl, omega arith, omega arith)

minus_one-IsHeader : IsHeader minus_one
minus_one-IsHeader = (is_line→IsLineByte minus_one refl, omega arith, omega arith)

content_length-copies : (clen n : ℕ) → content_length clen (copies n) ≡ clen
unfolding content_length strip_name
content_length-copies clen zero = refl
content_length-copies clen (suc n) = content_length-copies clen n

content_length_two : (n : ℕ) → content_length 0 (two_bytes ∷ copies n) ≡ 2
unfolding content_length strip_name atoi
content_length_two n = content_length-copies 2 n

content_length_minus : content_length 0 (minus_one ∷ copies 1) ≡ suc 18446744073709551614
unfolding content_length strip_name atoi
content_length_minus = refl

abbrev small : HttpRequest
small = request (two_bytes ∷ copies 1) (codes "{}")

http_parse_request-print_request_example :
    http_parse_request (λ _. true) (print_request small ++ codes "GET")
    ≡ done (some (small, codes "GET"))
http_parse_request-print_request_example =
    http_parse_request-print_request (λ _. true) small (codes "GET")
      (request-IsRequest two_bytes 1 (codes "{}") two_bytes-IsHeader) (omega arith)
      (
        content_length_two 1,
        omega (arith, content_length_two 1),
        omega (arith, content_length_two 1),
      )
      refl

abbrev many : HttpRequest
many = request (two_bytes ∷ copies 31) (codes "{}")

http_parse_request_full_example :
    http_parse_request (λ _. true) (print_request many)
    ≡ done (some (record many { body = some (crlf ++ []) }, codes "{}"))
http_parse_request_full_example =
    http_parse_request_full (λ _. true) many [] b'{' b'}'
      (request-IsRequest two_bytes 31 (codes "{}") two_bytes-IsHeader) (omega arith) refl
      (content_length_two 31) (omega arith) refl

abbrev negative : HttpRequest
negative = request (minus_one ∷ copies 1) (codes "x")

http_parse_request_negative_example :
    http_parse_request (λ _. true) (print_request negative) ≡ fault
http_parse_request_negative_example =
    http_parse_request_negative (λ _. true) negative 18446744073709551614 b'x' []
      (request-IsRequest minus_one 1 (codes "x") minus_one-IsHeader) (omega arith)
      content_length_minus refl refl refl

abbrev pairs : List (Bytes × Bytes)
pairs = (codes "H", codes "a") ∷ (codes "X", codes "12345") ∷ []

http_header_get-lookup_example :
    http_header_get (map header_text pairs) (codes "x") 4 ≡ cut 4 (lookup pairs (codes "x"))
http_header_get-lookup_example =
    http_header_get-lookup pairs (codes "x") 4 (omega arith, tt)
      (((omega arith, tt), refl), (((omega arith, tt), refl), tt))

found : cut 4 (lookup pairs (codes "x")) ≡ some (codes "123")
unfolding equal
found = refl

auth : http_auth_key (codes "Authorization: bearer k1" ∷ []) 64 ≡ some (codes "k1")
unfolding http_auth_key auth_value strip_name
auth = refl
