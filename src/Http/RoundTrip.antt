-- ===== src/Http/RoundTrip.antt =====
-- A request that is sent is parsed as it was.
use yllm.Base.Outcome.{Outcome, done, hang, fault, ◌>>=◌}
use yllm.Base.Scan.{is_space}
use yllm.Base.Text.{Bytes}
use yllm.Base.{
  ℕ, suc, ◌+◌, ◌-◌, ◌%◌, ◌^◌, ◌≤◌, ◌<◌, ◌≡◌, ◌≢◌, refl, ap, ◌∙◌, true, false, Bool, not, Option,
  none, some, List, [], ◌∷◌, ◌++◌, arith, ◌==◌, ltb, leb, length, take, drop, drop-append,
  take-append, All, All-append, append_assoc, append-nil, length-append,
}
use yllm.Http.Lines.{
  crlf, header_lines, IsHeader, IsWord, recv_line-crlf, c_string-line, read_headers-header_lines,
  more, more-length, request_line-words,
}
use yllm.Http.{
  HttpRequest, line_max, headers_max, read_headers, content_length, read_body, http_parse_request,
}
use yllm.Wire.Frame.RoundTrip.{IsLineByte}
use yllm.Wire.Frame.{recv_line}

abbrev pub print_line : Bytes → Bytes → Bytes → Bytes
print_line method path version = method ++ (b' ' ∷ (path ++ (b' ' ∷ version)))

abbrev pub body_bytes : Option Bytes → Bytes
body_bytes none = []
body_bytes (some body) = body

abbrev pub print_request : HttpRequest → Bytes
print_request q =
    print_line q.method q.path q.version
    ++ (crlf ++ (header_lines q.headers ++ (crlf ++ body_bytes q.body)))

-- What a client may send: words and headers that fit.
pub record IsRequest (q : HttpRequest) : Type 0 where
  pub method : IsWord 15 q.method
  pub path : IsWord 511 q.path
  pub version : IsWord 15 q.version
  pub headers : All IsHeader q.headers

-- A body of the length that the headers name, which is not 0, or no body.
abbrev pub HasBody : ℕ → Option Bytes → Type 0
HasBody clen none = clen ≡ 0
HasBody clen (some body) = (clen ≡ length body) × (0 < clen) × (clen + 1 < 2 ^ 64)

word_line : (w : Bytes) → All (λ c. (not (is_space c) ≡ true) × (c ≢ 0)) w → All IsLineByte w
word_line [] h = tt
word_line (c ∷ w) h = ((ground (arith, h.0.0), ground (arith, h.0.0), h.0.1), word_line w h.1)

print_line-line :
    (q : HttpRequest) → IsRequest q → All IsLineByte (print_line q.method q.path q.version)
print_line-line q h =
    let blank : IsLineByte b' ' = (omega arith, omega arith, omega arith) in
    All-append IsLineByte q.method _ (word_line q.method h.method.0) (
      blank,
      All-append IsLineByte q.path _ (word_line q.path h.path.0)
          (blank, word_line q.version h.version.0),
    )

-- The headers up to the blank line.
pub read_headers-few :
    (hs : List Bytes) (rest : Bytes)
    → All IsHeader hs
    → length hs < headers_max
    → read_headers headers_max (header_lines hs ++ (crlf ++ rest)) ≡ some (hs, rest)
unfolding read_headers recv_line
read_headers-few hs rest a few =
    let room = suc (31 - length hs) in
    let count : headers_max ≡ more hs room = omega (arith, more-length hs room, few) in
    ap (λ n. read_headers n (header_lines hs ++ (crlf ++ rest))) count
    ∙ (read_headers-header_lines room hs (crlf ++ rest) [] rest a refl
        ∙ ap (λ (l : List Bytes). some (l, rest)) (append-nil hs))

pub read_body-body :
    (malloc : ℕ → Bool) (clen : ℕ) (body : Option Bytes) (rest : Bytes)
    → HasBody clen body
    → malloc (clen + 1) ≡ true
    → read_body malloc clen (body_bytes body ++ rest) ≡ done (some (body, rest))
unfolding read_body
read_body-body malloc clen none rest h memory = rw h refl
read_body-body malloc clen (some body) rest h memory =
    let clen_eq : clen ≡ length body = h.0 in
    let some_bytes : (clen == 0) ≡ false = ground (arith, h.1) in
    let size : (clen + 1) % 2 ^ 64 ≡ clen + 1 = omega (arith, h.2) in
    let front : take clen (body ++ rest) ≡ body =
      ap (λ n. take n (body ++ rest)) clen_eq ∙ take-append body rest in
    let behind : drop clen (body ++ rest) ≡ rest =
      ap (λ n. drop n (body ++ rest)) clen_eq ∙ drop-append body rest in
    let inside : ltb (clen + 1) (length body) ≡ false = ground (arith, clen_eq) in
    let enough : leb clen (length (body ++ rest)) ≡ true =
      ground (arith, clen_eq, length-append body rest) in
    rw (some_bytes, size, memory, front, inside, enough, behind) refl

-- What the parser makes of what the reader of the body returns.
abbrev pub with_body :
    HttpRequest → Outcome (Option (Option Bytes × Bytes)) → Outcome (Option (HttpRequest × Bytes))
with_body q (done none) = done none
with_body q (done (some (body, rest))) = done (some (record q { body = body }, rest))
with_body q hang = hang
with_body q fault = fault

then_body :
    (q : HttpRequest) (o : Outcome (Option (Option Bytes × Bytes)))
    → ◌>>=◌ {B = Option (HttpRequest × Bytes)} o (λ x. elim x [
      | none ↦ done none
      | some (body, rest) ↦ done (some (record q { body = body }, rest))
    ])
      ≡ with_body q o
then_body q (done none) = refl
then_body q (done (some (body, rest))) = refl
then_body q hang = refl
then_body q fault = refl

-- A request is parsed by its line, its headers and its body.
pub http_parse_request-lines :
    (malloc : ℕ → Bool) (q : HttpRequest) (behind s : Bytes)
    → IsRequest q
    → read_headers headers_max behind ≡ some (q.headers, s)
    → http_parse_request malloc (print_line q.method q.path q.version ++ (crlf ++ behind))
      ≡ with_body q (read_body malloc (content_length 0 q.headers) s)
unfolding http_parse_request
http_parse_request-lines malloc q behind s h headers =
    let line = print_line q.method q.path q.version in
    let short : length line ≤ line_max = omega (
      arith,
      h.method.2,
      h.path.2,
      h.version.2,
      length-append q.method (b' ' ∷ (q.path ++ b' ' ∷ q.version)),
      length-append q.path (b' ' ∷ q.version),
    ) in
    rw
      (
        http_parse_request,
        recv_line-crlf line_max line behind (print_line-line q h) short,
        c_string-line line (print_line-line q h),
        request_line-words q.method q.path q.version h.method h.path h.version,
        headers,
      )
      (then_body q (read_body malloc (content_length 0 q.headers) s))

-- A request with fewer than 32 headers, all of which fit, with the length of its body among them,
-- and with memory for the body, is parsed as it was, and what comes behind it is left.
pub http_parse_request-print_request :
    (malloc : ℕ → Bool) (q : HttpRequest) (rest : Bytes)
    → IsRequest q
    → length q.headers < headers_max
    → HasBody (content_length 0 q.headers) q.body
    → malloc (content_length 0 q.headers + 1) ≡ true
    → http_parse_request malloc (print_request q ++ rest) ≡ done (some (q, rest))
http_parse_request-print_request malloc q rest h few body memory =
    let behind = header_lines q.headers ++ (crlf ++ (body_bytes q.body ++ rest)) in
    let spelled : print_request q ++ rest
        ≡ print_line q.method q.path q.version ++ (crlf ++ behind) =
      simp append_assoc in
    ap (http_parse_request malloc) spelled
    ∙ (http_parse_request-lines malloc q behind (body_bytes q.body ++ rest) h
          (read_headers-few q.headers (body_bytes q.body ++ rest) h.headers few)
        ∙ ap (with_body q)
            (read_body-body malloc (content_length 0 q.headers) q.body rest body memory))
