-- ===== src/Http/Full.antt =====
-- A request with as many headers as there is room for.
use yllm.Base.Outcome.{done, fault}
use yllm.Base.Text.{Bytes}
use yllm.Base.{
  ℕ, suc, ◌+◌, ◌%◌, ◌^◌, ◌<◌, ◌≡◌, refl, ap, ◌∙◌, true, false, Bool, some, List, [], ◌∷◌, ◌++◌,
  arith, ◌==◌, ltb, length, take, append-nil, lt→ltb,
}
use yllm.Http.Lines.{crlf, header_lines, read_headers-header_lines, more, more-length}
use yllm.Http.{
  HttpRequest, headers_max, read_headers, content_length, read_body, http_parse_request,
}
use yllm.Http.RoundTrip.{
  IsRequest, HasBody, print_request, print_line, body_bytes, http_parse_request-lines,
  read_body-body, read_headers-few, with_body,
}

read_body_overflow :
    (malloc : ℕ → Bool) (n c : ℕ) (body : Bytes)
    → suc n + 1 ≡ 2 ^ 64
    → malloc 0 ≡ true
    → read_body malloc (suc n) (c ∷ body) ≡ fault
unfolding read_body
read_body_overflow malloc n c body wraps memory =
    let some_bytes : (suc n == 0) ≡ false = ground arith in
    let size : (suc n + 1) % 2 ^ 64 ≡ 0 = omega (arith, wraps) in
    let outside : ltb 0 (length (take (suc n) (c ∷ body))) ≡ true = lt→ltb 0 _ (omega arith) in
    rw (some_bytes, size, memory, outside) refl

-- For a request with exactly 32 headers, the blank line that ends them is taken for the first two
-- bytes of the body, and the last two bytes of the body are left.
pub http_parse_request_full :
    (malloc : ℕ → Bool) (q : HttpRequest) (body : Bytes) (a b : ℕ)
    → IsRequest q
    → length q.headers ≡ headers_max
    → q.body ≡ some (body ++ a ∷ b ∷ [])
    → content_length 0 q.headers ≡ length body + 2
    → length body + 3 < 2 ^ 64
    → malloc (content_length 0 q.headers + 1) ≡ true
    → http_parse_request malloc (print_request q)
      ≡ done (some (record q { body = some (crlf ++ body) }, a ∷ b ∷ []))
http_parse_request_full malloc q body a b h full is clen size memory =
    let tail = a ∷ b ∷ [] in
    let behind = header_lines q.headers ++ (crlf ++ (body ++ tail)) in
    let spelled : print_request q ≡ print_line q.method q.path q.version ++ (crlf ++ behind) =
      ap
        (λ o.
          print_line q.method q.path q.version
          ++ (crlf ++ (header_lines q.headers ++ (crlf ++ body_bytes o))))
        is in
    let fits : HasBody (content_length 0 q.headers) (some (crlf ++ body)) =
      (omega (arith, clen), omega (arith, clen), omega (arith, clen, size)) in
    let count : headers_max ≡ more q.headers 0 = omega (arith, more-length q.headers 0, full) in
    ap (http_parse_request malloc) spelled
    ∙ (http_parse_request-lines malloc q behind (crlf ++ (body ++ tail)) h (
          ap (λ n. read_headers n behind) count
          ∙ (read_headers-header_lines 0 q.headers (crlf ++ (body ++ tail)) []
                (crlf ++ (body ++ tail)) h.headers (unfold read_headers in refl)
              ∙ ap (λ (l : List Bytes). some (l, crlf ++ (body ++ tail))) (append-nil q.headers)))
        ∙ ap (with_body q) (
            read_body-body malloc (content_length 0 q.headers) (some (crlf ++ body)) tail fits
              memory))

-- For a request with fewer than 32 headers, of which the last length is -1, read as
-- 2^64 - 1, if malloc gives memory
-- for 0 bytes, the first byte of the body is written outside of that memory.
pub http_parse_request_negative :
    (malloc : ℕ → Bool) (q : HttpRequest) (n c : ℕ) (body : Bytes)
    → IsRequest q
    → length q.headers < headers_max
    → content_length 0 q.headers ≡ suc n
    → suc n + 1 ≡ 2 ^ 64
    → malloc 0 ≡ true
    → q.body ≡ some (c ∷ body)
    → http_parse_request malloc (print_request q) ≡ fault
http_parse_request_negative malloc q n c body h few clen wraps memory is =
    let s = c ∷ body in
    let behind = header_lines q.headers ++ (crlf ++ s) in
    let spelled : print_request q ≡ print_line q.method q.path q.version ++ (crlf ++ behind) =
      ap
        (λ o.
          print_line q.method q.path q.version
          ++ (crlf ++ (header_lines q.headers ++ (crlf ++ body_bytes o))))
        is in
    ap (http_parse_request malloc) spelled
    ∙ (http_parse_request-lines malloc q behind s h (read_headers-few q.headers s h.headers few)
        ∙ ap (with_body q)
            (ap (λ k. read_body malloc k s) clen ∙ read_body_overflow malloc n c body wraps memory))
