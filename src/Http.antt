-- ===== src/Http.antt =====
-- Requests and responses: serve/http.h. A connection is the bytes that are still to come on it; its
-- end is the peer's close.
pub mod Lines
pub mod RoundTrip
pub mod Full
pub mod Lookup
use yllm.Base.Int.{ℤ, pos, negsuc}
use yllm.Base.Outcome.{Outcome, done, fault, ◌>>=◌}
use yllm.Base.Print.{print_int}
use yllm.Base.Scan.{atoi, scan_word}
use yllm.Base.Text.{Bytes, codes, is_empty, drop_while}
use yllm.Base.{
  ℕ, zero, suc, ◌+◌, ◌-◌, ◌%◌, ◌^◌, Bool, true, false, not, ◌||◌, ◌&&◌, Option, none, some, List,
  [], ◌∷◌, ◌++◌, ◌==◌, ltb, leb, if◌then◌else◌, length, take, drop,
}
use yllm.Wire.Frame.{recv_line, c_string}

-- `body` is the `body_len` bytes of the body, or none for NULL.
pub record HttpRequest : Type 0 where
  pub method : Bytes
  pub path : Bytes
  pub version : Bytes
  pub headers : List Bytes
  pub body : Option Bytes

-- `HTTP_MAX_LINE` and the rows of `headers`, less the terminator, and `HTTP_MAX_HEADERS`.
abbrev pub line_max : ℕ
line_max = 8191

abbrev pub header_max : ℕ
header_max = 511

abbrev pub headers_max : ℕ
headers_max = 32

-- `tolower`
abbrev pub lower : ℕ → ℕ
lower c = if leb b'A' c && leb c b'Z' then c + 32 else c

-- `strncasecmp(s, name, strlen(name)) == 0`, with what stands behind.
unfoldable pub strip_name : Bytes → Bytes → Option Bytes
strip_name [] s = some s
strip_name (k ∷ ks) [] = none
strip_name (k ∷ ks) (c ∷ s) = if lower k == lower c then strip_name ks s else none

abbrev pub is_blank_or_tab : ℕ → Bool
is_blank_or_tab c = c == b' ' || c == b'\t'

-- A value, cut to `out`.
abbrev pub copy_value : ℕ → Bytes → Bytes
copy_value outsz p = take (outsz - 1) (drop_while is_blank_or_tab p)

-- One header of `http_header_get`: the value, if it has the name.
unfoldable pub header_value : Bytes → Bytes → Option Bytes
header_value name h = elim (strip_name name h) [
  | none ↦ none
  | some [] ↦ none
  | some (c ∷ p) ↦ if c == b':' then some p else none
]

unfoldable pub http_header_get : List Bytes → Bytes → ℕ → Option Bytes
http_header_get [] name outsz = none
http_header_get (h ∷ hs) name outsz = elim (header_value name h) [
  | some p ↦ some (copy_value outsz p)
  | none ↦ http_header_get hs name outsz
]

-- One header of `http_auth_key`.
unfoldable pub auth_value : Bytes → Option Bytes
auth_value h = elim (strip_name (codes "Authorization:") h) [
  | some p ↦ strip_name (codes "Bearer ") (drop_while is_blank_or_tab p)
  | none ↦ strip_name (codes "api-key:") h
]

unfoldable pub http_auth_key : List Bytes → ℕ → Option Bytes
http_auth_key [] outsz = none
http_auth_key (h ∷ hs) outsz = elim (auth_value h) [
  | some p ↦ some (copy_value outsz p)
  | none ↦ http_auth_key hs outsz
]

-- The loop over the headers, with room for `n` of them.
unfoldable pub read_headers : ℕ → Bytes → Option (List Bytes × Bytes)
read_headers zero s = some ([], s)
read_headers (suc n) s = elim (recv_line line_max s) [
  | none ↦ none
  | some ([], rest) ↦ some ([], rest)
  | some (c ∷ line, rest) ↦ elim (read_headers n rest) [
    | none ↦ none
    | some (hs, behind) ↦ some (take header_max (c_string (c ∷ line)) ∷ hs, behind)
  ]
]

-- `(size_t)`, of a `long`
abbrev pub size_of : ℤ → ℕ
size_of (pos n) = n
size_of (negsuc n) = 2 ^ 64 - suc n

-- The loop for the length: the last of the headers counts.
unfoldable pub content_length : ℕ → List Bytes → ℕ
content_length clen [] = clen
content_length clen (h ∷ hs) = elim (strip_name (codes "Content-Length:") h) [
  | none ↦ content_length clen hs
  | some r ↦ content_length (size_of (atoi r)) hs
]

-- The body, with the bytes that are left; `malloc` tells whether there is memory of a size. What
-- comes is written to that memory, and a byte behind it is a fault.
unfoldable pub read_body : (ℕ → Bool) → ℕ → Bytes → Outcome (Option (Option Bytes × Bytes))
read_body malloc clen s =
    let size = (clen + 1) % 2 ^ 64 in
    let enough = leb clen (length s) in
    if clen == 0
    then done (some (none, s))
    else if not (malloc size)
    then done none
    else if ltb size (length (take clen s))
    then fault
    else if enough
    then done (some (some (take clen s), drop clen s))
    else done none

-- The request line: `sscanf(line, "%15s %511s %15s", ...)`.
unfoldable pub request_line : Bytes → Option (Bytes × Bytes × Bytes)
request_line line = elim (scan_word 15 line) [
  | none ↦ none
  | some (method, r) ↦ elim (scan_word 511 r) [
    | none ↦ none
    | some (path, r') ↦ elim (scan_word 15 r') [
      | none ↦ none
      | some (version, _) ↦ some (method, path, version)
    ]
  ]
]

-- The request and the bytes that are left, or none where the source returns -1.
unfoldable pub http_parse_request : (ℕ → Bool) → Bytes → Outcome (Option (HttpRequest × Bytes))
http_parse_request malloc s = elim (recv_line line_max s) [
  | none ↦ done none
  | some (line, s') ↦ elim (request_line (c_string line)) [
    | none ↦ done none
    | some (method, path, version) ↦ elim (read_headers headers_max s') [
      | none ↦ done none
      | some (headers, s'') ↦ read_body malloc (content_length 0 headers) s'' >>= λ o. elim o [
        | none ↦ done none
        | some (body, rest) ↦ done (
            some (
              record {
                method = method;
                path = path;
                version = version;
                headers = headers;
                body = body;
              },
              rest,
            ))
      ]
    ]
  ]
]
