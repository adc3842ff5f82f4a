-- ===== src/Sse/Escape.antt =====
-- What the stream escapes, the JSON reader reads back.
use yllm.Base.Outcome.{done}
use yllm.Base.Text.{Bytes}
use yllm.Base.{
  ℕ, ◌-◌, ◌≡◌, ◌≢◌, ◌⊎◌, inl, inr, Bool-cases, refl, ap, ◌∙◌, [], ◌∷◌, ◌++◌, arith, length, take,
  length-append, take-append, ◌==◌,
}
use yllm.Json.{json_str, scan_string, json_parse, json_str_unescape, unescaped}
use yllm.Json.Object.{scan_string_plain, scan_string_close}
use yllm.Sse.{escape_byte, sse_escape}

-- A byte is written as it is, or as a backslash and the byte that stands for it.
pub escape_cases :
    (c : ℕ)
    → ((escape_byte c ≡ c ∷ []) × (c ≢ b'"') × (c ≢ b'\\'))
      ⊎ ((d : ℕ) × (escape_byte c ≡ b'\\' ∷ d ∷ []) × (unescaped d ≡ c))
unfolding escape_byte
escape_cases c = elim (Bool-cases (c == b'"')) [
  | inl quote ↦ inr (b'"', ground (arith, quote), ground (arith, quote))
  | inr a ↦ elim (Bool-cases (c == b'\\')) [
    | inl slash ↦ inr (b'\\', ground (arith, slash), ground (arith, slash))
    | inr b ↦ elim (Bool-cases (c == b'\n')) [
      | inl newline ↦ inr (b'n', ground (arith, newline), ground (arith, newline))
      | inr d ↦ elim (Bool-cases (c == b'\r')) [
        | inl return ↦ inr (b'r', ground (arith, return), ground (arith, return))
        | inr e ↦ elim (Bool-cases (c == b'\t')) [
          | inl tab ↦ inr (b't', ground (arith, tab), ground (arith, tab))
          | inr f ↦ inl (ground (arith, a, b, d, e, f), ground (arith, a), ground (arith, b))
        ]
      ]
    ]
  ]
]

pub scan_string_escaped : (d : ℕ) (s : Bytes) → scan_string (b'\\' ∷ d ∷ s) ≡ scan_string s
unfolding scan_string
scan_string_escaped d s = refl

pub scan_string-sse_escape :
    (w rest : Bytes) → scan_string (sse_escape w ++ b'"' ∷ rest) ≡ done (b'"' ∷ rest)
unfolding sse_escape
scan_string-sse_escape [] rest = scan_string_close rest
scan_string-sse_escape (c ∷ w) rest = elim (escape_cases c) [
  | inl (e, a, b) ↦
      rw e (scan_string_plain c (sse_escape w ++ b'"' ∷ rest) a b ∙ scan_string-sse_escape w rest)
  | inr (d, e, back) ↦
      rw e (scan_string_escaped d (sse_escape w ++ b'"' ∷ rest) ∙ scan_string-sse_escape w rest)
]

json_str_unescape_plain :
    (c : ℕ) (s : Bytes) → c ≢ b'\\' → json_str_unescape (c ∷ s) ≡ c ∷ json_str_unescape s
unfolding json_str_unescape
json_str_unescape_plain c [] a = refl
json_str_unescape_plain c (d ∷ s) a = ground (arith, a)

json_str_unescape_escaped :
    (d : ℕ) (s : Bytes) → json_str_unescape (b'\\' ∷ d ∷ s) ≡ unescaped d ∷ json_str_unescape s
unfolding json_str_unescape
json_str_unescape_escaped d s = refl

pub json_str_unescape-sse_escape : (w : Bytes) → json_str_unescape (sse_escape w) ≡ w
unfolding sse_escape
json_str_unescape-sse_escape [] = unfold json_str_unescape in refl
json_str_unescape-sse_escape (c ∷ w) = elim (escape_cases c) [
  | inl (e, a, b) ↦ rw e (
      json_str_unescape_plain c (sse_escape w) b ∙ ap (λ t. c ∷ t) (json_str_unescape-sse_escape w))
  | inr (d, e, back) ↦ rw e (
      json_str_unescape_escaped d (sse_escape w)
      ∙ (ap (λ (b : ℕ). b ∷ json_str_unescape (sse_escape w)) back
          ∙ ap (λ t. c ∷ t) (json_str_unescape-sse_escape w)))
]

-- An escaped text between quotes is parsed as a string that ends at the closing quote, and its
-- bytes are unescaped to the text.
pub json_parse-sse_escape :
    (w rest : Bytes)
    → (json_parse (b'"' ∷ (sse_escape w ++ b'"' ∷ rest))
        ≡ done (
          record {
            type = json_str;
            start = sse_escape w ++ b'"' ∷ rest;
            len = length (sse_escape w);
          },
          rest,
        ))
      × (json_str_unescape (take (length (sse_escape w)) (sse_escape w ++ b'"' ∷ rest)) ≡ w)
unfolding json_parse
json_parse-sse_escape w rest =
    let size = length-append (sse_escape w) (b'"' ∷ rest) in
    let len : length (sse_escape w ++ b'"' ∷ rest) - length (b'"' ∷ rest) ≡ length (sse_escape w) =
      omega (arith, size) in
    (
      rw (scan_string-sse_escape w rest, len) refl,
      rw (take-append (sse_escape w) (b'"' ∷ rest)) (json_str_unescape-sse_escape w),
    )
