-- ===== src/Json/Safe.antt =====
-- The parser returns, and stays within its text unless the text ends in a backslash.
use yllm.Base.Outcome.{Outcome, done, hang, fault, ◌>>=◌}
use yllm.Base.Text.{Bytes, head_byte, drop_while, length-drop_while-le}
use yllm.Base.{
  ℕ, zero, suc, ◌+◌, ◌-◌, ◌≤◌, ◌<◌, ◌≡◌, false, [], ◌∷◌, arith, length, drop, ◌==◌, ◌||◌,
  Bool-cases, inl, inr,
}
use yllm.Json.{
  JsonVal, JsonType, scan_string, scan_nested, close_quote, json_parse, json_skip_ws, json_obj,
  json_arr, json_str, json_bool, json_null, json_num, is_ws, opens, closes, is_literal,
}
use yllm.Json.Suffix.{
  EndsWell, EndsWell-tail, EndsWell-drop, EndsWell-drop_while, EndsWell-close_quote, IsSuffix, all,
  behind, suffix_trans, length-IsSuffix, IsSuffix-drop, IsSuffix-drop_while, IsSuffix-close_quote,
}

-- The scan returns, at a place in its text, which ends well.
abbrev pub Returns : Bytes → Outcome Bytes → Type 0
Returns s (done e) = (length e ≤ length s) × EndsWell e × IsSuffix e s
Returns s hang = ⊥
Returns s fault = ⊥

Returns-behind : (s t : Bytes) (r : Outcome Bytes) → IsSuffix s t → Returns s r → Returns t r
Returns-behind s t (done e) in_ h =
    (omega (arith, h.0, length-IsSuffix in_), h.1, suffix_trans h.2 in_)
Returns-behind s t hang in_ h = h
Returns-behind s t fault in_ h = h

pub scan_string-Returns : (s : Bytes) → EndsWell s → Returns s (scan_string s)
unfolding scan_string
scan_string-Returns [] h = (omega arith, tt, all)
scan_string-Returns (c ∷ []) h = elim (Bool-cases (c == b'"')) [
  | inl quote ↦ rw quote (omega arith, h, all)
  | inr other ↦
      let plain : (c == b'\\') ≡ false = ground (arith, h) in
      rw (other, plain) (omega arith, tt, behind c all)
]
scan_string-Returns (c ∷ d ∷ s) h = elim (Bool-cases (c == b'"')) [
  | inl quote ↦ rw quote (omega arith, h, all)
  | inr other ↦ elim (Bool-cases (c == b'\\')) [
    | inl slash ↦
        rw (other, slash)
          (Returns-behind s _ _ (behind c (behind d all))
            (scan_string-Returns s (EndsWell-tail d s h)))
    | inr plain ↦
        rw (other, plain)
          (Returns-behind (d ∷ s) _ _ (behind c all) (scan_string-Returns (d ∷ s) h))
  ]
]

-- What follows on a scan that returns.
Returns->>= :
    (s t : Bytes) (r : Outcome Bytes) (f : Bytes → Outcome Bytes)
    → Returns s r
    → ((e : Bytes) → EndsWell e → IsSuffix e s → Returns t (f e))
    → Returns t (r >>= f)
Returns->>= s t (done e) f h k = k e h.1 h.2
Returns->>= s t hang f h k = absurd h
Returns->>= s t fault f h k = absurd h

pub scan_nested-Returns :
    (fuel depth : ℕ) (s : Bytes)
    → EndsWell s
    → length s < fuel
    → Returns s (scan_nested fuel depth s)
unfolding scan_nested
scan_nested-Returns zero depth s h enough = absurd (omega arith)
scan_nested-Returns (suc fuel) depth [] h enough = (omega arith, tt, all)
scan_nested-Returns (suc fuel) depth (c ∷ s) h enough =
    let tail = EndsWell-tail c s h in
    let next = λ (d : ℕ).
      Returns-behind s (c ∷ s) _ (behind c all) (scan_nested-Returns fuel d s tail (omega arith)) in
    elim (Bool-cases (opens c)) [
      | inl open_ ↦ rw open_ (next (depth + 1))
      | inr a ↦ elim (Bool-cases (closes c)) [
        | inl close ↦ elim (Bool-cases (depth == 1)) [
          | inl last ↦ rw (a, close, last) (omega arith, tail, behind c all)
          | inr inner ↦ rw (a, close, inner) (next (depth - 1))
        ]
        | inr b ↦ elim (Bool-cases (c == b'"')) [
          | inl quote ↦
              rw (a, b, quote)
                (Returns->>= s (c ∷ s) (scan_string s) (λ q. scan_nested fuel depth (close_quote q))
                  (scan_string-Returns s tail)
                  (λ e good in_.
                    let closed = suffix_trans (IsSuffix-close_quote e) in_ in
                    Returns-behind (close_quote e) _ _ (behind c closed) (
                      scan_nested-Returns fuel depth (close_quote e) (EndsWell-close_quote e good)
                        (omega (arith, length-IsSuffix closed)))))
          | inr other ↦ rw (a, b, other) (next depth)
        ]
      ]
    ]

-- A value lies in its text, and what stands behind it stands at a place in the text, and ends well.
abbrev pub Parses : Bytes → Outcome (JsonVal × Bytes) → Type 0
Parses t (done (v, e)) = EndsWell e × IsSuffix e t × (v.len ≤ length v.start) × IsSuffix v.start t
Parses t hang = ⊥
Parses t fault = ⊥

nested-Parses :
    (t : Bytes) (type : JsonType) (s : Bytes) (r : Outcome Bytes)
    → IsSuffix s t
    → Returns s r
    → Parses t (r >>= λ e. done (record { type = type; start = s; len = length s - length e }, e))
nested-Parses t type s (done e) in_ h = (h.1, suffix_trans h.2 in_, omega arith, in_)
nested-Parses t type s hang in_ h = absurd h
nested-Parses t type s fault in_ h = absurd h

string-Parses :
    (t : Bytes) (type : JsonType) (s : Bytes) (r : Outcome Bytes)
    → IsSuffix s t
    → Returns s r
    → Parses t (
        r >>= λ e.
        done (record { type = type; start = s; len = length s - length e }, close_quote e))
string-Parses t type s (done e) in_ h = (
  EndsWell-close_quote e h.1,
  suffix_trans (IsSuffix-close_quote e) (suffix_trans h.2 in_),
  omega arith,
  in_,
)
string-Parses t type s hang in_ h = absurd h
string-Parses t type s fault in_ h = absurd h

pub json_parse-Parses : (p : Bytes) → EndsWell p → Parses p (json_parse p)
unfolding json_parse
json_parse-Parses p h =
    let s = json_skip_ws p in
    let in_ = IsSuffix-drop_while is_ws p in
    let good = EndsWell-drop_while is_ws p h in
    let c = head_byte s in
    let nested = λ (type : JsonType).
      nested-Parses p type s _ in_ (scan_nested-Returns (suc (length s)) 0 s good (omega arith)) in
    let literal = λ (type : JsonType). nested-Parses p type s (done (drop_while is_literal s)) in_ (
      length-drop_while-le is_literal s,
      EndsWell-drop_while is_literal s good,
      IsSuffix-drop_while is_literal s,
    ) in
    elim (Bool-cases (c == b'{')) [
      | inl is ↦ rw is (nested json_obj)
      | inr a ↦ elim (Bool-cases (c == b'[')) [
        | inl is ↦ rw (a, is) (nested json_arr)
        | inr b ↦ elim (Bool-cases (c == b'"')) [
          | inl is ↦
              rw (a, b, is)
                (string-Parses p json_str (drop 1 s) _ (suffix_trans (IsSuffix-drop 1 s) in_)
                  (scan_string-Returns (drop 1 s) (EndsWell-drop 1 s good)))
          | inr d ↦ elim (Bool-cases (c == b't' || c == b'f')) [
            | inl is ↦ rw (a, b, d, is) (literal json_bool)
            | inr e ↦ elim (Bool-cases (c == b'n')) [
              | inl is ↦ rw (a, b, d, e, is) (literal json_null)
              | inr f ↦ rw (a, b, d, e, f) (literal json_num)
            ]
          ]
        ]
      ]
    ]
