-- ===== src/Json/Object.antt =====
-- A lookup in an object, one field at a time.
use yllm.Base.Scan.{is_digit}
use yllm.Base.Outcome.{Outcome, done, hang, fault, ◌>>=◌}
use yllm.Base.Text.{Bytes, equal, equal_refl, drop_while-append_stop}
use yllm.Base.{
  ℕ, suc, ◌-◌, ◌≡◌, ◌≢◌, refl, ap, ◌∙◌, true, false, Bool, ◌&&◌, ◌||◌, not, some, [], ◌∷◌, ◌++◌,
  arith, length, take, ◌==◌, Bool-cases, inl, inr, All, length-append, take-append,
}
use yllm.Json.Safe.{Returns, scan_nested-Returns}
use yllm.Json.Suffix.{EndsWell}
use yllm.Json.{
  JsonVal, JsonType, json_arr, json_obj, json_str, json_num, is_literal, scan_string, scan_nested,
  json_parse, json_skip_ws, is_ws, field, find_field,
}

pub scan_string_plain :
    (c : ℕ) (s : Bytes) → c ≢ b'"' → c ≢ b'\\' → scan_string (c ∷ s) ≡ scan_string s
unfolding scan_string
scan_string_plain c [] a b = ground (arith, a, b)
scan_string_plain c (d ∷ s) a b = ground (arith, a, b)

pub scan_string_close : (s : Bytes) → scan_string (b'"' ∷ s) ≡ done (b'"' ∷ s)
unfolding scan_string
scan_string_close [] = refl
scan_string_close (d ∷ s) = refl

-- The text has neither quotes nor backslashes.
abbrev pub is_plain : Bytes → Bool
is_plain [] = true
is_plain (c ∷ s) = not (c == b'"' || c == b'\\') && is_plain s

pub scan_string-is_plain :
    (k r : Bytes) → is_plain k ≡ true → scan_string (k ++ b'"' ∷ r) ≡ done (b'"' ∷ r)
scan_string-is_plain [] r h = scan_string_close r
scan_string-is_plain (c ∷ k) r h =
    scan_string_plain c (k ++ b'"' ∷ r) (ground (arith, h)) (ground (arith, h))
    ∙ scan_string-is_plain k r (ground (arith, h))

-- The field of a plain key.
field-is_plain :
    (k t : Bytes) (v : JsonVal) (e : Bytes)
    → is_plain k ≡ true
    → json_parse (json_skip_ws t) ≡ done (v, e)
    → field (k ++ b'"' ∷ b':' ∷ t) ≡ done (some (length k, v, json_skip_ws e))
unfolding field
field-is_plain k t v e plain parsed =
    let size = length-append k (b'"' ∷ b':' ∷ t) in
    let len : length (k ++ b'"' ∷ b':' ∷ t) - length (b'"' ∷ b':' ∷ t) ≡ length k =
      omega (arith, size) in
    rw (scan_string-is_plain k (b':' ∷ t) plain) (rw parsed (rw len refl))

-- The lookup finds the field of its key.
pub find_field_here :
    (fuel : ℕ) (key t : Bytes) (v : JsonVal) (e : Bytes)
    → is_plain key ≡ true
    → json_parse (json_skip_ws t) ≡ done (v, e)
    → find_field (suc fuel) key (b'"' ∷ (key ++ b'"' ∷ b':' ∷ t)) ≡ done (some v)
unfolding find_field
find_field_here fuel key t v e plain parsed =
    let same : (length key == length key) ≡ true = ground arith in
    rw (field-is_plain key t v e plain parsed)
      (rw (same, take-append key (b'"' ∷ b':' ∷ t), equal_refl key) refl)

differs :
    (key k t : Bytes)
    → equal k key ≡ false
    → (length k == length key && equal (take (length key) (k ++ t)) key) ≡ false
differs key k t other = elim (Bool-cases (length k == length key)) [
  | inr shorter ↦ rw shorter refl
  | inl same ↦
      let len : length key ≡ length k = ground (arith, same) in
      let differ : equal (take (length key) (k ++ t)) key ≡ false =
        ap (λ n. equal (take n (k ++ t)) key) len
        ∙ (ap (λ s. equal s key) (take-append k t) ∙ other) in
      rw (same, differ) refl
]

-- The lookup passes the field of another key.
pub find_field_next :
    (fuel : ℕ) (key k t : Bytes) (v : JsonVal) (after : Bytes)
    → is_plain k ≡ true
    → equal k key ≡ false
    → json_parse (json_skip_ws t) ≡ done (v, b',' ∷ after)
    → find_field (suc fuel) key (b'"' ∷ (k ++ b'"' ∷ b':' ∷ t))
      ≡ find_field fuel key (json_skip_ws after)
unfolding find_field
find_field_next fuel key k t v after plain other parsed =
    rw (field-is_plain k t v (b',' ∷ after) plain parsed, differs key k (b'"' ∷ b':' ∷ t) other)
      refl

-- An object or an array is parsed as one that begins at its brace.
abbrev pub Nested : JsonType → Bytes → Type 0
Nested type s =
    (n : ℕ) × (e : Bytes) × (json_parse s ≡ done (record { type = type; start = s; len = n }, e))

nested_done :
    (type : JsonType) (s : Bytes) (r : Outcome Bytes)
    → Returns s r
    → (n : ℕ) × (e' : Bytes) × (◌>>=◌ {B = JsonVal × Bytes} r
          (λ e. done (record { type = type; start = s; len = length s - length e }, e))
        ≡ done (record { type = type; start = s; len = n }, e'))
nested_done type s (done e) h = (length s - length e, e, refl)
nested_done type s hang h = absurd h
nested_done type s fault h = absurd h

pub json_parse_object : (s : Bytes) → EndsWell (b'{' ∷ s) → Nested json_obj (b'{' ∷ s)
unfolding json_parse
json_parse_object s h =
    let p = b'{' ∷ s in
    nested_done json_obj p (scan_nested (suc (length p)) 0 p)
      (scan_nested-Returns (suc (length p)) 0 p h (omega arith))

pub json_parse_array : (s : Bytes) → EndsWell (b'[' ∷ s) → Nested json_arr (b'[' ∷ s)
unfolding json_parse
json_parse_array s h =
    let p = b'[' ∷ s in
    nested_done json_arr p (scan_nested (suc (length p)) 0 p)
      (scan_nested-Returns (suc (length p)) 0 p h (omega arith))

-- A plain string is parsed as one, up to its closing quote.
pub json_parse-is_plain :
    (k r : Bytes)
    → is_plain k ≡ true
    → (n : ℕ) × (json_parse (b'"' ∷ (k ++ b'"' ∷ r))
        ≡ done (record { type = json_str; start = k ++ b'"' ∷ r; len = n }, r))
unfolding json_parse
json_parse-is_plain k r h =
    (length (k ++ b'"' ∷ r) - length (b'"' ∷ r), rw (scan_string-is_plain k r h) refl)

-- Digits are parsed as a number, up to the byte that ends it.
digit_literal : (b : ℕ) → is_digit b ≡ true → is_literal b ≡ true
digit_literal b h = ground (arith, h)

digits_literal : (s : Bytes) → All (λ b. is_digit b ≡ true) s → All (λ b. is_literal b ≡ true) s
digits_literal [] h = tt
digits_literal (b ∷ s) h = (digit_literal b h.0, digits_literal s h.1)

pub json_parse_digits :
    (d : ℕ) (ds : Bytes) (c : ℕ) (r : Bytes)
    → All (λ b. is_digit b ≡ true) (d ∷ ds)
    → is_literal c ≡ false
    → (n : ℕ) × (json_parse (d ∷ (ds ++ c ∷ r))
        ≡ done (record { type = json_num; start = d ∷ (ds ++ c ∷ r); len = n }, c ∷ r))
unfolding json_parse
json_parse_digits d ds c r digits stop =
    let is = digits.0 in
    let ws : is_ws d ≡ false = ground (arith, is) in
    let object : (d == b'{') ≡ false = ground (arith, is) in
    let array : (d == b'[') ≡ false = ground (arith, is) in
    let string : (d == b'"') ≡ false = ground (arith, is) in
    let bool : (d == b't' || d == b'f') ≡ false = ground (arith, is) in
    let null : (d == b'n') ≡ false = ground (arith, is) in
    let end =
      drop_while-append_stop is_literal (d ∷ ds) c r (digits_literal (d ∷ ds) digits) stop in
    (
      length (d ∷ (ds ++ c ∷ r)) - length (c ∷ r),
      rw (ws, object, array, string, bool, null, end) refl,
    )

pub json_skip_ws_digit : (d : ℕ) (s : Bytes) → is_digit d ≡ true → json_skip_ws (d ∷ s) ≡ d ∷ s
json_skip_ws_digit d s h = let dark : is_ws d ≡ false = ground (arith, h) in rw dark refl
