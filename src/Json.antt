-- ===== src/Json.antt =====
-- The JSON reader of serve/json.h, less its numbers. A pointer into the text is the suffix at which
-- it points, and reading at the end of the text gives the terminator. A pointer behind the
-- terminator is a fault.
pub mod Object
pub mod Suffix
pub mod Safe
pub mod Find
pub mod Within
use yllm.Base.Int.{pos_part}
use yllm.Base.Outcome.{Outcome, done, hang, fault, ◌>>=◌}
use yllm.Base.Scan.{atoi, find_char, is_digit}
use yllm.Base.Text.{Bytes, head_byte, equal, is_empty, drop_while, take_while}
use yllm.Base.{
  ℕ, zero, suc, ◌+◌, ◌-◌, Bool, true, false, ◌&&◌, ◌||◌, not, Option, none, some, List, [], ◌∷◌,
  ◌==◌, ltb, leb, if◌then◌else◌, length, take, drop,
}

pub data JsonType : Type 0 where
  json_null : JsonType
  json_bool : JsonType
  json_num : JsonType
  json_str : JsonType
  json_arr : JsonType
  json_obj : JsonType

pub record JsonVal : Type 0 where
  pub type : JsonType
  pub start : Bytes
  pub len : ℕ

abbrev pub is_ws : ℕ → Bool
is_ws c = c == b' ' || (c == b'\t' || (c == b'\n' || c == b'\r'))

abbrev pub json_skip_ws : Bytes → Bytes
json_skip_ws s = drop_while is_ws s

-- `while (*p && *p != '"') { if (*p == '\\') p++; p++; }`: where the string ends. A backslash at the
-- end of the text steps over the terminator.
unfoldable pub scan_string : Bytes → Outcome Bytes
scan_string [] = done []
scan_string (c ∷ []) = if c == b'"' then done (c ∷ []) else if c == b'\\' then fault else done []
scan_string (c ∷ d ∷ s) =
    let escaped = scan_string s in
    let next = scan_string (d ∷ s) in
    if c == b'"' then done (c ∷ d ∷ s) else if c == b'\\' then escaped else next

-- `if (*p == '"') p++;`
abbrev pub close_quote : Bytes → Bytes
close_quote [] = []
close_quote (c ∷ s) = if c == b'"' then s else c ∷ s

abbrev pub opens : ℕ → Bool
opens c = c == b'{' || c == b'['

abbrev pub closes : ℕ → Bool
closes c = c == b'}' || c == b']'

-- The loop over an object or an array: where it ends. Each round takes a byte at least.
unfoldable pub scan_nested : ℕ → ℕ → Bytes → Outcome Bytes
scan_nested zero depth s = hang
scan_nested (suc fuel) depth [] = done []
scan_nested (suc fuel) depth (c ∷ s) =
    let deeper = scan_nested fuel (depth + 1) s in
    let shallower = scan_nested fuel (depth - 1) s in
    let string = scan_string s >>= λ q. scan_nested fuel depth (close_quote q) in
    let next = scan_nested fuel depth s in
    if opens c
    then deeper
    else if closes c
    then (if depth == 1 then done s else shallower)
    else if c == b'"'
    then string
    else next

-- Where a number or a word ends.
abbrev pub is_literal : ℕ → Bool
is_literal c =
    not (c == b',' || (c == b'}' || (c == b']' || (c == b' ' || (c == b'\t' || c == b'\n')))))

abbrev value : JsonType → Bytes → Bytes → JsonVal × Bytes
value type start p = (record { type = type; start = start; len = length start - length p }, p)

-- The value, and where it ends.
unfoldable pub json_parse : Bytes → Outcome (JsonVal × Bytes)
json_parse p =
    let s = json_skip_ws p in
    let c = head_byte s in
    let nested : JsonType → Outcome (JsonVal × Bytes) =
      λ type. scan_nested (suc (length s)) 0 s >>= λ e. done (value type s e) in
    let string = scan_string (drop 1 s) >>= λ q. done (
      record { type = json_str; start = drop 1 s; len = length (drop 1 s) - length q },
      close_quote q,
    ) in
    let literal : JsonType → Outcome (JsonVal × Bytes) =
      λ type. done (value type s (drop_while is_literal s)) in
    if c == b'{'
    then nested json_obj
    else if c == b'['
    then nested json_arr
    else if c == b'"'
    then string
    else if c == b't' || c == b'f'
    then literal json_bool
    else if c == b'n'
    then literal json_null
    else literal json_num

-- One field, from behind the quote that opens its key: the length of the key, the value, and what
-- stands behind it; nothing if there is no colon.
unfoldable pub field : Bytes → Outcome (Option (ℕ × JsonVal × Bytes))
field ks = scan_string ks >>= λ ke.
    let colon = json_skip_ws (close_quote ke) in
    let parsed = json_parse (json_skip_ws (drop 1 colon)) >>= λ r.
    done (some (length ks - length ke, r.0, json_skip_ws r.1)) in
    if head_byte colon == b':' then parsed else done none

-- The loop of `json_find_in_obj` over the fields. Each round takes a byte at least.
unfoldable pub find_field : ℕ → Bytes → Bytes → Outcome (Option JsonVal)
find_field zero key p = hang
find_field (suc fuel) key p =
    let found = field (drop 1 p) >>= λ o. elim o [
      | none ↦ done none
      | some (kl, v, after) ↦
          let rest = find_field fuel key (json_skip_ws (drop 1 after)) in
          if kl == length key && equal (take (length key) (drop 1 p)) key
          then done (some v)
          else if head_byte after == b','
          then rest
          else done none
    ] in
    if head_byte p == b'"' then found else done none

-- `obj` points at the brace; at the end of the text the step over it leaves the text.
unfoldable pub json_find_in_obj : Bytes → Bytes → Outcome (Option JsonVal)
json_find_in_obj [] key = fault
json_find_in_obj (c ∷ s) key =
    let p = json_skip_ws s in
    if head_byte p == b'}' then done none else find_field (suc (length p)) key p

-- What may begin a value in an array.
abbrev pub begins_value : ℕ → Bool
begins_value c =
    c == b'"'
    || (c == b'{'
        || (c == b'[' || (c == b't' || (c == b'f' || (c == b'n' || (is_digit c || c == b'-'))))))

-- The loop over the values before the one that is wanted: where that one begins.
unfoldable pub skip_values : ℕ → Bytes → Outcome (Option Bytes)
skip_values zero p = done (some p)
skip_values (suc n) p =
    let s = json_skip_ws p in
    let skipped = json_parse s >>= λ r.
    let after = json_skip_ws r.1 in
    let rest = skip_values n (json_skip_ws (drop 1 after)) in
    let here = skip_values n after in
    if head_byte after == b',' then rest else if head_byte after == b']' then done none else here in
    if begins_value (head_byte s) then skipped else done none

-- A segment of a path that is an index.
unfoldable pub find_index : Bytes → Bytes → Outcome (Option JsonVal)
find_index seg cur =
    let found = skip_values (pos_part (atoi seg)) (json_skip_ws (drop 1 cur)) >>= λ o. elim o [
      | none ↦ done none
      | some p ↦
          let s = json_skip_ws p in
          let parsed = json_parse s >>= λ r. done (some r.0) in
          if head_byte s == b']' then done none else parsed
    ] in
    if head_byte cur == b'[' then found else done none

abbrev pub not_dot : ℕ → Bool
not_dot c = not (c == b'.')

-- `char seg[128]`
abbrev pub seg_size : ℕ
seg_size = 128

-- The loop over the segments of the path.
unfoldable pub find_path : ℕ → Bytes → Bytes → Outcome (Option JsonVal)
find_path zero cur path = hang
find_path (suc fuel) cur [] = done none
find_path (suc fuel) cur (b ∷ bs) =
    let path = b ∷ bs in
    let seg = take_while not_dot path in
    let behind = drop 1 (drop_while not_dot path) in
    let step = if is_digit (head_byte seg) then find_index seg cur else json_find_in_obj cur seg in
    let found = step >>= λ o. elim o [
      | none ↦ done none
      | some v ↦
          let rest = find_path fuel v.start behind in
          if is_empty behind then done (some v) else rest
    ] in
    if leb seg_size (length seg) then done none else found

unfoldable pub json_find : Bytes → Bytes → Outcome (Option JsonVal)
json_find obj path = find_path (suc (length path)) obj path

-- The byte that stands behind a backslash.
abbrev pub unescaped : ℕ → ℕ
unescaped c =
    if c == b'n' then b'\n' else if c == b't' then b'\t' else if c == b'r' then b'\r' else c

-- The loop of `json_str_unescape`, over the `len` bytes of the string.
unfoldable pub json_str_unescape : Bytes → Bytes
json_str_unescape [] = []
json_str_unescape (c ∷ []) = c ∷ []
json_str_unescape (c ∷ d ∷ s) =
    let escaped = unescaped d ∷ json_str_unescape s in
    let plain = c ∷ json_str_unescape (d ∷ s) in if c == b'\\' then escaped else plain
