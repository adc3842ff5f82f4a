-- ===== src/Base/Scan.antt =====
-- What the source uses of the C library to take text apart: `strchr`, `strncmp` with a literal, the
-- `%s` and `%d` of `sscanf`, and `atoi`.
use yllm.Base.Decisions.{◌==◌, leb, if◌then◌else◌}
use yllm.Base.Int.{ℤ, pos, sub_ℕ}
use yllm.Base.Lists.{length, take, drop}
use yllm.Base.Text.{Bytes, take_while, drop_while}
use Prim.Native.Nat.{ℕ, ◌+◌, ◌-◌, ◌*◌}
use mathlib.Core.Bool.{Bool, not, ◌&&◌, ◌||◌}
use mathlib.Core.List.{[], ◌∷◌}
use mathlib.Core.Option.{Option, none, some}

-- `isspace`
abbrev pub is_space : ℕ → Bool
is_space c = c == b' ' || (leb 9 c && leb c 13)

abbrev pub is_digit : ℕ → Bool
is_digit c = leb b'0' c && leb c b'9'

abbrev pub is_blank : ℕ → Bool
is_blank c = c == b' '

abbrev pub not_blank : ℕ → Bool
not_blank c = not (c == b' ')

-- What stands behind a prefix.
unfoldable pub strip_prefix : Bytes → Bytes → Option Bytes
strip_prefix [] s = some s
strip_prefix (k ∷ ks) [] = none
strip_prefix (k ∷ ks) (c ∷ s) = if k == c then strip_prefix ks s else none

-- `strchr(s, c)`: the suffix that begins with `c`.
unfoldable pub find_char : ℕ → Bytes → Option Bytes
find_char c [] = none
find_char c (x ∷ s) = if x == c then some (x ∷ s) else find_char c s

-- A match of `%s` takes a byte at least.
abbrev non_empty : Bytes → Bytes → Option (Bytes × Bytes)
non_empty [] rest = none
non_empty (c ∷ w) rest = some (c ∷ w, rest)

-- `%<n>s`: the word read and what is left, or no match.
unfoldable pub scan_word : ℕ → Bytes → Option (Bytes × Bytes)
scan_word n s =
    let t = drop_while is_space s in
    let w = take n (take_while (λ c. not (is_space c)) t) in non_empty w (drop (length w) t)

unfoldable pub digits_value : ℕ → Bytes → ℕ
digits_value acc [] = acc
digits_value acc (c ∷ s) = digits_value (acc * 10 + (c - b'0')) s

abbrev negate : ℕ → ℤ
negate n = sub_ℕ 0 n

-- A sign, and the digits behind it.
signed_value : Bytes → ℤ
unfolding digits_value
signed_value [] = pos 0
signed_value (c ∷ r) =
    if c == b'-'
    then negate (digits_value 0 (take_while is_digit r))
    else if c == b'+'
    then pos (digits_value 0 (take_while is_digit r))
    else pos (digits_value 0 (take_while is_digit (c ∷ r)))

-- `atoi` of a text whose value fits an `int`; a text without a number gives 0.
unfoldable pub atoi : Bytes → ℤ
unfolding signed_value
atoi s = signed_value (drop_while is_space s)

-- `strrchr(s, c)`: the last suffix that begins with `c`.
unfoldable pub find_last_char : ℕ → Bytes → Option Bytes
find_last_char c [] = none
find_last_char c (x ∷ s) = elim (find_last_char c s) [
  | some r ↦ some r
  | none ↦ if x == c then some (x ∷ s) else none
]
