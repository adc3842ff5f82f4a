-- ===== src/Http/Lookup.antt =====
-- The lookup of a header is a lookup in a list, whatever the case of the name.
use yllm.Base.Text.{Bytes, equal}
use yllm.Base.{
  ℕ, ◌-◌, ◌≡◌, ◌≢◌, refl, ap, true, false, Bool, Option, none, some, List, [], ◌∷◌, ◌++◌, map,
  arith, ◌==◌, take, All, if◌then◌else◌, Bool-cases, inl, inr,
}
use yllm.Http.{lower, strip_name, header_value, http_header_get, copy_value, is_blank_or_tab}

abbrev pub IsName : Bytes → Type 0
IsName name = All (λ c. c ≢ b':') name

abbrev pub StartsVisible : Bytes → Type 0
StartsVisible [] = Unit
StartsVisible (c ∷ v) = is_blank_or_tab c ≡ false

-- The text of a header.
abbrev pub header_text : Bytes × Bytes → Bytes
header_text (name, value) = name ++ (b':' ∷ b' ' ∷ value)

abbrev pub same_name : Bytes → Bytes → Bool
same_name k name = equal (map lower k) (map lower name)

-- The first value with the name.
abbrev pub lookup : List (Bytes × Bytes) → Bytes → Option Bytes
lookup [] name = none
lookup ((k, v) ∷ fs) name = if same_name k name then some v else lookup fs name

abbrev pub cut : ℕ → Option Bytes → Option Bytes
cut outsz none = none
cut outsz (some v) = some (take (outsz - 1) v)

lower_colon : (c : ℕ) → c ≢ b':' → (lower c == b':') ≡ false
lower_colon c h = ground (arith, h)

header_value-text :
    (name k r : Bytes)
    → IsName name
    → IsName k
    → header_value name (k ++ b':' ∷ r) ≡ (if same_name k name then some r else none)
unfolding header_value strip_name equal
header_value-text [] [] r n a = refl
header_value-text [] (c ∷ k) r n a = ground (arith, a.0)
header_value-text (x ∷ name) [] r n a =
    let other = lower_colon x n.0 in rw (header_value, strip_name, other) refl
header_value-text (x ∷ name) (c ∷ k) r n a = elim (Bool-cases (lower x == lower c)) [
  | inl same ↦
      let back : (lower c == lower x) ≡ true = ground (arith, same) in
      rw (header_value, strip_name, same, back) (header_value-text name k r n.1 a.1)
  | inr other ↦
      let back : (lower c == lower x) ≡ false = ground (arith, other) in
      rw (header_value, strip_name, other, back) refl
]

copy_value-text :
    (outsz : ℕ) (v : Bytes) → StartsVisible v → copy_value outsz (b' ' ∷ v) ≡ take (outsz - 1) v
copy_value-text outsz [] h = refl
copy_value-text outsz (c ∷ v) h = rw h refl

-- Among headers whose names have no colon, and whose values do not begin with a blank, the lookup of
-- a name without a colon gives the value of the first header with that name, whatever its case, cut
-- to the buffer.
pub http_header_get-lookup :
    (fs : List (Bytes × Bytes)) (name : Bytes) (outsz : ℕ)
    → IsName name
    → All (λ f. IsName f.0 × StartsVisible f.1) fs
    → http_header_get (map header_text fs) name outsz ≡ cut outsz (lookup fs name)
unfolding http_header_get
http_header_get-lookup [] name outsz n a = refl
http_header_get-lookup ((k, v) ∷ fs) name outsz n a = elim (Bool-cases (same_name k name)) [
  | inl same ↦
      rw (http_header_get, header_value-text name k (b' ' ∷ v) n a.0.0, same)
        (ap (λ t. some t) (copy_value-text outsz v a.0.1))
  | inr other ↦
      rw (http_header_get, header_value-text name k (b' ' ∷ v) n a.0.0, other)
        (http_header_get-lookup fs name outsz n a.1)
]
