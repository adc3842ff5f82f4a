-- ===== src/Json/Within.antt =====
-- A value that a lookup in an object finds lies in the text.
use yllm.Base.Outcome.{Outcome, done, hang, fault, ◌>>=◌}
use yllm.Base.Text.{Bytes, head_byte, equal, equal_iff}
use yllm.Base.{
  ℕ, zero, suc, ◌≤◌, ◌<◌, ◌≡◌, ap, subst, true, ◌&&◌, Option, none, some, [], ◌∷◌, arith, length,
  take, drop, ◌==◌, Bool-cases, inl, inr,
}
use yllm.Json.Safe.{Returns, scan_string-Returns, Parses, json_parse-Parses}
use yllm.Json.Suffix.{
  EndsWell, EndsWell-tail, EndsWell-drop, EndsWell-drop_while, EndsWell-close_quote, IsSuffix, all,
  behind, suffix_trans, length-IsSuffix, IsSuffix-drop, IsSuffix-drop_while, IsSuffix-close_quote,
}
use yllm.Json.{
  JsonVal, scan_string, close_quote, json_parse, json_skip_ws, is_ws, field, find_field,
  json_find_in_obj,
}

-- The value lies in the text, behind a quote that the key follows.
abbrev pub IsFound : Bytes → Bytes → JsonVal → Type 0
IsFound key text v =
    (k : Bytes) × IsSuffix (b'"' ∷ k) text
    × (take (length key) k ≡ key)
    × IsSuffix v.start k
    × (v.len ≤ length v.start)

abbrev pub Finds : Bytes → Bytes → Outcome (Option JsonVal) → Type 0
Finds key text (done none) = Unit
Finds key text (done (some v)) = IsFound key text v
Finds key text hang = ⊥
Finds key text fault = ⊥

Finds-behind :
    (key p text : Bytes) (o : Outcome (Option JsonVal))
    → IsSuffix p text
    → Finds key p o
    → Finds key text o
Finds-behind key p text (done none) in_ h = tt
Finds-behind key p text (done (some v)) in_ (k, quoted, is, value, inside) =
    (k, suffix_trans quoted in_, is, value, inside)
Finds-behind key p text hang in_ h = h
Finds-behind key p text fault in_ h = h

abbrev IsField : Bytes → Outcome (Option (ℕ × JsonVal × Bytes)) → Type 0
IsField s (done none) = Unit
IsField s (done (some (kl, v, after))) =
    EndsWell after × IsSuffix after s × (v.len ≤ length v.start) × IsSuffix v.start s
IsField s hang = ⊥
IsField s fault = ⊥

IsField-parsed :
    (s t : Bytes) (kl : ℕ) (r : Outcome (JsonVal × Bytes))
    → IsSuffix s t
    → Parses s r
    → IsField t (r >>= λ x. done (some (kl, x.0, json_skip_ws x.1)))
IsField-parsed s t kl (done (v, e)) in_ (good, rest, inside, start) = (
  EndsWell-drop_while is_ws e good,
  suffix_trans (IsSuffix-drop_while is_ws e) (suffix_trans rest in_),
  inside,
  suffix_trans start in_,
)
IsField-parsed s t kl hang in_ h = absurd h
IsField-parsed s t kl fault in_ h = absurd h

IsField-key :
    (s : Bytes) (r : Outcome Bytes) (f : Bytes → Outcome (Option (ℕ × JsonVal × Bytes)))
    → Returns s r
    → ((e : Bytes) → EndsWell e → IsSuffix e s → IsField s (f e))
    → IsField s (r >>= f)
IsField-key s (done e) f h k = k e h.1 h.2
IsField-key s hang f h k = absurd h
IsField-key s fault f h k = absurd h

field-IsField : (ks : Bytes) → EndsWell ks → IsField ks (field ks)
unfolding field
field-IsField ks h = IsField-key ks (scan_string ks) _ (scan_string-Returns ks h) (λ ke good in_.
    let colon = json_skip_ws (close_quote ke) in
    let text = json_skip_ws (drop 1 colon) in
    let good' = EndsWell-drop_while is_ws (close_quote ke) (EndsWell-close_quote ke good) in
    let good'' = EndsWell-drop_while is_ws (drop 1 colon) (EndsWell-drop 1 colon good') in
    let at_colon =
      suffix_trans (IsSuffix-drop_while is_ws (close_quote ke))
        (suffix_trans (IsSuffix-close_quote ke) in_) in
    let at_text =
      suffix_trans (IsSuffix-drop_while is_ws (drop 1 colon))
        (suffix_trans (IsSuffix-drop 1 colon) at_colon) in
    elim (Bool-cases (head_byte colon == b':')) [
      | inl is ↦
          rw is (IsField-parsed text ks _ (json_parse text) at_text (json_parse-Parses text good''))
      | inr other ↦ rw other tt
    ])

-- What the loop does with a field.
Finds-field :
    (key text s : Bytes) (r : Outcome (Option (ℕ × JsonVal × Bytes)))
    (f : ℕ × JsonVal × Bytes → Outcome (Option JsonVal))
    → IsField s r
    → ((kl : ℕ) (v : JsonVal) (after : Bytes)
        → EndsWell after
        → IsSuffix after s
        → v.len ≤ length v.start
        → IsSuffix v.start s
        → Finds key text (f (kl, v, after)))
    → Finds key text (r >>= λ o. elim o [ none ↦ done none | some x ↦ f x ])
Finds-field key text s (done none) f h k = tt
Finds-field key text s (done (some (kl, v, after))) f h k = k kl v after h.0 h.1 h.2 h.3
Finds-field key text s hang f h k = absurd h
Finds-field key text s fault f h k = absurd h

quoted : (p : Bytes) → (head_byte p == b'"') ≡ true → p ≡ b'"' ∷ drop 1 p
quoted [] h = absurd (ground (arith, h))
quoted (c ∷ p) h = let is : c ≡ b'"' = ground (arith, h) in ap (λ x. x ∷ p) is

same_key :
    (key k : Bytes) (kl : ℕ)
    → (kl == length key && equal (take (length key) k) key) ≡ true
    → take (length key) k ≡ key
same_key key k kl h = (equal_iff (take (length key) k) key).0 (ground (arith, h))

find_field-Finds :
    (fuel : ℕ) (key p : Bytes) → EndsWell p → length p < fuel → Finds key p (find_field fuel key p)
unfolding find_field
find_field-Finds zero key p h enough = absurd (omega arith)
find_field-Finds (suc fuel) key p h enough = elim (Bool-cases (head_byte p == b'"')) [
  | inr other ↦ rw other tt
  | inl is ↦
      let k = drop 1 p in
      let front = quoted p is in
      rw is (
        Finds-field key p k (field k) _ (field-IsField k (EndsWell-drop 1 p h))
          (λ kl v after good in_ inside start.
            elim (Bool-cases (kl == length key && equal (take (length key) k) key)) [
              | inl found ↦
                  rw found
                    (k, subst (λ x. IsSuffix x p) front all, same_key key k kl found, start, inside)
              | inr differs ↦ elim (Bool-cases (head_byte after == b',')) [
                | inl more ↦
                    let rest = json_skip_ws (drop 1 after) in
                    let at_rest =
                      suffix_trans (IsSuffix-drop_while is_ws (drop 1 after))
                        (suffix_trans (IsSuffix-drop 1 after) in_) in
                    rw (differs, more)
                      (Finds-behind key rest p _ (suffix_trans at_rest (IsSuffix-drop 1 p)) (
                        find_field-Finds fuel key rest
                          (EndsWell-drop_while is_ws (drop 1 after) (EndsWell-drop 1 after good))
                          (omega (arith, length-IsSuffix at_rest, ap length front, enough))))
                | inr last ↦ rw (differs, last) tt
              ]
            ]))
]

pub json_find_in_obj-Finds :
    (c : ℕ) (s key : Bytes) → EndsWell (c ∷ s) → Finds key (c ∷ s) (json_find_in_obj (c ∷ s) key)
unfolding json_find_in_obj
json_find_in_obj-Finds c s key h =
    let p = json_skip_ws s in
    let good = EndsWell-drop_while is_ws s (EndsWell-tail c s h) in
    elim (Bool-cases (head_byte p == b'}')) [
      | inl empty ↦ rw empty tt
      | inr more ↦ rw more (
          Finds-behind key p (c ∷ s) _ (behind c (IsSuffix-drop_while is_ws s))
            (find_field-Finds (suc (length p)) key p good (omega arith)))
    ]
