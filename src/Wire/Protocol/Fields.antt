-- ===== src/Wire/Protocol/Fields.antt =====
-- `proto_get` against the plain reading of a line as words.
use yllm.Base.{
  ℕ, zero, suc, ◌<◌, ◌≡◌, refl, sym, ◌∙◌, ap, subst, ◌⊎◌, Bool, true, false, ◌&&◌, Option, none,
  some, [], ◌∷◌, arith, if◌then◌else◌, Bool-cases, inl, inr, length,
}
use yllm.Base.Scan.{is_blank, not_blank, strip_prefix}
use yllm.Base.Text.{Bytes, drop_while, length-drop_while-le}
use yllm.Wire.Protocol.{value_at, get_loop, proto_get}

-- The value of the first word that begins with the key and an equals sign, in one walk over the
-- line. The flag is whether a word may begin here.
unfoldable pub first_value : Bytes → Bool → Bytes → Option Bytes
first_value key starts [] = none
first_value key starts (c ∷ cs) =
    let later = first_value key (is_blank c) cs in
    elim (if starts && not_blank c then value_at key (c ∷ cs) else none) [
      | none ↦ later
      | some v ↦ some v
    ]

first_value-skip_blank :
    (key s : Bytes) → first_value key true s ≡ first_value key true (drop_while is_blank s)
unfolding first_value
first_value-skip_blank key [] = refl
first_value-skip_blank key (c ∷ s) = ground (arith, first_value-skip_blank key s)

first_value-skip_word :
    (key s : Bytes) → first_value key false s ≡ first_value key true (drop_while not_blank s)
unfolding first_value
first_value-skip_word key [] = refl
first_value-skip_word key (c ∷ s) = ground (arith, first_value-skip_word key s)

value_at-nil : (key : Bytes) → value_at key [] ≡ none
unfolding value_at strip_prefix
value_at-nil [] = refl
value_at-nil (k ∷ ks) = refl

-- At the start of a word.
first_value_word :
    (key : Bytes) (c : ℕ) (s : Bytes)
    → is_blank c ≡ false
    → first_value key true (c ∷ s) ≡ elim (value_at key (c ∷ s)) [
      | none ↦ first_value key true (drop_while not_blank (c ∷ s))
      | some v ↦ some v
    ]
unfolding first_value
first_value_word key c s h = ground (arith, first_value-skip_word key s)

-- Where skipping blanks stops.
drop_blanks :
    (s : Bytes)
    → (drop_while is_blank s ≡ [])
      ⊎ ((d : ℕ) × (ds : Bytes) × (drop_while is_blank s ≡ d ∷ ds) × (is_blank d ≡ false))
drop_blanks [] = inl refl
drop_blanks (c ∷ s) = elim (Bool-cases (is_blank c)) [
  | inl blank ↦ elim (drop_blanks s) [
    | inl end ↦ inl (ground arith)
    | inr (d, ds, at, word) ↦ inr (d, ds, ground arith, word)
  ]
  | inr word ↦ inr (c, s, ground arith, word)
]

get_loop_round :
    (fuel : ℕ) (key : Bytes) (c : ℕ) (cs p : Bytes)
    → drop_while is_blank (c ∷ cs) ≡ p
    → get_loop (suc fuel) key (c ∷ cs) ≡ elim (value_at key p) [
      | none ↦ get_loop fuel key (drop_while not_blank p)
      | some v ↦ some v
    ]
unfolding get_loop
get_loop_round fuel key c cs p e =
    subst
      (λ q. get_loop (suc fuel) key (c ∷ cs) ≡ elim (value_at key q) [
        | none ↦ get_loop fuel key (drop_while not_blank q)
        | some v ↦ some v
      ])
      e refl

get_loop-nil : (fuel : ℕ) (key : Bytes) → get_loop fuel key [] ≡ none
unfolding get_loop
get_loop-nil zero key = refl
get_loop-nil (suc fuel) key = refl

get_loop-first_value :
    (fuel : ℕ) (key p : Bytes) → length p < fuel → get_loop fuel key p ≡ first_value key true p
get_loop-first_value zero key p h = elim h [ ]
get_loop-first_value (suc fuel) key [] h = unfold first_value in get_loop-nil (suc fuel) key
get_loop-first_value (suc fuel) key (c ∷ cs) h = elim (drop_blanks (c ∷ cs)) [
  | inl end ↦
      rw
        (
          get_loop_round fuel key c cs [] end,
          first_value-skip_blank key (c ∷ cs),
          end,
          value_at-nil key,
        )
        (unfold first_value in get_loop-nil fuel key)
  | inr (d, ds, at, word) ↦
      let shorter : length (drop_while not_blank (d ∷ ds)) < fuel = ground (
        arith,
        length-drop_while-le is_blank (c ∷ cs),
        length-drop_while-le not_blank ds,
        ap length at,
      ) in
      get_loop_round fuel key c cs (d ∷ ds) at
      ∙ ap (λ (r : Option Bytes). elim (value_at key (d ∷ ds)) [ none ↦ r | some v ↦ some v ])
          (get_loop-first_value fuel key (drop_while not_blank (d ∷ ds)) shorter)
      ∙ sym (first_value_word key d ds word)
      ∙ ap (first_value key true) (sym at)
      ∙ sym (first_value-skip_blank key (c ∷ cs))
]

-- `proto_get` finds the value of the first word of the line that is `key=value`.
pub proto_get-first_value : (line key : Bytes) → proto_get line key ≡ first_value key true line
unfolding proto_get
proto_get-first_value line key = get_loop-first_value (suc (length line)) key line (omega arith)
