-- ===== src/Tokenizer/Spells.antt =====
-- Symbols that spell a text: what merges keep, and what decodes. The encoders of
-- inference/core/tokenizer.c that merge pairs have this in common.
use yllm.Base.{
  ℕ, zero, suc, ◌+◌, ◌<◌, ◌≡◌, ap, sym, ◌∙◌, true, some, List, [], ◌∷◌, ◌++◌, append_assoc, arith,
  length, get_elem?, All-split, subst, length-append, ltb,
}
use yllm.Base.Text.{Bytes}
use yllm.Tokenizer.Decode.Plain.{IsPlain}
use yllm.Tokenizer.Decode.{decode_from, decode_piece}
use yllm.Tokenizer.Lookup.Find.{piece_of_some}
use yllm.Tokenizer.Merges.{replace_pair}
use yllm.Tokenizer.Types.{Vocab}

-- The token `out` stands for the texts of the symbols at `i` and behind it.
abbrev pub Joins : Vocab → List ℕ → ℕ → ℕ → Type 0
Joins v [] i out = ⊥
Joins v (a ∷ []) i out = ⊥
Joins v (a ∷ b ∷ syms) zero out =
    (p q : Bytes)
    → get_elem? v.pieces a ≡ some p
    → get_elem? v.pieces b ≡ some q
    → get_elem? v.pieces out ≡ some (p ++ q)
Joins v (a ∷ b ∷ syms) (suc i) out = Joins v (b ∷ syms) i out

module _ (alphabet : Bytes → Bytes) where
  -- The pieces of the symbols are the text in the alphabet, each of them whole characters.
  abbrev pub Spells : Vocab → List ℕ → Bytes → Type 0
  Spells v [] text = text ≡ []
  Spells v (id ∷ ids) text =
      (w : Bytes) × (rest : Bytes) × (text ≡ w ++ rest)
      × (get_elem? v.pieces id ≡ some (alphabet w))
      × Spells v ids rest

  pub Spells-replace_pair :
      ((u w : Bytes) → alphabet (u ++ w) ≡ alphabet u ++ alphabet w)
      → (v : Vocab) (syms : List ℕ) (i out : ℕ) (text : Bytes) → Joins v syms i out
      → Spells v syms text
      → Spells v (replace_pair i out syms) text
  Spells-replace_pair joined v [] i out text joins spells = absurd joins
  Spells-replace_pair joined v (a ∷ []) i out text joins spells = absurd joins
  Spells-replace_pair joined v (a ∷ b ∷ syms) zero out text joins
        (u, behind, e, left, (w, rest, e', right, tail)) =
      (
        u ++ w,
        rest,
        e ∙ ap (λ t. u ++ t) e' ∙ sym (append_assoc u w rest),
        joins (alphabet u) (alphabet w) left right ∙ ap some (sym (joined u w)),
        tail,
      )
  Spells-replace_pair joined v (a ∷ b ∷ syms) (suc i) out text joins (u, behind, e, left, tail) =
      let shift : suc i + 2 ≡ suc (i + 2) = omega arith in
      rw shift (u, behind, e, left, Spells-replace_pair joined v (b ∷ syms) i out behind joins tail)

  -- Symbols that spell plain text decode to it, if a piece in the alphabet decodes to its text.
  pub decode_from-Spells :
      (v : Vocab) (max : ℕ)
      → ((o : ℕ) (w : Bytes)
          → IsPlain w
          → o + length w < max
          → decode_piece v max o (alphabet w) ≡ w)
      → (o : ℕ) (ids : List ℕ) (text : Bytes) → IsPlain text
      → o + length text < max
      → Spells v ids text
      → decode_from v max o ids ≡ text
  unfolding decode_from
  decode_from-Spells v max reads o [] text plain room spells = sym spells
  decode_from-Spells v max reads o (id ∷ ids) text plain room (w, rest, e, token, tail) =
      let parts = All-split _ w rest (subst IsPlain e plain) in
      let size = ap length e ∙ length-append w rest in
      let (known, is) = piece_of_some v id (alphabet w) token in
      let inside : ltb id (length v.pieces) ≡ true = ground (arith, known) in
      let out = reads o w parts.0 (omega (arith, size)) in
      let next =
        decode_from-Spells v max reads (o + length w) ids rest parts.1 (omega (arith, size)) tail in
      rw (inside, is, out) (ap (λ t. w ++ t) next ∙ sym e)
