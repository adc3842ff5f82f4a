-- ===== src/Tokenizer/Sentence/Unspace.antt =====
-- The pieces of plain text read back.
use yllm.Base.{
  ℕ, zero, suc, ◌+◌, ◌-◌, ◌≤◌, ◌<◌, ◌≡◌, refl, ap, ◌∙◌, false, [], ◌∷◌, arith, length, ◌==◌,
  Bool-cases, inl, inr,
}
use yllm.Base.Text.{Bytes, equal}
use yllm.Tokenizer.Decode.Plain.{IsPlain, not_control, not_byte_token}
use yllm.Tokenizer.Decode.{decode_piece, unspace, is_control, is_byte_token}
use yllm.Tokenizer.Lookup.{strncmp}
use yllm.Tokenizer.Sentence.{marked}
use yllm.Tokenizer.Specials.{begins_with}
use yllm.Tokenizer.Types.{Vocab}

unspace_char : (c room : ℕ) (t : Bytes) → c < 128 → unspace (suc room) (c ∷ t) ≡ c ∷ unspace room t
unfolding unspace
unspace_char c zero [] ascii = refl
unspace_char c (suc room) [] ascii = refl
unspace_char c room (d ∷ []) ascii = refl
unspace_char c room (d ∷ e ∷ t) ascii = ground arith

-- With room for it, plain text that was marked reads back.
unspace-marked : (room : ℕ) (w : Bytes) → IsPlain w → length w ≤ room → unspace room (marked w) ≡ w
unfolding unspace marked
unspace-marked zero [] plain fits = refl
unspace-marked (suc room) [] plain fits = refl
unspace-marked zero (c ∷ w) plain fits = absurd (omega arith)
unspace-marked (suc room) (c ∷ w) plain fits = elim (Bool-cases (c == b' ')) [
  | inl blank ↦
      let is : b' ' ≡ c = ground (arith, blank) in
      rw blank (
        ap (λ t. b' ' ∷ t) (unspace-marked room w plain.1 (omega arith)) ∙ ap (λ (b : ℕ). b ∷ w) is)
  | inr other ↦ rw other (
      unspace_char c room (marked w) plain.0.0
      ∙ ap (λ t. c ∷ t) (unspace-marked room w plain.1 (omega arith)))
]

not_reserved :
    (w : Bytes) → IsPlain w → (is_control (marked w) ≡ false) × (is_byte_token (marked w) ≡ false)
unfolding marked is_control is_byte_token equal begins_with strncmp
not_reserved [] plain = (refl, refl)
not_reserved (c ∷ w) plain = elim (Bool-cases (c == b' ')) [
  | inl blank ↦ rw blank (
    not_control 0xE2 (0x96 ∷ 0x81 ∷ marked w) (omega arith),
    not_byte_token 0xE2 (0x96 ∷ 0x81 ∷ marked w) (omega arith),
  )
  | inr other ↦ rw other (not_control c (marked w) plain.0.1, not_byte_token c (marked w) plain.0.1)
]

pub decode_piece-marked :
    (v : Vocab) (max o : ℕ) (w : Bytes)
    → v.byte_level ≡ false
    → IsPlain w
    → o + length w < max
    → decode_piece v max o (marked w) ≡ w
unfolding decode_piece
decode_piece-marked v max o w level plain room =
    let (a, b) = not_reserved w plain in
    rw (a, b, level) (unspace-marked (max - 1 - o) w plain (omega arith))
