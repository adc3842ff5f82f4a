-- ===== src/Tokenizer/Decode/Plain.antt =====
-- A token of plain text is neither a control token nor that of a byte.
use yllm.Base.{
  ℕ, ◌+◌, ◌-◌, ◌/◌, ◌%◌, ◌<◌, ◌≡◌, ◌≢◌, refl, true, false, [], ◌∷◌, ◌++◌, arith, length, All,
  Bool-cases, inl, inr,
}
use yllm.Base.Text.{Bytes, equal}
use yllm.Tokenizer.Bytes.{gpt2_byte_str, is_special, special_index}
use yllm.Tokenizer.Bytes.RoundTrip.{mapped, unmap-mapped, IsBytes}
use yllm.Tokenizer.Decode.{is_control, is_byte_token, decode_piece}
use yllm.Tokenizer.Lookup.{strncmp}
use yllm.Tokenizer.Specials.{begins_with}
use yllm.Tokenizer.Types.{Vocab}

-- A character of plain text: ASCII, not the one that special tokens begin with, and no NUL.
abbrev pub IsPlain : Bytes → Type 0
IsPlain text = All (λ b. (b < 128) × (b ≢ b'<') × (0 < b)) text

gpt2_byte_str_apart :
    (b : ℕ) → b < 128 → b ≢ b'<' → (h : ℕ) × (t : Bytes) × (gpt2_byte_str b ≡ h ∷ t) × (h ≢ b'<')
unfolding gpt2_byte_str is_special
gpt2_byte_str_apart b ascii apart = elim (Bool-cases (is_special b)) [
  | inl special ↦ (
    0xC0 + (0x100 + special_index b) / 64,
    (0x80 + (0x100 + special_index b) % 64) ∷ [],
    ground (arith, special),
    omega arith,
  )
  | inr plain ↦ (b, [], rw plain (ground (arith, ascii)), apart)
]

pub not_control : (h : ℕ) (t : Bytes) → h ≢ b'<' → is_control (h ∷ t) ≡ false
unfolding is_control equal
not_control h t apart = ground (arith, apart)

pub not_byte_token : (h : ℕ) (t : Bytes) → h ≢ b'<' → is_byte_token (h ∷ t) ≡ false
unfolding is_byte_token begins_with strncmp
not_byte_token h t apart = ground (arith, apart)

not_marked :
    (w : Bytes) → IsPlain w → (is_control (mapped w) ≡ false) × (is_byte_token (mapped w) ≡ false)
unfolding mapped is_control is_byte_token equal begins_with strncmp
not_marked [] plain = (refl, refl)
not_marked (b ∷ w) plain =
    let (h, t, e, apart) = gpt2_byte_str_apart b plain.0.0 plain.0.1 in
    (rw e (not_control h (t ++ mapped w) apart), rw e (not_byte_token h (t ++ mapped w) apart))

IsBytes-IsPlain : (w : Bytes) → IsPlain w → IsBytes w
IsBytes-IsPlain [] plain = tt
IsBytes-IsPlain (b ∷ w) plain = (omega (arith, plain.0.0), IsBytes-IsPlain w plain.1)

pub decode_piece-mapped :
    (v : Vocab) (max o : ℕ) (w : Bytes)
    → v.byte_level ≡ true
    → IsPlain w
    → o + length w < max
    → decode_piece v max o (mapped w) ≡ w
unfolding decode_piece
decode_piece-mapped v max o w level plain room =
    let (a, b) = not_marked w plain in
    rw (a, b, level) (unmap-mapped (max - 1 - o) w (IsBytes-IsPlain w plain) (omega arith))
