-- ===== src/Tokenizer/Decode.antt =====
-- From tokens back to text: `vocab_decode` of inference/core/tokenizer.c.
pub mod Bounds
pub mod Plain
use Prim.Native.Nat.{Ordering}
use yllm.Base.{
  ℕ, zero, suc, ◌+◌, ◌-◌, ◌*◌, ◌%◌, Bool, true, false, ◌&&◌, ◌||◌, Option, none, some, List, [],
  ◌∷◌, ◌++◌, ◌==◌, ltb, leb, if◌then◌else◌, length, get_or, drop,
}
use yllm.Base.Scan.{is_space}
use yllm.Base.Text.{Bytes, codes, drop_while, equal}
use yllm.Tokenizer.Bytes.{unmap}
use yllm.Tokenizer.Specials.{begins_with}
use yllm.Tokenizer.Types.{Vocab, piece}

-- The pieces that stand for no text.
unfoldable pub is_control : Bytes → Bool
is_control pc =
    equal pc (codes "<s>")
    || (equal pc (codes "</s>")
        || (equal pc (codes "<bos>")
            || (equal pc (codes "<eos>")
                || (equal pc (codes "<unk>") || equal pc (codes "<pad>")))))

unfoldable pub is_byte_token : Bytes → Bool
unfolding begins_with
is_byte_token pc = begins_with (codes "<0x") pc && (length pc == 6 && get_or pc 5 0 == b'>')

-- The value of a hexadecimal digit.
unfoldable pub hex_digit : ℕ → Option ℕ
hex_digit c =
    if leb b'0' c && leb c b'9'
    then some (c - b'0')
    else if leb b'a' c && leb c b'f'
    then some (c - b'a' + 10)
    else if leb b'A' c && leb c b'F'
    then some (c - b'A' + 10)
    else none

-- A field of at most two characters: a sign and a digit, or one or two digits; `0x` alone is no
-- number.
unfoldable pub hex_field : Bytes → Option ℕ
unfolding hex_digit
hex_field [] = none
hex_field (a ∷ s) =
    let b = get_or s 0 0 in
    let with_second : ℕ → Option ℕ = λ x. elim (hex_digit b) [
      | some y ↦ some (x * 16 + y)
      | none ↦ if x == 0 && (b == b'x' || b == b'X') then none else some x
    ] in
    if a == b'-'
    then elim (hex_digit b) [ some y ↦ some ((256 - y) % 256) | none ↦ none ]
    else if a == b'+'
    then hex_digit b
    else elim (hex_digit a) [ some x ↦ with_second x | none ↦ none ]

-- `sscanf(s, "%2x", &b)`, and the byte `(char)b`.
unfoldable pub scan_hex : Bytes → Option ℕ
unfolding hex_field
scan_hex s = hex_field (drop_while is_space s)

-- The loop over a piece of a sentence vocabulary, with `room` more bytes to write: each U+2581 is a
-- space.
unfoldable pub unspace : ℕ → Bytes → Bytes
unspace zero s = []
unspace (suc room) [] = []
unspace (suc room) (c ∷ []) = c ∷ []
unspace (suc room) (c ∷ d ∷ []) = c ∷ unspace room (d ∷ [])
unspace (suc room) (c ∷ d ∷ e ∷ s) =
    let one = c ∷ unspace room (d ∷ e ∷ s) in
    let three = b' ' ∷ unspace room s in
    if c == 0xE2 && (d == 0x96 && e == 0x81) then three else one

-- What a piece adds to the `o` bytes written.
unfoldable pub decode_piece : Vocab → ℕ → ℕ → Bytes → Bytes
decode_piece v max o pc =
    let byte : Bytes = elim (scan_hex (drop 3 pc)) [
      | some b ↦ if ltb o max then b ∷ [] else []
      | none ↦ []
    ] in
    if is_control pc
    then []
    else if is_byte_token pc
    then byte
    else if v.byte_level
    then unmap (max - 1 - o) pc
    else unspace (max - 1 - o) pc

unfoldable pub decode_from : Vocab → ℕ → ℕ → List ℕ → Bytes
decode_from v max o [] = []
decode_from v max o (id ∷ ids) =
    let out = if ltb id (length v.pieces) then decode_piece v max o (piece v id) else [] in
    out ++ decode_from v max (o + length out) ids

unfoldable pub vocab_decode : Vocab → List ℕ → ℕ → Bytes
unfolding decode_from
vocab_decode v ids max = decode_from v max 0 ids
