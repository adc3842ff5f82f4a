-- ===== src/Tokenizer/Decode/Bounds.antt =====
-- The decoder fills its buffer to the last byte at most, where the terminator is to stand.
use yllm.Base.{
  ℕ, zero, suc, ◌+◌, ◌-◌, ◌≤◌, ◌<◌, ◌≡◌, refl, ◌∙◌, true, false, some, List, [], ◌∷◌, arith, length,
  ltb, drop, All, length-append, Bool-cases, inl, inr,
}
use yllm.Base.Text.{Bytes}
use yllm.Tokenizer.Bytes.{unmap}
use yllm.Tokenizer.Decode.{
  is_control, is_byte_token, scan_hex, unspace, decode_piece, decode_from, vocab_decode,
}
use yllm.Tokenizer.Types.{Vocab, piece}

length-unmap-le : (room : ℕ) (s : Bytes) → length (unmap room s) ≤ room
unfolding unmap
length-unmap-le zero s = omega arith
length-unmap-le (suc room) [] = omega arith
length-unmap-le (suc room) (c ∷ []) = omega arith
length-unmap-le (suc room) (c ∷ d ∷ s) =
    ground (arith, length-unmap-le room (d ∷ s), length-unmap-le room s)

length-unspace-le : (room : ℕ) (s : Bytes) → length (unspace room s) ≤ room
unfolding unspace
length-unspace-le zero s = omega arith
length-unspace-le (suc room) [] = omega arith
length-unspace-le (suc room) (c ∷ []) = omega arith
length-unspace-le (suc room) (c ∷ d ∷ []) = omega (arith, length-unspace-le room (d ∷ []))
length-unspace-le (suc room) (c ∷ d ∷ e ∷ s) =
    ground (arith, length-unspace-le room (d ∷ e ∷ s), length-unspace-le room s)

decode_piece_fits :
    (v : Vocab) (max o : ℕ) (pc : Bytes) → o ≤ max → o + length (decode_piece v max o pc) ≤ max
unfolding decode_piece
decode_piece_fits v max o pc room =
    ground (arith, length-unmap-le (max - 1 - o) pc, length-unspace-le (max - 1 - o) pc)

decode_from_fits :
    (v : Vocab) (max o : ℕ) (ids : List ℕ) → o ≤ max → o + length (decode_from v max o ids) ≤ max
unfolding decode_from
decode_from_fits v max o [] room = omega arith
decode_from_fits v max o (id ∷ ids) room = elim (Bool-cases (ltb id (length v.pieces))) [
  | inl known ↦
      let out = decode_piece v max o (piece v id) in
      let fits = decode_piece_fits v max o (piece v id) room in
      let rest = decode_from_fits v max (o + length out) ids fits in
      rw known (omega (arith, rest, length-append out (decode_from v max (o + length out) ids)))
  | inr unknown ↦
      let e : o + 0 ≡ o = omega arith in rw (unknown, e) (decode_from_fits v max o ids room)
]

-- The token of a byte.
abbrev pub IsByteId : Vocab → ℕ → Type 0
IsByteId v id =
    (id < length v.pieces)
    × (is_control (piece v id) ≡ false)
    × (is_byte_token (piece v id) ≡ true)
    × ((b : ℕ) × (scan_hex (drop 3 (piece v id)) ≡ some b))

decode_piece_byte :
    (v : Vocab) (max o id : ℕ)
    → IsByteId v id
    → o < max
    → length (decode_piece v max o (piece v id)) ≡ 1
unfolding decode_piece
decode_piece_byte v max o id (known, no_control, named, (b, value)) room =
    ground (arith, no_control, named, value)

decode_from_bytes :
    (v : Vocab) (max o : ℕ) (ids : List ℕ)
    → All (IsByteId v) ids
    → o + length ids ≤ max
    → length (decode_from v max o ids) ≡ length ids
unfolding decode_from
decode_from_bytes v max o [] bytes room = refl
decode_from_bytes v max o (id ∷ ids) bytes room =
    let known : ltb id (length v.pieces) ≡ true = ground (arith, bytes.0.0) in
    let out = decode_piece v max o (piece v id) in
    let one = decode_piece_byte v max o id bytes.0 (omega arith) in
    let rest = decode_from_bytes v max (o + 1) ids bytes.1 (omega arith) in
    rw (known, length-append out (decode_from v max (o + length out) ids), one)
      (omega (arith, rest))

-- The decoder writes no more than `max` bytes. It writes all of them for `max` tokens of bytes, so
-- that the terminator then stands outside of the buffer.
pub vocab_decode_bounds :
    (v : Vocab) (ids bytes : List ℕ) (max : ℕ)
    → All (IsByteId v) bytes
    → length bytes ≡ max
    → (length (vocab_decode v ids max) ≤ max) × (length (vocab_decode v bytes max) ≡ max)
unfolding vocab_decode
vocab_decode_bounds v ids bytes max are_bytes many =
    let all = decode_from_bytes v max 0 bytes are_bytes (omega arith) in
    (omega (arith, decode_from_fits v max 0 ids (omega arith)), all ∙ many)
