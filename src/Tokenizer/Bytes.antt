-- ===== src/Tokenizer/Bytes.antt =====
-- The byte-level alphabet: `tiktoken_special`, `gpt2_byte_str`, `build_byte_ids` and `utf8_clen` of
-- inference/core/tokenizer.c, and the loop of `vocab_decode` that reads it back.
pub mod RoundTrip
use yllm.Base.{
  ℕ, zero, suc, ◌+◌, ◌-◌, ◌*◌, ◌/◌, ◌%◌, Bool, ◌&&◌, ◌||◌, Option, List, [], ◌∷◌, ◌==◌, ltb, leb,
  if◌then◌else◌,
}
use yllm.Base.Text.{Bytes}
use yllm.Tokenizer.Lookup.{vocab_bsearch_sorted}
use yllm.Tokenizer.Types.{Vocab}

-- The table `tiktoken_special`.
unfoldable pub is_special : ℕ → Bool
is_special b = leb b 0x20 || ((leb 0x7F b && leb b 0xA0) || b == 0xAD)

-- The place of a special byte in the alphabet.
abbrev pub special_index : ℕ → ℕ
special_index b =
    if leb b 0x20 then b else if leb b 0x9F then 33 + (b - 0x7F) else if b == 0xA0 then 66 else 67

abbrev code_point : ℕ → ℕ
unfolding is_special
code_point b = if is_special b then 0x100 + special_index b else b

-- The bytes of a code point below 0x10000.
abbrev utf8 : ℕ → Bytes
utf8 cp =
    if ltb cp 0x80
    then cp ∷ []
    else if ltb cp 0x800
    then (0xC0 + cp / 64) ∷ (0x80 + cp % 64) ∷ []
    else (0xE0 + cp / 4096) ∷ (0x80 + cp / 64 % 64) ∷ (0x80 + cp % 64) ∷ []

unfoldable pub gpt2_byte_str : ℕ → Bytes
unfolding is_special
gpt2_byte_str b = utf8 (code_point b)

-- The loop, at the last `n` bytes; the ids of `n` = 256 bytes fill the table.
unfoldable pub build_byte_ids : ℕ → Vocab → List (Option ℕ)
build_byte_ids zero v = []
build_byte_ids (suc n) v = vocab_bsearch_sorted v (gpt2_byte_str (256 - suc n)) ∷ build_byte_ids n v

unfoldable pub utf8_clen : ℕ → ℕ
utf8_clen c = if leb 0xF0 c then 4 else if leb 0xE0 c then 3 else if leb 0xC0 c then 2 else 1

-- The byte that a code point below 0x800 stands for, or none.
unfoldable pub byte_of : ℕ → Option ℕ
byte_of cp =
    if leb 0x100 cp && leb cp 0x143
    then Option.some (
        if leb cp 0x120
        then cp - 0x100
        else if leb cp 0x141
        then 0x7F + (cp - 0x121)
        else if cp == 0x142
        then 0xA0
        else 0xAD)
    else if (leb 0xA1 cp && leb cp 0xAC) || leb 0xAE cp
    then Option.some (cp % 256)
    else Option.none

-- The loop over a piece, with `room` more bytes to write.
unfoldable pub unmap : ℕ → Bytes → Bytes
unfolding byte_of
unmap zero s = []
unmap (suc room) [] = []
unmap (suc room) (c ∷ []) = c ∷ []
unmap (suc room) (c ∷ d ∷ s) =
    let one = c ∷ unmap room (d ∷ s) in
    let two : Bytes = elim (byte_of (c % 32 * 64 + d % 64)) [
      | Option.some b ↦ b ∷ unmap room s
      | Option.none ↦ one
    ] in
    if leb 0xC2 c && ltb c 0xE0 then two else one
