-- ===== src/Tokenizer/Merges/Latin.antt =====
-- Letters of Latin-1 are taken for the bytes of their numbers.
use yllm.Base.{
  ℕ, ◌+◌, ◌-◌, ◌/◌, ◌%◌, ◌≤◌, ◌<◌, ◌≡◌, ◌≢◌, refl, ap, sym, ◌∙◌, true, false, none, some, List, [],
  ◌∷◌, arith, length, get_elem?, Option, ltb, append-nil,
}
use yllm.Tokenizer.Bytes.RoundTrip.{mapped, unmap-mapped}
use yllm.Tokenizer.Bytes.{gpt2_byte_str, is_special, utf8_clen, unmap}
use yllm.Tokenizer.Decode.{vocab_decode, decode_from, decode_piece, is_control, is_byte_token}
use yllm.Tokenizer.Decode.Plain.{not_control, not_byte_token}
use yllm.Tokenizer.Lookup.Find.{
  IsIndexed, IsDistinct, piece_of_some, vocab_bsearch_sorted-IsLookup, IsLookup,
}
use yllm.Tokenizer.Lookup.{vocab_bsearch_sorted}
use yllm.Tokenizer.Merges.Bounds.{vocab_encode_merges-merge_loop}
use yllm.Tokenizer.Merges.Plain.{special_token_apart}
use yllm.Tokenizer.Merges.{
  char_len, char_token, next_symbol, first_symbols, merge_loop, best_pair, vocab_encode_merges,
}
use yllm.Tokenizer.Types.{Vocab, piece}

-- The numbers of the letters and signs of Latin-1 whose bytes stand for themselves.
abbrev pub IsLatin : ℕ → Type 0
IsLatin b = (0xA1 ≤ b) × (b < 0x100) × (b ≢ 0xAD)

letter : (b : ℕ) → IsLatin b → gpt2_byte_str b ≡ (0xC0 + b / 64) ∷ (0x80 + b % 64) ∷ []
unfolding gpt2_byte_str is_special
letter b latin = ground (arith, latin)

one_mapped : (b : ℕ) → gpt2_byte_str b ≡ mapped (b ∷ [])
unfolding mapped
one_mapped b = sym (append-nil (gpt2_byte_str b))

module _ (v : Vocab) (b id : ℕ) (latin : IsLatin b)
    (token : get_elem? v.pieces id ≡ some (gpt2_byte_str b)) where
  letter_token : IsIndexed v → IsDistinct v → vocab_bsearch_sorted v (gpt2_byte_str b) ≡ some id
  letter_token indexed once = found _ (vocab_bsearch_sorted-IsLookup v (gpt2_byte_str b) indexed)
    where
      here : (id < length v.pieces) × (piece v id ≡ gpt2_byte_str b)
      here = piece_of_some v id (gpt2_byte_str b) token

      found : (r : Option ℕ) → IsLookup v (gpt2_byte_str b) r → r ≡ some id
      found none missing = absurd (missing id here.0 here.1)
      found (some k) (known, is) = ap some (once k id known here.0 (is ∙ sym here.1))

  next_symbol_letter :
      (c d : ℕ)
      → gpt2_byte_str b ≡ c ∷ d ∷ []
      → 0xC0 ≤ c
      → c < 0xE0
      → vocab_bsearch_sorted v (gpt2_byte_str b) ≡ some id
      → next_symbol v c (d ∷ []) ≡ (some id, 2)
  unfolding next_symbol char_token char_len utf8_clen
  next_symbol_letter c d is low high found =
      let two : vocab_bsearch_sorted v (c ∷ d ∷ []) ≡ some id = rw (← is) found in
      ground (arith, special_token_apart v c (d ∷ []) (omega arith), two)

  first_symbols_letter :
      (c d max : ℕ)
      → 0 < max
      → next_symbol v c (d ∷ []) ≡ (some id, 2)
      → first_symbols 2 v max (c ∷ d ∷ []) 0 ≡ id ∷ []
  unfolding first_symbols
  first_symbols_letter c d max space e =
      let inside : ltb 0 max ≡ true = ground (arith, space) in rw (e, inside) refl

  merge_loop_single : (max : ℕ) → merge_loop 1 v.merges max (id ∷ []) ≡ id ∷ []
  unfolding merge_loop best_pair
  merge_loop_single max = refl

  decode_letter :
      (room : ℕ) → 1 < room → v.byte_level ≡ true → vocab_decode v (id ∷ []) room ≡ b ∷ []
  unfolding vocab_decode decode_from decode_piece
  decode_letter room fits level =
      let (known, is) = piece_of_some v id (gpt2_byte_str b) token in
      let inside : ltb id (length v.pieces) ≡ true = ground (arith, known) in
      let a : is_control (gpt2_byte_str b) ≡ false =
        rw (letter b latin) (not_control _ _ (omega arith)) in
      let c : is_byte_token (gpt2_byte_str b) ≡ false =
        rw (letter b latin) (not_byte_token _ _ (omega arith)) in
      let out : unmap (room - 1 - 0) (gpt2_byte_str b) ≡ b ∷ [] =
        rw (one_mapped b) (unmap-mapped (room - 1 - 0) (b ∷ []) (latin.1, tt) (omega arith)) in
      rw (inside, is, a, c, level, out) refl

-- A letter of Latin-1 beyond ASCII, spelled by its two bytes, is encoded as the token of the single
-- byte of its number, and decodes to that byte.
pub vocab_encode_merges_latin :
    (v : Vocab) (b id max room : ℕ)
    → IsLatin b
    → IsIndexed v
    → IsDistinct v
    → get_elem? v.pieces id ≡ some (gpt2_byte_str b)
    → v.merges ≢ []
    → v.byte_level ≡ true
    → 0 < max
    → 1 < room
    → (vocab_encode_merges v ((0xC0 + b / 64) ∷ (0x80 + b % 64) ∷ []) max ≡ id ∷ [])
      × (vocab_decode v (id ∷ []) room ≡ b ∷ [])
vocab_encode_merges_latin v b id max room latin indexed once token some_merge level space fits =
    let c = 0xC0 + b / 64 in
    let d = 0x80 + b % 64 in
    let (syms, first, result) = vocab_encode_merges-merge_loop v (c ∷ d ∷ []) max some_merge in
    let found = letter_token v b id latin token indexed once in
    let round =
      next_symbol_letter v b id latin token c d (letter b latin) (omega arith) (omega arith)
        found in
    let one = first ∙ first_symbols_letter v b id latin token c d max space round in
    (
      result
          ∙ ap (λ (s : List ℕ). merge_loop (length s) v.merges max s) one
          ∙ merge_loop_single v b id latin token max,
      decode_letter v b id latin token room fits level,
    )
