-- ===== src/Tokenizer/Merges/Plain.antt =====
-- The first symbol of plain text is the token of its first byte.
use yllm.Base.{
  ℕ, suc, ◌+◌, ◌<◌, ◌≡◌, ◌≢◌, refl, true, false, none, some, List, [], ◌∷◌, arith, length, get_or,
  All, ltb,
}
use yllm.Base.Text.{Bytes}
use yllm.Tokenizer.Bytes.{utf8_clen}
use yllm.Tokenizer.Lookup.{strncmp}
use yllm.Tokenizer.Specials.{k_qwen_specials, begins_with, special_id_from, special_token_id}
use yllm.Tokenizer.Merges.{next_symbol, first_symbols, char_token, char_len, byte_symbol}
use yllm.Tokenizer.Types.{Vocab}

abbrev IsBracketed : Bytes → Type 0
IsBracketed [] = Unit
IsBracketed (c ∷ name) = c ≡ b'<'

begins_apart :
    (name : Bytes) (c : ℕ) (t : Bytes)
    → IsBracketed name
    → c ≢ b'<'
    → 0 < length name
    → begins_with name (c ∷ t) ≡ false
unfolding begins_with strncmp
begins_apart [] c t is apart some_name = absurd (omega arith)
begins_apart (d ∷ name) c t is apart some_name = ground (arith, is, apart)

special_id_apart :
    (v : Vocab) (names : List Bytes) (c : ℕ) (t : Bytes)
    → All IsBracketed names
    → c ≢ b'<'
    → special_id_from v (c ∷ t) names none 0 ≡ none
unfolding special_id_from
special_id_apart v [] c t is apart = refl
special_id_apart v (name ∷ names) c t is apart =
    ground (arith, begins_apart name c t is.0 apart, special_id_apart v names c t is.1 apart)

pub special_token_apart :
    (v : Vocab) (c : ℕ) (t : Bytes) → c ≢ b'<' → special_token_id v (c ∷ t) ≡ none
unfolding special_token_id
special_token_apart v c t apart = special_id_apart v k_qwen_specials c t (omega arith) apart

char_token_ascii : (v : Vocab) (c : ℕ) (text : Bytes) → c < 128 → char_token v c text ≡ none
unfolding char_token char_len utf8_clen
char_token_ascii v c text ascii = ground (arith, ascii)

byte_symbol_known :
    (v : Vocab) (c id : ℕ) → get_or v.byte_ids c none ≡ some id → byte_symbol v c ≡ some id
unfolding byte_symbol
byte_symbol_known v c id known = rw (known, byte_symbol) refl

next_symbol_plain :
    (v : Vocab) (c : ℕ) (t : Bytes) (id : ℕ)
    → c < 128
    → c ≢ b'<'
    → get_or v.byte_ids c none ≡ some id
    → next_symbol v c t ≡ (some id, 1)
unfolding next_symbol
next_symbol_plain v c t id ascii apart known = ground (
  arith,
  special_token_apart v c t apart,
  char_token_ascii v c (c ∷ t) ascii,
  byte_symbol_known v c id known,
)

pub first_symbols_step :
    (fuel : ℕ) (v : Vocab) (max c : ℕ) (t : Bytes) (ns id : ℕ)
    → c < 128
    → c ≢ b'<'
    → get_or v.byte_ids c none ≡ some id
    → ns < max
    → first_symbols (suc fuel) v max (c ∷ t) ns ≡ id ∷ first_symbols fuel v max t (ns + 1)
unfolding first_symbols
first_symbols_step fuel v max c t ns id ascii apart known room =
    let more : ltb ns max ≡ true = ground (arith, room) in
    rw (next_symbol_plain v c t id ascii apart known, more) refl
