-- ===== src/Tests/Tokenizer.antt =====
-- The tokenizer at small vocabularies.
mod Tables
use yllm.Base.{
  ℕ, zero, suc, ◌+◌, ◌-◌, ◌/◌, ◌%◌, ◌<◌, ◌≤◌, ◌≡◌, ◌≢◌, if◌then◌else◌, refl, true, false, some,
  none, Option, List, [], ◌∷◌, ◌++◌, arith, take, length, get_elem?, get_or, ltb, Bool, inl, inr,
}
use yllm.Base.Text.{Bytes, codes, equal}
use yllm.Tests.Tokenizer.Tables.{
  tabulate, get_elem?-tabulate, get_elem?-tabulate_behind, get_or-tabulate, is_indexed,
  is_indexed→IsIndexed, is_distinct, is_distinct→IsDistinct,
}
use yllm.Tokenizer.Bytes.RoundTrip.{mapped}
use yllm.Tokenizer.Bytes.{gpt2_byte_str}
use yllm.Tokenizer.Decode.Bounds.{IsByteId, vocab_decode_bounds}
use yllm.Tokenizer.Decode.Plain.{IsPlain}
use yllm.Tokenizer.Decode.{vocab_decode, is_control, is_byte_token, scan_hex}
use yllm.Tokenizer.Greedy.Cover.{Cover, vocab_encode_greedy-Cover}
use yllm.Tokenizer.Greedy.{vocab_encode_greedy}
use yllm.Tokenizer.Lookup.Find.{IsIndexed, IsDistinct, vocab_bsearch_sorted-vocab_id}
use yllm.Tokenizer.Lookup.{dict_compare, vocab_bsearch_sorted, vocab_id}
use yllm.Tokenizer.Merges.Bounds.{vocab_encode_merges_bounds}
use yllm.Tokenizer.Merges.Full.{vocab_encode_merges_full, AreBytes}
use yllm.Tokenizer.Merges.Latin.{vocab_encode_merges_latin}
use yllm.Tokenizer.Merges.RoundTrip.{IsByteLevel, vocab_decode-vocab_encode_merges}
use yllm.Tokenizer.Merges.Run.{Run, IsHalted, merge_loop-Run}
use yllm.Tokenizer.Merges.{
  next_symbol, char_token, byte_symbol, best_pair, find_merge, first_symbols, merge_loop,
  vocab_encode_merges,
}
use yllm.Tokenizer.Sentence.Merging.{IsStrict}
use yllm.Tokenizer.Sentence.RoundTrip.{vocab_decode-vocab_encode}
use yllm.Tokenizer.Sentence.Run.{ScoreRun, IsScored, score_loop-ScoreRun}
use yllm.Tokenizer.Sentence.Symbols.{IsSentence, HasChars}
use yllm.Tokenizer.Sentence.{score_loop, vocab_encode}
use yllm.Tokenizer.Specials.{special_token_id, begins_with}
use yllm.Tokenizer.Types.{Merge, Vocab}

abbrev row : ℕ → ℕ → ℕ → ℕ → Merge
row l r m k = record { ml = l; mr = r; mid = m; mrank = k }

-- The tokens of all ASCII bytes, and of two merges.
abbrev byte_vocab : Vocab
byte_vocab = record {
  pieces = tabulate gpt2_byte_str 0 128 ++ codes "ab" ∷ codes "abab" ∷ [];
  unk = none;
  sorted = [];
  scores = [];
  merges = row 97 98 128 0 ∷ row 128 128 129 1 ∷ [];
  byte_level = true;
  byte_ids = tabulate some 0 128;
}

byte_vocab_joins :
    (i : ℕ) (m : Merge) (p q : Bytes)
    → get_elem? byte_vocab.merges i ≡ some m
    → get_elem? byte_vocab.pieces m.ml ≡ some p
    → get_elem? byte_vocab.pieces m.mr ≡ some q
    → get_elem? byte_vocab.pieces m.mid ≡ some (p ++ q)
unfolding gpt2_byte_str
byte_vocab_joins zero m p q at left right =
    let a =
      get_elem?-tabulate gpt2_byte_str 0 128 97 (codes "ab" ∷ codes "abab" ∷ []) (omega arith) in
    let b =
      get_elem?-tabulate gpt2_byte_str 0 128 98 (codes "ab" ∷ codes "abab" ∷ []) (omega arith) in
    let ab = get_elem?-tabulate_behind gpt2_byte_str 0 128 0 (codes "ab" ∷ codes "abab" ∷ []) in
    cc (at, left, right, a, b, ab)
byte_vocab_joins (suc zero) m p q at left right =
    let ab = get_elem?-tabulate_behind gpt2_byte_str 0 128 0 (codes "ab" ∷ codes "abab" ∷ []) in
    let abab = get_elem?-tabulate_behind gpt2_byte_str 0 128 1 (codes "ab" ∷ codes "abab" ∷ []) in
    cc (at, left, right, ab, abab)
byte_vocab_joins (suc (suc i)) m p q at left right = cc

byte_vocab_bytes :
    (b : ℕ)
    → b < 128
    → (id : ℕ) × (get_or byte_vocab.byte_ids b none ≡ some id)
      × (get_elem? byte_vocab.pieces id ≡ some (gpt2_byte_str b))
byte_vocab_bytes b ascii =
    let e : 0 + b ≡ b = omega arith in
    let id = get_or-tabulate some 0 128 b none ascii in
    let name = get_elem?-tabulate gpt2_byte_str 0 128 b (codes "ab" ∷ codes "abab" ∷ []) ascii in
    (b, rw e at id, rw e at name)

byte_vocab-IsByteLevel : IsByteLevel byte_vocab
byte_vocab-IsByteLevel = record { bytes = byte_vocab_bytes; joins = byte_vocab_joins; level = refl }

some_merges : byte_vocab.merges ≢ []
some_merges e = cc

-- "é" is the piece of the byte 0xE9.
abbrev latin_vocab : Vocab
latin_vocab = record {
  pieces = codes "a" ∷ codes "b" ∷ codes "ab" ∷ (0xC3 ∷ 0xA9 ∷ []) ∷ [];
  unk = none;
  sorted = 0 ∷ 2 ∷ 1 ∷ 3 ∷ [];
  scores = [];
  merges = row 0 1 2 0 ∷ [];
  byte_level = true;
  byte_ids = [];
}

latin_vocab-IsIndexed : IsIndexed latin_vocab
unfolding is_indexed dict_compare
latin_vocab-IsIndexed = is_indexed→IsIndexed latin_vocab (0 ∷ 2 ∷ 1 ∷ 3 ∷ []) refl

latin_vocab-IsDistinct : IsDistinct latin_vocab
unfolding is_distinct
latin_vocab-IsDistinct = is_distinct→IsDistinct latin_vocab refl

-- A vocabulary with scores, and a mark.
abbrev sentence_vocab : Vocab
sentence_vocab = record {
  pieces =
      codes "a"
      ∷ codes "b"
      ∷ codes "ab"
      ∷ (0xE2 ∷ 0x96 ∷ 0x81 ∷ [])
      ∷ (0xE2 ∷ 0x96 ∷ 0x81 ∷ 97 ∷ [])
      ∷ [];
  unk = none;
  sorted = 0 ∷ 2 ∷ 1 ∷ 3 ∷ 4 ∷ [];
  scores = 0 ∷ 0 ∷ 0x3F800000 ∷ 0 ∷ 0xBF800000 ∷ [];
  merges = [];
  byte_level = false;
  byte_ids = [];
}

sentence_vocab-IsSentence : IsSentence sentence_vocab
unfolding is_indexed dict_compare
sentence_vocab-IsSentence = record {
  indexed = is_indexed→IsIndexed sentence_vocab (0 ∷ 2 ∷ 1 ∷ 3 ∷ 4 ∷ []) refl;
  scored = λ e. cc;
  level = refl;
  space = (3, refl);
}

-- The order of finite `float`s by their bits: the negative ones run backwards.
abbrev float_key : ℕ → ℕ
float_key x = if ltb x 0x80000000 then x + 0x80000000 else 0xFFFFFFFF - x

abbrev float_gt : ℕ → ℕ → Bool
float_gt x y = ltb (float_key y) (float_key x)

float_gt-IsStrict : IsStrict float_gt
float_gt-IsStrict = record {
  irrefl = λ x. same (float_key x);
  trans = λ x y z h k. chain (float_key x) (float_key y) (float_key z) h k;
}
  where
    same : (a : ℕ) → ltb a a ≡ false
    same a = ground arith

    chain : (a b c : ℕ) → ltb b a ≡ true → ltb c b ≡ true → ltb c a ≡ true
    chain a b c h k = ground (arith, h, k)

vocab_bsearch_sorted-vocab_id_example :
    vocab_bsearch_sorted latin_vocab (codes "ab") ≡ vocab_id latin_vocab (codes "ab")
vocab_bsearch_sorted-vocab_id_example =
    vocab_bsearch_sorted-vocab_id latin_vocab (codes "ab") latin_vocab-IsIndexed
      latin_vocab-IsDistinct

merge_loop-Run_example :
    Run byte_vocab.merges
      (97 ∷ 98 ∷ 97 ∷ 98 ∷ [])
      (merge_loop 4 byte_vocab.merges 64 (97 ∷ 98 ∷ 97 ∷ 98 ∷ []))
    × IsHalted byte_vocab.merges 64 (merge_loop 4 byte_vocab.merges 64 (97 ∷ 98 ∷ 97 ∷ 98 ∷ []))
merge_loop-Run_example = merge_loop-Run byte_vocab.merges 64 (97 ∷ 98 ∷ 97 ∷ 98 ∷ [])

abab-IsPlain : IsPlain (codes "abab c")
abab-IsPlain = omega arith

vocab_decode-vocab_encode_merges_example :
    vocab_decode byte_vocab (vocab_encode_merges byte_vocab (codes "abab c") 16) 16 ≡ codes "abab c"
vocab_decode-vocab_encode_merges_example =
    vocab_decode-vocab_encode_merges byte_vocab (codes "abab c") 16 16 byte_vocab-IsByteLevel
      some_merges abab-IsPlain (omega arith) (omega arith)

vocab_encode_merges_full_example :
    (length (vocab_encode_merges byte_vocab (codes "abab c") 3) ≡ 3)
    × AreBytes byte_vocab
        (take 3 (codes "abab c"))
        (vocab_encode_merges byte_vocab (codes "abab c") 3)
    × (vocab_decode byte_vocab (vocab_encode_merges byte_vocab (codes "abab c") 3) 16
        ≡ take 3 (codes "abab c"))
vocab_encode_merges_full_example =
    vocab_encode_merges_full byte_vocab (codes "abab c") 3 16 byte_vocab-IsByteLevel some_merges
      abab-IsPlain (omega arith) (omega arith)

vocab_encode_merges_latin_example :
    (vocab_encode_merges latin_vocab ((0xC0 + 0xE9 / 64) ∷ (0x80 + 0xE9 % 64) ∷ []) 8 ≡ 3 ∷ [])
    × (vocab_decode latin_vocab (3 ∷ []) 8 ≡ 0xE9 ∷ [])
unfolding gpt2_byte_str
vocab_encode_merges_latin_example =
    vocab_encode_merges_latin latin_vocab 0xE9 3 8 8 (omega arith) latin_vocab-IsIndexed
      latin_vocab-IsDistinct refl (λ e. cc) refl (omega arith) (omega arith)

score_loop-ScoreRun_example :
    ScoreRun float_gt sentence_vocab
      (3 ∷ 0 ∷ 1 ∷ [])
      (score_loop float_gt 3 sentence_vocab 8 (3 ∷ 0 ∷ 1 ∷ []))
    × IsScored float_gt sentence_vocab 8 (score_loop float_gt 3 sentence_vocab 8 (3 ∷ 0 ∷ 1 ∷ []))
score_loop-ScoreRun_example =
    score_loop-ScoreRun float_gt float_gt-IsStrict sentence_vocab 8 (3 ∷ 0 ∷ 1 ∷ [])

vocab_decode-vocab_encode_example :
    vocab_decode sentence_vocab (vocab_encode float_gt sentence_vocab (codes "ab a") 8) 8
    ≡ codes " ab a"
vocab_decode-vocab_encode_example =
    vocab_decode-vocab_encode float_gt sentence_vocab (codes "ab a") 8 8 float_gt-IsStrict
      sentence_vocab-IsSentence (omega arith)
      (inr (0, refl), (inr (1, refl), (inl refl, (inr (0, refl), tt)))) (omega arith) (omega arith)

vocab_encode_greedy-Cover_example :
    Cover latin_vocab 4 (codes "aba") (vocab_encode_greedy latin_vocab (codes "aba") 4)
vocab_encode_greedy-Cover_example = vocab_encode_greedy-Cover latin_vocab (codes "aba") 4

-- A vocabulary of one token of a byte.
abbrev one_byte : Vocab
one_byte = record latin_vocab { pieces = codes "<0x41>" ∷ [] }

one_byte-IsByteId : IsByteId one_byte 0
unfolding is_control is_byte_token scan_hex begins_with equal
one_byte-IsByteId = (omega arith, refl, refl, (0x41, refl))

vocab_decode_bounds_example :
    (length (vocab_decode one_byte (0 ∷ 0 ∷ 0 ∷ []) 2) ≤ 2)
    × (length (vocab_decode one_byte (0 ∷ 0 ∷ []) 2) ≡ 2)
vocab_decode_bounds_example =
    vocab_decode_bounds one_byte (0 ∷ 0 ∷ 0 ∷ []) (0 ∷ 0 ∷ []) 2
      (one_byte-IsByteId, (one_byte-IsByteId, tt)) refl

encode_run : vocab_encode_merges byte_vocab (codes "ababab") 64 ≡ 129 ∷ 128 ∷ []
unfolding vocab_encode_merges merge_loop first_symbols next_symbol special_token_id begins_with
    char_token byte_symbol tabulate best_pair find_merge
encode_run = refl
