-- ===== src/Tokenizer/Sentence.antt =====
-- The byte-pair encoder by scores, and the choice of an encoder: `vocab_encode` of
-- inference/core/tokenizer.c.
pub mod Merging
pub mod Run
pub mod Symbols
pub mod Unspace
pub mod RoundTrip
use yllm.Base.{
  ℕ, zero, suc, ◌+◌, Bool, ◌&&◌, Option, none, some, List, [], ◌∷◌, ◌++◌, ◌==◌, ltb, leb,
  if◌then◌else◌, length, get_elem?, take, drop,
}
use yllm.Base.Text.{Bytes}
use yllm.Tokenizer.Greedy.{byte_name, vocab_encode_greedy}
use yllm.Tokenizer.Lookup.{vocab_bsearch_sorted}
use yllm.Tokenizer.Merges.{char_len, replace_pair, vocab_encode_merges}
use yllm.Tokenizer.Types.{Vocab, piece}

-- U+2581, which stands for a space.
abbrev pub mark : Bytes
mark = 0xE2 ∷ 0x96 ∷ 0x81 ∷ []

-- The loop over the text: each space becomes a mark.
unfoldable pub marked : Bytes → Bytes
marked [] = []
marked (c ∷ t) = (if c == b' ' then mark else c ∷ []) ++ marked t

-- The symbols of the bytes of a character that is no piece.
unfoldable pub byte_symbols : Vocab → Bytes → List ℕ
byte_symbols v [] = []
byte_symbols v (b ∷ bs) =
    let rest = byte_symbols v bs in
    elim (vocab_bsearch_sorted v (byte_name b)) [
      | some id ↦ id ∷ rest
      | none ↦ elim v.unk [ some id ↦ id ∷ rest | none ↦ rest ]
    ]

-- The loop over the characters of the marked text.
unfoldable pub char_symbols : ℕ → Vocab → Bytes → List ℕ
char_symbols zero v text = []
char_symbols (suc fuel) v [] = []
char_symbols (suc fuel) v (c ∷ t) =
    let n = char_len c (c ∷ t) in
    let rest = char_symbols fuel v (drop n (c ∷ t)) in
    elim (vocab_bsearch_sorted v (take n (c ∷ t))) [
      | some id ↦ id ∷ rest
      | none ↦ byte_symbols v (take n (c ∷ t)) ++ rest
    ]

-- `char merged[512]`
abbrev pub merged_size : ℕ
merged_size = 512

-- The piece that two symbols merge to, and its score; a piece without a score has 0.0f.
unfoldable pub score_merge : Vocab → ℕ → ℕ → Option (ℕ × ℕ)
score_merge v a b =
    if leb merged_size (length (piece v a) + length (piece v b))
    then none
    else elim (vocab_bsearch_sorted v (piece v a ++ piece v b)) [
      | some mid ↦ some (mid, elim (get_elem? v.scores mid) [ some sc ↦ sc | none ↦ 0 ])
      | none ↦ none
    ]

-- `best_i`, `best_out` and `best_score`.
pub record BestScore : Type 0 where
  pub best_i : Option ℕ
  pub best_out : ℕ
  pub best_score : ℕ

-- The comparison `>` of two `float`s by their bit patterns is a parameter.
module _ (gt : ℕ → ℕ → Bool) where
  abbrev pub raise : ℕ → Option (ℕ × ℕ) → BestScore → BestScore
  raise j none best = best
  raise j (some (mid, sc)) best =
      if gt sc best.best_score
      then record { best_i = some j; best_out = mid; best_score = sc }
      else best

  unfoldable pub best_score_from : Vocab → ℕ → ℕ → List ℕ → BestScore → BestScore
  best_score_from v j a [] best = best
  best_score_from v j a (b ∷ syms) best =
      best_score_from v (j + 1) b syms (raise j (score_merge v a b) best)

  -- The start is -1e30f.
  unfoldable pub best_score_pair : Vocab → List ℕ → BestScore
  unfolding best_score_from
  best_score_pair v [] = record { best_i = none; best_out = 0; best_score = 0xF149F2CA }
  best_score_pair v (a ∷ syms) =
      best_score_from v 0 a syms (record { best_i = none; best_out = 0; best_score = 0xF149F2CA })

  unfoldable pub score_loop : ℕ → Vocab → ℕ → List ℕ → List ℕ
  score_loop zero v max syms = syms
  score_loop (suc fuel) v max syms = elim ((best_score_pair v syms).best_i) [
    | none ↦ syms
    | some i ↦
        let rest = score_loop fuel v max (replace_pair i (best_score_pair v syms).best_out syms) in
        if leb max (length syms) then syms else rest
  ]

  unfoldable pub encode_sentence : Vocab → Bytes → ℕ → List ℕ
  encode_sentence v text max =
      let norm = mark ++ marked text in
      let syms = char_symbols (length norm) v norm in take max (score_loop (length syms) v max syms)

  unfoldable pub vocab_encode : Vocab → Bytes → ℕ → List ℕ
  vocab_encode v text max =
      if length v.scores == 0 && ltb 0 (length v.merges)
      then vocab_encode_merges v text max
      else if length v.scores == 0
      then vocab_encode_greedy v text max
      else encode_sentence v text max
