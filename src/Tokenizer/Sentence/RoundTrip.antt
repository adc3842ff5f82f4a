-- ===== src/Tokenizer/Sentence/RoundTrip.antt =====
-- Plain text decodes to itself, with a space in front.
use yllm.Base.{
  ℕ, zero, suc, ◌+◌, ◌<◌, ◌≡◌, ◌≢◌, refl, ap, ◌∙◌, false, Bool, some, List, [], ◌∷◌, ◌++◌, arith,
  length, get_elem?, ◌==◌, inl, inr, take_of_length-le, subst, Option-cases,
}
use yllm.Base.Text.{Bytes}
use yllm.Tokenizer.Decode.Plain.{IsPlain}
use yllm.Tokenizer.Decode.{vocab_decode}
use yllm.Tokenizer.Lookup.Find.{
  IsIndexed, piece_of_some, get_elem?-piece, vocab_bsearch_sorted-IsLookup, IsLookup,
}
use yllm.Tokenizer.Lookup.{vocab_bsearch_sorted}
use yllm.Tokenizer.Sentence.Merging.{IsStrict, pair_score}
use yllm.Tokenizer.Sentence.Run.{
  merge, ScoreRun, finish, next, score_loop-ScoreRun, ScoreRun-shortens,
}
use yllm.Tokenizer.Sentence.{
  mark, marked, char_symbols, score_merge, score_loop, encode_sentence, vocab_encode,
}
use yllm.Tokenizer.Spells.{Joins, Spells, Spells-replace_pair, decode_from-Spells}
use yllm.Tokenizer.Types.{Vocab, piece}
use yllm.Tokenizer.Sentence.Symbols.{IsSentence, HasChars, marked-append, char_symbols-Spells}
use yllm.Tokenizer.Sentence.Unspace.{decode_piece-marked}

score_merge-piece :
    (v : Vocab) (a b : ℕ) (m : ℕ × ℕ)
    → IsIndexed v
    → score_merge v a b ≡ some m
    → get_elem? v.pieces m.0 ≡ some (piece v a ++ piece v b)
unfolding score_merge
score_merge-piece v a b m indexed h =
    let str = piece v a ++ piece v b in
    elim (Option-cases (vocab_bsearch_sorted v str)) [
      | inl missing ↦ absurd (ground (arith, h, missing))
      | inr (id, found) ↦
          let (known, is) =
            subst (IsLookup v str) found (vocab_bsearch_sorted-IsLookup v str indexed) in
          let same : m.0 ≡ id = ground (arith, h, found) in
          rw same (get_elem?-piece v id known ∙ ap some is)
    ]

Joins-pair_score :
    (v : Vocab) (syms : List ℕ) (i : ℕ) (m : ℕ × ℕ)
    → IsIndexed v
    → pair_score v syms i ≡ some m
    → Joins v syms i m.0
Joins-pair_score v [] i m indexed found = cc
Joins-pair_score v (a ∷ []) i m indexed found = cc
Joins-pair_score v (a ∷ b ∷ syms) zero m indexed found = λ p q left right.
    let l = piece_of_some v a p left in
    let r = piece_of_some v b q right in rw (← l.1, ← r.1) (score_merge-piece v a b m indexed found)
Joins-pair_score v (a ∷ b ∷ syms) (suc i) m indexed found =
    Joins-pair_score v (b ∷ syms) i m indexed found

ScoreRun-Spells :
    (gt : ℕ → ℕ → Bool) (v : Vocab) (text : Bytes) {syms end : List ℕ}
    → IsIndexed v
    → ScoreRun gt v syms end
    → Spells marked v syms text
    → Spells marked v end text
ScoreRun-Spells gt v text indexed (finish syms) spells = spells
ScoreRun-Spells gt v text indexed (next (merge syms i m top) run) spells =
    ScoreRun-Spells gt v text indexed run (
      Spells-replace_pair marked marked-append v syms i m.0 text
        (Joins-pair_score v syms i m indexed top.here) spells)

-- What the encoder makes of a text, and what its symbols spell.
encode_sentence-Spells :
    (gt : ℕ → ℕ → Bool) (v : Vocab) (text : Bytes) (max : ℕ)
    → IsStrict gt
    → IsSentence v
    → IsPlain (b' ' ∷ text)
    → HasChars v (b' ' ∷ text)
    → length text < max
    → Spells marked v (encode_sentence gt v text max) (b' ' ∷ text)
unfolding encode_sentence marked
encode_sentence-Spells gt v text max order ok plain chars fits =
    let syms = char_symbols (length (mark ++ marked text)) v (mark ++ marked text) in
    let start =
      char_symbols-Spells (length (mark ++ marked text)) v (b' ' ∷ text) ok plain chars
        (omega arith) in
    let run = (score_loop-ScoreRun gt order v max syms).0 in
    let spells = ScoreRun-Spells gt v (b' ' ∷ text) ok.indexed run start.0 in
    let short = ScoreRun-shortens gt v run in
    rw
      (take_of_length-le max (score_loop gt (length syms) v max syms)
        (omega (arith, short, start.1)))
      spells

-- Plain text that fits the buffers, with every character in the vocabulary, comes back from the
-- encoder by scores with a space in front, for a comparison of scores that is irreflexive and
-- transitive.
pub vocab_decode-vocab_encode :
    (gt : ℕ → ℕ → Bool) (v : Vocab) (text : Bytes) (max room : ℕ)
    → IsStrict gt
    → IsSentence v
    → IsPlain text
    → HasChars v text
    → length text < max
    → length text + 1 < room
    → vocab_decode v (vocab_encode gt v text max) room ≡ b' ' ∷ text
unfolding vocab_decode vocab_encode
vocab_decode-vocab_encode gt v text max room order ok plain chars fits fits' =
    let plain' : IsPlain (b' ' ∷ text) = ((omega arith, (omega arith), omega arith), plain) in
    rw (no_scores v.scores ok.scored) (
      decode_from-Spells marked v room (λ o w. decode_piece-marked v room o w ok.level) 0
        (encode_sentence gt v text max) (b' ' ∷ text) plain' (omega arith)
        (encode_sentence-Spells gt v text max order ok plain' (inl refl, chars) fits))
  where
    no_scores : (scores : List ℕ) → scores ≢ [] → (length scores == 0) ≡ false
    no_scores [] ne = absurd (ne refl)
    no_scores (s ∷ scores) ne = ground arith
