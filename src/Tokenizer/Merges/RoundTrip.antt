-- ===== src/Tokenizer/Merges/RoundTrip.antt =====
-- Text of ASCII characters decodes to itself.
use yllm.Base.{
  ℕ, zero, suc, ◌+◌, ◌≤◌, ◌<◌, ◌≡◌, ◌≢◌, refl, ap, sym, ◌∙◌, true, none, some, List, [], ◌∷◌, ◌++◌,
  append-nil, arith, length, get_elem?, get_or,
}
use yllm.Base.Text.{Bytes}
use yllm.Tokenizer.Types.{Merge, Vocab}
use yllm.Tokenizer.Bytes.{gpt2_byte_str}
use yllm.Tokenizer.Bytes.RoundTrip.{mapped, mapped-append}
use yllm.Tokenizer.Merges.{first_symbols, vocab_encode_merges}
use yllm.Tokenizer.Merges.Bounds.{vocab_encode_merges-merge_loop}
use yllm.Tokenizer.Merges.Lowest.{pair_merge}
use yllm.Tokenizer.Merges.Run.{merge, Run, finish, next, merge_loop-Run}
use yllm.Tokenizer.Merges.Table.{find_merge_sound}
use yllm.Tokenizer.Decode.{vocab_decode}
use yllm.Tokenizer.Decode.Plain.{IsPlain, decode_piece-mapped}
use yllm.Tokenizer.Spells.{Joins, Spells, Spells-replace_pair, decode_from-Spells}
use yllm.Tokenizer.Merges.Plain.{first_symbols_step}

-- Every ASCII byte has its token, and a merge joins the texts of its parts.
pub record IsByteLevel (v : Vocab) : Type 0 where
  pub bytes :
      (b : ℕ)
      → b < 128
      → (id : ℕ) × (get_or v.byte_ids b none ≡ some id)
        × (get_elem? v.pieces id ≡ some (gpt2_byte_str b))
  pub joins :
      (i : ℕ) (m : Merge) (p q : Bytes)
      → get_elem? v.merges i ≡ some m
      → get_elem? v.pieces m.ml ≡ some p
      → get_elem? v.pieces m.mr ≡ some q
      → get_elem? v.pieces m.mid ≡ some (p ++ q)
  pub level : v.byte_level ≡ true

Joins-pair_merge :
    (v : Vocab) (syms : List ℕ) (i : ℕ) (m : Merge)
    → IsByteLevel v
    → pair_merge v.merges syms i ≡ some m
    → Joins v syms i m.mid
Joins-pair_merge v [] i m ok found = cc
Joins-pair_merge v (a ∷ []) i m ok found = cc
Joins-pair_merge v (a ∷ b ∷ syms) zero m ok found = λ p q left right.
    let (k, at, l, r) = find_merge_sound v.merges a b m found in
    ok.joins k m p q at (rw l left) (rw r right)
Joins-pair_merge v (a ∷ b ∷ syms) (suc i) m ok found = Joins-pair_merge v (b ∷ syms) i m ok found

Run-Spells :
    (v : Vocab) (text : Bytes) {syms end : List ℕ}
    → IsByteLevel v
    → Run v.merges syms end
    → Spells mapped v syms text
    → Spells mapped v end text
Run-Spells v text ok (finish syms) spells = spells
Run-Spells v text ok (next (merge syms i m low) run) spells = Run-Spells v text ok run (
    Spells-replace_pair mapped mapped-append v syms i m.mid text
      (Joins-pair_merge v syms i m ok low.here) spells)

pub Spells-byte :
    (v : Vocab) (c id : ℕ) (t : Bytes) (ids : List ℕ)
    → get_elem? v.pieces id ≡ some (gpt2_byte_str c)
    → Spells mapped v ids t
    → Spells mapped v (id ∷ ids) (c ∷ t)
unfolding mapped
Spells-byte v c id t ids token spells =
    (c ∷ [], t, refl, token ∙ ap some (sym (append-nil (gpt2_byte_str c))), spells)

-- The first symbols of plain text are the tokens of its bytes.
first_symbols-Spells :
    (fuel : ℕ) (v : Vocab) (max : ℕ) (text : Bytes) (ns : ℕ)
    → IsByteLevel v
    → IsPlain text
    → length text ≤ fuel
    → ns + length text ≤ max
    → Spells mapped v (first_symbols fuel v max text ns) text
first_symbols-Spells zero v max [] ns ok plain enough room = unfold first_symbols in refl
first_symbols-Spells (suc fuel) v max [] ns ok plain enough room = unfold first_symbols in refl
first_symbols-Spells zero v max (c ∷ t) ns ok plain enough room = absurd (omega arith)
first_symbols-Spells (suc fuel) v max (c ∷ t) ns ok plain enough room =
    let (id, known, token) = ok.bytes c plain.0.0 in
    rw (first_symbols_step fuel v max c t ns id plain.0.0 plain.0.1 known (omega arith)) (
      Spells-byte v c id t _ token
        (first_symbols-Spells fuel v max t (ns + 1) ok plain.1 (omega arith) (omega arith)))

-- Plain text that fits the buffers comes back from the encoder's tokens as it was.
pub vocab_decode-vocab_encode_merges :
    (v : Vocab) (text : Bytes) (max room : ℕ)
    → IsByteLevel v
    → v.merges ≢ []
    → IsPlain text
    → length text ≤ max
    → length text < room
    → vocab_decode v (vocab_encode_merges v text max) room ≡ text
unfolding vocab_decode
vocab_decode-vocab_encode_merges v text max room ok some_merge plain fits fits' =
    let (syms, first, result) = vocab_encode_merges-merge_loop v text max some_merge in
    let start =
      first_symbols-Spells (length text) v max text 0 ok plain (omega arith) (omega arith) in
    let spells = Run-Spells v text ok (merge_loop-Run v.merges max syms).0 (rw first start) in
    rw result (
      decode_from-Spells mapped v room (λ o w. decode_piece-mapped v room o w ok.level) 0 _ text
        plain (omega arith) spells)
