-- ===== src/Tokenizer/Merges/Full.antt =====
-- Text that does not fit the output is cut before it is merged.
use yllm.Base.{
  ℕ, zero, suc, ◌+◌, ◌≤◌, ◌<◌, ◌≡◌, ◌≢◌, refl, ap, ◌∙◌, List, [], ◌∷◌, arith, length, take, get_or,
  none, some, All-take, length-take,
}
use yllm.Base.Text.{Bytes}
use yllm.Tokenizer.Decode.Plain.{IsPlain, decode_piece-mapped}
use yllm.Tokenizer.Decode.{vocab_decode}
use yllm.Tokenizer.Merges.Bounds.{first_symbols_fits, vocab_encode_merges-merge_loop}
use yllm.Tokenizer.Merges.Plain.{first_symbols_step}
use yllm.Tokenizer.Merges.RoundTrip.{IsByteLevel, Spells-byte}
use yllm.Tokenizer.Spells.{Spells, decode_from-Spells}
use yllm.Tokenizer.Bytes.RoundTrip.{mapped}
use yllm.Tokenizer.Merges.Run.{merge_loop_full}
use yllm.Tokenizer.Merges.{first_symbols, vocab_encode_merges}
use yllm.Tokenizer.Types.{Vocab}

-- The tokens of the bytes of a text, one for each.
abbrev pub AreBytes : Vocab → Bytes → List ℕ → Type 0
AreBytes v [] [] = Unit
AreBytes v [] (id ∷ ids) = ⊥
AreBytes v (c ∷ t) [] = ⊥
AreBytes v (c ∷ t) (id ∷ ids) = (get_or v.byte_ids c none ≡ some id) × AreBytes v t ids

nil_of_length : (xs : List ℕ) → length xs ≤ 0 → xs ≡ []
nil_of_length [] h = refl
nil_of_length (x ∷ xs) h = absurd (omega arith)

first_symbols_done :
    (fuel : ℕ) (v : Vocab) (max : ℕ) (text : Bytes) → first_symbols fuel v max text max ≡ []
first_symbols_done fuel v max text =
    nil_of_length _ (omega (arith, first_symbols_fits fuel v max text max (omega arith)))

-- The symbols of a text that reaches the limit are those of its first bytes.
first_symbols_cut :
    (fuel : ℕ) (v : Vocab) (max : ℕ) (text : Bytes) (ns left : ℕ)
    → IsByteLevel v
    → IsPlain text
    → length text ≤ fuel
    → ns + left ≡ max
    → left ≤ length text
    → Spells mapped v (first_symbols fuel v max text ns) (take left text)
      × (length (first_symbols fuel v max text ns) ≡ left)
      × AreBytes v (take left text) (first_symbols fuel v max text ns)
first_symbols_cut fuel v max text ns zero ok plain enough room short =
    let e : ns ≡ max = omega arith in rw (e, first_symbols_done fuel v max text) (refl, refl, tt)
first_symbols_cut fuel v max [] ns (suc left) ok plain enough room short = absurd (omega arith)
first_symbols_cut zero v max (c ∷ t) ns (suc left) ok plain enough room short = absurd (omega arith)
first_symbols_cut (suc fuel) v max (c ∷ t) ns (suc left) ok plain enough room short =
    let (id, known, token) = ok.bytes c plain.0.0 in
    let rest =
      first_symbols_cut fuel v max t (ns + 1) left ok plain.1 (omega arith) (omega arith)
        (omega arith) in
    rw (first_symbols_step fuel v max c t ns id plain.0.0 plain.0.1 known (omega arith))
      (Spells-byte v c id (take left t) _ token rest.0, ap suc rest.1, (known, rest.2))

-- Plain text of at least as many bytes as the output has room for gives exactly that many ids: the
-- tokens of its first bytes, one for each, none of them merged, which decode to these bytes.
pub vocab_encode_merges_full :
    (v : Vocab) (text : Bytes) (max room : ℕ)
    → IsByteLevel v
    → v.merges ≢ []
    → IsPlain text
    → max ≤ length text
    → max < room
    → (length (vocab_encode_merges v text max) ≡ max)
      × AreBytes v (take max text) (vocab_encode_merges v text max)
      × (vocab_decode v (vocab_encode_merges v text max) room ≡ take max text)
unfolding vocab_decode
vocab_encode_merges_full v text max room ok some_merge plain long fits =
    let (syms, first, result) = vocab_encode_merges-merge_loop v text max some_merge in
    let cut =
      first_symbols_cut (length text) v max text 0 max ok plain (omega arith) (omega arith) long in
    let size : length syms ≡ max = ap length first ∙ cut.1 in
    let whole = merge_loop_full (length syms) v.merges max syms (omega (arith, size)) in
    rw (result, whole)
      (
        size,
        rw first cut.2,
        decode_from-Spells mapped v room (λ o w. decode_piece-mapped v room o w ok.level) 0 syms
            (take max text) (All-take _ max text plain) (omega (arith, length-take max text))
            (rw first cut.0),
      )
