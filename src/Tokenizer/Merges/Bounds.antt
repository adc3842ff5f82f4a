-- ===== src/Tokenizer/Merges/Bounds.antt =====
-- The encoder keeps to its buffers.
use yllm.Base.{
  ℕ, zero, suc, ◌+◌, ◌≤◌, ◌<◌, ◌≡◌, refl, false, Option, none, some, List, [], ◌∷◌, arith, length,
  drop, subst, take_of_length-le, ◌≢◌, ◌==◌, Option-cases, inl, inr, length-drop, length-take,
}
use yllm.Base.Text.{Bytes}
use yllm.Tokenizer.Merges.{
  next_symbol, emit, first_symbols, char_token, char_len, merge_loop, vocab_encode_merges,
}
use yllm.Tokenizer.Merges.Lowest.{pair_merge-lt}
use yllm.Tokenizer.Merges.Run.{merge, Run, finish, next, merge_loop-Run, length-replace_pair}
use yllm.Tokenizer.Specials.{k_qwen_specials, special_len_from, special_len, special_token_id}
use yllm.Tokenizer.Types.{Merge, Vocab}

-- A length that was looked up is not zero.
abbrev or_one : Option ℕ → ℕ
or_one none = 1
or_one (some n) = n

special_len_from_pos :
    (v : Vocab) (text : Bytes) (sid : ℕ) (names : List Bytes) (sp : Option ℕ) (nsp : ℕ)
    → 0 < or_one sp
    → 0 < or_one (special_len_from v text sid names sp nsp)
unfolding special_len_from
special_len_from_pos v text sid [] sp nsp h = h
special_len_from_pos v text sid (name ∷ names) sp nsp h = ground (
  arith,
  special_len_from_pos v text sid names sp nsp h,
  special_len_from_pos v text sid names (some (length name)) (length name),
)

special_len_pos : (v : Vocab) (text : Bytes) (sid n : ℕ) → special_len v text sid ≡ some n → 0 < n
unfolding special_len
special_len_pos v text sid n h =
    subst (λ o. 0 < or_one o) h
      (special_len_from_pos v text sid k_qwen_specials none 0 (omega arith))

char_token_pos :
    (v : Vocab) (c id : ℕ) (text : Bytes) → char_token v c text ≡ some id → 0 < char_len c text
unfolding char_token
char_token_pos v c id text h = ground (arith, h)

-- Each round takes a byte at least.
pub next_symbol_pos : (v : Vocab) (c : ℕ) (t : Bytes) → 0 < (next_symbol v c t).1
unfolding next_symbol
next_symbol_pos v c t = elim (Option-cases (special_token_id v (c ∷ t))) [
  | inl no_special ↦ elim (Option-cases (char_token v c (c ∷ t))) [
    | inl no_char ↦ ground (arith, no_special, no_char)
    | inr (id, char) ↦ ground (arith, no_special, char, char_token_pos v c id (c ∷ t) char)
  ]
  | inr (sid, special) ↦ elim (Option-cases (special_len v (c ∷ t) sid)) [
    | inl no_len ↦ ground (arith, special, no_len)
    | inr (n, len) ↦ ground (arith, special, len, special_len_pos v (c ∷ t) sid n len)
  ]
]

module _ (max ns : ℕ) (id : Option ℕ) (step : ℕ → List ℕ) where
  emit-le :
      (bound : ℕ) → ((n : ℕ) → length (step n) ≤ bound) → length (emit max ns id step) ≤ suc bound
  emit-le bound h = short id
    where
      short : (id : Option ℕ) → length (emit max ns id step) ≤ suc bound
      short none = omega (arith, h ns)
      short (some id) = ground (arith, h ns, h (ns + 1))

  emit_fits :
      ns ≤ max
      → ((n : ℕ) → n ≤ max → length (step n) + n ≤ max)
      → length (emit max ns id step) + ns ≤ max
  emit_fits room h = short id
    where
      short : (id : Option ℕ) → length (emit max ns id step) + ns ≤ max
      short none = h ns room
      short (some id) = ground (arith, h ns room, h (ns + 1))

  emit-congr :
      (step' : ℕ → List ℕ)
      → ((n : ℕ) → step n ≡ step' n)
      → emit max ns id step ≡ emit max ns id step'
  emit-congr step' same = short id
    where
      short : (id : Option ℕ) → emit max ns id step ≡ emit max ns id step'
      short none = same ns
      short (some id) = ground (arith, same ns, same (ns + 1))

length-rest :
    (v : Vocab) (c : ℕ) (t : Bytes) → length (drop (next_symbol v c t).1 (c ∷ t)) ≤ length t
length-rest v c t = omega (arith, length-drop (next_symbol v c t).1 (c ∷ t), next_symbol_pos v c t)

-- The fuel is enough: any two amounts that reach the length of the text give the same symbols.
pub first_symbols_fuel :
    (f g : ℕ) (v : Vocab) (max : ℕ) (text : Bytes) (ns : ℕ)
    → length text ≤ f
    → length text ≤ g
    → first_symbols f v max text ns ≡ first_symbols g v max text ns
unfolding first_symbols
first_symbols_fuel zero zero v max [] ns hf hg = refl
first_symbols_fuel zero (suc g) v max [] ns hf hg = refl
first_symbols_fuel (suc f) zero v max [] ns hf hg = refl
first_symbols_fuel (suc f) (suc g) v max [] ns hf hg = refl
first_symbols_fuel zero g v max (c ∷ t) ns hf hg = absurd (omega arith)
first_symbols_fuel (suc f) zero v max (c ∷ t) ns hf hg = absurd (omega arith)
first_symbols_fuel (suc f) (suc g) v max (c ∷ t) ns hf hg =
    let short = length-rest v c t in
    emit-congr max ns (next_symbol v c t).0
      (first_symbols f v max (drop (next_symbol v c t).1 (c ∷ t)))
      (first_symbols g v max (drop (next_symbol v c t).1 (c ∷ t)))
      (λ n.
        first_symbols_fuel f g v max (drop (next_symbol v c t).1 (c ∷ t)) n (omega (arith, short))
          (omega (arith, short)))

first_symbols-le :
    (fuel : ℕ) (v : Vocab) (max : ℕ) (text : Bytes) (ns : ℕ)
    → length (first_symbols fuel v max text ns) ≤ length text
unfolding first_symbols
first_symbols-le zero v max text ns = omega arith
first_symbols-le (suc fuel) v max [] ns = omega arith
first_symbols-le (suc fuel) v max (c ∷ t) ns =
    emit-le max ns (next_symbol v c t).0
      (first_symbols fuel v max (drop (next_symbol v c t).1 (c ∷ t))) (length t)
      (λ n. omega (
        arith,
        first_symbols-le fuel v max (drop (next_symbol v c t).1 (c ∷ t)) n,
        length-rest v c t,
      ))

pub first_symbols_fits :
    (fuel : ℕ) (v : Vocab) (max : ℕ) (text : Bytes) (ns : ℕ)
    → ns ≤ max
    → length (first_symbols fuel v max text ns) + ns ≤ max
unfolding first_symbols
first_symbols_fits zero v max text ns room = omega arith
first_symbols_fits (suc fuel) v max [] ns room = omega arith
first_symbols_fits (suc fuel) v max (c ∷ t) ns room =
    emit_fits max ns (next_symbol v c t).0
      (first_symbols fuel v max (drop (next_symbol v c t).1 (c ∷ t))) room
      (λ n h. first_symbols_fits fuel v max (drop (next_symbol v c t).1 (c ∷ t)) n h)

Run-shortens : (ms : List Merge) {syms end : List ℕ} → Run ms syms end → length end ≤ length syms
Run-shortens ms (finish syms) = omega arith
Run-shortens ms (next (merge syms i m low) run) = omega (
  arith,
  Run-shortens ms run,
  length-replace_pair i m.mid syms (pair_merge-lt ms syms i m low.here),
)

-- With some merges the encoder gives what the second loop makes of the symbols of the first.
pub vocab_encode_merges-merge_loop :
    (v : Vocab) (text : Bytes) (max : ℕ)
    → v.merges ≢ []
    → (syms : List ℕ) × (syms ≡ first_symbols (length text) v max text 0)
      × (vocab_encode_merges v text max ≡ merge_loop (length syms) v.merges max syms)
unfolding vocab_encode_merges
vocab_encode_merges-merge_loop v text max some_merge =
    let syms = first_symbols (length text) v max text 0 in
    let run = merge_loop-Run v.merges max syms in
    let fits = first_symbols_fits (length text) v max text 0 (omega arith) in
    let all =
      take_of_length-le max (merge_loop (length syms) v.merges max syms)
        (omega (arith, fits, Run-shortens v.merges run.0)) in
    (syms, refl, rw (has_merge v.merges some_merge, all) refl)
  where
    has_merge : (ms : List Merge) → ms ≢ [] → (length ms == 0) ≡ false
    has_merge [] ne = absurd (ne refl)
    has_merge (m ∷ ms) ne = ground arith

encode_short :
    (v : Vocab) (text : Bytes) (max : ℕ)
    → (length (vocab_encode_merges v text max) ≤ length (first_symbols (length text) v max text 0))
      × (length (vocab_encode_merges v text max) ≤ max)
unfolding vocab_encode_merges
encode_short v text max =
    let syms = first_symbols (length text) v max text 0 in
    let run = merge_loop-Run v.merges max syms in
    let cut = length-take max (merge_loop (length syms) v.merges max syms) in
    let less = Run-shortens v.merges run.0 in (ground (arith, cut, less), ground (arith, cut))

-- The encoder's loops return, the first one writes no more symbols than the text has bytes, the
-- buffer's capacity being more than twice as large, and the second one adds none; no more than
-- `max` ids are returned.
pub vocab_encode_merges_bounds :
    (v : Vocab) (text : Bytes) (max extra : ℕ)
    → (first_symbols (length text + extra) v max text 0 ≡ first_symbols (length text) v max text 0)
      × (length (first_symbols (length text) v max text 0) ≤ length text)
      × (length (vocab_encode_merges v text max)
          ≤ length (first_symbols (length text) v max text 0))
      × (length (vocab_encode_merges v text max) ≤ max)
vocab_encode_merges_bounds v text max extra = (
  first_symbols_fuel (length text + extra) (length text) v max text 0 (omega arith) (omega arith),
  first_symbols-le (length text) v max text 0,
  (encode_short v text max).0,
  (encode_short v text max).1,
)
