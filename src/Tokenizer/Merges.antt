-- ===== src/Tokenizer/Merges.antt =====
-- The byte-pair encoder by merge ranks: `vocab_encode_merges` of inference/core/tokenizer.c.
pub mod Table
pub mod Lowest
pub mod Run
pub mod Plain
pub mod Bounds
pub mod RoundTrip
pub mod Full
pub mod Latin
use yllm.Base.{
  ℕ, zero, suc, ◌+◌, ◌/◌, Bool, ◌&&◌, ◌||◌, Option, none, some, List, [], ◌∷◌, ◌++◌, ◌==◌, ltb, leb,
  if◌then◌else◌, length, get_or, get_elem?, take, drop, min,
}
use yllm.Base.Text.{Bytes}
use yllm.Tokenizer.Bytes.{utf8_clen}
use yllm.Tokenizer.Lookup.{vocab_bsearch_sorted}
use yllm.Tokenizer.Specials.{special_token_id, special_len}
use yllm.Tokenizer.Types.{Merge, Vocab}

-- `if (ns < (uint32_t)max) syms[ns++] = id;` where there is an id, and what the loop does next.
abbrev pub emit : ℕ → ℕ → Option ℕ → (ℕ → List ℕ) → List ℕ
emit max ns none next = next ns
emit max ns (some id) next = if ltb ns max then id ∷ next (ns + 1) else next ns

-- The symbol of a single byte: its token, the unknown token, or none.
unfoldable pub byte_symbol : Vocab → ℕ → Option ℕ
byte_symbol v c = elim (get_or v.byte_ids c none) [ some id ↦ some id | none ↦ v.unk ]

-- `clen`
unfoldable pub char_len : ℕ → Bytes → ℕ
unfolding utf8_clen
char_len c text = min (utf8_clen c) (length text)

-- The token of a whole character of several bytes.
unfoldable pub char_token : Vocab → ℕ → Bytes → Option ℕ
unfolding char_len
char_token v c text =
    if ltb 1 (char_len c text) then vocab_bsearch_sorted v (take (char_len c text) text) else none

-- One round of the first loop: the symbol to write, if any, and the bytes that it takes.
unfoldable pub next_symbol : Vocab → ℕ → Bytes → Option ℕ × ℕ
next_symbol v c t =
    let text = c ∷ t in
    let by_char : Option ℕ × ℕ = elim (char_token v c text) [
      | some id ↦ (some id, char_len c text)
      | none ↦ (byte_symbol v c, 1)
    ] in
    elim (special_token_id v text) [
      | some sid ↦ elim (special_len v text sid) [ some nsp ↦ (some sid, nsp) | none ↦ (none, 1) ]
      | none ↦ by_char
    ]

-- The first loop, from `text + i` on, with `ns` symbols written.
unfoldable pub first_symbols : ℕ → Vocab → ℕ → Bytes → ℕ → List ℕ
first_symbols zero v max text ns = []
first_symbols (suc fuel) v max [] ns = []
first_symbols (suc fuel) v max (c ∷ t) ns =
    let (id, taken) = next_symbol v c t in
    emit max ns id (first_symbols fuel v max (drop taken (c ∷ t)))

-- `v->ml[mid] < a || (v->ml[mid] == a && v->mr[mid] < b)`
abbrev pub is_before : Merge → ℕ → ℕ → Bool
is_before m a b = ltb m.ml a || (m.ml == a && ltb m.mr b)

abbrev pub no_merge : Merge
no_merge = record { ml = 0; mr = 0; mid = 0; mrank = 0 }

unfoldable pub lower_bound : ℕ → List Merge → ℕ → ℕ → ℕ → ℕ → ℕ
lower_bound zero ms a b lo hi = lo
lower_bound (suc fuel) ms a b lo hi =
    let mid = (lo + hi) / 2 in
    let right = lower_bound fuel ms a b (mid + 1) hi in
    let left = lower_bound fuel ms a b lo mid in
    let half = if is_before (get_or ms mid no_merge) a b then right else left in
    if ltb lo hi then half else lo

-- The merge at a place of the table, if it is there and one of `a` and `b`.
abbrev pub merge_at : List Merge → ℕ → ℕ → ℕ → Option Merge
merge_at ms a b lo = elim (get_elem? ms lo) [
  | some m ↦ if m.ml == a && m.mr == b then some m else none
  | none ↦ none
]

unfoldable pub find_merge : List Merge → ℕ → ℕ → Option Merge
unfolding lower_bound
find_merge ms a b = merge_at ms a b (lower_bound (suc (length ms)) ms a b 0 (length ms))

-- `best_i`, `best_out` and `best_rank`.
pub record Best : Type 0 where
  pub best_i : Option ℕ
  pub best_out : ℕ
  pub best_rank : ℕ

abbrev pub improve : ℕ → Option Merge → Best → Best
improve j none best = best
improve j (some m) best =
    if ltb m.mrank best.best_rank
    then record { best_i = some j; best_out = m.mid; best_rank = m.mrank }
    else best

-- The loop over the pairs from `j` on, whose first symbol is `a`.
unfoldable pub best_from : List Merge → ℕ → ℕ → List ℕ → Best → Best
best_from ms j a [] best = best
best_from ms j a (b ∷ syms) best = best_from ms (j + 1) b syms (improve j (find_merge ms a b) best)

abbrev pub no_best : Best
no_best = record { best_i = none; best_out = 0; best_rank = 0xFFFFFFFF }

unfoldable pub best_pair : List Merge → List ℕ → Best
unfolding best_from
best_pair ms [] = no_best
best_pair ms (a ∷ syms) = best_from ms 0 a syms no_best

-- `syms[i] = out`, and the move of what stands behind the next symbol.
abbrev pub replace_pair : ℕ → ℕ → List ℕ → List ℕ
replace_pair i out syms = take i syms ++ out ∷ drop (i + 2) syms

unfoldable pub merge_loop : ℕ → List Merge → ℕ → List ℕ → List ℕ
merge_loop zero ms max syms = syms
merge_loop (suc fuel) ms max syms = elim ((best_pair ms syms).best_i) [
  | none ↦ syms
  | some i ↦
      let rest = merge_loop fuel ms max (replace_pair i (best_pair ms syms).best_out syms) in
      if leb max (length syms) then syms else rest
]

unfoldable pub vocab_encode_merges : Vocab → Bytes → ℕ → List ℕ
vocab_encode_merges v text max =
    let syms = first_symbols (length text) v max text 0 in
    if length v.merges == 0 then [] else take max (merge_loop (length syms) v.merges max syms)
