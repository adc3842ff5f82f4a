-- ===== src/Tokenizer/Merges/Run.antt =====
-- The loop as a run of merges, each of a pair with the lowest rank.
use yllm.Base.{
  ℕ, zero, suc, ◌+◌, ◌≤◌, ◌<◌, ◌≡◌, refl, ◌⊎◌, inl, inr, false, none, some, List, [], ◌∷◌, arith,
  length, leb, take, drop, Bool-cases, length-append, length-take, length-drop,
}
use yllm.Tokenizer.Types.{Merge}
use yllm.Tokenizer.Merges.{replace_pair, best_pair, merge_loop}
use yllm.Tokenizer.Merges.Lowest.{IsLowest, NoneBelow, pair_merge-lt, best_pair-IsBest}

-- One merge: the first of the pairs with the lowest rank becomes one symbol.
pub data Step (ms : List Merge) : List ℕ → List ℕ → Type 0 where
  merge :
      (syms : List ℕ) (i : ℕ) (m : Merge)
      → IsLowest ms syms i m
      → Step ms syms (replace_pair i m.mid syms)

pub data Run (ms : List Merge) : List ℕ → List ℕ → Type 0 where
  finish : (syms : List ℕ) → Run ms syms syms
  next : {syms syms' end : List ℕ} → Step ms syms syms' → Run ms syms' end → Run ms syms end

pub length-replace_pair :
    (i out : ℕ) (syms : List ℕ)
    → i + 1 < length syms
    → length (replace_pair i out syms) + 1 ≡ length syms
length-replace_pair i out syms inside = omega (
  arith,
  length-append (take i syms) (out ∷ drop (i + 2) syms),
  length-take i syms,
  length-drop (i + 2) syms,
)

-- The loop stops where no pair can be merged, or where the output is full.
abbrev pub IsHalted : List Merge → ℕ → List ℕ → Type 0
IsHalted ms max syms = NoneBelow ms syms 0xFFFFFFFF ⊎ (max ≤ length syms)

IsHalted-empty :
    (ms : List Merge) (max : ℕ) (syms : List ℕ) → length syms ≤ 0 → IsHalted ms max syms
IsHalted-empty ms max [] h = inl (λ j n k. cc)
IsHalted-empty ms max (a ∷ syms) h = absurd (omega arith)

module _ (fuel : ℕ) (ms : List Merge) (max : ℕ) (syms : List ℕ) where
  loop_halted : (best_pair ms syms).best_i ≡ none → merge_loop (suc fuel) ms max syms ≡ syms
  unfolding merge_loop
  loop_halted no_pair = rw (no_pair, merge_loop) refl

  loop_full :
      (i : ℕ)
      → (best_pair ms syms).best_i ≡ some i
      → max ≤ length syms
      → merge_loop (suc fuel) ms max syms ≡ syms
  unfolding merge_loop
  loop_full i at full = rw (at, merge_loop) (ground (arith, full))

  loop_merges :
      (i : ℕ) (m : Merge)
      → (best_pair ms syms).best_i ≡ some i
      → (best_pair ms syms).best_out ≡ m.mid
      → length syms < max
      → merge_loop (suc fuel) ms max syms ≡ merge_loop fuel ms max (replace_pair i m.mid syms)
  unfolding merge_loop
  loop_merges i m at out space =
      let more : leb max (length syms) ≡ false = ground (arith, space) in
      rw (at, merge_loop, more, out) refl

loop-Run :
    (fuel : ℕ) (ms : List Merge) (max : ℕ) (syms : List ℕ)
    → length syms ≤ fuel
    → Run ms syms (merge_loop fuel ms max syms) × IsHalted ms max (merge_loop fuel ms max syms)
loop-Run zero ms max syms enough =
    unfold merge_loop in (finish syms, IsHalted-empty ms max syms enough)
loop-Run (suc fuel) ms max syms enough = elim (best_pair-IsBest ms syms) [
  | inl (no_pair, rest) ↦ rw (loop_halted fuel ms max syms no_pair) (finish syms, inl rest)
  | inr (i, m, at, out, low) ↦ elim (Bool-cases (leb max (length syms))) [
    | inl full ↦
        let le : max ≤ length syms = ground (arith, full) in
        rw (loop_full fuel ms max syms i at le) (finish syms, inr le)
    | inr space ↦
        let shorter = length-replace_pair i m.mid syms (pair_merge-lt ms syms i m low.here) in
        let rest = loop-Run fuel ms max (replace_pair i m.mid syms) (omega (arith, shorter)) in
        rw (loop_merges fuel ms max syms i m at out (ground (arith, space)))
          (next (merge syms i m low) rest.0, rest.1)
  ]
]

-- The loop returns after at most one round for each symbol: it makes merges, each of the first
-- of the pairs with the lowest rank, until no pair can be merged or the output is full.
pub merge_loop-Run :
    (ms : List Merge) (max : ℕ) (syms : List ℕ)
    → Run ms syms (merge_loop (length syms) ms max syms)
      × IsHalted ms max (merge_loop (length syms) ms max syms)
merge_loop-Run ms max syms = loop-Run (length syms) ms max syms (omega arith)

-- A full output is not merged.
pub merge_loop_full :
    (fuel : ℕ) (ms : List Merge) (max : ℕ) (syms : List ℕ)
    → max ≤ length syms
    → merge_loop fuel ms max syms ≡ syms
merge_loop_full zero ms max syms full = unfold merge_loop in refl
merge_loop_full (suc fuel) ms max syms full = elim (best_pair-IsBest ms syms) [
  | inl (no_pair, rest) ↦ loop_halted fuel ms max syms no_pair
  | inr (i, m, at, out, low) ↦ loop_full fuel ms max syms i at full
]
