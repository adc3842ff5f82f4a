-- ===== src/Tokenizer/Sentence/Run.antt =====
-- The loop over the scores as a run of merges.
use yllm.Base.{
  ℕ, zero, suc, ◌≤◌, ◌<◌, ◌≡◌, refl, ◌⊎◌, inl, inr, false, Bool, none, some, List, [], ◌∷◌, arith,
  length, leb, Bool-cases,
}
use yllm.Tokenizer.Merges.Run.{length-replace_pair}
use yllm.Tokenizer.Merges.{replace_pair}
use yllm.Tokenizer.Sentence.Merging.{
  pair_score-lt, lowest, IsStrict, NoneAbove, IsTop, best_score_pair-IsBest,
}
use yllm.Tokenizer.Sentence.{best_score_pair, score_loop}
use yllm.Tokenizer.Types.{Vocab}

module _ (gt : ℕ → ℕ → Bool) where
  -- One merge, of a pair with the highest score.
  pub data ScoreStep (v : Vocab) : List ℕ → List ℕ → Type 0 where
    merge :
        (syms : List ℕ) (i : ℕ) (m : ℕ × ℕ)
        → IsTop gt v syms i m
        → ScoreStep v syms (replace_pair i m.0 syms)

  pub data ScoreRun (v : Vocab) : List ℕ → List ℕ → Type 0 where
    finish : (syms : List ℕ) → ScoreRun v syms syms
    next :
        {syms syms' end : List ℕ}
        → ScoreStep v syms syms'
        → ScoreRun v syms' end
        → ScoreRun v syms end

  -- The loop stops where no pair has a score above the lowest, or where the output is full.
  abbrev pub IsScored : Vocab → ℕ → List ℕ → Type 0
  IsScored v max syms = NoneAbove gt v syms lowest ⊎ (max ≤ length syms)

  IsScored-empty : (v : Vocab) (max : ℕ) (syms : List ℕ) → length syms ≤ 0 → IsScored v max syms
  IsScored-empty v max [] h = inl (λ i m k. cc)
  IsScored-empty v max (a ∷ syms) h = absurd (omega arith)

  module _ (fuel : ℕ) (v : Vocab) (max : ℕ) (syms : List ℕ) where
    loop_halted :
        (best_score_pair gt v syms).best_i ≡ none → score_loop gt (suc fuel) v max syms ≡ syms
    unfolding score_loop
    loop_halted no_pair = rw (no_pair, score_loop) refl

    loop_full :
        (i : ℕ)
        → (best_score_pair gt v syms).best_i ≡ some i
        → max ≤ length syms
        → score_loop gt (suc fuel) v max syms ≡ syms
    unfolding score_loop
    loop_full i at full = rw (at, score_loop) (ground (arith, full))

    loop_merges :
        (i : ℕ) (m : ℕ × ℕ)
        → (best_score_pair gt v syms).best_i ≡ some i
        → (best_score_pair gt v syms).best_out ≡ m.0
        → length syms < max
        → score_loop gt (suc fuel) v max syms ≡ score_loop gt fuel v max (replace_pair i m.0 syms)
    unfolding score_loop
    loop_merges i m at out space =
        let more : leb max (length syms) ≡ false = ground (arith, space) in
        rw (at, score_loop, more, out) refl

  loop-ScoreRun :
      IsStrict gt
      → (fuel : ℕ) (v : Vocab) (max : ℕ) (syms : List ℕ) → length syms ≤ fuel
      → ScoreRun v syms (score_loop gt fuel v max syms)
        × IsScored v max (score_loop gt fuel v max syms)
  loop-ScoreRun order zero v max syms enough =
      unfold score_loop in (finish syms, IsScored-empty v max syms enough)
  loop-ScoreRun order (suc fuel) v max syms enough = elim (best_score_pair-IsBest gt order v syms) [
    | inl (no_pair, rest) ↦ rw (loop_halted fuel v max syms no_pair) (finish syms, inl rest)
    | inr (i, m, at, out, top) ↦ elim (Bool-cases (leb max (length syms))) [
      | inl full ↦
          let le : max ≤ length syms = ground (arith, full) in
          rw (loop_full fuel v max syms i at le) (finish syms, inr le)
      | inr space ↦
          let shorter = length-replace_pair i m.0 syms (pair_score-lt v syms i m top.here) in
          let rest =
            loop-ScoreRun order fuel v max (replace_pair i m.0 syms) (omega (arith, shorter)) in
          rw (loop_merges fuel v max syms i m at out (ground (arith, space)))
            (next (merge syms i m top) rest.0, rest.1)
    ]
  ]

  -- For a comparison that is irreflexive and transitive, as that of floats is, the loop returns
  -- after at most one round for each symbol: it makes merges, each of a pair that no other pair
  -- beats, until no pair has a score above -1e30 or the output is full.
  pub score_loop-ScoreRun :
      IsStrict gt
      → (v : Vocab) (max : ℕ) (syms : List ℕ)
      → ScoreRun v syms (score_loop gt (length syms) v max syms)
        × IsScored v max (score_loop gt (length syms) v max syms)
  score_loop-ScoreRun order v max syms = loop-ScoreRun order (length syms) v max syms (omega arith)

  pub ScoreRun-shortens :
      (v : Vocab) {syms end : List ℕ} → ScoreRun v syms end → length end ≤ length syms
  ScoreRun-shortens v (finish syms) = omega arith
  ScoreRun-shortens v (next (merge syms i m top) run) = omega (
    arith,
    ScoreRun-shortens v run,
    length-replace_pair i m.0 syms (pair_score-lt v syms i m top.here),
  )
