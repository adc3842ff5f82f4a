-- ===== src/Tokenizer/Sentence/Merging.antt =====
-- The merges by score: each is of a pair that no other pair beats.
use yllm.Base.{
  ℕ, zero, suc, ◌+◌, ◌<◌, ◌≡◌, refl, ◌⊎◌, inl, inr, true, false, Bool, Option, none, some, List, [],
  ◌∷◌, arith, length, Bool-cases,
}
use yllm.Tokenizer.Sentence.{score_merge, BestScore, raise, best_score_from, best_score_pair}
use yllm.Tokenizer.Types.{Vocab}

-- The merge of the symbols at `i` and behind it.
abbrev pub pair_score : Vocab → List ℕ → ℕ → Option (ℕ × ℕ)
pair_score v [] i = none
pair_score v (a ∷ []) i = none
pair_score v (a ∷ b ∷ syms) zero = score_merge v a b
pair_score v (a ∷ b ∷ syms) (suc i) = pair_score v (b ∷ syms) i

pub pair_score-lt :
    (v : Vocab) (syms : List ℕ) (i : ℕ) (m : ℕ × ℕ)
    → pair_score v syms i ≡ some m
    → i + 1 < length syms
pair_score-lt v [] i m h = cc
pair_score-lt v (a ∷ []) i m h = cc
pair_score-lt v (a ∷ b ∷ syms) zero m h = omega arith
pair_score-lt v (a ∷ b ∷ syms) (suc i) m h = omega (arith, pair_score-lt v (b ∷ syms) i m h)

-- The bits of -1e30f, below which no score counts.
abbrev pub lowest : ℕ
lowest = 0xF149F2CA

-- What a comparison of `float`s satisfies.
pub record IsStrict (gt : ℕ → ℕ → Bool) : Type 0 where
  pub irrefl : (x : ℕ) → gt x x ≡ false
  pub trans : (x y z : ℕ) → gt x y ≡ true → gt y z ≡ true → gt x z ≡ true

module _ (gt : ℕ → ℕ → Bool) where
  -- No pair has a score above `s`.
  abbrev pub NoneAbove : Vocab → List ℕ → ℕ → Type 0
  NoneAbove v syms s = (i : ℕ) (m : ℕ × ℕ) → pair_score v syms i ≡ some m → gt m.1 s ≡ false

  -- The pair at `i` merges to `out`, and none has a higher score.
  pub record IsTop (v : Vocab) (syms : List ℕ) (i : ℕ) (m : ℕ × ℕ) : Type 0 where
    pub here : pair_score v syms i ≡ some m
    pub top : NoneAbove v syms m.1

  not_above : (x y z : ℕ) → IsStrict gt → gt x y ≡ true → gt z y ≡ false → gt z x ≡ false
  not_above x y z order high low = elim (Bool-cases (gt z x)) [
    | inl above ↦ cc (order.trans z x y above high, low)
    | inr other ↦ other
  ]

  not_below : (x y : ℕ) → IsStrict gt → gt x y ≡ true → gt y x ≡ false
  not_below x y order high = not_above x y y order high (order.irrefl y)

  NoneAbove-cons :
      (v : Vocab) (a b : ℕ) (syms : List ℕ) (s : ℕ)
      → ((m : ℕ × ℕ) → score_merge v a b ≡ some m → gt m.1 s ≡ false)
      → NoneAbove v (b ∷ syms) s
      → NoneAbove v (a ∷ b ∷ syms) s
  NoneAbove-cons v a b syms s front rest zero m h = front m h
  NoneAbove-cons v a b syms s front rest (suc i) m h = rest i m h

  -- What the loop makes of the best pair so far.
  abbrev IsRaised : Vocab → List ℕ → ℕ → BestScore → BestScore → Type 0
  IsRaised v syms j best r =
      ((r ≡ best) × NoneAbove v syms best.best_score)
      ⊎ ((i : ℕ) × (m : ℕ × ℕ) × (r
            ≡ record { best_i = some (j + i); best_out = m.0; best_score = m.1 })
          × (gt m.1 best.best_score ≡ true)
          × IsTop v syms i m)

  module _ (order : IsStrict gt) (v : Vocab) (a b : ℕ) (syms : List ℕ) (j : ℕ)
      (best r : BestScore) where
    keep_best :
        ((m : ℕ × ℕ) → score_merge v a b ≡ some m → gt m.1 best.best_score ≡ false)
        → IsRaised v (b ∷ syms) (j + 1) best r
        → IsRaised v (a ∷ b ∷ syms) j best r
    keep_best front (inl (same, rest)) =
        inl (same, NoneAbove-cons v a b syms best.best_score front rest)
    keep_best front (inr (i, m, is, high, top)) =
        let e : j + 1 + i ≡ j + suc i = omega arith in
        inr (
          suc i,
          m,
          rw (← e) is,
          high,
          record {
            here = top.here;
            top =
                NoneAbove-cons v a b syms m.1
                  (λ n h. not_above m.1 best.best_score n.1 order high (front n h)) top.top;
          },
        )

    take_front :
        (m : ℕ × ℕ)
        → score_merge v a b ≡ some m
        → gt m.1 best.best_score ≡ true
        → IsRaised v
            (b ∷ syms)
            (j + 1)
            (record { best_i = some j; best_out = m.0; best_score = m.1 })
            r
        → IsRaised v (a ∷ b ∷ syms) j best r
    take_front m found high (inl (same, rest)) =
        let e : j + 0 ≡ j = omega arith in
        inr (
          0,
          m,
          rw e same,
          high,
          record {
            here = found;
            top =
                NoneAbove-cons v a b syms m.1
                  (λ n h. let is : n ≡ m = cc (found, h) in rw is (order.irrefl m.1)) rest;
          },
        )
    take_front m found high (inr (i, k, is, higher, top)) =
        let e : j + 1 + i ≡ j + suc i = omega arith in
        inr (
          suc i,
          k,
          rw (← e) is,
          order.trans k.1 m.1 best.best_score higher high,
          record {
            here = top.here;
            top =
                NoneAbove-cons v a b syms k.1
                  (λ n h.
                    let is' : n ≡ m = cc (found, h) in rw is' (not_below k.1 m.1 order higher))
                  top.top;
          },
        )

    IsRaised-cons :
        (o : Option (ℕ × ℕ))
        → score_merge v a b ≡ o
        → IsRaised v (b ∷ syms) (j + 1) (raise gt j o best) r
        → IsRaised v (a ∷ b ∷ syms) j best r
    IsRaised-cons none found h = keep_best (λ m k. cc (found, k)) h
    IsRaised-cons (some (mid, sc)) found h = elim (Bool-cases (gt sc best.best_score)) [
      | inl better ↦ take_front (mid, sc) found better (rw better at h)
      | inr worse ↦
          keep_best (λ m k. let is : m ≡ (mid, sc) = cc (found, k) in rw is worse) (rw worse at h)
    ]

  best_score_from-IsRaised :
      IsStrict gt
      → (v : Vocab) (j a : ℕ) (syms : List ℕ) (best : BestScore)
      → IsRaised v (a ∷ syms) j best (best_score_from gt v j a syms best)
  unfolding best_score_from
  best_score_from-IsRaised order v j a [] best = inl (refl, λ i m h. cc)
  best_score_from-IsRaised order v j a (b ∷ syms) best =
      IsRaised-cons order v a b syms j best _ (score_merge v a b) refl
        (best_score_from-IsRaised order v (j + 1) b syms (raise gt j (score_merge v a b) best))

  abbrev pub IsBest : Vocab → List ℕ → BestScore → Type 0
  IsBest v syms best =
      ((best.best_i ≡ none) × NoneAbove v syms lowest)
      ⊎ ((i : ℕ) × (m : ℕ × ℕ) × (best.best_i ≡ some i) × (best.best_out ≡ m.0) × IsTop v syms i m)

  IsBest-IsRaised :
      (v : Vocab) (syms : List ℕ) (r : BestScore)
      → IsRaised v syms 0 (record { best_i = none; best_out = 0; best_score = lowest }) r
      → IsBest v syms r
  IsBest-IsRaised v syms r (inl (same, rest)) = inl (rw same refl, rest)
  IsBest-IsRaised v syms r (inr (i, m, is, high, top)) =
      let e : 0 + i ≡ i = omega arith in inr (i, m, rw (is, e) refl, rw is refl, top)

  pub best_score_pair-IsBest :
      IsStrict gt → (v : Vocab) (syms : List ℕ) → IsBest v syms (best_score_pair gt v syms)
  unfolding best_score_pair
  best_score_pair-IsBest order v [] = inl (refl, λ i m h. cc)
  best_score_pair-IsBest order v (a ∷ syms) =
      IsBest-IsRaised v (a ∷ syms) _ (best_score_from-IsRaised order v 0 a syms _)
