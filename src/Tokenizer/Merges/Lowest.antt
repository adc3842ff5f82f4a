-- ===== src/Tokenizer/Merges/Lowest.antt =====
-- The search for the pair to merge next.
use yllm.Base.{
  ℕ, zero, suc, ◌+◌, ◌≤◌, ◌<◌, ◌≡◌, refl, ◌⊎◌, inl, inr, Option, none, some, List, [], ◌∷◌, arith,
  length, ltb, Bool-cases,
}
use yllm.Tokenizer.Types.{Merge}
use yllm.Tokenizer.Merges.{find_merge, Best, improve, no_best, best_from, best_pair}

-- The merge of the symbols at `i` and behind it.
abbrev pub pair_merge : List Merge → List ℕ → ℕ → Option Merge
pair_merge ms [] i = none
pair_merge ms (a ∷ []) i = none
pair_merge ms (a ∷ b ∷ syms) zero = find_merge ms a b
pair_merge ms (a ∷ b ∷ syms) (suc i) = pair_merge ms (b ∷ syms) i

pub pair_merge-lt :
    (ms : List Merge) (syms : List ℕ) (i : ℕ) (m : Merge)
    → pair_merge ms syms i ≡ some m
    → i + 1 < length syms
pair_merge-lt ms [] i m h = cc
pair_merge-lt ms (a ∷ []) i m h = cc
pair_merge-lt ms (a ∷ b ∷ syms) zero m h = omega arith
pair_merge-lt ms (a ∷ b ∷ syms) (suc i) m h = omega (arith, pair_merge-lt ms (b ∷ syms) i m h)

-- The first of the pairs with the lowest rank.
pub record IsLowest (ms : List Merge) (syms : List ℕ) (i : ℕ) (m : Merge) : Type 0 where
  pub here : pair_merge ms syms i ≡ some m
  pub least : (j : ℕ) (n : Merge) → pair_merge ms syms j ≡ some n → m.mrank ≤ n.mrank
  pub first : (j : ℕ) (n : Merge) → pair_merge ms syms j ≡ some n → j < i → m.mrank < n.mrank

-- No pair has a rank below `rank`.
abbrev pub NoneBelow : List Merge → List ℕ → ℕ → Type 0
NoneBelow ms syms rank = (j : ℕ) (n : Merge) → pair_merge ms syms j ≡ some n → rank ≤ n.mrank

-- What the loop makes of the best pair so far.
abbrev IsImproved : List Merge → List ℕ → ℕ → Best → Best → Type 0
IsImproved ms syms j best r =
    ((r ≡ best) × NoneBelow ms syms best.best_rank)
    ⊎ ((i : ℕ) × (m : Merge) × (r
          ≡ record { best_i = some (j + i); best_out = m.mid; best_rank = m.mrank })
        × (m.mrank < best.best_rank)
        × IsLowest ms syms i m)

NoneBelow-cons :
    (ms : List Merge) (a b : ℕ) (syms : List ℕ) (rank : ℕ)
    → ((n : Merge) → find_merge ms a b ≡ some n → rank ≤ n.mrank)
    → NoneBelow ms (b ∷ syms) rank
    → NoneBelow ms (a ∷ b ∷ syms) rank
NoneBelow-cons ms a b syms rank here rest zero n h = here n h
NoneBelow-cons ms a b syms rank here rest (suc j) n h = rest j n h

IsLowest-cons :
    (ms : List Merge) (a b : ℕ) (syms : List ℕ) (i : ℕ) (m : Merge)
    → ((n : Merge) → find_merge ms a b ≡ some n → m.mrank < n.mrank)
    → IsLowest ms (b ∷ syms) i m
    → IsLowest ms (a ∷ b ∷ syms) (suc i) m
IsLowest-cons ms a b syms i m above low = record {
  here = low.here;
  least = NoneBelow-cons ms a b syms m.mrank (λ n h. omega (arith, above n h)) low.least;
  first = before;
}
  where
    before :
        (j : ℕ) (n : Merge)
        → pair_merge ms (a ∷ b ∷ syms) j ≡ some n
        → j < suc i
        → m.mrank < n.mrank
    before zero n h less = above n h
    before (suc j) n h less = low.first j n h (omega arith)

IsLowest-here :
    (ms : List Merge) (a b : ℕ) (syms : List ℕ) (m : Merge)
    → find_merge ms a b ≡ some m
    → NoneBelow ms (b ∷ syms) m.mrank
    → IsLowest ms (a ∷ b ∷ syms) zero m
IsLowest-here ms a b syms m found rest = record {
  here = found;
  least = NoneBelow-cons ms a b syms m.mrank (λ n h. le_of_same n h) rest;
  first = λ j n h less. absurd (omega arith);
}
  where
    le_of_same : (n : Merge) → find_merge ms a b ≡ some n → m.mrank ≤ n.mrank
    le_of_same n h = let same : m ≡ n = cc (found, h) in rw same (omega arith)

-- The pair in front changes nothing, or it becomes the best.
module _ (ms : List Merge) (a b : ℕ) (syms : List ℕ) (j : ℕ) (best r : Best) where
  keep_best :
      ((n : Merge) → find_merge ms a b ≡ some n → best.best_rank ≤ n.mrank)
      → IsImproved ms (b ∷ syms) (j + 1) best r
      → IsImproved ms (a ∷ b ∷ syms) j best r
  keep_best above (inl (same, rest)) =
      inl (same, NoneBelow-cons ms a b syms best.best_rank above rest)
  keep_best above (inr (i, m, is, less, low)) =
      let e : j + 1 + i ≡ j + suc i = omega arith in
      inr (
        suc i,
        m,
        rw (← e) is,
        less,
        IsLowest-cons ms a b syms i m (λ n h. omega (arith, above n h)) low,
      )

  take_front :
      (m : Merge)
      → find_merge ms a b ≡ some m
      → m.mrank < best.best_rank
      → IsImproved ms
          (b ∷ syms)
          (j + 1)
          (record { best_i = some j; best_out = m.mid; best_rank = m.mrank })
          r
      → IsImproved ms (a ∷ b ∷ syms) j best r
  take_front m found less (inl (same, rest)) =
      let e : j + 0 ≡ j = omega arith in
      inr (0, m, rw e same, less, IsLowest-here ms a b syms m found rest)
  take_front m found less (inr (i, n, is, lower, low)) =
      let e : j + 1 + i ≡ j + suc i = omega arith in
      inr (
        suc i,
        n,
        rw (← e) is,
        omega arith,
        IsLowest-cons ms a b syms i n (λ k h. lt_of_same n k lower h) low,
      )
    where
      lt_of_same :
          (n k : Merge) → n.mrank < m.mrank → find_merge ms a b ≡ some k → n.mrank < k.mrank
      lt_of_same n k lower h = let same : m ≡ k = cc (found, h) in rw (← same) lower

  IsImproved-cons :
      (o : Option Merge)
      → find_merge ms a b ≡ o
      → IsImproved ms (b ∷ syms) (j + 1) (improve j o best) r
      → IsImproved ms (a ∷ b ∷ syms) j best r
  IsImproved-cons none found h = keep_best (λ n k. cc (found, k)) h
  IsImproved-cons (some m) found h = elim (Bool-cases (ltb m.mrank best.best_rank)) [
    | inl better ↦ take_front m found (ground (arith, better)) (rw better at h)
    | inr worse ↦ keep_best (λ n k. ge_of_same n k (ground (arith, worse))) (rw worse at h)
  ]
    where
      ge_of_same :
          (n : Merge)
          → find_merge ms a b ≡ some n
          → best.best_rank ≤ m.mrank
          → best.best_rank ≤ n.mrank
      ge_of_same n k le = let same : m ≡ n = cc (found, k) in rw (← same) le

best_from-IsImproved :
    (ms : List Merge) (j a : ℕ) (syms : List ℕ) (best : Best)
    → IsImproved ms (a ∷ syms) j best (best_from ms j a syms best)
unfolding best_from
best_from-IsImproved ms j a [] best = inl (refl, λ i n h. cc)
best_from-IsImproved ms j a (b ∷ syms) best =
    IsImproved-cons ms a b syms j best _ (find_merge ms a b) refl
      (best_from-IsImproved ms (j + 1) b syms (improve j (find_merge ms a b) best))

-- What the search for the best pair tells.
abbrev pub IsBest : List Merge → List ℕ → Best → Type 0
IsBest ms syms best =
    ((best.best_i ≡ none) × NoneBelow ms syms 0xFFFFFFFF)
    ⊎ ((i : ℕ) × (m : Merge) × (best.best_i ≡ some i)
        × (best.best_out ≡ m.mid)
        × IsLowest ms syms i m)

IsBest-IsImproved :
    (ms : List Merge) (syms : List ℕ) (r : Best) → IsImproved ms syms 0 no_best r → IsBest ms syms r
IsBest-IsImproved ms syms r (inl (same, rest)) = inl (rw same, rest)
IsBest-IsImproved ms syms r (inr (i, m, is, less, low)) =
    let e : 0 + i ≡ i = omega arith in inr (i, m, rw (is, e), rw is, low)

pub best_pair-IsBest : (ms : List Merge) (syms : List ℕ) → IsBest ms syms (best_pair ms syms)
unfolding best_pair
best_pair-IsBest ms [] = inl (refl, λ j n h. cc)
best_pair-IsBest ms (a ∷ syms) =
    IsBest-IsImproved ms (a ∷ syms) _ (best_from-IsImproved ms 0 a syms no_best)
