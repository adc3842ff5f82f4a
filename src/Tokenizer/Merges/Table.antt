-- ===== src/Tokenizer/Merges/Table.antt =====
-- The search for the merge of two symbols.
use yllm.Base.{
  ℕ, zero, suc, ◌+◌, ◌/◌, ◌≤◌, ◌<◌, ◌≡◌, true, false, Option, none, some, List, [], ◌∷◌, arith,
  length, get_elem?, get_or, ltb, Bool-cases, inl, inr, lt-length_of_some, get_elem?_total, ◌&&◌,
  ◌==◌, if◌then◌else◌,
}
use yllm.Tokenizer.Types.{Merge}
use yllm.Tokenizer.Merges.{is_before, no_merge, lower_bound, merge_at, find_merge}

-- The table is in the order of the pairs, and has no pair twice.
abbrev pub IsRanked : List Merge → Type 0
IsRanked ms =
    (i j : ℕ) (m n : Merge)
    → i < j
    → get_elem? ms i ≡ some m
    → get_elem? ms j ≡ some n
    → is_before m n.ml n.mr ≡ true

get_or-some :
    (ms : List Merge) (i : ℕ) (m : Merge) → get_elem? ms i ≡ some m → get_or ms i no_merge ≡ m
get_or-some [] i m at = cc
get_or-some (x ∷ ms) zero m at = cc
get_or-some (x ∷ ms) (suc i) m at = get_or-some ms i m at

is_before_asym : (m n : Merge) → is_before m n.ml n.mr ≡ true → is_before n m.ml m.mr ≡ false
is_before_asym m n h = ground (arith, h)

is_before_irrefl : (m : Merge) → is_before m m.ml m.mr ≡ false
is_before_irrefl m = ground arith

module _ (ms : List Merge) (ranked : IsRanked ms) (i : ℕ) (m : Merge)
    (at : get_elem? ms i ≡ some m) where
  before_left : (k : ℕ) → k < i → is_before (get_or ms k no_merge) m.ml m.mr ≡ true
  before_left k below =
      let (n, found) = get_elem?_total ms k (omega (arith, lt-length_of_some ms i m at)) in
      rw (get_or-some ms k n found) (ranked k i n m below found at)

  before_right :
      (k : ℕ) → i ≤ k → k < length ms → is_before (get_or ms k no_merge) m.ml m.mr ≡ false
  before_right k above inside =
      let (n, found) = get_elem?_total ms k inside in
      rw (get_or-some ms k n found) (elim (Bool-cases (ltb i k)) [
        | inl less ↦ is_before_asym m n (ranked i k m n (ground (arith, less)) at found)
        | inr other ↦ same k n found (ground (arith, other))
      ])
    where
      same : (k : ℕ) (n : Merge) → get_elem? ms k ≡ some n → k ≡ i → is_before n m.ml m.mr ≡ false
      same k n found e = let e' : n ≡ m = cc (found, at, e) in rw e' (is_before_irrefl m)

  lower_bound_at :
      (fuel lo hi : ℕ)
      → lo ≤ i
      → i ≤ hi
      → hi ≤ length ms
      → hi < fuel + lo
      → lower_bound fuel ms m.ml m.mr lo hi ≡ i
  unfolding lower_bound
  lower_bound_at zero lo hi low high fits enough = absurd (omega arith)
  lower_bound_at (suc fuel) lo hi low high fits enough = elim (Bool-cases (ltb lo hi)) [
    | inr empty ↦ rw empty (ground (arith, empty))
    | inl more ↦
        let mid = (lo + hi) / 2 in
        let inside : (lo ≤ mid) × (mid < hi) = ground (arith, more) in
        elim (Bool-cases (ltb mid i)) [
          | inl left ↦
              let less : mid < i = ground (arith, left) in
              rw (more, before_left mid less)
                (lower_bound_at fuel (mid + 1) hi (omega arith) high fits (omega (arith, inside)))
          | inr right ↦
              let above : i ≤ mid = ground (arith, right) in
              rw (more, before_right mid above (omega (arith, inside)))
                (lower_bound_at fuel lo mid low above (omega (arith, inside))
                  (omega (arith, inside)))
        ]
  ]

  pub find_merge_complete : find_merge ms m.ml m.mr ≡ some m
  unfolding find_merge
  find_merge_complete =
      rw
        (lower_bound_at (suc (length ms)) 0 (length ms) (omega arith)
          (omega (arith, lt-length_of_some ms i m at)) (omega arith) (omega arith))
        (is_at m (get_elem? ms i) at)
    where
      is_at :
          (m : Merge) (o : Option Merge)
          → o ≡ some m
          → (elim o [
            | some n ↦ if n.ml == m.ml && n.mr == m.mr then some n else none
            | none ↦ none
          ])
            ≡ some m
      is_at m o e = rw e (ground arith)

merge_at_sound :
    (ms : List Merge) (a b lo : ℕ) (m : Merge)
    → merge_at ms a b lo ≡ some m
    → (get_elem? ms lo ≡ some m) × (m.ml ≡ a) × (m.mr ≡ b)
merge_at_sound ms a b lo m h = ground (arith, h)

pub find_merge_sound :
    (ms : List Merge) (a b : ℕ) (m : Merge)
    → find_merge ms a b ≡ some m
    → (i : ℕ) × (get_elem? ms i ≡ some m) × (m.ml ≡ a) × (m.mr ≡ b)
unfolding find_merge
find_merge_sound ms a b m h =
    let lo = lower_bound (suc (length ms)) ms a b 0 (length ms) in
    let (at, left, right) = merge_at_sound ms a b lo m h in (lo, at, left, right)
