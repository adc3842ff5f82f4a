-- ===== src/Tests/Tokenizer/Tables.antt =====
-- Tables for test vocabularies, and tests that show their hypotheses.
use Prim.Native.Nat.{Ordering}
use yllm.Base.{
  ℕ, zero, suc, ◌+◌, ◌≤◌, ◌<◌, ◌≡◌, refl, Bool, true, false, ◌&&◌, ◌||◌, not, some, List, [], ◌∷◌,
  ◌++◌, arith, length, get_elem?, get_or, ltb, ◌==◌, holds_below, holds_of_below,
}
use yllm.Base.Text.{equal, equal_iff}
use yllm.Tokenizer.Lookup.Find.{IsIndexed, IsDistinct, piece_at}
use yllm.Tokenizer.Lookup.{dict_compare}
use yllm.Tokenizer.Types.{Vocab, piece}

module _ {ℓ} {A : Type ℓ} (f : ℕ → A) where
  -- The values at `n` numbers from `k` on.
  unfoldable pub tabulate : ℕ → ℕ → List A
  tabulate k zero = []
  tabulate k (suc n) = f k ∷ tabulate (k + 1) n

  pub get_elem?-tabulate :
      (k n i : ℕ) (rest : List A) → i < n → get_elem? (tabulate k n ++ rest) i ≡ some (f (k + i))
  unfolding tabulate
  get_elem?-tabulate k zero i rest h = elim h [ ]
  get_elem?-tabulate k (suc n) zero rest h = let e : k + 0 ≡ k = omega arith in rw e refl
  get_elem?-tabulate k (suc n) (suc i) rest h =
      let e : k + suc i ≡ k + 1 + i = omega arith in
      rw e (get_elem?-tabulate (k + 1) n i rest (omega arith))

  pub get_or-tabulate : (k n i : ℕ) (d : A) → i < n → get_or (tabulate k n) i d ≡ f (k + i)
  unfolding tabulate
  get_or-tabulate k zero i d h = elim h [ ]
  get_or-tabulate k (suc n) zero d h = let e : k + 0 ≡ k = omega arith in rw e refl
  get_or-tabulate k (suc n) (suc i) d h =
      let e : k + suc i ≡ k + 1 + i = omega arith in
      rw e (get_or-tabulate (k + 1) n i d (omega arith))

module _ {ℓ} {A : Type ℓ} (f : ℕ → A) where
  pub get_elem?-tabulate_behind :
      (k n i : ℕ) (rest : List A) → get_elem? (tabulate f k n ++ rest) (n + i) ≡ get_elem? rest i
  unfolding tabulate
  get_elem?-tabulate_behind k zero i rest = let e : 0 + i ≡ i = omega arith in rw e refl
  get_elem?-tabulate_behind k (suc n) i rest =
      let e : suc n + i ≡ suc (n + i) = omega arith in
      rw e (get_elem?-tabulate_behind (k + 1) n i rest)

is_gt : Ordering → Bool
is_gt Ordering.gt = true
is_gt _ = false

-- What the indices say of the entry `i`; `places` says where each id stands.
entry_test : Vocab → List ℕ → ℕ → Bool
unfolding is_gt holds_below
entry_test v places i =
    let n = length v.pieces in
    ltb (get_or v.sorted i 0) n
    && (ltb (get_or places i 0) n
        && (get_or v.sorted (get_or places i 0) 0 == i
            && holds_below n
                (λ j. ltb j i || not (is_gt (dict_compare (piece_at v i) (piece_at v j))))))

unfoldable pub is_indexed : Vocab → List ℕ → Bool
unfolding holds_below entry_test
is_indexed v places = holds_below (length v.pieces) (entry_test v places)

ascending :
    (v : Vocab) (i j : ℕ)
    → i ≤ j
    → j < length v.pieces
    → dict_compare (piece_at v i) (piece_at v j) ≡ Ordering.gt
    → holds_below
        (length v.pieces)
        (λ j. ltb j i || not (is_gt (dict_compare (piece_at v i) (piece_at v j))))
      ≡ true
    → ⊥
unfolding is_gt
ascending v i j le below more all =
    let cell = holds_of_below _ _ j all below in ground (arith, cell, more, le)

pub is_indexed→IsIndexed : (v : Vocab) (places : List ℕ) → is_indexed v places ≡ true → IsIndexed v
unfolding is_indexed is_gt
is_indexed→IsIndexed v places h = record {
  in_range = λ i below. let r = entry i below in ground (arith, r);
  covers = λ id below.
      let r = entry id below in (get_or places id 0, ground (arith, r), ground (arith, r));
  ascends = λ i j le below more.
      let r = entry i (omega arith) in ascending v i j le below more (ground (arith, r));
}
  where
    entry : (i : ℕ) → i < length v.pieces → entry_test v places i ≡ true
    entry i below = holds_of_below (length v.pieces) (entry_test v places) i h below

unfoldable pub is_distinct : Vocab → Bool
unfolding equal holds_below
is_distinct v =
    holds_below (length v.pieces)
      (λ i. holds_below (length v.pieces) (λ j. i == j || not (equal (piece v i) (piece v j))))

pub is_distinct→IsDistinct : (v : Vocab) → is_distinct v ≡ true → IsDistinct v
unfolding is_distinct
is_distinct→IsDistinct v h = λ i j hi hj same.
    let row = holds_of_below _ _ i h hi in
    let cell = holds_of_below _ _ j row hj in
    ground (arith, cell, (equal_iff (piece v i) (piece v j)).1 same)
