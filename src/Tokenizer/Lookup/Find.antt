-- ===== src/Tokenizer/Lookup/Find.antt =====
-- The binary search finds what the linear one finds.
use Prim.Native.Nat.{Ordering}
use yllm.Base.{
  ℕ, zero, suc, ◌+◌, ◌-◌, ◌/◌, ◌≤◌, ◌<◌, ◌≡◌, ◌≢◌, refl, sym, ◌∙◌, ap, Option, none, some, List, [],
  ◌∷◌, arith, length, get_or, get_elem?, subst, lt-length_of_some, get_elem?_total, ltb, Bool-cases,
  inl, inr, ◌⊎◌,
}
use yllm.Base.Text.{Bytes, equal, equal_iff}
use yllm.Tokenizer.Types.{Vocab, piece}
use yllm.Tokenizer.Lookup.{
  piece_order, dict_compare, bsearch, vocab_bsearch_sorted, vocab_id, id_from,
}
use yllm.Tokenizer.Lookup.Order.{piece_order-dict_compare, eq_of_dict_compare, dict_compare_swap}

-- The piece at a position of the sorted indices.
abbrev pub piece_at : Vocab → ℕ → Bytes
piece_at v i = piece v (get_or v.sorted i 0)

-- `sorted` holds every id, in the order of the pieces.
pub record IsIndexed (v : Vocab) : Type 0 where
  pub in_range : (i : ℕ) → i < length v.pieces → get_or v.sorted i 0 < length v.pieces
  pub covers :
      (id : ℕ) → id < length v.pieces → (i : ℕ) × (i < length v.pieces) × (get_or v.sorted i 0 ≡ id)
  pub ascends :
      (i j : ℕ)
      → i ≤ j
      → j < length v.pieces
      → dict_compare (piece_at v i) (piece_at v j) ≢ Ordering.gt

-- What the search over the positions from `lo` up to `hi` tells.
abbrev Finds : Vocab → Bytes → ℕ → ℕ → Option ℕ → Type 0
Finds v str lo hi none = (i : ℕ) → lo ≤ i → i < hi → piece_at v i ≢ str
Finds v str lo hi (some id) = (i : ℕ) × (i < hi) × (get_or v.sorted i 0 ≡ id) × (piece v id ≡ str)

Ordering-cases : (o : Ordering) → ((o ≡ Ordering.lt) ⊎ (o ≡ Ordering.gt)) ⊎ (o ≡ Ordering.eq)
Ordering-cases Ordering.lt = inl (inl refl)
Ordering-cases Ordering.gt = inl (inr refl)
Ordering-cases Ordering.eq = inr refl

-- A piece before the middle is none that stands behind the middle one, and the other way round.
module _ (v : Vocab) (str : Bytes) (ok : IsIndexed v) (i j : ℕ) (below : i ≤ j)
    (fits : j < length v.pieces) where
  ne_before : piece_order (piece_at v j) str ≡ Ordering.lt → piece_at v i ≢ str
  ne_before less same =
      let less' = sym (piece_order-dict_compare (piece_at v j) str) ∙ less in
      let more = dict_compare_swap (piece_at v j) str less' in
      ok.ascends i j below fits (rw same more)

  ne_behind : piece_order (piece_at v i) str ≡ Ordering.gt → piece_at v j ≢ str
  ne_behind more same =
      let more' = sym (piece_order-dict_compare (piece_at v i) str) ∙ more in
      ok.ascends i j below fits (rw same more')

module _ (v : Vocab) (str : Bytes) (lo mid hi : ℕ) where
  Finds-upper :
      (r : Option ℕ)
      → mid < hi
      → ((i : ℕ) → i ≤ mid → piece_at v i ≢ str)
      → Finds v str (mid + 1) hi r
      → Finds v str lo hi r
  Finds-upper (some id) inside ne found = found
  Finds-upper none inside ne missing = λ i above below. elim (Bool-cases (ltb mid i)) [
    | inl high ↦ missing i (ground (arith, high)) below
    | inr low ↦ ne i (ground (arith, low))
  ]

  Finds-lower :
      (r : Option ℕ)
      → mid < hi
      → ((i : ℕ) → mid ≤ i → i < hi → piece_at v i ≢ str)
      → Finds v str lo mid r
      → Finds v str lo hi r
  Finds-lower (some id) inside ne (i, below, at, same) = (i, omega arith, at, same)
  Finds-lower none inside ne missing = λ i above below. elim (Bool-cases (ltb i mid)) [
    | inl low ↦ missing i above (ground (arith, low))
    | inr high ↦ ne i (ground (arith, high)) below
  ]

bsearch-Finds :
    (fuel : ℕ) (v : Vocab) (str : Bytes) (lo hi : ℕ)
    → IsIndexed v
    → hi ≤ length v.pieces
    → hi < fuel + lo
    → Finds v str lo hi (bsearch fuel v str lo hi)
unfolding bsearch
bsearch-Finds zero v str lo hi ok fits enough = λ i a b. absurd (omega arith)
bsearch-Finds (suc fuel) v str lo hi ok fits enough = elim (Bool-cases (ltb lo hi)) [
  | inr empty ↦ rw empty (λ i a b. absurd (ground arith))
  | inl some_left ↦
      let mid = (lo + hi - 1) / 2 in
      let inside : (lo ≤ mid) × (mid < hi) = ground arith in
      rw some_left (elim (Ordering-cases (piece_order (piece_at v mid) str)) [
        | inl (inl less) ↦ rw less (
            Finds-upper v str lo mid hi _ inside.1
              (λ i below. ne_before v str ok i mid below (omega arith) less)
              (bsearch-Finds fuel v str (mid + 1) hi ok fits (omega (arith, inside))))
        | inl (inr more) ↦ rw more (
            Finds-lower v str lo mid hi _ inside.1
              (λ i above below. ne_behind v str ok mid i above (omega arith) more)
              (bsearch-Finds fuel v str lo mid ok (omega (arith, inside)) (omega (arith, inside))))
        | inr same ↦ rw same (
          mid,
          inside.1,
          refl,
          eq_of_dict_compare _ str (sym (piece_order-dict_compare (piece_at v mid) str) ∙ same),
        )
      ])
]

-- What a search for a piece tells.
abbrev pub IsLookup : Vocab → Bytes → Option ℕ → Type 0
IsLookup v str none = (id : ℕ) → id < length v.pieces → piece v id ≢ str
IsLookup v str (some id) = (id < length v.pieces) × (piece v id ≡ str)

IsLookup-Finds :
    (v : Vocab) (str : Bytes) (r : Option ℕ)
    → IsIndexed v
    → Finds v str 0 (length v.pieces) r
    → IsLookup v str r
IsLookup-Finds v str (some id) ok (i, below, at, same) = (rw (← at) (ok.in_range i below), same)
IsLookup-Finds v str none ok missing = λ id known same.
    let (i, below, at) = ok.covers id known in missing i (omega arith) below (rw at same)

pub vocab_bsearch_sorted-IsLookup :
    (v : Vocab) (str : Bytes) → IsIndexed v → IsLookup v str (vocab_bsearch_sorted v str)
unfolding vocab_bsearch_sorted
vocab_bsearch_sorted-IsLookup v str ok =
    IsLookup-Finds v str _ ok (
      bsearch-Finds (suc (length v.pieces)) v str 0 (length v.pieces) ok (omega arith)
        (omega arith))

-- Two lookups agree where no piece occurs twice.
abbrev pub IsDistinct : Vocab → Type 0
IsDistinct v = (i j : ℕ) → i < length v.pieces → j < length v.pieces → piece v i ≡ piece v j → i ≡ j

IsLookup-unique :
    (v : Vocab) (str : Bytes) (r s : Option ℕ)
    → IsDistinct v
    → IsLookup v str r
    → IsLookup v str s
    → r ≡ s
IsLookup-unique v str none none once h k = refl
IsLookup-unique v str none (some id) once h k = absurd (h id k.0 k.1)
IsLookup-unique v str (some id) none once h k = absurd (k id h.0 h.1)
IsLookup-unique v str (some i) (some j) once h k = ap some (once i j h.0 k.0 (h.1 ∙ sym k.1))

-- What the linear search tells of the pieces behind the first `n`.
abbrev IsIndexOf : ℕ → List Bytes → Bytes → Option ℕ → Type 0
IsIndexOf n ps str none = (i : ℕ) → i < length ps → get_elem? ps i ≢ some str
IsIndexOf n ps str (some id) = (i : ℕ) × (id ≡ n + i) × (get_elem? ps i ≡ some str)

IsIndexOf-cons :
    (n : ℕ) (p : Bytes) (ps : List Bytes) (str : Bytes) (r : Option ℕ)
    → p ≢ str
    → IsIndexOf (n + 1) ps str r
    → IsIndexOf n (p ∷ ps) str r
IsIndexOf-cons n p ps str (some id) differ (i, at, same) = (suc i, omega arith, same)
IsIndexOf-cons n p ps str none differ missing = behind
  where
    behind : (i : ℕ) → i < length (p ∷ ps) → get_elem? (p ∷ ps) i ≢ some str
    behind zero inside same = differ cc
    behind (suc i) inside same = missing i (omega arith) same

id_from-IsIndexOf : (n : ℕ) (ps : List Bytes) (str : Bytes) → IsIndexOf n ps str (id_from n ps str)
unfolding id_from
id_from-IsIndexOf n [] str = λ i h. absurd (omega arith)
id_from-IsIndexOf n (p ∷ ps) str = elim (Bool-cases (equal p str)) [
  | inl same ↦ rw same (0, omega arith, ap some ((equal_iff p str).0 same))
  | inr differ ↦ rw differ (
      IsIndexOf-cons n p ps str _ (λ same. cc (differ, (equal_iff p str).1 same))
        (id_from-IsIndexOf (n + 1) ps str))
]

pub piece_of_some :
    (v : Vocab) (id : ℕ) (p : Bytes)
    → get_elem? v.pieces id ≡ some p
    → (id < length v.pieces) × (piece v id ≡ p)
piece_of_some v id p at = (lt-length_of_some v.pieces id p at, rw (at, piece) refl)

pub get_elem?-piece :
    (v : Vocab) (id : ℕ) → id < length v.pieces → get_elem? v.pieces id ≡ some (piece v id)
get_elem?-piece v id known =
    let (p, at) = get_elem?_total v.pieces id known in
    at ∙ ap some (sym (piece_of_some v id p at).1)

IsLookup-IsIndexOf :
    (v : Vocab) (str : Bytes) (r : Option ℕ) → IsIndexOf 0 v.pieces str r → IsLookup v str r
IsLookup-IsIndexOf v str none missing =
    λ id known same. missing id known (get_elem?-piece v id known ∙ ap some same)
IsLookup-IsIndexOf v str (some id) (i, at, same) =
    let e : i ≡ id = omega (arith, at) in
    piece_of_some v id str (subst (λ j. get_elem? v.pieces j ≡ some str) e same)

-- In a vocabulary without double pieces, whose indices are sorted, the binary search finds the id
-- that the linear search finds, and nothing where that finds nothing.
pub vocab_bsearch_sorted-vocab_id :
    (v : Vocab) (str : Bytes)
    → IsIndexed v
    → IsDistinct v
    → vocab_bsearch_sorted v str ≡ vocab_id v str
unfolding vocab_id
vocab_bsearch_sorted-vocab_id v str ok once =
    IsLookup-unique v str _ _ once (vocab_bsearch_sorted-IsLookup v str ok)
      (IsLookup-IsIndexOf v str _ (id_from-IsIndexOf 0 v.pieces str))
