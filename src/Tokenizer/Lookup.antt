-- ===== src/Tokenizer/Lookup.antt =====
-- The searches for a piece: `vocab_id` and `vocab_bsearch_sorted` of inference/core/tokenizer.c.
pub mod Order
pub mod Find
use Prim.Native.Nat.{Ordering, compare}
use yllm.Base.{
  ℕ, zero, suc, ◌+◌, ◌-◌, ◌/◌, Bool, true, false, Option, none, some, List, [], ◌∷◌, ltb,
  if◌then◌else◌, length, get_or, drop,
}
use yllm.Base.Text.{Bytes, equal, is_empty}
use yllm.Tokenizer.Types.{Vocab, piece}

-- `strncmp(a, b, n)`, on unsigned bytes.
unfoldable pub strncmp : ℕ → Bytes → Bytes → Ordering
strncmp zero a b = Ordering.eq
strncmp (suc n) [] [] = Ordering.eq
strncmp (suc n) [] (d ∷ b) = Ordering.lt
strncmp (suc n) (c ∷ a) [] = Ordering.gt
strncmp (suc n) (c ∷ a) (d ∷ b) = elim (compare c d) [
  | Ordering.lt ↦ Ordering.lt
  | Ordering.gt ↦ Ordering.gt
  | Ordering.eq ↦ strncmp n a b
]

-- The sign of `c` in the loop: a piece of which `str` is a proper prefix counts as greater.
unfoldable pub piece_order : Bytes → Bytes → Ordering
piece_order pc str = elim (strncmp (length str) pc str) [
  | Ordering.eq ↦ if is_empty (drop (length str) pc) then Ordering.eq else Ordering.gt
  | Ordering.lt ↦ Ordering.lt
  | Ordering.gt ↦ Ordering.gt
]

-- The loop, on an interval that leaves out its upper end: `hi` is one more than in the source.
unfoldable pub bsearch : ℕ → Vocab → Bytes → ℕ → ℕ → Option ℕ
bsearch zero v str lo hi = none
bsearch (suc fuel) v str lo hi =
    let mid = (lo + hi - 1) / 2 in
    let id = get_or v.sorted mid 0 in
    let right = bsearch fuel v str (mid + 1) hi in
    let left = bsearch fuel v str lo mid in
    let found : Option ℕ = elim (piece_order (piece v id) str) [
      | Ordering.lt ↦ right
      | Ordering.gt ↦ left
      | Ordering.eq ↦ some id
    ] in
    if ltb lo hi then found else none

-- `str` is the bytes that the pointer and the length in the source stand for.
unfoldable pub vocab_bsearch_sorted : Vocab → Bytes → Option ℕ
unfolding bsearch
vocab_bsearch_sorted v str = bsearch (suc (length v.pieces)) v str 0 (length v.pieces)

-- The loop of `vocab_id`, at the pieces from `i` on.
unfoldable pub id_from : ℕ → List Bytes → Bytes → Option ℕ
id_from i [] str = none
id_from i (p ∷ ps) str = if equal p str then some i else id_from (i + 1) ps str

unfoldable pub vocab_id : Vocab → Bytes → Option ℕ
unfolding id_from
vocab_id v str = id_from 0 v.pieces str

-- `dict_compare`, the order by which `vocab_load` sorts the indices in `sorted`.
unfoldable pub dict_compare : Bytes → Bytes → Ordering
dict_compare [] [] = Ordering.eq
dict_compare [] (d ∷ b) = Ordering.lt
dict_compare (c ∷ a) [] = Ordering.gt
dict_compare (c ∷ a) (d ∷ b) = elim (compare c d) [
  | Ordering.lt ↦ Ordering.lt
  | Ordering.gt ↦ Ordering.gt
  | Ordering.eq ↦ dict_compare a b
]
