-- ===== src/Tokenizer/Lookup/Order.antt =====
-- The order of pieces.
use Prim.Native.Nat.{Ordering}
use yllm.Base.{◌≡◌, refl, [], ◌∷◌, arith}
use yllm.Base.Text.{Bytes}
use yllm.Tokenizer.Lookup.{strncmp, piece_order, dict_compare}

-- The test of the search is the order of the table.
pub piece_order-dict_compare : (pc str : Bytes) → piece_order pc str ≡ dict_compare pc str
unfolding piece_order strncmp dict_compare
piece_order-dict_compare [] [] = refl
piece_order-dict_compare [] (d ∷ str) = refl
piece_order-dict_compare (c ∷ pc) [] = refl
piece_order-dict_compare (c ∷ pc) (d ∷ str) = ground (arith, piece_order-dict_compare pc str)

pub dict_compare_refl : (a : Bytes) → dict_compare a a ≡ Ordering.eq
unfolding dict_compare
dict_compare_refl [] = refl
dict_compare_refl (c ∷ a) = ground (arith, dict_compare_refl a)

pub eq_of_dict_compare : (a b : Bytes) → dict_compare a b ≡ Ordering.eq → a ≡ b
unfolding dict_compare
eq_of_dict_compare [] [] h = refl
eq_of_dict_compare [] (d ∷ b) h = ground arith
eq_of_dict_compare (c ∷ a) [] h = ground arith
eq_of_dict_compare (c ∷ a) (d ∷ b) h = ground (arith, eq_of_dict_compare a b)

pub dict_compare_swap :
    (a b : Bytes) → dict_compare a b ≡ Ordering.lt → dict_compare b a ≡ Ordering.gt
unfolding dict_compare
dict_compare_swap [] [] h = ground arith
dict_compare_swap [] (d ∷ b) h = refl
dict_compare_swap (c ∷ a) [] h = ground arith
dict_compare_swap (c ∷ a) (d ∷ b) h = ground (arith, dict_compare_swap a b)
