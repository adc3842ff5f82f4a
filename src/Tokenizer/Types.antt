-- ===== src/Tokenizer/Types.antt =====
-- `Vocab` of inference/include/yllm.h, as far as encoding and decoding read it.
use yllm.Base.{ℕ, Bool, Option, none, some, List, get_elem?}
use yllm.Base.Text.{Bytes}

-- One row of the four parallel arrays `ml`, `mr`, `mid` and `mrank`.
pub record Merge : Type 0 where
  pub ml : ℕ
  pub mr : ℕ
  pub mid : ℕ
  pub mrank : ℕ

-- An array and its count are a list, and an id that is -1 where there is none is an `Option`. A
-- score is the bit pattern of a `float`.
pub record Vocab : Type 0 where
  pub pieces : List Bytes
  pub unk : Option ℕ
  pub sorted : List ℕ
  pub scores : List ℕ
  pub merges : List Merge
  pub byte_level : Bool
  pub byte_ids : List (Option ℕ)

-- `v->pieces[id]`; an id out of range, which the code never forms, gives the empty piece.
abbrev pub piece : Vocab → ℕ → Bytes
piece v id = elim (get_elem? v.pieces id) [ some p ↦ p | none ↦ List.[] ]
