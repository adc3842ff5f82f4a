-- ===== src/Wire/Protocol.antt =====
-- The parsing helpers of serve/protocol.h. A pointer into a line is the suffix that it points at.
pub mod Fields
use yllm.Base.{
  ℕ, zero, suc, Bool, true, false, not, ◌&&◌, ◌||◌, Option, none, some, List, [], ◌∷◌, ◌==◌,
  if◌then◌else◌, length,
}
use yllm.Base.Scan.{is_blank, not_blank, strip_prefix}
use yllm.Base.Text.{Bytes, head_byte, drop_while, codes}

-- `strncmp(p, key, klen) == 0 && p[klen] == '='`: the value behind the sign.
unfoldable pub value_at : Bytes → Bytes → Option Bytes
value_at key p = elim (strip_prefix key p) [
  | none ↦ none
  | some rest ↦ elim rest [ [] ↦ none | c ∷ v ↦ if c == b'=' then some v else none ]
]

-- The loop of `proto_get`; one round takes at least a byte.
unfoldable pub get_loop : ℕ → Bytes → Bytes → Option Bytes
get_loop zero key p = none
get_loop (suc fuel) key [] = none
get_loop (suc fuel) key (c ∷ cs) =
    let p = drop_while is_blank (c ∷ cs) in
    let later = get_loop fuel key (drop_while not_blank p) in
    elim (value_at key p) [ none ↦ later | some v ↦ some v ]

unfoldable pub proto_get : Bytes → Bytes → Option Bytes
unfolding get_loop
proto_get line key = get_loop (suc (length line)) key line

abbrev pub proto_error : Bytes
proto_error = codes "ERR"

-- `ERR` as a whole word. A null line is no error.
unfoldable pub proto_is_error : Option Bytes → Bool
unfolding strip_prefix
proto_is_error none = false
proto_is_error (some line) = elim (strip_prefix proto_error line) [
  | none ↦ false
  | some rest ↦ head_byte rest == b' ' || (head_byte rest == 0 || head_byte rest == b'\r')
]

-- The message behind `ERR` and an optional version.
unfoldable pub error_body : Bytes → Bytes
unfolding strip_prefix
error_body rest =
    let p = drop_while is_blank rest in
    elim (strip_prefix (codes "v=") p) [
      | none ↦ p
      | some _ ↦ drop_while is_blank (drop_while not_blank p)
    ]

unfoldable pub proto_error_msg : Option Bytes → Bytes
unfolding error_body
proto_error_msg none = []
proto_error_msg (some line) =
    if proto_is_error (some line)
    then elim (strip_prefix proto_error line) [ none ↦ [] | some rest ↦ error_body rest ]
    else line
