-- ===== src/Tokenizer/Greedy.antt =====
-- The encoder for vocabularies without scores and merges: `vocab_encode_greedy` of
-- inference/core/tokenizer.c.
pub mod Longest
pub mod Cover
use yllm.Base.{
  ℕ, zero, suc, ◌+◌, ◌-◌, ◌/◌, ◌%◌, Bool, ◌&&◌, ◌||◌, not, Option, none, some, List, [], ◌∷◌, ◌++◌,
  ◌==◌, ltb, if◌then◌else◌, length, drop,
}
use yllm.Base.Text.{Bytes, codes}
use yllm.Tokenizer.Lookup.{vocab_id}
use yllm.Tokenizer.Specials.{begins_with}
use yllm.Tokenizer.Types.{Vocab}

-- A digit of `%02X`.
abbrev pub hex_upper : ℕ → ℕ
hex_upper d = if ltb d 10 then b'0' + d else b'A' + (d - 10)

-- `snprintf(bp, sizeof(bp), "<0x%02X>", c)` of a byte.
unfoldable pub byte_name : ℕ → Bytes
byte_name c = codes "<0x" ++ hex_upper (c / 16) ∷ hex_upper (c % 16) ∷ b'>' ∷ []

-- `best` and `bestlen`; the length is 0 where there is no best piece.
pub record Match : Type 0 where
  pub best : Option ℕ
  pub bestlen : ℕ

-- The loop over the pieces from `i` on.
unfoldable pub match_from : Bytes → ℕ → List Bytes → Match → Match
match_from text i [] m = m
match_from text i (pc ∷ ps) m = match_from text (i + 1) ps (
    if (length pc == 0 || ltb (length pc) m.bestlen) || not (begins_with pc text)
    then m
    else record { best = some i; bestlen = length pc })

unfoldable pub longest_match : Vocab → Bytes → Match
unfolding match_from
longest_match v text = match_from text 0 v.pieces (record { best = none; bestlen = 0 })

-- The token of a byte that no piece begins with: its name, the unknown token, or none.
unfoldable pub fallback : Vocab → ℕ → Option ℕ
fallback v c = elim (vocab_id v (byte_name c)) [ some id ↦ some id | none ↦ v.unk ]

-- The loop, with `room` more ids to write, and at most `fuel` bytes of text.
unfoldable pub greedy : ℕ → Vocab → Bytes → ℕ → List ℕ
greedy zero v text room = []
greedy (suc fuel) v text zero = []
greedy (suc fuel) v [] (suc room) = []
greedy (suc fuel) v (c ∷ t) (suc room) = elim ((longest_match v (c ∷ t)).best) [
  | some id ↦ id ∷ greedy fuel v (drop (longest_match v (c ∷ t)).bestlen (c ∷ t)) room
  | none ↦ elim (fallback v c) [
    | some id ↦ id ∷ greedy fuel v t room
    | none ↦ greedy fuel v t (suc room)
  ]
]

unfoldable pub vocab_encode_greedy : Vocab → Bytes → ℕ → List ℕ
unfolding greedy
vocab_encode_greedy v text max = greedy (length text) v text max
