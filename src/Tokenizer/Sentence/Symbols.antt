-- ===== src/Tokenizer/Sentence/Symbols.antt =====
-- The first symbols of plain text, at a vocabulary that has its characters.
use yllm.Base.{
  All, ◌⊎◌, ℕ, zero, suc, ◌≤◌, ◌<◌, ◌≡◌, ◌≢◌, refl, ap, sym, ◌∙◌, false, Option, none, some, List,
  [], ◌∷◌, ◌++◌, append_assoc, append-nil, if◌then◌else◌, arith, length, get_elem?, ◌==◌,
  Bool-cases, inl, inr,
}
use yllm.Base.Text.{Bytes}
use yllm.Tokenizer.Bytes.{utf8_clen}
use yllm.Tokenizer.Decode.Plain.{IsPlain}
use yllm.Tokenizer.Lookup.Find.{
  IsIndexed, piece_of_some, get_elem?-piece, vocab_bsearch_sorted-IsLookup, IsLookup,
}
use yllm.Tokenizer.Lookup.{vocab_bsearch_sorted}
use yllm.Tokenizer.Merges.{char_len}
use yllm.Tokenizer.Sentence.{mark, marked, char_symbols}
use yllm.Tokenizer.Spells.{Spells}
use yllm.Tokenizer.Types.{Vocab}

-- The vocabulary has scores, its indices are sorted, and the mark is a piece.
pub record IsSentence (v : Vocab) : Type 0 where
  pub indexed : IsIndexed v
  pub scored : v.scores ≢ []
  pub level : v.byte_level ≡ false
  pub space : (id : ℕ) × (get_elem? v.pieces id ≡ some mark)

-- Every character of the text but the space is a piece.
abbrev pub HasChars : Vocab → Bytes → Type 0
HasChars v text = All (λ c. (c ≡ b' ') ⊎ ((id : ℕ) × (get_elem? v.pieces id ≡ some (c ∷ [])))) text

has_char :
    (v : Vocab) (c : ℕ)
    → (c ≡ b' ') ⊎ ((id : ℕ) × (get_elem? v.pieces id ≡ some (c ∷ [])))
    → (c == b' ') ≡ false
    → (id : ℕ) × (get_elem? v.pieces id ≡ some (c ∷ []))
has_char v c (inl blank) other = absurd (ground (arith, blank, other))
has_char v c (inr there) other = there

-- A piece that is there is found.
find_some :
    (v : Vocab) (str : Bytes) (k : ℕ)
    → IsIndexed v
    → get_elem? v.pieces k ≡ some str
    → (id : ℕ) × (vocab_bsearch_sorted v str ≡ some id) × (get_elem? v.pieces id ≡ some str)
find_some v str k indexed there = result _ (vocab_bsearch_sorted-IsLookup v str indexed) refl
  where
    result :
        (r : Option ℕ)
        → IsLookup v str r
        → vocab_bsearch_sorted v str ≡ r
        → (id : ℕ) × (vocab_bsearch_sorted v str ≡ some id) × (get_elem? v.pieces id ≡ some str)
    result none missing e =
        let (known, is) = piece_of_some v k str there in absurd (missing k known is)
    result (some id) (known, is) e = (id, e, get_elem?-piece v id known ∙ ap some is)

abbrev mark_of : ℕ → Bytes
mark_of c = if c == b' ' then mark else c ∷ []

pub marked-append : (u w : Bytes) → marked (u ++ w) ≡ marked u ++ marked w
unfolding marked
marked-append [] w = refl
marked-append (c ∷ u) w =
    ap (λ t. mark_of c ++ t) (marked-append u w)
    ∙ sym (append_assoc (mark_of c) (marked u) (marked w))

char_len_ascii : (c : ℕ) (t : Bytes) → c < 128 → char_len c (c ∷ t) ≡ 1
unfolding char_len utf8_clen
char_len_ascii c t ascii = ground arith

char_len-mark : (t : Bytes) → char_len 0xE2 (mark ++ t) ≡ 3
unfolding char_len utf8_clen
char_len-mark t = ground arith

char_symbols_step :
    (fuel : ℕ) (v : Vocab) (c id : ℕ) (t : Bytes)
    → c < 128
    → vocab_bsearch_sorted v (c ∷ []) ≡ some id
    → char_symbols (suc fuel) v (c ∷ t) ≡ id ∷ char_symbols fuel v t
unfolding char_symbols
char_symbols_step fuel v c id t ascii found =
    rw (char_len_ascii c t ascii, found, char_symbols) (rw (char_len_ascii c t ascii) refl)

char_symbols-mark :
    (fuel : ℕ) (v : Vocab) (id : ℕ) (t : Bytes)
    → vocab_bsearch_sorted v mark ≡ some id
    → char_symbols (suc fuel) v (mark ++ t) ≡ id ∷ char_symbols fuel v t
unfolding char_symbols
char_symbols-mark fuel v id t found =
    rw (char_len-mark t, found, char_symbols) (rw (char_len-mark t) refl)

-- One more character, of which `t` is the spelling.
Spells-char :
    (v : Vocab) (c id : ℕ) (text : Bytes) (ids : List ℕ)
    → get_elem? v.pieces id ≡ some (mark_of c)
    → Spells marked v ids text × (length ids ≡ length text)
    → Spells marked v (id ∷ ids) (c ∷ text) × (length (id ∷ ids) ≡ length (c ∷ text))
unfolding marked
Spells-char v c id text ids there (spells, size) =
    ((c ∷ [], text, refl, there ∙ ap some (sym (append-nil (mark_of c))), spells), ap suc size)

marked_shorter :
    (c : ℕ) (t : Bytes) (fuel : ℕ) → length (marked (c ∷ t)) ≤ suc fuel → length (marked t) ≤ fuel
unfolding marked
marked_shorter c t fuel enough = ground (arith, enough)

pub char_symbols-Spells :
    (fuel : ℕ) (v : Vocab) (text : Bytes)
    → IsSentence v
    → IsPlain text
    → HasChars v text
    → length (marked text) ≤ fuel
    → Spells marked v (char_symbols fuel v (marked text)) text
      × (length (char_symbols fuel v (marked text)) ≡ length text)
unfolding marked
char_symbols-Spells zero v [] ok plain chars enough = unfold char_symbols in (refl, refl)
char_symbols-Spells (suc fuel) v [] ok plain chars enough = unfold char_symbols in (refl, refl)
char_symbols-Spells zero v (c ∷ t) ok plain chars enough = absurd (ground (arith, enough))
char_symbols-Spells (suc fuel) v (c ∷ t) ok plain chars enough = elim (Bool-cases (c == b' ')) [
  | inl blank ↦
      let (k, there) = ok.space in
      let (id, found, piece_id) = find_some v mark k ok.indexed there in
      let front : mark_of c ≡ mark = rw blank refl in
      let rest = char_symbols-Spells fuel v t ok plain.1 chars.1 (marked_shorter c t fuel enough) in
      rw (blank, char_symbols-mark fuel v id (marked t) found)
        (Spells-char v c id t _ (piece_id ∙ ap some (sym front)) rest)
  | inr other ↦
      let (k, there) = has_char v c chars.0 other in
      let (id, found, piece_id) = find_some v (c ∷ []) k ok.indexed there in
      let front : mark_of c ≡ c ∷ [] = rw other refl in
      let rest = char_symbols-Spells fuel v t ok plain.1 chars.1 (marked_shorter c t fuel enough) in
      rw (other, char_symbols_step fuel v c id (marked t) plain.0.0 found)
        (Spells-char v c id t _ (piece_id ∙ ap some (sym front)) rest)
]
