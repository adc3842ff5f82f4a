-- ===== src/Tokenizer/Greedy/Cover.antt =====
-- The ids of the greedy encoder cover the text, piece by piece.
use yllm.Base.{
  ℕ, zero, suc, ◌+◌, ◌≤◌, ◌≡◌, refl, inl, inr, none, some, List, [], ◌∷◌, arith, length, drop,
  Option-cases, length-drop, ◌⊎◌,
}
use yllm.Base.Text.{Bytes}
use yllm.Tokenizer.Greedy.Longest.{IsLongest, AllBelow, IsMatch, match_from-IsMatch}
use yllm.Tokenizer.Greedy.{Match, longest_match, fallback, greedy, vocab_encode_greedy}
use yllm.Tokenizer.Types.{Vocab}

-- No piece fits.
abbrev pub NoneFits : Vocab → Bytes → Type 0
NoneFits v text = AllBelow text v.pieces 0

-- How ids cover a text, with room for so many: the longest piece at each place, or what stands for
-- a byte at which no piece fits.
pub data Cover (v : Vocab) : ℕ → Bytes → List ℕ → Type 0 where
  full : (text : Bytes) → Cover v zero text []
  finished : (room : ℕ) → Cover v room [] []
  piece :
      {text p : Bytes} {id room : ℕ} {ids : List ℕ}
      → IsLongest text v.pieces id p
      → Cover v room (drop (length p) text) ids
      → Cover v (suc room) text (id ∷ ids)
  byte :
      {c id room : ℕ} {t : Bytes} {ids : List ℕ}
      → NoneFits v (c ∷ t)
      → fallback v c ≡ some id
      → Cover v room t ids
      → Cover v (suc room) (c ∷ t) (id ∷ ids)
  skip :
      {c room : ℕ} {t : Bytes} {ids : List ℕ}
      → NoneFits v (c ∷ t)
      → fallback v c ≡ none
      → Cover v room t ids
      → Cover v room (c ∷ t) ids

longest_match-IsLongest :
    (v : Vocab) (text : Bytes)
    → (((longest_match v text).best ≡ none) × NoneFits v text)
      ⊎ ((id : ℕ) × (p : Bytes) × ((longest_match v text).best ≡ some id)
          × ((longest_match v text).bestlen ≡ length p)
          × IsLongest text v.pieces id p)
unfolding longest_match
longest_match-IsLongest v text =
    found _ (match_from-IsMatch text 0 v.pieces (record { best = none; bestlen = 0 }))
  where
    found :
        (r : Match)
        → IsMatch text 0 v.pieces (record { best = none; bestlen = 0 }) r
        → ((r.best ≡ none) × NoneFits v text)
          ⊎ ((id : ℕ) × (p : Bytes) × (r.best ≡ some id)
              × (r.bestlen ≡ length p)
              × IsLongest text v.pieces id p)
    found r (inl (same, rest)) = inl (rw same refl, rest)
    found r (inr (j, p, is, more, low)) =
        let e : 0 + j ≡ j = omega arith in inr (j, p, rw (is, e) refl, rw is refl, low)

module _ (fuel : ℕ) (v : Vocab) (c : ℕ) (t : Bytes) (room : ℕ) where
  greedy_piece :
      (id : ℕ) (p : Bytes)
      → (longest_match v (c ∷ t)).best ≡ some id
      → (longest_match v (c ∷ t)).bestlen ≡ length p
      → greedy (suc fuel) v (c ∷ t) (suc room) ≡ id ∷ greedy fuel v (drop (length p) (c ∷ t)) room
  unfolding greedy
  greedy_piece id p best len = rw (best, greedy) (rw len refl)

  greedy_byte :
      (id : ℕ)
      → (longest_match v (c ∷ t)).best ≡ none
      → fallback v c ≡ some id
      → greedy (suc fuel) v (c ∷ t) (suc room) ≡ id ∷ greedy fuel v t room
  unfolding greedy
  greedy_byte id best byte_id = rw (best, greedy) (rw (byte_id, greedy) refl)

  greedy_skip :
      (longest_match v (c ∷ t)).best ≡ none
      → fallback v c ≡ none
      → greedy (suc fuel) v (c ∷ t) (suc room) ≡ greedy fuel v t (suc room)
  unfolding greedy
  greedy_skip best no_byte = rw (best, greedy) (rw (no_byte, greedy) refl)

greedy-Cover :
    (fuel : ℕ) (v : Vocab) (text : Bytes) (room : ℕ)
    → length text ≤ fuel
    → Cover v room text (greedy fuel v text room)
greedy-Cover zero v [] room enough = unfold greedy in finished room
greedy-Cover zero v (c ∷ t) room enough = absurd (omega arith)
greedy-Cover (suc fuel) v text zero enough = unfold greedy in full text
greedy-Cover (suc fuel) v [] (suc room) enough = unfold greedy in finished (suc room)
greedy-Cover (suc fuel) v (c ∷ t) (suc room) enough = elim (longest_match-IsLongest v (c ∷ t)) [
  | inl (best, nothing) ↦ elim (Option-cases (fallback v c)) [
    | inl no_byte ↦
        rw (greedy_skip fuel v c t room best no_byte)
          (skip nothing no_byte (greedy-Cover fuel v t (suc room) (omega arith)))
    | inr (id, byte_id) ↦
        rw (greedy_byte fuel v c t room id best byte_id)
          (byte nothing byte_id (greedy-Cover fuel v t room (omega arith)))
  ]
  | inr (id, p, best, len, low) ↦
      let shorter = length-drop (length p) (c ∷ t) in
      let some_byte = low.fits.0 in
      rw (greedy_piece fuel v c t room id p best len) (
        piece low
          (greedy-Cover fuel v (drop (length p) (c ∷ t)) room (omega (arith, shorter, some_byte))))
]

-- The greedy encoder returns, and its ids cover the text from its front until they are as many as
-- there is room for: at each place the longest piece that fits, or where none fits the token of the
-- byte, or the unknown token, or nothing.
pub vocab_encode_greedy-Cover :
    (v : Vocab) (text : Bytes) (max : ℕ) → Cover v max text (vocab_encode_greedy v text max)
unfolding vocab_encode_greedy
vocab_encode_greedy-Cover v text max = greedy-Cover (length text) v text max (omega arith)
