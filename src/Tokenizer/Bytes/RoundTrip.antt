-- ===== src/Tokenizer/Bytes/RoundTrip.antt =====
-- Bytes that are spelled in the alphabet read back.
use yllm.Base.{
  ◌⊎◌, ◌==◌, holds_below, holds_of_below, ℕ, zero, suc, ◌+◌, ◌*◌, ◌%◌, ◌≤◌, ◌<◌, ◌≡◌, refl, ap, sym,
  ◌∙◌, Bool, true, false, Option, none, some, [], ◌∷◌, ◌++◌, append_assoc, arith, length, ltb, leb,
  All, inl, inr, ◌&&◌,
}
use yllm.Base.Text.{Bytes}
use yllm.Tokenizer.Bytes.{gpt2_byte_str, byte_of, unmap, is_special}

-- Bytes in the alphabet.
unfoldable pub mapped : Bytes → Bytes
mapped [] = []
mapped (b ∷ w) = gpt2_byte_str b ++ mapped w

-- A byte stands alone if it is printable ASCII; any other one takes two bytes.
abbrev Spelled : ℕ → Bytes → Type 0
Spelled b s =
    ((s ≡ b ∷ []) × (b < 0xC2))
    ⊎ ((c : ℕ) × (d : ℕ) × (s ≡ c ∷ d ∷ [])
        × (0xC2 ≤ c)
        × (c < 0xE0)
        × (byte_of (c % 32 * 64 + d % 64) ≡ some b))

-- The same as a test, which runs on all bytes.
reads_back : ℕ → Bytes → Bool
reads_back b [] = false
reads_back b (c ∷ []) = c == b && ltb c 0xC2
reads_back b (c ∷ d ∷ []) =
    leb 0xC2 c && (ltb c 0xE0 && is_some_of b (byte_of (c % 32 * 64 + d % 64)))
  where
    is_some_of : ℕ → Option ℕ → Bool
    is_some_of b none = false
    is_some_of b (some x) = x == b
reads_back b (c ∷ d ∷ e ∷ s) = false

Spelled-reads_back : (b : ℕ) (s : Bytes) → reads_back b s ≡ true → Spelled b s
unfolding reads_back
Spelled-reads_back b [] h = cc
Spelled-reads_back b (c ∷ []) h = inl (ground (arith, h), ground (arith, h))
Spelled-reads_back b (c ∷ d ∷ []) h =
    inr (c, d, refl, ground (arith, h), ground (arith, h), ground (arith, h))
Spelled-reads_back b (c ∷ d ∷ e ∷ s) h = cc

all_read_back : holds_below 256 (λ b. reads_back b (gpt2_byte_str b)) ≡ true
unfolding gpt2_byte_str byte_of is_special reads_back holds_below
all_read_back = refl

gpt2_byte_str-Spelled : (b : ℕ) → b < 256 → Spelled b (gpt2_byte_str b)
gpt2_byte_str-Spelled b h =
    Spelled-reads_back b _
      (holds_of_below 256 (λ c. reads_back c (gpt2_byte_str c)) b all_read_back h)

unmap_two :
    (b c d room : ℕ) (s : Bytes)
    → 0xC2 ≤ c
    → c < 0xE0
    → byte_of (c % 32 * 64 + d % 64) ≡ some b
    → unmap (suc room) (c ∷ d ∷ s) ≡ b ∷ unmap room s
unfolding unmap
unmap_two b c d room s low high e = ground (arith, e)

unmap_one : (c room : ℕ) (s : Bytes) → c < 0xC2 → unmap (suc room) (c ∷ s) ≡ c ∷ unmap room s
unfolding unmap
unmap_one c zero [] h = refl
unmap_one c (suc room) [] h = refl
unmap_one c room (d ∷ s) h = ground arith

unmap-Spelled :
    (b room : ℕ) (t s : Bytes) → Spelled b t → unmap (suc room) (t ++ s) ≡ b ∷ unmap room s
unmap-Spelled b room t s (inl (e, low)) = rw e (unmap_one b room s low)
unmap-Spelled b room t s (inr (c, d, e, low, high, back)) =
    rw e (unmap_two b c d room s low high back)

unmap_nil : (room : ℕ) → unmap room [] ≡ []
unfolding unmap
unmap_nil zero = refl
unmap_nil (suc room) = refl

abbrev pub IsBytes : Bytes → Type 0
IsBytes w = All (λ b. b < 256) w

-- With room for them, bytes that were spelled in the alphabet read back as they were.
pub unmap-mapped : (room : ℕ) (w : Bytes) → IsBytes w → length w ≤ room → unmap room (mapped w) ≡ w
unfolding mapped
unmap-mapped room [] bytes fits = unmap_nil room
unmap-mapped zero (b ∷ w) bytes fits = absurd (omega arith)
unmap-mapped (suc room) (b ∷ w) bytes fits =
    unmap-Spelled b room (gpt2_byte_str b) (mapped w) (gpt2_byte_str-Spelled b bytes.0)
    ∙ ap (◌∷◌ b) (unmap-mapped room w bytes.1 (omega arith))

pub mapped-append : (u w : Bytes) → mapped (u ++ w) ≡ mapped u ++ mapped w
unfolding mapped
mapped-append [] w = refl
mapped-append (b ∷ u) w =
    ap (λ t. gpt2_byte_str b ++ t) (mapped-append u w)
    ∙ sym (append_assoc (gpt2_byte_str b) (mapped u) (mapped w))
