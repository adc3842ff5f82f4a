-- ===== src/Json/Suffix.antt =====
-- Texts that do not end in a backslash, and what stands at the end of a text.
use yllm.Base.Text.{Bytes, drop_while}
use yllm.Base.{
  ℕ, zero, suc, ◌≤◌, ◌≢◌, Bool, [], ◌∷◌, arith, length, drop, ◌==◌, Bool-cases, inl, inr,
}
use yllm.Json.{close_quote}

-- The text does not end in a backslash.
abbrev pub EndsWell : Bytes → Type 0
EndsWell [] = Unit
EndsWell (c ∷ []) = c ≢ b'\\'
EndsWell (c ∷ d ∷ s) = EndsWell (d ∷ s)

pub EndsWell-tail : (c : ℕ) (s : Bytes) → EndsWell (c ∷ s) → EndsWell s
EndsWell-tail c [] h = tt
EndsWell-tail c (d ∷ s) h = h

pub EndsWell-drop : (n : ℕ) (s : Bytes) → EndsWell s → EndsWell (drop n s)
EndsWell-drop zero s h = h
EndsWell-drop (suc n) [] h = tt
EndsWell-drop (suc n) (c ∷ s) h = EndsWell-drop n s (EndsWell-tail c s h)

pub EndsWell-drop_while : (p : ℕ → Bool) (s : Bytes) → EndsWell s → EndsWell (drop_while p s)
EndsWell-drop_while p [] h = tt
EndsWell-drop_while p (c ∷ s) h = elim (Bool-cases (p c)) [
  | inl pass ↦ rw pass (EndsWell-drop_while p s (EndsWell-tail c s h))
  | inr stop ↦ rw stop h
]

pub EndsWell-close_quote : (s : Bytes) → EndsWell s → EndsWell (close_quote s)
EndsWell-close_quote [] h = tt
EndsWell-close_quote (c ∷ s) h = elim (Bool-cases (c == b'"')) [
  | inl quote ↦ rw quote (EndsWell-tail c s h)
  | inr other ↦ rw other h
]

pub length-close_quote-le : (s : Bytes) → length (close_quote s) ≤ length s
length-close_quote-le [] = omega arith
length-close_quote-le (c ∷ s) = ground arith

-- `e` stands at the end of a text.
pub data IsSuffix (e : Bytes) : Bytes → Type 0 where
  all : IsSuffix e e
  behind : {s : Bytes} (c : ℕ) → IsSuffix e s → IsSuffix e (c ∷ s)

pub suffix_trans : {a b c : Bytes} → IsSuffix a b → IsSuffix b c → IsSuffix a c
suffix_trans h all = h
suffix_trans h (behind c k) = behind c (suffix_trans h k)

pub EndsWell-IsSuffix : {a b : Bytes} → IsSuffix a b → EndsWell b → EndsWell a
EndsWell-IsSuffix all h = h
EndsWell-IsSuffix {b} (behind {s} c k) h = EndsWell-IsSuffix k (EndsWell-tail c s h)

pub length-IsSuffix : {a b : Bytes} → IsSuffix a b → length a ≤ length b
length-IsSuffix all = omega arith
length-IsSuffix (behind c h) = omega (arith, length-IsSuffix h)

pub IsSuffix-drop : (n : ℕ) (s : Bytes) → IsSuffix (drop n s) s
IsSuffix-drop zero s = all
IsSuffix-drop (suc n) [] = all
IsSuffix-drop (suc n) (c ∷ s) = behind c (IsSuffix-drop n s)

pub IsSuffix-drop_while : (p : ℕ → Bool) (s : Bytes) → IsSuffix (drop_while p s) s
IsSuffix-drop_while p [] = all
IsSuffix-drop_while p (c ∷ s) = elim (Bool-cases (p c)) [
  | inl pass ↦ rw pass (behind c (IsSuffix-drop_while p s))
  | inr stop ↦ rw stop all
]

pub IsSuffix-close_quote : (s : Bytes) → IsSuffix (close_quote s) s
IsSuffix-close_quote [] = all
IsSuffix-close_quote (c ∷ s) = elim (Bool-cases (c == b'"')) [
  | inl quote ↦ rw quote (behind c all)
  | inr other ↦ rw other all
]
