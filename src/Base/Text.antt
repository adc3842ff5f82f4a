-- ===== src/Base/Text.antt =====
-- C strings as lists of bytes: the bytes before the terminating NUL. A pointer into a string is the
-- suffix that it points at, and reading at the end of the list gives the NUL.
use Prim.Native.Char.{code}
use Prim.Native.Nat.{ℕ, ◌≤◌}
use Prim.Native.String.{String}
use mathlib.Core.Bool.{Bool, true, false, ◌&&◌}
use mathlib.Core.List.{List, [], ◌∷◌, ◌++◌}
use mathlib.Core.Logic.{◌↔◌, ◌≢◌, inl, inr}
use mathlib.Core.Path.{◌≡◌, refl, ap}
use native.Mathlib.Omega.{arith}
use yllm.Base.Decisions.{◌==◌, if◌then◌else◌, Bool-cases}
use yllm.Base.Lists.{length, All}

abbrev pub Bytes : Type 0
Bytes = List ℕ

-- The bytes of an ASCII literal.
abbrev pub codes : String → Bytes
codes String.[] = []
codes (String.◌∷◌ c s) = code c ∷ codes s

-- `*p`
abbrev pub head_byte : Bytes → ℕ
head_byte [] = 0
head_byte (c ∷ cs) = c

abbrev pub is_empty : Bytes → Bool
is_empty [] = true
is_empty (c ∷ s) = false

-- `strcmp(a, b) == 0`
unfoldable pub equal : Bytes → Bytes → Bool
equal [] [] = true
equal (c ∷ s) (d ∷ t) = c == d && equal s t
equal _ _ = false

pub equal_iff : (s t : Bytes) → (equal s t ≡ true) ↔ (s ≡ t)
unfolding equal
equal_iff [] [] = ground arith
equal_iff [] (c ∷ t) = ground arith
equal_iff (c ∷ s) [] = ground arith
equal_iff (c ∷ s) (d ∷ t) = ground (arith, equal_iff s t)

pub equal_refl : (a : Bytes) → equal a a ≡ true
equal_refl a = (equal_iff a a).1 refl

pub is_empty_ne : (s : Bytes) → s ≢ [] → is_empty s ≡ false
is_empty_ne [] ne = absurd (ne refl)
is_empty_ne (c ∷ s) ne = refl

pub equal_ne : (s t : Bytes) → s ≢ t → equal s t ≡ false
equal_ne s t ne = elim (Bool-cases (equal s t)) [
  | inl same ↦ absurd (ne ((equal_iff s t).0 same))
  | inr differ ↦ differ
]

-- The loop `while (*p && test(*p)) p++;`: the bytes that it passes, and where it stops.
abbrev pub take_while : (ℕ → Bool) → Bytes → Bytes
take_while p [] = []
take_while p (c ∷ cs) = if p c then c ∷ take_while p cs else []

abbrev pub drop_while : (ℕ → Bool) → Bytes → Bytes
drop_while p [] = []
drop_while p (c ∷ cs) = if p c then drop_while p cs else c ∷ cs

pub take_while-append-drop_while : (p : ℕ → Bool) (s : Bytes) → take_while p s ++ drop_while p s ≡ s
take_while-append-drop_while p [] = refl
take_while-append-drop_while p (c ∷ cs) = ground (arith, take_while-append-drop_while p cs)

pub length-drop_while-le : (p : ℕ → Bool) (s : Bytes) → length (drop_while p s) ≤ length s
length-drop_while-le p [] = omega arith
length-drop_while-le p (c ∷ cs) = ground (arith, length-drop_while-le p cs)

pub take_while-append_stop :
    (p : ℕ → Bool) (s : Bytes) (c : ℕ) (r : Bytes)
    → All (λ b. p b ≡ true) s
    → p c ≡ false
    → take_while p (s ++ c ∷ r) ≡ s
take_while-append_stop p [] c r a h = rw h
take_while-append_stop p (x ∷ s) c r a h =
    rw a.0 (ap (◌∷◌ x) (take_while-append_stop p s c r a.1 h))

pub drop_while-append_stop :
    (p : ℕ → Bool) (s : Bytes) (c : ℕ) (r : Bytes)
    → All (λ b. p b ≡ true) s
    → p c ≡ false
    → drop_while p (s ++ c ∷ r) ≡ c ∷ r
drop_while-append_stop p [] c r a h = rw h
drop_while-append_stop p (x ∷ s) c r a h = rw a.0 (drop_while-append_stop p s c r a.1 h)

pub take_while-All : (p : ℕ → Bool) (s : Bytes) → All (λ b. p b ≡ true) s → take_while p s ≡ s
take_while-All p [] a = refl
take_while-All p (x ∷ s) a = rw a.0 (ap (◌∷◌ x) (take_while-All p s a.1))

pub drop_while-All : (p : ℕ → Bool) (s : Bytes) → All (λ b. p b ≡ true) s → drop_while p s ≡ []
drop_while-All p [] a = refl
drop_while-All p (x ∷ s) a = rw a.0 (drop_while-All p s a.1)
