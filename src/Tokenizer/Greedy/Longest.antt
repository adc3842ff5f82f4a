-- ===== src/Tokenizer/Greedy/Longest.antt =====
-- The greedy encoder takes the longest piece at each place.
use yllm.Base.{
  ℕ, zero, suc, ◌+◌, ◌≤◌, ◌<◌, ◌≡◌, refl, ◌⊎◌, inl, inr, true, ◌||◌, not, some, List, [], ◌∷◌,
  arith, length, get_elem?, ltb, ◌==◌, Bool-cases,
}
use yllm.Base.Text.{Bytes}
use yllm.Tokenizer.Greedy.{Match, match_from}
use yllm.Tokenizer.Specials.{begins_with}

-- A piece that is not empty stands at the front of the text.
abbrev pub Fits : Bytes → Bytes → Type 0
Fits text p = (0 < length p) × (begins_with p text ≡ true)

-- The piece at `i` fits; no other is longer, and none behind it is as long.
pub record IsLongest (text : Bytes) (ps : List Bytes) (i : ℕ) (p : Bytes) : Type 0 where
  pub here : get_elem? ps i ≡ some p
  pub fits : Fits text p
  pub longest : (j : ℕ) (q : Bytes) → get_elem? ps j ≡ some q → Fits text q → length q ≤ length p
  pub last :
      (j : ℕ) (q : Bytes) → get_elem? ps j ≡ some q → Fits text q → i < j → length q < length p

-- The pieces that fit are shorter than `n`.
abbrev pub AllBelow : Bytes → List Bytes → ℕ → Type 0
AllBelow text ps n = (j : ℕ) (q : Bytes) → get_elem? ps j ≡ some q → Fits text q → length q < n

abbrev pub IsMatch : Bytes → ℕ → List Bytes → Match → Match → Type 0
IsMatch text i ps m r =
    ((r ≡ m) × AllBelow text ps m.bestlen)
    ⊎ ((j : ℕ) × (p : Bytes) × (r ≡ record { best = some (i + j); bestlen = length p })
        × (m.bestlen ≤ length p)
        × IsLongest text ps j p)

AllBelow-cons :
    (text pc : Bytes) (ps : List Bytes) (n : ℕ)
    → (Fits text pc → length pc < n)
    → AllBelow text ps n
    → AllBelow text (pc ∷ ps) n
AllBelow-cons text pc ps n front rest zero q at fits =
    let e : pc ≡ q = cc at in rw (← e) (front (rw e fits))
AllBelow-cons text pc ps n front rest (suc j) q at fits = rest j q at fits

IsLongest-cons :
    (text pc : Bytes) (ps : List Bytes) (i : ℕ) (p : Bytes)
    → (Fits text pc → length pc ≤ length p)
    → IsLongest text ps i p
    → IsLongest text (pc ∷ ps) (suc i) p
IsLongest-cons text pc ps i p front low = record {
  here = low.here;
  fits = low.fits;
  longest = all;
  last = behind;
}
  where
    all : (j : ℕ) (q : Bytes) → get_elem? (pc ∷ ps) j ≡ some q → Fits text q → length q ≤ length p
    all zero q at fits = let e : pc ≡ q = cc at in rw (← e) (front (rw e fits))
    all (suc j) q at fits = low.longest j q at fits

    behind :
        (j : ℕ) (q : Bytes)
        → get_elem? (pc ∷ ps) j ≡ some q
        → Fits text q
        → suc i < j
        → length q < length p
    behind zero q at fits less = absurd (omega arith)
    behind (suc j) q at fits less = low.last j q at fits (omega arith)

IsLongest-here :
    (text pc : Bytes) (ps : List Bytes)
    → Fits text pc
    → AllBelow text ps (length pc)
    → IsLongest text (pc ∷ ps) zero pc
IsLongest-here text pc ps fits rest = record {
  here = refl;
  fits = fits;
  longest = all;
  last = behind;
}
  where
    all : (j : ℕ) (q : Bytes) → get_elem? (pc ∷ ps) j ≡ some q → Fits text q → length q ≤ length pc
    all zero q at fits' = let e : pc ≡ q = cc at in rw (← e) (omega arith)
    all (suc j) q at fits' = omega (arith, rest j q at fits')

    behind :
        (j : ℕ) (q : Bytes)
        → get_elem? (pc ∷ ps) j ≡ some q
        → Fits text q
        → 0 < j
        → length q < length pc
    behind zero q at fits' less = absurd (omega arith)
    behind (suc j) q at fits' less = rest j q at fits'

module _ (text : Bytes) (i : ℕ) (pc : Bytes) (ps : List Bytes) (m r : Match) where
  skip_front :
      (Fits text pc → length pc < m.bestlen)
      → IsMatch text (i + 1) ps m r
      → IsMatch text i (pc ∷ ps) m r
  skip_front front (inl (same, rest)) = inl (same, AllBelow-cons text pc ps m.bestlen front rest)
  skip_front front (inr (j, p, is, more, low)) =
      let e : i + 1 + j ≡ i + suc j = omega arith in
      inr (
        suc j,
        p,
        rw (← e) is,
        more,
        IsLongest-cons text pc ps j p (λ f. omega (arith, front f)) low,
      )

  take_front :
      Fits text pc
      → m.bestlen ≤ length pc
      → IsMatch text (i + 1) ps (record { best = some i; bestlen = length pc }) r
      → IsMatch text i (pc ∷ ps) m r
  take_front fits more (inl (same, rest)) =
      let e : i + 0 ≡ i = omega arith in
      inr (0, pc, rw e same, more, IsLongest-here text pc ps fits rest)
  take_front fits more (inr (j, p, is, more', low)) =
      let e : i + 1 + j ≡ i + suc j = omega arith in
      inr (suc j, p, rw (← e) is, omega arith, IsLongest-cons text pc ps j p (λ f. more') low)

pub match_from-IsMatch :
    (text : Bytes) (i : ℕ) (ps : List Bytes) (m : Match)
    → IsMatch text i ps m (match_from text i ps m)
unfolding match_from
match_from-IsMatch text i [] m = inl (refl, λ j q h. cc)
match_from-IsMatch text i (pc ∷ ps) m =
    elim (Bool-cases ((length pc == 0 || ltb (length pc) m.bestlen) || not (begins_with pc text))) [
      | inl skip ↦ rw skip (
          skip_front text i pc ps m _ (λ f. ground (arith, skip, f))
            (match_from-IsMatch text (i + 1) ps m))
      | inr take ↦ rw take (
          take_front text i pc ps m _ (ground (arith, take), ground (arith, take))
            (ground (arith, take))
            (match_from-IsMatch text (i + 1) ps (record { best = some i; bestlen = length pc })))
    ]
