-- ===== src/Session/Buffer/Growth.antt =====
-- When the doubling loop of `sess_grow` ends.
use native.Mathlib.Nat.{pow-suc, pow-succ', mul_assoc}
use yllm.Base.{
  ℕ, zero, suc, ◌*◌, ◌%◌, ◌^◌, ◌≤◌, ◌<◌, ◌≡◌, refl, ◌∙◌, arith, ltb, lt→ltb, Bool-cases, inl, inr,
}
use yllm.Base.Outcome.{done, hang}
use yllm.Session.Buffer.{grow_cap}

pow-pos : (j : ℕ) → 0 < 2 ^ j
pow-pos zero = omega arith
pow-pos (suc j) = omega (arith, pow-suc 2 j, pow-pos j)

double_pow : (nc j : ℕ) → nc * 2 * 2 ^ j ≡ nc * 2 ^ suc j
double_pow nc j = rw (pow-succ' 2 j) (mul_assoc nc 2 (2 ^ j))

-- One round that does not wrap.
grow_cap_round :
    (fuel nc need : ℕ)
    → nc < need
    → nc * 2 < 2 ^ 32
    → grow_cap (suc fuel) nc need ≡ grow_cap fuel (nc * 2) need
unfolding grow_cap
grow_cap_round fuel nc need lt small =
    let no_wrap : (nc * 2) % 2 ^ 32 ≡ nc * 2 = omega arith in rw (lt→ltb nc need lt, no_wrap)

-- Up to 2 ^ 31 words the loop ends, with a size that is enough.
pub grow_cap_ends :
    (fuel j nc need : ℕ)
    → j < fuel
    → 2 ^ 31 ≤ nc * 2 ^ j
    → nc < 2 ^ 32
    → need ≤ 2 ^ 31
    → (r : ℕ) × (grow_cap fuel nc need ≡ done r) × (need ≤ r) × (nc ≤ r) × (r < 2 ^ 32)
unfolding grow_cap
grow_cap_ends zero j nc need h p w n = absurd (omega arith)
grow_cap_ends (suc fuel) zero nc need h p w n = (nc, ground arith, omega arith, omega arith, w)
grow_cap_ends (suc fuel) (suc j) nc need h p w n = elim (Bool-cases (ltb nc need)) [
  | inl more ↦
      let lt : nc < need = ground arith in
      let (r, e, enough, above, small) =
        grow_cap_ends fuel j (nc * 2) need (omega arith) (omega (arith, double_pow nc j))
          (omega arith) n in
      (r, grow_cap_round fuel nc need lt (omega arith) ∙ e, enough, omega arith, small)
  | inr stop ↦ (nc, rw stop, ground arith, omega arith, w)
]

zero_hangs : (fuel need : ℕ) → 0 < need → grow_cap fuel 0 need ≡ hang
unfolding grow_cap
zero_hangs zero need h = refl
zero_hangs (suc fuel) need h = ground (arith, zero_hangs fuel need h)

-- Above that it never ends, if it starts at a power of two: the doubling wraps to 0.
pub grow_cap_hangs :
    (fuel j nc need : ℕ) → nc * 2 ^ j ≡ 2 ^ 31 → 2 ^ 31 < need → grow_cap fuel nc need ≡ hang
unfolding grow_cap
grow_cap_hangs zero j nc need p n = refl
grow_cap_hangs (suc fuel) zero nc need p n = ground (arith, zero_hangs fuel need)
grow_cap_hangs (suc fuel) (suc j) nc need p n =
    let doubled : nc * 2 * 2 ^ j ≡ 2 ^ 31 = double_pow nc j ∙ p in
    let small : nc * 2 ≤ 2 ^ 31 = grind (arith, pow-pos j) in
    let below : nc < need = grind (arith, pow-pos j) in
    grow_cap_round fuel nc need below (omega arith)
    ∙ (grow_cap_hangs fuel j (nc * 2) need doubled n)
