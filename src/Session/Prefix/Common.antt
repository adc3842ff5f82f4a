-- ===== src/Session/Prefix/Common.antt =====
-- What `sess_lcp` computes.
use yllm.Base.{
  ℕ, zero, suc, ◌-◌, ◌≤◌, ◌<◌, min, ◌≡◌, ◌≢◌, refl, ap, inl, inr, false, some, List, [], ◌∷◌, arith,
  ltb, ◌==◌, if◌then◌else◌, Bool-cases, length, get_elem?, get_or, take,
}
use yllm.Base.Int.{ℤ, pos, negsuc}
use yllm.Session.Prefix.{common, trimmed_n, sess_lcp, is_null}
use yllm.Session.Types.{SessVal, words, view, IsBuffered}

-- `p` is the length of the longest common prefix: the lists agree up to `p`, and not one further.
pub record IsCommonPrefix (xs ys : List ℕ) (p : ℕ) : Type 0 where
  pub fits_left : p ≤ length xs
  pub fits_right : p ≤ length ys
  pub agree : take p xs ≡ take p ys
  pub differ : (a b : ℕ) → get_elem? xs p ≡ some a → get_elem? ys p ≡ some b → a ≢ b

-- The list without a last element that is `t`.
abbrev pub drop_end : ℕ → List ℕ → List ℕ
drop_end t [] = []
drop_end t (x ∷ []) = if x == t then [] else x ∷ []
drop_end t (x ∷ y ∷ r) = x ∷ drop_end t (y ∷ r)

abbrev pub trim : ℤ → List ℕ → List ℕ
trim (pos t) xs = drop_end t xs
trim (negsuc _) xs = xs

common-IsCommonPrefix :
    (k : ℕ) (xs ys : List ℕ)
    → k ≤ length xs
    → IsCommonPrefix (take k xs) ys (common (min k (length ys)) xs ys)
unfolding common
common-IsCommonPrefix zero xs ys h = rw (min_zero (length ys)) (record {
  fits_left = omega arith;
  fits_right = omega arith;
  agree = refl;
  differ = λ a b p q. ground arith;
})
  where
    min_zero : (n : ℕ) → min 0 n ≡ 0
    min_zero n = omega arith
common-IsCommonPrefix (suc k) [] ys h = absurd (omega arith)
common-IsCommonPrefix (suc k) (x ∷ xs) [] h = rw none_left (record {
  fits_left = omega arith;
  fits_right = omega arith;
  agree = refl;
  differ = λ a b p q. ground arith;
})
  where
    none_left : min (suc k) 0 ≡ 0
    none_left = omega arith
common-IsCommonPrefix (suc k) (x ∷ xs) (y ∷ ys) h = rw next (elim (Bool-cases (x == y)) [
  | inl same ↦
      let rest = common-IsCommonPrefix k xs ys (omega arith) in
      rw same (record {
        fits_left = omega (arith, rest.fits_left);
        fits_right = omega (arith, rest.fits_right);
        agree = ground (arith, rest.agree);
        differ = λ a b p q. rest.differ a b p q;
      })
  | inr other ↦ rw other (record {
    fits_left = omega arith;
    fits_right = omega arith;
    agree = refl;
    differ = λ a b p q e. ground arith;
  })
])
  where
    next : min (suc k) (suc (length ys)) ≡ suc (min k (length ys))
    next = omega arith

take-drop_end :
    (t m : ℕ) (xs : List ℕ)
    → m < length xs
    → drop_end t (take (suc m) xs) ≡ (if get_or xs m 0 == t then take m xs else take (suc m) xs)
take-drop_end t m [] h = elim h [ ]
take-drop_end t zero (x ∷ xs) h = refl
take-drop_end t (suc m) (x ∷ []) h = absurd (omega arith)
take-drop_end t (suc m) (x ∷ y ∷ xs) h = ground (arith, take-drop_end t m (y ∷ xs))

take-trimmed_n :
    (e : SessVal) (eos : ℤ)
    → IsBuffered e
    → take (trimmed_n e eos) (words e.tokens) ≡ trim eos (view e)
unfolding trimmed_n
take-trimmed_n e (negsuc _) ok = refl
take-trimmed_n e (pos t) ok = elim (Bool-cases (ltb 0 e.n)) [
  | inl some_n ↦
      let n_suc : e.n ≡ suc (e.n - 1) = ground arith in
      ground (
        arith,
        take-drop_end t (e.n - 1) (words e.tokens),
        ok.sized,
        ok.fits,
        ap (λ k. take k (words e.tokens)) n_suc,
      )
  | inr no_n ↦ let n_zero : e.n ≡ 0 = ground arith in rw n_zero refl
]

trimmed_n-le : (e : SessVal) (eos : ℤ) → trimmed_n e eos ≤ e.n
unfolding trimmed_n
trimmed_n-le e (negsuc _) = omega arith
trimmed_n-le e (pos t) = ground arith

-- The result of `sess_lcp` is the length of the longest common prefix of the request and the cached
-- tokens, of which a last `eos` is left out.
pub sess_lcp-IsCommonPrefix :
    (e : SessVal) (req : List ℕ) (eos : ℤ)
    → IsBuffered e
    → is_null e.tokens ≡ false
    → IsCommonPrefix (trim eos (view e)) req (sess_lcp (some e) (some req) eos)
unfolding sess_lcp
sess_lcp-IsCommonPrefix e req eos ok there =
    rw (there, ← take-trimmed_n e eos ok)
      (common-IsCommonPrefix (trimmed_n e eos) (words e.tokens) req
        (omega (arith, trimmed_n-le e eos, ok.sized, ok.fits)))
