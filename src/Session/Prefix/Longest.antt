-- ===== src/Session/Prefix/Longest.antt =====
-- What `sess_find_prefix` finds.
use yllm.Base.{
  ℕ, zero, suc, ◌≤◌, ◌<◌, ◌≡◌, refl, ◌∙◌, ap, ◌⊎◌, inl, inr, true, false, ◌&&◌, Option, none, some,
  List, [], ◌∷◌, ◌++◌, arith, ltb, if◌then◌else◌, Bool-cases, length, get_elem?, take, take-append,
  All, All-append, append_assoc, append-nil, get_elem?-append_left, get_elem?-append_length,
  length-append, lt-length_of_some,
}
use yllm.Base.Int.{ℤ}
use yllm.Session.Prefix.{sess_lcp, is_usable, best_from, sess_find_prefix}
use yllm.Session.Types.{SessVal, SessCache}

-- What an entry has in common with the request; nothing, if the search passes it over.
abbrev pub score : List ℕ → ℤ → SessVal → ℕ
score req eos e = if is_usable e then sess_lcp (some e) (some req) eos else 0

-- No entry scores more than `p`, and `best` is the first entry that scores `p`, if that is not 0.
abbrev pub IsBest : List ℕ → ℤ → List SessVal → Option ℕ → ℕ → Type 0
IsBest req eos es best p =
    All (λ e. score req eos e ≤ p) es
    × (((best ≡ none) × (p ≡ 0))
        ⊎ ((i : ℕ) × (e : SessVal) × (best ≡ some i)
            × (get_elem? es i ≡ some e)
            × (score req eos e ≡ p)
            × (0 < p)
            × All (λ x. score req eos x < p) (take i es)))

All-mono :
    (f : SessVal → ℕ) (p q : ℕ) (es : List SessVal)
    → p ≤ q
    → All (λ e. f e ≤ p) es
    → All (λ e. f e ≤ q) es
All-mono f p q [] h a = tt
All-mono f p q (e ∷ es) h a = (omega arith, All-mono f p q es h a.1)

All-below :
    (f : SessVal → ℕ) (p q : ℕ) (es : List SessVal)
    → p < q
    → All (λ e. f e ≤ p) es
    → All (λ e. f e < q) es
All-below f p q [] h a = tt
All-below f p q (e ∷ es) h a = (omega (arith, a.0), All-below f p q es h a.1)

take-append_le : (i : ℕ) (xs ys : List SessVal) → i < length xs → take i (xs ++ ys) ≡ take i xs
take-append_le zero xs ys h = refl
take-append_le (suc i) [] ys h = absurd (omega arith)
take-append_le (suc i) (x ∷ xs) ys h = ap (λ t. x ∷ t) (take-append_le i xs ys (omega arith))

IsBest-append :
    (req : List ℕ) (eos : ℤ) (seen : List SessVal) (e : SessVal) (best : Option ℕ) (p : ℕ)
    → IsBest req eos seen best p
    → score req eos e ≤ p
    → IsBest req eos (seen ++ e ∷ []) best p
IsBest-append req eos seen e best p (below, found) h = (
  All-append _ seen (e ∷ []) below (h, tt),
  elim found [
    | inl nothing ↦ inl nothing
    | inr (i, o, at, is, q, pos_p, first) ↦ inr (
      i,
      o,
      at,
      get_elem?-append_left seen (e ∷ []) i (lt-length_of_some seen i o is) ∙ is,
      q,
      pos_p,
      rw (take-append_le i seen (e ∷ []) (lt-length_of_some seen i o is)) first,
    )
  ],
)

module _ (req : List ℕ) (eos : ℤ) (i : ℕ) (best : Option ℕ) (p : ℕ) (e : SessVal)
    (es : List SessVal) where
  best_from_better :
      (is_usable e && ltb p (sess_lcp (some e) (some req) eos)) ≡ true
      → best_from req eos i best p (e ∷ es)
        ≡ best_from req eos (suc i) (some i) (sess_lcp (some e) (some req) eos) es
  unfolding best_from
  best_from_better h = rw (h, best_from)

  best_from_worse :
      (is_usable e && ltb p (sess_lcp (some e) (some req) eos)) ≡ false
      → best_from req eos i best p (e ∷ es) ≡ best_from req eos (suc i) best p es
  unfolding best_from
  best_from_worse h = rw (h, best_from)

best_from-IsBest :
    (req : List ℕ) (eos : ℤ) (seen es : List SessVal) (best : Option ℕ) (p : ℕ)
    → IsBest req eos seen best p
    → IsBest req eos
        (seen ++ es)
        (best_from req eos (length seen) best p es).0
        (best_from req eos (length seen) best p es).1
best_from-IsBest req eos seen [] best p b = rw append-nil (unfold best_from in b)
best_from-IsBest req eos seen (e ∷ es) best p b =
    elim (Bool-cases (is_usable e && ltb p (sess_lcp (some e) (some req) eos))) [
      | inl better ↦
          let q = sess_lcp (some e) (some req) eos in
          rw (best_from_better req eos (length seen) best p e es better) (
            rw (← append_assoc seen (e ∷ []) es, ← next)
              (best_from-IsBest req eos (seen ++ e ∷ []) es (some (length seen)) q (
                All-append _ seen (e ∷ []) (All-mono (score req eos) p q seen (ground arith) b.0)
                    (ground arith, tt),
                inr (
                  length seen,
                  e,
                  refl,
                  get_elem?-append_length seen e,
                  ground arith,
                  ground arith,
                  rw (take-append seen (e ∷ []))
                      (All-below (score req eos) p q seen (ground arith) b.0),
                ),
              )))
      | inr worse ↦ rw (best_from_worse req eos (length seen) best p e es worse) (
          rw (← append_assoc seen (e ∷ []) es, ← next)
            (best_from-IsBest req eos (seen ++ e ∷ []) es best p
              (IsBest-append req eos seen e best p b (ground arith))))
    ]
  where
    next : length (seen ++ e ∷ []) ≡ suc (length seen)
    next = omega (arith, length-append seen (e ∷ []))

-- For a request that is not empty, `sess_find_prefix` returns the first usable entry with the
-- longest common prefix, and its length, which no other usable entry exceeds and no earlier one
-- reaches; it returns null and 0 exactly if no usable entry has a token in common.
pub sess_find_prefix-IsBest :
    (now : ℕ) (t : ℕ) (ts : List ℕ) (eos : ℤ) (c : SessCache)
    → IsBest
        (t ∷ ts)
        eos
        c.v
        (sess_find_prefix now (some (t ∷ ts)) eos c).1
        (sess_find_prefix now (some (t ∷ ts)) eos c).2
unfolding sess_find_prefix
sess_find_prefix-IsBest now t ts eos c = (
  b.0,
  elim b.1 [
    | inl (nothing, zero_p) ↦ inl (rw zero_p (refl), zero_p)
    | inr (i, e, at, is, q, pos_p, first) ↦ inr (i, e, ground arith, is, q, pos_p, first)
  ],
)
  where
    b :
        IsBest
          (t ∷ ts)
          eos
          c.v
          (best_from (t ∷ ts) eos 0 none 0 c.v).0
          (best_from (t ∷ ts) eos 0 none 0 c.v).1
    b = best_from-IsBest (t ∷ ts) eos [] c.v none 0 (tt, inl (refl, refl))
