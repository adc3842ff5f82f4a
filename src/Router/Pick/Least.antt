-- ===== src/Router/Pick/Least.antt =====
-- The choice of `pick_server` by the fewest requests in flight.
use yllm.Base.{
  ℕ, suc, ◌≡◌, refl, ◌∙◌, inl, inr, true, false, ◌&&◌, Option, none, some, List, [], ◌∷◌, ◌++◌,
  arith, append_assoc, append-nil, ◌==◌, Bool-cases, length, get_elem?, All, All-append,
  length-append, get_elem?-append_left, get_elem?-append_length, lt-length_of_some,
}
use yllm.Base.Int.{◌≤ℤ◌, ℤ}
use yllm.Base.Outcome.{done}
use yllm.Base.Text.{Bytes}
use yllm.Router.Pick.{serves, improves, count_serving, least_from, is_round_robin, pick_server}
use yllm.Router.Types.{RtServer, Router}

module _ {D : Type 0} (model : Bytes) where
  -- Every entry that serves the model has at least `m` requests in flight.
  abbrev pub NoneBelow : ℤ → List (RtServer D) → Type 0
  NoneBelow m = All (λ s. serves model s ≡ true → m ≤ℤ s.inflight)

  -- The best entry so far, with its requests, among the entries seen.
  abbrev pub IsLeast : List (RtServer D) → Option ℕ → Option ℤ → Type 0
  IsLeast ss best none = (best ≡ none) × All (λ s. serves model s ≡ false) ss
  IsLeast ss best (some m) =
      (i : ℕ) × (s : RtServer D) × (best ≡ some i)
      × (get_elem? ss i ≡ some s)
      × (s.inflight ≡ m)
      × (serves model s ≡ true)
      × NoneBelow m ss

  -- The same of the result alone.
  abbrev pub IsChoice : List (RtServer D) → Option ℕ → Type 0
  IsChoice ss none = All (λ s. serves model s ≡ false) ss
  IsChoice ss (some i) =
      (s : RtServer D) × (get_elem? ss i ≡ some s)
      × (serves model s ≡ true)
      × NoneBelow s.inflight ss

  NoneBelow-mono : (m k : ℤ) (ss : List (RtServer D)) → m ≤ℤ k → NoneBelow k ss → NoneBelow m ss
  NoneBelow-mono m k [] h a = tt
  NoneBelow-mono m k (s ∷ ss) h a = ((λ p. le_trans_ℤ (a.0 p)), NoneBelow-mono m k ss h a.1)
    where
      le_trans_ℤ : k ≤ℤ s.inflight → m ≤ℤ s.inflight
      le_trans_ℤ q = omega arith

  none-NoneBelow :
      (m : ℤ) (ss : List (RtServer D)) → All (λ s. serves model s ≡ false) ss → NoneBelow m ss
  none-NoneBelow m [] a = tt
  none-NoneBelow m (s ∷ ss) a = ((λ p. absurd (ground arith)), none-NoneBelow m ss a.1)

  IsLeast-IsChoice :
      (ss : List (RtServer D)) (best : Option ℕ) (least : Option ℤ)
      → IsLeast ss best least
      → IsChoice ss best
  IsLeast-IsChoice ss best none (e, a) = rw e a
  IsLeast-IsChoice ss best (some m) (i, s, e, at, q, yes_s, below) = rw e (s, at, yes_s, rw q below)

  module _ (i : ℕ) (best : Option ℕ) (least : Option ℤ) (s : RtServer D)
      (ss : List (RtServer D)) where
    least_from_better :
        (serves model s && improves least s) ≡ true
        → least_from model i best least (s ∷ ss)
          ≡ least_from model (suc i) (some i) (some s.inflight) ss
    unfolding least_from
    least_from_better h = rw (h, least_from)

    least_from_worse :
        (serves model s && improves least s) ≡ false
        → least_from model i best least (s ∷ ss) ≡ least_from model (suc i) best least ss
    unfolding least_from
    least_from_worse h = rw (h, least_from)

  -- One more entry that is no better.
  IsLeast-append :
      (seen : List (RtServer D)) (s : RtServer D) (best : Option ℕ) (least : Option ℤ)
      → IsLeast seen best least
      → (serves model s && improves least s) ≡ false
      → IsLeast (seen ++ s ∷ []) best least
  IsLeast-append seen s best none (e, a) h = (e, All-append _ seen (s ∷ []) a (ground arith, tt))
  IsLeast-append seen s best (some m) (i, t, e, at, q, yes_t, below) h = (
    i,
    t,
    e,
    get_elem?-append_left seen (s ∷ []) i (lt-length_of_some seen i t at) ∙ at,
    q,
    yes_t,
    All-append _ seen (s ∷ []) below ((λ p. ground arith), tt),
  )

  -- One more entry that is better.
  IsLeast-better :
      (seen : List (RtServer D)) (s : RtServer D) (best : Option ℕ) (least : Option ℤ)
      → IsLeast seen best least
      → (serves model s && improves least s) ≡ true
      → IsLeast (seen ++ s ∷ []) (some (length seen)) (some s.inflight)
  IsLeast-better seen s best none (e, a) h = (
    length seen,
    s,
    refl,
    get_elem?-append_length seen s,
    refl,
    ground arith,
    All-append _ seen (s ∷ []) (none-NoneBelow s.inflight seen a) ((λ p. omega arith), tt),
  )
  IsLeast-better seen s best (some m) (i, t, e, at, q, yes_t, below) h = (
    length seen,
    s,
    refl,
    get_elem?-append_length seen s,
    refl,
    ground arith,
    All-append _ seen (s ∷ []) (NoneBelow-mono s.inflight m seen (ground arith) below)
        ((λ p. omega arith), tt),
  )

  least_from-IsChoice :
      (seen ss : List (RtServer D)) (best : Option ℕ) (least : Option ℤ)
      → IsLeast seen best least
      → IsChoice (seen ++ ss) (least_from model (length seen) best least ss)
  least_from-IsChoice seen [] best least l =
      rw append-nil (unfold least_from in IsLeast-IsChoice seen best least l)
  least_from-IsChoice seen (s ∷ ss) best least l =
      elim (Bool-cases (serves model s && improves least s)) [
        | inl better ↦
            rw
              (
                least_from_better (length seen) best least s ss better,
                ← append_assoc seen (s ∷ []) ss,
                ← next,
              )
              (least_from-IsChoice (seen ++ s ∷ []) ss (some (length seen)) (some s.inflight)
                (IsLeast-better seen s best least l better))
        | inr worse ↦
            rw
              (
                least_from_worse (length seen) best least s ss worse,
                ← append_assoc seen (s ∷ []) ss,
                ← next,
              )
              (least_from-IsChoice (seen ++ s ∷ []) ss best least
                (IsLeast-append seen s best least l worse))
      ]
    where
      next : length (seen ++ s ∷ []) ≡ suc (length seen)
      next = omega (arith, length-append seen (s ∷ []))

  none_serving :
      (ss : List (RtServer D)) → count_serving model ss ≡ 0 → All (λ s. serves model s ≡ false) ss
  unfolding count_serving
  none_serving [] h = tt
  none_serving (s ∷ ss) h = elim (Bool-cases (serves model s)) [
    | inl one ↦ absurd (ground arith)
    | inr no_s ↦ (no_s, none_serving ss (ground arith))
  ]

  -- With a free mutex and without the round-robin strategy `pick_server` returns a ready server of
  -- the model that has no more requests in flight than any other such server, or null if there is
  -- none. It changes nothing, and the mutex is free again.
  pub pick_server-IsChoice :
      (r : Router D)
      → r.locked ≡ false
      → is_round_robin r.strategy ≡ false
      → (i : Option ℕ) × (pick_server model r ≡ done (r, i)) × IsChoice r.servers i
  unfolding pick_server
  pick_server-IsChoice r free least = elim (Bool-cases (count_serving model r.servers == 0)) [
    | inl nothing ↦ (none, ground arith, none_serving r.servers (ground arith))
    | inr some_s ↦ (
      least_from model 0 none none r.servers,
      ground arith,
      least_from-IsChoice [] r.servers none none (refl, tt),
    )
  ]
