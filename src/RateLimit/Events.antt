-- ===== src/RateLimit/Events.antt =====
-- What an event at the limiter makes of its slot and of the others.
use native.Mathlib.Nat.{le_refl}
use yllm.Base.{
  ℕ, zero, suc, ◌+◌, ◌%◌, ◌≤◌, ◌<◌, ◌≡◌, ◌≢◌, refl, sym, ◌∙◌, ap, subst, inl, inr, List, [], ◌∷◌,
  arith, ◌==◌, if◌then◌else◌, Bool-cases, All, length,
}
use yllm.RateLimit.Slots.{OldAt, LastAt, IsUsed, IsSlot, AllSlots}
use yllm.RateLimit.Window.{Event, request, tokens, History, requests_in, tokens_in, total_at}
use yllm.RateLimit.{window_secs, RlSlot, rl_slot_reset, modify, add_req, add_tok}

-- What an event at the time `now` makes of its slot.
abbrev add_event : ℕ → Event → RlSlot → RlSlot
add_event now request s = add_req now s
add_event now (tokens n) s = add_tok now n s

module _ (now : ℕ) (s : RlSlot) where
  sec-add_event : (e : Event) → (add_event now e s).sec ≡ now
  unfolding rl_slot_reset
  sec-add_event request = ground arith
  sec-add_event (tokens n) = ground arith

  req-add_event :
      (e : Event) → (add_event now e s).req ≡ (if s.sec == now then s.req else 0) + requests_in e
  unfolding rl_slot_reset
  req-add_event request = ground arith
  req-add_event (tokens n) = ground arith

  tok-add_event :
      (e : Event) → (add_event now e s).tok ≡ (if s.sec == now then s.tok else 0) + tokens_in e
  unfolding rl_slot_reset
  tok-add_event request = ground arith
  tok-add_event (tokens n) = ground arith

module _ (h : History) (now : ℕ) (e : Event) where
  OldAt-cons_ne : (k : ℕ) → OldAt k now h → now % window_secs ≢ k → OldAt k now ((now, e) ∷ h)
  OldAt-cons_ne k o ne = ((λ r. absurd (ne r)), o)

  total_at-cons_ne :
      (w : Event → ℕ) (last : ℕ) → now ≢ last → total_at w last ((now, e) ∷ h) ≡ total_at w last h
  unfolding total_at
  total_at-cons_ne w last ne = ground arith

  -- The other slots.
  IsSlot-cons_ne :
      (k : ℕ) (s : RlSlot)
      → IsSlot h now k s
      → now % window_secs ≢ k
      → IsSlot ((now, e) ∷ h) now k s
  IsSlot-cons_ne k s (inl (empty, old)) ne = inl (empty, OldAt-cons_ne k old ne)
  IsSlot-cons_ne k s (inr u) ne =
      let apart : now ≢ s.sec = λ q. ne (ap (λ x. x % window_secs) q ∙ u.residue) in
      inr (record {
        positive = u.positive;
        residue = u.residue;
        past = u.past;
        reqs = u.reqs ∙ sym (total_at-cons_ne requests_in s.sec apart);
        toks = u.toks ∙ sym (total_at-cons_ne tokens_in s.sec apart);
        last = ((λ r. absurd (ne r)), u.last);
      })

  -- Nothing happened yet in a second that is later than all of the slot's events.
  total_at-later :
      (w : Event → ℕ) (g : History)
      → All (λ x. x.0 % window_secs ≡ now % window_secs → x.0 < now) g
      → total_at w now g ≡ 0
  unfolding total_at
  total_at-later w [] a = refl
  total_at-later w ((t, x) ∷ g) a = ground (arith, total_at-later w g a.1, a.0)

  OldAt-before :
      (k : ℕ) (g : History) → OldAt k now g → All (λ x. x.0 % window_secs ≡ k → x.0 < now) g
  OldAt-before k [] o = tt
  OldAt-before k (x ∷ g) o = ((λ r. before (o.0 r)), OldAt-before k g o.1)
    where
      before : x.0 + window_secs ≤ now → x.0 < now
      before p = omega arith

  LastAt-before :
      (k last : ℕ) (g : History)
      → LastAt k last g
      → last < now
      → All (λ x. x.0 % window_secs ≡ k → x.0 < now) g
  LastAt-before k last [] l p = tt
  LastAt-before k last (x ∷ g) l p = ((λ r. before (l.0 r)), LastAt-before k last g l.1 p)
    where
      before : x.0 ≤ last → x.0 < now
      before q = omega arith

  before-LastAt :
      (k : ℕ) (g : History) → All (λ x. x.0 % window_secs ≡ k → x.0 < now) g → LastAt k now g
  before-LastAt k [] a = tt
  before-LastAt k (x ∷ g) a = ((λ r. le (a.0 r)), before-LastAt k g a.1)
    where
      le : x.0 < now → x.0 ≤ now
      le q = omega arith

  total_at-cons : (w : Event → ℕ) → total_at w now ((now, e) ∷ h) ≡ w e + total_at w now h
  unfolding total_at
  total_at-cons w = ground arith

  -- The slot of the event's second, from the sums that it has for that second.
  IsUsed-add_event :
      (s : RlSlot)
      → 0 < now
      → (if s.sec == now then s.req else 0) ≡ total_at requests_in now h
      → (if s.sec == now then s.tok else 0) ≡ total_at tokens_in now h
      → LastAt (now % window_secs) now h
      → IsUsed ((now, e) ∷ h) now (now % window_secs) (add_event now e s)
  IsUsed-add_event s pos_now reqs toks last =
      let q = sec-add_event now s e in
      record {
        positive = omega (arith, q);
        residue = ap (λ x. x % window_secs) q;
        past = omega (arith, q);
        reqs =
            req-add_event now s e
            ∙ omega (arith, reqs, total_at-cons requests_in)
            ∙ ap (λ x. total_at requests_in x ((now, e) ∷ h)) (sym q);
        toks =
            tok-add_event now s e
            ∙ omega (arith, toks, total_at-cons tokens_in)
            ∙ ap (λ x. total_at tokens_in x ((now, e) ∷ h)) (sym q);
        last =
            subst (λ x. LastAt (now % window_secs) x ((now, e) ∷ h)) (sym q)
              ((λ r. le_refl now), last);
      }

  -- A slot of an earlier second.
  IsUsed-first :
      (s : RlSlot)
      → 0 < now
      → s.sec ≢ now
      → All (λ x. x.0 % window_secs ≡ now % window_secs → x.0 < now) h
      → IsUsed ((now, e) ∷ h) now (now % window_secs) (add_event now e s)
  IsUsed-first s pos_now other before =
      IsUsed-add_event s pos_now (ground (arith, total_at-later requests_in h before))
        (ground (arith, total_at-later tokens_in h before))
        (before-LastAt (now % window_secs) h before)

  -- The event's own slot.
  IsSlot-add_event :
      (s : RlSlot)
      → 0 < now
      → IsSlot h now (now % window_secs) s
      → IsSlot ((now, e) ∷ h) now (now % window_secs) (add_event now e s)
  IsSlot-add_event s pos_now (inl (empty, old)) =
      inr (IsUsed-first s pos_now (λ q. omega arith) (OldAt-before (now % window_secs) h old))
  IsSlot-add_event s pos_now (inr u) = elim (Bool-cases (s.sec == now)) [
    | inl same ↦
        let q : s.sec ≡ now = ground arith in
        inr (
          IsUsed-add_event s pos_now (rw same (u.reqs ∙ ap (λ x. total_at requests_in x h) q))
            (rw same (u.toks ∙ ap (λ x. total_at tokens_in x h) q))
            (subst (λ x. LastAt (now % window_secs) x h) q u.last))
    | inr other ↦ inr (
        IsUsed-first s pos_now (λ q. ground arith)
          (LastAt-before (now % window_secs) s.sec h u.last (ground (arith, u.past))))
  ]

  AllSlots-cons_after :
      (k : ℕ) (ss : List RlSlot)
      → AllSlots h now k ss
      → now % window_secs < k
      → AllSlots ((now, e) ∷ h) now k ss
  AllSlots-cons_after k [] a lt = tt
  AllSlots-cons_after k (s ∷ ss) a lt =
      (IsSlot-cons_ne k s a.0 (λ q. omega arith), AllSlots-cons_after (suc k) ss a.1 (omega arith))

  pub AllSlots-modify :
      (k i : ℕ) (ss : List RlSlot)
      → 0 < now
      → AllSlots h now k ss
      → k + i ≡ now % window_secs
      → AllSlots ((now, e) ∷ h) now k (modify i (add_event now e) ss)
  unfolding modify
  AllSlots-modify k i [] pos_now a q = tt
  AllSlots-modify k zero (s ∷ ss) pos_now a q =
      let here : now % window_secs ≡ k = omega arith in
      (
        subst (λ x. IsSlot ((now, e) ∷ h) now x (add_event now e s)) here
            (IsSlot-add_event s pos_now (subst (λ x. IsSlot h now x s) (sym here) a.0)),
        AllSlots-cons_after (suc k) ss a.1 (omega arith),
      )
  AllSlots-modify k (suc i) (s ∷ ss) pos_now a q = (
    IsSlot-cons_ne k s a.0 (λ r. omega arith),
    AllSlots-modify (suc k) i ss pos_now a.1 (omega arith),
  )

pub length-modify :
    (i : ℕ) (f : RlSlot → RlSlot) (ss : List RlSlot) → length (modify i f ss) ≡ length ss
unfolding modify
length-modify i f [] = refl
length-modify zero f (s ∷ ss) = refl
length-modify (suc i) f (s ∷ ss) = ap suc (length-modify i f ss)
