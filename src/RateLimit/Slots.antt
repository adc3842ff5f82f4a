-- ===== src/RateLimit/Slots.antt =====
-- What a slot of the limiter holds of the history.
use yllm.Base.{
  ℕ, suc, ◌+◌, ◌%◌, ◌≤◌, ◌<◌, ◌≡◌, refl, ◌∙◌, ap, ◌⊎◌, inl, inr, true, false, List, [], ◌∷◌, arith,
  leb, ◌==◌, Bool-cases, All, length,
}
use yllm.RateLimit.Window.{Event, History, requests_in, tokens_in, window_at, total_at, sum_slots}
use yllm.RateLimit.{window_secs, RlSlot, Scan, is_stale, scan_slot, add_slot, scan_slots, scan_sums}

-- The events of the slot's seconds are older than 60 seconds at the time `t`.
abbrev pub OldAt : ℕ → ℕ → History → Type 0
OldAt k t = All (λ e. e.0 % window_secs ≡ k → e.0 + window_secs ≤ t)

-- None of them came after `last`.
abbrev pub LastAt : ℕ → ℕ → History → Type 0
LastAt k last = All (λ e. e.0 % window_secs ≡ k → e.0 ≤ last)

-- The slot in use: its second, and the sums of that second.
pub record IsUsed (h : History) (t k : ℕ) (s : RlSlot) : Type 0 where
  pub positive : 0 < s.sec
  pub residue : s.sec % window_secs ≡ k
  pub past : s.sec ≤ t
  pub reqs : s.req ≡ total_at requests_in s.sec h
  pub toks : s.tok ≡ total_at tokens_in s.sec h
  pub last : LastAt k s.sec h

abbrev pub IsSlot : History → ℕ → ℕ → RlSlot → Type 0
IsSlot h t k s = ((s.sec ≡ 0) × OldAt k t h) ⊎ IsUsed h t k s

abbrev pub AllSlots : History → ℕ → ℕ → List RlSlot → Type 0
AllSlots h t k [] = Unit
AllSlots h t k (s ∷ ss) = IsSlot h t k s × AllSlots h t (suc k) ss

module _ (w : Event → ℕ) (now k : ℕ) where
  window_at-OldAt : (t : ℕ) (h : History) → OldAt k t h → t ≤ now → window_at w now k h ≡ 0
  unfolding window_at
  window_at-OldAt t [] o le = refl
  window_at-OldAt t ((u, e) ∷ h) o le = ground (arith, window_at-OldAt t h o.1 le, o.0)

  window_at-stale :
      (last : ℕ) (h : History)
      → LastAt k last h
      → last + window_secs ≤ now
      → window_at w now k h ≡ 0
  unfolding window_at
  window_at-stale last [] o le = refl
  window_at-stale last ((u, e) ∷ h) o le = ground (arith, window_at-stale last h o.1 le, o.0)

  window_at-LastAt :
      (last : ℕ) (h : History)
      → LastAt k last h
      → last % window_secs ≡ k
      → last ≤ now
      → now < last + window_secs
      → window_at w now k h ≡ total_at w last h
  unfolding window_at total_at
  window_at-LastAt last [] o r le lt = refl
  window_at-LastAt last ((u, e) ∷ h) o r le lt =
      ground (arith, window_at-LastAt last h o.1 r le lt, o.0)

is_stale_lem : (now : ℕ) (s : RlSlot) → s.sec ≤ now → is_stale now s ≡ leb (s.sec + window_secs) now
is_stale_lem now s h = ground arith

module _ (h : History) (t now : ℕ) (le : t ≤ now) where
  -- A scan finds in a slot the slot's part of the window.
  add_slot-window_at :
      (k : ℕ) (s : RlSlot) (a : Scan)
      → IsSlot h t k s
      → ((add_slot now s a).reqs ≡ a.reqs + window_at requests_in now k h)
        × ((add_slot now s a).toks ≡ a.toks + window_at tokens_in now k h)
  unfolding add_slot
  add_slot-window_at k s a (inl (empty, old)) =
      let no_reqs = window_at-OldAt requests_in now k t h old le in
      let no_toks = window_at-OldAt tokens_in now k t h old le in
      (ground (arith, no_reqs), ground (arith, no_toks))
  add_slot-window_at k s a (inr u) = elim (Bool-cases (leb (s.sec + window_secs) now)) [
    | inl stale ↦
        let stale_s = is_stale_lem now s (omega (arith, u.past)) ∙ stale in
        let no_reqs = window_at-stale requests_in now k s.sec h u.last (ground arith) in
        let no_toks = window_at-stale tokens_in now k s.sec h u.last (ground arith) in
        let used : (s.sec == 0) ≡ false = ground (arith, u.positive) in
        (rw (used, stale_s) (omega (arith, no_reqs)), rw (used, stale_s) (omega (arith, no_toks)))
    | inr fresh ↦
        let fresh_s = is_stale_lem now s (omega (arith, u.past)) ∙ fresh in
        let used : (s.sec == 0) ≡ false = ground (arith, u.positive) in
        let reqs =
          window_at-LastAt requests_in now k s.sec h u.last u.residue (omega (arith, u.past))
            (ground arith) in
        let toks =
          window_at-LastAt tokens_in now k s.sec h u.last u.residue (omega (arith, u.past))
            (ground arith) in
        (
          rw (used, fresh_s) (omega (arith, reqs, u.reqs)),
          rw (used, fresh_s) (omega (arith, toks, u.toks)),
        )
  ]

  pub scan_sums-sum_slots :
      (k : ℕ) (ss : List RlSlot) (a : Scan)
      → AllSlots h t k ss
      → ((scan_sums now a ss).reqs ≡ a.reqs + sum_slots requests_in now k (length ss) h)
        × ((scan_sums now a ss).toks ≡ a.toks + sum_slots tokens_in now k (length ss) h)
  unfolding scan_sums sum_slots
  scan_sums-sum_slots k [] a all = (omega arith, omega arith)
  scan_sums-sum_slots k (s ∷ ss) a all =
      let (reqs, toks) = add_slot-window_at k s a all.0 in
      let (more_reqs, more_toks) = scan_sums-sum_slots (suc k) ss (add_slot now s a) all.1 in
      (omega (arith, reqs, more_reqs), omega (arith, toks, more_toks))

  OldAt-mono : (k : ℕ) (g : History) → OldAt k t g → OldAt k now g
  OldAt-mono k [] o = tt
  OldAt-mono k (e ∷ g) o = ((λ r. le_later (o.0 r)), OldAt-mono k g o.1)
    where
      le_later : e.0 + window_secs ≤ t → e.0 + window_secs ≤ now
      le_later p = omega arith

  LastAt-OldAt :
      (k last : ℕ) (g : History) → LastAt k last g → last + window_secs ≤ now → OldAt k now g
  LastAt-OldAt k last [] l p = tt
  LastAt-OldAt k last (e ∷ g) l p = ((λ r. older (l.0 r)), LastAt-OldAt k last g l.1 p)
    where
      older : e.0 ≤ last → e.0 + window_secs ≤ now
      older q = omega arith

  -- What time alone changes.
  pub IsSlot-later : (k : ℕ) (s : RlSlot) → IsSlot h t k s → IsSlot h now k s
  IsSlot-later k s (inl (empty, old)) = inl (empty, OldAt-mono k h old)
  IsSlot-later k s (inr u) = inr (record {
    positive = u.positive;
    residue = u.residue;
    past = omega (arith, u.past);
    reqs = u.reqs;
    toks = u.toks;
    last = u.last;
  })

  scan_slot-IsSlot : (k : ℕ) (s : RlSlot) → IsSlot h t k s → IsSlot h now k (scan_slot now s)
  unfolding scan_slot
  scan_slot-IsSlot k s (inl (empty, old)) =
      let unused : (s.sec == 0) ≡ true = ground arith in rw unused (inl (empty, OldAt-mono k h old))
  scan_slot-IsSlot k s (inr u) =
      let used : (s.sec == 0) ≡ false = ground (arith, u.positive) in
      elim (Bool-cases (leb (s.sec + window_secs) now)) [
        | inl stale ↦
            let stale_s = is_stale_lem now s (omega (arith, u.past)) ∙ stale in
            rw (used, stale_s) (inl (refl, LastAt-OldAt k s.sec h u.last (ground arith)))
        | inr fresh ↦
            let fresh_s = is_stale_lem now s (omega (arith, u.past)) ∙ fresh in
            rw (used, fresh_s) (IsSlot-later k s (inr u))
      ]

  pub scan_slots-AllSlots :
      (k : ℕ) (ss : List RlSlot) → AllSlots h t k ss → AllSlots h now k (scan_slots now ss)
  unfolding scan_slots
  scan_slots-AllSlots k [] all = tt
  scan_slots-AllSlots k (s ∷ ss) all =
      (scan_slot-IsSlot k s all.0, scan_slots-AllSlots (suc k) ss all.1)

pub length-scan_slots : (now : ℕ) (ss : List RlSlot) → length (scan_slots now ss) ≡ length ss
unfolding scan_slots
length-scan_slots now [] = refl
length-scan_slots now (s ∷ ss) = ap suc (length-scan_slots now ss)
