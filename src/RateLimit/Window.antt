-- ===== src/RateLimit/Window.antt =====
-- The ideal window: the list of all events, of which each counts for 60 seconds.
use yllm.Base.{
  ℕ, zero, suc, ◌+◌, ◌%◌, ◌≡◌, refl, List, [], ◌∷◌, arith, ltb, leb, ◌&&◌, ◌==◌, if◌then◌else◌,
}
use yllm.RateLimit.{window_secs}

-- A request that was let through, or a number of tokens that were generated.
pub data Event : Type 0 where
  request : Event
  tokens : ℕ → Event

-- The events with their times, the newest first.
abbrev pub History : Type 0
History = List (ℕ × Event)

abbrev pub requests_in : Event → ℕ
requests_in request = 1
requests_in (tokens n) = 0

abbrev pub tokens_in : Event → ℕ
tokens_in request = 0
tokens_in (tokens n) = n

module _ (w : Event → ℕ) where
  -- The weight of the events of the last 60 seconds.
  unfoldable pub window : ℕ → History → ℕ
  window now [] = 0
  window now ((t, e) ∷ h) = (if ltb now (t + window_secs) then w e else 0) + window now h

  -- The same, of the events whose second falls on slot `k`.
  unfoldable pub window_at : ℕ → ℕ → History → ℕ
  window_at now k [] = 0
  window_at now k ((t, e) ∷ h) =
      (if t % window_secs == k then (if ltb now (t + window_secs) then w e else 0) else 0)
      + window_at now k h

  -- The weight of the events of one second.
  unfoldable pub total_at : ℕ → History → ℕ
  total_at s [] = 0
  total_at s ((t, e) ∷ h) = (if t == s then w e else 0) + total_at s h

  -- The sum over `n` slots from `k` on.
  unfoldable pub sum_slots : ℕ → ℕ → ℕ → History → ℕ
  sum_slots now k zero h = 0
  sum_slots now k (suc n) h = window_at now k h + sum_slots now (suc k) n h

  sum_slots-nil : (now k n : ℕ) → sum_slots now k n [] ≡ 0
  unfolding sum_slots window_at
  sum_slots-nil now k zero = refl
  sum_slots-nil now k (suc n) = omega (arith, sum_slots-nil now (suc k) n)

  -- An event counts in the one slot of its second.
  sum_slots-cons :
      (now k n t : ℕ) (e : Event) (h : History)
      → sum_slots now k n ((t, e) ∷ h)
        ≡ (if leb k (t % window_secs) && ltb (t % window_secs) (k + n)
            then (if ltb now (t + window_secs) then w e else 0)
            else 0)
          + sum_slots now k n h
  unfolding sum_slots window_at
  sum_slots-cons now k zero t e h = ground arith
  sum_slots-cons now k (suc n) t e h = ground (arith, sum_slots-cons now (suc k) n t e h)

  -- Together the slots hold the window.
  pub sum_slots-window : (now : ℕ) (h : History) → sum_slots now 0 window_secs h ≡ window now h
  unfolding window
  sum_slots-window now [] = sum_slots-nil now 0 window_secs
  sum_slots-window now ((t, e) ∷ h) =
      ground (arith, sum_slots-cons now 0 window_secs t e h, sum_slots-window now h)
