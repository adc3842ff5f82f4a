-- ===== src/Router/Queue.antt =====
-- The queue of the table: `queue_snapshot` and the test of `http_reject_if_busy` of
-- serve/router_http.c, and the totals of `STAT` in serve/router.c. The average time, a `double`, is
-- left out, and the sums are taken to fit an `int`.
use yllm.Base.{
  ℕ, ◌+◌, ◌-◌, ◌≤◌, ◌<◌, ◌≡◌, ◌⊎◌, inl, inr, false, Option, none, some, List, [], ◌∷◌, arith, ◌==◌,
  if◌then◌else◌, Bool-cases, min,
}
use yllm.Base.Int.{ℤ, pos, pos_part, neg_part, sub_ℕ, ltb_ℤ}
use yllm.Base.Outcome.{Outcome, done, ◌>>=◌}
use yllm.Router.Types.{RtServer, Router, lock, unlock}

abbrev add_ℤ : ℤ → ℤ → ℤ
add_ℤ a b = sub_ℕ (pos_part a + pos_part b) (neg_part a + neg_part b)

-- The requests in flight and those waiting.
pub record Totals : Type 0 where
  pub inflight : ℤ
  pub waiting : ℤ

module _ {D : Type 0} where
  unfoldable pub totals_from : Totals → List (RtServer D) → Totals
  totals_from t [] = t
  totals_from t (s ∷ ss) =
      totals_from
        (record { inflight = add_ℤ t.inflight s.inflight; waiting = add_ℤ t.waiting s.waiting }) ss

  unfoldable pub queue_snapshot : Router D → Outcome (Router D × Totals)
  queue_snapshot r = do
    held ← lock r
    done (unlock held, totals_from (record { inflight = pos 0; waiting = pos 0 }) held.servers)

  -- The seconds of `Retry-After`, if the request is refused; a cap of 0 is off.
  unfoldable pub reject_if_busy : ℕ → Router D → Outcome (Router D × Option ℕ)
  reject_if_busy cap r = if cap == 0 then done (r, none) else (do
    (t, totals) ← queue_snapshot r
    done (
      t,
      if ltb_ℤ totals.waiting (pos cap)
          then none
          else some (min 30 (1 + (pos_part totals.waiting - cap + 1))),
    ))

  -- The requests that wait at the servers, counted up and down apart.
  abbrev pub waiting_in : List (RtServer D) → ℕ × ℕ
  waiting_in [] = (0, 0)
  waiting_in (s ∷ ss) =
      let (up, down) = waiting_in ss in (pos_part s.waiting + up, neg_part s.waiting + down)

  totals_from-waiting_in :
      (t : Totals) (ss : List (RtServer D))
      → pos_part (totals_from t ss).waiting + (neg_part t.waiting + (waiting_in ss).1)
        ≡ neg_part (totals_from t ss).waiting + (pos_part t.waiting + (waiting_in ss).0)
  unfolding totals_from
  totals_from-waiting_in t [] = omega arith
  totals_from-waiting_in t (s ∷ ss) =
      let next : Totals = record {
        inflight = add_ℤ t.inflight s.inflight;
        waiting = add_ℤ t.waiting s.waiting;
      } in
      ground (arith, totals_from-waiting_in next ss)

  -- With a free mutex, a request is refused exactly if the cap is on and at least as many requests
  -- wait at the servers; it is told to wait 2 to 30 seconds, and the table is unchanged.
  pub reject_if_busy-waiting :
      (cap : ℕ) (r : Router D)
      → r.locked ≡ false
      → ((reject_if_busy cap r ≡ done (r, none))
          × ((cap ≡ 0) ⊎ ((waiting_in r.servers).0 < cap + (waiting_in r.servers).1)))
        ⊎ ((secs : ℕ) × (reject_if_busy cap r ≡ done (r, some secs))
            × (0 < cap)
            × (cap + (waiting_in r.servers).1 ≤ (waiting_in r.servers).0)
            × (2 ≤ secs)
            × (secs ≤ 30))
  unfolding reject_if_busy queue_snapshot
  reject_if_busy-waiting cap r free =
      let zero_t : Totals = record { inflight = pos 0; waiting = pos 0 } in
      let w = (totals_from zero_t r.servers).waiting in
      let sums = totals_from-waiting_in zero_t r.servers in
      elim (Bool-cases (cap == 0)) [
        | inl off ↦ inl (ground arith, inl (ground arith))
        | inr on ↦ elim (Bool-cases (ltb_ℤ w (pos cap))) [
          | inl few ↦ inl (ground arith, inr (ground (arith, sums, few)))
          | inr many ↦ inr (
            min 30 (1 + (pos_part w - cap + 1)),
            ground arith,
            ground arith,
            ground (arith, sums, many),
            ground (arith, many),
            omega arith,
          )
        ]
      ]
