-- ===== src/Router/Pick.antt =====
-- The routing decision: `router_model_known` and `pick_server` of serve/router.c, and the totals
-- that the router reports.
pub mod Least
pub mod RoundRobin
use yllm.Base.{
  ℕ, zero, suc, ◌+◌, ◌%◌, Bool, true, false, ◌&&◌, Option, none, some, List, [], ◌∷◌, ◌==◌,
  if◌then◌else◌,
}
use yllm.Base.Int.{ℤ, pos, ltb_ℤ}
use yllm.Base.Outcome.{Outcome, done, hang, ◌>>=◌}
use yllm.Base.Text.{Bytes, equal, codes}
use yllm.Node.{is_ready}
use yllm.Router.Types.{RtServer, Router, lock, unlock}

-- `r->strategy && strcmp(r->strategy, "round-robin") == 0`
abbrev pub is_round_robin : Option Bytes → Bool
is_round_robin none = false
is_round_robin (some name) = equal name (codes "round-robin")

-- Whether an entry that serves the model is better than the best one so far.
abbrev pub improves : {D : Type 0} → Option ℤ → RtServer D → Bool
improves none s = true
improves (some least) s = ltb_ℤ s.inflight least

module _ {D : Type 0} (model : Bytes) where
  unfoldable pub knows : List (RtServer D) → Bool
  knows [] = false
  knows (s ∷ ss) = if equal s.model model then true else knows ss

  unfoldable pub router_model_known : Router D → Outcome (Router D × Bool)
  unfolding knows
  router_model_known r = do held ← lock r; done (unlock held, knows held.servers)

  -- The test that each of the three loops makes.
  unfoldable pub serves : RtServer D → Bool
  serves s = is_ready s.state && equal s.model model

  unfoldable pub count_serving : List (RtServer D) → ℕ
  count_serving [] = 0
  count_serving (s ∷ ss) = (if serves s then 1 else 0) + count_serving ss

  -- The entry number `k` among those that serve the model; `i` is the index of the list's head.
  unfoldable pub nth_serving : ℕ → ℕ → List (RtServer D) → Option ℕ
  nth_serving k i [] = none
  nth_serving zero i (s ∷ ss) =
      let later = nth_serving zero (suc i) ss in if serves s then some i else later
  nth_serving (suc k) i (s ∷ ss) = nth_serving (if serves s then k else suc k) (suc i) ss

  -- The entry with the fewest requests in flight, the first of those: its index and its requests.
  unfoldable pub least_from : ℕ → Option ℕ → Option ℤ → List (RtServer D) → Option ℕ
  least_from i best least [] = best
  least_from i best least (s ∷ ss) =
      let better = serves s && improves least s in
      least_from (suc i) (if better then some i else best)
        (if better then some s.inflight else least) ss

  -- The round-robin branch returns with the mutex held.
  unfoldable pub pick_server : Router D → Outcome (Router D × Option ℕ)
  unfolding count_serving nth_serving least_from serves
  pick_server r = do
    held ← lock r
    let n = count_serving held.servers
    let least = least_from 0 none none held.servers
    let turn = (held.rr_counter + 1) % n
    let turned = record held { rr_counter = turn }
    if n == 0
        then done (unlock held, none)
        else if is_round_robin r.strategy
        then elim (nth_serving turn 0 held.servers) [
          | some i ↦ done (turned, some i)
          | none ↦ done (unlock turned, least)
        ]
        else done (unlock held, least)
