-- ===== src/Tests/RateLimit.antt =====
-- The limiter at a concrete history.
use yllm.Base.{ℕ, zero, suc, ◌≡◌, refl, List, [], ◌∷◌, arith, All}
use yllm.RateLimit.Exact.{Reach, start, bump_req, bump_tokens, rl_scan-window}
use yllm.RateLimit.Window.{request, tokens, History, requests_in, tokens_in, window}
use yllm.RateLimit.{
  RlSlot, zero_slot, Limits, limited, rl_scan, rl_bump_req, rl_bump_tokens, reject_if_rate_limited,
}
use yllm.Base.Int.{pos}

abbrev empties : ℕ → List RlSlot
empties zero = []
empties (suc k) = zero_slot ∷ empties k

empties-unused : (k : ℕ) → All (λ s. s.sec ≡ 0) (empties k)
empties-unused zero = tt
empties-unused (suc k) = (refl, empties-unused k)

-- A request in second 100 and 30 tokens in second 130.
abbrev table : List RlSlot
table = rl_bump_tokens 130 (pos 30) (rl_bump_req 100 (empties 60))

abbrev events : History
events = (130, tokens 30) ∷ (100, request) ∷ []

table-Reach : Reach table events 130
table-Reach =
    bump_tokens 130 30 (bump_req 100 (start (empties-unused 60) refl) (omega arith) (omega arith))
      (omega arith) (omega arith) (omega arith)

abbrev one_request : Limits
one_request = record { rpm = 1; tpm = 0 }

refuse : (reject_if_rate_limited one_request 150 150 table).1 ≡ limited 10
unfolding reject_if_rate_limited rl_scan rl_bump_req rl_bump_tokens
refuse = refl

rl_scan-window_example :
    ((rl_scan 170 table).1.reqs ≡ window requests_in 170 events)
    × ((rl_scan 170 table).1.toks ≡ window tokens_in 170 events)
rl_scan-window_example = rl_scan-window 170 table-Reach (omega arith)
