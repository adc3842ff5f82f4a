-- ===== src/RateLimit/Exact.antt =====
-- The limiter's table against the ideal window.
use yllm.Base.{
  ℕ, suc, ◌+◌, ◌%◌, ◌≤◌, ◌<◌, ◌≡◌, ◌∙◌, ap, inl, false, List, [], ◌∷◌, arith, ◌==◌, All, length,
}
use yllm.Base.Int.{pos, negsuc}
use yllm.RateLimit.Slots.{
  AllSlots, scan_sums-sum_slots, IsSlot-later, scan_slots-AllSlots, length-scan_slots,
}
use yllm.RateLimit.Window.{
  request, tokens, History, requests_in, tokens_in, window, sum_slots, sum_slots-window,
}
use yllm.RateLimit.{
  window_secs, RlSlot, Scan, rl_scan, add_req, add_tok, rl_bump_req, rl_bump_tokens,
}
use yllm.RateLimit.Events.{AllSlots-modify, length-modify}

-- The tables that calls of the limiter lead to, with the events so far and the time of the last
-- call. The clock does not go back, and it is not 0.
pub data Reach : List RlSlot → History → ℕ → Type 0 where
  start : {ss : List RlSlot} → All (λ s. s.sec ≡ 0) ss → length ss ≡ window_secs → Reach ss [] 0
  scan :
      {ss : List RlSlot} {h : History} {t : ℕ} (now : ℕ)
      → Reach ss h t
      → t ≤ now
      → Reach (rl_scan now ss).0 h now
  bump_req :
      {ss : List RlSlot} {h : History} {t : ℕ} (now : ℕ)
      → Reach ss h t
      → t ≤ now
      → 0 < now
      → Reach (rl_bump_req now ss) ((now, request) ∷ h) now
  bump_tokens :
      {ss : List RlSlot} {h : History} {t : ℕ} (now n : ℕ)
      → Reach ss h t
      → t ≤ now
      → 0 < now
      → 0 < n
      → Reach (rl_bump_tokens now (pos n) ss) ((now, tokens n) ∷ h) now

AllSlots-later :
    (h : History) (t now k : ℕ) (ss : List RlSlot)
    → t ≤ now
    → AllSlots h t k ss
    → AllSlots h now k ss
AllSlots-later h t now k [] le a = tt
AllSlots-later h t now k (s ∷ ss) le a =
    (IsSlot-later h t now le k s a.0, AllSlots-later h t now (suc k) ss le a.1)

start-AllSlots : (k : ℕ) (ss : List RlSlot) → All (λ s. s.sec ≡ 0) ss → AllSlots [] 0 k ss
start-AllSlots k [] a = tt
start-AllSlots k (s ∷ ss) a = (inl (a.0, tt), start-AllSlots (suc k) ss a.1)

Reach-AllSlots :
    {ss : List RlSlot} {h : History} {t : ℕ}
    → Reach ss h t
    → AllSlots h t 0 ss × (length ss ≡ window_secs)
unfolding rl_scan rl_bump_req rl_bump_tokens
Reach-AllSlots (start {ss} empty size) = (start-AllSlots 0 ss empty, size)
Reach-AllSlots (scan {ss} {h} {t} now r le) =
    let (a, size) = Reach-AllSlots r in
    (scan_slots-AllSlots h t now le 0 ss a, length-scan_slots now ss ∙ size)
Reach-AllSlots (bump_req {ss} {h} {t} now r le pos_now) =
    let (a, size) = Reach-AllSlots r in
    (
      AllSlots-modify h now request 0 (now % window_secs) ss pos_now
          (AllSlots-later h t now 0 ss le a) (omega arith),
      length-modify (now % window_secs) (add_req now) ss ∙ size,
    )
Reach-AllSlots (bump_tokens {ss} {h} {t} now n r le pos_now pos_n) =
    let (a, size) = Reach-AllSlots r in
    let some_n : (n == 0) ≡ false = ground arith in
    rw some_n (
      AllSlots-modify h now (tokens n) 0 (now % window_secs) ss pos_now
          (AllSlots-later h t now 0 ss le a) (omega arith),
      length-modify (now % window_secs) (add_tok now n) ss ∙ size,
    )

-- Whatever calls came before, a scan counts exactly the requests and the tokens of the last 60
-- seconds.
pub rl_scan-window :
    {ss : List RlSlot} {h : History} {t : ℕ} (now : ℕ)
    → Reach ss h t
    → t ≤ now
    → ((rl_scan now ss).1.reqs ≡ window requests_in now h)
      × ((rl_scan now ss).1.toks ≡ window tokens_in now h)
unfolding rl_scan
rl_scan-window {ss} {h} {t} now r le =
    let (a, size) = Reach-AllSlots r in
    let none_yet : Scan = record { reqs = 0; toks = 0; oldest = negsuc 0 } in
    let (reqs, toks) = scan_sums-sum_slots h t now le 0 ss none_yet a in
    let all_reqs = sum_slots-window requests_in now h in
    let all_toks = sum_slots-window tokens_in now h in
    (
      reqs ∙ ap (λ n. 0 + sum_slots requests_in now 0 n h) size ∙ omega (arith, all_reqs),
      toks ∙ ap (λ n. 0 + sum_slots tokens_in now 0 n h) size ∙ omega (arith, all_toks),
    )
