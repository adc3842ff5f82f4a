-- ===== src/RateLimit.antt =====
-- The sliding-window limiter of serve/router_http.c: `rl_scan`, `rl_slot_reset`, `rl_bump_req`,
-- `rl_bump_tokens` and the admission tests. Each takes the clock's reading `now`; a call holds the
-- limiter's mutex throughout its access, so calls come one after another. The counters are taken
-- to stay within their C types.
pub mod Window
pub mod Slots
pub mod Events
pub mod Exact
pub mod Refusal
use yllm.Base.{
  ℕ, zero, suc, ◌+◌, ◌-◌, ◌%◌, Bool, true, false, not, ◌&&◌, ◌||◌, Option, none, some, List, [],
  ◌∷◌, ltb, leb, ◌==◌, if◌then◌else◌,
}
use yllm.Base.Int.{ℤ, pos, negsuc, pos_part, sub_ℕ, ltb_ℤ}

-- `RL_WIN`
abbrev pub window_secs : ℕ
window_secs = 60

pub record RlSlot : Type 0 where
  pub sec : ℕ
  pub req : ℕ
  pub tok : ℕ

abbrev pub zero_slot : RlSlot
zero_slot = record { sec = 0; req = 0; tok = 0 }

-- What a scan has found so far; `oldest` is -1 if it found nothing.
pub record Scan : Type 0 where
  pub reqs : ℕ
  pub toks : ℕ
  pub oldest : ℤ

-- Whether a used slot has left the window.
abbrev pub is_stale : ℕ → RlSlot → Bool
is_stale now s = not (ltb_ℤ (sub_ℕ now s.sec) (pos window_secs))

-- One round of the loop of `rl_scan`: the slot afterwards, and what it adds.
unfoldable pub scan_slot : ℕ → RlSlot → RlSlot
scan_slot now s = if s.sec == 0 then s else if is_stale now s then zero_slot else s

unfoldable pub add_slot : ℕ → RlSlot → Scan → Scan
add_slot now s a =
    let age = sub_ℕ now s.sec in
    if s.sec == 0 || is_stale now s then a else record {
      reqs = a.reqs + s.req;
      toks = a.toks + s.tok;
      oldest = if ltb_ℤ a.oldest (pos 0) || ltb_ℤ a.oldest age then age else a.oldest;
    }

unfoldable pub scan_slots : ℕ → List RlSlot → List RlSlot
unfolding scan_slot
scan_slots now [] = []
scan_slots now (s ∷ ss) = scan_slot now s ∷ scan_slots now ss

unfoldable pub scan_sums : ℕ → Scan → List RlSlot → Scan
unfolding add_slot
scan_sums now a [] = a
scan_sums now a (s ∷ ss) = scan_sums now (add_slot now s a) ss

-- The table afterwards, with the stale slots cleared, and the sums.
unfoldable pub rl_scan : ℕ → List RlSlot → List RlSlot × Scan
unfolding scan_slots scan_sums
rl_scan now slots =
    (scan_slots now slots, scan_sums now (record { reqs = 0; toks = 0; oldest = negsuc 0 }) slots)

unfoldable pub rl_slot_reset : ℕ → RlSlot → RlSlot
rl_slot_reset now s = if s.sec == now then s else record { sec = now; req = 0; tok = 0 }

-- A write to the slot of index `i`.
unfoldable pub modify : ℕ → (RlSlot → RlSlot) → List RlSlot → List RlSlot
modify i f [] = []
modify zero f (s ∷ ss) = f s ∷ ss
modify (suc i) f (s ∷ ss) = s ∷ modify i f ss

abbrev pub add_req : ℕ → RlSlot → RlSlot
add_req now s = let fresh = rl_slot_reset now s in record fresh { req = fresh.req + 1 }

unfoldable pub rl_bump_req : ℕ → List RlSlot → List RlSlot
unfolding rl_slot_reset modify
rl_bump_req now slots = modify (now % window_secs) (add_req now) slots

abbrev pub add_tok : ℕ → ℕ → RlSlot → RlSlot
add_tok now n s = let fresh = rl_slot_reset now s in record fresh { tok = fresh.tok + n }

-- A count that is not positive changes nothing.
unfoldable pub rl_bump_tokens : ℕ → ℤ → List RlSlot → List RlSlot
unfolding rl_slot_reset modify
rl_bump_tokens now (negsuc _) slots = slots
rl_bump_tokens now (pos n) slots =
    if n == 0 then slots else modify (now % window_secs) (add_tok now n) slots

-- The limits; 0 is off.
pub record Limits : Type 0 where
  pub rpm : ℕ
  pub tpm : ℕ

-- `router_http_set_rate_limits`
unfoldable pub set_rate_limits : ℤ → ℤ → Limits
set_rate_limits rpm tpm = record { rpm = pos_part rpm; tpm = pos_part tpm }

-- The answer: let through, or 429 with its Retry-After.
pub data Admission : Type 0 where
  admitted : Admission
  limited : ℕ → Admission

abbrev pub is_over : Limits → Scan → Bool
is_over l a = (ltb 0 l.rpm && leb l.rpm a.reqs) || (ltb 0 l.tpm && leb l.tpm a.toks)

-- `(age >= 0 && age < RL_WIN) ? (RL_WIN - age) : 1`
abbrev pub retry_after : ℤ → ℕ
retry_after (negsuc _) = 1
retry_after (pos age) = if ltb age window_secs then window_secs - age else 1

-- `http_reject_if_rate_limited`, less the response: the table afterwards and the answer. `later` is
-- the clock at the bump.
unfoldable pub reject_if_rate_limited : Limits → ℕ → ℕ → List RlSlot → List RlSlot × Admission
reject_if_rate_limited l now later slots =
    let (scanned, a) = rl_scan now slots in
    if l.rpm == 0 && l.tpm == 0
    then (slots, admitted)
    else if is_over l a
    then (scanned, limited (retry_after a.oldest))
    else (rl_bump_req later scanned, admitted)
