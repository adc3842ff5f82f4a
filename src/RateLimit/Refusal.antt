-- ===== src/RateLimit/Refusal.antt =====
-- `http_reject_if_rate_limited` against the ideal window.
use yllm.Base.{ℕ, ◌≤◌, ◌≡◌, ◌⊎◌, Bool, true, false, ◌&&◌, ◌||◌, List, ◌∷◌, ltb, leb}
use yllm.RateLimit.Exact.{Reach}
use yllm.RateLimit.Window.{request, History, requests_in, tokens_in, window}
use yllm.RateLimit.{
  window_secs, RlSlot, Limits, admitted, limited, rl_scan, rl_bump_req, reject_if_rate_limited,
}

-- Whether the events of the last 60 seconds reach a limit that is on.
unfoldable pub reaches_limit : Limits → ℕ → History → Bool
reaches_limit l now h =
    (ltb 0 l.rpm && leb l.rpm (window requests_in now h))
    || (ltb 0 l.tpm && leb l.tpm (window tokens_in now h))

-- What the admission of a request answers, and that the table stays one that calls lead to.
abbrev pub IsAdmission : Limits → ℕ → ℕ → List RlSlot → History → Type 0
IsAdmission l now later ss h =
    ((reaches_limit l now h ≡ true)
      × (secs : ℕ) × (reject_if_rate_limited l now later ss ≡ ((rl_scan now ss).0, limited secs))
      × (1 ≤ secs)
      × (secs ≤ window_secs)
      × Reach (rl_scan now ss).0 h now)
    ⊎ ((reaches_limit l now h ≡ false)
        × (l.rpm ≡ 0)
        × (l.tpm ≡ 0)
        × (reject_if_rate_limited l now later ss ≡ (ss, admitted)))
    ⊎ ((reaches_limit l now h ≡ false)
        × (reject_if_rate_limited l now later ss ≡ (rl_bump_req later (rl_scan now ss).0, admitted))
        × Reach (rl_bump_req later (rl_scan now ss).0) ((later, request) ∷ h) later)
