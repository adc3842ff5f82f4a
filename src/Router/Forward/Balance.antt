-- ===== src/Router/Forward/Balance.antt =====
-- A forwarded request ends, and is counted once and counted back once.
use yllm.Base.{ℕ, ◌≡◌, Bool, true, false, Option, [], ◌⊎◌}
use yllm.Base.Int.{ℤ}
use yllm.Base.Outcome.{Outcome, done}
use yllm.Base.Text.{Bytes}
use yllm.Router.Forward.{Pause, answering, Reply, succ_ℤ, pred_ℤ}
use yllm.Router.Pick.{is_round_robin}
use yllm.Router.Registry.{modify}
use yllm.Router.Types.{RtServer, Router}

module _ {D : Type 0} where
  -- The table with the count of entry `i` changed.
  abbrev pub counted : (ℤ → ℤ) → ℕ → Router D → Router D
  counted step i r = record r {
    servers = modify i (λ s. record s { inflight = step s.inflight }) r.servers;
  }

  module _ (connect : RtServer D → Option Bytes) (errlen : ℕ)
      (others : Pause → Router D → Router D) where
    abbrev pub is_answering : Pause → Bool
    is_answering answering = true
    is_answering _ = false

    -- The tables that the other threads alone make of `r`, while no server answers.
    pub data Seen (r : Router D) : Router D → Type 0 where
      now : Seen r r
      later : {t : Router D} (p : Pause) → is_answering p ≡ false → Seen r t → Seen r (others p t)

    -- The tables that a call may leave: those, with no tokens, where no server was called; and those, with the count
    -- of one entry raised, then seen by the other threads, then with that count lowered.
    abbrev pub IsLeft : Router D → Router D → Reply → Type 0
    IsLeft r t a =
        (Seen r t × (a.tokens ≡ []))
        ⊎ ((u : Router D) × (i : ℕ) × Seen r u
            × (t ≡ counted pred_ℤ i (others answering (counted succ_ℤ i u))))

    -- The mutex is free, and the strategy is not round robin.
    abbrev pub IsIdle : Router D → Type 0
    IsIdle r = (r.locked ≡ false) × (is_round_robin r.strategy ≡ false)

    -- The call returns, with such a table.
    abbrev pub Ends : Router D → Outcome (Router D × Reply) → Type 0
    Ends r o = (t : Router D) × (a : Reply) × (o ≡ done (t, a)) × IsLeft r t a
