-- ===== src/Router/Forward.antt =====
-- Forwarding of a request: `router_set_err` and `router_infer` of serve/router.c, and
-- `frame_t_payload` of serve/frame.h. A connection is the bytes to come from the server, before it
-- closes; a server that never closes, or never stops, is left out. `others` is what other threads
-- make of the table while this one does not hold the mutex. Memory for a payload is taken to suffice.
pub mod Answer
pub mod Balance
use yllm.Base.{
  ℕ, zero, suc, ◌+◌, ◌-◌, Bool, true, false, not, ◌||◌, Option, none, some, List, [], ◌∷◌, ◌==◌,
  ltb, leb, if◌then◌else◌, length, take, drop, get_elem?,
}
use yllm.Base.Int.{ℤ, pos, negsuc}
use yllm.Base.Outcome.{Outcome, done, hang, ◌>>=◌}
use yllm.Base.Scan.{strip_prefix, atoi}
use yllm.Base.Text.{Bytes, codes, is_empty}
use yllm.Router.Pick.{pick_server, router_model_known}
use yllm.Router.Registry.{modify}
use yllm.Router.Types.{RtServer, Router, lock, unlock}
use yllm.Wire.Frame.{recv_line, c_string}
use yllm.Wire.Protocol.{proto_is_error, proto_error_msg}

-- What the caller gets: the return value, the text in `err`, and the tokens of the callback.
pub record Reply : Type 0 where
  pub rc : ℤ
  pub err : Bytes
  pub tokens : List Bytes

-- `char out[RT_MAX_LINE]`, less the terminator.
abbrev pub out_max : ℕ
out_max = 8191

-- A buffer of no bytes is left alone.
unfoldable pub router_set_err : ℕ → Option Bytes → Bytes → Bytes
router_set_err errlen line fallback =
    let msg : Bytes = elim line [ none ↦ [] | some l ↦ proto_error_msg (some l) ] in
    take (errlen - 1) (if is_empty msg then fallback else msg)

-- `frame_t_payload`: the payload that a line announces, and the bytes behind it.
unfoldable pub frame_t_payload : Bytes → Bytes → Option (Bytes × Bytes)
frame_t_payload line s = elim (atoi (drop 2 line)) [
  | negsuc _ ↦ none
  | pos n ↦ if n == 0 then none else if leb n (length s) then some (take n s, drop n s) else none
]

abbrev pub failed : Bytes → Reply
failed err = record { rc = negsuc 0; err = err; tokens = [] }

abbrev pub add_token : Bytes → Reply → Reply
add_token t a = record a { tokens = t ∷ a.tokens }

-- One line of the answer; `next` is the loop on the bytes to come.
unfoldable pub answer_line : ℕ → (Bytes → Outcome Reply) → Bytes → Bytes → Outcome Reply
answer_line errlen next line rest = elim (strip_prefix (codes "DONE") line) [
  | some _ ↦ done (record { rc = pos 0; err = []; tokens = [] })
  | none ↦
      if proto_is_error (some line)
      then done (failed (router_set_err errlen (some line) (codes "backend error")))
      else elim (strip_prefix (codes "T ") line) [
        | none ↦ next rest
        | some _ ↦ elim (frame_t_payload line rest) [
          | none ↦ done (failed [])
          | some (payload, behind) ↦ next behind >>= λ a. done (add_token payload a)
        ]
      ]
]

-- The loop over the lines of the answer. A round takes a byte at least.
unfoldable pub infer_loop : ℕ → ℕ → Bytes → Outcome Reply
infer_loop zero errlen s = hang
infer_loop (suc fuel) errlen s = elim (recv_line out_max s) [
  | none ↦ done (failed (router_set_err errlen none (codes "backend timeout/disconnect")))
  | some (text, rest) ↦ answer_line errlen (λ t. infer_loop fuel errlen t) (c_string text) rest
]

abbrev pub succ_ℤ : ℤ → ℤ
succ_ℤ (pos n) = pos (suc n)
succ_ℤ (negsuc zero) = pos 0
succ_ℤ (negsuc (suc n)) = negsuc n

abbrev pub pred_ℤ : ℤ → ℤ
pred_ℤ (pos zero) = negsuc 0
pred_ℤ (pos (suc n)) = pos n
pred_ℤ (negsuc n) = negsuc (suc n)

-- Where the mutex is free for other threads: between the choice and the look for the model, before a
-- poll of which as many are still to come, while the server is called, and during its answer.
pub data Pause : Type 0 where
  looking : Pause
  polling : ℕ → Pause
  calling : Pause
  answering : Pause

module _ {D : Type 0} where
  -- `s->inflight++` and `s->inflight--` under the mutex.
  unfoldable pub count_inflight : (ℤ → ℤ) → ℕ → Router D → Outcome (Router D)
  count_inflight step i r = do
    held ← lock r
    done (
        unlock (record held {
          servers = modify i (λ s. record s { inflight = step s.inflight }) held.servers;
        }))

  module _ (connect : RtServer D → Option Bytes) (errlen : ℕ)
      (others : Pause → Router D → Router D) where
    -- The answer of a server that could be reached, between the two counts.
    unfoldable pub exchange : ℕ → Bytes → Router D → Outcome (Router D × Reply)
    exchange i stream r = do
      counted ← count_inflight succ_ℤ i (others calling r)
      answer ← infer_loop (suc (length stream)) errlen stream
      back ← count_inflight pred_ℤ i (others answering counted)
      done (back, answer)

    -- Behind the choice of entry `i`, which is in the table and is read at once.
    unfoldable pub forward : ℕ → Router D → Outcome (Router D × Reply)
    forward i r = elim (get_elem? r.servers i) [
      | none ↦ done (r, failed [])
      | some s ↦ elim (connect s) [
        | none ↦ done (r, failed (router_set_err errlen none (codes "cannot connect server")))
        | some stream ↦ exchange i stream r
      ]
    ]

    module _ (model : Bytes) where
      -- The polls for a ready server, `k` of them still to come, 60 in all.
      unfoldable pub poll : ℕ → Router D → Outcome (Router D × Reply)
      poll zero r = done (r, failed (router_set_err errlen none (codes "no ready server")))
      poll (suc k) r = do
        (t, found) ← pick_server model (others (polling k) r)
        elim found [ some i ↦ forward i t | none ↦ poll k t ]

      unfoldable pub router_infer : Router D → Outcome (Router D × Reply)
      router_infer r = do
        (t, found) ← pick_server model r
        elim found [
          | some i ↦ forward i t
          | none ↦ do
            (u, known) ← router_model_known model (others looking t)
            if known then poll 60 u else done (u, record { rc = negsuc 1; err = []; tokens = [] })
        ]
