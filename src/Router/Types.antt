-- ===== src/Router/Types.antt =====
-- `RtServer` and `Router` of serve/router.h. Of `Router`, the
-- port and the heartbeat node serve input and output alone and are left out.
use yllm.Base.{ℕ, ◌%◌, ◌-◌, Bool, true, false, Option, List, []}
use yllm.Base.Int.{ℤ, pos, negsuc}
use yllm.Base.Outcome.{Outcome, done, hang}
use yllm.Base.Text.{Bytes}
use yllm.Node.{NodeState, loading, Floats}

pub record RtServer (D : Type 0) : Type 0 where
  pub id : Bytes
  pub model : Bytes
  pub leader_host : Bytes
  pub leader_port : ℕ
  pub state : NodeState
  pub inflight : ℤ
  pub waiting : ℤ
  pub avg_infer_ms : D
  pub kv_mb : D
  pub last_update : ℕ

-- `servers` is the part of the table that is in use, so its length is `n_servers`. `locked` is
-- whether the mutex is held.
pub record Router (D : Type 0) : Type 0 where
  pub servers : List (RtServer D)
  pub locked : Bool
  pub quit : Bool
  pub rr_counter : ℕ
  pub strategy : Option Bytes

-- `RT_MAX_SERVERS`
abbrev pub max_servers : ℕ
max_servers = 64

-- `(uint16_t)v`
abbrev pub to_u16 : ℤ → ℕ
to_u16 (pos n) = n % 65536
to_u16 (negsuc n) = 65535 - n % 65536

module _ {D : Type 0} where
  -- `pthread_mutex_lock`: whoever locks a mutex that a finished call has left locked waits for ever.
  abbrev pub lock : Router D → Outcome (Router D)
  lock r = take_lock r.locked
    where
      take_lock : Bool → Outcome (Router D)
      take_lock true = hang
      take_lock false = done (record r { locked = true })

  abbrev pub unlock : Router D → Router D
  unlock r = record r { locked = false }

-- `memset(s, 0, sizeof(*s))`, with the identifier written.
abbrev pub new_server : (F : Floats) → Bytes → RtServer F.Double
new_server F id = record {
  id = id;
  model = [];
  leader_host = [];
  leader_port = 0;
  state = loading;
  inflight = pos 0;
  waiting = pos 0;
  avg_infer_ms = F.zero;
  kv_mb = F.zero;
  last_update = 0;
}
