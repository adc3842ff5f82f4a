-- ===== src/Supervisor/Types.antt =====
-- `SvNode` and `Supervisor` of serve/supervisor.h, and what the handlers send. Of `Supervisor`, the
-- addresses of the routers and the texts that only go into command lines are left out.
use yllm.Base.{ℕ, Bool, List}
use yllm.Base.Int.{ℤ}
use yllm.Base.Text.{Bytes}
use yllm.Node.{Node}

pub record SvNode (D : Type 0) : Type 0 where
  pub node : Node D
  pub router_notified : Bool
  pub leased_by : Bytes
  pub lease_expire : ℕ

-- The numbers of ranks of a model: all of them, and those on this machine.
pub record ModelCfg : Type 0 where
  pub ranks : ℤ
  pub local : ℤ

-- `spawns` are the identifiers and process numbers of the processes that were started.
pub record Supervisor (D : Type 0) : Type 0 where
  pub nodes : List (SvNode D)
  pub spawns : List (Bytes × ℤ)
  pub rank_port_base : ℕ
  pub server_port_base : ℕ
  pub auto_heal : Bool
  pub no_spawn_server : Bool
  pub quit : Bool
  pub models : List ModelCfg

-- `SV_MAX_NODES`
abbrev pub max_nodes : ℕ
max_nodes = 256

-- `SV_HB_TIMEOUT`
abbrev pub hb_timeout : ℕ
hb_timeout = 10

-- The frames that go to every router. The numbers of a load are left as they are.
pub data Notice (D : Type 0) : Type 0 where
  server_add : Bytes → Notice D
  server_del : Bytes → Notice D
  server_update : Node D → Notice D
