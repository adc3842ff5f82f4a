-- ===== src/Tests/Supervisor.antt =====
-- The supervisor at concrete tables.
use yllm.Base.{map, ℕ, ◌≡◌, ◌≢◌, refl, inl, true, false, Option, none, some, List, [], ◌∷◌, arith}
use yllm.Base.Int.{pos}
use yllm.Base.Outcome.{done}
use yllm.Base.Scan.{atoi, strip_prefix, find_last_char}
use yllm.Base.Text.{Bytes, codes, equal}
use yllm.Node.{Floats, Node, ready, dead, zero_node}
use yllm.Supervisor.Heal.Loop.{heal_dead-bury}
use yllm.Supervisor.Heal.Nodes.{nodes_of, bury}
use yllm.Supervisor.Heal.Sweep.{CanRespawn}
use yllm.Supervisor.Heal.{Action, model_stride, heal_dead}
use yllm.Supervisor.Heartbeat.Notices.{after, beats, after-beats}
use yllm.Supervisor.Heartbeat.Table.{IsEntry, IsTable, handle_heartbeat-IsTable}
use yllm.Supervisor.Heartbeat.{handle_heartbeat}
use yllm.Supervisor.Lease.Exclusive.{Holds, Others, stop, release, check, Others-Holds}
use yllm.Supervisor.Lease.Grant.{IsAnswer, handle_lease-IsAnswer}
use yllm.Supervisor.Lease.Order.{HasPort}
use yllm.Supervisor.Lease.Policy.{IsWord}
use yllm.Supervisor.Lease.{
  server_id, LeaseReply, port_of, handle_lease, handle_release, lease_expire_check,
}
use yllm.Supervisor.Types.{SvNode, Supervisor}
use yllm.Wire.Protocol.{proto_get, value_at}

abbrev floats : Floats
floats = record { Double = ℕ; zero = 0; atof = λ s. 0 }

abbrev rank : Bytes → Bytes → Bytes → SvNode ℕ
rank id addr holder = record {
  node = record (zero_node floats) {
    node_id = id;
    type = codes "rank";
    model = codes "m";
    addr = addr;
    state = ready;
    last_hb = 5;
  };
  router_notified = false;
  leased_by = holder;
  lease_expire = 0;
}

-- Two ranks, of which the second is leased to another server.
abbrev two : Supervisor ℕ
two = record {
  nodes =
      rank (codes "rank-0") (codes "h:2") [] ∷ rank (codes "rank-1") (codes "h:1") (codes "b") ∷ [];
  spawns = [];
  rank_port_base = 9000;
  server_port_base = 9500;
  auto_heal = true;
  no_spawn_server = false;
  quit = false;
  models = [];
}

abbrev ask : Bytes
ask = codes "a model=m"

asked : proto_get ask (codes "model") ≡ some (codes "m")
unfolding proto_get value_at strip_prefix
asked = refl

HasPort-one : HasPort (codes "h:1")
unfolding port_of find_last_char
HasPort-one = refl

HasPort-two : HasPort (codes "h:2")
unfolding port_of find_last_char
HasPort-two = refl

ask-filled : server_id ask ≢ []
unfolding server_id
ask-filled h = ground arith

handle_lease-IsAnswer_example :
    (s' : Supervisor ℕ) × (reply : LeaseReply) × (handle_lease 7 ask two ≡ done (s', reply))
    × IsAnswer 7 ask two s' reply
handle_lease-IsAnswer_example =
    handle_lease-IsAnswer 7 ask two (λ model given. ((λ e. HasPort-two), ((λ e. HasPort-one), tt)))

other_id : server_id ask ≢ codes "b"
unfolding server_id
other_id h = ground arith

-- Server "a" gives back what it has, and time passes.
abbrev meanwhile : Others floats (codes "b") 0 two (lease_expire_check 900 (handle_release ask two))
meanwhile = release ask other_id (check 900 (inl refl) stop)

Others-Holds_example : Holds (codes "b") 0 1 (lease_expire_check 900 (handle_release ask two)).nodes
Others-Holds_example =
    Others-Holds floats (codes "b") 0 1 (λ h. absurd (ground (arith, h)))
      (rank (codes "rank-1") (codes "h:1") (codes "b"), refl, refl, refl) meanwhile

abbrev ask_timed : Bytes
ask_timed = codes "a model=m duration=60"

timed_model : proto_get ask_timed (codes "model") ≡ some (codes "m duration=60")
unfolding proto_get value_at strip_prefix
timed_model = refl

ask_timed-filled : server_id ask_timed ≢ []
unfolding server_id
ask_timed-filled h = ground arith

IsWord-m : IsWord (codes "m")
IsWord-m = ((λ h. absurd (ground (arith, h))), (refl, tt))

abbrev beat : Bytes
beat = codes "server-0 type=server state=ready model=m addr=h:9"

abbrev free_ranks : Supervisor ℕ
free_ranks = record two { nodes = rank (codes "rank-0") (codes "h:2") [] ∷ [] }

rank_0-IsEntry : IsEntry (rank (codes "rank-0") (codes "h:2") [])
unfolding equal
rank_0-IsEntry = record {
  free = λ e. refl;
  others = λ e. refl;
  up = λ e. absurd (ground (arith, e));
  down = λ d. refl;
}

handle_heartbeat-IsTable_example : IsTable (handle_heartbeat floats 9 none beat free_ranks).0.nodes
handle_heartbeat-IsTable_example =
    handle_heartbeat-IsTable floats 9 none beat free_ranks
      (record { bounded = omega arith; distinct = (tt, tt); entries = (rank_0-IsEntry, tt) })

abbrev up_down : List (Option Bytes × Node ℕ)
up_down =
    (none, record (zero_node floats) { state = ready })
    ∷ (none, record (zero_node floats) { state = dead })
    ∷ []

abbrev server : SvNode ℕ
server = record {
  node = record (zero_node floats) { node_id = codes "server-0"; type = codes "server" };
  router_notified = false;
  leased_by = [];
  lease_expire = 0;
}

after-beats_example :
    after server.router_notified (beats up_down server).1
    ≡ some (beats up_down server).0.router_notified
after-beats_example = after-beats up_down server

-- Two ranks of one server.
abbrev group : List (SvNode ℕ)
group =
    rank (codes "rank-0") (codes "h:2") (codes "b")
    ∷ rank (codes "rank-1") (codes "h:1") (codes "b")
    ∷ []

-- One rank, last heard of in second 5.
abbrev one_rank : Supervisor ℕ
one_rank = record free_ranks { models = record { ranks = pos 2; local = pos 2 } ∷ [] }

rank_0-CanRespawn : CanRespawn (model_stride one_rank) (rank (codes "rank-0") (codes "h:2") []).node
unfolding equal model_stride atoi
rank_0-CanRespawn = ((λ e. absurd (ground (arith, e))), (λ e. ((0, pos 0), refl)))

heal_dead-bury_example :
    (t : Supervisor ℕ) × (acts : List (Action ℕ)) × (heal_dead (λ p. pos 17) 900 one_rank
      ≡ done (t, acts))
    × (nodes_of t.nodes ≡ map (bury 900) (nodes_of one_rank.nodes))
heal_dead-bury_example = heal_dead-bury (λ p. pos 17) 900 one_rank (rank_0-CanRespawn, tt)
