-- ===== src/Supervisor/Heartbeat/Branches.antt =====
-- The three branches of `handle_heartbeat`.
use yllm.Base.{ℕ, ◌≡◌, true, false, Option, none, some, [], ◌∷◌, ◌++◌, arith, leb, length}
use yllm.Base.Text.{Bytes}
use yllm.Node.{Floats, Node, zero_node, node_parse_hb}
use yllm.Supervisor.Heartbeat.{
  find_node, update_node, finish_beat, modify, new_sv, handle_heartbeat,
}
use yllm.Supervisor.Types.{Supervisor, max_nodes}

module _ (F : Floats) (now : ℕ) (peer : Option Bytes) (args : Bytes) (s : Supervisor F.Double) where
  abbrev pub heard : Node F.Double
  heard = node_parse_hb F now args (zero_node F)

  pub handle_heartbeat_known :
      (i : ℕ)
      → find_node heard.node_id s ≡ some i
      → handle_heartbeat F now peer args s ≡ (
        record s { nodes = (modify i (λ sv. finish_beat peer (update_node heard sv)) s.nodes).0 },
        (modify i (λ sv. finish_beat peer (update_node heard sv)) s.nodes).1,
        true,
      )
  unfolding handle_heartbeat
  handle_heartbeat_known i known = ground arith

  pub handle_heartbeat_full :
      find_node heard.node_id s ≡ none
      → leb max_nodes (length s.nodes) ≡ true
      → handle_heartbeat F now peer args s ≡ (s, [], false)
  unfolding handle_heartbeat
  handle_heartbeat_full new full = ground arith

  pub handle_heartbeat_new :
      find_node heard.node_id s ≡ none
      → leb max_nodes (length s.nodes) ≡ false
      → handle_heartbeat F now peer args s ≡ (
        record s { nodes = s.nodes ++ (finish_beat peer (new_sv heard)).0 ∷ [] },
        (finish_beat peer (new_sv heard)).1,
        true,
      )
  unfolding handle_heartbeat
  handle_heartbeat_new new room = ground arith
