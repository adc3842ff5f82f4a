-- ===== src/Supervisor/Heartbeat.antt =====
-- Heartbeats: `find_node`, `sync_server_to_router` and `handle_heartbeat` of serve/supervisor.c.
pub mod Branches
pub mod Notices
pub mod Table
use yllm.Base.{
  ℕ, zero, suc, ◌&&◌, not, Bool, true, false, Option, none, some, List, [], ◌∷◌, ◌++◌, ◌==◌, leb,
  if◌then◌else◌, length, take,
}
use yllm.Base.Scan.{find_char}
use yllm.Base.Text.{Bytes, codes, equal, is_empty, take_while}
use yllm.Node.{NodeState, dead, is_ready, is_dead, Floats, Node, zero_node, text_max, node_parse_hb}
use yllm.Supervisor.Types.{
  SvNode, Supervisor, Notice, server_add, server_del, server_update, max_nodes,
}

module _ {D : Type 0} where
  unfoldable pub find_from : Bytes → ℕ → List (SvNode D) → Option ℕ
  find_from id i [] = none
  find_from id i (sv ∷ svs) = if equal sv.node.node_id id then some i else find_from id (suc i) svs

  unfoldable pub find_node : Bytes → Supervisor D → Option ℕ
  unfolding find_from
  find_node id s = find_from id 0 s.nodes

  -- `char args[512]`
  unfoldable pub add_args : Node D → Bytes
  add_args n =
      take 511 (n.node_id ++ (codes " model=" ++ (n.model ++ (codes " leader=" ++ n.addr))))

  unfoldable pub sync_server_to_router : SvNode D → SvNode D × List (Notice D)
  unfolding add_args
  sync_server_to_router sv =
      if is_ready sv.node.state && not sv.router_notified
      then (record sv { router_notified = true }, server_add (add_args sv.node) ∷ [])
      else if is_dead sv.node.state && sv.router_notified
      then (record sv { router_notified = false }, server_del sv.node.node_id ∷ [])
      else if sv.router_notified
      then (sv, server_update sv.node ∷ [])
      else (sv, [])

  -- What a heartbeat writes into a known entry. Its type stays.
  unfoldable pub update_node : Node D → SvNode D → SvNode D
  update_node n sv =
      let old = sv.node in
      record sv {
        node = record old {
          state = n.state;
          inflight = n.inflight;
          waiting = n.waiting;
          kv_mb = n.kv_mb;
          avg_infer_ms = n.avg_infer_ms;
          model = if is_empty n.model then old.model else n.model;
          addr = if is_empty n.addr then old.addr else n.addr;
          last_hb = n.last_hb;
        };
      }

-- An address on the loopback becomes that of the peer, which is `none` where the system does not
-- give an IPv4 address.
unfoldable pub fix_addr : Option Bytes → Bytes → Bytes
unfolding find_char
fix_addr none addr = addr
fix_addr (some ip) addr =
    let port : Bytes = elim (find_char b':' addr) [ none ↦ [] | some colon ↦ take 31 colon ] in
    if equal (take_while (λ c. not (c == b':')) addr) (codes "127.0.0.1")
    then (if equal (take 63 ip) (codes "127.0.0.1")
        then addr
        else take text_max (take 63 ip ++ port))
    else addr

module _ {D : Type 0} where
  -- The end of `handle_heartbeat`: the address, and the notice to the routers.
  unfoldable pub finish_beat : Option Bytes → SvNode D → SvNode D × List (Notice D)
  unfolding fix_addr
  finish_beat peer sv =
      let n = sv.node in
      let fixed = record sv { node = record n { addr = fix_addr peer n.addr } } in
      if equal n.type (codes "server") then sync_server_to_router fixed else (fixed, [])

  -- A new entry, `memset` and the node.
  abbrev pub new_sv : Node D → SvNode D
  new_sv n = record { node = n; router_notified = false; leased_by = []; lease_expire = 0 }

  -- A write to entry `i` that also sends.
  unfoldable pub modify :
      ℕ
      → (SvNode D → SvNode D × List (Notice D))
      → List (SvNode D)
      → List (SvNode D) × List (Notice D)
  modify i f [] = ([], [])
  modify zero f (sv ∷ svs) = let (sv', sent) = f sv in (sv' ∷ svs, sent)
  modify (suc i) f (sv ∷ svs) = let (svs', sent) = modify i f svs in (sv ∷ svs', sent)

-- The flag is whether the answer is `OK`; the other is `ERR too many nodes`.
unfoldable pub handle_heartbeat :
    (F : Floats)
    → ℕ
    → Option Bytes
    → Bytes
    → Supervisor F.Double
    → Supervisor F.Double × List (Notice F.Double) × Bool
handle_heartbeat F now peer args s =
    let n = node_parse_hb F now args (zero_node F) in
    elim (find_node n.node_id s) [
      | none ↦
          if leb max_nodes (length s.nodes)
          then (s, [], false)
          else (let (sv, sent) = finish_beat peer (new_sv n) in
              (record s { nodes = s.nodes ++ sv ∷ [] }, sent, true))
      | some i ↦
          let (svs, sent) = modify i (λ sv. finish_beat peer (update_node n sv)) s.nodes in
          (record s { nodes = svs }, sent, true)
    ]
