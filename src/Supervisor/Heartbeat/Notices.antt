-- ===== src/Supervisor/Heartbeat/Notices.antt =====
-- The notices that the heartbeats of one server make the supervisor send.
use yllm.Base.{
  ◌≡◌, refl, ◌∙◌, Bool, true, false, Option, none, some, List, [], ◌∷◌, ◌++◌, arith, Bool-cases,
  inl, inr,
}
use yllm.Base.Text.{Bytes, codes, equal}
use yllm.Node.{Node, is_ready, is_dead}
use yllm.Supervisor.Heartbeat.{sync_server_to_router, update_node, fix_addr, finish_beat}
use yllm.Supervisor.Types.{SvNode, Notice, server_add, server_del, server_update}

module _ {D : Type 0} where
  -- Whether a router knows the server after the notices, if they come in an order that makes sense: an
  -- arrival of a server that it does not know, and a departure or a load of one that it does.
  unfoldable pub after : Bool → List (Notice D) → Option Bool
  after knows [] = some knows
  after false (server_add a ∷ ns) = after true ns
  after true (server_del a ∷ ns) = after false ns
  after true (server_update n ∷ ns) = after true ns
  after _ (_ ∷ ns) = none

  -- A run of heartbeats of one node, each with its peer.
  unfoldable pub beats : List (Option Bytes × Node D) → SvNode D → SvNode D × List (Notice D)
  beats [] sv = (sv, [])
  beats ((peer, n) ∷ bs) sv =
      let (next, sent) = finish_beat peer (update_node n sv) in
      let (last, later) = beats bs next in (last, sent ++ later)

  after-sync :
      (sv : SvNode D)
      → after sv.router_notified (sync_server_to_router sv).1
        ≡ some (sync_server_to_router sv).0.router_notified
  unfolding after sync_server_to_router
  after-sync sv = elim (Bool-cases sv.router_notified) [
    | inl told ↦ elim (Bool-cases (is_dead sv.node.state)) [
      | inl gone ↦ ground (arith, told, gone)
      | inr up ↦ ground (arith, told, up)
    ]
    | inr untold ↦ elim (Bool-cases (is_ready sv.node.state)) [
      | inl up ↦ ground (arith, untold, up)
      | inr down ↦ ground (arith, untold, down)
    ]
  ]

  after-append :
      (b c : Bool) (ns ms : List (Notice D)) → after b ns ≡ some c → after b (ns ++ ms) ≡ after c ms
  unfolding after
  after-append b c [] ms h = ground arith
  after-append false c (server_add a ∷ ns) ms h = after-append true c ns ms h
  after-append true c (server_add a ∷ ns) ms h = absurd (ground arith)
  after-append false c (server_del a ∷ ns) ms h = absurd (ground arith)
  after-append true c (server_del a ∷ ns) ms h = after-append false c ns ms h
  after-append false c (server_update n ∷ ns) ms h = absurd (ground arith)
  after-append true c (server_update n ∷ ns) ms h = after-append true c ns ms h

  after-finish_beat :
      (peer : Option Bytes) (sv : SvNode D)
      → after sv.router_notified (finish_beat peer sv).1
        ≡ some (finish_beat peer sv).0.router_notified
  unfolding finish_beat
  after-finish_beat peer sv = elim (Bool-cases (equal sv.node.type (codes "server"))) [
    | inl server ↦
        let n = sv.node in
        rw server (after-sync (record sv { node = record n { addr = fix_addr peer n.addr } }))
    | inr other ↦ rw other (unfold after in refl)
  ]

  -- Over any run of heartbeats of a node, the notices come in an order that makes sense, from what
  -- the entry's flag says at the start to what it says at the end.
  pub after-beats :
      (bs : List (Option Bytes × Node D)) (sv : SvNode D)
      → after sv.router_notified (beats bs sv).1 ≡ some (beats bs sv).0.router_notified
  unfolding beats
  after-beats [] sv = unfold after in refl
  after-beats ((peer, n) ∷ bs) sv =
      let next = (finish_beat peer (update_node n sv)).0 in
      after-append sv.router_notified next.router_notified (finish_beat peer (update_node n sv)).1
        (beats bs next).1 (unfold update_node in after-finish_beat peer (update_node n sv))
      ∙ after-beats bs next
