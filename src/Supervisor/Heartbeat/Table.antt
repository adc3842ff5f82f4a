-- ===== src/Supervisor/Heartbeat/Table.antt =====
-- The table of nodes across heartbeats.
use yllm.Base.{
  ℕ, zero, suc, ◌≤◌, ◌≡◌, ◌≢◌, refl, sym, ◌∙◌, ap, subst, true, false, inl, inr, Option, none, List,
  [], ◌∷◌, ◌++◌, arith, Bool-cases, Option-cases, length, All, All-append, length-append, leb,
}
use yllm.Base.Text.{Bytes, codes, equal, equal_iff}
use yllm.Node.{Floats, Node, NodeState, loading, ready, busy, dead, is_ready, is_dead}
use yllm.Supervisor.Heartbeat.Branches.{
  heard, handle_heartbeat_known, handle_heartbeat_full, handle_heartbeat_new,
}
use yllm.Supervisor.Heartbeat.{
  find_from, find_node, sync_server_to_router, update_node, fix_addr, finish_beat, modify, new_sv,
  handle_heartbeat,
}
use yllm.Supervisor.Types.{SvNode, Supervisor, Notice, max_nodes}

ready_not_dead : (st : NodeState) → is_ready st ≡ true → is_dead st ≡ false
ready_not_dead loading h = refl
ready_not_dead ready h = refl
ready_not_dead busy h = refl
ready_not_dead dead h = absurd (ground arith)

module _ {D : Type 0} where
  -- A free node has no end of a lease. Routers are told of servers alone, of every ready one, and of
  -- no dead one.
  pub record IsEntry (sv : SvNode D) : Type 0 where
    pub free : sv.leased_by ≡ [] → sv.lease_expire ≡ 0
    pub others : equal sv.node.type (codes "server") ≡ false → sv.router_notified ≡ false
    pub up :
        equal sv.node.type (codes "server") ≡ true
        → is_ready sv.node.state ≡ true
        → sv.router_notified ≡ true
    pub down : is_dead sv.node.state ≡ true → sv.router_notified ≡ false

  abbrev pub Unknown : Bytes → List (SvNode D) → Type 0
  Unknown id = All (λ sv. sv.node.node_id ≢ id)

  abbrev pub Distinct : List (SvNode D) → Type 0
  Distinct [] = Unit
  Distinct (sv ∷ svs) = Unknown sv.node.node_id svs × Distinct svs

  pub record IsTable (svs : List (SvNode D)) : Type 0 where
    pub bounded : length svs ≤ max_nodes
    pub distinct : Distinct svs
    pub entries : All IsEntry svs

  module _ (sv : SvNode D) where
    node-sync : (sync_server_to_router sv).0.node ≡ sv.node
    unfolding sync_server_to_router
    node-sync = ground arith

    leased_by-sync : (sync_server_to_router sv).0.leased_by ≡ sv.leased_by
    unfolding sync_server_to_router
    leased_by-sync = ground arith

    lease_expire-sync : (sync_server_to_router sv).0.lease_expire ≡ sv.lease_expire
    unfolding sync_server_to_router
    lease_expire-sync = ground arith

    sync_up : is_ready sv.node.state ≡ true → (sync_server_to_router sv).0.router_notified ≡ true
    unfolding sync_server_to_router
    sync_up h = let alive = ready_not_dead sv.node.state h in ground (arith, h, alive)

    sync_down : is_dead sv.node.state ≡ true → (sync_server_to_router sv).0.router_notified ≡ false
    unfolding sync_server_to_router
    sync_down h = elim (Bool-cases (is_ready sv.node.state)) [
      | inl up ↦ absurd (ground (arith, ready_not_dead sv.node.state up))
      | inr down ↦ ground (arith, h, down)
    ]

    -- The entry of a server, after its notice.
    sync-IsEntry :
        equal sv.node.type (codes "server") ≡ true
        → (sv.leased_by ≡ [] → sv.lease_expire ≡ 0)
        → IsEntry (sync_server_to_router sv).0
    sync-IsEntry server free = record {
      free = λ e. lease_expire-sync ∙ free (sym leased_by-sync ∙ e);
      others = λ e. absurd (ground (arith, server, sym type_is ∙ e));
      up = λ e u. sync_up (ap (λ n. is_ready n.state) (sym node-sync) ∙ u);
      down = λ d. sync_down (ap (λ n. is_dead n.state) (sym node-sync) ∙ d);
    }
      where
        type_is :
            equal (sync_server_to_router sv).0.node.type (codes "server")
            ≡ equal sv.node.type (codes "server")
        type_is = ap (λ n. equal n.type (codes "server")) node-sync

  -- What `finish_beat` makes of an entry whose flag is off unless it is a server.
  finish_beat-IsEntry :
      (peer : Option Bytes) (sv : SvNode D)
      → (sv.leased_by ≡ [] → sv.lease_expire ≡ 0)
      → (equal sv.node.type (codes "server") ≡ false → sv.router_notified ≡ false)
      → IsEntry (finish_beat peer sv).0 × ((finish_beat peer sv).0.node.node_id ≡ sv.node.node_id)
  unfolding finish_beat
  finish_beat-IsEntry peer sv free others =
      let n = sv.node in
      let fixed = record sv { node = record n { addr = fix_addr peer n.addr } } in
      elim (Bool-cases (equal sv.node.type (codes "server"))) [
        | inl server ↦
            rw server (sync-IsEntry fixed server free, ap (λ m. m.node_id) (node-sync fixed))
        | inr other ↦ rw other (
          record {
            free = free;
            others = λ e. others other;
            up = λ e u. absurd (ground (arith, other, e));
            down = λ d. others other;
          },
          refl,
        )
      ]

  -- The same of an entry that was one, with a heartbeat written into it.
  beat-IsEntry :
      (peer : Option Bytes) (n : Node D) (sv : SvNode D)
      → IsEntry sv
      → IsEntry (finish_beat peer (update_node n sv)).0
        × ((finish_beat peer (update_node n sv)).0.node.node_id ≡ sv.node.node_id)
  unfolding update_node
  beat-IsEntry peer n sv e = finish_beat-IsEntry peer (update_node n sv) e.free e.others

  Unknown-modify :
      (id : Bytes) (i : ℕ) (f : SvNode D → SvNode D × List (Notice D)) (svs : List (SvNode D))
      → All (λ sv. (f sv).0.node.node_id ≡ sv.node.node_id) svs
      → Unknown id svs
      → Unknown id (modify i f svs).0
  unfolding modify
  Unknown-modify id i f [] same u = tt
  Unknown-modify id zero f (sv ∷ svs) same u = ((λ e. u.0 (sym same.0 ∙ e)), u.1)
  Unknown-modify id (suc i) f (sv ∷ svs) same u = (u.0, Unknown-modify id i f svs same.1 u.1)

  Distinct-modify :
      (i : ℕ) (f : SvNode D → SvNode D × List (Notice D)) (svs : List (SvNode D))
      → All (λ sv. (f sv).0.node.node_id ≡ sv.node.node_id) svs
      → Distinct svs
      → Distinct (modify i f svs).0
  unfolding modify
  Distinct-modify i f [] same d = tt
  Distinct-modify zero f (sv ∷ svs) same d = (subst (λ id. Unknown id svs) (sym same.0) d.0, d.1)
  Distinct-modify (suc i) f (sv ∷ svs) same d =
      (Unknown-modify sv.node.node_id i f svs same.1 d.0, Distinct-modify i f svs same.1 d.1)

  length-modify :
      (i : ℕ) (f : SvNode D → SvNode D × List (Notice D)) (svs : List (SvNode D))
      → length (modify i f svs).0 ≡ length svs
  unfolding modify
  length-modify i f [] = refl
  length-modify zero f (sv ∷ svs) = refl
  length-modify (suc i) f (sv ∷ svs) = ap suc (length-modify i f svs)

  All-modify :
      (i : ℕ) (f : SvNode D → SvNode D × List (Notice D)) (svs : List (SvNode D))
      → ((sv : SvNode D) → IsEntry sv → IsEntry (f sv).0)
      → All IsEntry svs
      → All IsEntry (modify i f svs).0
  unfolding modify
  All-modify i f [] keeps a = tt
  All-modify zero f (sv ∷ svs) keeps a = (keeps sv a.0, a.1)
  All-modify (suc i) f (sv ∷ svs) keeps a = (a.0, All-modify i f svs keeps a.1)

  All-weaken :
      {P Q : SvNode D → Type 0} (svs : List (SvNode D))
      → ((sv : SvNode D) → P sv → Q sv)
      → All P svs
      → All Q svs
  All-weaken [] g a = tt
  All-weaken (sv ∷ svs) g a = (g sv a.0, All-weaken svs g a.1)

  find_from-Unknown :
      (id : Bytes) (i : ℕ) (svs : List (SvNode D)) → find_from id i svs ≡ none → Unknown id svs
  unfolding find_from
  find_from-Unknown id i [] h = tt
  find_from-Unknown id i (sv ∷ svs) h = elim (Bool-cases (equal sv.node.node_id id)) [
    | inl same ↦ absurd (ground arith)
    | inr other ↦ (
      (λ e. absurd (ground (arith, other, (equal_iff sv.node.node_id id).1 e))),
      find_from-Unknown id (suc i) svs (ground arith),
    )
  ]

  Distinct-append :
      (svs : List (SvNode D)) (sv : SvNode D)
      → Distinct svs
      → Unknown sv.node.node_id svs
      → Distinct (svs ++ sv ∷ [])
  Distinct-append [] sv d u = (tt, tt)
  Distinct-append (x ∷ svs) sv d u = (
    All-append (λ y. y.node.node_id ≢ x.node.node_id) svs (sv ∷ []) d.0 ((λ e. u.0 (sym e)), tt),
    Distinct-append svs sv d.1 u.1,
  )

-- A heartbeat keeps the table well formed: at most 256 nodes, no identifier twice, no end of a lease
-- at a free node, and the routers told of every ready server and of nothing else that is dead or no
-- server.
pub handle_heartbeat-IsTable :
    (F : Floats) (now : ℕ) (peer : Option Bytes) (args : Bytes) (s : Supervisor F.Double)
    → IsTable s.nodes
    → IsTable (handle_heartbeat F now peer args s).0.nodes
handle_heartbeat-IsTable F now peer args s t =
    let n = heard F now peer args s in
    elim (Option-cases (find_node n.node_id s)) [
      | inr (i, known) ↦
          let same = All-weaken s.nodes (λ sv e. (beat-IsEntry peer n sv e).1) t.entries in
          rw (handle_heartbeat_known F now peer args s i known) (record {
            bounded = omega (
              arith,
              length-modify i (λ sv. finish_beat peer (update_node n sv)) s.nodes,
              t.bounded,
            );
            distinct =
                Distinct-modify i (λ sv. finish_beat peer (update_node n sv)) s.nodes same
                  t.distinct;
            entries =
                All-modify i (λ sv. finish_beat peer (update_node n sv)) s.nodes
                  (λ sv e. (beat-IsEntry peer n sv e).0) t.entries;
          })
      | inl new ↦ elim (Bool-cases (leb max_nodes (length s.nodes))) [
        | inl full ↦ rw (handle_heartbeat_full F now peer args s new full) t
        | inr room ↦
            let (entry, id) = finish_beat-IsEntry peer (new_sv n) (λ e. refl) (λ e. refl) in
            let unknown = find_from-Unknown n.node_id 0 s.nodes (unfold find_node in new) in
            rw (handle_heartbeat_new F now peer args s new room) (record {
              bounded =
                  ground
                    (arith, length-append s.nodes ((finish_beat peer (new_sv n)).0 ∷ []), room);
              distinct =
                  Distinct-append s.nodes _ t.distinct
                    (subst (λ i. Unknown i s.nodes) (sym id) unknown);
              entries = All-append IsEntry s.nodes _ t.entries (entry, tt);
            })
      ]
    ]
