-- ===== src/Supervisor/Heal/Sweep.antt =====
-- What `heal_dead` makes of the nodes.
use yllm.Base.{
  ℕ, suc, ◌≡◌, refl, ◌∙◌, ap, Bool, true, false, inl, inr, not, ◌||◌, some, List, [], ◌++◌, arith,
  if◌then◌else◌, Bool-cases, get_elem?, drop,
}
use yllm.Base.Int.{ℤ, pos}
use yllm.Base.Outcome.{Outcome, done, ◌>>=◌}
use yllm.Base.Scan.{atoi}
use yllm.Base.Text.{Bytes, codes, equal, is_empty}
use yllm.Node.{Node, is_dead, node_is_dead}
use yllm.Supervisor.Heal.{
  killed_first, supervisor_spawn_server, supervisor_spawn_rank, Process, Action, heal_node,
  heal_from, server_dies, rank_dies, die, notices, respawn_server, respawn_rank, split_number,
  model_stride,
}
use yllm.Supervisor.Heartbeat.{sync_server_to_router}
use yllm.Supervisor.Types.{SvNode, Supervisor, hb_timeout}
use yllm.Supervisor.Heal.Nodes.{
  nodes_of, is_overdue, bury_at, nodes_of-set, nodes_of-same, nodes_of-free_leases,
  nodes_of-free_group,
}

if_true : {A : Type 0} (b : Bool) (x y : A) → b ≡ true → (if b then x else y) ≡ x
if_true true x y h = refl
if_true false x y h = absurd (ground (arith, h))

-- The number in the identifier of a server or a rank is one that a process can be started for.
abbrev pub CanRespawn : {D : Type 0} → ℕ → Node D → Type 0
CanRespawn stride n =
    (equal n.type (codes "server") ≡ true → (k : ℕ) × (atoi (drop 7 n.node_id) ≡ pos k))
    × (equal n.type (codes "rank") ≡ true
        → (p : ℕ × ℤ) × (split_number stride (atoi (drop 5 n.node_id)) ≡ some p))

module _ {D : Type 0} (launch : Process → ℤ) where
  -- A respawn returns, and leaves the nodes and the models alone.
  abbrev Returns : Supervisor D → Outcome (Supervisor D × List (Action D)) → Type 0
  Returns s o =
      (t : Supervisor D) × (acts : List (Action D)) × (o ≡ done (t, acts))
      × (t.nodes ≡ s.nodes)
      × (t.models ≡ s.models)

  kept-spawn_server :
      (mi : ℕ) (s : Supervisor D)
      → ((supervisor_spawn_server launch mi s).0.nodes ≡ s.nodes)
        × ((supervisor_spawn_server launch mi s).0.models ≡ s.models)
  unfolding supervisor_spawn_server
  kept-spawn_server mi s = (ground arith, ground arith)

  kept-spawn_rank :
      (mi : ℕ) (r : ℤ) (s : Supervisor D)
      → ((supervisor_spawn_rank launch mi r s).0.nodes ≡ s.nodes)
        × ((supervisor_spawn_rank launch mi r s).0.models ≡ s.models)
  unfolding supervisor_spawn_rank
  kept-spawn_rank mi r s = (ground arith, ground arith)

  respawn_server-Returns :
      (id : Bytes) (k : ℕ) (s : Supervisor D)
      → atoi (drop 7 id) ≡ pos k
      → Returns s (respawn_server launch id s)
  unfolding respawn_server
  respawn_server-Returns id k s h =
      let t = (killed_first launch id s).0 in
      let (nodes, models) = kept-spawn_server k t in
      (
        (supervisor_spawn_server launch k t).0,
        (killed_first launch id s).1 ++ (supervisor_spawn_server launch k t).1,
        ground (arith, h),
        nodes,
        models,
      )

  respawn_rank-Returns :
      (id : Bytes) (p : ℕ × ℤ) (s : Supervisor D)
      → split_number (model_stride s) (atoi (drop 5 id)) ≡ some p
      → Returns s (respawn_rank launch id s)
  unfolding respawn_rank model_stride
  respawn_rank-Returns id (mi, r) s h =
      let t = (killed_first launch id s).0 in
      let (nodes, models) = kept-spawn_rank mi r t in
      (
        (supervisor_spawn_rank launch mi r t).0,
        (killed_first launch id s).1 ++ (supervisor_spawn_rank launch mi r t).1,
        ground (arith, h),
        nodes,
        models,
      )

  module _ (now : ℕ) where
    -- One round returns, and buries the node at its index if that is due.
    abbrev pub Buries : ℕ → Supervisor D → Type 0
    Buries i s =
        (t : Supervisor D) × (acts : List (Action D)) × (heal_node launch now i s ≡ done (t, acts))
        × (nodes_of t.nodes ≡ bury_at now i (nodes_of s.nodes))
        × (t.models ≡ s.models)

    node-sync : (sv : SvNode D) → (sync_server_to_router sv).0.node ≡ sv.node
    unfolding sync_server_to_router
    node-sync sv = ground arith

    module _ (i : ℕ) (s : Supervisor D) (sv : SvNode D) (here : get_elem? s.nodes i ≡ some sv) where
      server_dies-nodes :
          is_overdue now sv.node ≡ true
          → nodes_of (server_dies i sv s.nodes).0 ≡ bury_at now i (nodes_of s.nodes)
      unfolding server_dies
      server_dies-nodes due =
          nodes_of-free_leases sv.node.node_id _
          ∙ nodes_of-set now i s.nodes sv _ here (node-sync (die sv) ∙ rw due refl)

      rank_dies-nodes :
          is_overdue now sv.node ≡ true
          → nodes_of (rank_dies i sv s.nodes) ≡ bury_at now i (nodes_of s.nodes)
      unfolding rank_dies
      rank_dies-nodes due =
          let buried = nodes_of-set now i s.nodes sv (die sv) here (rw due refl) in
          elim (Bool-cases (is_empty sv.leased_by)) [
            | inl free ↦ rw free buried
            | inr held ↦ rw held (nodes_of-free_group i 0 sv.leased_by _ ∙ buried)
          ]

      abbrev no_server : Supervisor D
      no_server = record s { nodes = (server_dies i sv s.nodes).0 }

      abbrev no_rank : Supervisor D
      no_rank = record s { nodes = rank_dies i sv s.nodes }

      same_stride :
          split_number (model_stride no_rank) (atoi (drop 5 sv.node.node_id))
          ≡ split_number (model_stride s) (atoi (drop 5 sv.node.node_id))
      unfolding model_stride
      same_stride = refl

      heal_node_fine :
          (is_dead sv.node.state || not (node_is_dead now hb_timeout sv.node)) ≡ true
          → heal_node launch now i s ≡ done (s, [])
      unfolding heal_node
      heal_node_fine h = ground (arith, here, h)

      module _
          (due : (is_dead sv.node.state || not (node_is_dead now hb_timeout sv.node)) ≡ false) where
        heal_node_other :
            equal sv.node.type (codes "server") ≡ false
            → equal sv.node.type (codes "rank") ≡ false
            → heal_node launch now i s ≡ done (s, [])
        unfolding heal_node
        heal_node_other h k = ground (arith, here, due, h, k)

        heal_node_server :
            equal sv.node.type (codes "server") ≡ true
            → heal_node launch now i s ≡ (
                if s.auto_heal
                then (respawn_server launch sv.node.node_id no_server >>= λ r.
                    done (r.0, notices (server_dies i sv s.nodes).1 ++ r.1))
                else done (no_server, notices (server_dies i sv s.nodes).1))
        unfolding heal_node
        heal_node_server h = ground (arith, here, due, h)

        heal_node_rank :
            equal sv.node.type (codes "server") ≡ false
            → equal sv.node.type (codes "rank") ≡ true
            → heal_node launch now i s ≡ (
                if s.auto_heal
                then respawn_rank launch sv.node.node_id no_rank
                else done (no_rank, []))
        unfolding heal_node
        heal_node_rank h k = ground (arith, here, due, h, k)

        server-Buries :
            equal sv.node.type (codes "server") ≡ true
            → CanRespawn (model_stride s) sv.node
            → Buries i s
        server-Buries server can =
            let buried = server_dies-nodes (ground (arith, due, server)) in
            elim (Bool-cases s.auto_heal) [
              | inr manual ↦ (
                no_server,
                notices (server_dies i sv s.nodes).1,
                heal_node_server server ∙ rw manual refl,
                buried,
                refl,
              )
              | inl auto ↦
                  let (k, number) = can.0 server in
                  let (t, acts, back, nodes, models) =
                    respawn_server-Returns sv.node.node_id k no_server number in
                  (
                    t,
                    notices (server_dies i sv s.nodes).1 ++ acts,
                    heal_node_server server
                        ∙ if_true s.auto_heal _ _ auto
                        ∙ ap
                            (λ m.
                              m >>= λ r. done (r.0, notices (server_dies i sv s.nodes).1 ++ r.1))
                            back,
                    ap (λ svs. nodes_of svs) nodes ∙ buried,
                    models,
                  )
            ]

        rank-Buries :
            equal sv.node.type (codes "server") ≡ false
            → equal sv.node.type (codes "rank") ≡ true
            → CanRespawn (model_stride s) sv.node
            → Buries i s
        rank-Buries other rank can =
            let buried = rank_dies-nodes (ground (arith, due, rank)) in
            elim (Bool-cases s.auto_heal) [
              | inr manual ↦ (no_rank, [], heal_node_rank other rank ∙ rw manual refl, buried, refl)
              | inl auto ↦
                  let (p, number) = can.1 rank in
                  let (t, acts, back, nodes, models) =
                    respawn_rank-Returns sv.node.node_id p no_rank (same_stride ∙ number) in
                  (
                    t,
                    acts,
                    heal_node_rank other rank ∙ if_true s.auto_heal _ _ auto ∙ back,
                    ap (λ svs. nodes_of svs) nodes ∙ buried,
                    models,
                  )
            ]

      pub heal_node-Buries : CanRespawn (model_stride s) sv.node → Buries i s
      heal_node-Buries can =
          elim (Bool-cases (is_dead sv.node.state || not (node_is_dead now hb_timeout sv.node))) [
            | inl fine ↦ (
              s,
              [],
              heal_node_fine fine,
              nodes_of-same now i s.nodes sv here (ground (arith, fine)),
              refl,
            )
            | inr due ↦ elim (Bool-cases (equal sv.node.type (codes "server"))) [
              | inl server ↦ server-Buries due server can
              | inr other ↦ elim (Bool-cases (equal sv.node.type (codes "rank"))) [
                | inl rank ↦ rank-Buries due other rank can
                | inr neither ↦ (
                  s,
                  [],
                  heal_node_other due other neither,
                  nodes_of-same now i s.nodes sv here (ground (arith, other, neither)),
                  refl,
                )
              ]
            ]
          ]

    pub heal_from-round :
        (k i : ℕ) (s t u : Supervisor D) (acts later : List (Action D))
        → heal_node launch now i s ≡ done (t, acts)
        → heal_from launch now k (suc i) t ≡ done (u, later)
        → heal_from launch now (suc k) i s ≡ done (u, acts ++ later)
    unfolding heal_from
    heal_from-round k i s t u acts later first rest = rw (first, rest) refl
