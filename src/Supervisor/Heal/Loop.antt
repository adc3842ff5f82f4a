-- ===== src/Supervisor/Heal/Loop.antt =====
-- The loop of `heal_dead` over all nodes.
use yllm.Base.{
  ℕ, zero, suc, ◌≡◌, refl, sym, ◌∙◌, ap, subst, some, List, [], ◌∷◌, ◌++◌, map, append_assoc, arith,
  length, length-append, get_elem?, All,
}
use yllm.Base.Int.{ℤ}
use yllm.Base.Outcome.{done}
use yllm.Node.{Node}
use yllm.Supervisor.Heal.Nodes.{nodes_of, bury, bury_at, bury_at-append}
use yllm.Supervisor.Heal.Sweep.{CanRespawn, heal_node-Buries, heal_from-round}
use yllm.Supervisor.Heal.{Process, Action, heal_from, heal_dead, model_stride}
use yllm.Supervisor.Types.{SvNode, Supervisor}

module _ {D : Type 0} where
  get_elem?-middle :
      (pre : List (Node D)) (n : Node D) (post : List (Node D))
      → get_elem? (pre ++ n ∷ post) (length pre) ≡ some n
  get_elem?-middle [] n post = refl
  get_elem?-middle (x ∷ pre) n post = get_elem?-middle pre n post

  get_elem?-nodes_of :
      (i : ℕ) (svs : List (SvNode D)) (n : Node D)
      → get_elem? (nodes_of svs) i ≡ some n
      → (sv : SvNode D) × (get_elem? svs i ≡ some sv) × (sv.node ≡ n)
  get_elem?-nodes_of i [] n h = absurd (ground arith)
  get_elem?-nodes_of zero (sv ∷ svs) n h = let is : sv.node ≡ n = cc in (sv, refl, is)
  get_elem?-nodes_of (suc i) (sv ∷ svs) n h = get_elem?-nodes_of i svs n h

  stride_of : (s t : Supervisor D) → t.models ≡ s.models → model_stride s ≡ model_stride t
  unfolding model_stride
  stride_of s t e = rw e refl

  length-nodes_of : (svs : List (SvNode D)) → length (nodes_of svs) ≡ length svs
  length-nodes_of [] = refl
  length-nodes_of (sv ∷ svs) = ap suc (length-nodes_of svs)

  module _ (launch : Process → ℤ) (now : ℕ) where
    heal_from-buries :
        (i : ℕ) (s : Supervisor D) (pre post : List (Node D))
        → nodes_of s.nodes ≡ pre ++ post
        → length pre ≡ i
        → All (CanRespawn (model_stride s)) post
        → (t : Supervisor D) × (acts : List (Action D)) × (heal_from launch now (length post) i s
            ≡ done (t, acts))
          × (nodes_of t.nodes ≡ pre ++ map (bury now) post)
    heal_from-buries i s pre [] q at can = (s, [], unfold heal_from in refl, q)
    heal_from-buries i s pre (n ∷ post) q at can =
        let (sv, here, is) = get_elem?-nodes_of i s.nodes n (
          ap (λ ns. get_elem? ns i) q
          ∙ ap (get_elem? (pre ++ n ∷ post)) (sym at)
          ∙ get_elem?-middle pre n post) in
        let (t, acts, first, nodes, models) =
          heal_node-Buries launch now i s sv here
            (subst (CanRespawn (model_stride s)) (sym is) can.0) in
        let after : nodes_of t.nodes ≡ (pre ++ bury now n ∷ []) ++ post =
          nodes
          ∙ ap (bury_at now i) q
          ∙ ap (λ j. bury_at now j (pre ++ n ∷ post)) (sym at)
          ∙ bury_at-append now pre n post
          ∙ sym (append_assoc pre (bury now n ∷ []) post) in
        let (u, later, rest, done_nodes) =
          heal_from-buries (suc i) t (pre ++ bury now n ∷ []) post after
            (omega (arith, length-append pre (bury now n ∷ []), at))
            (subst (λ k. All (CanRespawn k) post) (stride_of s t models) can.1) in
        (
          u,
          acts ++ later,
          heal_from-round launch now (length post) i s t u acts later first rest,
          done_nodes ∙ append_assoc pre (bury now n ∷ []) (map (bury now) post),
        )

    -- If the identifiers of the servers and ranks have numbers that a process can be started for,
    -- `heal_dead` returns, and it has marked dead exactly the servers and ranks whose heartbeat is
    -- overdue; nothing else of the nodes' own data has changed.
    pub heal_dead-bury :
        (s : Supervisor D)
        → All (CanRespawn (model_stride s)) (nodes_of s.nodes)
        → (t : Supervisor D) × (acts : List (Action D)) × (heal_dead launch now s ≡ done (t, acts))
          × (nodes_of t.nodes ≡ map (bury now) (nodes_of s.nodes))
    unfolding heal_dead
    heal_dead-bury s can =
        let (t, acts, at, nodes) = heal_from-buries 0 s [] (nodes_of s.nodes) refl refl can in
        (t, acts, ap (λ k. heal_from launch now k 0 s) (sym (length-nodes_of s.nodes)) ∙ at, nodes)
