-- ===== src/Supervisor/Lease/Grant.antt =====
-- What `handle_lease` answers, and what it makes of the table.
use yllm.Base.{
  ℕ, ◌≡◌, ◌≢◌, refl, sym, ◌∙◌, ap, true, false, inl, inr, ◌⊎◌, Option, none, some, List, [], ◌∷◌,
  arith, Bool-cases, Option-cases, length, take, get_elem?,
}
use yllm.Base.Outcome.{Outcome, done, ◌>>=◌, >>=-eq-done, done-injective}
use yllm.Base.Text.{Bytes, codes, is_empty}
use yllm.Supervisor.Lease.Order.{sort_ports-IsSorted}
use yllm.Supervisor.Lease.{
  server_id, lease_expiry, members, mark_leases, leader_from, sort_ports, join_ids, join_peers,
  max_group, addresses, LeaseReply, bad_args, no_rank, leased, lease_group, handle_lease,
}
use yllm.Supervisor.Types.{SvNode, Supervisor}
use yllm.Wire.Protocol.{proto_get}
use yllm.Supervisor.Lease.Leader.{
  marked, get_elem?-mark_leases, IsLeader, NoLeader, leader_from-IsLeader, leader_from-NoLeader,
  HavePorts, addresses-HasPort, length-addresses,
}

-- What `handle_lease` does with the arguments `args`: it refuses and changes nothing, or it takes
-- all eligible ranks for the server, and nothing else.
module _ {D : Type 0} (now : ℕ) (args : Bytes) (s : Supervisor D) where
  abbrev pub IsAnswer : Supervisor D → LeaseReply → Type 0
  IsAnswer s' bad_args =
      (s' ≡ s) × ((server_id args ≡ []) ⊎ (proto_get args (codes "model") ≡ none))
  IsAnswer s' no_rank =
      (s' ≡ s)
      × (model : Bytes) × (proto_get args (codes "model") ≡ some model)
      × NoLeader (server_id args) model s.nodes
  IsAnswer s' (leased n leader peers ids) =
      (model : Bytes) × (proto_get args (codes "model") ≡ some model)
      × (server_id args ≢ [])
      × (n ≡ length (members (server_id args) model s.nodes))
      × IsLeader (server_id args) model s.nodes leader
      × ((j : ℕ) (sv : SvNode D)
          → get_elem? s.nodes j ≡ some sv
          → get_elem? s'.nodes j
            ≡ some (
                marked (server_id args) model (lease_expiry now (proto_get args (codes "duration")))
                  sv))

  module _ (expire : ℕ) (srv model : Bytes) where
    pub lease_group_nobody :
        leader_from none (members srv model s.nodes) ≡ none
        → lease_group expire srv model s ≡ done (s, no_rank)
    unfolding lease_group
    lease_group_nobody h = ground arith

    lease_group_leader :
        (leader : Bytes) (sorted : List Bytes)
        → leader_from none (members srv model s.nodes) ≡ some leader
        → sort_ports
            (length (take max_group (members srv model s.nodes)))
            (addresses (take max_group (members srv model s.nodes)))
          ≡ done sorted
        → lease_group expire srv model s
          ≡ done (
            record s { nodes = mark_leases srv model expire s.nodes },
            leased
                (length (members srv model s.nodes))
                leader
                (join_peers true [] sorted)
                (join_ids [] (take max_group (members srv model s.nodes))),
          )
    unfolding lease_group
    lease_group_leader leader sorted h at = ground arith

    lease_group-done :
        (leader : Bytes)
        → leader_from none (members srv model s.nodes) ≡ some leader
        → HavePorts srv model s.nodes
        → (peers : Bytes) × (ids : Bytes) × (lease_group expire srv model s
            ≡ done (
              record s { nodes = mark_leases srv model expire s.nodes },
              leased (length (members srv model s.nodes)) leader peers ids,
            ))
    lease_group-done leader lead ports =
        let named = take max_group (members srv model s.nodes) in
        let (sorted, at, perm, order) =
          sort_ports-IsSorted (addresses named)
            (addresses-HasPort srv model max_group s.nodes ports) in
        (
          join_peers true [] sorted,
          join_ids [] named,
          lease_group_leader leader sorted lead
              (ap (λ n. sort_ports n (addresses named)) (sym (length-addresses named)) ∙ at),
        )

  handle_lease_missing :
      proto_get args (codes "model") ≡ none → handle_lease now args s ≡ done (s, bad_args)
  unfolding handle_lease
  handle_lease_missing h = ground arith

  handle_lease_nameless :
      (model : Bytes)
      → proto_get args (codes "model") ≡ some model
      → is_empty (server_id args) ≡ true
      → handle_lease now args s ≡ done (s, bad_args)
  unfolding handle_lease
  handle_lease_nameless model h e = ground arith

  pub handle_lease_given :
      (model : Bytes)
      → proto_get args (codes "model") ≡ some model
      → is_empty (server_id args) ≡ false
      → handle_lease now args s
        ≡ lease_group
            (lease_expiry now (proto_get args (codes "duration")))
            (server_id args)
            model
            s
  unfolding handle_lease
  handle_lease_given model h e = ground arith

  abbrev granted : ℕ → Bytes → Bytes → Bytes → List Bytes → Outcome (Supervisor D × LeaseReply)
  granted expire srv model leader sorted = done (
    record s { nodes = mark_leases srv model expire s.nodes },
    leased (length (members srv model s.nodes)) leader (join_peers true [] sorted)
        (join_ids [] (take max_group (members srv model s.nodes))),
  )

  abbrev sorting : Bytes → Bytes → Outcome (List Bytes)
  sorting srv model =
      sort_ports (length (take max_group (members srv model s.nodes)))
        (addresses (take max_group (members srv model s.nodes)))

  lease_group_sorts :
      (expire : ℕ) (srv model leader : Bytes)
      → leader_from none (members srv model s.nodes) ≡ some leader
      → lease_group expire srv model s ≡ (sorting srv model >>= granted expire srv model leader)
  unfolding lease_group
  lease_group_sorts expire srv model leader h =
      ap
        (λ (o : Option Bytes). elim o [
          | none ↦ done (s, no_rank)
          | some l ↦ sorting srv model >>= granted expire srv model l
        ])
        h

  -- Whenever `handle_lease` answers, it has left the nodes alone or marked the eligible ones.
  abbrev Leaves : Supervisor D → Type 0
  Leaves s' =
      (s'.nodes ≡ s.nodes)
      ⊎ ((model : Bytes) × (expire : ℕ) × (s'.nodes
            ≡ mark_leases (server_id args) model expire s.nodes))

  abbrev the_answer : Supervisor D → LeaseReply → Outcome (Supervisor D × LeaseReply)
  the_answer t r = done (t, r)

  nodes-done :
      {t : Supervisor D} {r : LeaseReply} (s' : Supervisor D) (reply : LeaseReply)
      → the_answer t r ≡ done (s', reply)
      → s'.nodes ≡ t.nodes
  nodes-done s' reply h = ap (λ (p : Supervisor D × LeaseReply). p.0.nodes) (sym (done-injective h))

  lease_group-Leaves :
      (expire : ℕ) (model : Bytes) (s' : Supervisor D) (reply : LeaseReply)
      → lease_group expire (server_id args) model s ≡ done (s', reply)
      → Leaves s'
  lease_group-Leaves expire model s' reply h =
      elim (Option-cases (leader_from none (members (server_id args) model s.nodes))) [
        | inl nobody ↦ inl (
            nodes-done s' reply (sym (lease_group_nobody expire (server_id args) model nobody) ∙ h))
        | inr (leader, lead) ↦
            let (sorted, at, answer) =
              >>=-eq-done (sorting (server_id args) model)
                (granted expire (server_id args) model leader)
                (sym (lease_group_sorts expire (server_id args) model leader lead) ∙ h) in
            inr (
              model,
              expire,
              nodes-done {r = leased _ leader (join_peers true [] sorted) _} s' reply answer,
            )
      ]

  pub handle_lease-Leaves :
      (s' : Supervisor D) (reply : LeaseReply)
      → handle_lease now args s ≡ done (s', reply)
      → Leaves s'
  handle_lease-Leaves s' reply h = elim (Option-cases (proto_get args (codes "model"))) [
    | inl missing ↦ inl (nodes-done s' reply (sym (handle_lease_missing missing) ∙ h))
    | inr (model, given) ↦ elim (Bool-cases (is_empty (server_id args))) [
      | inl empty ↦ inl (nodes-done s' reply (sym (handle_lease_nameless model given empty) ∙ h))
      | inr named ↦
          lease_group-Leaves (lease_expiry now (proto_get args (codes "duration"))) model s' reply
            (sym (handle_lease_given model given named) ∙ h)
    ]
  ]

  -- If the addresses of the eligible ranks have colons, `handle_lease` answers. It refuses bad
  -- arguments, and a model without an eligible rank 0, and changes nothing then. Else every eligible
  -- rank is leased to the server, the answer has their number and the address of one that is rank 0,
  -- and all other ranks stay as they were.
  pub handle_lease-IsAnswer :
      ((model : Bytes)
        → proto_get args (codes "model") ≡ some model
        → HavePorts (server_id args) model s.nodes)
      → (s' : Supervisor D) × (reply : LeaseReply) × (handle_lease now args s ≡ done (s', reply))
        × IsAnswer s' reply
  handle_lease-IsAnswer ports = elim (Option-cases (proto_get args (codes "model"))) [
    | inl missing ↦ (s, bad_args, handle_lease_missing missing, (refl, inr missing))
    | inr (model, given) ↦ elim (Bool-cases (is_empty (server_id args))) [
      | inl empty ↦ (
        s,
        bad_args,
        handle_lease_nameless model given empty,
        (refl, inl (nil_of (server_id args) empty)),
      )
      | inr named ↦
          let expire = lease_expiry now (proto_get args (codes "duration")) in
          let srv = server_id args in
          let group = members srv model s.nodes in
          elim (Option-cases (leader_from none group)) [
            | inl nobody ↦ (
              s,
              no_rank,
              handle_lease_given model given named ∙ lease_group_nobody expire srv model nobody,
              (refl, model, given, leader_from-NoLeader srv model s.nodes nobody),
            )
            | inr (leader, lead) ↦
                let (peers, ids, at) =
                  lease_group-done expire srv model leader lead (ports model given) in
                (
                  record s { nodes = mark_leases srv model expire s.nodes },
                  leased (length group) leader peers ids,
                  handle_lease_given model given named ∙ at,
                  (
                    model,
                    given,
                    (λ e. filled srv named e),
                    refl,
                    lead_of (leader_from-IsLeader srv model none s.nodes leader lead),
                    (λ j sv h. get_elem?-mark_leases srv model expire j s.nodes sv h),
                  ),
                )
          ]
    ]
  ]
    where
      nil_of : (t : Bytes) → is_empty t ≡ true → t ≡ []
      nil_of [] h = refl
      nil_of (c ∷ t) h = absurd (ground arith)

      filled : (t : Bytes) → is_empty t ≡ false → t ≢ []
      filled t h e = ground arith

      lead_of : {l : Bytes} {A : Type 0} → (none ≡ some l) ⊎ A → A
      lead_of (inl e) = absurd (ground (arith, e))
      lead_of (inr a) = a
