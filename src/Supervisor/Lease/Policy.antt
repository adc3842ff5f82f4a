-- ===== src/Supervisor/Lease/Policy.antt =====
-- A lease for a time or for ever, as `server_lease` of serve/server.c asks for it: the model and
-- the policy stand in one line, and `proto_get` gives all that follows `model=`.
use yllm.Base.{ℕ, ◌≡◌, ◌≢◌, refl, ◌∙◌, ap, subst, true, none, some, List, [], ◌∷◌, arith, All}
use yllm.Base.Outcome.{done}
use yllm.Base.Scan.{not_blank}
use yllm.Base.Text.{Bytes, codes, equal_ne, is_empty_ne}
use yllm.Supervisor.Lease.Grant.{handle_lease_given, lease_group_nobody}
use yllm.Supervisor.Lease.{
  server_id, lease_expiry, is_eligible, members, leader_from, no_rank, handle_lease,
}
use yllm.Supervisor.Types.{SvNode, Supervisor}
use yllm.Wire.Protocol.{proto_get}

abbrev pub IsWord : Bytes → Type 0
IsWord s = (s ≢ []) × All (λ c. not_blank c ≡ true) s

module _ {D : Type 0} (srv want : Bytes) (filled : want ≢ []) (blank : IsWord want → ⊥) where
  no_members :
      (svs : List (SvNode D)) → All (λ sv. IsWord sv.node.model) svs → members srv want svs ≡ []
  unfolding members is_eligible
  no_members [] a = refl
  no_members (sv ∷ svs) a =
      let other = equal_ne sv.node.model want (λ e. blank (subst IsWord e a.0)) in
      ground
        (arith, no_members svs a.1, other, is_empty_ne sv.node.model a.0.0, is_empty_ne want filled)

-- If the models of all nodes are single words, a lease whose line has more words behind the model,
-- such as a duration, is always refused.
pub handle_lease_policy_refused :
    {D : Type 0} (now : ℕ) (args want : Bytes) (s : Supervisor D)
    → proto_get args (codes "model") ≡ some want
    → want ≢ []
    → (IsWord want → ⊥)
    → server_id args ≢ []
    → All (λ sv. IsWord sv.node.model) s.nodes
    → handle_lease now args s ≡ done (s, no_rank)
handle_lease_policy_refused now args want s given filled blank named words =
    handle_lease_given now args s want given (is_empty_ne (server_id args) named)
    ∙ lease_group_nobody now args s (lease_expiry now (proto_get args (codes "duration")))
        (server_id args) want
        (ap (leader_from none) (no_members (server_id args) want filled blank s.nodes words)
          ∙ unfold leader_from in refl)
