-- ===== src/Supervisor/Lease/Leader.antt =====
-- The members of a group, their leader and their addresses.
use yllm.Base.{
  ℕ, zero, suc, ◌≡◌, refl, ap, true, false, inl, inr, ◌⊎◌, Option, none, some, List, [], ◌∷◌, arith,
  if◌then◌else◌, Bool-cases, length, take, get_elem?, All,
}
use yllm.Base.Text.{Bytes}
use yllm.Node.{text_max}
use yllm.Supervisor.Lease.Order.{HasPort}
use yllm.Supervisor.Lease.{is_eligible, members, mark_leases, is_rank_zero, leader_from, addresses}
use yllm.Supervisor.Types.{SvNode}

module _ {D : Type 0} (srv model : Bytes) where
  -- The entry that `mark_leases` leaves.
  abbrev pub marked : ℕ → SvNode D → SvNode D
  marked expire sv =
      if is_eligible srv model sv then record sv { leased_by = srv; lease_expire = expire } else sv

  pub get_elem?-mark_leases :
      (expire j : ℕ) (svs : List (SvNode D)) (sv : SvNode D)
      → get_elem? svs j ≡ some sv
      → get_elem? (mark_leases srv model expire svs) j ≡ some (marked expire sv)
  unfolding mark_leases
  get_elem?-mark_leases expire j [] sv h = absurd (ground arith)
  get_elem?-mark_leases expire zero (x ∷ svs) sv h = ground arith
  get_elem?-mark_leases expire (suc j) (x ∷ svs) sv h = get_elem?-mark_leases expire j svs sv h

  -- The leader is one of the members, and is rank 0.
  abbrev pub IsLeader : List (SvNode D) → Bytes → Type 0
  IsLeader svs leader =
      (j : ℕ) × (sv : SvNode D) × (get_elem? svs j ≡ some sv)
      × (is_eligible srv model sv ≡ true)
      × (is_rank_zero sv.node.node_id ≡ true)
      × (sv.node.addr ≡ leader)

  IsLeader-cons :
      (sv : SvNode D) (svs : List (SvNode D)) (l : Bytes) → IsLeader svs l → IsLeader (sv ∷ svs) l
  IsLeader-cons sv svs l (j, x, at, member, zero_id, q) = (suc j, x, at, member, zero_id, q)

  abbrev pub NoLeader : List (SvNode D) → Type 0
  NoLeader = All (λ sv. is_eligible srv model sv ≡ true → is_rank_zero sv.node.node_id ≡ false)

  leader_from-some :
      (best : Bytes) (svs : List (SvNode D)) → (l : Bytes) × (leader_from (some best) svs ≡ some l)
  unfolding leader_from
  leader_from-some best [] = (best, refl)
  leader_from-some best (sv ∷ svs) = elim (Bool-cases (is_rank_zero sv.node.node_id)) [
    | inl zero_id ↦ let (l, e) = leader_from-some sv.node.addr svs in (l, rw zero_id e)
    | inr other ↦ let (l, e) = leader_from-some best svs in (l, rw other e)
  ]

  pub leader_from-IsLeader :
      (best : Option Bytes) (svs : List (SvNode D)) (l : Bytes)
      → leader_from best (members srv model svs) ≡ some l
      → (best ≡ some l) ⊎ IsLeader svs l
  unfolding leader_from members
  leader_from-IsLeader best [] l h = inl h
  leader_from-IsLeader best (sv ∷ svs) l h = elim (Bool-cases (is_eligible srv model sv)) [
    | inr out ↦ elim (leader_from-IsLeader best svs l (ground arith)) [
      | inl e ↦ inl e
      | inr found ↦ inr (IsLeader-cons sv svs l found)
    ]
    | inl member ↦ elim (Bool-cases (is_rank_zero sv.node.node_id)) [
      | inr other ↦ elim (leader_from-IsLeader best svs l (ground arith)) [
        | inl e ↦ inl e
        | inr found ↦ inr (IsLeader-cons sv svs l found)
      ]
      | inl zero_id ↦ elim (leader_from-IsLeader (some sv.node.addr) svs l (ground arith)) [
        | inl e ↦ inr (0, sv, refl, member, zero_id, ground arith)
        | inr found ↦ inr (IsLeader-cons sv svs l found)
      ]
    ]
  ]

  pub leader_from-NoLeader :
      (svs : List (SvNode D)) → leader_from none (members srv model svs) ≡ none → NoLeader svs
  unfolding leader_from members
  leader_from-NoLeader [] h = tt
  leader_from-NoLeader (sv ∷ svs) h = elim (Bool-cases (is_eligible srv model sv)) [
    | inr out ↦ ((λ e. absurd (ground arith)), leader_from-NoLeader svs (ground arith))
    | inl member ↦ elim (Bool-cases (is_rank_zero sv.node.node_id)) [
      | inr other ↦ ((λ e. other), leader_from-NoLeader svs (ground arith))
      | inl zero_id ↦
          let (l, e) = leader_from-some sv.node.addr (members srv model svs) in
          absurd (ground arith)
    ]
  ]

  -- The eligible ranks can be sorted.
  abbrev pub HavePorts : List (SvNode D) → Type 0
  HavePorts = All (λ sv. is_eligible srv model sv ≡ true → HasPort (take text_max sv.node.addr))

  pub addresses-HasPort :
      (n : ℕ) (svs : List (SvNode D))
      → HavePorts svs
      → All HasPort (addresses (take n (members srv model svs)))
  unfolding members addresses
  addresses-HasPort zero svs a = tt
  addresses-HasPort (suc n) [] a = tt
  addresses-HasPort (suc n) (sv ∷ svs) a = elim (Bool-cases (is_eligible srv model sv)) [
    | inl member ↦ rw member (a.0 member, addresses-HasPort n svs a.1)
    | inr out ↦ rw out (addresses-HasPort (suc n) svs a.1)
  ]

pub length-addresses : {D : Type 0} (svs : List (SvNode D)) → length (addresses svs) ≡ length svs
unfolding addresses
length-addresses [] = refl
length-addresses (sv ∷ svs) = ap suc (length-addresses svs)
