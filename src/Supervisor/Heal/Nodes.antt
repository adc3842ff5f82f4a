-- ===== src/Supervisor/Heal/Nodes.antt =====
-- The nodes' own data across the steps of `heal_dead`.
use yllm.Base.{
  ℕ, zero, suc, ◌≡◌, refl, sym, ◌∙◌, ap, Bool, false, inl, inr, not, ◌&&◌, ◌||◌, none, some, List,
  [], ◌∷◌, ◌++◌, arith, if◌then◌else◌, Bool-cases, length, get_elem?, set,
}
use yllm.Base.Text.{Bytes, codes, equal, is_empty}
use yllm.Node.{Node, dead, is_dead, node_is_dead}
use yllm.Supervisor.Heal.{free_group}
use yllm.Supervisor.Lease.{free_leases}
use yllm.Supervisor.Types.{SvNode, hb_timeout}

module _ {D : Type 0} where
  abbrev pub nodes_of : List (SvNode D) → List (Node D)
  nodes_of [] = []
  nodes_of (sv ∷ svs) = sv.node ∷ nodes_of svs

  module _ (now : ℕ) where
    -- A server or a rank that is not marked dead, and whose heartbeat is overdue.
    abbrev pub is_overdue : Node D → Bool
    is_overdue n =
        not (is_dead n.state || not (node_is_dead now hb_timeout n))
        && (equal n.type (codes "server") || equal n.type (codes "rank"))

    abbrev pub bury : Node D → Node D
    bury n = if is_overdue n then record n { state = dead } else n

    abbrev pub bury_at : ℕ → List (Node D) → List (Node D)
    bury_at i [] = []
    bury_at zero (n ∷ ns) = bury n ∷ ns
    bury_at (suc i) (n ∷ ns) = n ∷ bury_at i ns

    pub nodes_of-set :
        (i : ℕ) (svs : List (SvNode D)) (sv x : SvNode D)
        → get_elem? svs i ≡ some sv
        → x.node ≡ bury sv.node
        → nodes_of (set svs i x) ≡ bury_at i (nodes_of svs)
    nodes_of-set i [] sv x h e = refl
    nodes_of-set zero (y ∷ svs) sv x h e =
        let is : y ≡ sv = cc in ap (λ n. n ∷ nodes_of svs) (e ∙ ap (λ v. bury v.node) (sym is))
    nodes_of-set (suc i) (y ∷ svs) sv x h e = ap (λ ns. y.node ∷ ns) (nodes_of-set i svs sv x h e)

    pub nodes_of-same :
        (i : ℕ) (svs : List (SvNode D)) (sv : SvNode D)
        → get_elem? svs i ≡ some sv
        → is_overdue sv.node ≡ false
        → nodes_of svs ≡ bury_at i (nodes_of svs)
    nodes_of-same i [] sv h e = refl
    nodes_of-same zero (y ∷ svs) sv h e =
        let is : y ≡ sv = cc in
        let alive : is_overdue y.node ≡ false = ap (λ v. is_overdue v.node) is ∙ e in
        ap (λ n. n ∷ nodes_of svs) (rw alive refl)
    nodes_of-same (suc i) (y ∷ svs) sv h e = ap (λ ns. y.node ∷ ns) (nodes_of-same i svs sv h e)

    nodes_of-none :
        (i : ℕ) (svs : List (SvNode D))
        → get_elem? svs i ≡ none
        → nodes_of svs ≡ bury_at i (nodes_of svs)
    nodes_of-none i [] h = refl
    nodes_of-none zero (y ∷ svs) h = absurd (ground arith)
    nodes_of-none (suc i) (y ∷ svs) h = ap (λ ns. y.node ∷ ns) (nodes_of-none i svs h)

    pub bury_at-append :
        (pre : List (Node D)) (n : Node D) (post : List (Node D))
        → bury_at (length pre) (pre ++ n ∷ post) ≡ pre ++ bury n ∷ post
    bury_at-append [] n post = refl
    bury_at-append (x ∷ pre) n post = ap (λ ns. x ∷ ns) (bury_at-append pre n post)

  pub nodes_of-free_leases :
      (holder : Bytes) (svs : List (SvNode D)) → nodes_of (free_leases holder svs) ≡ nodes_of svs
  unfolding free_leases
  nodes_of-free_leases holder [] = refl
  nodes_of-free_leases holder (sv ∷ svs) =
      let rest = nodes_of-free_leases holder svs in
      elim (Bool-cases (not (is_empty sv.leased_by) && equal sv.leased_by holder)) [
        | inl hit ↦ rw hit (ap (λ ns. sv.node ∷ ns) rest)
        | inr miss ↦ rw miss (ap (λ ns. sv.node ∷ ns) rest)
      ]

  pub nodes_of-free_group :
      (at j : ℕ) (cur : Bytes) (svs : List (SvNode D))
      → nodes_of (free_group at j cur svs) ≡ nodes_of svs
  unfolding free_group
  nodes_of-free_group at j cur [] = refl
  nodes_of-free_group at j cur (sv ∷ svs) =
      elim (Bool-cases (not (is_empty sv.leased_by) && equal sv.leased_by cur)) [
        | inl hit ↦ rw hit (ap (λ ns. sv.node ∷ ns) (nodes_of-free_group at (suc j) _ svs))
        | inr miss ↦ rw miss (ap (λ ns. sv.node ∷ ns) (nodes_of-free_group at (suc j) cur svs))
      ]
