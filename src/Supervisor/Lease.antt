-- ===== src/Supervisor/Lease.antt =====
-- The leases of ranks: `handle_lease`, `handle_release` and `lease_expire_check` of
-- serve/supervisor.c, at the time `now`.
pub mod Order
pub mod Leader
pub mod Grant
pub mod Exclusive
pub mod Return
pub mod Policy
use yllm.Base.{
  ℕ, zero, suc, ◌+◌, ◌-◌, Bool, true, false, not, ◌&&◌, ◌||◌, Option, none, some, List, [], ◌∷◌,
  ◌++◌, map, ◌==◌, ltb, leb, if◌then◌else◌, length, take, drop,
}
use yllm.Base.Int.{ℤ, pos, negsuc, ltb_ℤ}
use yllm.Base.Outcome.{Outcome, done, hang, fault, ◌>>=◌}
use yllm.Base.Scan.{is_blank, not_blank, strip_prefix, find_last_char, atoi}
use yllm.Base.Text.{Bytes, codes, equal, is_empty, take_while, drop_while}
use yllm.Node.{text_max, is_ready}
use yllm.Supervisor.Types.{SvNode, Supervisor}
use yllm.Wire.Protocol.{proto_get}

-- The first word of the arguments.
unfoldable pub server_id : Bytes → Bytes
server_id args = take text_max (take_while not_blank (drop_while is_blank args))

-- When the lease ends; 0 is never.
unfoldable pub lease_expiry : ℕ → Option Bytes → ℕ
lease_expiry now none = 0
lease_expiry now (some dur) =
    if equal dur (codes "permanent")
    then 0
    else elim (atoi dur) [ pos k ↦ if k == 0 then 0 else now + k | negsuc _ ↦ 0 ]

-- An empty name fits all models.
abbrev pub model_fits : Bytes → Bytes → Bool
model_fits want model = is_empty want || (is_empty model || equal model want)

abbrev pub is_free_for : Bytes → Bytes → Bool
is_free_for srv holder = is_empty holder || equal holder srv

module _ {D : Type 0} (srv model : Bytes) where
  -- The test that the three loops make.
  unfoldable pub is_eligible : SvNode D → Bool
  is_eligible sv =
      equal sv.node.type (codes "rank")
      && (is_ready sv.node.state
          && (model_fits model sv.node.model && is_free_for srv sv.leased_by))

  unfoldable pub members : List (SvNode D) → List (SvNode D)
  members [] = []
  members (sv ∷ svs) = if is_eligible sv then sv ∷ members svs else members svs

  -- The members become the server's until `expire`.
  unfoldable pub mark_leases : ℕ → List (SvNode D) → List (SvNode D)
  mark_leases expire [] = []
  mark_leases expire (sv ∷ svs) =
      (if is_eligible sv then record sv { leased_by = srv; lease_expire = expire } else sv)
      ∷ mark_leases expire svs

-- `rank-0`, or a number that `atoi` reads as 0.
unfoldable pub is_rank_zero : Bytes → Bool
unfolding strip_prefix
is_rank_zero id = elim (strip_prefix (codes "rank-") id) [
  | none ↦ false
  | some r ↦ elim (atoi r) [ pos k ↦ k == 0 | negsuc _ ↦ false ]
]

-- The address of the last member that is rank 0.
unfoldable pub leader_from : {D : Type 0} → Option Bytes → List (SvNode D) → Option Bytes
leader_from best [] = best
leader_from best (sv ∷ svs) =
    leader_from (if is_rank_zero sv.node.node_id then some sv.node.addr else best) svs

-- `atoi(strrchr(s, ':') + 1)`, which reads through a null pointer if there is no colon.
unfoldable pub port_of : Bytes → Outcome ℤ
unfolding find_last_char
port_of s = elim (find_last_char b':' s) [ none ↦ fault | some r ↦ done (atoi (drop 1 r)) ]

-- The loop over `b` at one `a`: what stands at `a` afterwards, and behind it.
unfoldable pub place : Bytes → List Bytes → Outcome (Bytes × List Bytes)
place x [] = done (x, [])
place x (y ∷ ys) = do
  pa ← port_of x
  pb ← port_of y
  let swap = ltb_ℤ pb pa
  (z, zs) ← place (if swap then y else x) ys
  done (z, (if swap then x else y) ∷ zs)

-- The loop over `a`, on the number of addresses.
unfoldable pub sort_ports : ℕ → List Bytes → Outcome (List Bytes)
sort_ports zero xs = done xs
sort_ports (suc n) [] = done []
sort_ports (suc n) (x ∷ xs) = do (z, zs) ← place x xs; rest ← sort_ports n zs; done (z ∷ rest)

-- `strncat` onto a text in a buffer of `room` bytes and the terminator.
abbrev pub append_cut : ℕ → Bytes → Bytes → Bytes
append_cut room s t = take room (s ++ t)

-- `rank_ids[512]`: a comma if something is there.
unfoldable pub join_ids : {D : Type 0} → Bytes → List (SvNode D) → Bytes
join_ids acc [] = acc
join_ids acc (sv ∷ svs) =
    join_ids
      (append_cut 511 (if is_empty acc then acc else append_cut 511 acc (b',' ∷ []))
        sv.node.node_id)
      svs

-- `peers[1024]`: the hosts, with a comma behind the first.
unfoldable pub join_peers : Bool → Bytes → List Bytes → Bytes
join_peers first acc [] = acc
join_peers first acc (a ∷ rest) =
    join_peers false
      (append_cut 1023 (if first then acc else append_cut 1023 acc (b',' ∷ []))
        (take_while (λ c. not (c == b':')) a))
      rest

-- At most 64 members are named.
abbrev pub max_group : ℕ
max_group = 64

unfoldable pub addresses : {D : Type 0} → List (SvNode D) → List Bytes
addresses [] = []
addresses (sv ∷ svs) = take text_max sv.node.addr ∷ addresses svs

-- The answers: an error, or the number of ranks with the leader, the peers and the identifiers,
-- before they are printed into the 640 bytes of the answer.
pub data LeaseReply : Type 0 where
  bad_args no_rank : LeaseReply
  leased : ℕ → Bytes → Bytes → Bytes → LeaseReply

module _ {D : Type 0} where
  unfoldable pub lease_group :
      ℕ → Bytes → Bytes → Supervisor D → Outcome (Supervisor D × LeaseReply)
  lease_group expire srv model s =
      let group = members srv model s.nodes in
      let named = take max_group group in
      elim (leader_from none group) [
        | none ↦ done (s, no_rank)
        | some leader ↦ do
          sorted ← sort_ports (length named) (addresses named)
          done (
            record s { nodes = mark_leases srv model expire s.nodes },
            leased (length group) leader (join_peers true [] sorted) (join_ids [] named),
          )
      ]

  unfoldable pub handle_lease : ℕ → Bytes → Supervisor D → Outcome (Supervisor D × LeaseReply)
  handle_lease now args s = elim (proto_get args (codes "model")) [
    | none ↦ done (s, bad_args)
    | some model ↦
        if is_empty (server_id args)
        then done (s, bad_args)
        else lease_group (lease_expiry now (proto_get args (codes "duration"))) (server_id args)
            model s
  ]

  abbrev pub clear_lease : SvNode D → SvNode D
  clear_lease sv = record sv { leased_by = []; lease_expire = 0 }

  -- The leases of a holder go; an empty lease has none.
  unfoldable pub free_leases : Bytes → List (SvNode D) → List (SvNode D)
  free_leases holder [] = []
  free_leases holder (sv ∷ svs) =
      (if not (is_empty sv.leased_by) && equal sv.leased_by holder then clear_lease sv else sv)
      ∷ free_leases holder svs

  unfoldable pub handle_release : Bytes → Supervisor D → Supervisor D
  unfolding server_id free_leases
  handle_release args s = record s { nodes = free_leases (server_id args) s.nodes }

  unfoldable pub expire_leases : ℕ → List (SvNode D) → List (SvNode D)
  expire_leases now [] = []
  expire_leases now (sv ∷ svs) =
      (if ltb 0 sv.lease_expire && leb sv.lease_expire now then clear_lease sv else sv)
      ∷ expire_leases now svs

  unfoldable pub lease_expire_check : ℕ → Supervisor D → Supervisor D
  unfolding expire_leases
  lease_expire_check now s = record s { nodes = expire_leases now s.nodes }
