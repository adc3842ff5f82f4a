-- ===== src/Supervisor/Heal.antt =====
-- Processes: `model_stride`, `spawn_record`, `spawn_kill`, `supervisor_spawn_rank`,
-- `supervisor_spawn_server` and `heal_dead` of serve/supervisor.c. `launch`
-- is `spawn_proc`, as the process number that it returns. The command lines are left out.
pub mod Group
pub mod Spawns
pub mod Nodes
pub mod Sweep
pub mod Loop
use yllm.Base.{
  ℕ, zero, suc, ◌+◌, ◌-◌, ◌*◌, ◌/◌, ◌%◌, Bool, true, false, not, ◌&&◌, ◌||◌, Option, none, some,
  List, [], ◌∷◌, ◌++◌, ◌==◌, ltb, leb, if◌then◌else◌, length, get_elem?, set, drop, take, max,
}
use yllm.Base.Int.{ℤ, pos, negsuc, pos_part, sub_ℕ, ltb_ℤ}
use yllm.Base.Outcome.{Outcome, done, hang, fault, ◌>>=◌}
use yllm.Base.Print.{print_int}
use yllm.Base.Scan.{atoi}
use yllm.Base.Text.{Bytes, codes, equal, is_empty}
use yllm.Node.{NodeState, dead, is_dead, text_max, node_is_dead}
use yllm.Supervisor.Heartbeat.{sync_server_to_router}
use yllm.Supervisor.Lease.{clear_lease, free_leases}
use yllm.Supervisor.Types.{SvNode, ModelCfg, Supervisor, Notice, max_nodes, hb_timeout}

-- A process that is started: rank `r` of model `mi`, or the server of model `mi`.
pub data Process : Type 0 where
  rank : ℕ → ℤ → Process
  server : ℕ → Process

-- What goes out: a notice to the routers, a SIGKILL, or a new process.
pub data Action (D : Type 0) : Type 0 where
  notify : Notice D → Action D
  kill : ℤ → Action D
  start : Process → Action D

-- The largest number of ranks of a model, and 1 at least.
unfoldable pub stride_from : ℕ → List ModelCfg → ℕ
stride_from stride [] = stride
stride_from stride (m ∷ ms) =
    stride_from (if ltb stride (pos_part m.ranks) then pos_part m.ranks else stride) ms

unfoldable pub model_stride : {D : Type 0} → Supervisor D → ℕ
unfolding stride_from
model_stride s = stride_from 1 s.models

-- The ports wrap as `uint16_t`.
unfoldable pub model_rank_base : {D : Type 0} → Supervisor D → ℕ → ℕ
unfolding model_stride
model_rank_base s mi = (s.rank_port_base + mi * model_stride s) % 65536

unfoldable pub model_server_port : {D : Type 0} → Supervisor D → ℕ → ℕ
unfolding model_stride
model_server_port s mi = (s.server_port_base + mi * model_stride s) % 65536

unfoldable pub knows : Bytes → List (Bytes × ℤ) → Bool
knows id [] = false
knows id ((i, p) ∷ ps) = if equal i id then true else knows id ps

unfoldable pub renumber : Bytes → ℤ → List (Bytes × ℤ) → List (Bytes × ℤ)
renumber id pid [] = []
renumber id pid ((i, p) ∷ ps) = if equal i id then (i, pid) ∷ ps else (i, p) ∷ renumber id pid ps

-- A known process gets its new number; an unknown one is recorded if there is room.
unfoldable pub spawn_record : Bytes → ℤ → List (Bytes × ℤ) → List (Bytes × ℤ)
spawn_record id pid ps =
    if knows id ps
    then renumber id pid ps
    else if ltb (length ps) max_nodes
    then ps ++ (take text_max id, pid) ∷ []
    else ps

-- The record afterwards, and the process that is killed, if its number is positive.
unfoldable pub spawn_kill : Bytes → List (Bytes × ℤ) → List (Bytes × ℤ) × Option ℤ
spawn_kill id [] = ([], none)
spawn_kill id ((i, p) ∷ ps) =
    let (later, killed) = spawn_kill id ps in
    if equal i id
    then ((i, pos 0) ∷ ps, if ltb_ℤ (pos 0) p then some p else none)
    else ((i, p) ∷ later, killed)

-- The number of the rank's identifier.
abbrev rank_number : ℕ → ℕ → ℤ → ℤ
rank_number stride mi (pos r) = pos (mi * stride + r)
rank_number stride mi (negsuc r) = sub_ℕ (mi * stride) (suc r)

-- The model and the rank of a number, in C's division.
abbrev pub split_number : ℕ → ℤ → Option (ℕ × ℤ)
split_number zero n = none
split_number (suc k) (pos n) = some (n / suc k, pos (n % suc k))
split_number (suc k) (negsuc n) =
    if suc n / suc k == 0 then some (0, sub_ℕ 0 (suc n % suc k)) else none

module _ {D : Type 0} (launch : Process → ℤ) where
  -- A process that could be started is recorded under its identifier.
  abbrev started : Bytes → Process → Supervisor D → Supervisor D × List (Action D)
  started id p s = (
    (if ltb_ℤ (pos 0) (launch p)
        then record s { spawns = spawn_record id (launch p) s.spawns }
        else s),
    start p ∷ [],
  )

  unfoldable pub supervisor_spawn_rank : ℕ → ℤ → Supervisor D → Supervisor D × List (Action D)
  supervisor_spawn_rank mi r s =
      if leb (length s.models) mi
      then (s, [])
      else started (codes "rank-" ++ print_int (rank_number (model_stride s) mi r)) (rank mi r) s

  unfoldable pub supervisor_spawn_server : ℕ → Supervisor D → Supervisor D × List (Action D)
  supervisor_spawn_server mi s =
      if leb (length s.models) mi
      then (s, [])
      else started (codes "server-" ++ print_int (pos mi)) (server mi) s

  -- The kill of what is left of a process, if anything.
  abbrev pub killed_first : Bytes → Supervisor D → Supervisor D × List (Action D)
  killed_first id s =
      let (ps, old) = spawn_kill id s.spawns in
      (record s { spawns = ps }, elim old [ none ↦ [] | some p ↦ kill p ∷ [] ])

  -- The number behind `server-` is the model's. A negative one is read outside of the models.
  unfoldable pub respawn_server : Bytes → Supervisor D → Outcome (Supervisor D × List (Action D))
  respawn_server id s =
      let (t, old) = killed_first id s in
      elim (atoi (drop 7 id)) [
        | negsuc _ ↦ fault
        | pos mi ↦ let (u, new) = supervisor_spawn_server mi t in done (u, old ++ new)
      ]

  unfoldable pub respawn_rank : Bytes → Supervisor D → Outcome (Supervisor D × List (Action D))
  respawn_rank id s =
      let (t, old) = killed_first id s in
      elim (split_number (model_stride t) (atoi (drop 5 id))) [
        | none ↦ fault
        | some (mi, r) ↦ let (u, new) = supervisor_spawn_rank mi r t in done (u, old ++ new)
      ]

-- The loop that frees the group of the rank at index `at`. It compares with the text in that rank's
-- own entry, `cur`, which is empty from the round on in which the rank itself is freed.
unfoldable pub free_group : {D : Type 0} → ℕ → ℕ → Bytes → List (SvNode D) → List (SvNode D)
free_group at j cur [] = []
free_group at j cur (sv ∷ svs) =
    let hit = not (is_empty sv.leased_by) && equal sv.leased_by cur in
    (if hit then clear_lease sv else sv)
    ∷ free_group at (suc j) (if hit && at == j then [] else cur) svs

module _ {D : Type 0} where
  abbrev pub die : SvNode D → SvNode D
  die sv = let n = sv.node in record sv { node = record n { state = dead } }

  abbrev pub notices : List (Notice D) → List (Action D)
  notices [] = []
  notices (n ∷ ns) = notify n ∷ notices ns

  -- The nodes after the death of the server in entry `i`, and the notices.
  unfoldable pub server_dies : ℕ → SvNode D → List (SvNode D) → List (SvNode D) × List (Notice D)
  server_dies i sv svs =
      let (told, sent) = sync_server_to_router (die sv) in
      (free_leases sv.node.node_id (set svs i told), sent)

  unfoldable pub rank_dies : ℕ → SvNode D → List (SvNode D) → List (SvNode D)
  rank_dies i sv svs =
      if is_empty sv.leased_by
      then set svs i (die sv)
      else free_group i 0 sv.leased_by (set svs i (die sv))

module _ {D : Type 0} (launch : Process → ℤ) (now : ℕ) where
  -- One round of `heal_dead`.
  unfoldable pub heal_node : ℕ → Supervisor D → Outcome (Supervisor D × List (Action D))
  heal_node i s = elim (get_elem? s.nodes i) [
    | none ↦ done (s, [])
    | some sv ↦
        let (svs, sent) = server_dies i sv s.nodes in
        let without_server = record s { nodes = svs } in
        let without_rank = record s { nodes = rank_dies i sv s.nodes } in
        if is_dead sv.node.state || not (node_is_dead now hb_timeout sv.node)
        then done (s, [])
        else if equal sv.node.type (codes "server")
        then (if s.auto_heal
            then (respawn_server launch sv.node.node_id without_server >>= λ r.
                done (r.0, notices sent ++ r.1))
            else done (without_server, notices sent))
        else if equal sv.node.type (codes "rank")
        then (if s.auto_heal
            then respawn_rank launch sv.node.node_id without_rank
            else done (without_rank, []))
        else done (s, [])
  ]

  -- The rounds from index `i` on, `k` of them.
  unfoldable pub heal_from : ℕ → ℕ → Supervisor D → Outcome (Supervisor D × List (Action D))
  heal_from zero i s = done (s, [])
  heal_from (suc k) i s = do
    (t, first) ← heal_node i s
    (u, later) ← heal_from k (suc i) t
    done (u, first ++ later)

  unfoldable pub heal_dead : Supervisor D → Outcome (Supervisor D × List (Action D))
  heal_dead s = heal_from (length s.nodes) 0 s
