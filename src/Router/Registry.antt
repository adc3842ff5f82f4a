-- ===== src/Router/Registry.antt =====
-- The table's upkeep by the supervisor's notices: `find_server`, `handle_server_add`,
-- `handle_server_del` and `handle_server_update` of serve/router.c. Each takes the arguments of
-- the frame; `now` is the clock.
pub mod Locking
pub mod Notices
pub mod Table
use yllm.Base.{
  ℕ, zero, suc, Bool, true, false, not, ◌==◌, Option, none, some, List, [], ◌∷◌, ◌++◌, leb,
  if◌then◌else◌, length, get_elem?, set, take, drop,
}
use yllm.Base.Int.{ℤ, pos}
use yllm.Base.Outcome.{Outcome, done, hang, ◌>>=◌}
use yllm.Base.Scan.{not_blank, find_char, scan_word, atoi}
use yllm.Base.Text.{Bytes, equal, codes, take_while}
use yllm.Node.{NodeState, ready, dead, Floats, text_max, read_int, read_double}
use yllm.Router.Types.{RtServer, Router, max_servers, to_u16, lock, unlock, new_server}
use yllm.Wire.Frame.{Frame, args_max, frame_get}
use yllm.Wire.Protocol.{proto_get}

module _ {D : Type 0} where
  -- The first entry with the identifier.
  unfoldable pub find_from : Bytes → ℕ → List (RtServer D) → Option ℕ
  find_from id i [] = none
  find_from id i (s ∷ ss) = if equal s.id id then some i else find_from id (suc i) ss

  unfoldable pub find_server : Bytes → Router D → Option ℕ
  unfolding find_from
  find_server id r = find_from id 0 r.servers

  -- Writes through the pointer to entry `i`.
  abbrev pub modify : ℕ → (RtServer D → RtServer D) → List (RtServer D) → List (RtServer D)
  modify i f [] = []
  modify zero f (s ∷ ss) = f s ∷ ss
  modify (suc i) f (s ∷ ss) = s ∷ modify i f ss

-- The `leader=host:port` of a notice. Without a colon nothing is written.
unfoldable pub set_leader : {D : Type 0} → RtServer D → Option Bytes → RtServer D
unfolding find_char
set_leader s none = s
set_leader s (some vb) = elim (find_char b':' vb) [
  | none ↦ s
  | some colon ↦ record s {
    leader_host = take text_max (take_while (λ c. not (c == b':')) vb);
    leader_port = to_u16 (atoi (drop 1 colon));
  }
]

unfoldable pub set_model : {D : Type 0} → RtServer D → Option Bytes → RtServer D
set_model s none = s
set_model s (some vb) = record s { model = take text_max vb }

-- What a notice of arrival writes into the entry.
unfoldable pub announce : {D : Type 0} → ℕ → Frame → RtServer D → RtServer D
unfolding set_leader set_model
announce now f s =
    let named = set_model s (frame_get f (codes "model") 256) in
    let led = set_leader named (frame_get f (codes "leader") 256) in
    record led { state = ready; last_update = now }

-- The identifier: the text before the first blank; a text of white space alone has none.
unfoldable pub notice_id : Bytes → Option Bytes
unfolding find_char scan_word
notice_id args = elim (find_char b' ' args) [
  | some sp ↦ some (take text_max (take_while not_blank args))
  | none ↦ elim (scan_word text_max args) [ none ↦ none | some _ ↦ some (take text_max args) ]
]

-- With a full table the source returns between lock and unlock.
unfoldable pub handle_server_add :
    (F : Floats) → ℕ → Bytes → Router F.Double → Outcome (Router F.Double)
handle_server_add F now args r = elim (notice_id args) [
  | none ↦ done r
  | some id ↦ do
    held ← lock r
    let f : Frame = record { cmd = codes "X"; args = take args_max args }
    elim (find_server id held) [
      | some i ↦ done (unlock (record held { servers = modify i (announce now f) held.servers }))
      | none ↦
          if leb max_servers (length held.servers)
          then done held
          else done (
              unlock (record held {
                servers = held.servers ++ announce now f (new_server F (take text_max id)) ∷ [];
              }))
    ]
]

unfoldable pub handle_server_del : {D : Type 0} → Bytes → Router D → Outcome (Router D)
unfolding scan_word find_server
handle_server_del args r = elim (scan_word text_max args) [
  | none ↦ done r
  | some (id, _) ↦ do
    held ← lock r
    elim (find_server id held) [
      | none ↦ done (unlock held)
      | some i ↦ done (
          unlock (record held { servers = modify i (λ s. record s { state = dead }) held.servers }))
    ]
]

-- What a notice of load writes: `kv_mb` is 0 without the field, the others stay.
unfoldable pub report : (F : Floats) → ℕ → Bytes → RtServer F.Double → RtServer F.Double
report F now args s = record s {
  inflight = read_int s.inflight (proto_get args (codes "inflight"));
  waiting = read_int s.waiting (proto_get args (codes "waiting"));
  avg_infer_ms = read_double F s.avg_infer_ms (proto_get args (codes "avg_infer_ms"));
  kv_mb = read_double F F.zero (proto_get args (codes "kv_mb"));
  last_update = now;
}

unfoldable pub handle_server_update :
    (F : Floats) → ℕ → Bytes → Router F.Double → Outcome (Router F.Double)
unfolding scan_word find_server report
handle_server_update F now args r = elim (scan_word text_max args) [
  | none ↦ done r
  | some (id, _) ↦ do
    held ← lock r
    elim (find_server id held) [
      | none ↦ done (unlock held)
      | some i ↦ done (unlock (record held { servers = modify i (report F now args) held.servers }))
    ]
]
