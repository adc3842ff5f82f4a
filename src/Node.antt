-- ===== src/Node.antt =====
-- The node that every process is: `Node`, `node_parse_hb` and `node_is_dead` of serve/node.h. Of
-- `Node`, the heartbeat's target serves output alone and is left out.
use yllm.Base.{
  ℕ, ◌+◌, ◌-◌, ◌%◌, ◌^◌, Bool, true, false, Option, none, some, [], ◌==◌, ltb, if◌then◌else◌, take,
}
use yllm.Base.Int.{ℤ, pos}
use yllm.Base.Scan.{not_blank, atoi}
use yllm.Base.Text.{Bytes, codes, equal, take_while}
use yllm.Wire.Frame.{Frame, args_max, frame_get}

pub data NodeState : Type 0 where
  loading ready busy dead : NodeState

abbrev pub is_ready : NodeState → Bool
is_ready ready = true
is_ready _ = false

abbrev pub is_dead : NodeState → Bool
is_dead dead = true
is_dead _ = false

-- `double` is a parameter: the nodes only store such values. `atof` reads one.
pub record Floats : Type 1 where
  pub Double : Type 0
  pub zero : Double
  pub atof : Bytes → Double

pub record Node (D : Type 0) : Type 0 where
  pub node_id : Bytes
  pub type : Bytes
  pub model : Bytes
  pub addr : Bytes
  pub state : NodeState
  pub inflight : ℤ
  pub waiting : ℤ
  pub avg_infer_ms : D
  pub kv_mb : D
  pub last_hb : ℕ

-- The text in a `char[128]` and in a `char[16]`, less the terminator.
abbrev pub text_max : ℕ
text_max = 127

abbrev type_max : ℕ
type_max = 15

-- `memset(&n, 0, sizeof(n))`
abbrev pub zero_node : (F : Floats) → Node F.Double
zero_node F = record {
  node_id = [];
  type = [];
  model = [];
  addr = [];
  state = loading;
  inflight = pos 0;
  waiting = pos 0;
  avg_infer_ms = F.zero;
  kv_mb = F.zero;
  last_hb = 0;
}

-- A name that is none of the others is `loading`.
unfoldable pub parse_state : Bytes → NodeState
parse_state v =
    if equal v (codes "ready")
    then ready
    else if equal v (codes "busy")
    then busy
    else if equal v (codes "dead")
    then dead
    else loading

-- A field that is there replaces the old value.
abbrev pub read_text : ℕ → Bytes → Option Bytes → Bytes
read_text room old none = old
read_text room old (some v) = take room v

abbrev pub read_int : ℤ → Option Bytes → ℤ
read_int old none = old
read_int old (some v) = atoi v

abbrev pub read_double : (F : Floats) → F.Double → Option Bytes → F.Double
read_double F old none = old
read_double F old (some v) = F.atof v

abbrev read_state : NodeState → Option Bytes → NodeState
read_state old none = old
read_state old (some v) = parse_state v

-- `node_parse_hb`, at the time `now`.
unfoldable pub node_parse_hb : (F : Floats) → ℕ → Bytes → Node F.Double → Node F.Double
unfolding frame_get parse_state
node_parse_hb F now args out =
    let f : Frame = record { cmd = codes "HEARTBEAT"; args = take args_max args } in
    record {
      node_id = take text_max (take_while not_blank args);
      type = read_text type_max out.type (frame_get f (codes "type") 256);
      model = read_text text_max out.model (frame_get f (codes "model") 256);
      addr = read_text text_max out.addr (frame_get f (codes "addr") 256);
      state = read_state out.state (frame_get f (codes "state") 256);
      inflight = read_int out.inflight (frame_get f (codes "inflight") 256);
      waiting = read_int out.waiting (frame_get f (codes "waiting") 256);
      avg_infer_ms = read_double F out.avg_infer_ms (frame_get f (codes "avg_infer_ms") 256);
      kv_mb = read_double F out.kv_mb (frame_get f (codes "kv_mb") 256);
      last_hb = now;
    }

-- The difference of the two `uint64_t` wraps if the clock goes back.
unfoldable pub node_is_dead : {D : Type 0} → ℕ → ℕ → Node D → Bool
node_is_dead now timeout n =
    if n.last_hb == 0 then true else ltb timeout ((now + 2 ^ 64 - n.last_hb) % 2 ^ 64)
