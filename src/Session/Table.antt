-- ===== src/Session/Table.antt =====
-- Lookup, insertion and eviction in the session table: `sess_init` to `sess_put` and `sess_evict` of
-- inference/core/cache.c. The clock's reading is the argument `now`.
pub mod Victim
pub mod Keys
pub mod Evict
pub mod Lookup
use yllm.Base.{
  ℕ, zero, suc, ◌-◌, Bool, true, false, Option, none, some, List, [], ◌∷◌, ◌++◌, ltb, leb, ◌==◌,
  if◌then◌else◌, length, get_or, set, take,
}
use yllm.Base.Int.{ℤ, pos_part}
use yllm.Base.Text.{Bytes, equal}
use yllm.Session.Types.{SessVal, SessCache, Allocator, zero_val, key_max}

-- A capacity that is not positive is taken as 16.
unfoldable pub sess_init : ℤ → SessCache
sess_init cap = record { v = []; cap = if ltb 0 (pos_part cap) then pos_part cap else 16 }

-- Every field is zero afterwards.
unfoldable pub sess_free : SessCache → SessCache
sess_free c = record { v = []; cap = 0 }

-- The loop of `sess_get`: the first entry whose key is the argument.
unfoldable pub find_key : Bytes → ℕ → List SessVal → Option ℕ
find_key key i [] = none
find_key key i (e ∷ es) = if equal e.key key then some i else find_key key (suc i) es

abbrev pub stamp : ℕ → SessVal → SessVal
stamp now e = record e { last_use = now }

unfoldable pub sess_get : ℕ → Bytes → SessCache → SessCache × Option ℕ
unfolding find_key
sess_get now key c = elim (find_key key 0 c.v) [
  | none ↦ (c, none)
  | some i ↦ (record c { v = set c.v i (stamp now (get_or c.v i zero_val)) }, some i)
]

-- The scan for the least `last_use`, which is that of entry `old` so far; `i` is the next index.
unfoldable pub oldest_from : ℕ → ℕ → ℕ → List SessVal → ℕ
oldest_from use_ old i [] = old
oldest_from use_ old i (e ∷ es) =
    oldest_from (if ltb e.last_use use_ then e.last_use else use_)
      (if ltb e.last_use use_ then i else old) (suc i) es

-- The index of the least recently used entry. An empty table gives 0, which the callers exclude:
-- `sess_init` makes `cap` positive.
unfoldable pub oldest : List SessVal → ℕ
unfolding oldest_from
oldest [] = 0
oldest (e ∷ es) = oldest_from e.last_use 0 1 es

-- The slot for a new entry: the least recently used one if the table is full, else the next free
-- one, each zeroed.
unfoldable pub sess_new : SessCache → SessCache × ℕ
unfolding oldest
sess_new c =
    if leb c.cap (length c.v)
    then (record c { v = set c.v (oldest c.v) zero_val }, oldest c.v)
    else (record c { v = c.v ++ zero_val ∷ [] }, length c.v)

-- The entry that `sess_put` writes. `snprintf` cuts the key to 127 bytes.
abbrev pub new_val : Allocator → ℕ → Bytes → SessVal
new_val mem now key = record {
  key = take key_max key;
  tokens = some (mem.malloc 256);
  n = 0;
  cap = 256;
  last_use = now;
}

unfoldable pub sess_put : Allocator → ℕ → Bytes → SessCache → SessCache × ℕ
unfolding sess_get sess_new
sess_put mem now key c =
    let (found, at) = sess_get now key c in
    elim at [
      | some i ↦ (found, i)
      | none ↦
          let (room, i) = sess_new found in
          (record room { v = set room.v i (new_val mem now key) }, i)
    ]

-- `c->n--` behind the last entry.
unfoldable pub drop_last : List SessVal → List SessVal
drop_last [] = []
drop_last (e ∷ []) = []
drop_last (e ∷ f ∷ es) = e ∷ drop_last (f ∷ es)

-- The least recently used entry goes, and the last one is moved into its place.
unfoldable pub sess_evict : SessCache → SessCache
unfolding oldest drop_last
sess_evict c =
    let last = length c.v - 1 in
    let old = oldest c.v in
    if length c.v == 0
    then c
    else if old == last
    then record c { v = drop_last c.v }
    else record c { v = drop_last (set c.v old (get_or c.v last zero_val)) }
