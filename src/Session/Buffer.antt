-- ===== src/Session/Buffer.antt =====
-- The token buffer of an entry: `sess_truncate`, `sess_grow`, `sess_commit` and `sess_append` of
-- inference/core/cache.c, with the wrap-around of `uint32_t`.
pub mod Growth
pub mod Tokens
use yllm.Base.{
  ℕ, zero, suc, ◌+◌, ◌*◌, ◌%◌, ◌^◌, Bool, true, false, Option, none, some, List, [], ◌∷◌, ◌++◌, ltb,
  leb, ◌==◌, if◌then◌else◌, length, take, drop,
}
use yllm.Base.Outcome.{Outcome, done, hang, fault, ◌>>=◌}
use yllm.Session.Types.{SessVal, Allocator, words}

unfoldable pub sess_truncate : ℕ → ℕ → SessVal → SessVal
sess_truncate now n e = record e { n = if ltb n e.n then n else e.n; last_use = now }

-- `while (nc < need) nc *= 2;`. After 32 rounds the loop has ended or never will (`Growth`).
unfoldable pub grow_cap : ℕ → ℕ → ℕ → Outcome ℕ
grow_cap zero nc need = hang
grow_cap (suc fuel) nc need =
    let more = grow_cap fuel ((nc * 2) % 2 ^ 32) need in if ltb nc need then more else done nc

abbrev pub grow_fuel : ℕ
grow_fuel = 33

-- `v->cap ? v->cap : 256`
abbrev pub start_cap : ℕ → ℕ
start_cap cap_now = if cap_now == 0 then 256 else cap_now

-- The flag is whether the source returns 0.
unfoldable pub sess_grow : Allocator → ℕ → SessVal → Outcome (SessVal × Bool)
sess_grow mem need e = if leb need e.cap then done (e, true) else (do
  nc ← grow_cap grow_fuel (start_cap e.cap) need
  elim (mem.realloc (words e.tokens) nc) [
    | none ↦ done (e, false)
    | some b ↦ done (record e { tokens = some b; cap = nc }, true)
  ])

-- `memcpy(b + i, xs, ...)` into a buffer; a write outside of it is a fault.
unfoldable pub copy_to : Option (List ℕ) → ℕ → List ℕ → Outcome (Option (List ℕ))
copy_to none i [] = done none
copy_to none i (x ∷ xs) = fault
copy_to (some b) i xs =
    if leb (i + length xs) (length b)
    then done (some (take i b ++ (xs ++ drop (i + length xs) b)))
    else fault

unfoldable pub sess_commit : Allocator → ℕ → List ℕ → SessVal → Outcome (SessVal × Bool)
unfolding copy_to
sess_commit mem now tok e = do
  (g, grown) ← sess_grow mem ((e.n + length tok) % 2 ^ 32) e
  if grown
      then (do
        b ← copy_to g.tokens g.n tok
        done (record g { tokens = b; n = (g.n + length tok) % 2 ^ 32; last_use = now }, true))
      else done (g, false)

unfoldable pub sess_append : Allocator → ℕ → ℕ → SessVal → Outcome (SessVal × Bool)
unfolding copy_to
sess_append mem now tok e = do
  (g, grown) ← sess_grow mem ((e.n + 1) % 2 ^ 32) e
  if grown
      then (do
        b ← copy_to g.tokens g.n (tok ∷ [])
        done (record g { tokens = b; n = (g.n + 1) % 2 ^ 32; last_use = now }, true))
      else done (g, false)
