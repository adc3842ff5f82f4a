-- ===== src/Session/Prefix.antt =====
-- The longest common prefix of a request and the cached sessions: `sess_prefix`, `sess_lcp` and
-- `sess_find_prefix` of inference/core/cache.c. A null pointer is `none`; the table's own pointer
-- is never null.
pub mod Common
pub mod Longest
use yllm.Base.{
  ℕ, zero, suc, ◌-◌, min, Bool, true, false, not, ◌&&◌, Option, none, some, List, [], ◌∷◌, ltb,
  ◌==◌, if◌then◌else◌, length, get_or, set,
}
use yllm.Base.Int.{ℤ, pos, negsuc}
use yllm.Base.Text.{is_empty}
use yllm.Session.Table.{stamp}
use yllm.Session.Types.{SessVal, SessCache, zero_val, words}

-- The loop of `sess_prefix` and `sess_lcp`, for at most `m` rounds. The rounds stay within both
-- arrays, so their ends stop it in the model alone.
unfoldable pub common : ℕ → List ℕ → List ℕ → ℕ
common (suc m) (x ∷ xs) (y ∷ ys) = if x == y then suc (common m xs ys) else 0
common _ _ _ = 0

unfoldable pub sess_prefix : SessVal → List ℕ → ℕ
unfolding common
sess_prefix e req = common (min e.n (length req)) (words e.tokens) req

-- The length to compare: a last token `eos` does not count. A negative `eos` stands for none.
unfoldable pub trimmed_n : SessVal → ℤ → ℕ
trimmed_n e (negsuc _) = e.n
trimmed_n e (pos eos) =
    if ltb 0 e.n && get_or (words e.tokens) (e.n - 1) 0 == eos then e.n - 1 else e.n

abbrev pub is_null {ℓ} : {A : Type ℓ} → Option A → Bool
is_null none = true
is_null (some _) = false

unfoldable pub sess_lcp : Option SessVal → Option (List ℕ) → ℤ → ℕ
unfolding common trimmed_n
sess_lcp none req eos = 0
sess_lcp (some e) none eos = 0
sess_lcp (some e) (some req) eos =
    if is_null e.tokens then 0 else common (min (trimmed_n e eos) (length req)) (words e.tokens) req

-- Whether the loop of `sess_find_prefix` looks at an entry.
abbrev pub is_usable : SessVal → Bool
is_usable e = not (is_empty e.key) && (not (e.n == 0) && not (is_null e.tokens))

-- The loop of `sess_find_prefix`: the best entry so far, its prefix, and the next index.
unfoldable pub best_from : List ℕ → ℤ → ℕ → Option ℕ → ℕ → List SessVal → Option ℕ × ℕ
best_from req eos i best best_p [] = (best, best_p)
best_from req eos i best best_p (e ∷ es) =
    let p = sess_lcp (some e) (some req) eos in
    let better = is_usable e && ltb best_p p in
    best_from req eos (suc i) (if better then some i else best) (if better then p else best_p) es

-- The table with the best entry stamped, the entry, and `*plen`.
unfoldable pub sess_find_prefix : ℕ → Option (List ℕ) → ℤ → SessCache → SessCache × Option ℕ × ℕ
unfolding best_from sess_lcp
sess_find_prefix now none eos c = (c, none, 0)
sess_find_prefix now (some []) eos c = (c, none, 0)
sess_find_prefix now (some (t ∷ ts)) eos c =
    let (best, best_p) = best_from (t ∷ ts) eos 0 none 0 c.v in
    let touched : SessCache = elim best [
      | none ↦ c
      | some i ↦ record c { v = set c.v i (stamp now (get_or c.v i zero_val)) }
    ] in
    (touched, (if ltb 0 best_p then best else none), best_p)
