-- ===== src/Session/Table/Victim.antt =====
-- The entry that a full table gives up is the least recently used one.
use yllm.Base.{
  ℕ, suc, ◌≤◌, ◌≡◌, refl, ◌∙◌, some, List, [], ◌∷◌, ◌++◌, arith, append_assoc, append-nil, ltb,
  Bool-cases, inl, inr, length, get_elem?, All, All-append, get_elem?-append_left,
  get_elem?-append_length, length-append, lt-length_of_some,
}
use yllm.Session.Table.{oldest_from, oldest}
use yllm.Session.Types.{SessVal}

-- No entry of the list was used before the time.
abbrev pub NoneBefore : ℕ → List SessVal → Type 0
NoneBefore t = All (λ e. t ≤ e.last_use)

NoneBefore-mono : (s t : ℕ) (es : List SessVal) → s ≤ t → NoneBefore t es → NoneBefore s es
NoneBefore-mono s t [] h a = tt
NoneBefore-mono s t (e ∷ es) h a = (omega arith, NoneBefore-mono s t es h a.1)

-- The entry at `i` is there, and none was used before it.
abbrev pub IsOldestAt : List SessVal → ℕ → Type 0
IsOldestAt es i = (e : SessVal) × (get_elem? es i ≡ some e) × NoneBefore e.last_use es

-- The scan, behind the entries `done` with the oldest of them at `old`.
oldest_from-IsOldestAt :
    (seen es : List SessVal) (o : SessVal) (old : ℕ)
    → get_elem? seen old ≡ some o
    → NoneBefore o.last_use seen
    → IsOldestAt (seen ++ es) (oldest_from o.last_use old (length seen) es)
unfolding oldest_from
oldest_from-IsOldestAt seen [] o old at least = rw append-nil (o, at, least)
oldest_from-IsOldestAt seen (e ∷ es) o old at least =
    elim (Bool-cases (ltb e.last_use o.last_use)) [
      | inl older ↦ rw older (
          rw (← append_assoc seen (e ∷ []) es, ← next)
            (oldest_from-IsOldestAt (seen ++ e ∷ []) es e (length seen)
              (get_elem?-append_length seen e)
              (All-append _ seen (e ∷ [])
                (NoneBefore-mono e.last_use o.last_use seen (ground arith) least)
                (omega arith, tt))))
      | inr newer ↦ rw newer (
          rw (← append_assoc seen (e ∷ []) es, ← next)
            (oldest_from-IsOldestAt (seen ++ e ∷ []) es o old
              (get_elem?-append_left seen (e ∷ []) old (lt-length_of_some seen old o at) ∙ at)
              (All-append _ seen (e ∷ []) least (ground arith, tt))))
    ]
  where
    next : length (seen ++ e ∷ []) ≡ suc (length seen)
    next = omega (arith, length-append seen (e ∷ []))

-- In a table that is not empty `oldest` finds an entry that was used no later than any other.
pub oldest-IsOldestAt : (e : SessVal) (es : List SessVal) → IsOldestAt (e ∷ es) (oldest (e ∷ es))
unfolding oldest
oldest-IsOldestAt e es = oldest_from-IsOldestAt (e ∷ []) es e 0 refl (omega arith, tt)

pub oldest-lt-length : (e : SessVal) (es : List SessVal) → oldest (e ∷ es) ≤ length es
oldest-lt-length e es =
    let (o, at, least) = oldest-IsOldestAt e es in
    omega (arith, lt-length_of_some (e ∷ es) (oldest (e ∷ es)) o at)
