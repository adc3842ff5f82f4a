-- ===== src/Session/Table/Evict.antt =====
-- `sess_evict` takes the least recently used entry out, and nothing else.
use mathlib.Core.List.Perm
use mathlib.Core.List.{Perm, perm_append_singleton}
use yllm.Base.{
  ℕ, zero, suc, ◌<◌, ◌≡◌, refl, ◌∙◌, ap, subst, some, List, [], ◌∷◌, ◌++◌, arith, ◌==◌, Bool-cases,
  inl, inr, length, get_elem?, get_or, set, length-append,
}
use yllm.Session.Table.Keys.{IsOldestAt-cap}
use yllm.Session.Table.Victim.{NoneBefore}
use yllm.Session.Table.{oldest, drop_last, sess_evict}
use yllm.Session.Types.{SessVal, SessCache, zero_val}

drop_last-append : (es : List SessVal) (l : SessVal) → drop_last (es ++ l ∷ []) ≡ es
unfolding drop_last
drop_last-append [] l = refl
drop_last-append (e ∷ []) l = refl
drop_last-append (e ∷ f ∷ es) l = ap (◌∷◌ e) (drop_last-append (f ∷ es) l)

-- A table that is not empty has a last entry.
split_last :
    (e : SessVal) (es : List SessVal)
    → (front : List SessVal) × (l : SessVal) × (e ∷ es ≡ front ++ l ∷ [])
split_last e [] = ([], e, refl)
split_last e (f ∷ es) = let (front, l, q) = split_last f es in (e ∷ front, l, ap (◌∷◌ e) q)

set-append_left :
    (es fs : List SessVal) (i : ℕ) (v : SessVal)
    → i < length es
    → set (es ++ fs) i v ≡ set es i v ++ fs
set-append_left [] fs i v h = elim h [ ]
set-append_left (e ∷ es) fs zero v h = refl
set-append_left (e ∷ es) fs (suc i) v h = ap (◌∷◌ e) (set-append_left es fs i v (omega arith))

get_or-append_length : (es : List SessVal) (l d : SessVal) → get_or (es ++ l ∷ []) (length es) d ≡ l
get_or-append_length [] l d = refl
get_or-append_length (e ∷ es) l d = get_or-append_length es l d

get_or_of_some :
    (es : List SessVal) (i : ℕ) (d v : SessVal) → get_elem? es i ≡ some v → get_or es i d ≡ v
get_or_of_some [] i d v h = absurd (ground arith)
get_or_of_some (e ∷ es) zero d v h = cc
get_or_of_some (e ∷ es) (suc i) d v h = get_or_of_some es i d v h

-- To put `l` in the place of `v` is to swap the two.
perm-set :
    (es : List SessVal) (i : ℕ) (v l : SessVal)
    → get_elem? (es ++ l ∷ []) i ≡ some v
    → i < length es
    → Perm (v ∷ set es i l) (l ∷ es)
perm-set [] i v l h lt = elim lt [ ]
perm-set (e ∷ es) zero v l h lt =
    subst (λ x. Perm (v ∷ l ∷ es) (l ∷ x ∷ es)) (cc) (Perm.swap l v es)
perm-set (e ∷ es) (suc i) v l h lt =
    Perm.trans (Perm.swap e v (set es i l))
      (Perm.trans (Perm.cons e (perm-set es i v l h (omega arith))) (Perm.swap l e es))

get_elem?-append_last :
    (es : List SessVal) (l v : SessVal) → get_elem? (es ++ l ∷ []) (length es) ≡ some v → v ≡ l
get_elem?-append_last [] l v h = cc
get_elem?-append_last (e ∷ es) l v h = get_elem?-append_last es l v h

-- The table, given by its front and its last entry.
evict_split :
    (front : List SessVal) (l v : SessVal) (cap : ℕ)
    → get_elem? (front ++ l ∷ []) (oldest (front ++ l ∷ [])) ≡ some v
    → oldest (front ++ l ∷ []) < suc (length front)
    → Perm (v ∷ (sess_evict (record { v = front ++ l ∷ []; cap = cap })).v) (front ++ l ∷ [])
unfolding sess_evict
evict_split front l v size_max at lt = elim (Bool-cases (old == length front)) [
  | inl is_last ↦
      let at_last : old ≡ length front = ground arith in
      let e : (sess_evict c).v ≡ front = ground (arith, size, drop_last-append front l) in
      let q : v ≡ l = get_elem?-append_last front l v (rw at_last at at) in
      rw (e, q) (Perm.symm (perm_append_singleton l front))
  | inr inner ↦
      let before : old < length front = ground arith in
      let e : (sess_evict c).v ≡ set front old l = ground (
        arith,
        size,
        drop_last-append (set front old l) l,
        set-append_left front (l ∷ []) old l before,
        get_or-append_length front l zero_val,
      ) in
      rw e
        (Perm.trans (perm-set front old v l at before) (Perm.symm (perm_append_singleton l front)))
]
  where
    old : ℕ
    old = oldest (front ++ l ∷ [])

    c : SessCache
    c = record { v = front ++ l ∷ []; cap = size_max }

    size : length (front ++ l ∷ []) ≡ suc (length front)
    size = omega (arith, length-append front (l ∷ []))

-- Of a table that is not empty, `sess_evict` takes out one entry, used no later than any other, and
-- keeps all the others, each as often as it was there.
pub sess_evict-IsOldestAt :
    (c : SessCache)
    → 0 < length c.v
    → (e : SessVal) × (get_elem? c.v (oldest c.v) ≡ some e)
      × NoneBefore e.last_use c.v
      × Perm (e ∷ (sess_evict c).v) c.v
      × ((sess_evict c).cap ≡ c.cap)
unfolding sess_evict
sess_evict-IsOldestAt c ne =
    let ((e, at, least), lt) = IsOldestAt-cap c.v (length c.v) ne (omega arith) in
    (e, at, least, go c.v refl e at lt, ground arith)
  where
    go :
        (es : List SessVal)
        → c.v ≡ es
        → (e : SessVal) → get_elem? c.v (oldest c.v) ≡ some e
        → oldest c.v < length c.v
        → Perm (e ∷ (sess_evict c).v) c.v
    go [] q e at lt = absurd (omega (arith, ap length q))
    go (x ∷ es) q e at lt =
        let (front, l, split) = split_last x es in
        let whole : c.v ≡ front ++ l ∷ [] = q ∙ split in
        let size : length c.v ≡ suc (length front) =
          omega (arith, ap length whole, length-append front (l ∷ [])) in
        rw whole
          (evict_split front l e c.cap (rw whole at at) (omega (arith, size, ap oldest whole)))
