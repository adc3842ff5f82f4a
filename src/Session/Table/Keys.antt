-- ===== src/Session/Table/Keys.antt =====
-- Keys of the session table: what `sess_get` finds, and how `sess_put` places a new key.
use yllm.Base.{
  ℕ, zero, suc, ◌+◌, ◌≤◌, ◌<◌, ◌≡◌, ◌≢◌, refl, sym, ◌∙◌, ap, none, some, List, [], ◌∷◌, ◌++◌, true,
  false, arith, leb, Bool-cases, inl, inr, length, get_elem?, set, take, All, ◌⊎◌, set-set,
  set-append_length, get_elem?-set_self, get_elem?-set_ne, get_elem?-append_left, Option-cases,
  get_or, get_elem?-append_length, All-set, All-append, length-set, length-append,
  take_of_length-le, length-take,
}
use yllm.Base.Text.{Bytes, equal, equal_iff}
use yllm.Session.Table.{find_key, sess_get, sess_new, sess_put, oldest, new_val, stamp}
use yllm.Session.Table.Victim.{IsOldestAt, oldest-IsOldestAt, oldest-lt-length}
use yllm.Session.Types.{
  SessVal, SessCache, Allocator, zero_val, key_max, IsBuffered, IsValid, Fresh, Distinct,
}

pub find_key-none :
    (key : Bytes) (i : ℕ) (es : List SessVal) → find_key key i es ≡ none → Fresh key es
unfolding find_key
find_key-none key i [] h = tt
find_key-none key i (e ∷ es) h = elim (Bool-cases (equal e.key key)) [
  | inl same ↦ absurd (ground arith)
  | inr other ↦
      (λ p. ground (arith, (equal_iff e.key key).1 p), find_key-none key (suc i) es (ground arith))
]

pub find_key-Fresh :
    (key : Bytes) (i : ℕ) (es : List SessVal) → Fresh key es → find_key key i es ≡ none
unfolding find_key
find_key-Fresh key i [] h = refl
find_key-Fresh key i (e ∷ es) h = elim (Bool-cases (equal e.key key)) [
  | inl same ↦ absurd (h.0 ((equal_iff e.key key).0 same))
  | inr other ↦ rw other (find_key-Fresh key (suc i) es h.1)
]

-- In a table without the key, an entry that is given the key is the one found.
pub find_key-set :
    (key : Bytes) (k i : ℕ) (es : List SessVal) (e : SessVal)
    → Fresh key es
    → e.key ≡ key
    → i < length es
    → find_key key k (set es i e) ≡ some (k + i)
unfolding find_key
find_key-set key k i [] e h q lt = elim lt [ ]
find_key-set key k zero (x ∷ es) e h q lt = ground (arith, (equal_iff e.key key).1 q)
find_key-set key k (suc i) (x ∷ es) e h q lt = elim (Bool-cases (equal x.key key)) [
  | inl same ↦ absurd (h.0 ((equal_iff x.key key).0 same))
  | inr other ↦
      rw other (find_key-set key (suc k) i es e h.1 q (omega arith) ∙ ap some (omega arith))
]

pub find_key-append :
    (key : Bytes) (k : ℕ) (es : List SessVal) (e : SessVal)
    → Fresh key es
    → e.key ≡ key
    → find_key key k (es ++ e ∷ []) ≡ some (k + length es)
unfolding find_key
find_key-append key k [] e h q = ground (arith, (equal_iff e.key key).1 q)
find_key-append key k (x ∷ es) e h q = elim (Bool-cases (equal x.key key)) [
  | inl same ↦ absurd (h.0 ((equal_iff x.key key).0 same))
  | inr other ↦ rw other (find_key-append key (suc k) es e h.1 q ∙ ap some (omega arith))
]

module _ (mem : Allocator) (now : ℕ) (key : Bytes) (c : SessCache)
    (absent : find_key key 0 c.v ≡ none) where
  pub sess_put_full :
      leb c.cap (length c.v) ≡ true
      → sess_put mem now key c
        ≡ (record c { v = set c.v (oldest c.v) (new_val mem now key) }, oldest c.v)
  unfolding sess_put sess_get sess_new
  sess_put_full full = ground (arith, set-set c.v (oldest c.v) zero_val (new_val mem now key))

  pub sess_put_room :
      leb c.cap (length c.v) ≡ false
      → sess_put mem now key c ≡ (record c { v = c.v ++ new_val mem now key ∷ [] }, length c.v)
  unfolding sess_put sess_get sess_new
  sess_put_room room = ground (arith, set-append_length c.v zero_val (new_val mem now key))

-- The slot of a new key: the least recently used one, if the table is full, and else the next free
-- one. Every other entry stays as it was.
pub record IsPlaced (mem : Allocator) (now : ℕ) (key : Bytes) (c : SessCache) (c' : SessCache)
    (i : ℕ) : Type 0 where
  pub placed : get_elem? c'.v i ≡ some (new_val mem now key)
  pub kept : (j : ℕ) → j < length c.v → i ≢ j → get_elem? c'.v j ≡ get_elem? c.v j
  pub slot :
      ((length c.v < c.cap) × (i ≡ length c.v) × (length c'.v ≡ length c.v + 1))
      ⊎ ((length c.v ≡ c.cap) × IsOldestAt c.v i × (length c'.v ≡ length c.v))
  pub same_cap : c'.cap ≡ c.cap

pub IsOldestAt-cap :
    (es : List SessVal) (cap : ℕ)
    → 0 < cap
    → cap ≤ length es
    → IsOldestAt es (oldest es) × (oldest es < length es)
IsOldestAt-cap [] cap p h = absurd (omega arith)
IsOldestAt-cap (e ∷ es) cap p h = (oldest-IsOldestAt e es, omega (arith, oldest-lt-length e es))

-- Storing a key that a valid table does not have.
pub sess_put-IsPlaced :
    (mem : Allocator) (now : ℕ) (key : Bytes) (c : SessCache)
    → IsValid c
    → Fresh key c.v
    → IsPlaced mem now key c (sess_put mem now key c).0 (sess_put mem now key c).1
sess_put-IsPlaced mem now key c ok fresh = elim (Bool-cases (leb c.cap (length c.v))) [
  | inl full ↦
      let (old, lt) = IsOldestAt-cap c.v c.cap ok.positive (ground arith) in
      rw (sess_put_full mem now key c absent full) (record {
        placed = get_elem?-set_self c.v _ _ lt;
        kept = λ j h ne. get_elem?-set_ne c.v _ j _ ne;
        slot = inr (ground (arith, ok.bounded), old, length-set c.v _ _);
        same_cap = refl;
      })
  | inr room ↦ rw (sess_put_room mem now key c absent room) (record {
    placed = get_elem?-append_length c.v _;
    kept = λ j h ne. get_elem?-append_left c.v _ j h;
    slot = inl (ground arith, refl, omega (arith, length-append c.v (new_val mem now key ∷ [])));
    same_cap = refl;
  })
]
  where
    absent : find_key key 0 c.v ≡ none
    absent = find_key-Fresh key 0 c.v fresh

Distinct-set :
    (key : Bytes) (es : List SessVal) (i : ℕ) (e : SessVal)
    → Fresh key es
    → e.key ≡ key
    → Distinct es
    → Distinct (set es i e)
Distinct-set key [] i e f q d = tt
Distinct-set key (x ∷ es) zero e f q d = (rw q f.1, d.1)
Distinct-set key (x ∷ es) (suc i) e f q d =
    (All-set _ es i e d.0 (λ p. f.0 (sym p ∙ q)), Distinct-set key es i e f.1 q d.1)

Distinct-append :
    (key : Bytes) (es : List SessVal) (e : SessVal)
    → Fresh key es
    → e.key ≡ key
    → Distinct es
    → Distinct (es ++ e ∷ [])
Distinct-append key [] e f q d = (tt, tt)
Distinct-append key (x ∷ es) e f q d =
    (All-append _ es (e ∷ []) d.0 (λ p. f.0 (sym p ∙ q), tt), Distinct-append key es e f.1 q d.1)

-- A stamp changes no key.
Fresh-stamp :
    (k : Bytes) (now i : ℕ) (es : List SessVal)
    → Fresh k es
    → Fresh k (set es i (stamp now (get_or es i zero_val)))
Fresh-stamp k now i [] h = tt
Fresh-stamp k now zero (x ∷ es) h = h
Fresh-stamp k now (suc i) (x ∷ es) h = (h.0, Fresh-stamp k now i es h.1)

Distinct-stamp :
    (now i : ℕ) (es : List SessVal)
    → Distinct es
    → Distinct (set es i (stamp now (get_or es i zero_val)))
Distinct-stamp now i [] d = tt
Distinct-stamp now zero (x ∷ es) d = d
Distinct-stamp now (suc i) (x ∷ es) d =
    (Fresh-stamp x.key now i es d.0, Distinct-stamp now i es d.1)

pub IsBuffered-stamp :
    (now i : ℕ) (es : List SessVal)
    → All IsBuffered es
    → All IsBuffered (set es i (stamp now (get_or es i zero_val)))
IsBuffered-stamp now i [] a = tt
IsBuffered-stamp now zero (x ∷ es) a = (omega arith, a.1)
IsBuffered-stamp now (suc i) (x ∷ es) a = (a.0, IsBuffered-stamp now i es a.1)

pub IsBuffered-new_val :
    (mem : Allocator) (now : ℕ) (key : Bytes) → IsBuffered (new_val mem now key)
IsBuffered-new_val mem now key = record {
  sized = mem.malloc_size 256;
  fits = omega arith;
  word_sized = omega arith;
  key_fits = omega (arith, length-take key_max key);
}

-- A lookup keeps the table well formed.
pub sess_get-IsValid :
    (now : ℕ) (key : Bytes) (c : SessCache) → IsValid c → IsValid (sess_get now key c).0
unfolding sess_get
sess_get-IsValid now key c ok = elim (Option-cases (find_key key 0 c.v)) [
  | inl miss ↦ rw (miss, sess_get) ok
  | inr (i, hit) ↦
      rw (hit, sess_get)
        (record {
          positive = ok.positive;
          bounded = omega (arith, length-set c.v i (stamp now (get_or c.v i zero_val)), ok.bounded);
          buffered = IsBuffered-stamp now i c.v ok.buffered;
          distinct = Distinct-stamp now i c.v ok.distinct;
        })
]

pub sess_put_hit :
    (mem : Allocator) (now : ℕ) (key : Bytes) (c : SessCache) (i : ℕ)
    → find_key key 0 c.v ≡ some i
    → sess_put mem now key c ≡ ((sess_get now key c).0, i)
unfolding sess_put sess_get
sess_put_hit mem now key c i hit = ground arith

-- Storing a key of at most 127 bytes keeps the table well formed: never more entries than the
-- capacity, every buffer as large as it says, never one key twice.
pub sess_put-IsValid :
    (mem : Allocator) (now : ℕ) (key : Bytes) (c : SessCache)
    → length key ≤ key_max
    → IsValid c
    → IsValid (sess_put mem now key c).0
sess_put-IsValid mem now key c short ok = elim (Option-cases (find_key key 0 c.v)) [
  | inr (i, hit) ↦ rw (sess_put_hit mem now key c i hit) (sess_get-IsValid now key c ok)
  | inl absent ↦ elim (Bool-cases (leb c.cap (length c.v))) [
    | inl full ↦ rw (sess_put_full mem now key c absent full) (record {
      positive = ok.positive;
      bounded = omega (arith, length-set c.v (oldest c.v) (new_val mem now key), ok.bounded);
      buffered = All-set _ c.v _ _ ok.buffered (IsBuffered-new_val mem now key);
      distinct = Distinct-set key c.v _ _ (fresh absent) cut ok.distinct;
    })
    | inr room ↦ rw (sess_put_room mem now key c absent room) (record {
      positive = ok.positive;
      bounded = ground (arith, length-append c.v (new_val mem now key ∷ []));
      buffered = All-append _ c.v _ ok.buffered (IsBuffered-new_val mem now key, tt);
      distinct = Distinct-append key c.v _ (fresh absent) cut ok.distinct;
    })
  ]
]
  where
    cut : take key_max key ≡ key
    cut = take_of_length-le key_max key short

    fresh : find_key key 0 c.v ≡ none → Fresh key c.v
    fresh absent = find_key-none key 0 c.v absent
