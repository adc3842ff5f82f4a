-- ===== src/Session/Table/Lookup.antt =====
-- `sess_get` after `sess_put`.
use yllm.Base.{
  ℕ, zero, suc, ◌+◌, ◌≤◌, ◌<◌, ◌≡◌, ◌≢◌, refl, sym, ◌∙◌, ap, none, some, List, [], ◌∷◌, ◌++◌, arith,
  leb, Bool-cases, Option-cases, inl, inr, length, get_or, set, take, All, All-set, All-append,
  take_of_length-le,
}
use yllm.Base.Text.{Bytes, equal, equal_iff}
use yllm.Session.Table.Keys.{
  find_key-none, find_key-set, find_key-append, sess_put_hit, sess_put_full, sess_put_room,
  IsBuffered-new_val, IsOldestAt-cap,
}
use yllm.Session.Table.{find_key, sess_get, sess_put, oldest, new_val, stamp}
use yllm.Session.Types.{SessVal, SessCache, Allocator, zero_val, key_max, IsBuffered, IsValid}

find_key-stamp :
    (key : Bytes) (k now i : ℕ) (es : List SessVal)
    → find_key key k (set es i (stamp now (get_or es i zero_val))) ≡ find_key key k es
unfolding find_key
find_key-stamp key k now i [] = refl
find_key-stamp key k now zero (x ∷ es) = refl
find_key-stamp key k now (suc i) (x ∷ es) = rw (find_key-stamp key (suc k) now i es)

find_key-sess_get :
    (key q : Bytes) (now : ℕ) (c : SessCache)
    → find_key q 0 (sess_get now key c).0.v ≡ find_key q 0 c.v
unfolding sess_get
find_key-sess_get key q now c = elim (Option-cases (find_key key 0 c.v)) [
  | inl miss ↦ rw (miss, sess_get)
  | inr (i, hit) ↦ rw (hit, sess_get) (find_key-stamp q 0 now i c.v)
]

sess_get-find_key :
    (key : Bytes) (now : ℕ) (c : SessCache) → (sess_get now key c).1 ≡ find_key key 0 c.v
unfolding sess_get
sess_get-find_key key now c = elim (Option-cases (find_key key 0 c.v)) [
  | inl miss ↦ rw (miss, sess_get)
  | inr (i, hit) ↦ rw (hit, sess_get)
]

-- Once a key of at most 127 bytes is stored, looking it up finds the entry that was handed out.
pub sess_get-sess_put :
    (mem : Allocator) (now later : ℕ) (key : Bytes) (c : SessCache)
    → length key ≤ key_max
    → IsValid c
    → (sess_get later key (sess_put mem now key c).0).1 ≡ some (sess_put mem now key c).1
sess_get-sess_put mem now later key c short ok = sess_get-find_key key later _ ∙ found
  where
    cut : take key_max key ≡ key
    cut = take_of_length-le key_max key short

    found : find_key key 0 (sess_put mem now key c).0.v ≡ some (sess_put mem now key c).1
    found = elim (Option-cases (find_key key 0 c.v)) [
      | inr (i, hit) ↦ rw (sess_put_hit mem now key c i hit) (find_key-sess_get key key now c ∙ hit)
      | inl absent ↦ elim (Bool-cases (leb c.cap (length c.v))) [
        | inl full ↦ rw (sess_put_full mem now key c absent full) (
            find_key-set key 0 _ c.v _ (find_key-none key 0 c.v absent) cut
              (IsOldestAt-cap c.v c.cap ok.positive (ground arith)).1
            ∙ ap some (omega arith))
        | inr room ↦ rw (sess_put_room mem now key c absent room) (
            find_key-append key 0 c.v _ (find_key-none key 0 c.v absent) cut
            ∙ ap some (omega arith))
      ]
    ]

find_key-set_ne :
    (q : Bytes) (k i j : ℕ) (es : List SessVal) (e : SessVal)
    → find_key q k es ≡ some (k + j)
    → e.key ≢ q
    → i ≢ j
    → find_key q k (set es i e) ≡ some (k + j)
unfolding find_key
find_key-set_ne q k i j [] e h ne d = h
find_key-set_ne q k zero j (x ∷ es) e h ne d = elim (Bool-cases (equal x.key q)) [
  | inl same ↦ absurd (d (ground arith))
  | inr other ↦ ground (arith, (equal_iff e.key q).0)
]
find_key-set_ne q k (suc i) zero (x ∷ es) e h ne d = elim (Bool-cases (equal x.key q)) [
  | inl same ↦ rw same (ground arith)
  | inr other ↦ rw other (absurd (find_key-ge q (suc k) es k (ground arith) (omega arith)))
]
  where
    find_key-ge :
        (p : Bytes) (m : ℕ) (ys : List SessVal) (r : ℕ) → find_key p m ys ≡ some r → r < m → ⊥
    find_key-ge p m [] r h lt = ground arith
    find_key-ge p m (y ∷ ys) r h lt = ground (arith, find_key-ge p (suc m) ys r)
find_key-set_ne q k (suc i) (suc j) (x ∷ es) e h ne d = elim (Bool-cases (equal x.key q)) [
  | inl same ↦ rw same (ground arith)
  | inr other ↦ rw other (
      find_key-set_ne q (suc k) i j es e (ground arith) ne (λ p. d (ap suc p))
      ∙ ap some (omega arith))
]

find_key_long :
    (key : Bytes) (k : ℕ) (es : List SessVal)
    → key_max < length key
    → All IsBuffered es
    → find_key key k es ≡ none
unfolding find_key
find_key_long key k [] long a = refl
find_key_long key k (e ∷ es) long a = elim (Bool-cases (equal e.key key)) [
  | inl same ↦ absurd (omega (arith, ap length ((equal_iff e.key key).0 same), a.0.key_fits))
  | inr other ↦ rw other (find_key_long key (suc k) es long a.1)
]

-- A key of more than 127 bytes is cut when it is stored, so that no lookup ever finds it again.
pub sess_get-sess_put_long :
    (mem : Allocator) (now later : ℕ) (key : Bytes) (c : SessCache)
    → key_max < length key
    → IsValid c
    → (sess_get later key (sess_put mem now key c).0).1 ≡ none
sess_get-sess_put_long mem now later key c long ok =
    sess_get-find_key key later _ ∙ find_key_long key 0 _ long kept
  where
    absent : find_key key 0 c.v ≡ none
    absent = find_key_long key 0 c.v long ok.buffered

    kept : All IsBuffered (sess_put mem now key c).0.v
    kept = elim (Bool-cases (leb c.cap (length c.v))) [
      | inl full ↦
          rw (sess_put_full mem now key c absent full)
            (All-set _ c.v _ _ ok.buffered (IsBuffered-new_val mem now key))
      | inr room ↦
          rw (sess_put_room mem now key c absent room)
            (All-append _ c.v _ ok.buffered (IsBuffered-new_val mem now key, tt))
    ]

find_key-append_left :
    (q : Bytes) (k j : ℕ) (es fs : List SessVal)
    → find_key q k es ≡ some j
    → find_key q k (es ++ fs) ≡ some j
unfolding find_key
find_key-append_left q k j [] fs h = absurd (ground arith)
find_key-append_left q k j (x ∷ es) fs h = elim (Bool-cases (equal x.key q)) [
  | inl same ↦ rw same (ground arith)
  | inr other ↦ rw other (find_key-append_left q (suc k) j es fs (ground arith))
]

-- Storing a key keeps every other key where it is, save the one whose slot is given up.
pub sess_get-sess_put_ne :
    (mem : Allocator) (now later : ℕ) (key q : Bytes) (c : SessCache) (j : ℕ)
    → length key ≤ key_max
    → key ≢ q
    → (sess_get later q c).1 ≡ some j
    → (sess_put mem now key c).1 ≢ j
    → (sess_get later q (sess_put mem now key c).0).1 ≡ some j
sess_get-sess_put_ne mem now later key q c j short other was kept =
    sess_get-find_key q later _ ∙ found
  where
    there : find_key q 0 c.v ≡ some j
    there = sym (sess_get-find_key q later c) ∙ was

    cut : take key_max key ≡ key
    cut = take_of_length-le key_max key short

    found : find_key q 0 (sess_put mem now key c).0.v ≡ some j
    found = elim (Option-cases (find_key key 0 c.v)) [
      | inr (i, hit) ↦ rw (sess_put_hit mem now key c i hit) (find_key-sess_get key q now c ∙ there)
      | inl absent ↦ elim (Bool-cases (leb c.cap (length c.v))) [
        | inl full ↦
            let apart : oldest c.v ≢ j =
              λ e. kept (rw (sess_put_full mem now key c absent full) e) in
            rw (sess_put_full mem now key c absent full) (
              find_key-set_ne q 0 (oldest c.v) j c.v (new_val mem now key)
                (there ∙ ap some (omega arith)) (λ e. other (sym cut ∙ e)) apart
              ∙ ap some (omega arith))
        | inr room ↦
            rw (sess_put_room mem now key c absent room) (find_key-append_left q 0 j c.v _ there)
      ]
    ]
