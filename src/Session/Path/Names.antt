-- ===== src/Session/Path/Names.antt =====
-- What the names keep of the keys.
use yllm.Base.{
  ℕ, suc, ◌+◌, ◌-◌, ◌<◌, ◌≡◌, ◌≢◌, refl, ap, true, false, ◌||◌, some, [], ◌∷◌, ◌++◌, map, arith,
  ◌==◌, ltb, leb, length, length-append, take-append, drop-append, append_assoc,
}
use yllm.Base.Text.{Bytes, codes, equal, is_empty_ne}
use yllm.Session.Path.{safe, copy_key, dir_part, cache_path, sess_key_from_name}

copy_key-map :
    (outsz o : ℕ) (key : Bytes) → o + length key + 15 < outsz → copy_key outsz o key ≡ map safe key
unfolding copy_key
copy_key-map outsz o [] h = refl
copy_key-map outsz o (c ∷ key) h = ground (arith, copy_key-map outsz (o + 1) key (omega arith), h)

length-map-safe : (key : Bytes) → length (map safe key) ≡ length key
length-map-safe [] = refl
length-map-safe (c ∷ key) = ap suc (length-map-safe key)

sess_key_from_name-append :
    (keysz : ℕ) (key : Bytes)
    → 0 < length key
    → length key < keysz
    → sess_key_from_name keysz (key ++ codes ".sess") ≡ some key
unfolding sess_key_from_name equal
sess_key_from_name-append keysz key some_key short =
    let size = length-append key (codes ".sess") in
    let n : length (key ++ codes ".sess") - 5 ≡ length key = omega (arith, size) in
    let enough : ltb (length (key ++ codes ".sess")) 6 ≡ false = ground (arith, size, some_key) in
    let fits : (length key == 0 || leb keysz (length key)) ≡ false =
      ground (arith, some_key, short) in
    rw (enough, n, drop-append key (codes ".sess"), fits, take-append key (codes ".sess")) refl

-- With room in the buffer, the path of a session file is the directory, the key with every illegal
-- character replaced, and the extension; its name gives back the replaced key, so that keys that
-- differ in such characters alone share one file.
pub cache_path-sess_key_from_name :
    (outsz : ℕ) (dir key : Bytes)
    → dir ≢ []
    → 0 < length key
    → length key < 128
    → length dir + length key + 16 < outsz
    → (cache_path outsz dir key (codes ".sess")
        ≡ some ((dir ++ b'/' ∷ []) ++ (map safe key ++ codes ".sess")))
      × (sess_key_from_name 128 (map safe key ++ codes ".sess") ≡ some (map safe key))
unfolding cache_path dir_part
cache_path-sess_key_from_name outsz dir key named some_key short room =
    let size = length-map-safe key in
    let full = is_empty_ne dir named in
    let dir_fits : ltb (length dir + 1) outsz ≡ true = ground (arith, room) in
    let slash = length-append dir (b'/' ∷ []) in
    let copied = copy_key-map outsz (length (dir ++ b'/' ∷ [])) key (omega (arith, slash, room)) in
    let whole = length-append (dir ++ b'/' ∷ []) (map safe key) in
    let fits : ltb (length ((dir ++ b'/' ∷ []) ++ map safe key) + 5 + 1) outsz ≡ true =
      ground (arith, whole, slash, size, room) in
    (
      rw (full, dir_fits, copied, fits)
          (ap some (append_assoc (dir ++ b'/' ∷ []) (map safe key) (codes ".sess"))),
      sess_key_from_name-append 128 (map safe key) (omega (arith, size)) (omega (arith, size)),
    )
