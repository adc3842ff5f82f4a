-- ===== src/Tests/Session.antt =====
-- The session cache at concrete tables, buffers and files.
use yllm.Base.{
  map, ℕ, zero, suc, ◌+◌, ◌-◌, ◌^◌, ◌≤◌, ◌≡◌, ◌≢◌, ◌⊎◌, refl, sym, ◌∙◌, ap, some, List, [], ◌∷◌,
  ◌++◌, arith, true, false, length, take, length-append, length-take, take-append,
  take_of_length-le,
}
use yllm.Base.Int.{pos}
use yllm.Base.Outcome.{done, hang}
use yllm.Base.Text.{Bytes, codes, equal}
use yllm.Session.Buffer.Tokens.{sess_commit-IsCommitted, IsRefused, IsCommitted}
use yllm.Session.Buffer.{sess_commit}
use yllm.Session.Disk.RoundTrip.{sess_load-sess_save, sess_load_hangs, IsLoaded}
use yllm.Session.Disk.{OutFile, sess_save, sess_load, sess_magic, encode32}
use yllm.Session.Path.Names.{cache_path-sess_key_from_name}
use yllm.Session.Path.{safe, cache_path, sess_key_from_name}
use yllm.Session.Prefix.Longest.{IsBest, sess_find_prefix-IsBest}
use yllm.Session.Prefix.{sess_find_prefix}
use yllm.Session.Table.Keys.{IsPlaced, sess_put-IsPlaced, sess_put-IsValid}
use yllm.Session.Table.Lookup.{sess_get-sess_put}
use yllm.Session.Table.{sess_get, sess_put}
use yllm.Session.Types.{SessVal, SessCache, Allocator, IsBuffered, IsValid, view, zero_val}

abbrev zeros : ℕ → List ℕ
zeros zero = []
zeros (suc k) = 0 ∷ zeros k

length-zeros : (k : ℕ) → length (zeros k) ≡ k
length-zeros zero = refl
length-zeros (suc k) = ap suc (length-zeros k)

-- A heap that never runs out.
abbrev resize : List ℕ → ℕ → List ℕ
resize b k = take k b ++ zeros (k - length b)

length-resize : (b : List ℕ) (k : ℕ) → length (resize b k) ≡ k
length-resize b k = omega (
  arith,
  length-append (take k b) (zeros (k - length b)),
  length-take k b,
  length-zeros (k - length b),
)

take-resize : (b : List ℕ) (k : ℕ) → length b ≤ k → take (length b) (resize b k) ≡ b
take-resize b k h =
    ap (λ t. take (length b) (t ++ zeros (k - length b))) (take_of_length-le k b h)
    ∙ take-append b (zeros (k - length b))

resize_eq : (b c : List ℕ) (k : ℕ) → some (resize b k) ≡ some c → resize b k ≡ c
resize_eq b c k h = cc

abbrev heap : Allocator
heap = record {
  malloc = zeros;
  malloc_size = length-zeros;
  realloc = λ b k. some (resize b k);
  realloc_size = λ b c k h. ap length (sym (resize_eq b c k h)) ∙ length-resize b k;
  realloc_keeps =
      λ b c k h fits. ap (take (length b)) (sym (resize_eq b c k h)) ∙ take-resize b k fits;
}

abbrev first : SessVal
first = record {
  key = codes "a";
  tokens = some (1 ∷ 2 ∷ 3 ∷ 9 ∷ []);
  n = 4;
  cap = 4;
  last_use = 70;
}

abbrev second : SessVal
second = record {
  key = codes "b";
  tokens = some (1 ∷ 2 ∷ 8 ∷ 0 ∷ []);
  n = 3;
  cap = 4;
  last_use = 40;
}

-- A full table of two sessions.
abbrev two : SessCache
two = record { v = first ∷ second ∷ []; cap = 2 }

first-IsBuffered : IsBuffered first
first-IsBuffered = omega arith

second-IsBuffered : IsBuffered second
second-IsBuffered = omega arith

a-ne-b : codes "b" ≡ codes "a" → ⊥
a-ne-b h = ground arith

two-IsValid : IsValid two
two-IsValid = record {
  positive = omega arith;
  bounded = omega arith;
  buffered = (first-IsBuffered, (second-IsBuffered, tt));
  distinct = ((a-ne-b, tt), (tt, tt));
}

-- Session "b" was used before "a", and makes room for "c".
put_full : (sess_put heap 90 (codes "c") two).1 ≡ 1
unfolding sess_put equal
put_full = refl

find_b : (sess_get 90 (codes "b") two).1 ≡ some 1
unfolding sess_get equal
find_b = refl

find_longest : (sess_find_prefix 90 (some (1 ∷ 2 ∷ 3 ∷ 4 ∷ [])) (pos 9) two).2 ≡ 3
unfolding sess_find_prefix
find_longest = refl

sess_put-IsValid_example : IsValid (sess_put heap 90 (codes "c") two).0
sess_put-IsValid_example = sess_put-IsValid heap 90 (codes "c") two (omega arith) two-IsValid

sess_put-IsPlaced_example :
    IsPlaced heap 90
      (codes "c")
      two
      (sess_put heap 90 (codes "c") two).0
      (sess_put heap 90 (codes "c") two).1
sess_put-IsPlaced_example =
    sess_put-IsPlaced heap 90 (codes "c") two two-IsValid (no_c_1, (no_c_2, tt))
  where
    no_c_1 : codes "a" ≡ codes "c" → ⊥
    no_c_1 h = ground arith

    no_c_2 : codes "b" ≡ codes "c" → ⊥
    no_c_2 h = ground arith

sess_get-sess_put_example :
    (sess_get 91 (codes "c") (sess_put heap 90 (codes "c") two).0).1
    ≡ some (sess_put heap 90 (codes "c") two).1
sess_get-sess_put_example = sess_get-sess_put heap 90 91 (codes "c") two (omega arith) two-IsValid

c-ne-a : codes "c" ≢ codes "a"
c-ne-a h = ground arith

find_a : (sess_get 91 (codes "a") two).1 ≡ some 0
unfolding sess_get equal
find_a = refl

put-ne-zero : (sess_put heap 90 (codes "c") two).1 ≢ 0
put-ne-zero h = omega (arith, put_full, h)

abbrev letters : ℕ → Bytes
letters zero = []
letters (suc k) = b'k' ∷ letters k

sess_find_prefix-IsBest_example :
    IsBest
      (1 ∷ 2 ∷ 8 ∷ [])
      (pos 9)
      two.v
      (sess_find_prefix 90 (some (1 ∷ 2 ∷ 8 ∷ [])) (pos 9) two).1
      (sess_find_prefix 90 (some (1 ∷ 2 ∷ 8 ∷ [])) (pos 9) two).2
sess_find_prefix-IsBest_example = sess_find_prefix-IsBest 90 1 (2 ∷ 8 ∷ []) (pos 9) two

sess_commit-IsCommitted_example :
    (IsRefused heap (second.n + 2) second
      × (sess_commit heap 90 (5 ∷ 6 ∷ []) second ≡ done (second, false)))
    ⊎ ((g : SessVal) × (sess_commit heap 90 (5 ∷ 6 ∷ []) second ≡ done (g, true))
        × IsCommitted 90 (5 ∷ 6 ∷ []) second g)
sess_commit-IsCommitted_example =
    sess_commit-IsCommitted heap 90 (5 ∷ 6 ∷ []) second second-IsBuffered (omega arith)

zero-IsBuffered : IsBuffered zero_val
zero-IsBuffered = omega arith

sess_load-sess_save_example :
    (f : OutFile) × (sess_save (some 100) second ≡ (some f, true))
    × ((IsRefused heap second.n zero_val
          × (sess_load heap 90 (some f.content) zero_val ≡ done (zero_val, false)))
        ⊎ ((g : SessVal) × (sess_load heap 90 (some f.content) zero_val ≡ done (g, true))
            × IsLoaded 90 (view second) zero_val g))
sess_load-sess_save_example =
    sess_load-sess_save heap 90 100 second zero_val second-IsBuffered (omega arith) (omega arith)
      (omega arith) zero-IsBuffered

sess_load_hangs_example :
    sess_load heap 90 (some (sess_magic ++ (encode32 (2 ^ 31 + 1) ++ []))) zero_val ≡ hang
sess_load_hangs_example =
    sess_load_hangs heap 90 (2 ^ 31 + 1) 23 [] zero_val (omega arith) (omega arith) refl
      (omega arith)

cache_path-sess_key_from_name_example :
    (cache_path 512 (codes "cache") (codes "a:b") (codes ".sess")
      ≡ some ((codes "cache" ++ b'/' ∷ []) ++ (map safe (codes "a:b") ++ codes ".sess")))
    × (sess_key_from_name 128 (map safe (codes "a:b") ++ codes ".sess")
        ≡ some (map safe (codes "a:b")))
cache_path-sess_key_from_name_example =
    cache_path-sess_key_from_name 512 (codes "cache") (codes "a:b")
      (λ h. absurd (ground (arith, h))) (omega arith) (omega arith) (omega arith)
