-- ===== src/Session/Types.antt =====
-- `SessVal` and `SessCache` of inference/include/cache.h.
use yllm.Base.{ℕ, ◌≤◌, ◌≡◌, ◌≢◌, ◌<◌, Option, none, some, List, [], ◌∷◌, ◌^◌, length, take, All}
use yllm.Base.Text.{Bytes}

-- One cached session. `tokens` is the buffer behind the pointer, all of its `cap` words, or `none`
-- for a null pointer; the words from `n` on hold nothing of meaning.
pub record SessVal : Type 0 where
  pub key : Bytes
  pub tokens : Option (List ℕ)
  pub n : ℕ
  pub cap : ℕ
  pub last_use : ℕ

-- The table. `v` is the part of the array that is in use, so its length is the field `n` in the
-- source; the entries behind it are zero. A pointer to an entry is its index.
pub record SessCache : Type 0 where
  pub v : List SessVal
  pub cap : ℕ

-- `memset(v, 0, sizeof(SessVal))`
abbrev pub zero_val : SessVal
zero_val = record { key = []; tokens = none; n = 0; cap = 0; last_use = 0 }

-- `char key[128]`
abbrev pub key_max : ℕ
key_max = 127

-- The words behind a pointer to a buffer.
abbrev pub words : Option (List ℕ) → List ℕ
words none = []
words (some b) = b

-- The cached token sequence that an entry stands for.
abbrev pub view : SessVal → List ℕ
view e = take e.n (words e.tokens)

-- The buffer has the size that `cap` says, the tokens in use lie in it, and the key fits its array.
pub record IsBuffered (e : SessVal) : Type 0 where
  pub sized : length (words e.tokens) ≡ e.cap
  pub fits : e.n ≤ e.cap
  pub word_sized : e.cap < 2 ^ 32
  pub key_fits : length e.key ≤ key_max

abbrev pub Fresh : Bytes → List SessVal → Type 0
Fresh k = All (λ e. e.key ≢ k)

-- No two entries have one key.
abbrev pub Distinct : List SessVal → Type 0
Distinct [] = Unit
Distinct (e ∷ es) = Fresh e.key es × Distinct es

pub record IsValid (c : SessCache) : Type 0 where
  pub positive : 0 < c.cap
  pub bounded : length c.v ≤ c.cap
  pub buffered : All IsBuffered c.v
  pub distinct : Distinct c.v

-- malloc and realloc. A realloc may fail; if not, it keeps the words that were there.
pub record Allocator : Type 0 where
  pub malloc : ℕ → List ℕ
  pub malloc_size : (k : ℕ) → length (malloc k) ≡ k
  pub realloc : List ℕ → ℕ → Option (List ℕ)
  pub realloc_size : (b c : List ℕ) (k : ℕ) → realloc b k ≡ some c → length c ≡ k
  pub realloc_keeps :
      (b c : List ℕ) (k : ℕ) → realloc b k ≡ some c → length b ≤ k → take (length b) c ≡ b
