-- ===== src/Session/Disk/RoundTrip.antt =====
-- A session that is saved and loaded again, and a session file that makes the loader hang.
use yllm.Base.{
  ℕ, ◌+◌, ◌-◌, ◌*◌, ◌/◌, ◌%◌, ◌^◌, ◌≤◌, ◌<◌, ◌≡◌, refl, sym, ◌∙◌, ap, subst, ◌⊎◌, inl, inr, true,
  false, Option, none, some, List, [], ◌∷◌, ◌++◌, arith, leb, ltb, Bool-cases, length, take, drop,
  All, length-append, length-take, length-drop, take-append, take_of_length-le,
}
use yllm.Base.Outcome.{done, hang}
use yllm.Base.Text.{Bytes, equal}
use yllm.Session.Buffer.Tokens.{sess_grow-IsGrown, sess_grow_hangs, IsGrown, IsRefused}
use yllm.Session.Buffer.{start_cap}
use yllm.Session.Disk.{
  encode32, decode32, encode_words, decode_words, OutFile, write_all, read_all, sess_magic,
  sess_save, overlay, read_tokens, load_counted, load_body, sess_load,
}
use yllm.Session.Types.{SessVal, Allocator, IsBuffered, words, view}

abbrev pub AreWords : List ℕ → Type 0
AreWords = All (λ w. w < 2 ^ 32)

decode_words-append :
    (ws : List ℕ) (rest : Bytes)
    → AreWords ws
    → decode_words (encode_words ws ++ rest) ≡ ws ++ decode_words rest
unfolding encode_words decode_words
decode_words-append [] rest a = refl
decode_words-append (w ∷ ws) rest a =
    let word : decode32 (w % 256) (w / 256 % 256) (w / 65536 % 256) (w / 16777216 % 256) ≡ w =
      omega (arith, a.0) in
    rw (word, decode_words-append ws rest a.1)

length-encode_words : (ws : List ℕ) → length (encode_words ws) ≡ length ws * 4
unfolding encode_words
length-encode_words [] = refl
length-encode_words (w ∷ ws) = omega (arith, length-encode_words ws)

length-decode_words : (p : Bytes) → length (decode_words p) ≡ length p / 4
unfolding decode_words
length-decode_words (a ∷ b ∷ c ∷ d ∷ r) = omega (arith, length-decode_words r)
length-decode_words [] = refl
length-decode_words (a ∷ []) = refl
length-decode_words (a ∷ b ∷ []) = refl
length-decode_words (a ∷ b ∷ c ∷ []) = refl

-- The content of the file for an entry.
abbrev pub file_of : SessVal → Bytes
file_of e = sess_magic ++ (encode32 e.n ++ encode_words (view e))

write_all_fits :
    (p c : Bytes) (room : ℕ)
    → length p ≤ room
    → write_all p (record { content = c; room = room })
      ≡ (record { content = c ++ p; room = room - length p }, true)
unfolding write_all
write_all_fits p c room h =
    let all : take room p ≡ p = take_of_length-le room p h in rw all (ground arith)

length-view : (e : SessVal) → IsBuffered e → length (view e) ≡ e.n
length-view e ok = omega (arith, length-take e.n (words e.tokens), ok.sized, ok.fits)

-- With room for the 12 bytes of the head and 4 bytes a token, the whole file is written.
pub sess_save-file_of :
    (room : ℕ) (e : SessVal)
    → IsBuffered e
    → 12 + e.n * 4 ≤ room
    → (f : OutFile) × (sess_save (some room) e ≡ (some f, true)) × (f.content ≡ file_of e)
unfolding sess_save
sess_save-file_of room e ok h = elim (Bool-cases (ltb 0 e.n)) [
  | inl some_n ↦ (
    record {
      content = (sess_magic ++ encode32 e.n) ++ encode_words (view e);
      room = room - 8 - 4 - length (encode_words (view e));
    },
    rw (first, second, third, some_n),
    refl,
  )
  | inr no_n ↦
      let n_zero : e.n ≡ 0 = ground arith in
      (
        record { content = sess_magic ++ encode32 e.n; room = room - 8 - 4 },
        rw (first, second, no_n),
        rw n_zero (unfold encode_words in refl),
      )
]
  where
    first :
        write_all sess_magic (record { content = []; room = room })
        ≡ (record { content = sess_magic; room = room - 8 }, true)
    first = write_all_fits sess_magic [] room (omega arith)

    second :
        write_all (encode32 e.n) (record { content = sess_magic; room = room - 8 })
        ≡ (record { content = sess_magic ++ encode32 e.n; room = room - 8 - 4 }, true)
    second = write_all_fits (encode32 e.n) sess_magic (room - 8) (omega arith)

    third :
        write_all
          (encode_words (view e))
          (record { content = sess_magic ++ encode32 e.n; room = room - 8 - 4 })
        ≡ (
          record {
            content = (sess_magic ++ encode32 e.n) ++ encode_words (view e);
            room = room - 8 - 4 - length (encode_words (view e));
          },
          true,
        )
    third =
        write_all_fits (encode_words (view e)) (sess_magic ++ encode32 e.n) (room - 8 - 4)
          (omega (arith, length-encode_words (view e), length-view e ok))

decode32-encode32 :
    (n : ℕ)
    → n < 2 ^ 32
    → decode32 (n % 256) (n / 256 % 256) (n / 65536 % 256) (n / 16777216 % 256) ≡ n
decode32-encode32 n h = omega arith

-- The loader gets past a good magic.
sess_load-magic :
    (mem : Allocator) (now : ℕ) (rest : Bytes) (t : SessVal)
    → sess_load mem now (some (sess_magic ++ rest)) t ≡ load_body mem now rest t
unfolding sess_load read_all equal
sess_load-magic mem now rest t =
    let long : leb 8 (length (sess_magic ++ rest)) ≡ true = ground arith in rw long

take_eq : (n : ℕ) (xs ys : Bytes) → length xs ≡ n → take n (xs ++ ys) ≡ xs
take_eq n xs ys h = subst (λ k. take k (xs ++ ys) ≡ xs) h (take-append xs ys)

-- The words of a buffer that is long enough, after the tokens are read into it.
overlay-view :
    (ws b : List ℕ)
    → AreWords ws
    → length ws ≤ length b
    → (take (length ws) (overlay (encode_words ws) b) ≡ ws)
      × (length (overlay (encode_words ws) b) ≡ length b)
overlay-view ws b a h = (
  ap (take (length ws)) (decode_words-append ws _ a) ∙ take-append ws _,
  omega (
    arith,
    length-decode_words (encode_words ws ++ drop (length (encode_words ws)) (encode_words b)),
    length-append (encode_words ws) (drop (length (encode_words ws)) (encode_words b)),
    length-drop (length (encode_words ws)) (encode_words b),
    length-encode_words ws,
    length-encode_words b,
  ),
)

-- What a load makes of the entry that it is given.
pub record IsLoaded (now : ℕ) (tokens : List ℕ) (t g : SessVal) : Type 0 where
  pub buffered : IsBuffered g
  pub holds : view g ≡ tokens
  pub same_key : g.key ≡ t.key
  pub stamped : g.last_use ≡ now

read_tokens-fill :
    (now : ℕ) (ws : List ℕ) (t g : SessVal)
    → AreWords ws
    → IsGrown t (length ws) g
    → (read_tokens (length ws) (encode_words ws) g).1 ≡ true
unfolding read_tokens
read_tokens-fill now ws t g a is = ground (arith, length-encode_words ws)

read_tokens-IsLoaded :
    (now : ℕ) (ws : List ℕ) (t g : SessVal)
    → AreWords ws
    → 0 < length ws
    → IsGrown t (length ws) g
    → IsLoaded now ws t
        (record (read_tokens (length ws) (encode_words ws) g).0 { n = length ws; last_use = now })
unfolding read_tokens
read_tokens-IsLoaded now ws t g a pos_n is = go g.tokens refl
  where
    all : take (length ws * 4) (encode_words ws) ≡ encode_words ws
    all =
        take_of_length-le (length ws * 4) (encode_words ws) (omega (arith, length-encode_words ws))

    go :
        (tokens : Option (List ℕ))
        → g.tokens ≡ tokens
        → IsLoaded now ws t (record (read_tokens (length ws) (encode_words ws) g).0 {
          n = length ws;
          last_use = now;
        })
    go none q = absurd (omega (arith, is.room, is.buffered.sized, ap (λ x. length (words x)) q))
    go (some b) q =
        let size : length b ≡ g.cap = ap (λ x. length (words x)) (sym q) ∙ is.buffered.sized in
        let (holds, sized) = overlay-view ws b a (omega (arith, is.room)) in
        rw (q, all)
          (record {
            buffered = record {
              sized = sized ∙ size;
              fits = is.room;
              word_sized = is.buffered.word_sized;
              key_fits = is.buffered.key_fits;
            };
            holds = holds;
            same_key = is.same_key;
            stamped = refl;
          })

load_body-encode32 :
    (mem : Allocator) (now n : ℕ) (rest : Bytes) (t : SessVal)
    → n < 2 ^ 32
    → load_body mem now (encode32 n ++ rest) t ≡ load_counted mem now n rest t
unfolding load_body
load_body-encode32 mem now n rest t h =
    ap (λ k. load_counted mem now k rest t) (decode32-encode32 n h)

-- The tokens `ws` behind their number.
load_counted-IsLoaded :
    (mem : Allocator) (now : ℕ) (ws : List ℕ) (t : SessVal)
    → AreWords ws
    → length ws ≤ 2 ^ 31
    → IsBuffered t
    → (IsRefused mem (length ws) t
        × (load_counted mem now (length ws) (encode_words ws) t ≡ done (t, false)))
      ⊎ ((g : SessVal) × (load_counted mem now (length ws) (encode_words ws) t ≡ done (g, true))
          × IsLoaded now ws t g)
unfolding load_counted
load_counted-IsLoaded mem now ws t a small ok =
    elim (sess_grow-IsGrown mem (length ws) t ok small) [
      | inl (refused, oom) ↦ inl (refused, rw oom)
      | inr (g, grew, is) ↦ elim (Bool-cases (ltb 0 (length ws))) [
        | inl some_n ↦ inr (
          record (read_tokens (length ws) (encode_words ws) g).0 { n = length ws; last_use = now },
          rw (grew, some_n, read_tokens-fill now ws t g a is),
          read_tokens-IsLoaded now ws t g a (ground arith) is,
        )
        | inr no_n ↦
            let n_zero : length ws ≡ 0 = ground arith in
            inr (
              record g { n = length ws; last_use = now },
              rw (grew, no_n),
              record {
                buffered = record {
                  sized = is.buffered.sized;
                  fits = is.room;
                  word_sized = is.buffered.word_sized;
                  key_fits = is.buffered.key_fits;
                };
                holds = nil_of (words g.tokens) ws n_zero;
                same_key = is.same_key;
                stamped = refl;
              },
            )
      ]
    ]
  where
    nil_of : (b xs : List ℕ) → length xs ≡ 0 → take (length xs) b ≡ xs
    nil_of b [] h = refl
    nil_of b (x ∷ xs) h = absurd (omega arith)

-- An entry of at most 2 ^ 31 tokens that is saved to a disk with room for it, and loaded into an
-- entry, gives that entry the tokens, or leaves it as it was where the tokens do not fit it and the
-- allocator refuses the buffer for them.
pub sess_load-sess_save :
    (mem : Allocator) (now room : ℕ) (e t : SessVal)
    → IsBuffered e
    → AreWords (view e)
    → e.n ≤ 2 ^ 31
    → 12 + e.n * 4 ≤ room
    → IsBuffered t
    → (f : OutFile) × (sess_save (some room) e ≡ (some f, true))
      × ((IsRefused mem e.n t × (sess_load mem now (some f.content) t ≡ done (t, false)))
          ⊎ ((g : SessVal) × (sess_load mem now (some f.content) t ≡ done (g, true))
              × IsLoaded now (view e) t g))
sess_load-sess_save mem now room e t ok a small fits ok_t =
    let (f, saved, is) = sess_save-file_of room e ok fits in
    (
      f,
      saved,
      rw
          (
            is,
            sess_load-magic mem now (encode32 e.n ++ encode_words (view e)) t,
            load_body-encode32 mem now e.n (encode_words (view e)) t (omega arith),
          )
          (subst
            (λ n.
              (IsRefused mem n t
                × (load_counted mem now n (encode_words (view e)) t ≡ done (t, false)))
              ⊎ ((g : SessVal) × (load_counted mem now n (encode_words (view e)) t ≡ done (g, true))
                  × IsLoaded now (view e) t g))
            (length-view e ok)
            (load_counted-IsLoaded mem now (view e) t a (omega (arith, length-view e ok)) ok_t)),
    )

-- A file whose head claims more than 2 ^ 31 tokens makes the loader hang, whatever follows.
pub sess_load_hangs :
    (mem : Allocator) (now n j : ℕ) (rest : Bytes) (t : SessVal)
    → 2 ^ 31 < n
    → n < 2 ^ 32
    → start_cap t.cap * 2 ^ j ≡ 2 ^ 31
    → t.cap ≤ 2 ^ 31
    → sess_load mem now (some (sess_magic ++ (encode32 n ++ rest))) t ≡ hang
unfolding load_counted
sess_load_hangs mem now n j rest t big word pow small =
    sess_load-magic mem now (encode32 n ++ rest) t
    ∙ load_body-encode32 mem now n rest t word
    ∙ rw (sess_grow_hangs mem n t j pow small big)
