-- ===== src/Session/Disk.antt =====
-- Session files: `sess_save` and `sess_load` of inference/core/cache.c, on a little-endian machine.
-- A file being read is the bytes that are left of it.
pub mod RoundTrip
use yllm.Base.{
  ℕ, ◌+◌, ◌-◌, ◌*◌, ◌/◌, ◌%◌, Bool, true, false, Option, none, some, List, [], ◌∷◌, ◌++◌, ltb, leb,
  if◌then◌else◌, length, take, drop,
}
use yllm.Base.Outcome.{Outcome, done, hang, fault, ◌>>=◌}
use yllm.Base.Text.{Bytes, equal, codes}
use yllm.Session.Buffer.{sess_grow}
use yllm.Session.Types.{SessVal, Allocator, words, view}

-- The bytes of a `uint32_t` in memory.
abbrev pub encode32 : ℕ → Bytes
encode32 w = w % 256 ∷ w / 256 % 256 ∷ w / 65536 % 256 ∷ w / 16777216 % 256 ∷ []

abbrev pub decode32 : ℕ → ℕ → ℕ → ℕ → ℕ
decode32 a b c d = a + 256 * b + 65536 * c + 16777216 * d

unfoldable pub encode_words : List ℕ → Bytes
encode_words [] = []
encode_words (w ∷ ws) = encode32 w ++ encode_words ws

unfoldable pub decode_words : Bytes → List ℕ
decode_words (a ∷ b ∷ c ∷ d ∷ r) = decode32 a b c d ∷ decode_words r
decode_words _ = []

-- A file that is being written: its content, and the bytes that the disk still takes.
pub record OutFile : Type 0 where
  pub content : Bytes
  pub room : ℕ

-- `write_all`: a short write is an error. What the disk does not take is seen at once, and not only
-- by the `fclose` behind it, whose result the source does not look at.
unfoldable pub write_all : Bytes → OutFile → OutFile × Bool
write_all p f = (
  record { content = f.content ++ take f.room p; room = f.room - length p },
  leb (length p) f.room,
)

-- `read_all`: the bytes read, and what is left; or what there was, if that is too short.
unfoldable pub read_all : ℕ → Bytes → Bytes × Bytes × Bool
read_all n f = (take n f, drop n f, leb n (length f))

-- The eight bytes of `SESS_FILE_MAGIC` that are written.
abbrev pub sess_magic : Bytes
sess_magic = codes "YLLMSESS"

-- The file that `sess_save` leaves, and whether it returns 0; `none` if it could not be opened.
unfoldable pub sess_save : Option ℕ → SessVal → Option OutFile × Bool
sess_save none e = (none, false)
sess_save (some room) e =
    let (f, ok) = write_all sess_magic (record { content = []; room = room }) in
    let (g, ok_n) = write_all (encode32 e.n) f in
    let (h, ok_tok) = write_all (encode_words (view e)) g in
    if ok
    then (if ok_n
        then (if ltb 0 e.n then (some h, ok_tok) else (some g, true))
        else (some g, false))
    else (some f, false)

-- The words of a buffer whose first bytes are overwritten.
abbrev pub overlay : Bytes → List ℕ → List ℕ
overlay p b = decode_words (p ++ drop (length p) (encode_words b))

-- `fread` into the buffer of an entry, for `n` words.
unfoldable pub read_tokens : ℕ → Bytes → SessVal → SessVal × Bool
unfolding read_all
read_tokens n f e =
    let (p, rest, ok) = read_all (n * 4) f in
    (record e { tokens = elim e.tokens [ none ↦ none | some b ↦ some (overlay p b) ] }, ok)

-- Behind the count `n`: room for the tokens, and the tokens.
unfoldable pub load_counted : Allocator → ℕ → ℕ → Bytes → SessVal → Outcome (SessVal × Bool)
load_counted mem now n rest e = do
  (g, grown) ← sess_grow mem n e
  let (h, filled) = read_tokens n rest g
  done (
      if grown
      then (if ltb 0 n
          then (if filled then (record h { n = n; last_use = now }, true) else (h, false))
          else (record g { n = n; last_use = now }, true))
      else (g, false))

-- Behind the magic.
unfoldable pub load_body : Allocator → ℕ → Bytes → SessVal → Outcome (SessVal × Bool)
load_body mem now (a ∷ b ∷ c ∷ d ∷ rest) e = load_counted mem now (decode32 a b c d) rest e
load_body mem now _ e = done (e, false)

-- `sess_load`, from the file's bytes; `none` if it cannot be opened.
unfoldable pub sess_load : Allocator → ℕ → Option Bytes → SessVal → Outcome (SessVal × Bool)
unfolding load_body read_all
sess_load mem now none e = done (e, false)
sess_load mem now (some f) e =
    let (magic, rest, ok) = read_all 8 f in
    if ok
    then (if equal magic sess_magic then load_body mem now rest e else done (e, false))
    else done (e, false)
