-- ===== src/Session/Path.antt =====
-- File names of sessions: `cache_path` and `sess_key_from_name` of inference/core/cache.c.
pub mod Names
use yllm.Base.{
  ℕ, ◌+◌, ◌-◌, Bool, true, false, ◌||◌, Option, none, some, List, [], ◌∷◌, ◌++◌, ◌==◌, ltb, leb,
  if◌then◌else◌, length, take, drop,
}
use yllm.Base.Text.{Bytes, codes, equal, is_empty}

-- The characters that not every file system takes.
abbrev pub is_illegal : ℕ → Bool
is_illegal c =
    c == b':'
    || (c == b'/'
        || (c == b'\\'
            || (c == b'?'
                || (c == b'*' || (c == b'<' || (c == b'>' || (c == b'|' || c == b'"')))))))

abbrev pub safe : ℕ → ℕ
safe c = if is_illegal c then b'_' else c

-- The loop over the key, with `o` bytes in the buffer.
unfoldable pub copy_key : ℕ → ℕ → Bytes → Bytes
copy_key outsz o [] = []
copy_key outsz o (c ∷ key) =
    let rest = copy_key outsz (o + 1) key in if ltb (o + 16) outsz then safe c ∷ rest else []

-- The directory and a slash, if there is a directory and it fits.
unfoldable pub dir_part : ℕ → Bytes → Bytes
dir_part outsz dir =
    if is_empty dir then [] else if ltb (length dir + 1) outsz then dir ++ b'/' ∷ [] else []

-- `none` where the extension does not fit: the buffer then has no terminator.
unfoldable pub cache_path : ℕ → Bytes → Bytes → Bytes → Option Bytes
cache_path outsz dir key ext =
    let start = dir_part outsz dir in
    let out = start ++ copy_key outsz (length start) key in
    if ltb (length out + length ext + 1) outsz then some (out ++ ext) else none

unfoldable pub sess_key_from_name : ℕ → Bytes → Option Bytes
sess_key_from_name keysz name =
    let n = length name - 5 in
    if ltb (length name) 6
    then none
    else if equal (drop n name) (codes ".sess")
    then (if n == 0 || leb keysz n then none else some (take n name))
    else none
