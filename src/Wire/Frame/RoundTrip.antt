-- ===== src/Wire/Frame/RoundTrip.antt =====
-- A frame that is sent is received as it was.
use yllm.Base.{
  ℕ, ◌+◌, ◌-◌, ◌≤◌, ◌≡◌, ◌≢◌, refl, ◌∙◌, ap, true, false, not, some, [], ◌∷◌, ◌++◌, arith,
  append_assoc, ◌==◌, length, take, All, All-append, length-append, take_of_length-le,
}
use yllm.Base.Scan.{is_blank, not_blank, find_char}
use yllm.Base.Text.{Bytes, codes, take_while-All, take_while-append_stop}
use yllm.Wire.Frame.{
  cmd_max, args_max, line_max, recv_line, frame_send, frame, split_line, check_version, frame_recv,
}

-- A byte that a line can hold.
abbrev pub IsLineByte : ℕ → Type 0
IsLineByte c = (c ≢ b'\n') × (c ≢ b'\r') × (c ≢ 0)

-- A command: such bytes, none of them a blank, that fit the field.
pub record IsCommand (cmd : Bytes) : Type 0 where
  pub bytes : All IsLineByte cmd
  pub one_word : All (λ c. not_blank c ≡ true) cmd
  pub fits : length cmd ≤ cmd_max

-- Arguments that do not begin with a blank, and fit the field behind the version.
abbrev StartsWord : Bytes → Type 0
StartsWord [] = Unit
StartsWord (a ∷ args) = is_blank a ≡ false

pub record IsArguments (args : Bytes) : Type 0 where
  pub bytes : All IsLineByte args
  pub starts : StartsWord args
  pub fits : length args + 9 ≤ args_max

recv_line-append :
    (room : ℕ) (l rest : Bytes)
    → All IsLineByte l
    → length l ≤ room
    → recv_line room (l ++ b'\n' ∷ rest) ≡ some (l, rest)
unfolding recv_line
recv_line-append room [] rest a h = refl
recv_line-append room (c ∷ l) rest a h = ground (arith, recv_line-append (room - 1) l rest a.1, a.0)

-- The version field and the arguments, as they stand on the line.
abbrev field_of : Bytes → Bytes
field_of [] = codes "v=yllm-1"
field_of (a ∷ args) = codes "v=yllm-1 " ++ (a ∷ args)

frame_send-field_of :
    (cmd args rest : Bytes)
    → frame_send cmd args ++ rest ≡ (cmd ++ b' ' ∷ field_of args) ++ b'\n' ∷ rest
unfolding frame_send
frame_send-field_of cmd [] rest = simp append_assoc
frame_send-field_of cmd (a ∷ args) rest = simp append_assoc

find_char-append :
    (s r : Bytes)
    → All (λ c. not_blank c ≡ true) s
    → find_char b' ' (s ++ b' ' ∷ r) ≡ some (b' ' ∷ r)
unfolding find_char
find_char-append [] r a = refl
find_char-append (c ∷ s) r a = ground (arith, find_char-append s r a.1, a.0)

split_line-append :
    (cmd r : Bytes)
    → IsCommand cmd
    → length r ≤ args_max
    → split_line (cmd ++ b' ' ∷ r) ≡ record { cmd = cmd; args = r }
unfolding split_line
split_line-append cmd r c h = ground (
  arith,
  find_char-append cmd r c.one_word,
  take_while-append_stop not_blank cmd b' ' r c.one_word refl,
  take_of_length-le cmd_max cmd c.fits,
  take_of_length-le args_max r h,
)

check_version-field_of :
    (cmd args : Bytes)
    → IsArguments args
    → check_version (record { cmd = cmd; args = field_of args })
      ≡ frame (record { cmd = cmd; args = args })
unfolding check_version
check_version-field_of cmd [] a = refl
check_version-field_of cmd (x ∷ args) a =
    let whole : take 2046 args ≡ args = take_of_length-le 2046 args (omega (arith, a.fits)) in
    rw (a.starts, whole, whole)

IsLineByte-field_of : (args : Bytes) → IsArguments args → All IsLineByte (field_of args)
IsLineByte-field_of [] a = omega arith
IsLineByte-field_of (x ∷ args) a =
    All-append IsLineByte (codes "v=yllm-1 ") (x ∷ args) (omega arith) a.bytes

length-field_of : (args : Bytes) → length (field_of args) ≤ length args + 9
length-field_of [] = omega arith
length-field_of (x ∷ args) = omega arith

not_zero : (s : Bytes) → All IsLineByte s → All (λ c. not (c == 0) ≡ true) s
not_zero [] a = tt
not_zero (c ∷ s) a = (ground (arith, a.0), not_zero s a.1)

-- A command of one word and arguments that do not begin with a blank, both of bytes other than 0,
-- newline and carriage return, which fit their fields, the arguments with the version in front, come
-- out of `frame_recv` as they went into `frame_send`, and the bytes behind the frame stay on the
-- connection.
pub frame_recv-frame_send :
    (cmd args rest : Bytes)
    → IsCommand cmd
    → IsArguments args
    → frame_recv (frame_send cmd args ++ rest) ≡ (frame (record { cmd = cmd; args = args }), rest)
unfolding frame_recv
frame_recv-frame_send cmd args rest c a =
    ap frame_recv (frame_send-field_of cmd args rest)
    ∙ ground (
      arith,
      recv_line-append line_max (cmd ++ b' ' ∷ field_of args) rest clean short,
      take_while-All (λ x. not (x == 0)) (cmd ++ b' ' ∷ field_of args) (not_zero _ clean),
      split_line-append cmd (field_of args) c (omega (arith, length-field_of args, a.fits)),
      check_version-field_of cmd args a,
    )
  where
    clean : All IsLineByte (cmd ++ b' ' ∷ field_of args)
    clean =
        All-append IsLineByte cmd (b' ' ∷ field_of args) c.bytes
          (omega arith, IsLineByte-field_of args a)

    short : length (cmd ++ b' ' ∷ field_of args) ≤ line_max
    short =
        omega
          (arith, length-append cmd (b' ' ∷ field_of args), length-field_of args, a.fits, c.fits)
