-- ===== src/Wire/Frame.antt =====
-- Frames: serve/frame.h over the line reader of serve/sock.h. A connection is the bytes that are
-- still to come on it; its end is the peer's close.
pub mod RoundTrip
pub mod Fields
use yllm.Base.{
  ℕ, zero, suc, ◌+◌, ◌-◌, Bool, true, false, not, ◌||◌, Option, none, some, List, [], ◌∷◌, ◌++◌,
  ◌==◌, if◌then◌else◌, length, take, drop,
}
use yllm.Base.Scan.{is_blank, not_blank, strip_prefix, find_char, scan_word}
use yllm.Base.Text.{Bytes, take_while, drop_while, codes, equal}
use yllm.Wire.Protocol.{value_at}

-- `PROTO_VERSION_STR`
abbrev pub version : Bytes
version = codes "yllm-1"

-- The text in `cmd[256]` and `args[2048]`, less the terminator.
abbrev pub cmd_max : ℕ
cmd_max = 255

abbrev pub args_max : ℕ
args_max = 2047

pub record Frame : Type 0 where
  pub cmd : Bytes
  pub args : Bytes

-- `sock_recv_line`: bytes up to a newline, without carriage returns; what does not fit in `room`
-- bytes is dropped. `none` if the connection ends first.
unfoldable pub recv_line : ℕ → Bytes → Option (Bytes × Bytes)
recv_line room [] = none
recv_line room (c ∷ s) =
    let later = recv_line (if c == b'\r' then room else room - 1) s in
    if c == b'\n' then some ([], s) else elim later [
      | none ↦ none
      | some (line, rest) ↦ some (if c == b'\r' || room == 0 then line else c ∷ line, rest)
    ]

-- The C string in a buffer.
abbrev pub c_string : Bytes → Bytes
c_string = take_while (λ c. not (c == 0))

-- The bytes that `frame_send` puts on the connection.
unfoldable pub frame_send : Bytes → Bytes → Bytes
frame_send cmd [] = cmd ++ (codes " v=" ++ (version ++ b'\n' ∷ []))
frame_send cmd (a ∷ args) = cmd ++ (codes " v=" ++ (version ++ (b' ' ∷ ((a ∷ args) ++ b'\n' ∷ []))))

pub data Received : Type 0 where
  frame : Frame → Received
  closed : Received
  no_version : Received
  bad_version : Bytes → Received

-- The command and the arguments of a line.
unfoldable pub split_line : Bytes → Frame
unfolding find_char
split_line line = elim (find_char b' ' line) [
  | none ↦ record { cmd = take cmd_max line; args = [] }
  | some sp ↦ record {
    cmd = take cmd_max (take_while not_blank line);
    args = take args_max (drop 1 sp);
  }
]

-- The check of `v=`, and the arguments without it.
unfoldable pub check_version : Frame → Received
unfolding strip_prefix scan_word equal find_char
check_version f = elim (strip_prefix (codes "v=") f.args) [
  | none ↦ no_version
  | some r ↦ elim (scan_word 63 r) [
    | none ↦ no_version
    | some (ver, _) ↦
        if equal ver version
        then elim (find_char b' ' f.args) [
          | none ↦ frame (record f { args = [] })
          | some rest ↦
              frame (record f { args = take args_max (take args_max (drop_while is_blank rest)) })
        ]
        else bad_version ver
  ]
]

-- `char line[FRAME_CMD_MAX + FRAME_ARGS_MAX + 2]`, less the terminator.
abbrev pub line_max : ℕ
line_max = 2305

-- What `frame_recv` makes of the bytes to come, and those left.
unfoldable pub frame_recv : Bytes → Received × Bytes
unfolding recv_line split_line check_version
frame_recv s = elim (recv_line line_max s) [
  | none ↦ (closed, [])
  | some (line, rest) ↦ (check_version (split_line (c_string line)), rest)
]

-- The loop of `frame_get`, which copies the value up to a blank, cut to `outsz - 1` bytes.
unfoldable pub frame_get_loop : ℕ → Bytes → ℕ → Bytes → Option Bytes
frame_get_loop zero key outsz p = none
frame_get_loop (suc fuel) key outsz [] = none
frame_get_loop (suc fuel) key outsz (c ∷ cs) =
    let p = drop_while is_blank (c ∷ cs) in
    let later = frame_get_loop fuel key outsz (drop_while not_blank p) in
    elim (value_at key p) [
      | none ↦ later
      | some v ↦ some (take (outsz - 1) (take_while not_blank v))
    ]

-- The value, or `none` where the source returns -1 with `out` empty.
unfoldable pub frame_get : Frame → Bytes → ℕ → Option Bytes
unfolding frame_get_loop
frame_get f key outsz = frame_get_loop (suc (length f.args)) key outsz f.args
