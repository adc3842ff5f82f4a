-- ===== src/Sse.antt =====
-- The stream of tokens to an HTTP client: `SseCtx`, utf8_complete_len, sse_on_token and
-- sse_on_done of serve/router_http.c, and http_sse_data and http_sse_done of serve/http.h.
pub mod Chunk
pub mod Escape
pub mod Event
pub mod Stream
pub mod Truncated
use yllm.Base.Int.{ℤ, pos, pos_part}
use yllm.Base.Print.{print_int}
use yllm.Base.Text.{Bytes, codes}
use yllm.Base.{
  ℕ, zero, suc, ◌+◌, ◌-◌, ◌*◌, ◌/◌, Bool, ◌&&◌, Option, none, some, List, [], ◌∷◌, ◌++◌, ◌==◌, ltb,
  leb, if◌then◌else◌, length, take, drop,
}

-- `pending` is the `pending_len` bytes in use; the client's socket is left out.
pub record SseCtx : Type 0 where
  pub model : Bytes
  pub n_tokens : ℕ
  pub prompt_tokens : ℤ
  pub include_usage : Bool
  pub pending : Bytes

-- The bytes of the character that a byte begins, or none for a byte that begins no character.
abbrev pub char_need : ℕ → Option ℕ
char_need c =
    if ltb c 0x80
    then some 1
    else if c / 32 == 6
    then some 2
    else if c / 16 == 0xE
    then some 3
    else if c / 8 == 0x1E
    then some 4
    else none

-- The loop of `utf8_complete_len`, from `buf + i` on. Each round takes a byte at least.
unfoldable pub complete_len : ℕ → Bytes → ℕ
complete_len zero s = 0
complete_len (suc fuel) [] = 0
complete_len (suc fuel) (c ∷ s) = elim (char_need c) [
  | none ↦ 1 + complete_len fuel s
  | some need ↦
      let rest = need + complete_len fuel (drop need (c ∷ s)) in
      if ltb (length (c ∷ s)) need then 0 else rest
]

unfoldable pub utf8_complete_len : Bytes → ℕ
unfolding complete_len
utf8_complete_len buf = complete_len (length buf) buf

-- What is written for one byte.
unfoldable pub escape_byte : ℕ → Bytes
escape_byte c =
    if c == b'"'
    then b'\\' ∷ b'"' ∷ []
    else if c == b'\\'
    then b'\\' ∷ b'\\' ∷ []
    else if c == b'\n'
    then b'\\' ∷ b'n' ∷ []
    else if c == b'\r'
    then b'\\' ∷ b'r' ∷ []
    else if c == b'\t'
    then b'\\' ∷ b't' ∷ []
    else c ∷ []

-- The loop that escapes a text.
unfoldable pub sse_escape : Bytes → Bytes
sse_escape [] = []
sse_escape (c ∷ s) = escape_byte c ++ sse_escape s

-- `char buf[512]`, with what was pending, which fits its 8 bytes, and the new bytes; what does not
-- fit is dropped.
unfoldable pub joined : Bytes → Bytes → Bytes
joined pending utf8 =
    let buf = if leb (length pending) 8 then pending else [] in
    if ltb (length utf8) (512 - length buf) then buf ++ utf8 else []

-- The context after a token, and the escaped text that goes out, if any.
unfoldable pub sse_token : SseCtx → Bytes → SseCtx × Option Bytes
sse_token sc utf8 =
    let buf = joined sc.pending utf8 in
    let complete = utf8_complete_len buf in
    (
      record sc { n_tokens = sc.n_tokens + 1; pending = drop complete buf },
      if complete == 0 then none else some (sse_escape (take complete buf)),
    )

-- The text of a chunk, whose clock is printed as `created`.
abbrev pub chunk : Bytes → Bytes → Bytes → Bytes
chunk created model escaped =
    codes "{\"id\":\"chatcmpl-1\",\"object\":\"chat.completion.chunk\",\"created\":"
    ++ (created
        ++ (codes ",\"model\":\""
            ++ (model
                ++ (codes "\",\"choices\":[{\"index\":0,\"delta\":{\"content\":\""
                    ++ (escaped ++ codes "\"},\"finish_reason\":null}]}")))))

-- `http_sse_data`
abbrev pub http_sse_data : Bytes → Bytes
http_sse_data text = codes "data: " ++ (text ++ codes "\n\n")

-- What goes to the client, with memory for it: the chunk, cut to its buffer. A token has no byte 0,
-- at which `%s` would end.
unfoldable pub sse_on_token : Bytes → SseCtx → Bytes → SseCtx × Option Bytes
sse_on_token created sc utf8 =
    let (sc', out) = sse_token sc utf8 in
    let complete = utf8_complete_len (joined sc.pending utf8) in
    (
      sc',
      elim out [
        | none ↦ none
        | some escaped ↦
            some (http_sse_data (take (256 + complete * 2 - 1) (chunk created sc.model escaped)))
      ],
    )

-- The text of the last chunk.
abbrev pub last_chunk : Bytes → Bytes → Bytes → Bytes
last_chunk created model reason =
    codes "{\"id\":\"chatcmpl-1\",\"object\":\"chat.completion.chunk\",\"created\":"
    ++ (created
        ++ (codes ",\"model\":\""
            ++ (model
                ++ (codes "\",\"choices\":[{\"index\":0,\"delta\":{},\"finish_reason\":\""
                    ++ (reason ++ codes "\"}]}")))))

-- The text of the chunk with the counts of tokens.
abbrev pub usage_chunk : Bytes → Bytes → ℕ → ℕ → Bytes
usage_chunk created model pt ct =
    codes "{\"id\":\"chatcmpl-1\",\"object\":\"chat.completion.chunk\",\"created\":"
    ++ (created
        ++ (codes ",\"model\":\""
            ++ (model
                ++ (codes "\",\"choices\":[],\"usage\":{\"prompt_tokens\":"
                    ++ (print_int (pos pt)
                        ++ (codes ",\"completion_tokens\":"
                            ++ (print_int (pos ct)
                                ++ (codes ",\"total_tokens\":"
                                    ++ (print_int (pos (pt + ct)) ++ codes "}}")))))))))

-- The events that go out at the end, each chunk cut to its buffer of 512 bytes.
unfoldable pub sse_on_done : Bytes → SseCtx → Bytes → Bytes
sse_on_done created sc reason =
    let usage = usage_chunk created sc.model (pos_part sc.prompt_tokens) sc.n_tokens in
    http_sse_data (take 511 (last_chunk created sc.model reason))
    ++ (if sc.include_usage then http_sse_data (take 511 usage) else [])

abbrev pub http_sse_done : Bytes
http_sse_done = codes "data: [DONE]\n\n"
