-- ===== src/Http/Lines.antt =====
-- The lines of a request are read as they were written.
use yllm.Base.Scan.{is_space, scan_word}
use yllm.Base.Text.{Bytes, take_while, take_while-append_stop, take_while-All}
use yllm.Base.{
  ℕ, suc, ◌+◌, ◌-◌, ◌≤◌, ◌<◌, ◌≡◌, ◌≢◌, refl, ap, sym, ◌∙◌, true, false, not, some, List, [], ◌∷◌,
  ◌++◌, arith, length, drop-append, All, append_assoc, append-nil, take_of_length-le,
}
use yllm.Http.{header_max, line_max, read_headers, request_line}
use yllm.Wire.Frame.RoundTrip.{IsLineByte}
use yllm.Wire.Frame.{recv_line, c_string}

abbrev pub crlf : Bytes
crlf = b'\r' ∷ b'\n' ∷ []

abbrev pub header_lines : List Bytes → Bytes
header_lines [] = []
header_lines (h ∷ hs) = h ++ (crlf ++ header_lines hs)

-- A header that a request can hold.
abbrev pub IsHeader : Bytes → Type 0
IsHeader h = (All IsLineByte h) × (0 < length h) × (length h ≤ header_max)

-- A word of the request line.
abbrev pub IsWord : ℕ → Bytes → Type 0
IsWord size w =
    (All (λ c. (not (is_space c) ≡ true) × (c ≢ 0)) w) × (0 < length w) × (length w ≤ size)

pub recv_line-crlf :
    (room : ℕ) (l rest : Bytes)
    → All IsLineByte l
    → length l ≤ room
    → recv_line room (l ++ (crlf ++ rest)) ≡ some (l, rest)
unfolding recv_line
recv_line-crlf room [] rest a h = refl
recv_line-crlf room (c ∷ l) rest a h = ground (arith, recv_line-crlf (room - 1) l rest a.1, a.0)

pub c_string-line : (l : Bytes) → All IsLineByte l → c_string l ≡ l
c_string-line [] a = refl
c_string-line (c ∷ l) a = ground (arith, c_string-line l a.1, a.0)

-- Room for headers, and for `m` behind them.
abbrev pub more : List Bytes → ℕ → ℕ
more [] m = m
more (h ∷ hs) m = suc (more hs m)

pub more-length : (hs : List Bytes) (m : ℕ) → more hs m ≡ length hs + m
more-length [] m = omega arith
more-length (h ∷ hs) m = omega (arith, more-length hs m)

pub read_headers-header_lines :
    (m : ℕ) (hs : List Bytes) (s : Bytes) (hs' : List Bytes) (rest : Bytes)
    → All IsHeader hs
    → read_headers m s ≡ some (hs', rest)
    → read_headers (more hs m) (header_lines hs ++ s) ≡ some (hs ++ hs', rest)
unfolding read_headers
read_headers-header_lines m [] s hs' rest a h = h
read_headers-header_lines m ([] ∷ hs) s hs' rest a h = absurd (omega (arith, a.0.1))
read_headers-header_lines m ((c ∷ l) ∷ hs) s hs' rest a h =
    let line = c ∷ l in
    let size : length line ≤ header_max = a.0.2 in
    rw
      (
        append_assoc line (crlf ++ header_lines hs) s,
        read_headers,
        recv_line-crlf line_max line (header_lines hs ++ s) a.0.0 (omega (arith, size)),
        read_headers-header_lines m hs s hs' rest a.1 h,
        c_string-line line a.0.0,
        take_of_length-le header_max line size,
      )
      refl

scan_word-word :
    (size : ℕ) (w r : Bytes)
    → IsWord size w
    → take_while (λ c. not (is_space c)) (w ++ r) ≡ w
    → scan_word size (w ++ r) ≡ some (w, r)
unfolding scan_word
scan_word-word size [] r h stop = absurd (omega (arith, h.1))
scan_word-word size (c ∷ w) r h stop =
    let word : is_space c ≡ false = ground (arith, h.0.0.0) in
    rw (word, stop, take_of_length-le size (c ∷ w) h.2, drop-append (c ∷ w) r) refl

scan_word-space : (size : ℕ) (s : Bytes) → scan_word size (b' ' ∷ s) ≡ scan_word size s
unfolding scan_word
scan_word-space size s = refl

word_bytes :
    (w : Bytes)
    → All (λ c. (not (is_space c) ≡ true) × (c ≢ 0)) w
    → All (λ c. not (is_space c) ≡ true) w
word_bytes [] h = tt
word_bytes (c ∷ w) h = (h.0.0, word_bytes w h.1)

scan_word-before :
    (size : ℕ) (w r : Bytes) → IsWord size w → scan_word size (w ++ b' ' ∷ r) ≡ some (w, b' ' ∷ r)
scan_word-before size w r h =
    scan_word-word size w (b' ' ∷ r) h
      (take_while-append_stop (λ c. not (is_space c)) w b' ' r (word_bytes w h.0) refl)

scan_word-last : (size : ℕ) (w : Bytes) → IsWord size w → scan_word size w ≡ some (w, [])
scan_word-last size w h =
    ap (scan_word size) (sym (append-nil w))
    ∙ scan_word-word size w [] h (
        ap (take_while (λ c. not (is_space c))) (append-nil w)
        ∙ take_while-All (λ c. not (is_space c)) w (word_bytes w h.0))

pub request_line-words :
    (method path version : Bytes)
    → IsWord 15 method
    → IsWord 511 path
    → IsWord 15 version
    → request_line (method ++ (b' ' ∷ (path ++ (b' ' ∷ version)))) ≡ some (method, path, version)
unfolding request_line
request_line-words method path version m p v =
    rw
      (
        request_line,
        scan_word-before 15 method (path ++ b' ' ∷ version) m,
        scan_word-space 511 (path ++ b' ' ∷ version),
        scan_word-before 511 path version p,
        scan_word-space 15 version,
        scan_word-last 15 version v,
      )
      refl
