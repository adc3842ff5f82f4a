-- ===== src/Sse/Stream.antt =====
-- Nothing of a stream of tokens is lost.
use yllm.Base.Outcome.{Outcome, done}
use yllm.Base.Scan.{is_digit}
use yllm.Base.Text.{Bytes, codes}
use yllm.Base.{
  ℕ, zero, suc, ◌+◌, ◌-◌, ◌*◌, ◌≤◌, ◌<◌, ◌≡◌, refl, ap, sym, subst, ◌∙◌, true, Option, none, some,
  List, [], ◌∷◌, ◌++◌, append_assoc, append-nil, arith, length, take, drop, All, length-append,
  length-drop, take-append, take-append-drop, ◌==◌, if◌then◌else◌, Bool-cases, Option-cases, inl,
  inr,
}
use yllm.Json.Object.{is_plain}
use yllm.Json.{JsonVal, json_find, json_str_unescape}
use yllm.Sse.Event.{sse_on_token-json_find}
use yllm.Sse.{
  SseCtx, char_need, complete_len, utf8_complete_len, joined, sse_token, sse_on_token,
  http_sse_data, sse_escape, chunk,
}

complete_len-le : (fuel : ℕ) (s : Bytes) → complete_len fuel s ≤ length s
unfolding complete_len
complete_len-le zero s = omega arith
complete_len-le (suc fuel) [] = omega arith
complete_len-le (suc fuel) (c ∷ s) = elim (Option-cases (char_need c)) [
  | inl no_char ↦ ground (arith, no_char, complete_len-le fuel s)
  | inr (need, is) ↦
      ground (arith, is, complete_len-le fuel (drop need (c ∷ s)), length-drop need (c ∷ s))
]

char_need_bounds : (c need : ℕ) → char_need c ≡ some need → (0 < need) × (need ≤ 4)
char_need_bounds c need h = ground (arith, h)

-- What is left is less than one character.
rest-le : (fuel : ℕ) (s : Bytes) → length s ≤ fuel → length s ≤ complete_len fuel s + 3
unfolding complete_len
rest-le zero s enough = omega arith
rest-le (suc fuel) [] enough = omega arith
rest-le (suc fuel) (c ∷ s) enough = elim (Option-cases (char_need c)) [
  | inl no_char ↦ ground (arith, no_char, rest-le fuel s)
  | inr (need, is) ↦
      let range = char_need_bounds c need is in
      let shorter = length-drop need (c ∷ s) in
      ground (
        arith,
        is,
        range,
        shorter,
        rest-le fuel (drop need (c ∷ s)) (omega (arith, shorter, range)),
      )
]

abbrev pub add_output : Option Bytes → List Bytes → List Bytes
add_output none outs = outs
add_output (some out) outs = out ∷ outs

-- The events of a stream of tokens, each with the clock at its time, and the context behind them.
abbrev pub sse_run : SseCtx → List (Bytes × Bytes) → SseCtx × List Bytes
sse_run sc [] = (sc, [])
sse_run sc ((clock, t) ∷ ts) =
    let (sc', out) = sse_on_token clock sc t in
    let rest = sse_run sc' ts in (rest.0, add_output out rest.1)

-- The text of an event, between "data: " and the blank line.
abbrev pub event_text : Bytes → Bytes
event_text ev = take (length ev - 8) (drop 6 ev)

abbrev pub content_of : Outcome (Option JsonVal) → Bytes
content_of (done (some v)) = json_str_unescape (take v.len v.start)
content_of _ = []

-- What a client reads in an event.
abbrev pub read_event : Bytes → Bytes
read_event ev = content_of (json_find (event_text ev) (codes "choices.0.delta.content"))

abbrev pub client_text : List Bytes → Bytes
client_text [] = []
client_text (ev ∷ evs) = read_event ev ++ client_text evs

abbrev pub join : List (Bytes × Bytes) → Bytes
join [] = []
join ((clock, t) ∷ ts) = t ++ join ts

-- A clock that is printed in digits, and fits an event with the model's name.
abbrev pub IsClock : Bytes → Bytes → Type 0
IsClock model [] = ⊥
IsClock model (d ∷ ds) =
    (length (d ∷ ds) + length model < 114) × All (λ b. is_digit b ≡ true) (d ∷ ds)

abbrev read : Option Bytes → Bytes
read none = []
read (some ev) = read_event ev

joined_fits :
    (pending t : Bytes) → length pending ≤ 3 → length t < 509 → joined pending t ≡ pending ++ t
unfolding joined
joined_fits pending t short fits = ground (arith, short, fits)

event_text-http_sse_data : (text : Bytes) → event_text (http_sse_data text) ≡ text
event_text-http_sse_data text =
    let size : length (http_sse_data text) - 8 ≡ length text =
      omega (arith, length-append text (codes "\n\n")) in
    rw size (take-append text (codes "\n\n"))

silent :
    (n : ℕ) (s : Bytes) (f : Bytes → Bytes)
    → n ≡ 0
    → (elim (if n == 0 then none else some s) [ none ↦ none | some e ↦ some (f e) ]) ≡ none
silent zero s f h = refl
silent (suc n) s f h = absurd (omega arith)

-- Nothing goes out where no character is complete.
no_event :
    (clock : Bytes) (sc : SseCtx) (t : Bytes)
    → utf8_complete_len (joined sc.pending t) ≡ 0
    → (sse_on_token clock sc t).1 ≡ none
unfolding sse_on_token sse_token
no_event clock sc t h =
    let buf = joined sc.pending t in
    let complete = utf8_complete_len buf in
    silent complete (sse_escape (take complete buf))
      (λ e. http_sse_data (take (256 + complete * 2 - 1) (chunk clock sc.model e))) h

-- A client reads the complete characters.
read_token :
    (clock : Bytes) (sc : SseCtx) (t : Bytes)
    → is_plain sc.model ≡ true
    → IsClock sc.model clock
    → read (sse_on_token clock sc t).1
      ≡ take (utf8_complete_len (joined sc.pending t)) (joined sc.pending t)
read_token [] sc t plain clock = absurd clock
read_token (d ∷ ds) sc t plain clock =
    elim (Bool-cases (utf8_complete_len (joined sc.pending t) == 0)) [
      | inl nothing ↦
          let zero_len : utf8_complete_len (joined sc.pending t) ≡ 0 = ground (arith, nothing) in
          rw (no_event (d ∷ ds) sc t zero_len, zero_len) refl
      | inr ready ↦
          let (text, v, sent, found, str, holds) =
            sse_on_token-json_find d ds sc t clock.1 plain clock.0 (ground (arith, ready)) in
          ap read sent
          ∙ (ap (λ s. content_of (json_find s (codes "choices.0.delta.content")))
                (event_text-http_sse_data text)
              ∙ (ap content_of found ∙ holds))
    ]

token_text :
    (clock : Bytes) (sc : SseCtx) (t : Bytes)
    → is_plain sc.model ≡ true
    → IsClock sc.model clock
    → length sc.pending ≤ 3
    → length t < 509
    → (read (sse_on_token clock sc t).1 ++ (sse_on_token clock sc t).0.pending ≡ sc.pending ++ t)
      × (length (sse_on_token clock sc t).0.pending ≤ 3)
token_text clock sc t plain is short fits =
    let buf = sc.pending ++ t in
    let n = complete_len (length buf) buf in
    let left = rest-le (length buf) buf (omega arith) in
    let joins = joined_fits sc.pending t short fits in
    let taken : read (sse_on_token clock sc t).1 ≡ take n buf =
      read_token clock sc t plain is ∙ (unfold utf8_complete_len in rw joins refl) in
    let kept : (sse_on_token clock sc t).0.pending ≡ drop n buf =
      unfold sse_on_token sse_token utf8_complete_len in rw joins refl in
    (rw (taken, kept) (take-append-drop n buf), rw kept (omega (arith, left, length-drop n buf)))

client_text-add :
    (o : Option Bytes) (evs : List Bytes)
    → client_text (add_output o evs) ≡ read o ++ client_text evs
client_text-add none evs = refl
client_text-add (some ev) evs = refl

-- A stream of tokens of fewer than 509 bytes, each with a clock in digits, from a context with at
-- most 3 bytes pending and a plain model, where each clock and the model are together shorter than
-- 114 bytes: what a client reads in the events that go out, at choices.0.delta.content, and what is
-- then pending are what was pending and the tokens, in order; at most 3 bytes are pending then, and
-- every token is counted.
pub sse_run-join :
    (sc : SseCtx) (ts : List (Bytes × Bytes))
    → length sc.pending ≤ 3
    → is_plain sc.model ≡ true
    → All (λ x. IsClock sc.model x.0 × (length x.1 < 509)) ts
    → (client_text (sse_run sc ts).1 ++ (sse_run sc ts).0.pending ≡ sc.pending ++ join ts)
      × (length (sse_run sc ts).0.pending ≤ 3)
      × ((sse_run sc ts).0.n_tokens ≡ sc.n_tokens + length ts)
sse_run-join sc [] short plain fits = (sym (append-nil sc.pending), short, omega arith)
sse_run-join sc ((clock, t) ∷ ts) short plain fits =
    let sc' = (sse_on_token clock sc t).0 in
    let same : sc'.model ≡ sc.model = unfold sse_on_token sse_token in refl in
    let counted : sc'.n_tokens ≡ sc.n_tokens + 1 = unfold sse_on_token sse_token in refl in
    let (text, few) = token_text clock sc t plain fits.0.0 short fits.0.1 in
    let (texts, few', count) =
      sse_run-join sc' ts few (ap is_plain same ∙ plain)
        (subst (λ m. All (λ x. IsClock m x.0 × (length x.1 < 509)) ts) (sym same) fits.1) in
    let out = read (sse_on_token clock sc t).1 in
    let outs = client_text (sse_run sc' ts).1 in
    let behind = (sse_run sc' ts).0.pending in
    (
      ap (λ s. s ++ behind) (client_text-add (sse_on_token clock sc t).1 (sse_run sc' ts).1)
          ∙ (append_assoc out outs behind
              ∙ (ap (λ s. out ++ s) texts
                  ∙ (sym (append_assoc out sc'.pending (join ts))
                      ∙ (ap (λ s. s ++ join ts) text ∙ append_assoc sc.pending t (join ts))))),
      few',
      omega (arith, count, counted),
    )
