-- ===== src/Router/Forward/Answer.antt =====
-- The reception of a server's answer.
use yllm.Base.{
  ℕ, zero, suc, ◌-◌, ◌<◌, ◌≤◌, ◌≡◌, refl, none, some, [], ◌∷◌, arith, inl, inr, ◌⊎◌, ◌==◌,
  if◌then◌else◌, Bool-cases, Option-cases, length, drop, length-drop,
}
use yllm.Base.Int.{ℤ, pos, negsuc}
use yllm.Base.Outcome.{Outcome, done}
use yllm.Base.Scan.{strip_prefix, atoi}
use yllm.Base.Text.{Bytes, codes}
use yllm.Router.Forward.{
  Reply, out_max, router_set_err, frame_t_payload, failed, add_token, answer_line, infer_loop,
}
use yllm.Wire.Frame.{recv_line, c_string}
use yllm.Wire.Protocol.{proto_is_error}

recv_line-shorter :
    (room : ℕ) (s line rest : Bytes) → recv_line room s ≡ some (line, rest) → length rest < length s
unfolding recv_line
recv_line-shorter room [] line rest h = absurd (ground arith)
recv_line-shorter room (c ∷ s) line rest h = elim (Bool-cases (c == b'\n')) [
  | inl end ↦ ground arith
  | inr more ↦ elim (Option-cases (recv_line (if c == b'\r' then room else room - 1) s)) [
    | inl none_ ↦ absurd (ground arith)
    | inr ((l, r), found) ↦
        let less = recv_line-shorter (if c == b'\r' then room else room - 1) s l r found in
        ground (arith, less)
  ]
]

frame_t_payload-le :
    (line s p behind : Bytes) → frame_t_payload line s ≡ some (p, behind) → length behind ≤ length s
unfolding frame_t_payload
frame_t_payload-le line s p behind h = elim (atoi_cases (atoi (drop 2 line))) [
  | inr (n, negative) ↦ absurd (ground arith)
  | inl (n, number) ↦ ground (arith, length-drop n s)
]
  where
    atoi_cases : (z : ℤ) → ((n : ℕ) × (z ≡ pos n)) ⊎ ((n : ℕ) × (z ≡ negsuc n))
    atoi_cases (pos n) = inl (n, refl)
    atoi_cases (negsuc n) = inr (n, refl)

module _ (errlen : ℕ) (next : Bytes → Outcome Reply) (line rest : Bytes) where
  abbrev Returns : Outcome Reply → Type 0
  Returns o = (a : Reply) × (o ≡ done a)

  answer_line-Returns :
      ((t : Bytes) → length t ≤ length rest → Returns (next t))
      → Returns (answer_line errlen next line rest)
  unfolding answer_line
  answer_line-Returns returns = elim (Option-cases (strip_prefix (codes "DONE") line)) [
    | inr (x, end) ↦ (record { rc = pos 0; err = []; tokens = [] }, ground (arith, end))
    | inl more ↦ elim (Bool-cases (proto_is_error (some line))) [
      | inl error ↦ (
        failed (router_set_err errlen (some line) (codes "backend error")),
        ground (arith, more, error),
      )
      | inr fine ↦ elim (Option-cases (strip_prefix (codes "T ") line)) [
        | inl other ↦
            let (a, e) = returns rest (omega arith) in (a, ground (arith, more, fine, other, e))
        | inr (x, token) ↦ elim (Option-cases (frame_t_payload line rest)) [
          | inl cut ↦ (failed [], ground (arith, more, fine, token, cut))
          | inr ((p, behind), whole) ↦
              let (a, e) = returns behind (frame_t_payload-le line rest p behind whole) in
              (add_token p a, ground (arith, more, fine, token, whole, e))
        ]
      ]
    ]
  ]

pub infer_loop-total :
    (fuel errlen : ℕ) (s : Bytes)
    → length s < fuel
    → (a : Reply) × (infer_loop fuel errlen s ≡ done a)
unfolding infer_loop
infer_loop-total zero errlen s h = absurd (omega arith)
infer_loop-total (suc fuel) errlen s h = elim (Option-cases (recv_line out_max s)) [
  | inl closed ↦ (
    failed (router_set_err errlen none (codes "backend timeout/disconnect")),
    ground (arith, closed),
  )
  | inr ((text, rest), found) ↦
      let (a, e) =
        answer_line-Returns errlen (λ t. infer_loop fuel errlen t) (c_string text) rest
          (λ t le.
            infer_loop-total fuel errlen t
              (omega (arith, recv_line-shorter out_max s text rest found))) in
      (a, ground (arith, found, e))
]
