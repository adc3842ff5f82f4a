-- ===== src/Wire/Frame/Fields.antt =====
-- `frame_get` against `proto_get`, the same search in another header.
use mathlib.Core.Option
use yllm.Base.{ℕ, zero, suc, ◌-◌, ◌≡◌, refl, [], ◌∷◌, arith, length, take}
use yllm.Base.Scan.{is_blank, not_blank}
use yllm.Base.Text.{Bytes, drop_while, take_while}
use yllm.Wire.Frame.{Frame, frame_get_loop, frame_get}
use yllm.Wire.Protocol.{get_loop, proto_get}

-- The value as `frame_get` copies it.
abbrev pub copied : ℕ → Bytes → Bytes
copied outsz v = take (outsz - 1) (take_while not_blank v)

frame_get_loop-get_loop :
    (fuel : ℕ) (key : Bytes) (outsz : ℕ) (p : Bytes)
    → frame_get_loop fuel key outsz p ≡ Option.map (copied outsz) (get_loop fuel key p)
unfolding frame_get_loop get_loop
frame_get_loop-get_loop zero key outsz p = refl
frame_get_loop-get_loop (suc fuel) key outsz [] = refl
frame_get_loop-get_loop (suc fuel) key outsz (c ∷ cs) = ground (
  arith,
  frame_get_loop-get_loop fuel key outsz (drop_while not_blank (drop_while is_blank (c ∷ cs))),
)

-- `frame_get` copies the value that `proto_get` points at, up to the next blank and to the size of
-- the buffer; it fails where `proto_get` returns null.
pub frame_get-proto_get :
    (f : Frame) (key : Bytes) (outsz : ℕ)
    → frame_get f key outsz ≡ Option.map (copied outsz) (proto_get f.args key)
unfolding frame_get proto_get
frame_get-proto_get f key outsz = frame_get_loop-get_loop (suc (length f.args)) key outsz f.args
