-- ===== src/Supervisor/Lease/Order.antt =====
-- The exchange sort of the members' addresses in `handle_lease`.
use mathlib.Core.List.Perm
use mathlib.Core.List.{Perm}
use yllm.Base.{
  ℕ, zero, suc, ◌≡◌, refl, ◌∙◌, ap, true, false, inl, inr, List, [], ◌∷◌, arith, Bool-cases, length,
  All,
}
use yllm.Base.Int.{ℤ, pos, ltb_ℤ, ◌≤ℤ◌}
use yllm.Base.Outcome.{done, hang, fault, ◌>>=◌}
use yllm.Base.Text.{Bytes}
use yllm.Supervisor.Lease.{port_of, place, sort_ports}

-- The number behind the last colon.
abbrev pub port : Bytes → ℤ
port s = elim (port_of s) [ done p ↦ p | hang ↦ pos 0 | fault ↦ pos 0 ]

-- The address has a colon.
abbrev pub HasPort : Bytes → Type 0
HasPort s = port_of s ≡ done (port s)

abbrev pub NoneLower : Bytes → List Bytes → Type 0
NoneLower z = All (λ y. port z ≤ℤ port y)

abbrev pub IsSorted : List Bytes → Type 0
IsSorted [] = Unit
IsSorted (x ∷ xs) = NoneLower x xs × IsSorted xs

NoneLower-mono :
    (x z : Bytes) (ys : List Bytes) → port z ≤ℤ port x → NoneLower x ys → NoneLower z ys
NoneLower-mono x z [] h a = tt
NoneLower-mono x z (y ∷ ys) h a = (trans_le a.0, NoneLower-mono x z ys h a.1)
  where
    trans_le : port x ≤ℤ port y → port z ≤ℤ port y
    trans_le q = omega arith

module _ (x y : Bytes) (ys : List Bytes) (has_x : HasPort x) (has_y : HasPort y) where
  place_swap :
      ltb_ℤ (port y) (port x) ≡ true → place x (y ∷ ys) ≡ (place y ys >>= λ r. done (r.0, x ∷ r.1))
  unfolding place
  place_swap h = rw (has_x, has_y, h) refl

  place_keep :
      ltb_ℤ (port y) (port x) ≡ false → place x (y ∷ ys) ≡ (place x ys >>= λ r. done (r.0, y ∷ r.1))
  unfolding place
  place_keep h = rw (has_x, has_y, h) refl

-- What one round leaves: the least address in front.
record IsPlaced (x : Bytes) (xs : List Bytes) : Type 0 where
  pub least : Bytes
  pub rest : List Bytes
  pub at : place x xs ≡ done (least, rest)
  pub perm : Perm (least ∷ rest) (x ∷ xs)
  pub below : port least ≤ℤ port x
  pub none_lower : NoneLower least rest
  pub has : HasPort least × All HasPort rest
  pub keeps : (w : Bytes) → NoneLower w (x ∷ xs) → NoneLower w (least ∷ rest)
  pub size : length rest ≡ length xs

place-IsPlaced : (x : Bytes) (xs : List Bytes) → HasPort x → All HasPort xs → IsPlaced x xs
place-IsPlaced x [] has_x all = record {
  least = x;
  rest = [];
  at = unfold place in refl;
  perm = Perm.refl (x ∷ []);
  below = omega arith;
  none_lower = tt;
  has = (has_x, tt);
  keeps = λ w a. a;
  size = refl;
}
place-IsPlaced x (y ∷ ys) has_x all = elim (Bool-cases (ltb_ℤ (port y) (port x))) [
  | inl lower ↦
      let p = place-IsPlaced y ys all.0 all.1 in
      record {
        least = p.least;
        rest = x ∷ p.rest;
        at = place_swap x y ys has_x all.0 lower ∙ ap (λ m. m >>= λ r. done (r.0, x ∷ r.1)) p.at;
        perm = Perm.trans (Perm.swap x p.least p.rest) (Perm.cons x p.perm);
        below = below_swap (port p.least) (port y) (port x) lower p.below;
        none_lower = (below_swap (port p.least) (port y) (port x) lower p.below, p.none_lower);
        has = (p.has.0, (has_x, p.has.1));
        keeps = λ w a. let k = p.keeps w a.1 in (k.0, (a.0, k.1));
        size = ap suc p.size;
      }
  | inr higher ↦
      let p = place-IsPlaced x ys has_x all.1 in
      record {
        least = p.least;
        rest = y ∷ p.rest;
        at = place_keep x y ys has_x all.0 higher ∙ ap (λ m. m >>= λ r. done (r.0, y ∷ r.1)) p.at;
        perm =
            Perm.trans (Perm.swap y p.least p.rest)
              (Perm.trans (Perm.cons y p.perm) (Perm.swap x y ys));
        below = p.below;
        none_lower = (below_keep (port p.least) (port y) (port x) higher p.below, p.none_lower);
        has = (p.has.0, (all.0, p.has.1));
        keeps = λ w a. let k = p.keeps w (a.0, a.1.1) in (k.0, (a.1.0, k.1));
        size = ap suc p.size;
      }
]
  where
    below_swap : (a b c : ℤ) → ltb_ℤ b c ≡ true → a ≤ℤ b → a ≤ℤ c
    below_swap a b c h q = ground (arith, h, q)

    below_keep : (a b c : ℤ) → ltb_ℤ b c ≡ false → a ≤ℤ c → a ≤ℤ b
    below_keep a b c h q = ground (arith, h, q)

sort_ports-round :
    (n : ℕ) (x z : Bytes) (xs zs ys : List Bytes)
    → place x xs ≡ done (z, zs)
    → sort_ports n zs ≡ done ys
    → sort_ports (suc n) (x ∷ xs) ≡ done (z ∷ ys)
unfolding sort_ports
sort_ports-round n x z xs zs ys at rest = rw (at, rest) refl

record Sorting (n : ℕ) (xs : List Bytes) : Type 0 where
  pub out : List Bytes
  pub at : sort_ports n xs ≡ done out
  pub perm : Perm out xs
  pub order : IsSorted out
  pub keeps : (w : Bytes) → NoneLower w xs → NoneLower w out

sort_ports-Sorting : (n : ℕ) (xs : List Bytes) → n ≡ length xs → All HasPort xs → Sorting n xs
sort_ports-Sorting zero [] q all = record {
  out = [];
  at = unfold sort_ports in refl;
  perm = Perm.refl [];
  order = tt;
  keeps = λ w a. a;
}
sort_ports-Sorting zero (x ∷ xs) q all = absurd (omega arith)
sort_ports-Sorting (suc n) [] q all = absurd (omega arith)
sort_ports-Sorting (suc n) (x ∷ xs) q all =
    let p = place-IsPlaced x xs all.0 all.1 in
    let s = sort_ports-Sorting n p.rest (omega (arith, p.size)) p.has.1 in
    record {
      out = p.least ∷ s.out;
      at = sort_ports-round n x p.least xs p.rest s.out p.at s.at;
      perm = Perm.trans (Perm.cons p.least s.perm) p.perm;
      order = (s.keeps p.least p.none_lower, s.order);
      keeps = λ w a. let k = p.keeps w a in (k.0, s.keeps w k.1);
    }

-- Addresses that all have a colon are sorted without a fault: the result holds the same addresses,
-- by increasing port.
pub sort_ports-IsSorted :
    (xs : List Bytes)
    → All HasPort xs
    → (ys : List Bytes) × (sort_ports (length xs) xs ≡ done ys) × Perm ys xs × IsSorted ys
sort_ports-IsSorted xs all =
    let s = sort_ports-Sorting (length xs) xs refl all in (s.out, s.at, s.perm, s.order)
