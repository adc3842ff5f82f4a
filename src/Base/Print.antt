-- ===== src/Base/Print.antt =====
-- `%d` of `snprintf`, for an `int`: at most ten digits.
use yllm.Base.Decisions.{◌==◌, if◌then◌else◌}
use yllm.Base.Int.{ℤ, pos, negsuc}
use yllm.Base.Text.{Bytes}
use Prim.Native.Nat.{ℕ, zero, suc, ◌+◌, ◌/◌, ◌%◌}
use mathlib.Core.List.{[], ◌∷◌}

-- The digits of a number before those in `acc`.
unfoldable pub digits_onto : ℕ → ℕ → Bytes → Bytes
digits_onto zero n acc = acc
digits_onto (suc fuel) n acc =
    let rest = digits_onto fuel (n / 10) ((b'0' + n % 10) ∷ acc) in
    if n / 10 == 0 then (b'0' + n % 10) ∷ acc else rest

unfoldable pub print_int : ℤ → Bytes
unfolding digits_onto
print_int (pos n) = digits_onto 10 n []
print_int (negsuc n) = b'-' ∷ digits_onto 10 (suc n) []
