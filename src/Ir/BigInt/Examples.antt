-- ===== src/Ir/BigInt/Examples.antt =====
-- Small runs of crates/ir/src/bigint.rs.
use sonatina.Base.{
  ℕ, ◌+◌, ◌*◌, ◌<◌, ◌⊎◌, ◌>>=◌, ◌-◌, ◌≡◌, refl, true, false, none, some, inr, [], ◌∷◌, arith,
}
use mathlib.Core.Bool.{xor}
use sonatina.Ir.BigInt.{
  I256, from_u256, to_u256, from_be_bytes, from_le_bytes, from_usize, bitand, bitor, bitxor,
  overflowing_div, overflowing_rem, shl, shr,
}
use sonatina.Ir.BigInt.Arith.{shl-shr_shift}
use sonatina.Ir.BigInt.Canonical.{IsCanonical, of_pattern, u256-i256_inverse}
use sonatina.Ir.BigInt.Division.{division_truncates, division_errors}
use sonatina.Ir.U256.{two_255, two_256}
use sonatina.Ir.U256.Native.{native, native-IsU256}

abbrev pos : ℕ → I256
pos n = record { is_negative = false; abs = n }

abbrev minus : ℕ → I256
minus n = record { is_negative = true; abs = n }

from_be_bytes_test : from_be_bytes native (1 ∷ 2 ∷ []) ≡ some (pos 258)
unfolding from_be_bytes from_u256
from_be_bytes_test = refl

from_le_bytes_test : from_le_bytes native (1 ∷ 2 ∷ []) ≡ some (pos 513)
unfolding from_le_bytes from_u256
from_le_bytes_test = refl

from_usize_test : from_usize native 7 ≡ some (pos 7)
unfolding from_usize from_u256
from_usize_test = refl

and_test : bitand native (pos 6) (pos 3) ≡ some (pos 2)
unfolding bitand from_u256 to_u256
and_test = refl

or_test : bitor native (pos 6) (minus 1) ≡ some (minus 1)
unfolding bitor from_u256 to_u256
or_test = refl

xor_test : bitxor native (pos 6) (minus 1) ≡ some (minus 7)
unfolding bitxor from_u256 to_u256
xor_test = refl

division_truncates_example :
    (q : I256) × (r : I256) × (overflowing_div native (minus 7) (pos 2) ≡ some (q, false))
    × (overflowing_rem native (minus 7) (pos 2) ≡ some (r, false))
    × (7 ≡ q.abs * 2 + r.abs)
    × (r.abs < 2)
    × (q.is_negative ≡ true)
    × (r.is_negative ≡ true)
unfolding xor
division_truncates_example =
    division_truncates native native-IsU256 (minus 7) (pos 2) (omega arith, omega arith)
      (omega arith) (omega arith) (omega arith)

division_errors_example :
    ((◌≡◌ {A = ℕ} 1 0)
      × (overflowing_div native (minus two_255) (minus 1) ≡ none)
      × (overflowing_rem native (minus two_255) (minus 1) ≡ none))
    ⊎ ((◌≡◌ {A = ℕ} 1 1)
        × (overflowing_div native (minus two_255) (minus 1) ≡ some (minus two_255, true))
        × (overflowing_rem native (minus two_255) (minus 1) ≡ some (of_pattern 0, true)))
division_errors_example =
    division_errors native native-IsU256 (minus two_255) (minus 1) (omega arith, omega arith)
      (omega arith, omega arith) (inr (refl, refl, refl, refl))

u256-i256_inverse_example :
    ((from_u256 native (two_256 - 5) >>= λ i. to_u256 native i) ≡ some (two_256 - 5))
    × ((i : I256) × (from_u256 native (two_256 - 5) ≡ some i) × IsCanonical i)
    × ((to_u256 native (minus 5) >>= λ val. from_u256 native val) ≡ some (minus 5))
u256-i256_inverse_example =
    u256-i256_inverse native native-IsU256 (two_256 - 5) (minus 5) (omega arith)
      (omega arith, omega arith)

shl-shr_shift_example :
    (shl native (minus 2) (pos 1) ≡ some (of_pattern (two_256 - 4)))
    × (shr native (minus 2) (pos 1) ≡ some (of_pattern (two_255 - 1)))
shl-shr_shift_example =
    shl-shr_shift native native-IsU256 (minus 2) (pos 1) (omega arith, omega arith) (omega arith)
