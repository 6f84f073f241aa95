-- ===== src/Ir/BigInt/Order.antt =====
-- bigint.rs: the order of `I256`, and its equality.
use Prim.Native.Nat.{compare}
use sonatina.Base.{ℕ, ◌+◌, ◌%◌, ◌≡◌, refl, Bool, true, false, arith, ◌==◌}
use sonatina.Ir.U256.{U256Ops, IsU256, two_255, two_256}
use sonatina.Ir.BigInt.{I256, cmp, compare_signs, i256_eq}
use sonatina.Ir.BigInt.Canonical.{IsCanonical, InRange, pattern_of, unsigned}

-- The pattern with its sign bit flipped: the signed order becomes the order of these numbers.
abbrev pub biased : ℕ → ℕ
biased val = (val + two_255) % two_256

module _ (u : U256Ops) (laws : IsU256 u) where
  cmp-cases :
      (s t : Bool) (a b : ℕ)
      → InRange s a
      → InRange t b
      → compare_signs u s t a b ≡ compare (biased (pattern_of s a)) (biased (pattern_of t b))
  unfolding compare_signs
  cmp-cases true true a b ha hb = rw (laws.cmp_law a b (omega arith) (omega arith)) (ground arith)
  cmp-cases true false a b ha hb = ground arith
  cmp-cases false true a b ha hb = ground arith
  cmp-cases false false a b ha hb = rw (laws.cmp_law a b (omega arith) (omega arith)) (ground arith)

  -- The order of two signed integers, told from sign and absolute value, is the order of their two's
  -- complement patterns with the sign bit flipped.
  pub cmp_lem :
      (a b : I256)
      → IsCanonical a
      → IsCanonical b
      → cmp u a b ≡ compare (biased (unsigned a)) (biased (unsigned b))
  unfolding cmp
  cmp_lem a b ha hb = cmp-cases a.is_negative b.is_negative a.abs b.abs ha hb

eq-cases :
    (s t : Bool) (a b : ℕ)
    → InRange s a
    → InRange t b
    → i256_eq (record { is_negative = s; abs = a }) (record { is_negative = t; abs = b })
      ≡ (pattern_of s a == pattern_of t b)
unfolding i256_eq
eq-cases true true a b ha hb = ground arith
eq-cases true false a b ha hb = ground arith
eq-cases false true a b ha hb = ground arith
eq-cases false false a b ha hb = refl

-- Equality of sign and absolute value is equality of the patterns.
pub i256_eq_lem :
    (a b : I256) → IsCanonical a → IsCanonical b → i256_eq a b ≡ (unsigned a == unsigned b)
i256_eq_lem a b ha hb = eq-cases a.is_negative b.is_negative a.abs b.abs ha hb
