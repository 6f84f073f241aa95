-- ===== src/Ir/BigInt/Convert.antt =====
-- bigint.rs: conversions between `I256` and the machine integers.
use sonatina.Base.{
  ℕ, ◌+◌, ◌-◌, ◌%◌, ◌^◌, ◌<◌, ◌≤◌, ◌≡◌, Bool, true, false, none, none, some, arith, ltb, ◌==◌, not,
  if◌then◌else◌,
}
use sonatina.Ir.BigInt.{
  to_u256, I256, from_signed, from_bool, trunc_to_i1, trunc_to_i8, trunc_to_i16, trunc_to_i32,
  trunc_to_i64, trunc_to_i128,
}
use sonatina.Ir.BigInt.Arith.{zero_lem, all_one_lem}
use sonatina.Ir.BigInt.Canonical.{IsCanonical, unsigned, of_pattern, unsigned-IsWord, to_u256_lem}
use sonatina.Ir.U256.{U256Ops, IsU256, two_256}

module _ (u : U256Ops) where
  -- A signed integer of `w` bits becomes the integer of its sign-extended pattern.
  pub from_signed_lem :
      (w n : ℕ)
      → u.shl 1 (w - 1) ≡ 2 ^ (w - 1)
      → 2 ^ w ≡ 2 ^ (w - 1) + 2 ^ (w - 1)
      → 2 ^ w ≤ 2 ^ 255
      → n < 2 ^ w
      → from_signed u w n ≡ of_pattern (if ltb n (2 ^ (w - 1)) then n else two_256 - 2 ^ w + n)
  unfolding from_signed of_pattern
  from_signed_lem w n s double small h = rw s (ground arith)

module _ (u : U256Ops) (laws : IsU256 u) where
  -- A true Boolean becomes the pattern of ones, which is -1.
  pub from_bool_lem : (b : Bool) → from_bool u b ≡ some (of_pattern (if b then two_256 - 1 else 0))
  unfolding from_bool
  from_bool_lem true = all_one_lem u laws
  from_bool_lem false = zero_lem u laws

  pub trunc_to_i1_lem :
      (i : I256) → IsCanonical i → trunc_to_i1 u i ≡ some (not (unsigned i % 2 == 0))
  unfolding trunc_to_i1
  trunc_to_i1_lem i h =
      let low : unsigned i % 2 ^ 32 % 2 ≡ unsigned i % 2 = omega arith in
      rw (to_u256_lem u laws i h, laws.low_u32_law (unsigned i) (unsigned-IsWord i h), low)

  pub trunc_to_i8_lem : (i : I256) → IsCanonical i → trunc_to_i8 u i ≡ some (unsigned i % 2 ^ 8)
  unfolding trunc_to_i8
  trunc_to_i8_lem i h =
      let low : unsigned i % 2 ^ 32 % 2 ^ 8 ≡ unsigned i % 2 ^ 8 = omega arith in
      rw (to_u256_lem u laws i h, laws.low_u32_law (unsigned i) (unsigned-IsWord i h), low)

  pub trunc_to_i16_lem : (i : I256) → IsCanonical i → trunc_to_i16 u i ≡ some (unsigned i % 2 ^ 16)
  unfolding trunc_to_i16
  trunc_to_i16_lem i h =
      let low : unsigned i % 2 ^ 32 % 2 ^ 16 ≡ unsigned i % 2 ^ 16 = omega arith in
      rw (to_u256_lem u laws i h, laws.low_u32_law (unsigned i) (unsigned-IsWord i h), low)

  pub trunc_to_i32_lem : (i : I256) → IsCanonical i → trunc_to_i32 u i ≡ some (unsigned i % 2 ^ 32)
  unfolding trunc_to_i32
  trunc_to_i32_lem i h =
      let low : unsigned i % 2 ^ 32 % 2 ^ 32 ≡ unsigned i % 2 ^ 32 = omega arith in
      rw (to_u256_lem u laws i h, laws.low_u32_law (unsigned i) (unsigned-IsWord i h), low)

  pub trunc_to_i64_lem : (i : I256) → IsCanonical i → trunc_to_i64 u i ≡ some (unsigned i % 2 ^ 64)
  unfolding trunc_to_i64
  trunc_to_i64_lem i h =
      let low : unsigned i % 2 ^ 64 % 2 ^ 64 ≡ unsigned i % 2 ^ 64 = omega arith in
      rw (to_u256_lem u laws i h, laws.low_u64_law (unsigned i) (unsigned-IsWord i h), low)

  pub trunc_to_i128_lem :
      (i : I256) → IsCanonical i → trunc_to_i128 u i ≡ some (unsigned i % 2 ^ 128)
  unfolding trunc_to_i128
  trunc_to_i128_lem i h =
      let low : unsigned i % 2 ^ 128 % 2 ^ 128 ≡ unsigned i % 2 ^ 128 = omega arith in
      rw (to_u256_lem u laws i h, laws.low_u128_law (unsigned i) (unsigned-IsWord i h), low)

  -- What has no pattern is not cut off either.
  pub trunc_none :
      (i : I256)
      → to_u256 u i ≡ none
      → (trunc_to_i8 u i ≡ none)
        × (trunc_to_i16 u i ≡ none)
        × (trunc_to_i32 u i ≡ none)
        × (trunc_to_i64 u i ≡ none)
        × (trunc_to_i128 u i ≡ none)
  unfolding trunc_to_i8 trunc_to_i16 trunc_to_i32 trunc_to_i64 trunc_to_i128
  trunc_none i h = (rw h, rw h, rw h, rw h, rw h)
