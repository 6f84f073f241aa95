-- ===== src/Ir/BigInt/Arith.antt =====
-- bigint.rs: the arithmetic and the shifts of `I256`, on two's complement patterns.
use sonatina.Base.{
  ℕ, ◌+◌, ◌-◌, ◌*◌, ◌/◌, ◌%◌, ◌^◌, ◌≤◌, ◌≡◌, inl, inr, Bool, some, arith, ltb, leb, Bool-cases,
  if◌then◌else◌,
}
use native.Mathlib.Nat.{div-le_self}
use sonatina.Ir.U256.{U256Ops, IsU256, IsWord, two_256}
use sonatina.Ir.BigInt.{
  I256, overflowing_add, overflowing_sub, overflowing_mul, zero, one, all_one, complement, neg, shl,
  shr, with_flag,
}
use sonatina.Ir.BigInt.Canonical.{
  IsCanonical, unsigned, of_pattern, of_pattern-IsCanonical, unsigned-IsWord, unsigned-of_pattern,
  from_u256_lem, to_u256_lem,
}

module _ (u : U256Ops) (laws : IsU256 u) where
  with_flag_lem : (v : ℕ) (f : Bool) → IsWord v → with_flag u (v, f) ≡ some (of_pattern v, f)
  unfolding with_flag
  with_flag_lem v f h = rw (from_u256_lem u laws v h)

  -- Addition of signed integers is addition of their patterns modulo 2^256; the flag is the carry of
  -- the unsigned addition.
  pub overflowing_add_lem :
      (a b : I256)
      → IsCanonical a
      → IsCanonical b
      → overflowing_add u a b
        ≡ some (
          of_pattern ((unsigned a + unsigned b) % two_256),
          leb two_256 (unsigned a + unsigned b),
        )
  unfolding overflowing_add
  overflowing_add_lem a b ha hb =
      let wa = unsigned-IsWord a ha in
      let wb = unsigned-IsWord b hb in
      rw
        (
          to_u256_lem u laws a ha,
          to_u256_lem u laws b hb,
          laws.overflowing_add_law (unsigned a) (unsigned b) wa wb,
        )
        (with_flag_lem ((unsigned a + unsigned b) % two_256) _ (omega arith))

  pub overflowing_sub_lem :
      (a b : I256)
      → IsCanonical a
      → IsCanonical b
      → overflowing_sub u a b
        ≡ some (
          of_pattern ((unsigned a + two_256 - unsigned b) % two_256),
          ltb (unsigned a) (unsigned b),
        )
  unfolding overflowing_sub
  overflowing_sub_lem a b ha hb =
      let wa = unsigned-IsWord a ha in
      let wb = unsigned-IsWord b hb in
      rw
        (
          to_u256_lem u laws a ha,
          to_u256_lem u laws b hb,
          laws.overflowing_sub_law (unsigned a) (unsigned b) wa wb,
        )
        (with_flag_lem ((unsigned a + two_256 - unsigned b) % two_256) _ (omega arith))

  pub overflowing_mul_lem :
      (a b : I256)
      → IsCanonical a
      → IsCanonical b
      → overflowing_mul u a b
        ≡ some (
          of_pattern ((unsigned a * unsigned b) % two_256),
          leb two_256 (unsigned a * unsigned b),
        )
  unfolding overflowing_mul
  overflowing_mul_lem a b ha hb =
      let wa = unsigned-IsWord a ha in
      let wb = unsigned-IsWord b hb in
      rw
        (
          to_u256_lem u laws a ha,
          to_u256_lem u laws b hb,
          laws.overflowing_mul_law (unsigned a) (unsigned b) wa wb,
        )
        (with_flag_lem ((unsigned a * unsigned b) % two_256) _ (omega arith))

  pub zero_lem : zero u ≡ some (of_pattern 0)
  unfolding zero
  zero_lem = from_u256_lem u laws 0 (omega arith)

  pub one_lem : one u ≡ some (of_pattern 1)
  unfolding one
  one_lem = from_u256_lem u laws 1 (omega arith)

  pub all_one_lem : all_one u ≡ some (of_pattern (two_256 - 1))
  unfolding all_one
  all_one_lem =
      let h0 = of_pattern-IsCanonical 0 (omega arith) in
      let h1 = of_pattern-IsCanonical 1 (omega arith) in
      let diff = overflowing_sub_lem (of_pattern 0) (of_pattern 1) h0 h1 in
      rw (
        from_u256_lem u laws 0 (omega arith),
        from_u256_lem u laws 1 (omega arith),
        diff,
        unsigned-of_pattern 0 (omega arith),
        unsigned-of_pattern 1 (omega arith),
      )

  pub complement_lem :
      (a : I256) → IsCanonical a → complement u a ≡ some (of_pattern (two_256 - 1 - unsigned a))
  unfolding complement
  complement_lem a ha =
      let wa = unsigned-IsWord a ha in
      rw (to_u256_lem u laws a ha, laws.complement_law (unsigned a) wa)
        (from_u256_lem u laws (two_256 - 1 - unsigned a) (omega arith))

  -- Negation, written as complement plus one, is negation modulo 2^256.
  pub neg_lem :
      (a : I256) → IsCanonical a → neg u a ≡ some (of_pattern ((two_256 - unsigned a) % two_256))
  unfolding neg
  neg_lem a ha =
      let wa = unsigned-IsWord a ha in
      let flipped = two_256 - 1 - unsigned a in
      let hf : IsWord flipped = omega arith in
      let cf = of_pattern-IsCanonical flipped hf in
      let c1 = of_pattern-IsCanonical 1 (omega arith) in
      let sum : flipped + 1 ≡ two_256 - unsigned a = omega arith in
      rw (
        complement_lem a ha,
        one_lem,
        overflowing_add_lem (of_pattern flipped) (of_pattern 1) cf c1,
        unsigned-of_pattern flipped hf,
        unsigned-of_pattern 1 (omega arith),
        sum,
      )

  -- In range, a left shift by the pattern of the second operand: zero from 256 on.
  pub shl_lem :
      (a b : I256)
      → IsCanonical a
      → IsCanonical b
      → shl u a b
        ≡ some (
            of_pattern
              (if leb 256 (unsigned b) then 0 else (unsigned a * 2 ^ unsigned b) % two_256))
  unfolding shl
  shl_lem a b ha hb =
      let wa = unsigned-IsWord a ha in
      rw (to_u256_lem u laws b hb) (elim (Bool-cases (leb 256 (unsigned b))) [
        | inl far ↦ rw far (from_u256_lem u laws 0 (omega arith))
        | inr near ↦
            rw
              (
                near,
                to_u256_lem u laws a ha,
                laws.shl_law (unsigned a) (unsigned b) wa (ground arith),
              )
              (from_u256_lem u laws ((unsigned a * 2 ^ unsigned b) % two_256) (omega arith))
      ])

  -- In range, a right shift by the pattern of the second operand brings in zeros; it is zero from 256 on.
  pub shr_lem :
      (a b : I256)
      → IsCanonical a
      → IsCanonical b
      → shr u a b
        ≡ some (of_pattern (if leb 256 (unsigned b) then 0 else unsigned a / 2 ^ unsigned b))
  unfolding shr
  shr_lem a b ha hb =
      let wa = unsigned-IsWord a ha in
      rw (to_u256_lem u laws b hb) (elim (Bool-cases (leb 256 (unsigned b))) [
        | inl far ↦ rw far (from_u256_lem u laws 0 (omega arith))
        | inr near ↦
            let le : unsigned a / 2 ^ unsigned b ≤ unsigned a =
              div-le_self (unsigned a) (2 ^ unsigned b) in
            rw
              (
                near,
                to_u256_lem u laws a ha,
                laws.shr_law (unsigned a) (unsigned b) wa (ground arith),
              )
              (from_u256_lem u laws (unsigned a / 2 ^ unsigned b) (omega arith))
      ])

  -- In range, the shifts by the pattern of the second operand multiply and divide the first one's
  -- pattern by a power of two; both are zero from 256 on.
  pub shl-shr_shift :
      (a b : I256)
      → IsCanonical a
      → IsCanonical b
      → (shl u a b
          ≡ some (
              of_pattern
                (if leb 256 (unsigned b) then 0 else (unsigned a * 2 ^ unsigned b) % two_256)))
        × (shr u a b
            ≡ some (of_pattern (if leb 256 (unsigned b) then 0 else unsigned a / 2 ^ unsigned b)))
  shl-shr_shift a b ha hb = (shl_lem a b ha hb, shr_lem a b ha hb)
