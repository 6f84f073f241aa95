-- ===== src/Ir/Value/Wrap.antt =====
-- value.rs: addition, subtraction, multiplication and negation wrap at the width of the type.
use native.Mathlib.Nat.{mod-lt}
use sonatina.Base.{ℕ, ◌+◌, ◌-◌, ◌*◌, ◌%◌, ◌≡◌, ap, ap₂, ◌∙◌, some, arith}
use sonatina.Ir.BigInt
use sonatina.Ir.BigInt.{I256}
use sonatina.Ir.BigInt.Arith.{
  overflowing_add_lem, overflowing_sub_lem, overflowing_mul_lem, neg_lem,
}
use sonatina.Ir.BigInt.Canonical.{of_pattern}
use sonatina.Ir.U256.{U256Ops, IsU256, two_256}
use sonatina.Ir.Value.{Immediate, ty, add, sub, mul, neg, value_of}
use sonatina.Ir.Value.Bits.{modulus, bits, IsValid, ty-Integral}
use sonatina.Ir.Value.Apply.{
  Yields, wide, wide-IsWord, wide-mod, apply_binop_lem, apply_unop_lem, mod_modulus, Yields-cast,
  sum_mod, difference_mod, opposite_mod, product_mod, wide-IsCanonical, unsigned-wide,
  wide-mod_other,
}

module _ (u : U256Ops) (laws : IsU256 u) where
  -- Addition succeeds on valid operands of one type, and wraps at the width of that type.
  pub add_wraps :
      (a b : Immediate)
      → IsValid a
      → IsValid b
      → ty b ≡ ty a
      → Yields (add u a b) (ty a) ((bits a + bits b) % modulus (ty a))
  unfolding add
  add_wraps a b ha hb same =
      let val = (wide a + wide b) % two_256 in
      let sum : value_of u (BigInt.overflowing_add u (of_pattern (wide a)) (of_pattern (wide b)))
          ≡ some (of_pattern val) =
        rw (
          overflowing_add_lem u laws (of_pattern (wide a)) (of_pattern (wide b))
              (wide-IsCanonical a ha) (wide-IsCanonical b hb),
          unsigned-wide a ha,
          unsigned-wide b hb,
        ) in
      let bits_eq : val % modulus (ty a) ≡ (bits a + bits b) % modulus (ty a) =
        sum_mod (ty-Integral a) (wide a) (wide b)
        ∙ ap₂ (λ (x y : ℕ). (x + y) % modulus (ty a)) (wide-mod a ha)
            (wide-mod_other a b hb same) in
      Yields-cast _ (ty a) _ _ bits_eq
        (apply_binop_lem u laws a b _ val ha hb same sum (mod-lt (wide a + wide b) (omega arith)))

  -- Subtraction succeeds on valid operands of one type, and wraps at the width of that type.
  pub sub_wraps :
      (a b : Immediate)
      → IsValid a
      → IsValid b
      → ty b ≡ ty a
      → Yields (sub u a b) (ty a) ((bits a + modulus (ty a) - bits b) % modulus (ty a))
  unfolding sub
  sub_wraps a b ha hb same =
      let val = (wide a + two_256 - wide b) % two_256 in
      let diff : value_of u (BigInt.overflowing_sub u (of_pattern (wide a)) (of_pattern (wide b)))
          ≡ some (of_pattern val) =
        rw (
          overflowing_sub_lem u laws (of_pattern (wide a)) (of_pattern (wide b))
              (wide-IsCanonical a ha) (wide-IsCanonical b hb),
          unsigned-wide a ha,
          unsigned-wide b hb,
        ) in
      let bits_eq : val % modulus (ty a) ≡ (bits a + modulus (ty a) - bits b) % modulus (ty a) =
        difference_mod (ty-Integral a) (wide a) (wide b) (wide-IsWord a ha) (wide-IsWord b hb)
        ∙ ap₂ (λ (x y : ℕ). (x + modulus (ty a) - y) % modulus (ty a)) (wide-mod a ha)
            (wide-mod_other a b hb same) in
      Yields-cast _ (ty a) _ _ bits_eq (
        apply_binop_lem u laws a b _ val ha hb same diff
          (mod-lt (wide a + two_256 - wide b) (omega arith)))

  -- Multiplication succeeds on valid operands of one type, and wraps at the width of that type.
  pub mul_wraps :
      (a b : Immediate)
      → IsValid a
      → IsValid b
      → ty b ≡ ty a
      → Yields (mul u a b) (ty a) ((bits a * bits b) % modulus (ty a))
  unfolding mul
  mul_wraps a b ha hb same =
      let val = (wide a * wide b) % two_256 in
      let prod : value_of u (BigInt.overflowing_mul u (of_pattern (wide a)) (of_pattern (wide b)))
          ≡ some (of_pattern val) =
        rw (
          overflowing_mul_lem u laws (of_pattern (wide a)) (of_pattern (wide b))
              (wide-IsCanonical a ha) (wide-IsCanonical b hb),
          unsigned-wide a ha,
          unsigned-wide b hb,
        ) in
      let bits_eq : val % modulus (ty a) ≡ (bits a * bits b) % modulus (ty a) =
        mod_modulus (ty-Integral a) (wide a * wide b)
        ∙ product_mod (wide a) (wide b) (modulus (ty a))
        ∙ ap₂ (λ (x y : ℕ). (x * y) % modulus (ty a)) (wide-mod a ha)
            (wide-mod_other a b hb same) in
      Yields-cast _ (ty a) _ _ bits_eq
        (apply_binop_lem u laws a b _ val ha hb same prod (mod-lt (wide a * wide b) (omega arith)))

  -- Negation succeeds on a valid operand, and wraps at the width of its type.
  pub neg_wraps :
      (a : Immediate)
      → IsValid a
      → Yields (neg u a) (ty a) ((modulus (ty a) - bits a) % modulus (ty a))
  unfolding neg
  neg_wraps a ha =
      let val = (two_256 - wide a) % two_256 in
      let w = wide-IsWord a ha in
      let opposite : BigInt.neg u (of_pattern (wide a)) ≡ some (of_pattern val) =
        rw (neg_lem u laws (of_pattern (wide a)) (wide-IsCanonical a ha), unsigned-wide a ha) in
      let bits_eq : val % modulus (ty a) ≡ (modulus (ty a) - bits a) % modulus (ty a) =
        opposite_mod (ty-Integral a) (wide a) w
        ∙ ap (λ (x : ℕ). (modulus (ty a) - x) % modulus (ty a)) (wide-mod a ha) in
      Yields-cast _ (ty a) _ _ bits_eq
        (apply_unop_lem u laws a _ val ha opposite (mod-lt (two_256 - wide a) (omega arith)))
