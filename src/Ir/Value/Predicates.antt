-- ===== src/Ir/Value/Predicates.antt =====
-- value.rs: the tests on one immediate, the constants of a type, and the conversion to `usize`.
use native.Mathlib.Nat.{mod-eq_of_lt}
use sonatina.Base.{
  ℕ, ◌-◌, ◌/◌, ◌%◌, ◌^◌, ◌<◌, ◌≡◌, ap, ◌∙◌, false, none, some, arith, ltb, ◌==◌, ◌&&◌, not,
  if◌then◌else◌,
}
use sonatina.Ir.BigInt.{to_u256}
use sonatina.Ir.BigInt.Arith.{zero_lem, one_lem, all_one_lem}
use sonatina.Ir.BigInt.Canonical.{of_pattern, of_pattern-IsCanonical, unsigned-of_pattern}
use sonatina.Ir.BigInt.Order.{i256_eq_lem}
use sonatina.Ir.Types.{Ty}
use sonatina.Ir.U256.{U256Ops, IsU256, IsWord, two_256}
use sonatina.Ir.Value
use sonatina.Ir.Value.{Immediate, ty, apply_unop_raw, is_one, as_usize, as_i256, is_negative_imm}
use sonatina.Ir.Value.Apply.{Yields, Yields-cast, modulus-pos, wide, wide-IsWord}
use sonatina.Ir.Value.Bits.{modulus, bits, IsValid, Integral, ty-Integral, bits-lt, extend}
use sonatina.Ir.Value.Casts.{cast_lem}
use sonatina.Ir.Value.Signed.{as_i256_lem}

extend-one :
    {t : Ty} (i : Integral t) (n : ℕ)
    → n < modulus t
    → (extend (modulus t) n == 1) ≡ (n == 1 && not (modulus t == 2))
extend-one Integral.i1 n h = ground arith
extend-one Integral.i8 n h = ground arith
extend-one Integral.i16 n h = ground arith
extend-one Integral.i32 n h = ground arith
extend-one Integral.i64 n h = ground arith
extend-one Integral.i128 n h = ground arith
extend-one Integral.i256 n h = ground arith

ones_mod : {t : Ty} (i : Integral t) → (two_256 - 1) % modulus t ≡ modulus t - 1
ones_mod Integral.i1 = omega arith
ones_mod Integral.i8 = omega arith
ones_mod Integral.i16 = omega arith
ones_mod Integral.i32 = omega arith
ones_mod Integral.i64 = omega arith
ones_mod Integral.i128 = omega arith
ones_mod Integral.i256 = omega arith

positive_wide :
    {t : Ty} (i : Integral t) (n : ℕ)
    → n < modulus t / 2
    → of_pattern (extend (modulus t) n) ≡ record { is_negative = false; abs = n }
unfolding of_pattern
positive_wide Integral.i1 n h = ground arith
positive_wide Integral.i8 n h = ground arith
positive_wide Integral.i16 n h = ground arith
positive_wide Integral.i32 n h = ground arith
positive_wide Integral.i64 n h = ground arith
positive_wide Integral.i128 n h = ground arith
positive_wide Integral.i256 n h = ground arith

half-IsWord : {t : Ty} (i : Integral t) (n : ℕ) → n < modulus t / 2 → IsWord n
half-IsWord Integral.i1 n h = omega arith
half-IsWord Integral.i8 n h = omega arith
half-IsWord Integral.i16 n h = omega arith
half-IsWord Integral.i32 n h = omega arith
half-IsWord Integral.i64 n h = omega arith
half-IsWord Integral.i128 n h = omega arith
half-IsWord Integral.i256 n h = omega arith

module _ (u : U256Ops) (laws : IsU256 u) where
  -- `is_one` tells the valid immediates whose bits are one, except that no Boolean is one: true
  -- stands for -1.
  pub is_one_lem :
      (a : Immediate) → IsValid a → is_one u a ≡ some (bits a == 1 && not (modulus (ty a) == 2))
  unfolding is_one apply_unop_raw
  is_one_lem a h =
      let w = wide-IsWord a h in
      rw (as_i256_lem u laws a h, one_lem u laws)
        (ap some (
          i256_eq_lem (of_pattern (wide a)) (of_pattern 1) (of_pattern-IsCanonical (wide a) w)
            (of_pattern-IsCanonical 1 (omega arith))
          ∙ rw (unsigned-of_pattern (wide a) w, unsigned-of_pattern 1 (omega arith))
              (extend-one (ty-Integral a) (bits a) (bits-lt a h))))

  -- The constants zero, one and all ones of an integral type, as bit patterns.
  pub constants_lem :
      {t : Ty} (i : Integral t)
      → Yields (Value.zero u t) t 0
        × Yields (Value.one u t) t (1 % modulus t)
        × Yields (Value.all_one u t) t (modulus t - 1)
  unfolding Value.zero Value.one Value.all_one
  constants_lem {t} i = (
    Yields-cast _ t _ 0 (mod-eq_of_lt (modulus-pos i))
        (cast_lem u laws i (Value.zero u t) 0 (omega arith) (rw (zero_lem u laws))),
    cast_lem u laws i (Value.one u t) 1 (omega arith) (rw (one_lem u laws)),
    Yields-cast _ t _ (modulus t - 1) (ones_mod i) (
        cast_lem u laws i (Value.all_one u t) (two_256 - 1) (omega arith)
          (rw (all_one_lem u laws))),
  )

  -- `as_usize` of a valid immediate whose sign bit is clear is its number, and panics where no `usize`
  -- holds it.
  pub as_usize_lem :
      (a : Immediate)
      → IsValid a
      → bits a < modulus (ty a) / 2
      → as_usize u a ≡ (if ltb (bits a) (2 ^ 64) then some (bits a) else none)
  unfolding as_usize to_u256 is_negative_imm apply_unop_raw
  as_usize_lem a h positive =
      let e : as_i256 u a ≡ some (record { is_negative = false; abs = bits a }) =
        as_i256_lem u laws a h ∙ ap some (positive_wide (ty-Integral a) (bits a) positive) in
      rw (e, e) (rw (laws.as_usize_law (bits a) (half-IsWord (ty-Integral a) (bits a) positive)))
