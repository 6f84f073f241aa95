-- ===== src/Ir/Value/NegativeZero.antt =====
-- value.rs: signed division of immediates whose quotient truncates to zero from below.
use mathlib.Core.Bool.{xor}
use mathlib.Core.Path.{subst₂}
use sonatina.Base.{ℕ, ◌-◌, ◌/◌, ◌<◌, ◌≡◌, sym, Bool, true, none, some, arith, leb, if◌then◌else◌}
use native.Mathlib.Nat.{div-eq_of_lt}
use sonatina.Ir.BigInt
use sonatina.Ir.BigInt.{I256, overflowing_div}
use sonatina.Ir.BigInt.Canonical.{IsCanonical, of_pattern, to_u256_negative_zero}
use sonatina.Ir.BigInt.Convert.{trunc_none}
use sonatina.Ir.BigInt.Division.{quotient_lem}
use sonatina.Ir.Types.{Ty, ty_eq}
use sonatina.Ir.U256.{U256Ops, IsU256}
use sonatina.Ir.Value.{Immediate, ty, sdiv, apply_binop, apply_binop_raw, from_i256, value_of}
use sonatina.Ir.Value.Apply.{wide, wide-IsCanonical, ty_eq_self}
use sonatina.Ir.Value.Bits.{modulus, bits, IsValid, extend, Integral, ty-Integral, bits-lt}
use sonatina.Ir.Value.Divide.{IsNarrow}
use sonatina.Ir.Value.Signed.{as_i256_lem}

-- The sign and the absolute value of the signed integer with a pattern.
abbrev pub is_negative_at : ℕ → ℕ → Bool
is_negative_at m n = leb (m / 2) n

abbrev pub magnitude : ℕ → ℕ → ℕ
magnitude m n = if leb (m / 2) n then m - n else n

of_pattern-extend :
    {t : Ty} (i : Integral t) (n : ℕ)
    → IsNarrow t
    → n < modulus t
    → of_pattern (extend (modulus t) n)
      ≡ record { is_negative = is_negative_at (modulus t) n; abs = magnitude (modulus t) n }
unfolding of_pattern
of_pattern-extend Integral.i1 n w l = absurd w
of_pattern-extend Integral.i8 n w l = ground arith
of_pattern-extend Integral.i16 n w l = ground arith
of_pattern-extend Integral.i32 n w l = ground arith
of_pattern-extend Integral.i64 n w l = ground arith
of_pattern-extend Integral.i128 n w l = ground arith
of_pattern-extend Integral.i256 n w l = absurd w

module _ (u : U256Ops) (laws : IsU256 u) where
  from_i256_negative_zero :
      {t : Ty} (i : Integral t)
      → IsNarrow t
      → from_i256 u (record { is_negative = true; abs = 0 }) t ≡ none
  unfolding from_i256
  from_i256_negative_zero {t} i w =
      let z =
        trunc_none u laws (record { is_negative = true; abs = 0 }) (to_u256_negative_zero u laws) in
      cases i w z
    where
      zero' : I256
      zero' = record { is_negative = true; abs = 0 }

      cases :
          {t : Ty} (i : Integral t)
          → IsNarrow t
          → (BigInt.trunc_to_i8 u zero' ≡ none)
            × (BigInt.trunc_to_i16 u zero' ≡ none)
            × (BigInt.trunc_to_i32 u zero' ≡ none)
            × (BigInt.trunc_to_i64 u zero' ≡ none)
            × (BigInt.trunc_to_i128 u zero' ≡ none)
          → from_i256 u zero' t ≡ none
      cases Integral.i1 w z = absurd w
      cases Integral.i8 w z = rw z.0
      cases Integral.i16 w z = rw z.1
      cases Integral.i32 w z = rw z.2
      cases Integral.i64 w z = rw z.3
      cases Integral.i128 w z = rw z.4
      cases Integral.i256 w z = absurd w

  quotient_zero :
      (a b : I256)
      → IsCanonical a
      → IsCanonical b
      → a.abs < b.abs
      → xor a.is_negative b.is_negative ≡ true
      → value_of u (overflowing_div u a b) ≡ some (record { is_negative = true; abs = 0 })
  quotient_zero a b ha hb small signs =
      let nothing : a.abs / b.abs ≡ 0 = div-eq_of_lt small in
      rw (quotient_lem u laws a b ha hb (omega arith) (omega arith), nothing, signs)

  -- Signed division of two valid immediates of one type of 8 to 128 bits panics where the operands
  -- have different signs and the dividend is smaller in absolute value, so that the quotient should
  -- be zero.
  pub sdiv_small_panics :
      (a b : Immediate)
      → IsValid a
      → IsValid b
      → ty b ≡ ty a
      → IsNarrow (ty a)
      → magnitude (modulus (ty a)) (bits a) < magnitude (modulus (ty a)) (bits b)
      → xor (is_negative_at (modulus (ty a)) (bits a)) (is_negative_at (modulus (ty a)) (bits b))
        ≡ true
      → sdiv u a b ≡ none
  unfolding sdiv apply_binop apply_binop_raw
  sdiv_small_panics a b ha hb same_ty narrow small signs =
      let typed : ty_eq (ty a) (ty b) ≡ true = rw same_ty (ty_eq_self (ty a)) in
      let ea = of_pattern-extend (ty-Integral a) (bits a) narrow (bits-lt a ha) in
      let eb : of_pattern (wide b) ≡ record {
        is_negative = is_negative_at (modulus (ty a)) (bits b);
        abs = magnitude (modulus (ty a)) (bits b);
      } =
        rw same_ty
          (of_pattern-extend (ty-Integral a) (bits b) narrow (rw same_ty at (bits-lt b hb))) in
      let ca = wide-IsCanonical a ha in
      let cb = wide-IsCanonical b hb in
      let zero : value_of u (overflowing_div u (of_pattern (wide a)) (of_pattern (wide b)))
          ≡ some (record { is_negative = true; abs = 0 }) =
        quotient_zero (of_pattern (wide a)) (of_pattern (wide b)) ca cb
          (subst₂ (λ (x y : I256). x.abs < y.abs) (sym ea) (sym eb) small)
          (subst₂ (λ (x y : I256). xor x.is_negative y.is_negative ≡ true) (sym ea) (sym eb)
            signs) in
      rw (typed, as_i256_lem u laws a ha, as_i256_lem u laws b hb, zero)
        (from_i256_negative_zero (ty-Integral a) narrow)
