-- ===== src/Ir/Value/Signed.antt =====
-- value.rs: `as_i256` extends the sign of an immediate, and `from_i256` cuts a pattern off.
use sonatina.Base.{ℕ, ◌%◌, ◌≡◌, refl, sym, ap, true, false, some, arith}
use sonatina.Ir.BigInt.Convert.{
  from_bool_lem, from_signed_lem, trunc_to_i1_lem, trunc_to_i8_lem, trunc_to_i16_lem,
  trunc_to_i32_lem, trunc_to_i64_lem, trunc_to_i128_lem,
}
use sonatina.Ir.BigInt.Canonical.{
  unsigned, of_pattern, of_pattern-unsigned, unsigned-IsWord, of_pattern-IsCanonical,
  unsigned-of_pattern,
}
use sonatina.Ir.Types.{Ty}
use sonatina.Ir.U256.{U256Ops, IsU256, IsWord, two_256}
use sonatina.Ir.Value.{Immediate, ty, as_i256, from_i256}
use sonatina.Ir.Value.Bits.{modulus, bits, IsValid, extend, immediate, Integral}

module _ (u : U256Ops) (laws : IsU256 u) where
  -- Conversion to 256 bits extends the sign.
  pub as_i256_lem :
      (imm : Immediate)
      → IsValid imm
      → as_i256 u imm ≡ some (of_pattern (extend (modulus (ty imm)) (bits imm)))
  unfolding as_i256 ty
  as_i256_lem (Immediate.i1 true) h = from_bool_lem u laws true
  as_i256_lem (Immediate.i1 false) h = from_bool_lem u laws false
  as_i256_lem (Immediate.i8 n) h =
      ap some
        (from_signed_lem u 8 n (laws.shl_law 1 7 (omega arith) (omega arith)) refl (omega arith) h)
  as_i256_lem (Immediate.i16 n) h =
      ap some (
        from_signed_lem u 16 n (laws.shl_law 1 15 (omega arith) (omega arith)) refl (omega arith) h)
  as_i256_lem (Immediate.i32 n) h =
      ap some (
        from_signed_lem u 32 n (laws.shl_law 1 31 (omega arith) (omega arith)) refl (omega arith) h)
  as_i256_lem (Immediate.i64 n) h =
      ap some (
        from_signed_lem u 64 n (laws.shl_law 1 63 (omega arith) (omega arith)) refl (omega arith) h)
  as_i256_lem (Immediate.i128 n) h = ap some (
      from_signed_lem u 128 n (laws.shl_law 1 127 (omega arith) (omega arith)) refl (omega arith) h)
  as_i256_lem (Immediate.i256 i) h =
      let same : extend two_256 (unsigned i) ≡ unsigned i =
        let w = unsigned-IsWord i h in ground arith in
      rw same (ap some (sym (of_pattern-unsigned i h)))

  -- Conversion from 256 bits keeps the low bits.
  pub from_i256_lem :
      {t : Ty} (i : Integral t) (val : ℕ)
      → IsWord val
      → from_i256 u (of_pattern val) t ≡ some (immediate t (val % modulus t))
  unfolding from_i256
  from_i256_lem Integral.i1 val h =
      let c = of_pattern-IsCanonical val h in
      rw (trunc_to_i1_lem u laws (of_pattern val) c, unsigned-of_pattern val h)
  from_i256_lem Integral.i8 val h =
      let c = of_pattern-IsCanonical val h in
      rw (trunc_to_i8_lem u laws (of_pattern val) c, unsigned-of_pattern val h)
  from_i256_lem Integral.i16 val h =
      let c = of_pattern-IsCanonical val h in
      rw (trunc_to_i16_lem u laws (of_pattern val) c, unsigned-of_pattern val h)
  from_i256_lem Integral.i32 val h =
      let c = of_pattern-IsCanonical val h in
      rw (trunc_to_i32_lem u laws (of_pattern val) c, unsigned-of_pattern val h)
  from_i256_lem Integral.i64 val h =
      let c = of_pattern-IsCanonical val h in
      rw (trunc_to_i64_lem u laws (of_pattern val) c, unsigned-of_pattern val h)
  from_i256_lem Integral.i128 val h =
      let c = of_pattern-IsCanonical val h in
      rw (trunc_to_i128_lem u laws (of_pattern val) c, unsigned-of_pattern val h)
  from_i256_lem Integral.i256 val h = let same : val % two_256 ≡ val = omega arith in rw same
