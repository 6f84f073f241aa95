-- ===== src/Ir/Value/Examples.antt =====
-- Small runs of the immediates of crates/ir/src/value.rs.
use mathlib.Core.Bool.{xor}
use sonatina.Base.{ℕ, ◌≡◌, ◌↔◌, refl, true, false, none, some, arith, ◌>>=◌}
use sonatina.Ir.Types.{Ty, ty_le, ty_eq}
use sonatina.Ir.U256.Native.{native, native-IsU256}
use sonatina.Ir.Value
use sonatina.Ir.Value.{
  Immediate, neg, sext, zext, trunc, udiv, sdiv, urem, srem, shr, shl, lt_imm, gt_imm, le, ge, slt,
  sgt, sle, sge, ty, imm_eq, imm_ne, is_one, is_two, is_all_one, is_power_of_two, as_usize, bitand,
  bitor, bitxor, complement, same, as_i256, from_i256, apply_binop, apply_binop_raw, apply_unop,
  apply_unop_raw, unsigned_i256,
}
use sonatina.Ir.Value.Apply.{Yields}
use sonatina.Ir.Value.Bits.{Integral}
use sonatina.Ir.Value.Casts.{zext-sext_extends, trunc-extend}
use sonatina.Ir.Value.Compare.{comparisons_order}
use sonatina.Ir.Value.Divide.{udiv-shr_extend}
use sonatina.Ir.Value.Errors.{type_mismatch_panics}
use sonatina.Ir.Value.NegativeZero.{sdiv_small_panics}

abbrev byte : ℕ → Immediate
byte = Immediate.i8

trunc-extend_example :
    ((zext native (byte 200) Ty.i16 >>= λ r. trunc native r Ty.i8) ≡ some (byte 200))
    × ((sext native (byte 200) Ty.i16 >>= λ r. trunc native r Ty.i8) ≡ some (byte 200))
unfolding ty ty_le
trunc-extend_example = trunc-extend native native-IsU256 (byte 200) Integral.i16 (omega arith) refl

sdiv_small_panics_example : sdiv native (byte 255) (byte 2) ≡ none
unfolding ty xor
sdiv_small_panics_example =
    sdiv_small_panics native native-IsU256 (byte 255) (byte 2) (omega arith) (omega arith) refl tt
      (omega arith) refl

imm_eq_test : imm_eq (byte 1) (Immediate.i16 1) ≡ none
unfolding imm_eq ty ty_eq
imm_eq_test = refl

imm_ne_test : imm_ne (byte 1) (byte 2) ≡ some (Immediate.i1 true)
unfolding imm_ne ty ty_eq same
imm_ne_test = refl

type_mismatch_panics_example :
    ((Value.add native (byte 1) (Immediate.i16 1) ≡ none) ↔ (false ≡ false))
    × ((Value.sub native (byte 1) (Immediate.i16 1) ≡ none) ↔ (false ≡ false))
    × ((Value.mul native (byte 1) (Immediate.i16 1) ≡ none) ↔ (false ≡ false))
    × ((Value.lt_imm native (byte 1) (Immediate.i16 1) ≡ none) ↔ (false ≡ false))
    × ((Value.gt_imm native (byte 1) (Immediate.i16 1) ≡ none) ↔ (false ≡ false))
    × ((Value.le native (byte 1) (Immediate.i16 1) ≡ none) ↔ (false ≡ false))
    × ((Value.ge native (byte 1) (Immediate.i16 1) ≡ none) ↔ (false ≡ false))
    × ((Value.slt native (byte 1) (Immediate.i16 1) ≡ none) ↔ (false ≡ false))
    × ((Value.sgt native (byte 1) (Immediate.i16 1) ≡ none) ↔ (false ≡ false))
    × ((Value.sle native (byte 1) (Immediate.i16 1) ≡ none) ↔ (false ≡ false))
    × ((Value.sge native (byte 1) (Immediate.i16 1) ≡ none) ↔ (false ≡ false))
    × ((Value.imm_eq (byte 1) (Immediate.i16 1) ≡ none) ↔ (false ≡ false))
    × ((Value.imm_ne (byte 1) (Immediate.i16 1) ≡ none) ↔ (false ≡ false))
unfolding ty ty_eq
type_mismatch_panics_example =
    type_mismatch_panics native native-IsU256 (byte 1) (Immediate.i16 1) (omega arith) (omega arith)

comparisons_order_example :
    (lt_imm native (byte 200) (byte 100) ≡ some (Immediate.i1 false))
    × (gt_imm native (byte 200) (byte 100) ≡ some (Immediate.i1 true))
    × (le native (byte 200) (byte 100) ≡ some (Immediate.i1 false))
    × (ge native (byte 200) (byte 100) ≡ some (Immediate.i1 true))
    × (slt native (byte 200) (byte 100) ≡ some (Immediate.i1 true))
    × (sgt native (byte 200) (byte 100) ≡ some (Immediate.i1 false))
    × (sle native (byte 200) (byte 100) ≡ some (Immediate.i1 true))
    × (sge native (byte 200) (byte 100) ≡ some (Immediate.i1 false))
unfolding ty
comparisons_order_example =
    comparisons_order native native-IsU256 (byte 200) (byte 100) (omega arith) (omega arith) refl

zext-sext_extends_example :
    Yields (zext native (byte 200) Ty.i16) Ty.i16 200
    × Yields (sext native (byte 200) Ty.i16) Ty.i16 65480
unfolding ty ty_le
zext-sext_extends_example =
    zext-sext_extends native native-IsU256 (byte 200) Integral.i16 (omega arith) refl

udiv-shr_extend_example :
    Yields (udiv native (byte 200) (byte 2)) Ty.i8 228
    × Yields (shr native (byte 200) (byte 1)) Ty.i8 228
unfolding ty
udiv-shr_extend_example =
    udiv-shr_extend native native-IsU256 (byte 200) (byte 2) (byte 1) (omega arith) (omega arith)
      (omega arith) refl refl tt (omega arith) refl refl
