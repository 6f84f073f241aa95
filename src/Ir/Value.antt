-- ===== src/Ir/Value.antt =====
-- crates/ir/src/value.rs: `Immediate` and its operations. A panic is `none`, that of a debug
-- assertion included.
pub mod Signed
pub mod Bits
pub mod Apply
pub mod Wrap
pub mod Compare
pub mod Divide
pub mod NegativeZero
pub mod Casts
pub mod Errors
pub mod Predicates
mod Examples
use Prim.Native.Nat.{Ordering}
use Prim.Native.Nat.Ordering.{lt, eq, gt}
use sonatina.Base.{
  ℕ, Bool, true, false, not, ◌&&◌, Option, none, some, ltb, leb, ◌==◌, if◌then◌else◌, ◌>>=◌, ◌>>◌,
  assert,
}
use sonatina.Ir.BigInt
use sonatina.Ir.BigInt.{
  I256, from_signed, from_unsigned, from_bool, i256_eq, to_u256, from_u256, is_zero, is_positive,
}
use sonatina.Ir.Types.{Ty, ty_eq, ty_le, ty_ge}
use sonatina.Ir.U256.{U256Ops}

-- A machine integer is given by its bit pattern, a number below two to its width.
pub data Immediate : Type 0 where
  i1 : Bool → Immediate
  i8 i16 i32 i64 i128 : ℕ → Immediate
  i256 : I256 → Immediate

unfoldable pub ty : Immediate → Ty
ty (Immediate.i1 _) = Ty.i1
ty (Immediate.i8 _) = Ty.i8
ty (Immediate.i16 _) = Ty.i16
ty (Immediate.i32 _) = Ty.i32
ty (Immediate.i64 _) = Ty.i64
ty (Immediate.i128 _) = Ty.i128
ty (Immediate.i256 _) = Ty.i256

bool_to_u8 : Bool → ℕ
bool_to_u8 true = 1
bool_to_u8 false = 0

bool_eq : Bool → Bool → Bool
bool_eq true b = b
bool_eq false b = not b

-- The derived `PartialEq`.
unfoldable pub same : Immediate → Immediate → Bool
unfolding bool_eq
same (Immediate.i1 a) (Immediate.i1 b) = bool_eq a b
same (Immediate.i8 a) (Immediate.i8 b) = a == b
same (Immediate.i16 a) (Immediate.i16 b) = a == b
same (Immediate.i32 a) (Immediate.i32 b) = a == b
same (Immediate.i64 a) (Immediate.i64 b) = a == b
same (Immediate.i128 a) (Immediate.i128 b) = a == b
same (Immediate.i256 a) (Immediate.i256 b) = i256_eq a b
same _ _ = false

abbrev is_lt : Ordering → Bool
is_lt lt = true
is_lt _ = false

abbrev is_gt : Ordering → Bool
is_gt gt = true
is_gt _ = false

-- The integer of the pattern without its sign.
unsigned_i256 : Immediate → I256
unfolding bool_to_u8
unsigned_i256 (Immediate.i1 val) = from_unsigned (bool_to_u8 val)
unsigned_i256 (Immediate.i8 val) = from_unsigned val
unsigned_i256 (Immediate.i16 val) = from_unsigned val
unsigned_i256 (Immediate.i32 val) = from_unsigned val
unsigned_i256 (Immediate.i64 val) = from_unsigned val
unsigned_i256 (Immediate.i128 val) = from_unsigned val
unsigned_i256 (Immediate.i256 val) = val

pub imm_eq : Immediate → Immediate → Option Immediate
imm_eq imm rhs = do assert (ty_eq (ty imm) (ty rhs)); some (Immediate.i1 (same imm rhs))

pub imm_ne : Immediate → Immediate → Option Immediate
imm_ne imm rhs = do assert (ty_eq (ty imm) (ty rhs)); some (Immediate.i1 (not (same imm rhs)))

module _ (u : U256Ops) where
  pub as_i256 : Immediate → Option I256
  as_i256 (Immediate.i1 val) = from_bool u val
  as_i256 (Immediate.i8 val) = some (from_signed u 8 val)
  as_i256 (Immediate.i16 val) = some (from_signed u 16 val)
  as_i256 (Immediate.i32 val) = some (from_signed u 32 val)
  as_i256 (Immediate.i64 val) = some (from_signed u 64 val)
  as_i256 (Immediate.i128 val) = some (from_signed u 128 val)
  as_i256 (Immediate.i256 val) = some val

  pub from_i256 : I256 → Ty → Option Immediate
  from_i256 val Ty.i1 = do v ← BigInt.trunc_to_i1 u val; some (Immediate.i1 v)
  from_i256 val Ty.i8 = do v ← BigInt.trunc_to_i8 u val; some (Immediate.i8 v)
  from_i256 val Ty.i16 = do v ← BigInt.trunc_to_i16 u val; some (Immediate.i16 v)
  from_i256 val Ty.i32 = do v ← BigInt.trunc_to_i32 u val; some (Immediate.i32 v)
  from_i256 val Ty.i64 = do v ← BigInt.trunc_to_i64 u val; some (Immediate.i64 v)
  from_i256 val Ty.i128 = do v ← BigInt.trunc_to_i128 u val; some (Immediate.i128 v)
  from_i256 val Ty.i256 = some (Immediate.i256 val)
  from_i256 val _ = none

  pub apply_binop_raw {ℓ} :
      {R : Type ℓ} → Immediate → Immediate → (I256 → I256 → Option R) → Option R
  apply_binop_raw imm rhs f = do
    assert (ty_eq (ty imm) (ty rhs))
    l ← as_i256 imm
    r ← as_i256 rhs
    f l r

  pub apply_binop : Immediate → Immediate → (I256 → I256 → Option I256) → Option Immediate
  apply_binop imm rhs f = do
    assert (ty_eq (ty imm) (ty rhs))
    res ← apply_binop_raw imm rhs f
    from_i256 res (ty imm)

  pub apply_unop_raw {ℓ} : {R : Type ℓ} → Immediate → (I256 → Option R) → Option R
  apply_unop_raw imm f = do l ← as_i256 imm; f l

  pub apply_unop : Immediate → (I256 → Option I256) → Option Immediate
  apply_unop imm f = do res ← apply_unop_raw imm f; from_i256 res (ty imm)

  -- `.0` of an overflowing operation.
  abbrev value_of : Option (I256 × Bool) → Option I256
  value_of none = none
  value_of (some r) = some r.0

  pub add : Immediate → Immediate → Option Immediate
  add imm rhs = apply_binop imm rhs (λ l r. value_of (BigInt.overflowing_add u l r))

  pub sub : Immediate → Immediate → Option Immediate
  sub imm rhs = apply_binop imm rhs (λ l r. value_of (BigInt.overflowing_sub u l r))

  pub mul : Immediate → Immediate → Option Immediate
  mul imm rhs = apply_binop imm rhs (λ l r. value_of (BigInt.overflowing_mul u l r))

  unsigned_quotient : I256 → I256 → Option I256
  unsigned_quotient l r = do a ← to_u256 u l; b ← to_u256 u r; q ← u.div a b; from_u256 u q

  unsigned_remainder : I256 → I256 → Option I256
  unsigned_remainder l r = do a ← to_u256 u l; b ← to_u256 u r; q ← u.rem a b; from_u256 u q

  pub udiv : Immediate → Immediate → Option Immediate
  udiv imm rhs = apply_binop imm rhs unsigned_quotient

  pub sdiv : Immediate → Immediate → Option Immediate
  sdiv imm rhs = apply_binop imm rhs (λ l r. value_of (BigInt.overflowing_div u l r))

  pub urem : Immediate → Immediate → Option Immediate
  urem imm rhs = apply_binop imm rhs unsigned_remainder

  pub srem : Immediate → Immediate → Option Immediate
  srem imm rhs = apply_binop imm rhs (λ l r. value_of (BigInt.overflowing_rem u l r))

  -- The comparisons: a test on the order of two words, or of two signed integers.
  unsigned_test : (Ordering → Bool) → I256 → I256 → Option Immediate
  unsigned_test test l r = do
    a ← to_u256 u l
    b ← to_u256 u r
    some (Immediate.i1 (test (u.cmp a b)))

  signed_test : (Ordering → Bool) → I256 → I256 → Option Immediate
  signed_test test l r = some (Immediate.i1 (test (BigInt.cmp u l r)))

  pub lt_imm : Immediate → Immediate → Option Immediate
  lt_imm imm rhs = apply_binop_raw imm rhs (unsigned_test is_lt)

  pub gt_imm : Immediate → Immediate → Option Immediate
  gt_imm imm rhs = apply_binop_raw imm rhs (unsigned_test is_gt)

  pub slt : Immediate → Immediate → Option Immediate
  slt imm rhs = apply_binop_raw imm rhs (signed_test is_lt)

  pub sgt : Immediate → Immediate → Option Immediate
  sgt imm rhs = apply_binop_raw imm rhs (signed_test is_gt)

  pub le : Immediate → Immediate → Option Immediate
  le imm rhs = apply_binop_raw imm rhs (unsigned_test (λ o. not (is_gt o)))

  pub ge : Immediate → Immediate → Option Immediate
  ge imm rhs = apply_binop_raw imm rhs (unsigned_test (λ o. not (is_lt o)))

  pub sle : Immediate → Immediate → Option Immediate
  sle imm rhs = apply_binop_raw imm rhs (signed_test (λ o. not (is_gt o)))

  pub sge : Immediate → Immediate → Option Immediate
  sge imm rhs = apply_binop_raw imm rhs (signed_test (λ o. not (is_lt o)))

  pub sext : Immediate → Ty → Option Immediate
  sext imm to = do assert (ty_le (ty imm) to); val ← as_i256 imm; from_i256 val to

  pub zext : Immediate → Ty → Option Immediate
  zext imm to = do assert (ty_le (ty imm) to); from_i256 (unsigned_i256 imm) to

  pub trunc : Immediate → Ty → Option Immediate
  trunc imm to = do assert (ty_ge (ty imm) to); val ← as_i256 imm; from_i256 val to

  pub zero : Ty → Option Immediate
  zero to = do val ← BigInt.zero u; from_i256 val to

  pub one : Ty → Option Immediate
  one to = do val ← BigInt.one u; from_i256 val to

  pub all_one : Ty → Option Immediate
  all_one to = do val ← BigInt.all_one u; from_i256 val to

  pub is_zero_imm : Immediate → Option Bool
  is_zero_imm imm = apply_unop_raw imm (λ val. some (is_zero val))

  pub is_one : Immediate → Option Bool
  is_one imm = apply_unop_raw imm (λ val. do o ← BigInt.one u; some (i256_eq val o))

  pub is_positive_imm : Immediate → Option Bool
  is_positive_imm imm = apply_unop_raw imm (λ val. some (is_positive val))

  pub is_negative_imm : Immediate → Option Bool
  is_negative_imm imm = apply_unop_raw imm (λ val. some val.is_negative)

  pub is_all_one : Immediate → Option Bool
  is_all_one imm = do all ← all_one (ty imm); some (same imm all)

  pub is_two : Immediate → Option Bool
  is_two imm = apply_unop_raw imm (λ val. do
    o ← BigInt.one u
    p ← BigInt.one u
    two ← value_of (BigInt.overflowing_add u o p)
    some (i256_eq val two))

  pub bitand : Immediate → Immediate → Option Immediate
  bitand imm rhs = apply_binop imm rhs (BigInt.bitand u)

  pub bitxor : Immediate → Immediate → Option Immediate
  bitxor imm rhs = apply_binop imm rhs (BigInt.bitxor u)

  pub bitor : Immediate → Immediate → Option Immediate
  bitor imm rhs = apply_binop imm rhs (BigInt.bitor u)

  pub complement : Immediate → Option Immediate
  complement imm = apply_unop imm (BigInt.complement u)

  pub neg : Immediate → Option Immediate
  neg imm = apply_unop imm (BigInt.neg u)

  pub shl : Immediate → Immediate → Option Immediate
  shl imm rhs = apply_binop imm rhs (BigInt.shl u)

  pub shr : Immediate → Immediate → Option Immediate
  shr imm rhs = apply_binop imm rhs (BigInt.shr u)

  pub is_power_of_two : Immediate → Option Bool
  is_power_of_two imm = do
    o ← one (ty imm)
    pred ← sub imm o
    both ← bitand imm pred
    is_zero_imm both

  pub as_usize : Immediate → Option ℕ
  as_usize imm = do
    negative ← is_negative_imm imm
    val ← if negative then neg imm else some imm
    i ← as_i256 val
    n ← to_u256 u i
    u.as_usize n
