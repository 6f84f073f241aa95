-- ===== src/Ir/Types.antt =====
-- crates/ir/src/types.rs: the type of a value, its equality and its partial order.
use Prim.Native.Nat.{Ordering}
use Prim.Native.Nat.Ordering.{lt, eq, gt}
use sonatina.Base.{ℕ, Bool, true, false, not, ◌||◌, Option, none, some, ◌==◌, if◌then◌else◌}

-- `Type`; a compound type is named by the number of its `CompoundTypeRef`.
pub data Ty : Type 0 where
  i1 i8 i16 i32 i64 i128 i256 : Ty
  compound : ℕ → Ty
  unit : Ty

unfoldable pub is_integral : Ty → Bool
is_integral (Ty.compound r) = false
is_integral Ty.unit = false
is_integral _ = true

-- The derived `PartialEq`.
unfoldable pub ty_eq : Ty → Ty → Bool
ty_eq Ty.i1 Ty.i1 = true
ty_eq Ty.i8 Ty.i8 = true
ty_eq Ty.i16 Ty.i16 = true
ty_eq Ty.i32 Ty.i32 = true
ty_eq Ty.i64 Ty.i64 = true
ty_eq Ty.i128 Ty.i128 = true
ty_eq Ty.i256 Ty.i256 = true
ty_eq Ty.unit Ty.unit = true
ty_eq (Ty.compound r) (Ty.compound s) = r == s
ty_eq _ _ = false

-- The `match` of `partial_cmp`, for two integral types that differ; `none` is `unreachable!`.
compare_integral : Ty → Ty → Option Ordering
compare_integral Ty.i1 _ = some lt
compare_integral Ty.i8 Ty.i1 = some gt
compare_integral Ty.i8 _ = some lt
compare_integral Ty.i16 Ty.i1 = some gt
compare_integral Ty.i16 Ty.i8 = some gt
compare_integral Ty.i16 _ = some lt
compare_integral Ty.i32 Ty.i1 = some gt
compare_integral Ty.i32 Ty.i8 = some gt
compare_integral Ty.i32 Ty.i16 = some gt
compare_integral Ty.i32 _ = some lt
compare_integral Ty.i64 Ty.i128 = some lt
compare_integral Ty.i64 Ty.i256 = some lt
compare_integral Ty.i64 _ = some gt
compare_integral Ty.i128 Ty.i256 = some lt
compare_integral Ty.i128 _ = some gt
compare_integral Ty.i256 _ = some gt
compare_integral _ _ = none

unfoldable pub partial_cmp : Ty → Ty → Option Ordering
unfolding is_integral ty_eq compare_integral
partial_cmp ty rhs =
    if ty_eq ty rhs
    then some eq
    else if not (is_integral ty) || not (is_integral rhs)
    then none
    else compare_integral ty rhs

-- The operators `<=`, `>=` and `>` that `PartialOrd` derives from it.
unfoldable pub ty_le : Ty → Ty → Bool
unfolding partial_cmp
ty_le ty rhs = elim (partial_cmp ty rhs) [ some lt ↦ true | some eq ↦ true | _ ↦ false ]

unfoldable pub ty_ge : Ty → Ty → Bool
unfolding partial_cmp
ty_ge ty rhs = elim (partial_cmp ty rhs) [ some gt ↦ true | some eq ↦ true | _ ↦ false ]

unfoldable pub ty_gt : Ty → Ty → Bool
unfolding partial_cmp
ty_gt ty rhs = elim (partial_cmp ty rhs) [ some gt ↦ true | _ ↦ false ]
