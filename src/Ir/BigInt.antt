-- ===== src/Ir/BigInt.antt =====
-- crates/ir/src/bigint.rs: `I256`, over the operations of `U256`. A panic is `none`.
pub mod Mask
pub mod Canonical
pub mod Arith
pub mod Convert
pub mod Division
pub mod Order
mod Examples
use Prim.Native.Nat.{Ordering}
use Prim.Native.Nat.Ordering.{lt, eq, gt}
use sonatina.Base.{
  ℕ, ◌+◌, ◌-◌, ◌%◌, ◌^◌, Bool, true, false, not, ◌&&◌, Option, none, some, List, ltb, leb, ◌==◌,
  if◌then◌else◌, ◌>>=◌,
}
use sonatina.Ir.U256.{U256Ops}

-- A sign and an absolute value, given by the number of its `U256`.
pub record I256 : Type 0 where
  pub is_negative : Bool
  pub abs : ℕ

abbrev pub i256_mask : ℕ
i256_mask = 0x7fffffffffffffffffffffffffffffffffffffffffffffffffffffffffffffff

pub make_positive : ℕ → I256
make_positive abs = record { is_negative = false; abs = abs }

pub make_negative : ℕ → I256
make_negative abs = record { is_negative = true; abs = abs }

unfoldable pub is_zero : I256 → Bool
is_zero i = i.abs == 0

unfoldable pub is_positive : I256 → Bool
unfolding is_zero
is_positive i = not i.is_negative && not (is_zero i)

abbrev bool_eq : Bool → Bool → Bool
bool_eq true b = b
bool_eq false b = not b

-- `PartialEq`.
pub i256_eq : I256 → I256 → Bool
i256_eq i rhs = bool_eq i.is_negative rhs.is_negative && i.abs == rhs.abs

abbrev pub reverse_ordering : Ordering → Ordering
reverse_ordering lt = gt
reverse_ordering eq = eq
reverse_ordering gt = lt

-- `match (self.is_negative, rhs.is_negative)`
signed_quotient : Bool → Bool → ℕ → I256
unfolding make_positive make_negative
signed_quotient true true div_abs = make_positive div_abs
signed_quotient false false div_abs = make_positive div_abs
signed_quotient _ _ div_abs = make_negative div_abs

signed_remainder : Bool → ℕ → I256
unfolding make_positive make_negative
signed_remainder true rem_abs = make_negative rem_abs
signed_remainder false rem_abs = make_positive rem_abs

module _ (u : U256Ops) where
  pub from_u256 : ℕ → Option I256
  from_u256 val =
      if u.bitand val i256_mask == val
      then some (record { is_negative = false; abs = val })
      else (do abs ← u.add (u.complement val) 1; some (record { is_negative = true; abs = abs }))

  unfoldable pub to_u256 : I256 → Option ℕ
  to_u256 i = if i.is_negative then u.add (u.complement i.abs) 1 else some i.abs

  -- `let (val, flag) = ..; (Self::from_u256(val), flag)`
  with_flag : ℕ × Bool → Option (I256 × Bool)
  with_flag (val, flag) = do r ← from_u256 val; some (r, flag)

  pub overflowing_add : I256 → I256 → Option (I256 × Bool)
  unfolding with_flag
  overflowing_add i rhs = do a ← to_u256 i; b ← to_u256 rhs; with_flag (u.overflowing_add a b)

  pub overflowing_sub : I256 → I256 → Option (I256 × Bool)
  unfolding with_flag
  overflowing_sub i rhs = do a ← to_u256 i; b ← to_u256 rhs; with_flag (u.overflowing_sub a b)

  pub overflowing_mul : I256 → I256 → Option (I256 × Bool)
  unfolding with_flag
  overflowing_mul i rhs = do a ← to_u256 i; b ← to_u256 rhs; with_flag (u.overflowing_mul a b)

  pub is_minimum : I256 → Bool
  is_minimum i = i.is_negative && (not (i.abs == 0) && u.bitand i.abs i256_mask == 0)

  pub zero : Option I256
  zero = from_u256 0

  pub one : Option I256
  one = from_u256 1

  pub all_one : Option I256
  unfolding zero one
  all_one = do z ← zero; o ← one; r ← overflowing_sub z o; some r.0

  pub overflowing_div : I256 → I256 → Option (I256 × Bool)
  unfolding is_zero
  overflowing_div i rhs =
      if is_zero rhs
      then none
      else if is_minimum i && (rhs.is_negative && rhs.abs == 1)
      then some (i, true)
      else (do
        div_abs ← u.div i.abs rhs.abs
        some (signed_quotient i.is_negative rhs.is_negative div_abs, false))

  pub overflowing_rem : I256 → I256 → Option (I256 × Bool)
  unfolding is_zero
  overflowing_rem i rhs =
      if is_zero rhs
      then none
      else if is_minimum i && (rhs.is_negative && rhs.abs == 1)
      then (do z ← zero; some (z, true))
      else (do rem_abs ← u.rem i.abs rhs.abs; some (signed_remainder i.is_negative rem_abs, false))

  pub from_be_bytes : List ℕ → Option I256
  from_be_bytes bytes = from_u256 (u.from_big_endian bytes)

  pub from_le_bytes : List ℕ → Option I256
  from_le_bytes bytes = from_u256 (u.from_little_endian bytes)

  pub from_usize : ℕ → Option I256
  from_usize val = from_u256 val

  pub trunc_to_i1 : I256 → Option Bool
  trunc_to_i1 i = do v ← to_u256 i; some (not (u.low_u32 v % 2 == 0))

  -- `low_u32() as i8`: the bit pattern of the result.
  pub trunc_to_i8 : I256 → Option ℕ
  trunc_to_i8 i = do v ← to_u256 i; some (u.low_u32 v % 2 ^ 8)

  pub trunc_to_i16 : I256 → Option ℕ
  trunc_to_i16 i = do v ← to_u256 i; some (u.low_u32 v % 2 ^ 16)

  pub trunc_to_i32 : I256 → Option ℕ
  trunc_to_i32 i = do v ← to_u256 i; some (u.low_u32 v % 2 ^ 32)

  pub trunc_to_i64 : I256 → Option ℕ
  trunc_to_i64 i = do v ← to_u256 i; some (u.low_u64 v % 2 ^ 64)

  pub trunc_to_i128 : I256 → Option ℕ
  trunc_to_i128 i = do v ← to_u256 i; some (u.low_u128 v % 2 ^ 128)

  pub bitand : I256 → I256 → Option I256
  bitand i rhs = do a ← to_u256 i; b ← to_u256 rhs; from_u256 (u.bitand a b)

  pub bitor : I256 → I256 → Option I256
  bitor i rhs = do a ← to_u256 i; b ← to_u256 rhs; from_u256 (u.bitor a b)

  pub bitxor : I256 → I256 → Option I256
  bitxor i rhs = do a ← to_u256 i; b ← to_u256 rhs; from_u256 (u.bitxor a b)

  pub complement : I256 → Option I256
  complement i = do a ← to_u256 i; from_u256 (u.complement a)

  pub neg : I256 → Option I256
  unfolding complement one
  neg i = do a ← complement i; o ← one; r ← overflowing_add a o; some r.0

  pub shl : I256 → I256 → Option I256
  unfolding zero
  shl i rhs = do
    shift ← to_u256 rhs
    if leb 256 shift then zero else (do a ← to_u256 i; from_u256 (u.shl a shift))

  pub shr : I256 → I256 → Option I256
  unfolding zero
  shr i rhs = do
    shift ← to_u256 rhs
    if leb 256 shift then zero else (do a ← to_u256 i; from_u256 (u.shr a shift))

  compare_signs : Bool → Bool → ℕ → ℕ → Ordering
  compare_signs true true a b = reverse_ordering (u.cmp a b)
  compare_signs true false a b = lt
  compare_signs false true a b = gt
  compare_signs false false a b = u.cmp a b

  pub cmp : I256 → I256 → Ordering
  unfolding compare_signs
  cmp i rhs = compare_signs i.is_negative rhs.is_negative i.abs rhs.abs

  -- `impl_from!`: a signed integer of `w` bits, given by its bit pattern.
  pub from_signed : ℕ → ℕ → I256
  from_signed w n =
      if ltb n (2 ^ (w - 1))
      then record { is_negative = false; abs = n }
      else if n == 2 ^ (w - 1)
      then record { is_negative = true; abs = u.shl 1 (w - 1) }
      else record { is_negative = true; abs = 2 ^ w - n }

  pub from_bool : Bool → Option I256
  unfolding all_one zero
  from_bool true = all_one
  from_bool false = zero

unfoldable pub from_unsigned : ℕ → I256
from_unsigned n = record { is_negative = false; abs = n }
