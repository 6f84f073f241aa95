-- ===== src/Ir/U256.antt =====
-- `primitive_types::U256`, which crates/ir/src/bigint.rs stands on. The crate is not part of this
-- repository: its operations are parameters, on the numbers that the words stand for, and `IsU256`
-- states its documented behaviour on words. `none` is a panic.
pub mod Native
use Prim.Native.Nat.{Ordering, compare, bit_and, bit_or, bit_xor}
use sonatina.Base.{
  ℕ, ◌+◌, ◌-◌, ◌*◌, ◌/◌, ◌%◌, ◌^◌, ◌<◌, ◌≡◌, Bool, Option, none, some, List, leb, ltb, ◌==◌,
  if◌then◌else◌,
}

abbrev pub two_255 : ℕ
two_255 = 2 ^ 255

abbrev pub two_256 : ℕ
two_256 = 2 ^ 256

-- The number of a `U256`.
abbrev pub IsWord : ℕ → Type 0
IsWord a = a < two_256

pub record U256Ops : Type 0 where
  pub overflowing_add : ℕ → ℕ → ℕ × Bool
  pub overflowing_sub : ℕ → ℕ → ℕ × Bool
  pub overflowing_mul : ℕ → ℕ → ℕ × Bool
  -- The operator `+`, which panics on overflow, and `/` and `%`, which panic on a zero divisor.
  pub add : ℕ → ℕ → Option ℕ
  pub div : ℕ → ℕ → Option ℕ
  pub rem : ℕ → ℕ → Option ℕ
  pub bitand : ℕ → ℕ → ℕ
  pub bitor : ℕ → ℕ → ℕ
  pub bitxor : ℕ → ℕ → ℕ
  pub complement : ℕ → ℕ
  pub shl : ℕ → ℕ → ℕ
  pub shr : ℕ → ℕ → ℕ
  pub cmp : ℕ → ℕ → Ordering
  pub low_u32 : ℕ → ℕ
  pub low_u64 : ℕ → ℕ
  pub low_u128 : ℕ → ℕ
  -- `as_usize` panics on a value that no `usize` of 64 bits holds.
  pub as_usize : ℕ → Option ℕ
  pub from_big_endian : List ℕ → ℕ
  pub from_little_endian : List ℕ → ℕ

pub record IsU256 (u : U256Ops) : Type 0 where
  pub overflowing_add_law :
      (a b : ℕ)
      → IsWord a
      → IsWord b
      → u.overflowing_add a b ≡ ((a + b) % two_256, leb two_256 (a + b))
  pub overflowing_sub_law :
      (a b : ℕ)
      → IsWord a
      → IsWord b
      → u.overflowing_sub a b ≡ ((a + two_256 - b) % two_256, ltb a b)
  pub overflowing_mul_law :
      (a b : ℕ)
      → IsWord a
      → IsWord b
      → u.overflowing_mul a b ≡ ((a * b) % two_256, leb two_256 (a * b))
  pub add_law :
      (a b : ℕ)
      → IsWord a
      → IsWord b
      → u.add a b ≡ (if leb two_256 (a + b) then none else some (a + b))
  pub div_law :
      (a b : ℕ) → IsWord a → IsWord b → u.div a b ≡ (if b == 0 then none else some (a / b))
  pub rem_law :
      (a b : ℕ) → IsWord a → IsWord b → u.rem a b ≡ (if b == 0 then none else some (a % b))
  pub bitand_law : (a b : ℕ) → IsWord a → IsWord b → u.bitand a b ≡ bit_and a b
  pub bitor_law : (a b : ℕ) → IsWord a → IsWord b → u.bitor a b ≡ bit_or a b
  pub bitxor_law : (a b : ℕ) → IsWord a → IsWord b → u.bitxor a b ≡ bit_xor a b
  pub complement_law : (a : ℕ) → IsWord a → u.complement a ≡ two_256 - 1 - a
  pub shl_law : (a k : ℕ) → IsWord a → k < 256 → u.shl a k ≡ (a * 2 ^ k) % two_256
  pub shr_law : (a k : ℕ) → IsWord a → k < 256 → u.shr a k ≡ a / 2 ^ k
  pub cmp_law : (a b : ℕ) → IsWord a → IsWord b → u.cmp a b ≡ compare a b
  pub low_u32_law : (a : ℕ) → IsWord a → u.low_u32 a ≡ a % 2 ^ 32
  pub low_u64_law : (a : ℕ) → IsWord a → u.low_u64 a ≡ a % 2 ^ 64
  pub low_u128_law : (a : ℕ) → IsWord a → u.low_u128 a ≡ a % 2 ^ 128
  pub as_usize_law : (a : ℕ) → IsWord a → u.as_usize a ≡ (if ltb a (2 ^ 64) then some a else none)
