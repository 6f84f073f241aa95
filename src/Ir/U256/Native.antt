-- ===== src/Ir/U256/Native.antt =====
-- `primitive_types::U256` for the examples: words as native numbers, with the laws they satisfy.
use Prim.Native.Nat.{compare, bit_and, bit_or, bit_xor}
use sonatina.Base.{
  ℕ, ◌+◌, ◌-◌, ◌*◌, ◌/◌, ◌%◌, ◌^◌, refl, none, some, List, [], ◌∷◌, leb, ltb, ◌==◌, if◌then◌else◌,
}
use sonatina.Ir.U256.{U256Ops, IsU256, two_256}

abbrev big_endian : ℕ → List ℕ → ℕ
big_endian n [] = n
big_endian n (b ∷ bs) = big_endian (n * 256 + b) bs

abbrev little_endian : List ℕ → ℕ
little_endian [] = 0
little_endian (b ∷ bs) = b + 256 * little_endian bs

abbrev pub native : U256Ops
native = record {
  overflowing_add = λ a b. ((a + b) % two_256, leb two_256 (a + b));
  overflowing_sub = λ a b. ((a + two_256 - b) % two_256, ltb a b);
  overflowing_mul = λ a b. ((a * b) % two_256, leb two_256 (a * b));
  add = λ a b. if leb two_256 (a + b) then none else some (a + b);
  div = λ a b. if b == 0 then none else some (a / b);
  rem = λ a b. if b == 0 then none else some (a % b);
  bitand = bit_and;
  bitor = bit_or;
  bitxor = bit_xor;
  complement = λ a. two_256 - 1 - a;
  shl = λ a k. (a * 2 ^ k) % two_256;
  shr = λ a k. a / 2 ^ k;
  cmp = compare;
  low_u32 = λ a. a % 2 ^ 32;
  low_u64 = λ a. a % 2 ^ 64;
  low_u128 = λ a. a % 2 ^ 128;
  as_usize = λ a. if ltb a (2 ^ 64) then some a else none;
  from_big_endian = big_endian 0;
  from_little_endian = little_endian;
}

pub native-IsU256 : IsU256 native
native-IsU256 = record {
  overflowing_add_law = λ a b ha hb. refl;
  overflowing_sub_law = λ a b ha hb. refl;
  overflowing_mul_law = λ a b ha hb. refl;
  add_law = λ a b ha hb. refl;
  div_law = λ a b ha hb. refl;
  rem_law = λ a b ha hb. refl;
  bitand_law = λ a b ha hb. refl;
  bitor_law = λ a b ha hb. refl;
  bitxor_law = λ a b ha hb. refl;
  complement_law = λ a ha. refl;
  shl_law = λ a k ha hk. refl;
  shr_law = λ a k ha hk. refl;
  cmp_law = λ a b ha hb. refl;
  low_u32_law = λ a ha. refl;
  low_u64_law = λ a ha. refl;
  low_u128_law = λ a ha. refl;
  as_usize_law = λ a ha. refl;
}
