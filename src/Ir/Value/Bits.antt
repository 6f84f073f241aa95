-- ===== src/Ir/Value/Bits.antt =====
-- value.rs: the width and the bit pattern of an immediate, and the integer that it stands for.
use sonatina.Base.{
  ℕ, ◌+◌, ◌-◌, ◌/◌, ◌%◌, ◌^◌, ◌<◌, ◌≡◌, refl, ap, Bool, true, false, arith, ltb, ◌==◌, not,
  if◌then◌else◌,
}
use sonatina.Ir.BigInt.Canonical.{
  IsCanonical, unsigned, of_pattern, of_pattern-unsigned, unsigned-IsWord, of_pattern-IsCanonical,
  unsigned-of_pattern,
}
use sonatina.Ir.Types.{Ty}
use sonatina.Ir.U256.{IsWord, two_256}
use sonatina.Ir.Value.{Immediate, ty}

-- Two to the width of an integral type.
abbrev pub modulus : Ty → ℕ
modulus Ty.i1 = 2
modulus Ty.i8 = 2 ^ 8
modulus Ty.i16 = 2 ^ 16
modulus Ty.i32 = 2 ^ 32
modulus Ty.i64 = 2 ^ 64
modulus Ty.i128 = 2 ^ 128
modulus Ty.i256 = 2 ^ 256
modulus _ = 1

abbrev bool_bits : Bool → ℕ
bool_bits true = 1
bool_bits false = 0

-- The bit pattern, at the width of the immediate's type.
abbrev pub bits : Immediate → ℕ
bits (Immediate.i1 b) = bool_bits b
bits (Immediate.i8 n) = n
bits (Immediate.i16 n) = n
bits (Immediate.i32 n) = n
bits (Immediate.i64 n) = n
bits (Immediate.i128 n) = n
bits (Immediate.i256 i) = unsigned i

-- What Rust's types guarantee of a machine integer, and that an `I256` is no negative zero.
abbrev pub IsValid : Immediate → Type 0
IsValid (Immediate.i1 b) = Unit
IsValid (Immediate.i8 n) = n < 2 ^ 8
IsValid (Immediate.i16 n) = n < 2 ^ 16
IsValid (Immediate.i32 n) = n < 2 ^ 32
IsValid (Immediate.i64 n) = n < 2 ^ 64
IsValid (Immediate.i128 n) = n < 2 ^ 128
IsValid (Immediate.i256 i) = IsCanonical i

-- The 256-bit pattern of the signed integer with the pattern `n` at the modulus `m`.
abbrev pub extend : ℕ → ℕ → ℕ
extend m n = if ltb n (m / 2) then n else two_256 - m + n

-- The immediate of a type with a given pattern.
abbrev pub immediate : Ty → ℕ → Immediate
immediate Ty.i1 n = Immediate.i1 (not (n == 0))
immediate Ty.i8 n = Immediate.i8 n
immediate Ty.i16 n = Immediate.i16 n
immediate Ty.i32 n = Immediate.i32 n
immediate Ty.i64 n = Immediate.i64 n
immediate Ty.i128 n = Immediate.i128 n
immediate _ n = Immediate.i256 (of_pattern n)

pub bits-lt : (imm : Immediate) → IsValid imm → bits imm < modulus (ty imm)
unfolding ty
bits-lt (Immediate.i1 true) h = omega arith
bits-lt (Immediate.i1 false) h = omega arith
bits-lt (Immediate.i8 n) h = h
bits-lt (Immediate.i16 n) h = h
bits-lt (Immediate.i32 n) h = h
bits-lt (Immediate.i64 n) h = h
bits-lt (Immediate.i128 n) h = h
bits-lt (Immediate.i256 i) h = unsigned-IsWord i h

pub immediate-bits : (imm : Immediate) → IsValid imm → immediate (ty imm) (bits imm) ≡ imm
unfolding ty
immediate-bits (Immediate.i1 true) h = refl
immediate-bits (Immediate.i1 false) h = refl
immediate-bits (Immediate.i8 n) h = refl
immediate-bits (Immediate.i16 n) h = refl
immediate-bits (Immediate.i32 n) h = refl
immediate-bits (Immediate.i64 n) h = refl
immediate-bits (Immediate.i128 n) h = refl
immediate-bits (Immediate.i256 i) h = ap Immediate.i256 (of_pattern-unsigned i h)

-- The types of immediates.
pub data Integral : Ty → Type 0 where
  i1 : Integral Ty.i1
  i8 : Integral Ty.i8
  i16 : Integral Ty.i16
  i32 : Integral Ty.i32
  i64 : Integral Ty.i64
  i128 : Integral Ty.i128
  i256 : Integral Ty.i256

pub ty-Integral : (imm : Immediate) → Integral (ty imm)
unfolding ty
ty-Integral (Immediate.i1 b) = Integral.i1
ty-Integral (Immediate.i8 n) = Integral.i8
ty-Integral (Immediate.i16 n) = Integral.i16
ty-Integral (Immediate.i32 n) = Integral.i32
ty-Integral (Immediate.i64 n) = Integral.i64
ty-Integral (Immediate.i128 n) = Integral.i128
ty-Integral (Immediate.i256 i) = Integral.i256

bool_bits-of_parity : (n : ℕ) → n < 2 → bool_bits (not (n == 0)) ≡ n
bool_bits-of_parity n h = ground arith

-- Every pattern in range is the pattern of one valid immediate of the type.
pub immediate_lem :
    {t : Ty} (i : Integral t) (n : ℕ)
    → n < modulus t
    → (bits (immediate t n) ≡ n) × IsValid (immediate t n) × (ty (immediate t n) ≡ t)
unfolding ty
immediate_lem Integral.i1 n h = (bool_bits-of_parity n h, tt, refl)
immediate_lem Integral.i8 n h = (refl, h, refl)
immediate_lem Integral.i16 n h = (refl, h, refl)
immediate_lem Integral.i32 n h = (refl, h, refl)
immediate_lem Integral.i64 n h = (refl, h, refl)
immediate_lem Integral.i128 n h = (refl, h, refl)
immediate_lem Integral.i256 n h = (unsigned-of_pattern n h, of_pattern-IsCanonical n h, refl)

pub extend-IsWord :
    {t : Ty} (i : Integral t) (n : ℕ) → n < modulus t → IsWord (extend (modulus t) n)
extend-IsWord Integral.i1 n h = ground arith
extend-IsWord Integral.i8 n h = ground arith
extend-IsWord Integral.i16 n h = ground arith
extend-IsWord Integral.i32 n h = ground arith
extend-IsWord Integral.i64 n h = ground arith
extend-IsWord Integral.i128 n h = ground arith
extend-IsWord Integral.i256 n h = ground arith

-- The extension agrees with the pattern up to the modulus.
pub extend-mod :
    {t : Ty} (i : Integral t) (n : ℕ) → n < modulus t → extend (modulus t) n % modulus t ≡ n
extend-mod Integral.i1 n h = ground arith
extend-mod Integral.i8 n h = ground arith
extend-mod Integral.i16 n h = ground arith
extend-mod Integral.i32 n h = ground arith
extend-mod Integral.i64 n h = ground arith
extend-mod Integral.i128 n h = ground arith
extend-mod Integral.i256 n h = ground arith
