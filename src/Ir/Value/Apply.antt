-- ===== src/Ir/Value/Apply.antt =====
-- value.rs: an operation on immediates through 256 bits, and remainders at the width of a type.
use native.Mathlib.Nat.{mul-add-mod_self_left, mod-lt, div-add-mod, add-mod}
use sonatina.Base.{
  ◌==◌, ℕ, ◌+◌, ◌-◌, ◌*◌, ◌/◌, ◌%◌, ◌<◌, ◌≡◌, refl, ap, ◌∙◌, true, Option, some, arith,
}
use sonatina.Ir.BigInt.{I256, is_zero}
use sonatina.Ir.BigInt.Canonical.{
  IsCanonical, unsigned, of_pattern, of_pattern-IsCanonical, unsigned-of_pattern,
}
use sonatina.Ir.Types.{Ty, ty_eq}
use sonatina.Ir.U256.{U256Ops, IsU256, IsWord, two_256}
use sonatina.Ir.Value.{
  is_zero_imm, Immediate, ty, apply_binop, apply_binop_raw, apply_unop, apply_unop_raw,
}
use sonatina.Ir.Value.Bits.{
  modulus, bits, IsValid, extend, immediate, Integral, ty-Integral, immediate_lem, bits-lt,
  extend-IsWord, extend-mod,
}
use sonatina.Ir.Value.Signed.{as_i256_lem, from_i256_lem}

-- The operation succeeds, with a valid immediate of the type and the given pattern.
abbrev pub Yields : Option Immediate → Ty → ℕ → Type 0
Yields o t n = (r : Immediate) × (o ≡ some r) × IsValid r × (ty r ≡ t) × (bits r ≡ n)

-- The pattern of an immediate, extended to 256 bits.
abbrev pub wide : Immediate → ℕ
wide imm = extend (modulus (ty imm)) (bits imm)

pub wide-IsWord : (imm : Immediate) → IsValid imm → IsWord (wide imm)
wide-IsWord imm h = extend-IsWord (ty-Integral imm) (bits imm) (bits-lt imm h)

pub wide-mod : (imm : Immediate) → IsValid imm → wide imm % modulus (ty imm) ≡ bits imm
wide-mod imm h = extend-mod (ty-Integral imm) (bits imm) (bits-lt imm h)

pub ty_eq_self : (t : Ty) → ty_eq t t ≡ true
unfolding ty_eq
ty_eq_self Ty.i1 = refl
ty_eq_self (Ty.compound r) = ground arith
ty_eq_self _ = refl

pub Yields-immediate :
    {t : Ty} (i : Integral t) (o : Option Immediate) (n : ℕ)
    → o ≡ some (immediate t n)
    → n < modulus t
    → Yields o t n
Yields-immediate {t} i o n e h =
    let (b, valid, typed) = immediate_lem i n h in (immediate t n, e, valid, typed, b)

pub modulus-pos : {t : Ty} (i : Integral t) → 0 < modulus t
modulus-pos Integral.i1 = omega arith
modulus-pos Integral.i8 = omega arith
modulus-pos Integral.i16 = omega arith
modulus-pos Integral.i32 = omega arith
modulus-pos Integral.i64 = omega arith
modulus-pos Integral.i128 = omega arith
modulus-pos Integral.i256 = omega arith

-- A modulus divides 2^256.
pub mod_modulus : {t : Ty} (i : Integral t) (n : ℕ) → n % two_256 % modulus t ≡ n % modulus t
mod_modulus Integral.i1 n = omega arith
mod_modulus Integral.i8 n = omega arith
mod_modulus Integral.i16 n = omega arith
mod_modulus Integral.i32 n = omega arith
mod_modulus Integral.i64 n = omega arith
mod_modulus Integral.i128 n = omega arith
mod_modulus Integral.i256 n = omega arith

module _ (u : U256Ops) (laws : IsU256 u) where
  -- A binary operation works on the extended patterns, and keeps the low bits of what it yields.
  pub apply_binop_lem :
      (a b : Immediate) (f : I256 → I256 → Option I256) (val : ℕ)
      → IsValid a
      → IsValid b
      → ty b ≡ ty a
      → f (of_pattern (wide a)) (of_pattern (wide b)) ≡ some (of_pattern val)
      → IsWord val
      → Yields (apply_binop u a b f) (ty a) (val % modulus (ty a))
  unfolding apply_binop apply_binop_raw
  apply_binop_lem a b f val ha hb same e h =
      let typed : ty_eq (ty a) (ty b) ≡ true = rw same (ty_eq_self (ty a)) in
      Yields-immediate (ty-Integral a) _ (val % modulus (ty a))
        (rw (typed, as_i256_lem u laws a ha, as_i256_lem u laws b hb, e)
          (from_i256_lem u laws (ty-Integral a) val h))
        (mod-lt val (modulus-pos (ty-Integral a)))

  pub apply_unop_lem :
      (a : Immediate) (f : I256 → Option I256) (val : ℕ)
      → IsValid a
      → f (of_pattern (wide a)) ≡ some (of_pattern val)
      → IsWord val
      → Yields (apply_unop u a f) (ty a) (val % modulus (ty a))
  unfolding apply_unop apply_unop_raw
  apply_unop_lem a f val ha e h =
      Yields-immediate (ty-Integral a) _ (val % modulus (ty a))
        (rw (as_i256_lem u laws a ha, e) (from_i256_lem u laws (ty-Integral a) val h))
        (mod-lt val (modulus-pos (ty-Integral a)))

pub Yields-cast : (o : Option Immediate) (t : Ty) (n k : ℕ) → n ≡ k → Yields o t n → Yields o t k
Yields-cast o t n k e (r, s, v, y, b) = (r, s, v, y, b ∙ e)

pub sum_mod :
    {t : Ty} (i : Integral t) (x y : ℕ)
    → (x + y) % two_256 % modulus t ≡ (x % modulus t + y % modulus t) % modulus t
sum_mod {t} i x y = mod_modulus i (x + y) ∙ add-mod x y (modulus t)

pub difference_mod :
    {t : Ty} (i : Integral t) (x y : ℕ)
    → IsWord x
    → IsWord y
    → (x + two_256 - y) % two_256 % modulus t
      ≡ (x % modulus t + modulus t - y % modulus t) % modulus t
difference_mod Integral.i1 x y hx hy = omega arith
difference_mod Integral.i8 x y hx hy = omega arith
difference_mod Integral.i16 x y hx hy = omega arith
difference_mod Integral.i32 x y hx hy = omega arith
difference_mod Integral.i64 x y hx hy = omega arith
difference_mod Integral.i128 x y hx hy = omega arith
difference_mod Integral.i256 x y hx hy = omega arith

pub opposite_mod :
    {t : Ty} (i : Integral t) (x : ℕ)
    → IsWord x
    → (two_256 - x) % two_256 % modulus t ≡ (modulus t - x % modulus t) % modulus t
opposite_mod Integral.i1 x h = omega arith
opposite_mod Integral.i8 x h = omega arith
opposite_mod Integral.i16 x h = omega arith
opposite_mod Integral.i32 x h = omega arith
opposite_mod Integral.i64 x h = omega arith
opposite_mod Integral.i128 x h = omega arith
opposite_mod Integral.i256 x h = omega arith

-- The product of two numbers depends on their remainders only.
pub product_mod : (x y m : ℕ) → (x * y) % m ≡ ((x % m) * (y % m)) % m
product_mod x y m =
    let q = x / m in
    let r = y / m in
    let first = ap (λ (t : ℕ). t * y) (div-add-mod x m) in
    let second = ap (λ (t : ℕ). (x % m) * t) (div-add-mod y m) in
    let whole : x * y ≡ m * (q * y + (x % m) * r) + (x % m) * (y % m) =
      omega (arith, first, second) in
    ap (λ (t : ℕ). t % m) whole ∙ mul-add-mod_self_left m (q * y + (x % m) * r) ((x % m) * (y % m))

pub wide-IsCanonical : (a : Immediate) → IsValid a → IsCanonical (of_pattern (wide a))
wide-IsCanonical a h = of_pattern-IsCanonical (wide a) (wide-IsWord a h)

pub unsigned-wide : (a : Immediate) → IsValid a → unsigned (of_pattern (wide a)) ≡ wide a
unsigned-wide a h = unsigned-of_pattern (wide a) (wide-IsWord a h)

-- The remainder of the second operand, at the first one's type.
pub wide-mod_other : (a b : Immediate) → IsValid b → ty b ≡ ty a → wide b % modulus (ty a) ≡ bits b
wide-mod_other a b h same = rw (← same) (wide-mod b h)

extended-zero :
    {t : Ty} (i : Integral t) (n : ℕ)
    → n < modulus t
    → ((of_pattern (extend (modulus t) n)).abs == 0) ≡ (n == 0)
unfolding of_pattern
extended-zero Integral.i1 n h = ground arith
extended-zero Integral.i8 n h = ground arith
extended-zero Integral.i16 n h = ground arith
extended-zero Integral.i32 n h = ground arith
extended-zero Integral.i64 n h = ground arith
extended-zero Integral.i128 n h = ground arith
extended-zero Integral.i256 n h = ground arith

module _ (u : U256Ops) (laws : IsU256 u) where
  -- An immediate is zero when its pattern is.
  pub is_zero_imm_lem : (a : Immediate) → IsValid a → is_zero_imm u a ≡ some (bits a == 0)
  unfolding is_zero_imm apply_unop_raw is_zero
  is_zero_imm_lem a h =
      rw (as_i256_lem u laws a h) (ap some (extended-zero (ty-Integral a) (bits a) (bits-lt a h)))
