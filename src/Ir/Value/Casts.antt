-- ===== src/Ir/Value/Casts.antt =====
-- value.rs: the casts between integral types.
use sonatina.Base.{
  ℕ, ◌%◌, ◌<◌, ◌≤◌, ◌≡◌, refl, sym, ap, ap₂, ◌∙◌, true, false, Option, some, arith, ◌>>=◌,
}
use native.Mathlib.Nat.{mod-lt, mod-eq_of_lt}
use sonatina.Ir.BigInt.{from_unsigned}
use sonatina.Ir.BigInt.Canonical.{of_pattern, of_pattern-of_nonneg, of_pattern-unsigned}
use sonatina.Ir.Types.{Ty, ty_le, ty_ge}
use sonatina.Ir.U256.{U256Ops, IsU256, IsWord, two_256}
use sonatina.Ir.Value.{Immediate, ty, sext, zext, trunc, from_i256, unsigned_i256}
use sonatina.Ir.Value.Apply.{Yields, Yields-immediate, Yields-cast, wide, wide-IsWord, modulus-pos}
use sonatina.Ir.Value.Bits.{
  modulus, bits, IsValid, extend, immediate, Integral, ty-Integral, bits-lt, immediate-bits,
  extend-mod,
}
use sonatina.Ir.Value.Signed.{as_i256_lem, from_i256_lem}

-- A wider type has a larger modulus, which the narrower one's divides.
modulus-le : {s t : Ty} (i : Integral s) (j : Integral t) → ty_le s t ≡ true → modulus s ≤ modulus t
unfolding ty_le
modulus-le Integral.i1 Integral.i1 h = omega arith
modulus-le _ _ h = ground arith

mod_narrow :
    {s t : Ty} (i : Integral s) (j : Integral t) (n : ℕ)
    → ty_le s t ≡ true
    → n % modulus t % modulus s ≡ n % modulus s
unfolding ty_le
mod_narrow Integral.i1 Integral.i1 n h = omega arith
mod_narrow _ _ n h = ground arith

unsigned_i256_lem : (a : Immediate) → IsValid a → unsigned_i256 a ≡ of_pattern (bits a)
unfolding unsigned_i256 from_unsigned
unsigned_i256_lem (Immediate.i1 true) h = sym (of_pattern-of_nonneg 1 (omega arith))
unsigned_i256_lem (Immediate.i1 false) h = sym (of_pattern-of_nonneg 0 (omega arith))
unsigned_i256_lem (Immediate.i8 n) h = sym (of_pattern-of_nonneg n (omega arith))
unsigned_i256_lem (Immediate.i16 n) h = sym (of_pattern-of_nonneg n (omega arith))
unsigned_i256_lem (Immediate.i32 n) h = sym (of_pattern-of_nonneg n (omega arith))
unsigned_i256_lem (Immediate.i64 n) h = sym (of_pattern-of_nonneg n (omega arith))
unsigned_i256_lem (Immediate.i128 n) h = sym (of_pattern-of_nonneg n (omega arith))
unsigned_i256_lem (Immediate.i256 i) h = sym (of_pattern-unsigned i h)

modulus-le_word : {t : Ty} (i : Integral t) → modulus t ≤ two_256
modulus-le_word Integral.i1 = omega arith
modulus-le_word Integral.i8 = omega arith
modulus-le_word Integral.i16 = omega arith
modulus-le_word Integral.i32 = omega arith
modulus-le_word Integral.i64 = omega arith
modulus-le_word Integral.i128 = omega arith
modulus-le_word Integral.i256 = omega arith

extend-mod_narrow :
    {s t : Ty} (i : Integral s) (j : Integral t) (n : ℕ)
    → n < modulus s
    → ty_ge s t ≡ true
    → extend (modulus s) n % modulus t ≡ n % modulus t
unfolding ty_ge
extend-mod_narrow Integral.i1 Integral.i1 n l h = ground arith
extend-mod_narrow _ _ n l h = ground arith

ty_ge_of_le : {s t : Ty} (i : Integral s) (j : Integral t) → ty_le s t ≡ true → ty_ge t s ≡ true
unfolding ty_ge ty_le
ty_ge_of_le Integral.i1 Integral.i1 h = refl
ty_ge_of_le _ _ h = ground arith

-- An immediate is told by its type and its pattern.
eq_of_bits : (a b : Immediate) → IsValid a → IsValid b → ty a ≡ ty b → bits a ≡ bits b → a ≡ b
eq_of_bits a b ha hb same_ty same_bits =
    sym (immediate-bits a ha) ∙ ap₂ immediate same_ty same_bits ∙ immediate-bits b hb

module _ (u : U256Ops) (laws : IsU256 u) where
  pub cast_lem :
      {t : Ty} (i : Integral t) (o : Option Immediate) (val : ℕ)
      → IsWord val
      → o ≡ from_i256 u (of_pattern val) t
      → Yields o t (val % modulus t)
  cast_lem {t} i o val h e =
      Yields-immediate i o (val % modulus t) (e ∙ from_i256_lem u laws i val h)
        (mod-lt val (modulus-pos i))

  -- Zero extension of a valid immediate to a type that is not narrower succeeds and keeps the number.
  pub zext_keeps :
      (a : Immediate) {t : Ty} (i : Integral t)
      → IsValid a
      → ty_le (ty a) t ≡ true
      → Yields (zext u a t) t (bits a)
  unfolding zext
  zext_keeps a {t} i h wider =
      let fits = modulus-le (ty-Integral a) i wider in
      let lt = bits-lt a h in
      Yields-cast (zext u a t) t (bits a % modulus t) (bits a)
        (mod-eq_of_lt (omega (arith, modulus-le_word i)))
        (cast_lem i (zext u a t) (bits a) (omega (arith, modulus-le_word i))
          (rw (wider, unsigned_i256_lem a h)))

  -- Sign extension of a valid immediate to a type that is not narrower succeeds, and yields the low bits of the 256-bit
  -- pattern of the same signed integer.
  pub sext_extends :
      (a : Immediate) {t : Ty} (i : Integral t)
      → IsValid a
      → ty_le (ty a) t ≡ true
      → Yields (sext u a t) t (extend (modulus (ty a)) (bits a) % modulus t)
  unfolding sext
  sext_extends a {t} i h wider =
      cast_lem i (sext u a t) (wide a) (wide-IsWord a h) (rw (wider, as_i256_lem u laws a h))

  -- Either extension of a valid immediate to a type that is not narrower succeeds: zero extension keeps
  -- the number, and sign extension yields the low bits of the 256-bit pattern of the same signed
  -- integer.
  pub zext-sext_extends :
      (a : Immediate) {t : Ty} (i : Integral t)
      → IsValid a
      → ty_le (ty a) t ≡ true
      → Yields (zext u a t) t (bits a)
        × Yields (sext u a t) t (extend (modulus (ty a)) (bits a) % modulus t)
  zext-sext_extends a i h wider = (zext_keeps a i h wider, sext_extends a i h wider)

  -- Truncation of a valid immediate to a type that is not wider succeeds and keeps the low bits.
  pub trunc_cuts :
      (a : Immediate) {t : Ty} (i : Integral t)
      → IsValid a
      → ty_ge (ty a) t ≡ true
      → Yields (trunc u a t) t (bits a % modulus t)
  unfolding trunc
  trunc_cuts a {t} i h narrower =
      Yields-cast (trunc u a t) t (wide a % modulus t) (bits a % modulus t)
        (extend-mod_narrow (ty-Integral a) i (bits a) (bits-lt a h) narrower)
        (cast_lem i (trunc u a t) (wide a) (wide-IsWord a h)
          (rw (narrower, as_i256_lem u laws a h)))

  -- Truncation undoes either extension of a valid immediate to a type that is not narrower.
  pub trunc-extend :
      (a : Immediate) {t : Ty} (i : Integral t)
      → IsValid a
      → ty_le (ty a) t ≡ true
      → ((zext u a t >>= λ r. trunc u r (ty a)) ≡ some a)
        × ((sext u a t >>= λ r. trunc u r (ty a)) ≡ some a)
  trunc-extend a {t} i h wider =
      let lt = bits-lt a h in
      let low = extend-mod (ty-Integral a) (bits a) lt in
      (
        cut (zext u a t) (bits a) (zext_keeps a i h wider) (mod-eq_of_lt lt),
        cut (sext u a t) (wide a % modulus t) (sext_extends a i h wider)
            (mod_narrow (ty-Integral a) i (wide a) wider ∙ low),
      )
    where
      cut :
          (o : Option Immediate) (n : ℕ)
          → Yields o t n
          → n % modulus (ty a) ≡ bits a
          → (o >>= λ r. trunc u r (ty a)) ≡ some a
      cut o n (r, e, v, typed, b) same =
          let ge : ty_ge (ty r) (ty a) ≡ true = rw typed (ty_ge_of_le (ty-Integral a) i wider) in
          let (q, e', v', typed', b') = trunc_cuts r (ty-Integral a) v ge in
          rw (e, e') (ap some (eq_of_bits q a v' h typed' (b' ∙ rw b same)))
