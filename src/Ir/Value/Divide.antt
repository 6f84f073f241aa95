-- ===== src/Ir/Value/Divide.antt =====
-- value.rs: division and right shifts, which work on the sign-extended operands.
use native.Mathlib.Nat.{div-le_self, mod-eq_of_lt}
use sonatina.Base.{false, ℕ, ◌+◌, ◌/◌, ◌%◌, ◌<◌, ◌≤◌, ◌≡◌, ◌≢◌, sym, ap, ap₂, ◌∙◌, some, arith}
use sonatina.Ir.BigInt
use sonatina.Ir.BigInt.{is_positive, I256, to_u256, from_u256}
use sonatina.Ir.BigInt.Arith.{shr_lem}
use sonatina.Ir.BigInt.Canonical.{of_pattern, to_u256_lem, from_u256_lem}
use sonatina.Ir.Types.{Ty, Ty}
use sonatina.Ir.U256.{U256Ops, IsU256}
use sonatina.Ir.Value.{
  is_positive_imm, apply_unop_raw, Immediate, ty, udiv, shr, unsigned_quotient, apply_binop,
}
use sonatina.Ir.Value.Apply.{
  Yields, Yields-cast, wide, wide-IsWord, wide-IsCanonical, unsigned-wide, apply_binop_lem,
}
use sonatina.Ir.Value.Signed.{as_i256_lem}
use sonatina.Ir.Value.Bits.{modulus, bits, IsValid, extend, Integral, ty-Integral, bits-lt}

-- The integral types between `i1` and `i256`.
abbrev pub IsNarrow : Ty → Type 0
IsNarrow Ty.i8 = Unit
IsNarrow Ty.i16 = Unit
IsNarrow Ty.i32 = Unit
IsNarrow Ty.i64 = Unit
IsNarrow Ty.i128 = Unit
IsNarrow _ = ⊥

-- Half of a sign-extended negative pattern, cut off again: the sign bit is set once more.
half_extended :
    {t : Ty} (i : Integral t) (n : ℕ)
    → IsNarrow t
    → modulus t / 2 ≤ n
    → n < modulus t
    → (extend (modulus t) n / 2) % modulus t ≡ modulus t / 2 + n / 2
half_extended Integral.i1 n w h l = absurd w
half_extended Integral.i8 n w h l = ground arith
half_extended Integral.i16 n w h l = ground arith
half_extended Integral.i32 n w h l = ground arith
half_extended Integral.i64 n w h l = ground arith
half_extended Integral.i128 n w h l = ground arith
half_extended Integral.i256 n w h l = absurd w

small_extended : {t : Ty} (i : Integral t) (n : ℕ) → IsNarrow t → n ≤ 2 → extend (modulus t) n ≡ n
small_extended Integral.i1 n w h = absurd w
small_extended Integral.i8 n w h = ground arith
small_extended Integral.i16 n w h = ground arith
small_extended Integral.i32 n w h = ground arith
small_extended Integral.i64 n w h = ground arith
small_extended Integral.i128 n w h = ground arith
small_extended Integral.i256 n w h = absurd w

positive_extended : (m n : ℕ) → n < m / 2 → extend m n ≡ n
positive_extended m n h = ground arith

module _ (u : U256Ops) (laws : IsU256 u) (a b : Immediate) (ha : IsValid a) (hb : IsValid b)
    (same_ty : ty b ≡ ty a) where
  quotient_wide :
      wide b ≢ 0
      → unsigned_quotient u (of_pattern (wide a)) (of_pattern (wide b))
        ≡ some (of_pattern (wide a / wide b))
  unfolding unsigned_quotient
  quotient_wide nz =
      let wa = wide-IsWord a ha in
      let wb = wide-IsWord b hb in
      let le : wide a / wide b ≤ wide a = div-le_self (wide a) (wide b) in
      let div : u.div (wide a) (wide b) ≡ some (wide a / wide b) =
        laws.div_law (wide a) (wide b) wa wb ∙ ground arith in
      rw
        (
          to_u256_lem u laws (of_pattern (wide a)) (wide-IsCanonical a ha),
          to_u256_lem u laws (of_pattern (wide b)) (wide-IsCanonical b hb),
          unsigned-wide a ha,
          unsigned-wide b hb,
          div,
        )
        (from_u256_lem u laws (wide a / wide b) (omega arith))

  udiv-wide : wide b ≢ 0 → Yields (udiv u a b) (ty a) ((wide a / wide b) % modulus (ty a))
  unfolding udiv
  udiv-wide nz =
      let wa = wide-IsWord a ha in
      let le : wide a / wide b ≤ wide a = div-le_self (wide a) (wide b) in
      apply_binop_lem u laws a b (unsigned_quotient u) (wide a / wide b) ha hb same_ty
        (quotient_wide nz) (omega arith)

  -- Unsigned division of two immediates of one type whose sign bits are clear, by a divisor other
  -- than zero, is division of their patterns.
  pub udiv_positive :
      bits a < modulus (ty a) / 2
      → bits b < modulus (ty a) / 2
      → bits b ≢ 0
      → Yields (udiv u a b) (ty a) (bits a / bits b)
  udiv_positive pa pb nz =
      let ea : wide a ≡ bits a = positive_extended (modulus (ty a)) (bits a) pa in
      let eb : wide b ≡ bits b = positive_extended (modulus (ty b)) (bits b) (rw same_ty pb) in
      let lt = bits-lt a ha in
      let le : bits a / bits b ≤ bits a = div-le_self (bits a) (bits b) in
      let quotient : (wide a / wide b) % modulus (ty a) ≡ bits a / bits b =
        ap₂ (λ (x y : ℕ). (x / y) % modulus (ty a)) ea eb ∙ mod-eq_of_lt (omega arith) in
      Yields-cast (udiv u a b) (ty a) _ _ quotient (udiv-wide (λ z. nz (sym eb ∙ z)))

  -- Unsigned division by two of a valid immediate of 8 to 128 bits whose sign bit is set yields half of
  -- its pattern plus half of the modulus: the sign has been extended before the division.
  pub udiv_two :
      IsNarrow (ty a)
      → modulus (ty a) / 2 ≤ bits a
      → bits b ≡ 2
      → Yields (udiv u a b) (ty a) (modulus (ty a) / 2 + bits a / 2)
  udiv_two narrow set two =
      let eb : wide b ≡ 2 =
        rw (same_ty, two) (small_extended (ty-Integral a) 2 narrow (omega arith)) in
      let quotient : (wide a / wide b) % modulus (ty a) ≡ modulus (ty a) / 2 + bits a / 2 =
        ap (λ (y : ℕ). (wide a / y) % modulus (ty a)) eb
        ∙ half_extended (ty-Integral a) (bits a) narrow set (bits-lt a ha) in
      Yields-cast (udiv u a b) (ty a) _ _ quotient (udiv-wide (omega arith))

  -- A right shift by one of a valid immediate of 8 to 128 bits whose sign bit is set sets the sign bit of
  -- the result.
  pub shr_one :
      IsNarrow (ty a)
      → modulus (ty a) / 2 ≤ bits a
      → bits b ≡ 1
      → Yields (shr u a b) (ty a) (modulus (ty a) / 2 + bits a / 2)
  unfolding shr
  shr_one narrow set one =
      let eb : wide b ≡ 1 =
        rw (same_ty, one) (small_extended (ty-Integral a) 1 narrow (omega arith)) in
      let wa = wide-IsWord a ha in
      let shifted : BigInt.shr u (of_pattern (wide a)) (of_pattern (wide b))
          ≡ some (of_pattern (wide a / 2)) =
        shr_lem u laws (of_pattern (wide a)) (of_pattern (wide b)) (wide-IsCanonical a ha)
          (wide-IsCanonical b hb)
        ∙ rw (unsigned-wide a ha, unsigned-wide b hb, eb) in
      let half = half_extended (ty-Integral a) (bits a) narrow set (bits-lt a ha) in
      Yields-cast (apply_binop u a b (BigInt.shr u)) (ty a) _ _ half
        (apply_binop_lem u laws a b (BigInt.shr u) (wide a / 2) ha hb same_ty shifted (omega arith))

-- For a valid immediate of 8 to 128 bits whose sign bit is set, unsigned division by two and a right
-- shift by one yield half of its pattern plus half of the modulus: the sign has been extended first.
pub udiv-shr_extend :
    (u : U256Ops) (laws : IsU256 u) (a two one : Immediate)
    → IsValid a
    → IsValid two
    → IsValid one
    → ty two ≡ ty a
    → ty one ≡ ty a
    → IsNarrow (ty a)
    → modulus (ty a) / 2 ≤ bits a
    → bits two ≡ 2
    → bits one ≡ 1
    → Yields (udiv u a two) (ty a) (modulus (ty a) / 2 + bits a / 2)
      × Yields (shr u a one) (ty a) (modulus (ty a) / 2 + bits a / 2)
udiv-shr_extend u laws a two one ha h2 h1 t2 t1 narrow set e2 e1 =
    (udiv_two u laws a two ha h2 t2 narrow set e2, shr_one u laws a one ha h1 t1 narrow set e1)

module _ (u : U256Ops) (laws : IsU256 u) where
  positive-cases :
      {t : Ty} (i : Integral t) (n : ℕ)
      → modulus t / 2 ≤ n
      → n < modulus t
      → is_positive (of_pattern (extend (modulus t) n)) ≡ false
  unfolding of_pattern is_positive
  positive-cases Integral.i1 n h l = ground arith
  positive-cases Integral.i8 n h l = ground arith
  positive-cases Integral.i16 n h l = ground arith
  positive-cases Integral.i32 n h l = ground arith
  positive-cases Integral.i64 n h l = ground arith
  positive-cases Integral.i128 n h l = ground arith
  positive-cases Integral.i256 n h l = ground arith

  -- An immediate whose sign bit is set is not positive.
  pub is_positive_imm_lem :
      (a : Immediate) → IsValid a → modulus (ty a) / 2 ≤ bits a → is_positive_imm u a ≡ some false
  unfolding is_positive_imm apply_unop_raw
  is_positive_imm_lem a h set =
      rw (as_i256_lem u laws a h)
        (ap some (positive-cases (ty-Integral a) (bits a) set (bits-lt a h)))
