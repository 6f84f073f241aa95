-- ===== src/Ir/Value/Compare.antt =====
-- value.rs: the comparisons of immediates, and the two equality tests.
use Prim.Native.Nat.{Ordering, compare}
use sonatina.Base.{ℕ, ◌+◌, ◌/◌, ◌%◌, ◌<◌, ◌≡◌, ◌∙◌, Bool, true, Option, some, arith, ltb, leb, not}
use sonatina.Ir.BigInt.{I256}
use sonatina.Ir.BigInt.Canonical.{of_pattern, to_u256_lem}
use sonatina.Ir.BigInt.Order.{cmp_lem, biased}
use sonatina.Ir.Types.{Ty, ty_eq}
use sonatina.Ir.U256.{U256Ops, IsU256}
use sonatina.Ir.Value.{
  Immediate, ty, apply_binop_raw, unsigned_test, signed_test, is_lt, is_gt, lt_imm, gt_imm, le, ge,
  slt, sgt, sle, sge,
}
use sonatina.Ir.Value.Apply.{wide, wide-IsWord, wide-IsCanonical, unsigned-wide, ty_eq_self}
use sonatina.Ir.Value.Bits.{modulus, bits, IsValid, extend, Integral, ty-Integral, bits-lt}
use sonatina.Ir.Value.Signed.{as_i256_lem}

-- Sign extension keeps the unsigned order.
extend-compare :
    {t : Ty} (i : Integral t) (x y : ℕ)
    → x < modulus t
    → y < modulus t
    → compare (extend (modulus t) x) (extend (modulus t) y) ≡ compare x y
extend-compare Integral.i1 x y hx hy = ground arith
extend-compare Integral.i8 x y hx hy = ground arith
extend-compare Integral.i16 x y hx hy = ground arith
extend-compare Integral.i32 x y hx hy = ground arith
extend-compare Integral.i64 x y hx hy = ground arith
extend-compare Integral.i128 x y hx hy = ground arith
extend-compare Integral.i256 x y hx hy = ground arith

-- The pattern with its sign bit flipped, at a type's width.
abbrev pub flipped : Immediate → ℕ
flipped imm = (bits imm + modulus (ty imm) / 2) % modulus (ty imm)

biased-compare :
    {t : Ty} (i : Integral t) (x y : ℕ)
    → x < modulus t
    → y < modulus t
    → compare (biased (extend (modulus t) x)) (biased (extend (modulus t) y))
      ≡ compare ((x + modulus t / 2) % modulus t) ((y + modulus t / 2) % modulus t)
biased-compare Integral.i1 x y hx hy = ground arith
biased-compare Integral.i8 x y hx hy = ground arith
biased-compare Integral.i16 x y hx hy = ground arith
biased-compare Integral.i32 x y hx hy = ground arith
biased-compare Integral.i64 x y hx hy = ground arith
biased-compare Integral.i128 x y hx hy = ground arith
biased-compare Integral.i256 x y hx hy = ground arith

module _ (u : U256Ops) (laws : IsU256 u) (a b : Immediate) (ha : IsValid a) (hb : IsValid b)
    (same_ty : ty b ≡ ty a) where
  raw_lem :
      (f : I256 → I256 → Option Immediate)
      → apply_binop_raw u a b f ≡ f (of_pattern (wide a)) (of_pattern (wide b))
  unfolding apply_binop_raw
  raw_lem f =
      let typed : ty_eq (ty a) (ty b) ≡ true = rw same_ty (ty_eq_self (ty a)) in
      rw (typed, as_i256_lem u laws a ha, as_i256_lem u laws b hb)

  wide-compare : compare (wide a) (wide b) ≡ compare (bits a) (bits b)
  wide-compare = rw same_ty (
      extend-compare (ty-Integral a) (bits a) (bits b) (bits-lt a ha)
        (rw same_ty at (bits-lt b hb)))

  biased-wide-compare :
      compare (biased (wide a)) (biased (wide b)) ≡ compare (flipped a) (flipped b)
  biased-wide-compare = rw same_ty (
      biased-compare (ty-Integral a) (bits a) (bits b) (bits-lt a ha)
        (rw same_ty at (bits-lt b hb)))

  unsigned_test_lem :
      (test : Ordering → Bool)
      → apply_binop_raw u a b (unsigned_test u test)
        ≡ some (Immediate.i1 (test (compare (bits a) (bits b))))
  unfolding unsigned_test
  unsigned_test_lem test =
      raw_lem (unsigned_test u test)
      ∙ rw (
        to_u256_lem u laws (of_pattern (wide a)) (wide-IsCanonical a ha),
        to_u256_lem u laws (of_pattern (wide b)) (wide-IsCanonical b hb),
        unsigned-wide a ha,
        unsigned-wide b hb,
        laws.cmp_law (wide a) (wide b) (wide-IsWord a ha) (wide-IsWord b hb),
        wide-compare,
      )

  signed_test_lem :
      (test : Ordering → Bool)
      → apply_binop_raw u a b (signed_test u test)
        ≡ some (Immediate.i1 (test (compare (flipped a) (flipped b))))
  unfolding signed_test
  signed_test_lem test =
      raw_lem (signed_test u test)
      ∙ rw (
        cmp_lem u laws (of_pattern (wide a)) (of_pattern (wide b)) (wide-IsCanonical a ha)
            (wide-IsCanonical b hb),
        unsigned-wide a ha,
        unsigned-wide b hb,
        biased-wide-compare,
      )

  -- The unsigned comparisons order two valid immediates of one type by their bit patterns.
  pub unsigned_comparisons :
      (lt_imm u a b ≡ some (Immediate.i1 (ltb (bits a) (bits b))))
      × (gt_imm u a b ≡ some (Immediate.i1 (ltb (bits b) (bits a))))
      × (le u a b ≡ some (Immediate.i1 (leb (bits a) (bits b))))
      × (ge u a b ≡ some (Immediate.i1 (leb (bits b) (bits a))))
  unfolding lt_imm gt_imm le ge
  unsigned_comparisons = (
    unsigned_test_lem is_lt ∙ ground arith,
    unsigned_test_lem is_gt ∙ ground arith,
    unsigned_test_lem (λ o. not (is_gt o)) ∙ ground arith,
    unsigned_test_lem (λ o. not (is_lt o)) ∙ ground arith,
  )

  -- The signed comparisons order two valid immediates of one type by their bit patterns with the sign bit
  -- flipped.
  pub signed_comparisons :
      (slt u a b ≡ some (Immediate.i1 (ltb (flipped a) (flipped b))))
      × (sgt u a b ≡ some (Immediate.i1 (ltb (flipped b) (flipped a))))
      × (sle u a b ≡ some (Immediate.i1 (leb (flipped a) (flipped b))))
      × (sge u a b ≡ some (Immediate.i1 (leb (flipped b) (flipped a))))
  unfolding slt sgt sle sge
  signed_comparisons = (
    signed_test_lem is_lt ∙ ground arith,
    signed_test_lem is_gt ∙ ground arith,
    signed_test_lem (λ o. not (is_gt o)) ∙ ground arith,
    signed_test_lem (λ o. not (is_lt o)) ∙ ground arith,
  )

  -- The unsigned comparisons order two valid immediates of one type by their bit patterns, the signed
  -- ones by their bit patterns with the sign bit flipped.
  pub comparisons_order :
      (lt_imm u a b ≡ some (Immediate.i1 (ltb (bits a) (bits b))))
      × (gt_imm u a b ≡ some (Immediate.i1 (ltb (bits b) (bits a))))
      × (le u a b ≡ some (Immediate.i1 (leb (bits a) (bits b))))
      × (ge u a b ≡ some (Immediate.i1 (leb (bits b) (bits a))))
      × (slt u a b ≡ some (Immediate.i1 (ltb (flipped a) (flipped b))))
      × (sgt u a b ≡ some (Immediate.i1 (ltb (flipped b) (flipped a))))
      × (sle u a b ≡ some (Immediate.i1 (leb (flipped a) (flipped b))))
      × (sge u a b ≡ some (Immediate.i1 (leb (flipped b) (flipped a))))
  comparisons_order =
      let (p, q, r, s) = unsigned_comparisons in
      let (p', q', r', s') = signed_comparisons in (p, q, r, s, p', q', r', s')
