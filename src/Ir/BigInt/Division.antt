-- ===== src/Ir/BigInt/Division.antt =====
-- bigint.rs: signed division and remainder, their overflow, and the negative zero that they make.
use native.Mathlib.Nat.{div-add-mod', mod-lt, div-eq_of_lt}
use mathlib.Core.Bool.{xor}
use sonatina.Base.{
  ℕ, ◌+◌, ◌*◌, ◌/◌, ◌%◌, ◌<◌, ◌≡◌, ◌≢◌, refl, ◌∙◌, sym, ◌⊎◌, inl, inr, Bool, true, false, ◌&&◌,
  none, some, arith, ◌==◌, Bool-cases, ◌>>=◌,
}
use sonatina.Ir.U256.{U256Ops, IsU256, two_255}
use sonatina.Ir.BigInt.{
  I256, i256_mask, to_u256, overflowing_div, overflowing_rem, is_minimum, signed_quotient,
  signed_remainder,
}
use sonatina.Ir.BigInt.Arith.{zero_lem}
use sonatina.Ir.BigInt.Canonical.{
  IsCanonical, InRange, abs-IsWord, of_pattern, to_u256_negative_zero,
}
use sonatina.Ir.BigInt.Mask.{bit_and_ones}

-- -2^255 divided by -1, the one quotient that is out of range.
abbrev pub Overflows : I256 → I256 → Type 0
Overflows a b = (a.is_negative ≡ true) × (a.abs ≡ two_255) × (b.is_negative ≡ true) × (b.abs ≡ 1)

signed_quotient_lem :
    (s t : Bool) (n : ℕ) → signed_quotient s t n ≡ record { is_negative = xor s t; abs = n }
unfolding signed_quotient xor
signed_quotient_lem true true n = refl
signed_quotient_lem true false n = refl
signed_quotient_lem false true n = refl
signed_quotient_lem false false n = refl

signed_remainder_lem :
    (s : Bool) (n : ℕ) → signed_remainder s n ≡ record { is_negative = s; abs = n }
unfolding signed_remainder
signed_remainder_lem true n = refl
signed_remainder_lem false n = refl

module _ (u : U256Ops) (laws : IsU256 u) where
  minimum-cases :
      (s : Bool) (n : ℕ)
      → InRange s n
      → is_minimum u (record { is_negative = s; abs = n }) ≡ (s && n == two_255)
  unfolding is_minimum
  minimum-cases false n h = refl
  minimum-cases true n h =
      let masked : u.bitand n i256_mask ≡ n % two_255 =
        laws.bitand_law n i256_mask (omega arith) (omega arith) ∙ bit_and_ones 255 n in
      rw masked (ground arith)

  -- Only -2^255 is taken for the minimum.
  is_minimum_lem : (i : I256) → IsCanonical i → is_minimum u i ≡ (i.is_negative && i.abs == two_255)
  is_minimum_lem i h = minimum-cases i.is_negative i.abs h

  div_value :
      (a b : I256)
      → IsCanonical a
      → IsCanonical b
      → b.abs ≢ 0
      → u.div a.abs b.abs ≡ some (a.abs / b.abs)
  div_value a b ha hb nz =
      laws.div_law a.abs b.abs (abs-IsWord a ha) (abs-IsWord b hb) ∙ ground arith

  rem_value :
      (a b : I256)
      → IsCanonical a
      → IsCanonical b
      → b.abs ≢ 0
      → u.rem a.abs b.abs ≡ some (a.abs % b.abs)
  rem_value a b ha hb nz =
      laws.rem_law a.abs b.abs (abs-IsWord a ha) (abs-IsWord b hb) ∙ ground arith

  no_overflow :
      (a b : I256)
      → IsCanonical a
      → ¬ Overflows a b
      → (is_minimum u a && (b.is_negative && b.abs == 1)) ≡ false
  no_overflow a b ha fits = rw (is_minimum_lem a ha) (ground arith)

  pub quotient_lem :
      (a b : I256)
      → IsCanonical a
      → IsCanonical b
      → b.abs ≢ 0
      → ¬ Overflows a b
      → overflowing_div u a b
        ≡ some
            (record { is_negative = xor a.is_negative b.is_negative; abs = a.abs / b.abs }, false)
  unfolding overflowing_div
  quotient_lem a b ha hb nz fits =
      rw (no_overflow a b ha fits, div_value a b ha hb nz)
        (elim (Bool-cases (b.abs == 0)) [
          | inl z ↦ absurd (nz (ground arith))
          | inr n ↦ rw (n, signed_quotient_lem a.is_negative b.is_negative (a.abs / b.abs))
        ])

  remainder_lem :
      (a b : I256)
      → IsCanonical a
      → IsCanonical b
      → b.abs ≢ 0
      → ¬ Overflows a b
      → overflowing_rem u a b
        ≡ some (record { is_negative = a.is_negative; abs = a.abs % b.abs }, false)
  unfolding overflowing_rem
  remainder_lem a b ha hb nz fits =
      rw (no_overflow a b ha fits, rem_value a b ha hb nz)
        (elim (Bool-cases (b.abs == 0)) [
          | inl z ↦ absurd (nz (ground arith))
          | inr n ↦ rw (n, signed_remainder_lem a.is_negative (a.abs % b.abs))
        ])

  -- Division truncates. On operands in range, unless the divisor is zero or the quotient is out of
  -- range, both operations succeed with no flag: the dividend is quotient times divisor plus remainder in absolute value,
  -- the remainder is smaller than the divisor and has the dividend's sign, and the quotient is
  -- negative when the signs differ.
  pub division_truncates :
      (a b : I256)
      → IsCanonical a
      → IsCanonical b
      → b.abs ≢ 0
      → ¬ Overflows a b
      → (q : I256) × (r : I256) × (overflowing_div u a b ≡ some (q, false))
        × (overflowing_rem u a b ≡ some (r, false))
        × (a.abs ≡ q.abs * b.abs + r.abs)
        × (r.abs < b.abs)
        × (q.is_negative ≡ xor a.is_negative b.is_negative)
        × (r.is_negative ≡ a.is_negative)
  division_truncates a b ha hb nz fits = (
    record { is_negative = xor a.is_negative b.is_negative; abs = a.abs / b.abs },
    record { is_negative = a.is_negative; abs = a.abs % b.abs },
    quotient_lem a b ha hb nz fits,
    remainder_lem a b ha hb nz fits,
    sym (div-add-mod' a.abs b.abs),
    mod-lt a.abs (omega arith),
    refl,
    refl,
  )

  -- On operands in range, a zero divisor panics, and -2^255 by -1 is flagged: the quotient stays -2^255, the remainder is
  -- zero.
  pub division_errors :
      (a b : I256)
      → IsCanonical a
      → IsCanonical b
      → ((b.abs ≡ 0) ⊎ Overflows a b)
      → ((b.abs ≡ 0) × (overflowing_div u a b ≡ none) × (overflowing_rem u a b ≡ none))
        ⊎ ((b.abs ≡ 1)
            × (overflowing_div u a b ≡ some (a, true))
            × (overflowing_rem u a b ≡ some (of_pattern 0, true)))
  unfolding overflowing_div overflowing_rem
  division_errors a b ha hb (inl z) = inl (z, rw z, rw z)
  division_errors a b ha hb (inr o) =
      let minimum : is_minimum u a ≡ true = is_minimum_lem a ha ∙ ground arith in
      inr (o.3, rw (minimum, o.2, o.3), rw (minimum, o.2, o.3, zero_lem u laws))

  -- In range, a quotient that truncates to zero from operands of different signs is a negative zero, whose
  -- conversion to `U256` panics.
  pub quotient_zero_panics :
      (a b : I256)
      → IsCanonical a
      → IsCanonical b
      → a.abs < b.abs
      → xor a.is_negative b.is_negative ≡ true
      → (overflowing_div u a b >>= λ r. to_u256 u r.0) ≡ none
  quotient_zero_panics a b ha hb small signs =
      let nothing : a.abs / b.abs ≡ 0 = div-eq_of_lt small in
      rw (quotient_lem a b ha hb (omega arith) (omega arith), nothing, signs)
        (to_u256_negative_zero u laws)
