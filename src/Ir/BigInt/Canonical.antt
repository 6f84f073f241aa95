-- ===== src/Ir/BigInt/Canonical.antt =====
-- bigint.rs: the two's complement pattern of an `I256`, and the conversions from and to `U256`.
use sonatina.Base.{
  ℕ, ◌-◌, ◌%◌, ◌≤◌, ◌<◌, ◌≡◌, refl, ap, ◌∙◌, Bool, true, false, none, some, arith, ltb,
  if◌then◌else◌, ◌>>=◌,
}
use sonatina.Ir.U256.{U256Ops, IsU256, IsWord, two_255, two_256}
use sonatina.Ir.BigInt.{I256, i256_mask, from_u256, to_u256}
use sonatina.Ir.BigInt.Mask.{bit_and_ones}

-- The values of a signed integer of 256 bits, each with one sign: there is no negative zero.
abbrev pub InRange : Bool → ℕ → Type 0
InRange false abs = abs < two_255
InRange true abs = (1 ≤ abs) × (abs ≤ two_255)

abbrev pub IsCanonical : I256 → Type 0
IsCanonical i = InRange i.is_negative i.abs

abbrev pub pattern_of : Bool → ℕ → ℕ
pattern_of false abs = abs
pattern_of true abs = two_256 - abs

-- The two's complement pattern.
abbrev pub unsigned : I256 → ℕ
unsigned i = pattern_of i.is_negative i.abs

-- The integer with a given pattern.
unfoldable pub of_pattern : ℕ → I256
of_pattern val =
    if ltb val two_255
    then record { is_negative = false; abs = val }
    else record { is_negative = true; abs = two_256 - val }

pub of_pattern-IsCanonical : (val : ℕ) → IsWord val → IsCanonical (of_pattern val)
unfolding of_pattern
of_pattern-IsCanonical val h = ground arith

pub unsigned-of_pattern : (val : ℕ) → IsWord val → unsigned (of_pattern val) ≡ val
unfolding of_pattern
unsigned-of_pattern val h = ground arith

pub of_pattern-of_nonneg :
    (a : ℕ) → a < two_255 → of_pattern a ≡ record { is_negative = false; abs = a }
unfolding of_pattern
of_pattern-of_nonneg a h = ground arith

pattern-inverse :
    (b : Bool) (a : ℕ)
    → InRange b a
    → of_pattern (pattern_of b a) ≡ record { is_negative = b; abs = a }
unfolding of_pattern
pattern-inverse false a h = ground arith
pattern-inverse true a h = ground arith

pub of_pattern-unsigned : (i : I256) → IsCanonical i → of_pattern (unsigned i) ≡ i
of_pattern-unsigned i h = pattern-inverse i.is_negative i.abs h

pattern_of-IsWord : (b : Bool) (a : ℕ) → InRange b a → IsWord (pattern_of b a)
pattern_of-IsWord false a h = omega arith
pattern_of-IsWord true a h = omega arith

pub unsigned-IsWord : (i : I256) → IsCanonical i → IsWord (unsigned i)
unsigned-IsWord i h = pattern_of-IsWord i.is_negative i.abs h

pub abs-IsWord : (i : I256) → IsCanonical i → IsWord i.abs
abs-IsWord i h = by_sign i.is_negative i.abs h
  where
    by_sign : (b : Bool) (a : ℕ) → InRange b a → IsWord a
    by_sign false a h = omega arith
    by_sign true a h = omega arith

module _ (u : U256Ops) (laws : IsU256 u) where
  -- Reading a word as a signed integer never panics.
  pub from_u256_lem : (val : ℕ) → IsWord val → from_u256 u val ≡ some (of_pattern val)
  unfolding from_u256 of_pattern
  from_u256_lem val h =
      let masked : u.bitand val i256_mask ≡ val % two_255 =
        laws.bitand_law val i256_mask h (omega arith) ∙ bit_and_ones 255 val in
      let flipped = laws.complement_law val h in
      let sum = laws.add_law (two_256 - 1 - val) 1 (omega arith) (omega arith) in
      rw (masked, flipped, sum) (ground arith)

  to_u256-cases :
      (b : Bool) (a : ℕ)
      → InRange b a
      → to_u256 u (record { is_negative = b; abs = a }) ≡ some (pattern_of b a)
  unfolding to_u256
  to_u256-cases false a h = refl
  to_u256-cases true a h =
      let sum = laws.add_law (two_256 - 1 - a) 1 (omega arith) (omega arith) in
      rw (laws.complement_law a (omega arith), sum) (ground arith)

  -- The pattern of a signed integer, which is read back without a panic.
  pub to_u256_lem : (i : I256) → IsCanonical i → to_u256 u i ≡ some (unsigned i)
  to_u256_lem i h = to_u256-cases i.is_negative i.abs h

  -- A negative zero has no pattern: the sum overflows and panics.
  pub to_u256_negative_zero : to_u256 u (record { is_negative = true; abs = 0 }) ≡ none
  unfolding to_u256
  to_u256_negative_zero =
      let sum = laws.add_law (two_256 - 1) 1 (omega arith) (omega arith) in
      rw (laws.complement_law 0 (omega arith), sum) (ground arith)

  -- Every 256-bit word is the pattern of exactly the signed integer that is read from it.
  pub to_u256-from_u256 :
      (val : ℕ)
      → IsWord val
      → ((from_u256 u val >>= λ i. to_u256 u i) ≡ some val)
        × ((i : I256) × (from_u256 u val ≡ some i) × IsCanonical i)
  to_u256-from_u256 val h =
      let c = of_pattern-IsCanonical val h in
      let e = from_u256_lem val h in
      (
        rw (e, to_u256_lem (of_pattern val) c) (ap some (unsigned-of_pattern val h)),
        (of_pattern val, e, c),
      )

  -- A signed integer in range is recovered from its pattern.
  pub from_u256-to_u256 :
      (i : I256) → IsCanonical i → (to_u256 u i >>= λ val. from_u256 u val) ≡ some i
  from_u256-to_u256 i h =
      rw (to_u256_lem i h, from_u256_lem (unsigned i) (unsigned-IsWord i h))
        (ap some (of_pattern-unsigned i h))

  -- Every 256-bit word is the pattern of exactly the signed integer that is read from it, which is in
  -- range, and every signed integer in range is recovered from its pattern.
  pub u256-i256_inverse :
      (val : ℕ) (i : I256)
      → IsWord val
      → IsCanonical i
      → ((from_u256 u val >>= λ j. to_u256 u j) ≡ some val)
        × ((j : I256) × (from_u256 u val ≡ some j) × IsCanonical j)
        × ((to_u256 u i >>= λ w. from_u256 u w) ≡ some i)
  u256-i256_inverse val i h c =
      let (back, read) = to_u256-from_u256 val h in (back, read, from_u256-to_u256 i c)
