-- ===== src/Ir/BigInt/Mask.antt =====
-- bigint.rs: `&` with a mask of low ones, such as `I256_MASK`, is a remainder.
use Prim.Native.Nat.{bit_and, digits, bit_and-bitwise}
use native.Mathlib.Nat.{
  two-pow-succ, one-le-pow, add-mul-mod_self_left, mod-eq_of_lt, div-add-mod, mod-lt,
}
use sonatina.Base.{
  ℕ, zero, suc, ◌+◌, ◌-◌, ◌*◌, ◌/◌, ◌%◌, ◌^◌, ◌≤◌, ◌<◌, ◌≡◌, ap, ◌∙◌, sym, min, arith,
}

-- The remainder by an even number, digit by digit.
mod_double : (x p : ℕ) → 0 < p → (x / 2 % p) * 2 + x % 2 ≡ x % (p + p)
mod_double x p h =
    let q = x / 2 / p in
    let r = x / 2 % p in
    let rest = mod-lt (x / 2) h in
    let parts = div-add-mod (x / 2) p in
    let whole : x ≡ (r * 2 + x % 2) + (p + p) * q = omega (arith, parts) in
    let small : (r * 2 + x % 2) % (p + p) ≡ r * 2 + x % 2 = mod-eq_of_lt (omega arith) in
    sym (ap (λ t. t % (p + p)) whole ∙ add-mul-mod_self_left (r * 2 + x % 2) (p + p) q ∙ small)

-- The digits of the conjunction, with at least as much fuel as the first number needs.
and_ones : (fuel k a : ℕ) → a ≤ fuel → digits (λ b. zero) min fuel a (2 ^ k - 1) ≡ a % 2 ^ k
and_ones zero k zero h = omega arith
and_ones zero k (suc a) h = absurd (omega arith)
and_ones (suc n) k zero h = omega arith
and_ones (suc n) zero (suc a) h = omega (arith, and_ones n 0 (suc a / 2) (omega arith))
and_ones (suc n) (suc k) (suc a) h =
    let pos : 1 ≤ 2 ^ k = one-le-pow k 2 (omega arith) in
    let pow : 2 ^ suc k ≡ 2 ^ k + 2 ^ k = two-pow-succ k in
    let half : (2 ^ suc k - 1) / 2 ≡ 2 ^ k - 1 = omega (arith, pow) in
    let last : (2 ^ suc k - 1) % 2 ≡ 1 = omega (arith, pow) in
    let ih = and_ones n k (suc a / 2) (omega arith) in
    rw (half, last, ih, pow) (omega (arith, mod_double (suc a) (2 ^ k) pos))

-- A mask of `k` low ones keeps the remainder by `2 ^ k`.
pub bit_and_ones : (k a : ℕ) → bit_and a (2 ^ k - 1) ≡ a % 2 ^ k
bit_and_ones k a = bit_and-bitwise a (2 ^ k - 1) ∙ and_ones a k a (omega arith)
