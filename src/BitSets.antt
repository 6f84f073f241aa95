-- ===== src/BitSets.antt =====
-- crates/codegen/src/bitset.rs: bit sets, which forward to the package `bit_set`. Its operations are
-- parameters, and `IsBitSet` states their documented behaviour.
pub mod Lists
use sonatina.Base.{ℕ, ◌≡◌, Bool, true, false, not, ◌&&◌, ◌||◌, ◌==◌}

pub record BitSetOps (S : Type 0) : Type 0 where
  pub default : S
  pub contains : S → ℕ → Bool
  pub insert : S → ℕ → S
  pub remove : S → ℕ → S
  pub union_with : S → S → S
  pub is_disjoint : S → S → Bool

pub record IsBitSet {S : Type 0} (ops : BitSetOps S) : Type 0 where
  pub default_law : (b : ℕ) → ops.contains ops.default b ≡ false
  pub insert_law :
      (s : S) (a b : ℕ) → ops.contains (ops.insert s a) b ≡ ((b == a) || ops.contains s b)
  pub remove_law :
      (s : S) (a b : ℕ) → ops.contains (ops.remove s a) b ≡ (not (b == a) && ops.contains s b)
  pub union_law :
      (s t : S) (b : ℕ)
      → ops.contains (ops.union_with s t) b ≡ (ops.contains s b || ops.contains t b)
  pub disjoint_law :
      (s t : S) (b : ℕ)
      → ops.is_disjoint s t ≡ true
      → ops.contains s b ≡ true
      → ops.contains t b ≡ false
