-- ===== src/BitSets/Lists.antt =====
-- Bit sets as lists, which meet the laws of `IsBitSet`.
use sonatina.BitSets.{BitSetOps, IsBitSet}
use sonatina.Base.{
  ℕ, ◌≡◌, refl, Bool, true, false, not, ◌&&◌, List, [], ◌∷◌, ◌++◌, ◌==◌, if◌then◌else◌, arith, mem,
  mem-append,
}

abbrev pub without : ℕ → List ℕ → List ℕ
without a [] = []
without a (x ∷ xs) = if x == a then without a xs else x ∷ without a xs

abbrev pub none_of : List ℕ → List ℕ → Bool
none_of [] ys = true
none_of (x ∷ xs) ys = not (mem x ys) && none_of xs ys

abbrev pub lists : BitSetOps (List ℕ)
lists = record {
  default = [];
  contains = λ s b. mem b s;
  insert = λ s a. a ∷ s;
  remove = λ s a. without a s;
  union_with = λ s t. s ++ t;
  is_disjoint = none_of;
}

mem-without : (b a : ℕ) (s : List ℕ) → mem b (without a s) ≡ (not (b == a) && mem b s)
mem-without b a [] = ground arith
mem-without b a (x ∷ s) = ground (arith, mem-without b a s)

none_of-mem : (s t : List ℕ) (b : ℕ) → none_of s t ≡ true → mem b s ≡ true → mem b t ≡ false
none_of-mem [] t b d m = absurd cc
none_of-mem (x ∷ s) t b d m = ground (arith, none_of-mem s t b)

pub lists-IsBitSet : IsBitSet lists
lists-IsBitSet = record {
  default_law = λ b. refl;
  insert_law = λ s a b. refl;
  remove_law = λ s a b. mem-without b a s;
  union_law = λ s t b. mem-append b s t;
  disjoint_law = none_of-mem;
}
