-- ===== src/Base/Positions.antt =====
-- What `position` finds.
use Prim.Native.Nat.{ℕ, zero, suc, ◌+◌, ◌≤◌, ◌<◌}
use mathlib.Core.Path.{◌≡◌, refl}
use mathlib.Core.Bool.{Bool, true}
use mathlib.Core.List.{List, [], ◌∷◌}
use mathlib.Core.Option
use mathlib.Core.Option.{Option, none, some}
use native.Mathlib.Nat.{zero-add, suc-add}
use native.Mathlib.Omega.{arith}
use mathlib.Core.Logic.{inl, inr}
use sonatina.Base.Tests.{Bool-cases}
use sonatina.Base.Lists.{get_elem?, take, drop}
use sonatina.Base.Search.{position}

map-suc-ne-zero : (o : Option ℕ) → Option.map suc o ≡ some 0 → ⊥
map-suc-ne-zero none h = cc
map-suc-ne-zero (some n) h = ground arith

map-suc-eq_suc : (o : Option ℕ) (i : ℕ) → Option.map suc o ≡ some (suc i) → o ≡ some i
map-suc-eq_suc none i h = cc
map-suc-eq_suc (some n) i h = cc

module _ {ℓ} {A : Type ℓ} (p : A → Bool) where
  -- The item that is found passes the test.
  pub position_sound :
      (xs : List A) (i : ℕ)
      → position p xs ≡ some i
      → (x : A) × (get_elem? xs i ≡ some x) × (p x ≡ true)
  position_sound [] i h = cc
  position_sound (x ∷ xs) zero h = elim (Bool-cases (p x)) [
    | inl t ↦ (x, refl, t)
    | inr f ↦ absurd (map-suc-ne-zero (position p xs) (rw (f, position) at h))
  ]
  position_sound (x ∷ xs) (suc i) h = elim (Bool-cases (p x)) [
    | inl t ↦ ground arith
    | inr f ↦ position_sound xs i (map-suc-eq_suc (position p xs) i (rw (f, position) at h))
  ]

  -- An item that passes the test is found, or one before it.
  pub position_complete :
      (xs : List A) (i : ℕ) (x : A)
      → get_elem? xs i ≡ some x
      → p x ≡ true
      → (j : ℕ) × (position p xs ≡ some j) × (j ≤ i)
  position_complete [] i x h t = cc
  position_complete (y ∷ xs) zero x h t = (0, ground arith, omega arith)
  position_complete (y ∷ xs) (suc i) x h t =
      let (j, e, le) = position_complete xs i x h t in
      elim (Bool-cases (p y)) [
        | inl hit ↦ (0, rw (hit, position) refl, omega arith)
        | inr miss ↦ (suc j, rw (miss, e, position) refl, omega arith)
      ]

module _ {ℓ} {A : Type ℓ} where
  pub get_elem?-take :
      (n : ℕ) (xs : List A) (i : ℕ) (x : A)
      → get_elem? (take n xs) i ≡ some x
      → (get_elem? xs i ≡ some x) × (i < n)
  get_elem?-take zero xs i x h = cc
  get_elem?-take (suc n) [] i x h = cc
  get_elem?-take (suc n) (y ∷ xs) zero x h = (h, omega arith)
  get_elem?-take (suc n) (y ∷ xs) (suc i) x h =
      let (e, l) = get_elem?-take n xs i x h in (e, omega arith)

  pub get_elem?-take_lt :
      (n : ℕ) (xs : List A) (i : ℕ) → i < n → get_elem? (take n xs) i ≡ get_elem? xs i
  get_elem?-take_lt zero xs i h = elim h [ ]
  get_elem?-take_lt (suc n) [] i h = refl
  get_elem?-take_lt (suc n) (y ∷ xs) zero h = refl
  get_elem?-take_lt (suc n) (y ∷ xs) (suc i) h = get_elem?-take_lt n xs i (omega arith)

  pub get_elem?-drop :
      (n : ℕ) (xs : List A) (i : ℕ) → get_elem? (drop n xs) i ≡ get_elem? xs (n + i)
  get_elem?-drop zero xs i = rw (zero-add i)
  get_elem?-drop (suc n) [] i = ground arith
  get_elem?-drop (suc n) (y ∷ xs) i = rw (suc-add n i) (get_elem?-drop n xs i)
