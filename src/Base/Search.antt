-- ===== src/Base/Search.antt =====
-- Rust's iterator searches over a list: `position`, `zip`, and `take_while(..).count()`.
use Prim.Native.Nat.{ℕ, suc}
use mathlib.Core.Bool.{Bool, true, false}
use mathlib.Core.List.{List, [], ◌∷◌}
use mathlib.Core.Option
use mathlib.Core.Option.{Option, none, some}

module _ {ℓ} {A : Type ℓ} where
  -- The index of the first item that passes the test.
  abbrev pub position : (A → Bool) → List A → Option ℕ
  position p [] = none
  position p (x ∷ xs) = elim (p x) [ true ↦ some 0 | false ↦ Option.map suc (position p xs) ]

  -- How many items at the front pass the test.
  abbrev pub count_while : (A → Bool) → List A → ℕ
  count_while p [] = 0
  count_while p (x ∷ xs) = elim (p x) [ true ↦ suc (count_while p xs) | false ↦ 0 ]

  abbrev pub zip {κ} : {B : Type κ} → List A → List B → List (A × B)
  zip [] ys = []
  zip (x ∷ xs) [] = []
  zip (x ∷ xs) (y ∷ ys) = (x, y) ∷ zip xs ys

abbrev pub unwrap_or {ℓ} : {A : Type ℓ} → Option A → A → A
unwrap_or none d = d
unwrap_or (some a) d = a
