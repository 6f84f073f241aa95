-- ===== src/Stackify/SymStack/Machine/Steps.antt =====
-- Actions on a stack of machine words, top first. What a word is, which word an immediate stands
-- for, the continuation address and what a load finds are parameters.
use sonatina.Base.{
  ℕ, zero, suc, ◌≡◌, refl, ap, Option, none, some, List, [], ◌∷◌, ◌++◌, map, arith, get_elem?, set,
  ◌>>=◌,
}
use sonatina.Ir.Value.{Immediate}
use sonatina.Stackify.{Action}
use sonatina.Stackify.SymStack.{Actions}

pub record Words {ℓ} (W : Type ℓ) : Type ℓ where
  pub immediate : Immediate → W
  pub continuation : W
  pub loaded : Action → W

module _ {ℓ} {W : Type ℓ} (words : Words W) where
  -- DUP1 is `stack_dup 0`, SWAP1 is `stack_swap 1`.
  unfoldable pub exec_action : Action → List W → Option (List W)
  exec_action (Action.stack_dup n) s = do x ← get_elem? s n; some (x ∷ s)
  exec_action (Action.stack_swap n) s = do
    a ← get_elem? s 0
    b ← get_elem? s n
    some (set (set s 0 b) n a)
  exec_action (Action.push imm) s = some (words.immediate imm ∷ s)
  exec_action Action.push_continuation_offset s = some (words.continuation ∷ s)
  exec_action Action.pop [] = none
  exec_action Action.pop (x ∷ s) = some s
  exec_action (Action.mem_load_abs n) s = some (words.loaded (Action.mem_load_abs n) ∷ s)
  exec_action (Action.mem_load_frame_slot n) s =
      some (words.loaded (Action.mem_load_frame_slot n) ∷ s)
  exec_action (Action.mem_load_obj n) s = some (words.loaded (Action.mem_load_obj n) ∷ s)
  exec_action _ [] = none
  exec_action _ (x ∷ s) = some s

  unfoldable pub exec : Actions → List W → Option (List W)
  exec [] s = some s
  exec (a ∷ acts) s = exec_action a s >>= λ t. exec acts t

  pub exec-append :
      (xs ys : Actions) (s : List W) → exec (xs ++ ys) s ≡ (exec xs s >>= λ t. exec ys t)
  unfolding exec
  exec-append [] ys s = refl
  exec-append (a ∷ xs) ys s =
      elim (exec_action a s)
        as (λ o. (o >>= λ t. exec (xs ++ ys) t) ≡ ((o >>= λ t. exec xs t) >>= λ t. exec ys t)) [
          | none ↦ refl
          | some t ↦ exec-append xs ys t
        ]

module _ {ℓ κ} {A : Type ℓ} {W : Type κ} (f : A → W) where
  pub get_elem?-map :
      (xs : List A) (ws : List W) (i : ℕ) (x : A)
      → get_elem? xs i ≡ some x
      → get_elem? (map f xs ++ ws) i ≡ some (f x)
  get_elem?-map [] ws i x h = cc
  get_elem?-map (y ∷ xs) ws zero x h = ground arith
  get_elem?-map (y ∷ xs) ws (suc i) x h = get_elem?-map xs ws i x h

  pub set-map :
      (xs : List A) (ws : List W) (i : ℕ) (x y : A)
      → get_elem? xs i ≡ some x
      → set (map f xs ++ ws) i (f y) ≡ map f (set xs i y) ++ ws
  set-map [] ws i x y h = cc
  set-map (z ∷ xs) ws zero x y h = refl
  set-map (z ∷ xs) ws (suc i) x y h = ap (λ t. f z ∷ t) (set-map xs ws i x y h)

module _ {ℓ} {A : Type ℓ} where
  -- A write leaves the other places alone, and every place is still there.
  pub get_elem?-set :
      (xs : List A) (i j : ℕ) (x y : A)
      → get_elem? xs j ≡ some x
      → (z : A) × (get_elem? (set xs i y) j ≡ some z)
  get_elem?-set [] i j x y h = cc
  get_elem?-set (w ∷ xs) zero zero x y h = (y, refl)
  get_elem?-set (w ∷ xs) zero (suc j) x y h = (x, h)
  get_elem?-set (w ∷ xs) (suc i) zero x y h = (w, refl)
  get_elem?-set (w ∷ xs) (suc i) (suc j) x y h = get_elem?-set xs i j x y h
