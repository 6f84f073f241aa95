-- ===== src/Stackify/Slots/Examples.antt =====
-- Small runs of the frame slots of slots.rs.
use mathlib.Core.Option.{some-injective}
use sonatina.BitSets.Lists.{lists, lists-IsBitSet}
use sonatina.Base.{
  Bool-cases, inl, inr, ℕ, ◌≡◌, refl, Option, none, some, List, [], ◌∷◌, ◌==◌, arith, if◌then◌else◌,
}
use sonatina.Ir.Cfg.{insert, remove}
use sonatina.Stackify.Slots.{
  SlotPool, FreeSlots, new_pool, slot_for, take_slot_map, release, release_if_assigned,
  try_ensure_slot, take_released, choose, find_disjoint, grow, assign,
}
use sonatina.Stackify.Slots.Pools.{IsPool}
use sonatina.Stackify.Slots.Reuse.{Ensures, try_ensure_slot_lem}

-- The values 0 and 1 are live in block 5, the others in block 6.
abbrev live : ℕ → List ℕ
live v = if v == 0 then 5 ∷ [] else if v == 1 then 5 ∷ [] else 6 ∷ []

-- The value 0 has the slot 0.
abbrev pool : SlotPool (List ℕ)
pool = record {
  slot_of = λ v. if v == 0 then some 0 else none;
  next_slot = 1;
  slot_live_blocks = (5 ∷ []) ∷ [];
}

pool-IsPool : IsPool lists live pool
pool-IsPool = record {
  counted = refl;
  covers = λ w s e. elim (Bool-cases (w == 0)) [
    | inl zeroth ↦
        let same : 0 ≡ s = some-injective _ _ (rw zeroth at e) in
        (5 ∷ [], rw (← same), λ b m. ground arith)
    | inr other ↦ absurd (ground (arith, rw other at e))
  ];
}

try_ensure_slot_example :
    (r : Option ℕ) × (p' : SlotPool (List ℕ)) × (free' : FreeSlots) × (try_ensure_slot lists live
        pool 1
        (record { slots = [] })
        none
      ≡ some (r, p', free'))
    × Ensures lists live pool 1 (record { slots = [] }) none r p' free'
try_ensure_slot_example =
    try_ensure_slot_lem lists live lists-IsBitSet pool pool-IsPool 1 none (record { slots = [] })
      (λ s m. absurd cc) (omega arith)

-- The value 1 gets a new slot, or none at the limit of one; the value 2 gets the slot 0, which also the
-- value 1 gets once it is released.
abbrev slot_given : Option (Option ℕ × SlotPool (List ℕ) × FreeSlots) → Option (Option ℕ)
slot_given none = none
slot_given (some r) = some r.0

slots_test :
    (slot_given (try_ensure_slot lists live pool 1 (record { slots = [] }) none) ≡ some (some 1))
    × (slot_given (try_ensure_slot lists live pool 1 (record { slots = [] }) (some 1)) ≡ some none)
    × (slot_given (try_ensure_slot lists live pool 2 (record { slots = [] }) none) ≡ some (some 0))
    × (slot_given (
          try_ensure_slot lists live pool 1
            (release_if_assigned pool 0 (record { slots = [] }))
            none)
        ≡ some (some 0))
    × (slot_for (take_slot_map pool).1 0 ≡ none)
    × (slot_for (new_pool (List ℕ)) 0 ≡ none)
unfolding try_ensure_slot take_released choose find_disjoint grow assign release_if_assigned release
    insert remove slot_for take_slot_map new_pool
slots_test = (refl, refl, refl, refl, refl, refl)
