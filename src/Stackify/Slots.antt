-- ===== src/Stackify/Slots.antt =====
-- crates/codegen/src/stackalloc/stackify/slots.rs: the frame slots of spilled values. A `SecondaryMap`
-- is a function and the `BTreeSet` of released slots its list in ascending order. The bit sets of
-- blocks are those of BitSets.antt, whose operations are a parameter. The outer `none` is a panic.
pub mod Pools
pub mod Reuse
mod Examples
use sonatina.Base.{
  ℕ, zero, suc, ◌+◌, ◌^◌, ◌≡◌, Bool, true, false, ◌||◌, Option, none, some, List, [], ◌∷◌, ◌++◌,
  ◌==◌, ltb, if◌then◌else◌, assert, get_elem?, set, ◌>>=◌, ◌>>◌,
}
use sonatina.BitSets.{BitSetOps}
use sonatina.Ir.Cfg.{insert, remove}

pub record SlotPool (S : Type 0) : Type 0 where
  pub slot_of : ℕ → Option ℕ
  pub next_slot : ℕ
  pub slot_live_blocks : List S

pub record FreeSlots : Type 0 where
  pub slots : List ℕ

pub release : ℕ → FreeSlots → FreeSlots
release slot f = record { slots = insert slot f.slots }

-- `self.slots.iter().next()`, then `remove`.
pub take_released : FreeSlots → Option ℕ × FreeSlots
take_released f = elim f.slots [
  | [] ↦ (none, f)
  | slot ∷ _ ↦ (some slot, record { slots = remove slot f.slots })
]

pub new_pool : (S : Type 0) → SlotPool S
new_pool S = record { slot_of = λ _. none; next_slot = 0; slot_live_blocks = [] }

pub slot_for : {S : Type 0} → SlotPool S → ℕ → Option ℕ
slot_for p v = p.slot_of v

-- The map that is taken, and the pool that is left with an empty one.
pub take_slot_map : {S : Type 0} → SlotPool S → (ℕ → Option ℕ) × SlotPool S
take_slot_map p = (p.slot_of, record p { slot_of = λ _. none })

pub release_if_assigned : {S : Type 0} → SlotPool S → ℕ → FreeSlots → FreeSlots
release_if_assigned p v f = elim (p.slot_of v) [ none ↦ f | some slot ↦ release slot f ]

module _ {S : Type 0} (ops : BitSetOps S) where
  -- The loop over the candidates from `c` on, of which `n` are left.
  pub find_disjoint : List S → S → ℕ → ℕ → Option (Option ℕ)
  find_disjoint sets live zero c = some none
  find_disjoint sets live (suc n) c = get_elem? sets c >>= λ s.
      let rest = find_disjoint sets live n (suc c) in
      if ops.is_disjoint s live then some (some c) else rest

  -- `max_slots.is_none_or(|max| self.next_slot < max)`
  abbrev pub can_grow : Option ℕ → ℕ → Bool
  can_grow none next = true
  can_grow (some max) next = ltb next max

  -- A slot at the end of the frame. Its index is a `u32`, and an index that overflows is a panic.
  pub grow : SlotPool S → Option (ℕ × SlotPool S)
  grow p = do
    assert (ltb (p.next_slot + 1) (2 ^ 32))
    some (
      p.next_slot,
      record p {
        next_slot = p.next_slot + 1;
        slot_live_blocks = p.slot_live_blocks ++ ops.default ∷ [];
      },
    )

  -- A slot that no live block of the value uses, or a new one where the frame can grow.
  pub choose : SlotPool S → S → Option ℕ → Option (Option (ℕ × SlotPool S))
  unfolding find_disjoint grow
  choose p live max = find_disjoint p.slot_live_blocks live p.next_slot 0 >>= λ found. elim found [
    | some slot ↦ some (some (slot, p))
    | none ↦ if can_grow max p.next_slot then (do r ← grow p; some (some r)) else some none
  ]

  -- The slot becomes the value's, and the value's live blocks are added to the slot's.
  pub assign : SlotPool S → ℕ → S → ℕ → Option (SlotPool S)
  assign p v live slot = do
    s ← get_elem? p.slot_live_blocks slot
    some (record p {
      slot_of = λ w. if w == v then some slot else p.slot_of w;
      slot_live_blocks = set p.slot_live_blocks slot (ops.union_with s live);
    })

  pub try_ensure_slot :
      (ℕ → S) → SlotPool S → ℕ → FreeSlots → Option ℕ → Option (Option ℕ × SlotPool S × FreeSlots)
  unfolding take_released choose assign
  try_ensure_slot val_live_blocks p v free max = elim (p.slot_of v) [
    | some slot ↦ some (some slot, p, free)
    | none ↦ elim (take_released free).0 [
      | some slot ↦
          assign p v (val_live_blocks v) slot >>= λ p'. some (some slot, p', (take_released free).1)
      | none ↦ choose p (val_live_blocks v) max >>= λ chosen. elim chosen [
        | none ↦ some (none, p, (take_released free).1)
        | some r ↦ assign r.1 v (val_live_blocks v) r.0 >>= λ p'.
            some (some r.0, p', (take_released free).1)
      ]
    ]
  ]
