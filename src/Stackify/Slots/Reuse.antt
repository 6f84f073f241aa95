-- ===== src/Stackify/Slots/Reuse.antt =====
-- slots.rs: a slot is shared only by values that are not live in a common block, or that were released.
use mathlib.Core.Option.{some-injective}
use sonatina.BitSets.{BitSetOps, IsBitSet}
use sonatina.Base.{
  ℕ, ◌+◌, ◌^◌, ◌<◌, ◌≤◌, ◌≡◌, inl, inr, refl, sym, ap, ◌∙◌, true, false, Option, none, some, List,
  [], ◌∷◌, ◌==◌, get_elem?, arith, mem, Bool-cases, Option-cases, ==_iff, ltb→lt, get_elem?-lt,
  lt-get_elem?,
}
use sonatina.Stackify.Slots.Pools.{
  IsPool, find_disjoint_lem, assign_lem, grow_lem, take_released-cons,
}
use sonatina.Stackify.Slots.{
  SlotPool, FreeSlots, take_released, find_disjoint, can_grow, grow, choose, assign,
  try_ensure_slot,
}

module _ {S : Type 0} (ops : BitSetOps S) (live : ℕ → S) where
  -- Released slots are in the frame.
  abbrev pub IsReleased : SlotPool S → FreeSlots → Type 0
  IsReleased p free = (s : ℕ) → mem s free.slots ≡ true → s < p.next_slot

  -- What is known of a call's result: the slot, if there is one, and the pool and the released slots
  -- after it.
  pub record Ensures (p : SlotPool S) (v : ℕ) (free : FreeSlots) (max : Option ℕ) (r : Option ℕ)
      (p' : SlotPool S) (free' : FreeSlots) : Type 0 where
    pub is_pool : IsPool ops live p'
    pub released : IsReleased p' free'
    pub others : (w : ℕ) → (w == v) ≡ false → p'.slot_of w ≡ p.slot_of w
    pub given : (s : ℕ) → r ≡ some s → (p'.slot_of v ≡ some s) × (s < p'.next_slot)
    pub shared :
        (s w b : ℕ)
        → r ≡ some s
        → p.slot_of v ≡ none
        → mem s free.slots ≡ false
        → p.slot_of w ≡ some s
        → ops.contains (live w) b ≡ true
        → ops.contains (live v) b ≡ false
    pub refused :
        r ≡ none
        → (p.slot_of v ≡ none)
          × (free.slots ≡ [])
          × (can_grow ops max p.next_slot ≡ false)
          × ((k : ℕ)
              → k < p.next_slot
              → (s : S) × (get_elem? p.slot_live_blocks k ≡ some s)
                × (ops.is_disjoint s (live v) ≡ false))
    pub bounded : (m : ℕ) → max ≡ some m → p.next_slot ≤ m → p'.next_slot ≤ m

  module _ (laws : IsBitSet ops) (p : SlotPool S) (h : IsPool ops live p) (v : ℕ)
      (max : Option ℕ) where
    in_frame : (w s : ℕ) → p.slot_of w ≡ some s → s < p.next_slot
    in_frame w s e =
        let (blocks, at, _) = h.covers w s e in
        let lt = lt-get_elem? p.slot_live_blocks s blocks at in let n = h.counted in omega arith

    -- The value has a slot.
    kept :
        (free : FreeSlots) (s : ℕ)
        → IsReleased p free
        → p.slot_of v ≡ some s
        → Ensures p v free max (some s) p free
    kept free s k e = record {
      is_pool = h;
      released = k;
      others = λ w other. refl;
      given = λ t g.
          let same : s ≡ t = some-injective _ _ g in (rw (← same) e, in_frame v t (rw (← same) e));
      shared = λ t w b g without. absurd cc;
      refused = λ g. absurd cc;
      bounded = λ m g le. le;
    }

    -- The value gets a slot that was released.
    taken :
        (s : ℕ) (rest : List ℕ)
        → IsReleased p (record { slots = s ∷ rest })
        → (p' : SlotPool S) × (assign ops p v (live v) s ≡ some p')
          × Ensures p v (record { slots = s ∷ rest }) max (some s) p' (record { slots = rest })
    taken s rest k =
        let lt = k s (ground (arith, (==_iff s s).1 refl)) in
        let n = h.counted in
        let (blocks, at) = get_elem?-lt p.slot_live_blocks s (omega arith) in
        let (p', r, h', mine, others, next) = assign_lem ops live laws p v s blocks h at in
        (
          p',
          r,
          record {
            is_pool = h';
            released = λ t m. rw next (k t (ground arith));
            others = others;
            given = λ t g.
                let same : s ≡ t = some-injective _ _ g in (rw (← same) mine, rw (next, ← same) lt);
            shared = λ t w b g without out.
                absurd (ground (arith, some-injective s t g, (==_iff s s).1 refl));
            refused = λ g. absurd cc;
            bounded = λ m g le. rw next le;
          },
        )

    -- The value gets a slot whose values are not live where it is.
    found :
        (k : ℕ) (s : S)
        → p.slot_of v ≡ none
        → get_elem? p.slot_live_blocks k ≡ some s
        → ops.is_disjoint s (live v) ≡ true
        → (p' : SlotPool S) × (assign ops p v (live v) k ≡ some p')
          × Ensures p v (record { slots = [] }) max (some k) p' (record { slots = [] })
    found k s without at apart =
        let lt = lt-get_elem? p.slot_live_blocks k s at in
        let n = h.counted in
        let (p', r, h', mine, others, next) = assign_lem ops live laws p v k s h at in
        (
          p',
          r,
          record {
            is_pool = h';
            released = λ t m. absurd cc;
            others = others;
            given = λ t g.
                let same : k ≡ t = some-injective _ _ g in
                (rw (← same) mine, rw (next, ← same) (omega arith));
            shared = λ t w b g _ _ own m.
                let same : k ≡ t = some-injective _ _ g in
                let (blocks, at', all) = h.covers w t own in
                let known : blocks ≡ s = some-injective _ _ (sym at' ∙ rw (← same) at) in
                laws.disjoint_law s (live v) b apart (rw (sym known) (all b m));
            refused = λ g. absurd cc;
            bounded = λ m g le. rw next le;
          },
        )

    -- The value gets a new slot.
    grown :
        p.slot_of v ≡ none
        → p.next_slot + 1 < 2 ^ 32
        → can_grow ops max p.next_slot ≡ true
        → (p1 : SlotPool S) × (p' : SlotPool S) × (grow ops p ≡ some (p.next_slot, p1))
          × (assign ops p1 v (live v) p.next_slot ≡ some p')
          × Ensures p v (record { slots = [] }) max (some p.next_slot) p' (record { slots = [] })
    grown without fits room =
        let (p1, r1, h1, at, same_slots, next1) = grow_lem ops live p h fits in
        let (p', r, h', mine, others, next) =
          assign_lem ops live laws p1 v p.next_slot ops.default h1 at in
        (
          p1,
          p',
          r1,
          r,
          record {
            is_pool = h';
            released = λ t m. absurd cc;
            others = λ w other. others w other ∙ ap (λ (f : ℕ → Option ℕ). f w) same_slots;
            given = λ t g.
                let same : p.next_slot ≡ t = some-injective _ _ g in
                (rw (← same) mine, rw (next, next1, ← same) (omega arith));
            shared = λ t w b g _ _ own m.
                let same : p.next_slot ≡ t = some-injective _ _ g in
                let lt = in_frame w t own in absurd (omega arith);
            refused = λ g. absurd cc;
            bounded = λ m g le.
                rw (next, next1) (let lt = ltb→lt p.next_slot m (rw g at room) in omega arith);
          },
        )

    -- The value gets no slot.
    full :
        p.slot_of v ≡ none
        → can_grow ops max p.next_slot ≡ false
        → ((k : ℕ)
            → k < p.next_slot
            → (s : S) × (get_elem? p.slot_live_blocks k ≡ some s)
              × (ops.is_disjoint s (live v) ≡ false))
        → Ensures p v (record { slots = [] }) max none p (record { slots = [] })
    full without room all = record {
      is_pool = h;
      released = λ t m. absurd cc;
      others = λ w other. refl;
      given = λ t g. absurd cc;
      shared = λ t w b g. absurd cc;
      refused = λ g. (without, refl, room, all);
      bounded = λ m g le. le;
    }

    run_grown :
        (p1 p' : SlotPool S)
        → p.slot_of v ≡ none
        → find_disjoint ops p.slot_live_blocks (live v) p.next_slot 0 ≡ some none
        → can_grow ops max p.next_slot ≡ true
        → grow ops p ≡ some (p.next_slot, p1)
        → assign ops p1 v (live v) p.next_slot ≡ some p'
        → try_ensure_slot ops live p v (record { slots = [] }) max
          ≡ some (some p.next_slot, p', record { slots = [] })
    unfolding try_ensure_slot take_released choose
    run_grown p1 p' without miss room g r = rw (without, try_ensure_slot, miss, room, g, r) refl

    ensured :
        (slots : List ℕ)
        → IsReleased p (record { slots = slots })
        → p.next_slot + 1 < 2 ^ 32
        → p.slot_of v ≡ none
        → (r : Option ℕ) × (p' : SlotPool S) × (free' : FreeSlots) × (try_ensure_slot ops live p v
              (record { slots = slots })
              max
            ≡ some (r, p', free'))
          × Ensures p v (record { slots = slots }) max r p' free'
    unfolding try_ensure_slot take_released choose
    ensured (s ∷ rest) k fits without =
        let (p', r, o) = taken s rest k in
        (
          some s,
          p',
          record { slots = rest },
          rw (without, try_ensure_slot, r)
              (ap (λ (f : Option ℕ × FreeSlots). some (some s, p', f.1))
                (take_released-cons ops live s rest)),
          o,
        )
    ensured [] k fits without =
        elim (find_disjoint_lem ops live p.slot_live_blocks (live v) p.next_slot 0
          (let n = h.counted in omega arith)) [
            | inr (c, s, hit, at, apart) ↦
                let (p', r, o) = found c s without at apart in
                (some c, p', record { slots = [] }, rw (without, try_ensure_slot, hit, r) refl, o)
            | inl (miss, all) ↦ elim (Bool-cases (can_grow ops max p.next_slot)) [
              | inl room ↦
                  let (p1, p', g, r, o) = grown without fits room in
                  (
                    some p.next_slot,
                    p',
                    record { slots = [] },
                    run_grown p1 p' without miss room g r,
                    o,
                  )
              | inr none_left ↦ (
                none,
                p,
                record { slots = [] },
                rw (without, try_ensure_slot, miss, none_left) refl,
                full without none_left
                    (λ c lt. let n = h.counted in all c (omega arith) (omega arith)),
              )
            ]
          ]

    -- For a pool whose slots know the live blocks of their values, with released slots of the frame,
    -- and as long as the next index fits a `u32`, the call succeeds. It keeps what holds of the pool
    -- and of the released slots, leaves the other values their slots, and gives the value a slot of
    -- the frame. Unless the value had it or it was released, no value that has that slot is live in a
    -- block where this one is. It gives none only if no slot was released, the blocks of no slot are
    -- disjoint from the value's, and the frame is at its limit; a frame within its limit stays within
    -- it.
    pub try_ensure_slot_lem :
        (free : FreeSlots)
        → IsReleased p free
        → p.next_slot + 1 < 2 ^ 32
        → (r : Option ℕ) × (p' : SlotPool S) × (free' : FreeSlots) × (try_ensure_slot ops live p v
              free max
            ≡ some (r, p', free'))
          × Ensures p v free max r p' free'
    unfolding try_ensure_slot
    try_ensure_slot_lem free k fits = elim (Option-cases (p.slot_of v)) [
      | inr own ↦ (some own.0, p, free, rw (own.1, try_ensure_slot) refl, kept free own.0 k own.1)
      | inl without ↦ ensured free.slots k fits without
    ]
