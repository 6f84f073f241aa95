-- ===== src/Stackify/Slots/Pools.antt =====
-- slots.rs: a pool of slots, each of which knows the live blocks of its values.
use mathlib.Core.Option.{some-injective}
use sonatina.BitSets.{BitSetOps, IsBitSet}
use sonatina.Base.{
  ℕ, zero, suc, ◌+◌, ◌^◌, ◌<◌, ◌≤◌, ◌≡◌, ◌⊎◌, inl, inr, refl, sym, ap, ◌∙◌, true, false, none, some,
  List, [], ◌∷◌, ◌++◌, ◌==◌, if◌then◌else◌, length, get_elem?, set, arith, Bool-cases, ==_iff,
  lt→ltb, get_elem?-lt, lt-get_elem?, get_elem?-append_left, get_elem?-append, length-append,
  length-set, get_elem?-set_same, get_elem?-set_other,
}
use sonatina.Ir.Cfg.{remove}
use sonatina.Stackify.Slots.{SlotPool, take_released, find_disjoint, grow, assign}

module _ {S : Type 0} (ops : BitSetOps S) (live : ℕ → S) where
  -- The slots that values have are in the frame, and know the live blocks of their values.
  pub record IsPool (p : SlotPool S) : Type 0 where
    pub counted : length p.slot_live_blocks ≡ p.next_slot
    pub covers :
        (w s : ℕ)
        → p.slot_of w ≡ some s
        → (blocks : S) × (get_elem? p.slot_live_blocks s ≡ some blocks)
          × ((b : ℕ) → ops.contains (live w) b ≡ true → ops.contains blocks b ≡ true)

  pub find_disjoint_lem :
      (sets : List S) (l : S) (n c : ℕ)
      → c + n ≡ length sets
      → ((find_disjoint ops sets l n c ≡ some none)
          × ((k : ℕ)
              → c ≤ k
              → k < length sets
              → (s : S) × (get_elem? sets k ≡ some s) × (ops.is_disjoint s l ≡ false)))
        ⊎ ((k : ℕ) × (s : S) × (find_disjoint ops sets l n c ≡ some (some k))
            × (get_elem? sets k ≡ some s)
            × (ops.is_disjoint s l ≡ true))
  unfolding find_disjoint
  find_disjoint_lem sets l zero c h = inl (refl, λ k from to. absurd (omega arith))
  find_disjoint_lem sets l (suc n) c h =
      let (s, e) = get_elem?-lt sets c (omega arith) in
      elim (Bool-cases (ops.is_disjoint s l)) [
        | inl free ↦ inr (c, s, rw (e, free), e, free)
        | inr used ↦ elim (find_disjoint_lem sets l n (suc c) (omega arith)) [
          | inl all ↦ inl (
            rw (e, used) all.0,
            λ k from to. elim (Bool-cases (k == c)) [
              | inl first ↦ (s, rw ((==_iff k c).0 first) e, used)
              | inr later ↦ all.1 k (ground arith) to
            ],
          )
          | inr hit ↦ inr (hit.0, hit.1, rw (e, used) hit.2, hit.3, hit.4)
        ]
      ]

  pub assign_lem :
      (laws : IsBitSet ops) (p : SlotPool S) (v slot : ℕ) (s : S)
      → IsPool p
      → get_elem? p.slot_live_blocks slot ≡ some s
      → (p' : SlotPool S) × (assign ops p v (live v) slot ≡ some p')
        × IsPool p'
        × (p'.slot_of v ≡ some slot)
        × ((w : ℕ) → (w == v) ≡ false → p'.slot_of w ≡ p.slot_of w)
        × (p'.next_slot ≡ p.next_slot)
  unfolding assign
  assign_lem laws p v slot s h e =
      let sets = p.slot_live_blocks in
      let u = ops.union_with s (live v) in
      let inside = lt-get_elem? sets slot s e in
      let wider : (b : ℕ) → ops.contains (live v) b ≡ true → ops.contains u b ≡ true =
        λ b m. ground (arith, laws.union_law s (live v) b) in
      let older : (b : ℕ) → ops.contains s b ≡ true → ops.contains u b ≡ true =
        λ b m. ground (arith, laws.union_law s (live v) b) in
      let here = get_elem?-set_same sets slot u inside in
      (
        record p {
          slot_of = λ w. if w == v then some slot else p.slot_of w;
          slot_live_blocks = set sets slot u;
        },
        rw e,
        record {
          counted = length-set sets slot u ∙ h.counted;
          covers = λ w t f. elim (Bool-cases (w == v)) [
            | inl mine ↦
                let same : t ≡ slot = sym (some-injective _ _ (rw mine at f)) in
                (u, rw same here, rw ((==_iff w v).0 mine) wider)
            | inr other ↦
                let (blocks, at, all) = h.covers w t (rw other at f) in
                elim (Bool-cases (t == slot)) [
                  | inl shared ↦
                      let same : t ≡ slot = (==_iff t slot).0 shared in
                      let known : blocks ≡ s = some-injective _ _ (sym at ∙ rw same e) in
                      (u, rw same here, λ b m. older b (rw (sym known) (all b m)))
                  | inr apart ↦ (
                    blocks,
                    get_elem?-set_other sets slot t u (λ q. absurd (ground arith)) ∙ at,
                    all,
                  )
                ]
          ];
        },
        rw ((==_iff v v).1 refl),
        λ w other. rw other,
        refl,
      )

  pub grow_lem :
      (p : SlotPool S)
      → IsPool p
      → p.next_slot + 1 < 2 ^ 32
      → (p' : SlotPool S) × (grow ops p ≡ some (p.next_slot, p'))
        × IsPool p'
        × (get_elem? p'.slot_live_blocks p.next_slot ≡ some ops.default)
        × (p'.slot_of ≡ p.slot_of)
        × (p'.next_slot ≡ p.next_slot + 1)
  unfolding grow
  grow_lem p h fits =
      let sets = p.slot_live_blocks in
      (
        record p { next_slot = p.next_slot + 1; slot_live_blocks = sets ++ ops.default ∷ [] },
        rw (lt→ltb (p.next_slot + 1) (2 ^ 32) fits),
        record {
          counted = length-append sets (ops.default ∷ []) ∙ ap (λ n. n + 1) h.counted;
          covers = λ w s f.
              let (blocks, at, all) = h.covers w s f in
              (blocks, get_elem?-append_left sets (ops.default ∷ []) s blocks at, all);
        },
        rw (sym h.counted) (get_elem?-append sets [] ops.default),
        refl,
        refl,
      )

  pub take_released-cons :
      (s : ℕ) (rest : List ℕ)
      → take_released (record { slots = s ∷ rest }) ≡ (some s, record { slots = rest })
  unfolding take_released remove
  take_released-cons s rest = rw ((==_iff s s).1 refl)
