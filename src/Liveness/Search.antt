-- ===== src/Liveness/Search.antt =====
-- liveness.rs: `up_and_mark` ends, and marks what the paths lead to.
use sonatina.Base.{
  ℕ, ◌≡◌, inl, inr, refl, Bool, true, false, ◌&&◌, ◌||◌, arith, mem, Bool-cases, ==_iff,
}
use sonatina.BitSets.{BitSetOps, IsBitSet}
use sonatina.Ir.Cfg.{ControlFlowGraph, preds_of}
use sonatina.Liveness.{ValDef, is_normal, is_phi_in, Liveness, add_live_block, add_live_out}
use sonatina.Liveness.Marks.{
  ins, outs, blocks, Grows, Grows-refl, Grows-trans, add_live_block-Grows, add_live_out-Grows,
}
use sonatina.Liveness.Paths.{LiveIn, LiveOut, Wanted}

module _ {S : Type 0} (ops : BitSetOps S) (laws : IsBitSet ops) (cfg : ControlFlowGraph) (v : ℕ)
    (def : ValDef) (uses : ℕ → Bool) where
  -- The search has been at a block.
  abbrev pub done : Liveness S → ℕ → Bool
  done s b = blocks ops s v b && (is_normal def b || ins ops s v b)

  abbrev pub passed : Liveness S → ℕ → Bool
  passed s p = outs ops s v p && done s p

  pub done-Grows : (s t : Liveness S) (b : ℕ) → Grows ops s t v → done s b ≡ true → done t b ≡ true
  done-Grows s t b g d = ground (arith, g.keeps_blocks b, g.keeps_ins b)

  pub passed-Grows :
      (s t : Liveness S) (b : ℕ) → Grows ops s t v → passed s b ≡ true → passed t b ≡ true
  passed-Grows s t b g d = ground (arith, g.keeps_outs b, done-Grows s t b g)

  -- The new marks are at places where the value is live, and the search has been at the predecessors
  -- of each newly marked block that has no phi for the value.
  pub record Follows (s t : Liveness S) : Type 0 where
    pub grows : Grows ops s t v
    pub closed :
        (c p : ℕ)
        → ins ops s v c ≡ false
        → ins ops t v c ≡ true
        → is_phi_in def c ≡ false
        → mem p (preds_of cfg c) ≡ true
        → passed t p ≡ true
    pub sound_ins : (c : ℕ) → ins ops s v c ≡ false → ins ops t v c ≡ true → LiveIn cfg def uses c
    pub sound_outs :
        (c : ℕ) → outs ops s v c ≡ false → outs ops t v c ≡ true → LiveOut cfg def uses c
    pub sound_blocks :
        (c : ℕ) → blocks ops s v c ≡ false → blocks ops t v c ≡ true → Wanted cfg def uses c

  pub Follows-refl : (s : Liveness S) → Follows s s
  Follows-refl s = record {
    grows = Grows-refl ops s v;
    closed = λ c p a m. absurd (ground arith);
    sound_ins = λ c a m. absurd (ground arith);
    sound_outs = λ c a m. absurd (ground arith);
    sound_blocks = λ c a m. absurd (ground arith);
  }

  pub Follows-trans : (s t u : Liveness S) → Follows s t → Follows t u → Follows s u
  Follows-trans s t u f g = record {
    grows = Grows-trans ops s t u v f.grows g.grows;
    closed = λ c p a b k m. elim (Bool-cases (ins ops t v c)) [
      | inl old ↦ passed-Grows t u p g.grows (f.closed c p a old k m)
      | inr new ↦ g.closed c p new b k m
    ];
    sound_ins = λ c a b. elim (Bool-cases (ins ops t v c)) [
      | inl old ↦ f.sound_ins c a old
      | inr new ↦ g.sound_ins c new b
    ];
    sound_outs = λ c a b. elim (Bool-cases (outs ops t v c)) [
      | inl old ↦ f.sound_outs c a old
      | inr new ↦ g.sound_outs c new b
    ];
    sound_blocks = λ c a b. elim (Bool-cases (blocks ops t v c)) [
      | inl old ↦ f.sound_blocks c a old
      | inr new ↦ g.sound_blocks c new b
    ];
  }

  pub add_live_block-Follows :
      (s : Liveness S) (b : ℕ) → Wanted cfg def uses b → Follows s (add_live_block ops v b s)
  add_live_block-Follows s b w = record {
    grows = add_live_block-Grows ops laws s v b;
    closed = λ c p a m. absurd (ground arith);
    sound_ins = λ c a m. absurd (ground arith);
    sound_outs = λ c a m. absurd (ground arith);
    sound_blocks = λ c a m.
        let same : c ≡ b =
          (==_iff c b).0
            (ground (arith, laws.insert_law (s.val_live_blocks v) b c, (==_iff v v).1 refl)) in
        rw same w;
  }

  pub add_live_out-Follows :
      (s : Liveness S) (b : ℕ) → LiveOut cfg def uses b → Follows s (add_live_out ops v b s)
  add_live_out-Follows s b w = record {
    grows = add_live_out-Grows ops laws s v b;
    closed = λ c p a m. absurd (ground arith);
    sound_ins = λ c a m. absurd (ground arith);
    sound_outs = λ c a m.
        let same : c ≡ b = (==_iff c b).0 (ground (arith, laws.insert_law (s.live_outs b) v v)) in
        rw same w;
    sound_blocks = λ c a m. absurd (ground arith);
  }
