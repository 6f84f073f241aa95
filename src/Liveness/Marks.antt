-- ===== src/Liveness/Marks.antt =====
-- liveness.rs: what one call of `up_and_mark` marks.
use sonatina.Base.{ℕ, ◌≡◌, refl, ◌∙◌, Bool, true, false, ◌==◌, arith, ==_iff}
use sonatina.BitSets.{BitSetOps, IsBitSet}
use sonatina.Liveness.{Liveness, add_live_block, add_live_in, add_live_out}

module _ {S : Type 0} (ops : BitSetOps S) where
  -- What a state knows of a value at a block.
  abbrev pub ins : Liveness S → ℕ → ℕ → Bool
  ins s v b = ops.contains (s.live_ins b) v

  abbrev pub outs : Liveness S → ℕ → ℕ → Bool
  outs s v b = ops.contains (s.live_outs b) v

  abbrev pub blocks : Liveness S → ℕ → ℕ → Bool
  blocks s v b = ops.contains (s.val_live_blocks v) b

  -- What was marked stays so, and only the value's marks change.
  pub record Grows (s s' : Liveness S) (v : ℕ) : Type 0 where
    pub same_defs : s'.defs ≡ s.defs
    pub same_counts : s'.val_use_count ≡ s.val_use_count
    pub other_ins : (w b : ℕ) → (w == v) ≡ false → ins s' w b ≡ ins s w b
    pub other_outs : (w b : ℕ) → (w == v) ≡ false → outs s' w b ≡ outs s w b
    pub other_blocks : (w b : ℕ) → (w == v) ≡ false → blocks s' w b ≡ blocks s w b
    pub keeps_ins : (b : ℕ) → ins s v b ≡ true → ins s' v b ≡ true
    pub keeps_outs : (b : ℕ) → outs s v b ≡ true → outs s' v b ≡ true
    pub keeps_blocks : (b : ℕ) → blocks s v b ≡ true → blocks s' v b ≡ true

  pub Grows-refl : (s : Liveness S) (v : ℕ) → Grows s s v
  Grows-refl s v = record {
    same_defs = refl;
    same_counts = refl;
    other_ins = λ w b n. refl;
    other_outs = λ w b n. refl;
    other_blocks = λ w b n. refl;
    keeps_ins = λ b m. m;
    keeps_outs = λ b m. m;
    keeps_blocks = λ b m. m;
  }

  pub Grows-trans : (s t u : Liveness S) (v : ℕ) → Grows s t v → Grows t u v → Grows s u v
  Grows-trans s t u v g h = record {
    same_defs = h.same_defs ∙ g.same_defs;
    same_counts = h.same_counts ∙ g.same_counts;
    other_ins = λ w b n. h.other_ins w b n ∙ g.other_ins w b n;
    other_outs = λ w b n. h.other_outs w b n ∙ g.other_outs w b n;
    other_blocks = λ w b n. h.other_blocks w b n ∙ g.other_blocks w b n;
    keeps_ins = λ b m. h.keeps_ins b (g.keeps_ins b m);
    keeps_outs = λ b m. h.keeps_outs b (g.keeps_outs b m);
    keeps_blocks = λ b m. h.keeps_blocks b (g.keeps_blocks b m);
  }

  module _ (laws : IsBitSet ops) where
    pub add_live_block-Grows : (s : Liveness S) (v b : ℕ) → Grows s (add_live_block ops v b s) v
    add_live_block-Grows s v b = record {
      same_defs = refl;
      same_counts = refl;
      other_ins = λ w c n. refl;
      other_outs = λ w c n. refl;
      other_blocks = λ w c n. ground arith;
      keeps_ins = λ c m. m;
      keeps_outs = λ c m. m;
      keeps_blocks =
          λ c m. ground (arith, laws.insert_law (s.val_live_blocks v) b c, (==_iff v v).1 refl);
    }

    pub add_live_in-Grows : (s : Liveness S) (v b : ℕ) → Grows s (add_live_in ops v b s) v
    add_live_in-Grows s v b = record {
      same_defs = refl;
      same_counts = refl;
      other_ins = λ w c n.
          ground (arith, laws.insert_law (s.live_ins b) v w, laws.insert_law (s.live_ins c) v w);
      other_outs = λ w c n. refl;
      other_blocks = λ w c n. refl;
      keeps_ins = λ c m. ground (arith, laws.insert_law (s.live_ins b) v v, (==_iff v v).1 refl);
      keeps_outs = λ c m. m;
      keeps_blocks = λ c m. m;
    }

    pub add_live_out-Grows : (s : Liveness S) (v b : ℕ) → Grows s (add_live_out ops v b s) v
    add_live_out-Grows s v b = record {
      same_defs = refl;
      same_counts = refl;
      other_ins = λ w c n. refl;
      other_outs = λ w c n. ground (arith, laws.insert_law (s.live_outs b) v w);
      other_blocks = λ w c n. refl;
      keeps_ins = λ c m. m;
      keeps_outs = λ c m. ground (arith, laws.insert_law (s.live_outs b) v v, (==_iff v v).1 refl);
      keeps_blocks = λ c m. m;
    }
