-- ===== src/Liveness/Uses.antt =====
-- liveness.rs: the uses of a value, one after the other, mark the places where it is live.
use sonatina.Base.{
  ℕ, ◌≡◌, inl, inr, sym, ap, ◌∙◌, Bool, true, false, ◌&&◌, ◌||◌, Option, none, some, List, [], ◌∷◌,
  ◌==◌, arith, mem, Bool-cases, ==_iff, ◌↔◌,
}
use sonatina.BitSets.{BitSetOps, IsBitSet}
use sonatina.Ir.Cfg.{ControlFlowGraph, preds_of}
use sonatina.Liveness.{ValDef, is_phi_in, Liveness, mark_use}
use sonatina.Liveness.Marks.{ins, outs, blocks, Grows}
use sonatina.Liveness.Search.{Follows, done, passed, done-Grows, passed-Grows}
use sonatina.Liveness.Paths.{LiveIn, LiveOut, Wanted}

-- The block in which a call of `for_each_use`'s function counts as a use.
abbrev pub use_at : ℕ → Option ℕ → ℕ
use_at block none = block
use_at block (some pred) = pred

-- A list of such calls has a use of `v` in `b`.
abbrev pub uses_in : ℕ → List (ℕ × Option ℕ) → ℕ → ℕ → Bool
uses_in block [] v b = false
uses_in block (u ∷ uses) v b = (v == u.0 && b == use_at block u.1) || uses_in block uses v b

module _ {S : Type 0} (ops : BitSetOps S) (laws : IsBitSet ops) (cfg : ControlFlowGraph) where
  -- Of a value, all marks are where it is live, the uses seen so far are gone through, and so are the
  -- predecessors of the marked blocks.
  pub record IsLive (v : ℕ) (def : ValDef) (uses seen : ℕ → Bool) (s : Liveness S) : Type 0 where
    pub defined : s.defs v ≡ some def
    pub closed :
        (c p : ℕ)
        → ins ops s v c ≡ true
        → is_phi_in def c ≡ false
        → mem p (preds_of cfg c) ≡ true
        → passed ops laws cfg v def uses s p ≡ true
    pub sound_ins : (c : ℕ) → ins ops s v c ≡ true → LiveIn cfg def uses c
    pub sound_outs : (c : ℕ) → outs ops s v c ≡ true → LiveOut cfg def uses c
    pub sound_blocks : (c : ℕ) → blocks ops s v c ≡ true → Wanted cfg def uses c
    pub covered : (c : ℕ) → seen c ≡ true → done ops laws cfg v def uses s c ≡ true

  module _ (v : ℕ) (def : ValDef) (uses seen : ℕ → Bool) (s : Liveness S) where
    -- A call for the value.
    pub IsLive-Follows :
        (t : Liveness S) (b : ℕ)
        → IsLive v def uses seen s
        → Follows ops laws cfg v def uses s t
        → done ops laws cfg v def uses t b ≡ true
        → IsLive v def uses (λ c. c == b || seen c) t
    IsLive-Follows t b l f d = record {
      defined = ap (λ (m : ℕ → Option ValDef). m v) f.grows.same_defs ∙ l.defined;
      closed = λ c p a k m. elim (Bool-cases (ins ops s v c)) [
        | inl old ↦ passed-Grows ops laws cfg v def uses s t p f.grows (l.closed c p old k m)
        | inr new ↦ f.closed c p new a k m
      ];
      sound_ins = λ c a. elim (Bool-cases (ins ops s v c)) [
        | inl old ↦ l.sound_ins c old
        | inr new ↦ f.sound_ins c new a
      ];
      sound_outs = λ c a. elim (Bool-cases (outs ops s v c)) [
        | inl old ↦ l.sound_outs c old
        | inr new ↦ f.sound_outs c new a
      ];
      sound_blocks = λ c a. elim (Bool-cases (blocks ops s v c)) [
        | inl old ↦ l.sound_blocks c old
        | inr new ↦ f.sound_blocks c new a
      ];
      covered = λ c a. elim (Bool-cases (c == b)) [
        | inl here ↦ rw ((==_iff c b).0 here) d
        | inr apart ↦ done-Grows ops laws cfg v def uses s t c f.grows (l.covered c (ground arith))
      ];
    }

    -- A call for another value.
    pub IsLive-other :
        (t : Liveness S) (w : ℕ)
        → IsLive v def uses seen s
        → Grows ops s t w
        → (v == w) ≡ false
        → IsLive v def uses seen t
    IsLive-other t w l g n = record {
      defined = ap (λ (m : ℕ → Option ValDef). m v) g.same_defs ∙ l.defined;
      closed = λ c p a k m. ground (
        arith,
        g.other_ins v c n,
        g.other_ins v p n,
        g.other_outs v p n,
        g.other_blocks v p n,
        l.closed c p,
      );
      sound_ins = λ c a. l.sound_ins c (sym (g.other_ins v c n) ∙ a);
      sound_outs = λ c a. l.sound_outs c (sym (g.other_outs v c n) ∙ a);
      sound_blocks = λ c a. l.sound_blocks c (sym (g.other_blocks v c n) ∙ a);
      covered = λ c a. ground (arith, g.other_ins v c n, g.other_blocks v c n, l.covered c);
    }

    -- Fewer uses were seen.
    pub IsLive-seen :
        (fewer : ℕ → Bool)
        → ((b : ℕ) → fewer b ≡ true → seen b ≡ true)
        → IsLive v def uses seen s
        → IsLive v def uses fewer s
    IsLive-seen fewer h l = record {
      defined = l.defined;
      closed = l.closed;
      sound_ins = l.sound_ins;
      sound_outs = l.sound_outs;
      sound_blocks = l.sound_blocks;
      covered = λ c a. l.covered c (h c a);
    }

    -- A use that is only counted.
    pub IsLive-mark_use :
        (w b : ℕ) → IsLive v def uses seen s → IsLive v def uses seen (mark_use ops w b s)
    unfolding mark_use
    IsLive-mark_use w b l = record {
      defined = l.defined;
      closed = l.closed;
      sound_ins = l.sound_ins;
      sound_outs = l.sound_outs;
      sound_blocks = l.sound_blocks;
      covered = l.covered;
    }

    -- Once all uses are seen, the marks are exactly where the value is live.
    module _ (l : IsLive v def uses seen s) (all : (b : ℕ) → uses b ≡ true → seen b ≡ true) where
      complete_ins : (b : ℕ) → LiveIn cfg def uses b → ins ops s v b ≡ true
      complete_ins b (LiveIn.used u n) = ground (arith, l.covered b, all b u)
      complete_ins b (LiveIn.back {c} m p k n) =
          let marked = complete_ins c p in ground (arith, l.closed c b marked k m)

      complete_outs : (b : ℕ) → LiveOut cfg def uses b → outs ops s v b ≡ true
      complete_outs b (c, m, p, k) = ground (arith, l.closed c b (complete_ins c p) k m)

      complete_blocks : (b : ℕ) → Wanted cfg def uses b → blocks ops s v b ≡ true
      complete_blocks b (inl u) = ground (arith, l.covered b, all b u)
      complete_blocks b (inr (c, m, p, k)) = ground (arith, l.closed c b (complete_ins c p) k m)

      pub IsLive-exact :
          (b : ℕ)
          → ((ins ops s v b ≡ true) ↔ LiveIn cfg def uses b)
            × ((outs ops s v b ≡ true) ↔ LiveOut cfg def uses b)
            × ((blocks ops s v b ≡ true) ↔ Wanted cfg def uses b)
      IsLive-exact b = (
        (l.sound_ins b, complete_ins b),
        (l.sound_outs b, complete_outs b),
        (l.sound_blocks b, complete_blocks b),
      )
