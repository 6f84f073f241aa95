-- ===== src/Liveness/Compute.antt =====
-- liveness.rs: `compute` finds where each value is live.
use mathlib.Core.Option.{some-injective}
use sonatina.Base.{
  ℕ, ◌<◌, ◌≤◌, ◌≡◌, inl, inr, refl, sym, ap, ◌∙◌, Bool, true, false, ◌&&◌, ◌||◌, Option, none, some,
  List, [], ◌∷◌, ◌==◌, arith, mem, length, Bool-cases, ==_iff,
}
use sonatina.BitSets.{BitSetOps, IsBitSet}
use sonatina.Ir.Cfg.{ControlFlowGraph, preds_of}
use sonatina.Ir.Layout.{Layout}
use sonatina.Ir.Layout.Iter.{iter_lem}
use sonatina.Ir.Layout.Order.{IsOrder}
use sonatina.Liveness.{
  Dfg, ValDef, Liveness, up_and_mark, mark_use, visit_use, visit_uses, visit_blocks, for_each_use,
  uses_of, defs_of, set_defs,
}
use sonatina.Liveness.Upward.{up_and_mark_lem, unmarked-length}
use sonatina.Liveness.Uses.{
  use_at, uses_in, IsLive, IsLive-Follows, IsLive-other, IsLive-mark_use, IsLive-seen,
}

-- What the blocks of a list use.
abbrev pub uses_of_blocks : Dfg → (ℕ → List ℕ) → List ℕ → ℕ → ℕ → Bool
uses_of_blocks dfg is [] v b = false
uses_of_blocks dfg is (c ∷ cs) v b =
    uses_in c (uses_of dfg (is c)) v b || uses_of_blocks dfg is cs v b

-- The definitions of the values, where the blocks of a list define them.
abbrev pub defs_of_blocks : Dfg → (ℕ → List ℕ) → List ℕ → (ℕ → Option ValDef) → ℕ → Option ValDef
defs_of_blocks dfg is [] defs = defs
defs_of_blocks dfg is (c ∷ cs) defs =
    defs_of_blocks dfg is cs (set_defs c (defs_of dfg (is c)) defs)

module _ {S : Type 0} (ops : BitSetOps S) (laws : IsBitSet ops) (dfg : Dfg) (cfg : ControlFlowGraph)
    (us : List ℕ)
    (all : (b p : ℕ) → mem b us ≡ true → mem p (preds_of cfg b) ≡ true → mem p us ≡ true)
    (uses : ℕ → ℕ → Bool) (fuel : ℕ) (enough : length us < fuel) where
  -- What is known of all values: after the uses `seen`, their marks are right.
  abbrev pub Knows : Liveness S → (ℕ → ℕ → Bool) → Type 0
  Knows s seen =
      (v : ℕ) (def : ValDef)
      → dfg.value_is_imm v ≡ false
      → s.defs v ≡ some def
      → IsLive ops laws cfg v def (uses v) (seen v) s

  -- The used values that are no immediates are defined, and used in the blocks of `us`.
  abbrev pub IsUse : Liveness S → ℕ → ℕ → Type 0
  IsUse s v b =
      dfg.value_is_imm v ≡ false
      → ((def : ValDef) × (s.defs v ≡ some def)) × (uses v b ≡ true) × (mem b us ≡ true)

  visit_value :
      (s : Liveness S) (block w : ℕ) (source : Option ℕ)
      → dfg.value_is_imm w ≡ false
      → visit_use ops fuel dfg cfg block (w, source) s
        ≡ up_and_mark ops fuel cfg w (use_at block source) (mark_use ops w (use_at block source) s)
  unfolding visit_use
  visit_value s block w none n = rw n
  visit_value s block w (some pred) n = rw n

  visit_use_lem :
      (s : Liveness S) (block : ℕ) (u : ℕ × Option ℕ) (seen : ℕ → ℕ → Bool)
      → IsUse s u.0 (use_at block u.1)
      → Knows s seen
      → (t : Liveness S) × (visit_use ops fuel dfg cfg block u s ≡ some t)
        × (t.defs ≡ s.defs)
        × Knows t (λ v b. (v == u.0 && b == use_at block u.1) || seen v b)
  unfolding visit_use mark_use
  visit_use_lem s block (w, source) seen is_use k = elim (Bool-cases (dfg.value_is_imm w)) [
    | inl imm ↦ (
      mark_use ops w block s,
      rw imm,
      refl,
      λ v def n d.
          IsLive-seen ops laws cfg v def (uses v) (seen v) (mark_use ops w block s) _
            (λ b m. ground arith)
            (IsLive-mark_use ops laws cfg v def (uses v) (seen v) s w block (k v def n d)),
    )
    | inr val ↦
        let (defined, used, inside) = is_use val in
        let at = use_at block source in
        let s1 = mark_use ops w at s in
        let (t, r, f, q) =
          up_and_mark_lem ops laws cfg w defined.0 (uses w) us all fuel at s1 defined.1 (inl used)
            inside (let h = unmarked-length ops w s1 us in omega arith) in
        (
          t,
          visit_value s block w source val ∙ r,
          f.grows.same_defs,
          λ v def n d. elim (Bool-cases (v == w)) [
            | inl same ↦
                let e : v ≡ w = (==_iff v w).0 same in
                let before : s.defs v ≡ some def =
                  sym (ap (λ (m : ℕ → Option ValDef). m v) f.grows.same_defs) ∙ d in
                let e' : def ≡ defined.0 =
                  some-injective _ _ (sym before ∙ ap s.defs e ∙ defined.1) in
                rw (e, e')
                  (IsLive-seen ops laws cfg w defined.0 (uses w) (λ c. c == at || seen w c) t _
                    (λ b m. ground arith)
                    (IsLive-Follows ops laws cfg w defined.0 (uses w) (seen w) s1 t at
                      (IsLive-mark_use ops laws cfg w defined.0 (uses w) (seen w) s w at
                        (k w defined.0 val defined.1))
                      f q))
            | inr other ↦
                IsLive-seen ops laws cfg v def (uses v) (seen v) t _ (λ b m. ground arith)
                  (IsLive-other ops laws cfg v def (uses v) (seen v) s1 t w
                    (IsLive-mark_use ops laws cfg v def (uses v) (seen v) s w at
                      (k v def n (sym (ap (λ (m : ℕ → Option ValDef). m v) f.grows.same_defs) ∙ d)))
                    f.grows other)
          ],
        )
  ]

  Knows-seen :
      (s : Liveness S) (seen fewer : ℕ → ℕ → Bool)
      → ((v b : ℕ) → fewer v b ≡ true → seen v b ≡ true)
      → Knows s seen
      → Knows s fewer
  Knows-seen s seen fewer h k v def n d =
      IsLive-seen ops laws cfg v def (uses v) (seen v) s (fewer v) (h v) (k v def n d)

  IsUse-defs : (s t : Liveness S) (v b : ℕ) → t.defs ≡ s.defs → IsUse s v b → IsUse t v b
  IsUse-defs s t v b e h n = rw (ap (λ (m : ℕ → Option ValDef). m v) e) (h n)

  visit_uses_lem :
      (block : ℕ) (list : List (ℕ × Option ℕ)) (s : Liveness S) (seen : ℕ → ℕ → Bool)
      → ((v b : ℕ) → uses_in block list v b ≡ true → IsUse s v b)
      → Knows s seen
      → (t : Liveness S) × (visit_uses ops fuel dfg cfg block list s ≡ some t)
        × (t.defs ≡ s.defs)
        × Knows t (λ v b. uses_in block list v b || seen v b)
  unfolding visit_uses
  visit_uses_lem block [] s seen h k = (s, refl, refl, k)
  visit_uses_lem block (u ∷ list) s seen h k =
      let self = (==_iff u.0 u.0).1 refl in
      let at = use_at block u.1 in
      let (s1, r1, d1, k1) =
        visit_use_lem s block u seen (h u.0 at (rw (self, (==_iff at at).1 refl))) k in
      let (t, r, d, k') =
        visit_uses_lem block list s1 (λ v b. (v == u.0 && b == at) || seen v b)
          (λ v b m. IsUse-defs s s1 v b d1 (h v b (ground arith))) k1 in
      (
        t,
        rw r1 r,
        d ∙ d1,
        Knows-seen t (λ v b. uses_in block list v b || ((v == u.0 && b == at) || seen v b)) _
            (λ v b m. ground arith) k',
      )

  module _ (l : Layout) (bs : List ℕ) (is : ℕ → List ℕ) (o : IsOrder l bs is) where
    pub visit_blocks_lem :
        (cs : List ℕ) (s : Liveness S) (seen : ℕ → ℕ → Bool)
        → ((c : ℕ) → mem c cs ≡ true → (mem c bs ≡ true) × (length (is c) ≤ fuel))
        → length bs ≤ fuel
        → ((v b : ℕ) → uses_of_blocks dfg is cs v b ≡ true → IsUse s v b)
        → Knows s seen
        → (t : Liveness S) × (visit_blocks ops fuel dfg l cfg cs s ≡ some t)
          × (t.defs ≡ s.defs)
          × Knows t (λ v b. uses_of_blocks dfg is cs v b || seen v b)
    unfolding visit_blocks for_each_use
    visit_blocks_lem [] s seen inside short h k = (s, refl, refl, k)
    visit_blocks_lem (c ∷ cs) s seen inside short h k =
        let (m, le) = inside c (rw ((==_iff c c).1 refl)) in
        let (_, insts) = iter_lem l bs is c fuel o m short le in
        let (s1, r1, d1, k1) =
          visit_uses_lem c (uses_of dfg (is c)) s seen (λ v b q. h v b (rw q)) k in
        let (t, r, d, k') =
          visit_blocks_lem cs s1 (λ v b. uses_in c (uses_of dfg (is c)) v b || seen v b)
            (λ a q. inside a (ground arith)) short
            (λ v b q. IsUse-defs s s1 v b d1 (h v b (ground arith))) k1 in
        (
          t,
          rw (insts, r1) r,
          d ∙ d1,
          Knows-seen t
              (λ v b.
                uses_of_blocks dfg is cs v b || (uses_in c (uses_of dfg (is c)) v b || seen v b))
              _ (λ v b q. ground arith) k',
        )
