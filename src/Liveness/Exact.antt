-- ===== src/Liveness/Exact.antt =====
-- liveness.rs: after `compute`, the sets of a function say exactly where each value is live.
use sonatina.Base.{
  ℕ, ◌<◌, ◌≤◌, ◌≡◌, refl, ap, ◌∙◌, Bool, true, false, Option, none, some, List, [], ◌∷◌, arith, mem,
  length, ==_iff, ◌↔◌,
}
use sonatina.BitSets.{BitSetOps, IsBitSet}
use sonatina.Ir.Cfg.{ControlFlowGraph, preds_of, post_order}
use sonatina.Ir.Cfg.PostOrders.{
  IsPostOrder, rounds_of, order_of, post_order-order_of, length-rounds_of,
}
use sonatina.Ir.Cfg.Visits.{Reaches}
use sonatina.Ir.Layout.{Layout}
use sonatina.Ir.Layout.Iter.{iter_lem}
use sonatina.Ir.Layout.Order.{IsOrder}
use sonatina.Liveness.{Dfg, ValDef, Liveness, for_each_def, set_args, define_blocks, compute, clear}
use sonatina.Liveness.Compute.{uses_of_blocks, defs_of_blocks, visit_blocks_lem}
use sonatina.Liveness.Marks.{ins, outs, blocks}
use sonatina.Liveness.Paths.{LiveIn, LiveOut, Wanted}
use sonatina.Liveness.Uses.{IsLive, IsLive-exact}

module _ (dfg : Dfg) (l : Layout) (bs : List ℕ) (is : ℕ → List ℕ) (o : IsOrder l bs is) where
  define_blocks_lem :
      (fuel : ℕ) (cs : List ℕ) (defs : ℕ → Option ValDef)
      → ((c : ℕ) → mem c cs ≡ true → (mem c bs ≡ true) × (length (is c) ≤ fuel))
      → length bs ≤ fuel
      → define_blocks fuel dfg l cs defs ≡ some (defs_of_blocks dfg is cs defs)
  unfolding define_blocks for_each_def
  define_blocks_lem fuel [] defs inside short = refl
  define_blocks_lem fuel (c ∷ cs) defs inside short =
      let (m, le) = inside c (rw ((==_iff c c).1 refl)) in
      let (_, insts) = iter_lem l bs is c fuel o m short le in
      rw insts (define_blocks_lem fuel cs _ (λ a q. inside a (ground arith)) short)

  module _ {S : Type 0} (ops : BitSetOps S) (laws : IsBitSet ops) (cfg : ControlFlowGraph) where
    cleared :
        (s : Liveness S) (defs : ℕ → Option ValDef) (v : ℕ) (def : ValDef) (uses : ℕ → Bool)
        → defs v ≡ some def
        → IsLive ops laws cfg v def uses (λ _. false) (record (clear ops s) { defs = defs })
    unfolding clear
    cleared s defs v def uses d = record {
      defined = d;
      closed = λ c p a. absurd (ground (arith, laws.default_law v));
      sound_ins = λ c a. absurd (ground (arith, laws.default_law v));
      sound_outs = λ c a. absurd (ground (arith, laws.default_law v));
      sound_blocks = λ c a. absurd (ground (arith, laws.default_law c));
      covered = λ c a. absurd (ground arith);
    }

    -- The same for a post order that has been found.
    liveness_in_order :
        (args order : List ℕ) (fuel : ℕ) (s : Liveness S)
        → post_order fuel cfg ≡ some order
        → ((c : ℕ) → mem c order ≡ true → (mem c bs ≡ true) × (length (is c) ≤ fuel))
        → ((b p : ℕ) → mem b bs ≡ true → mem p (preds_of cfg b) ≡ true → mem p bs ≡ true)
        → length bs < fuel
        → ((v b : ℕ)
            → uses_of_blocks dfg is order v b ≡ true
            → dfg.value_is_imm v ≡ false
            → ((def : ValDef) × (defs_of_blocks dfg is order (set_args args (λ _. none)) v
                  ≡ some def))
              × (mem b bs ≡ true))
        → (t : Liveness S) × (compute ops fuel dfg l cfg args s ≡ some t)
          × ((v b : ℕ) (def : ValDef)
              → dfg.value_is_imm v ≡ false
              → defs_of_blocks dfg is order (set_args args (λ _. none)) v ≡ some def
              → ((ins ops t v b ≡ true) ↔ LiveIn cfg def (uses_of_blocks dfg is order v) b)
                × ((outs ops t v b ≡ true) ↔ LiveOut cfg def (uses_of_blocks dfg is order v) b)
                × ((blocks ops t v b ≡ true) ↔ Wanted cfg def (uses_of_blocks dfg is order v) b))
    unfolding compute clear
    liveness_in_order args order fuel s found inside closed enough known =
        let uses = uses_of_blocks dfg is order in
        let defs = defs_of_blocks dfg is order (set_args args (λ _. none)) in
        let start = record (clear ops s) { defs = defs } in
        let (t, r, d, k) =
          visit_blocks_lem ops laws dfg cfg bs closed uses fuel enough l bs is o order start
            (λ _ _. false) inside (omega arith) (λ v b m n. let (x, q) = known v b m n in (x, m, q))
            (λ v def n e. cleared s defs v def (uses v) e) in
        (
          t,
          rw (found, define_blocks_lem fuel order (set_args args (λ _. none)) inside (omega arith))
              r,
          λ v b def n e.
              IsLive-exact ops laws cfg v def (uses v) _ t
                (k v def n (ap (λ (m : ℕ → Option ValDef). m v) d ∙ e)) (λ c m. ground arith) b,
        )

    -- For a function whose blocks stand in the layout, among them all blocks that the entry of the graph reaches and all
    -- predecessors, and whose used values that are no immediates are defined: `compute` succeeds, on fuel of at least one
    -- more than the number of the blocks and of the edges that leave them, and at least the number of instructions in
    -- each block. It goes through the blocks that the entry reaches, each once, in a post order; and then the sets of
    -- live-in values, live-out values and live blocks hold a defined value that is no immediate exactly where the paths
    -- to its uses in those blocks say that it is live.
    pub compute_liveness :
        (e : ℕ) (args : List ℕ) (fuel : ℕ) (s : Liveness S)
        → cfg.entry ≡ some e
        → ((v : ℕ) → Reaches cfg e v → mem v bs ≡ true)
        → rounds_of cfg bs ≤ fuel
        → ((c : ℕ) → mem c bs ≡ true → length (is c) ≤ fuel)
        → ((b p : ℕ) → mem b bs ≡ true → mem p (preds_of cfg b) ≡ true → mem p bs ≡ true)
        → ((v b : ℕ)
            → uses_of_blocks dfg is (order_of cfg bs) v b ≡ true
            → dfg.value_is_imm v ≡ false
            → ((def : ValDef) × (defs_of_blocks dfg is
                    (order_of cfg bs)
                    (set_args args (λ _. none))
                    v
                  ≡ some def))
              × (mem b bs ≡ true))
        → (t : Liveness S) × (compute ops fuel dfg l cfg args s ≡ some t)
          × IsPostOrder cfg e (order_of cfg bs)
          × ((v b : ℕ) (def : ValDef)
              → dfg.value_is_imm v ≡ false
              → defs_of_blocks dfg is (order_of cfg bs) (set_args args (λ _. none)) v ≡ some def
              → ((ins ops t v b ≡ true)
                  ↔ LiveIn cfg def (uses_of_blocks dfg is (order_of cfg bs) v) b)
                × ((outs ops t v b ≡ true)
                    ↔ LiveOut cfg def (uses_of_blocks dfg is (order_of cfg bs) v) b)
                × ((blocks ops t v b ≡ true)
                    ↔ Wanted cfg def (uses_of_blocks dfg is (order_of cfg bs) v) b))
    compute_liveness e args fuel s entry reached enough short closed known =
        let (found, order) = post_order-order_of cfg e bs fuel entry reached enough in
        let more = length-rounds_of cfg bs in
        let (t, r, exact) =
          liveness_in_order args (order_of cfg bs) fuel s found
            (λ c m. let b = reached c (order.sound c m) in (b, short c b)) closed (omega arith)
            known in
        (t, r, order, exact)
