-- ===== src/Loops/Examples.antt =====
-- Small runs of the loop analysis of crates/codegen/src/loop_analysis.rs.
use sonatina.Base.{
  ℕ, zero, suc, ◌<◌, ◌≤◌, ◌≡◌, ◌∙◌, inl, inr, refl, sym, ap, Bool, true, false, ◌&&◌, ◌||◌, Option,
  none, some, [], ◌∷◌, ◌==◌, if◌then◌else◌, arith, mem, length, Bool-cases, ◌>>=◌, get_elem?, ◌↔◌,
}
use mathlib.Core.Option.{some-injective}
use sonatina.Ir.Cfg.{ControlFlowGraph, preds_of, succs_of}
use sonatina.Domtree.{DomTree, dominates, strictly_dominates, idom_of}
use sonatina.Loops
use sonatina.Loops.{
  LoopTree, LoopData, compute, is_in_loop, loop_of_block, iter_blocks_post_order, loop_header,
  loop_num,
}
use sonatina.Loops.Nesting.{Nested, Within, is_in_loop_lem}
use sonatina.Loops.Changes.{headers}
use sonatina.Loops.Analysis.{compute_loops}

abbrev or_else : {A : Type 0} → A → Option A → A
or_else x none = x
or_else x (some y) = y

-- Block 1 leads to block 2, which leads to itself.
abbrev small : ControlFlowGraph
small = record {
  entry = some 1;
  blocks = λ b.
      if b == 1
      then record { preds = []; succs = 2 ∷ [] }
      else if b == 2
      then record { preds = 1 ∷ 2 ∷ []; succs = 2 ∷ [] }
      else record { preds = []; succs = [] };
  exits = [];
}

abbrev small_doms : DomTree
small_doms = record { doms = λ b. if b == 2 then some 1 else none; rpo = 1 ∷ 2 ∷ [] }

abbrev above : ℕ → ℕ → Bool
above a b = (a == b) || ((a == 1) && (b == 2))

-- The headers 1, 3 and 4 of three loops, each inside the one before: block 2 is between the first two
-- headers, and block 4 leads out of the two inner loops to block 5, which leads to block 1.
abbrev deep : ControlFlowGraph
deep = record {
  entry = some 0;
  blocks = λ b.
      or_else (record { preds = 1 ∷ []; succs = [] })
        (get_elem?
          (record { preds = []; succs = 1 ∷ [] }
            ∷ record { preds = 0 ∷ 5 ∷ []; succs = 2 ∷ 6 ∷ [] }
            ∷ record { preds = 1 ∷ []; succs = 3 ∷ [] }
            ∷ record { preds = 2 ∷ 4 ∷ []; succs = 4 ∷ [] }
            ∷ record { preds = 3 ∷ 4 ∷ []; succs = 3 ∷ 4 ∷ 5 ∷ [] }
            ∷ record { preds = 4 ∷ []; succs = 1 ∷ [] }
            ∷ [])
          b);
  exits = 6 ∷ [];
}

abbrev deep_doms : DomTree
deep_doms = record {
  doms =
      λ b. or_else (some 1) (get_elem? (none ∷ some 0 ∷ some 1 ∷ some 2 ∷ some 3 ∷ some 4 ∷ []) b);
  rpo = 0 ∷ 1 ∷ 2 ∷ 3 ∷ 4 ∷ 5 ∷ 6 ∷ [];
}

-- The loops of a computed tree, and whether each of the blocks is in a loop.
abbrev inside : ControlFlowGraph → DomTree → ℕ → ℕ → Option Bool
unfolding compute is_in_loop
inside cfg doms block lp = compute 30 cfg doms >>= λ t. is_in_loop 10 t block lp

-- The worklist goes on at the predecessors of the innermost header, 4, and not of the outermost one,
-- 3, so that the blocks 2 and 1 are missed.
deep_test :
    (inside deep deep_doms 5 0 ≡ some true)
    × (inside deep deep_doms 4 0 ≡ some true)
    × (inside deep deep_doms 2 0 ≡ some false)
    × (inside deep deep_doms 1 0 ≡ some false)
unfolding inside preds_of dominates idom_of
deep_test = (refl, refl, refl, refl)

abbrev small_tree : LoopTree
unfolding compute
small_tree = or_else Loops.clear (compute 14 small small_doms)

-- The self loop of block 2.
small_test :
    (loop_num small_tree ≡ 1)
    × (loop_of_block small_tree 2 ≡ some 0)
    × (loop_of_block small_tree 1 ≡ none)
    × (iter_blocks_post_order 9 small_tree small 0 ≡ some (2 ∷ []))
unfolding small_tree loop_num loop_of_block iter_blocks_post_order preds_of succs_of dominates
    idom_of
small_test = (refl, refl, refl, refl)

small-closed :
    (b p : ℕ)
    → mem b (1 ∷ 2 ∷ []) ≡ true
    → mem p (preds_of small b) ≡ true
    → mem p (1 ∷ 2 ∷ []) ≡ true
unfolding preds_of
small-closed b p m q = ground arith

small-few : (b : ℕ) → mem b (1 ∷ 2 ∷ []) ≡ true → length (preds_of small b) ≤ 2
unfolding preds_of
small-few b m = ground arith

small-decides :
    (a b : ℕ)
    → mem a (1 ∷ 2 ∷ []) ≡ true
    → mem b (1 ∷ 2 ∷ []) ≡ true
    → dominates 14 small_doms a b ≡ some (above a b)
unfolding dominates strictly_dominates idom_of
small-decides a b m n = ground arith

compute_loops_example :
    (t : LoopTree) × (compute 14 small small_doms ≡ some t)
    × Nested t 0 (1 ∷ 2 ∷ [])
    × (headers t.loops ≡ 2 ∷ [])
unfolding preds_of
compute_loops_example =
    compute_loops small (1 ∷ 2 ∷ []) 2 small-closed small-few small_doms above 14 small-decides
      (λ b m. m) (omega arith)

-- A loop with the header 2 in one with the header 1.
abbrev outer : LoopData
outer = record { header = 1; parent = none; children = 1 ∷ [] }

abbrev inner : LoopData
inner = record { header = 2; parent = some 0; children = [] }

abbrev two_loops : LoopTree
two_loops = record {
  loops = outer ∷ inner ∷ [];
  block_to_loop = λ b. if b == 2 then some 1 else if b == 1 then some 0 else none;
}

two_loops-parents :
    (l p : ℕ) (d : LoopData)
    → get_elem? two_loops.loops l ≡ some d
    → d.parent ≡ some p
    → (p < l) × (0 ≤ p)
two_loops-parents zero p d e h =
    absurd (cc (h, ap (λ (x : LoopData). x.parent) (some-injective outer d e)))
two_loops-parents (suc zero) p d e h =
    let zero_p : 0 ≡ p =
      some-injective 0 p (ap (λ (x : LoopData). x.parent) (some-injective inner d e) ∙ h) in
    (omega arith, omega arith)
two_loops-parents (suc (suc l)) p d e h = absurd (cc e)

two_loops-headers :
    (l : ℕ) (d : LoopData) → get_elem? two_loops.loops l ≡ some d → mem d.header (1 ∷ 2 ∷ []) ≡ true
two_loops-headers zero d e = rw (sym (some-injective outer d e)) refl
two_loops-headers (suc zero) d e = rw (sym (some-injective inner d e)) refl
two_loops-headers (suc (suc l)) d e = absurd (cc e)

two_loops-Nested : Nested two_loops 0 (1 ∷ 2 ∷ [])
two_loops-Nested = record {
  parents = two_loops-parents;
  mapped = λ b l e. elim (Bool-cases (b == 2)) [
    | inl two ↦
        let same : 1 ≡ l = some-injective 1 l (ground (arith, e)) in (omega arith, omega arith)
    | inr other ↦ elim (Bool-cases (b == 1)) [
      | inl one ↦
          let same : 0 ≡ l = some-injective 0 l (ground (arith, e)) in (omega arith, omega arith)
      | inr neither ↦
          let gone : two_loops.block_to_loop b ≡ none = rw (other, neither) refl in
          absurd (cc (gone, e))
    ]
  ];
  headers = two_loops-headers;
}

is_in_loop_example :
    (r : Bool) × (is_in_loop 3 two_loops 2 0 ≡ some r) × ((r ≡ true) ↔ Within two_loops 0 (some 1))
unfolding loop_of_block
is_in_loop_example = is_in_loop_lem 3 two_loops (1 ∷ 2 ∷ []) 2 0 two_loops-Nested (omega arith)
