-- ===== src/Domtree/Examples.antt =====
-- Small runs of the tree of dominators of crates/codegen/src/domtree.rs.
use sonatina.Base.{
  ℕ, ◌≡◌, refl, Bool, true, false, Option, none, some, List, [], ◌∷◌, ◌==◌, arith, if◌then◌else◌,
  leb, ◌↔◌, Bool-cases, inl, inr,
}
use sonatina.Domtree.{
  DomTree, compute, compute_df, idom_of, is_reachable, dominates, intersect, clear, passes, pass,
  find_processed, join_preds, climb, number_blocks, compute_df_from, add_frontiers, run_up,
}
use sonatina.Domtree.Ancestors.{Above, IsTree, dominates_lem}
use sonatina.Domtree.Intersect.{Nearest, intersect_lem}
use sonatina.Ir.Cfg.{
  ControlFlowGraph, insert, post_order, post_order_from, visit, push_unvisited, new_post_order,
  preds_of, succs_of,
}

-- 0 leads to 1 and 2, which both lead to 3.
abbrev diamond : ControlFlowGraph
diamond = record {
  entry = some 0;
  blocks = λ b.
      if b == 0
      then record { preds = []; succs = 1 ∷ 2 ∷ [] }
      else if b == 1
      then record { preds = 0 ∷ []; succs = 3 ∷ [] }
      else if b == 2
      then record { preds = 0 ∷ []; succs = 3 ∷ [] }
      else if b == 3
      then record { preds = 1 ∷ 2 ∷ []; succs = [] }
      else record { preds = []; succs = [] };
  exits = [];
}

-- 0 stands above 1, which stands above 2 and 3.
abbrev doms : ℕ → Option ℕ
doms b = if leb b 1 then some 0 else if leb b 3 then some 1 else none

abbrev nums : ℕ → ℕ
nums b = if b == 0 then 4 else if b == 1 then 3 else if b == 2 then 2 else if b == 3 then 1 else 0

abbrev inside : ℕ → Bool
inside b = leb b 3

doms-IsTree : IsTree doms nums 0 inside
doms-IsTree = record {
  root_inside = refl;
  root_loops = refl;
  rises = λ b i n. elim (Bool-cases (b == 1)) [
    | inl one ↦ (0, ground arith, refl, ground arith)
    | inr other ↦ (1, ground arith, refl, ground arith)
  ];
  highest = λ b i. ground arith;
  numbered = λ a b i j e. ground arith;
}

intersect_example :
    (c : ℕ) × (intersect 6 5 doms nums 2 3 ≡ some c) × Nearest doms nums 0 inside doms-IsTree 2 3 c
intersect_example =
    intersect_lem doms nums 0 inside doms-IsTree 6 5 2 3 refl refl (omega arith) (omega arith)

dominates_example :
    (r : Bool) × (dominates 5 (record { doms = doms; rpo = 0 ∷ 1 ∷ 2 ∷ 3 ∷ [] }) 1 3 ≡ some r)
    × ((r ≡ true) ↔ Above doms 3 1)
dominates_example =
    dominates_lem doms nums 0 inside doms-IsTree (1 ∷ 2 ∷ 3 ∷ []) 5 1 3 refl (omega arith)

-- A query of what was computed.
abbrev asked : {A : Type 0} → Option A → (A → Option (Option ℕ)) → Option (Option ℕ)
asked none f = none
asked (some x) f = f x

abbrev listed : Option (ℕ → List ℕ) → ℕ → List ℕ
listed none b = 99 ∷ []
listed (some df) b = df b

compute_test :
    (asked (compute 20 diamond) (λ t. idom_of t 3) ≡ some (some 0))
    × (asked (compute 20 diamond) (λ t. idom_of t 1) ≡ some (some 0))
    × (asked (compute 20 diamond) (λ t. idom_of t 0) ≡ some none)
    × (asked (compute 20 diamond) (λ t. idom_of t 7) ≡ some none)
unfolding compute passes pass find_processed join_preds intersect climb number_blocks idom_of
    post_order post_order_from visit push_unvisited new_post_order preds_of succs_of
compute_test = (refl, refl, refl, refl)

-- The frontier of 1 and of 2 is 3; the entry counts as not reachable.
compute_df_test :
    (t : DomTree)
    → t ≡ record { doms = λ b. if leb b 3 then some 0 else none; rpo = 0 ∷ 2 ∷ 1 ∷ 3 ∷ [] }
    → (listed (compute_df 9 t diamond) 1 ≡ 3 ∷ [])
      × (listed (compute_df 9 t diamond) 2 ≡ 3 ∷ [])
      × (listed (compute_df 9 t diamond) 0 ≡ [])
      × (is_reachable t 0 ≡ some false)
      × (is_reachable t 3 ≡ some true)
unfolding compute_df compute_df_from add_frontiers run_up is_reachable idom_of preds_of insert
compute_df_test t e = rw e (refl, refl, refl, refl, refl)

clear_test : clear.rpo ≡ []
unfolding clear
clear_test = refl
