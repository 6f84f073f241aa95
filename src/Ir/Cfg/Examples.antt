-- ===== src/Ir/Cfg/Examples.antt =====
-- Small runs of the control flow graph of crates/ir/src/cfg.rs.
use sonatina.Base.{
  ℕ, ◌≡◌, refl, true, ◌&&◌, ◌||◌, not, none, some, List, [], ◌∷◌, ◌==◌, arith, mem, if◌then◌else◌,
}
use sonatina.Ir.Cfg.{
  ControlFlowGraph, add_edge, remove_edge, reverse_edges, compute, preds_of, succs_of, post_order,
  new_post_order, visit, push_unvisited, post_order_from,
}
use sonatina.Ir.Cfg.Compute.{compute_lem, leads}
use sonatina.Ir.Cfg.Edges.{IsGraph, edge, edges_lem}
use sonatina.Ir.Cfg.PostOrders.{IsPostOrder, post_order_lem}
use sonatina.Ir.Cfg.Visits.{Reaches}
use sonatina.Ir.Layout.Chain.{last_or}
use sonatina.Ir.Layout.Examples.{sample, sample_insts, sample-IsOrder}

-- 0 leads to 1 and to itself.
abbrev graph : ControlFlowGraph
graph = record {
  entry = some 0;
  blocks = λ b.
      if b == 0
      then record { preds = 0 ∷ []; succs = 0 ∷ 1 ∷ [] }
      else if b == 1
      then record { preds = 0 ∷ []; succs = [] }
      else record { preds = []; succs = [] };
  exits = [];
}

graph-IsGraph : IsGraph graph
unfolding preds_of succs_of
graph-IsGraph = record {
  agree = λ a b. ground arith;
  preds_ascend = λ b. ground arith;
  succs_ascend = λ b. ground arith;
}

edges_example :
    IsGraph (add_edge 1 0 graph)
    × IsGraph (remove_edge 1 0 graph)
    × IsGraph (reverse_edges 1 (0 ∷ []) graph)
    × ((a b : ℕ)
        → (edge (add_edge 1 0 graph) a b ≡ ((a == 1 && b == 0) || edge graph a b))
          × (edge (remove_edge 1 0 graph) a b ≡ (not (a == 1 && b == 0) && edge graph a b))
          × (edge (reverse_edges 1 (0 ∷ []) graph) a b ≡ edge graph b a))
edges_example = edges_lem graph graph-IsGraph 1 0 1 (0 ∷ [])

-- The last instruction of block 1 leads to the blocks 1 and 2.
compute_example :
    (g : ControlFlowGraph) × (compute (λ i. i == 8) (λ i. some (1 ∷ 2 ∷ [])) 2 sample ≡ some g)
    × IsGraph g
    × ((a c : ℕ)
        → edge g a c ≡ (
            mem a (1 ∷ 2 ∷ []) && leads (λ i. some (1 ∷ 2 ∷ [])) (last_or none (sample_insts a)) c))
    × (g.entry ≡ some 1)
    × (g.exits ≡ 1 ∷ [])
compute_example =
    compute_lem (λ i. i == 8) (λ i. some (1 ∷ 2 ∷ [])) sample (1 ∷ 2 ∷ []) sample_insts 2
      sample-IsOrder (omega arith)

reached_in_graph : (v : ℕ) → Reaches graph 0 v → mem v (0 ∷ 1 ∷ []) ≡ true
unfolding succs_of
reached_in_graph v Reaches.here = refl
reached_in_graph v (Reaches.next {b} r l) = let m = reached_in_graph b r in ground arith

post_order_example :
    (found : List ℕ) × (post_order 6 graph ≡ some found) × IsPostOrder graph 0 found
unfolding succs_of
post_order_example = post_order_lem graph 0 (0 ∷ 1 ∷ []) 6 refl reached_in_graph (omega arith)

post_order_test : post_order 6 graph ≡ some (1 ∷ 0 ∷ [])
unfolding post_order post_order_from visit push_unvisited succs_of new_post_order
post_order_test = refl
