-- ===== src/PostDomtree/Examples.antt =====
-- Small runs of the post dominators of crates/codegen/src/post_domtree.rs.
use sonatina.Base.{
  ℕ, ◌≡◌, refl, true, ◌&&◌, ◌||◌, Option, none, some, [], ◌∷◌, ◌==◌, arith, mem, ◌>>=◌,
}
use sonatina.Domtree
use sonatina.Domtree.{DomTree}
use sonatina.Ir.Cfg
use sonatina.Ir.Cfg.{ControlFlowGraph, preds_of, succs_of}
use sonatina.Ir.Cfg.Compute.{leads}
use sonatina.Ir.Cfg.Edges.{IsGraph, edge}
use sonatina.Ir.Layout.{
  last_inst_of, is_block_inserted, inst_block, is_inst_inserted, is_default_inst,
}
use sonatina.Ir.Layout.Blocks.{iter_block}
use sonatina.Ir.Layout.Chain.{last_or}
use sonatina.Ir.Layout.Examples.{sample, sample_insts, sample-IsOrder}
use sonatina.PostDomtree.{
  PostDomTree, PdtIdom, new_tree, clear, post_graph, compute, idom_of, is_reachable, compute_df,
  frontiers, in_frontier_of, frontier_num_of,
}
use sonatina.PostDomtree.Graph.{post_graph-compute}

post_graph-compute_example :
    (g : ControlFlowGraph) × (Cfg.compute (λ i. i == 8) (λ i. some (1 ∷ 2 ∷ [])) 2 sample ≡ some g)
    × (g.entry ≡ some 1)
    × ((post_graph 5 6 1 g).entry ≡ some 6)
    × IsGraph (post_graph 5 6 1 g)
    × ((a b : ℕ)
        → edge (post_graph 5 6 1 g) b a ≡ (
            ((a == 5) && ((b == 1) || (b == 6)))
            || ((mem a (1 ∷ []) && (b == 6))
                || (mem a (1 ∷ 2 ∷ [])
                    && leads (λ i. some (1 ∷ 2 ∷ [])) (last_or none (sample_insts a)) b))))
post_graph-compute_example =
    post_graph-compute (λ i. i == 8) (λ i. some (1 ∷ 2 ∷ [])) sample 1 (2 ∷ []) sample_insts 5 6 2
      sample-IsOrder (omega arith)

-- Block 1 leads to blocks 2 and 3, which are exits.
abbrev fork : ControlFlowGraph
unfolding Cfg.clear
fork = Cfg.add_edge 1 3 (Cfg.add_edge 1 2 (record Cfg.clear { entry = some 1; exits = 2 ∷ 3 ∷ [] }))

abbrev tree : DomTree → PostDomTree
unfolding post_graph
tree d = record { entry = 4; exit = 5; rcfg = post_graph 4 5 1 fork; domtree = d }

abbrev of_tree : {A : Type 0} → (PostDomTree → Option A) → Option A
unfolding tree
of_tree f = Domtree.compute 20 (post_graph 4 5 1 fork) >>= λ d. f (tree d)

fork_test :
    (of_tree (λ t. idom_of t 1) ≡ some (some (PdtIdom.dummy_exit 5)))
    × (of_tree (λ t. idom_of t 2) ≡ some (some (PdtIdom.dummy_exit 5)))
    × (of_tree (λ t. is_reachable t 1) ≡ some true)
    × (of_tree (λ t. compute_df 20 t >>= λ s. some (frontiers s 2)) ≡ some (1 ∷ []))
    × (of_tree (λ t. compute_df 20 t >>= λ s. some (frontier_num_of s 1)) ≡ some 0)
    × (of_tree (λ t. compute_df 20 t >>= λ s. some (in_frontier_of s 4 1)) ≡ some true)
unfolding of_tree fork idom_of is_reachable compute_df frontiers frontier_num_of in_frontier_of
    Domtree.compute Domtree.compute_df Domtree.is_reachable Domtree.idom_of Cfg.add_edge
    Cfg.reverse_edges Cfg.insert preds_of succs_of Cfg.post_order Cfg.post_order_from Cfg.visit
    Cfg.push_unvisited Cfg.new_post_order
fork_test = (refl, refl, refl, refl, refl, refl)

compute_test :
    (compute (λ i. i == 8) (λ i. some (1 ∷ 2 ∷ [])) 30 7 sample new_tree >>= λ t.
    some (t.entry ∷ t.exit ∷ []))
    ≡ some (7 ∷ 8 ∷ [])
unfolding compute new_tree clear Domtree.compute Cfg.compute Cfg.add_edge Cfg.reverse_edges
    Cfg.insert preds_of succs_of Cfg.post_order Cfg.post_order_from Cfg.visit Cfg.push_unvisited
    Cfg.new_post_order iter_block last_inst_of is_block_inserted inst_block is_inst_inserted
    is_default_inst Cfg.analyze_inst Cfg.add_edges Cfg.clear
compute_test = refl
