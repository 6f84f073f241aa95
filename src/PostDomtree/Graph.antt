-- ===== src/PostDomtree/Graph.antt =====
-- post_domtree.rs: the edges of the graph that is turned round.
use sonatina.Base.{
  ℕ, ◌≤◌, ◌≡◌, refl, ap, ◌∙◌, Bool, ◌&&◌, ◌||◌, Option, none, some, List, [], ◌∷◌, ◌==◌, arith, mem,
  length,
}
use sonatina.Ir.Cfg
use sonatina.Ir.Cfg.{ControlFlowGraph, add_edge, reverse_edges, preds_of, succs_of}
use sonatina.Ir.Cfg.Compute.{compute_lem, leads, exits_of}
use sonatina.Ir.Cfg.Edges.{IsGraph, edge, edges_lem}
use sonatina.Ir.Layout.{Layout}
use sonatina.Ir.Layout.Chain.{last_or}
use sonatina.Ir.Layout.Order.{IsOrder}
use sonatina.PostDomtree.{add_exits, post_graph}

add_exits_lem :
    (es : List ℕ) (exit : ℕ) (g : ControlFlowGraph)
    → IsGraph g
    → IsGraph (add_exits es exit g)
      × ((a b : ℕ) → edge (add_exits es exit g) a b ≡ ((mem a es && (b == exit)) || edge g a b))
unfolding add_exits
add_exits_lem [] exit g h = (h, λ a b. refl)
add_exits_lem (e ∷ es) exit g h =
    let (added, _, _, edges) = edges_lem g h e exit 0 [] in
    let (done, rest) = add_exits_lem es exit (add_edge e exit g) added in
    (done, λ a b. ground (arith, rest a b, (edges a b).0))

join_edges :
    (e r x m g1 g2 g : Bool)
    → g2 ≡ ((e && x) || g1)
    → g1 ≡ ((e && r) || g)
    → ((m && x) || g2) ≡ ((e && (r || x)) || ((m && x) || g))
join_edges e r x m g1 g2 g h k = ground (arith, h, k)

post_graph_lem :
    (entry exit real_entry : ℕ) (g : ControlFlowGraph)
    → IsGraph g
    → IsGraph (post_graph entry exit real_entry g)
      × ((a b : ℕ)
          → edge (post_graph entry exit real_entry g) b a ≡ (
              ((a == entry) && ((b == real_entry) || (b == exit)))
              || ((mem a g.exits && (b == exit)) || edge g a b)))
unfolding post_graph add_edge preds_of succs_of
post_graph_lem entry exit real_entry g h =
    let (h1, _, _, e1) = edges_lem g h entry real_entry 0 [] in
    let (h2, _, _, e2) = edges_lem (add_edge entry real_entry g) h1 entry exit 0 [] in
    let g2 : ControlFlowGraph = record (add_edge entry exit (add_edge entry real_entry g)) {
      exits = [];
    } in
    let h3 : IsGraph g2 = record {
      agree = h2.agree;
      preds_ascend = h2.preds_ascend;
      succs_ascend = h2.succs_ascend;
    } in
    let (h4, e4) = add_exits_lem g.exits exit g2 h3 in
    let (_, _, h5, e5) = edges_lem (add_exits g.exits exit g2) h4 0 0 exit (entry ∷ []) in
    (
      h5,
      λ a b.
          (e5 b a).2
          ∙ e4 a b
          ∙ join_edges (a == entry) (b == real_entry) (b == exit) (mem a g.exits) _ _ _ (e2 a b).0
              (e1 a b).0,
    )

-- From a layout with an order of blocks, with as much fuel as there are blocks: the control flow graph is computed, and
-- the one turned round for the post dominators begins at the block after all exits. In it there is an edge from `b` to
-- `a` exactly if the first is a destination of the block `a`, or `a` ends in an exit and `b` is the block after the
-- exits, or `a` is the block before the entry and `b` the entry or the block after the exits.
pub post_graph-compute :
    (is_exit : ℕ → Bool) (dests : ℕ → Option (List ℕ)) (l : Layout) (real_entry : ℕ) (bs : List ℕ)
    (is : ℕ → List ℕ) (entry exit fuel : ℕ)
    → IsOrder l (real_entry ∷ bs) is
    → length (real_entry ∷ bs) ≤ fuel
    → (g : ControlFlowGraph) × (Cfg.compute is_exit dests fuel l ≡ some g)
      × (g.entry ≡ some real_entry)
      × ((post_graph entry exit real_entry g).entry ≡ some exit)
      × IsGraph (post_graph entry exit real_entry g)
      × ((a b : ℕ)
          → edge (post_graph entry exit real_entry g) b a ≡ (
              ((a == entry) && ((b == real_entry) || (b == exit)))
              || ((mem a (exits_of is_exit is (real_entry ∷ bs)) && (b == exit))
                  || (mem a (real_entry ∷ bs) && leads dests (last_or none (is a)) b))))
unfolding post_graph reverse_edges
post_graph-compute is_exit dests l real_entry bs is entry exit fuel o f =
    let (g, r, h, edges, first, outs) = compute_lem is_exit dests l (real_entry ∷ bs) is fuel o f in
    let (turned, all) = post_graph_lem entry exit real_entry g h in
    (
      g,
      r,
      first,
      refl,
      turned,
      λ a b.
          all a b
          ∙ ap
              (λ x.
                ((a == entry) && ((b == real_entry) || (b == exit)))
                || ((mem a x && (b == exit)) || edge g a b))
              outs
          ∙ ap
              (λ x.
                ((a == entry) && ((b == real_entry) || (b == exit)))
                || ((mem a (exits_of is_exit is (real_entry ∷ bs)) && (b == exit)) || x))
              (edges a b),
    )
