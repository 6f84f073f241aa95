-- ===== src/Ir/Cfg/Compute.antt =====
-- cfg.rs: the graph that `compute` builds from a function's layout.
use mathlib.Core.Bool.{or_assoc}
use sonatina.Base.{
  ℕ, ◌≤◌, ◌≡◌, refl, sym, ◌∙◌, Bool, true, false, ◌&&◌, ◌||◌, Option, none, some, List, [], ◌∷◌,
  ◌++◌, ◌==◌, if◌then◌else◌, arith, mem, length, append-nil, append_assoc, ==_iff, Bool-cases, inl,
  inr,
}
use sonatina.Ir.Cfg.{
  ControlFlowGraph, add_edge, add_edges, mark_exit, analyze_inst, analyze_last, analyze_blocks,
  compute, clear, preds_of, succs_of,
}
use sonatina.Ir.Cfg.Edges.{IsGraph, edge, edges_lem}
use sonatina.Ir.Layout.{Layout, inst_block}
use sonatina.Ir.Layout.Chain.{head_or, last_or}
use sonatina.Ir.Layout.Iter.{iter_block-bs}
use sonatina.Ir.Layout.Cursor.Moves.{block_ends, inst_neighbours}
use sonatina.Ir.Layout.Order.{IsOrder, mem-split}

-- The code goes on from one graph to another with more edges and exits.
record Grows (g g' : ControlFlowGraph) (new : ℕ → ℕ → Bool) (exits : List ℕ) : Type 0 where
  is_graph : IsGraph g'
  edges : (a c : ℕ) → edge g' a c ≡ (new a c || edge g a c)
  same_entry : g'.entry ≡ g.entry
  more_exits : g'.exits ≡ g.exits ++ exits

regroup : (p q r s : Bool) → ((p && r) || ((p && q) || s)) ≡ ((p && (q || r)) || s)
regroup true true true s = refl
regroup true true false s = refl
regroup true false r s = refl
regroup false q r s = refl

add_edges_lem :
    (l : Layout) (inst b : ℕ) (ds : List ℕ) (g : ControlFlowGraph)
    → inst_block l inst ≡ some b
    → IsGraph g
    → (g' : ControlFlowGraph) × (add_edges l inst ds g ≡ some g')
      × Grows g g' (λ a c. a == b && mem c ds) []
unfolding add_edges add_edge
add_edges_lem l inst b [] g e h = (
  g,
  refl,
  record {
    is_graph = h;
    edges = λ a c. ground arith;
    same_entry = refl;
    more_exits = sym (append-nil g.exits);
  },
)
add_edges_lem l inst b (d ∷ ds) g e h =
    let (h', _, _, x) = edges_lem g h b d 0 [] in
    let (g', r, w) = add_edges_lem l inst b ds (add_edge b d g) e h' in
    (
      g',
      rw e r,
      record {
        is_graph = w.is_graph;
        edges =
            λ a c. w.edges a c ∙ rw (x a c).0 (regroup (a == b) (c == d) (mem c ds) (edge g a c));
        same_entry = w.same_entry;
        more_exits = w.more_exits;
      },
    )

-- What a block's last instruction says of it: its destinations, and whether it is an exit.
abbrev pub leads : (ℕ → Option (List ℕ)) → Option ℕ → ℕ → Bool
leads dests none c = false
leads dests (some i) c = elim (dests i) [ none ↦ false | some ds ↦ mem c ds ]

abbrev pub exits : (ℕ → Bool) → Option ℕ → Bool
exits is_exit none = false
exits is_exit (some i) = is_exit i

-- The exits among some blocks, in their order.
abbrev pub exits_of : (ℕ → Bool) → (ℕ → List ℕ) → List ℕ → List ℕ
exits_of is_exit is [] = []
exits_of is_exit is (b ∷ bs) =
    if exits is_exit (last_or none (is b))
    then b ∷ exits_of is_exit is bs
    else exits_of is_exit is bs

or_false : (p : Bool) → (p || false) ≡ p
or_false true = refl
or_false false = refl

either : (p q : Bool) → ((p && q) || q) ≡ q
either true true = refl
either true false = refl
either false q = refl

mem-last : (xs : List ℕ) (i : ℕ) → last_or none xs ≡ some i → mem i xs ≡ true
mem-last [] i e = cc
mem-last (x ∷ []) i e = ground arith
mem-last (x ∷ y ∷ ys) i e = rw (mem-last (y ∷ ys) i e) (ground arith)

joined :
    (p : Bool) (b : ℕ) (xs : List ℕ) → (if p then b ∷ [] else []) ++ xs ≡ (if p then b ∷ xs else xs)
joined true b xs = refl
joined false b xs = refl

Grows-trans :
    (g g1 g2 : ControlFlowGraph) (m n k : ℕ → ℕ → Bool) (xs ys zs : List ℕ)
    → Grows g g1 m xs
    → Grows g1 g2 n ys
    → ((a c : ℕ) → (n a c || m a c) ≡ k a c)
    → xs ++ ys ≡ zs
    → Grows g g2 k zs
Grows-trans g g1 g2 m n k xs ys zs w v same all = record {
  is_graph = v.is_graph;
  edges = λ a c.
      v.edges a c ∙ rw (w.edges a c, ← same a c) (sym (or_assoc (n a c) (m a c) (edge g a c)));
  same_entry = v.same_entry ∙ w.same_entry;
  more_exits = v.more_exits ∙ rw (w.more_exits, ← all) (append_assoc g.exits xs ys);
}

module _ (is_exit : ℕ → Bool) (dests : ℕ → Option (List ℕ)) where
  mark_exit_lem :
      (l : Layout) (inst b : ℕ) (g : ControlFlowGraph)
      → inst_block l inst ≡ some b
      → IsGraph g
      → (g' : ControlFlowGraph) × (mark_exit is_exit dests l inst g ≡ some g')
        × Grows g g' (λ a c. false) (if is_exit inst then b ∷ [] else [])
  unfolding mark_exit preds_of succs_of
  mark_exit_lem l inst b g e h = elim (Bool-cases (is_exit inst)) [
    | inl out ↦ (
      record g { exits = g.exits ++ b ∷ [] },
      rw (out, e),
      rw out (record {
        is_graph = record {
          agree = h.agree;
          preds_ascend = h.preds_ascend;
          succs_ascend = h.succs_ascend;
        };
        edges = λ a c. refl;
        same_entry = refl;
        more_exits = refl;
      }),
    )
    | inr stays ↦ (
      g,
      rw stays,
      rw stays (record {
        is_graph = h;
        edges = λ a c. refl;
        same_entry = refl;
        more_exits = sym (append-nil g.exits);
      }),
    )
  ]

  branch_lem :
      (l : Layout) (inst b : ℕ) (o : Option (List ℕ)) (g : ControlFlowGraph)
      → inst_block l inst ≡ some b
      → IsGraph g
      → (g' : ControlFlowGraph) × ((elim o as (λ _. Option ControlFlowGraph) [
        | none ↦ some g
        | some ds ↦ add_edges l inst ds g
      ])
          ≡ some g')
        × Grows g g'
            (λ a c. a == b && (elim o as (λ _. Bool) [ none ↦ false | some ds ↦ mem c ds ]))
            []
  branch_lem l inst b none g e h = (
    g,
    refl,
    record {
      is_graph = h;
      edges = λ a c. ground arith;
      same_entry = refl;
      more_exits = sym (append-nil g.exits);
    },
  )
  branch_lem l inst b (some ds) g e h = add_edges_lem l inst b ds g e h

  analyze_inst_lem :
      (l : Layout) (inst b : ℕ) (g : ControlFlowGraph)
      → inst_block l inst ≡ some b
      → IsGraph g
      → (g' : ControlFlowGraph) × (analyze_inst is_exit dests l inst g ≡ some g')
        × Grows g g'
            (λ a c. a == b && leads dests (some inst) c)
            (if is_exit inst then b ∷ [] else [])
  unfolding analyze_inst
  analyze_inst_lem l inst b g e h =
      let (g1, r, w) = mark_exit_lem l inst b g e h in
      let (g2, r', v) = branch_lem l inst b (dests inst) g1 e w.is_graph in
      (
        g2,
        rw r r',
        Grows-trans g g1 g2 _ _ (λ a c. a == b && leads dests (some inst) c) _ [] _ w v
            (λ a c. or_false _) (append-nil _),
      )

  module _ (l : Layout) (bs : List ℕ) (is : ℕ → List ℕ) (o : IsOrder l bs is) where
    -- The edges out of the blocks of a list.
    abbrev from_blocks : List ℕ → ℕ → ℕ → Bool
    from_blocks xs a c = mem a xs && leads dests (last_or none (is a)) c

    pick :
        (b : ℕ) (xs : List ℕ) (a c : ℕ)
        → (from_blocks xs a c || (a == b && leads dests (last_or none (is b)) c))
          ≡ from_blocks (b ∷ xs) a c
    pick b xs a c = elim (Bool-cases (a == b)) [
      | inl here ↦ rw ((==_iff a b).0 here, (==_iff b b).1 refl) (either _ _)
      | inr other ↦ rw other (or_false _)
    ]

    -- The last instruction of a block stands in it.
    last_inst_block :
        (b i : ℕ) → mem b bs ≡ true → last_or none (is b) ≡ some i → inst_block l i ≡ some b
    last_inst_block b i m e =
        let (pre, post, p) = mem-split i (is b) (mem-last (is b) i e) in
        let (_, _, own) = inst_neighbours l bs is o b pre post i p in own

    analyze_block :
        (b : ℕ) (last : Option ℕ) (g : ControlFlowGraph)
        → mem b bs ≡ true
        → last_or none (is b) ≡ last
        → IsGraph g
        → (g' : ControlFlowGraph) × (analyze_last is_exit dests l last g ≡ some g')
          × Grows g g'
              (λ a c. a == b && leads dests last c)
              (if exits is_exit last then b ∷ [] else [])
    analyze_block b none g m e h = (
      g,
      refl,
      record {
        is_graph = h;
        edges = λ a c. ground arith;
        same_entry = refl;
        more_exits = sym (append-nil g.exits);
      },
    )
    analyze_block b (some i) g m e h = analyze_inst_lem l i b g (last_inst_block b i m e) h

    analyze_blocks_lem :
        (xs : List ℕ) (g : ControlFlowGraph)
        → ((b : ℕ) → mem b xs ≡ true → mem b bs ≡ true)
        → IsGraph g
        → (g' : ControlFlowGraph) × (analyze_blocks is_exit dests l xs g ≡ some g')
          × Grows g g' (from_blocks xs) (exits_of is_exit is xs)
    unfolding analyze_blocks
    analyze_blocks_lem [] g sub h = (
      g,
      refl,
      record {
        is_graph = h;
        edges = λ a c. refl;
        same_entry = refl;
        more_exits = sym (append-nil g.exits);
      },
    )
    analyze_blocks_lem (b ∷ xs) g sub h =
        let m = sub b (ground arith) in
        let (_, end) = block_ends l bs is o b m in
        let (g1, r, w) = analyze_block b (last_or none (is b)) g m refl h in
        let (g2, r', v) = analyze_blocks_lem xs g1 (λ c i. sub c (ground arith)) w.is_graph in
        (
          g2,
          rw (end, r) r',
          Grows-trans g g1 g2 _ (from_blocks xs) (from_blocks (b ∷ xs)) _ (exits_of is_exit is xs) _
              w v (pick b xs)
              (joined (exits is_exit (last_or none (is b))) b (exits_of is_exit is xs)),
        )

  -- From a layout with an order, `compute` builds a graph whose blocks agree on their edges: there is
  -- an edge from a block of the order to each destination of its last instruction, and no other; the
  -- entry is the first block, and the exits are the blocks that end in an exit, in their order. As
  -- much fuel as there are blocks is enough.
  pub compute_lem :
      (l : Layout) (bs : List ℕ) (is : ℕ → List ℕ) (fuel : ℕ)
      → IsOrder l bs is
      → length bs ≤ fuel
      → (g : ControlFlowGraph) × (compute is_exit dests fuel l ≡ some g)
        × IsGraph g
        × ((a c : ℕ) → edge g a c ≡ (mem a bs && leads dests (last_or none (is a)) c))
        × (g.entry ≡ head_or none bs)
        × (g.exits ≡ exits_of is_exit is bs)
  unfolding compute clear preds_of succs_of
  compute_lem l bs is fuel o enough =
      let start = record clear { entry = l.entry_block } in
      let empty : IsGraph start = record {
        agree = λ a b. refl;
        preds_ascend = λ b. tt;
        succs_ascend = λ b. tt;
      } in
      let (g, r, w) = analyze_blocks_lem l bs is o bs start (λ b m. m) empty in
      (
        g,
        rw (iter_block-bs l bs is fuel o enough) r,
        w.is_graph,
        λ a c. w.edges a c ∙ or_false _,
        w.same_entry ∙ o.blocks_linked.first_eq,
        w.more_exits,
      )
