-- ===== src/PostDomtree.antt =====
-- crates/codegen/src/post_domtree.rs: the dominators of the control flow graph turned round, with a block
-- before the entry and one after the exits. An outer `none` is a panic or the lack of fuel.
pub mod Graph
mod Examples
use sonatina.Base.{
  ℕ, zero, suc, ◌+◌, ◌%◌, ◌^◌, Bool, true, false, not, ◌&&◌, Option, none, some, List, [], ◌∷◌,
  ◌==◌, if◌then◌else◌, mem, length, ◌>>=◌,
}
use sonatina.Domtree
use sonatina.Domtree.{DomTree}
use sonatina.Ir.Cfg
use sonatina.Ir.Cfg.{ControlFlowGraph, add_edge, reverse_edges}
use sonatina.Ir.Layout.{Layout}

pub record PostDomTree : Type 0 where
  pub entry : ℕ
  pub exit : ℕ
  pub rcfg : ControlFlowGraph
  pub domtree : DomTree

pub data PdtIdom : Type 0 where
  dummy_entry dummy_exit real : ℕ → PdtIdom

pub record PdfSet : Type 0 where
  pub entry : ℕ
  pub exit : ℕ
  pub df_set : ℕ → List ℕ

pub new_tree : PostDomTree
new_tree = record { entry = 0; exit = 0; rcfg = Cfg.clear; domtree = Domtree.clear }

pub clear : PostDomTree → PostDomTree
clear t = record t { rcfg = Cfg.clear; domtree = Domtree.clear }

-- `for exit in &real_exits { .. }`
pub add_exits : List ℕ → ℕ → ControlFlowGraph → ControlFlowGraph
add_exits [] exit g = g
add_exits (b ∷ bs) exit g = add_exits bs exit (add_edge b exit g)

pub post_graph : ℕ → ℕ → ℕ → ControlFlowGraph → ControlFlowGraph
unfolding add_exits
post_graph entry exit real_entry g =
    let g1 = add_edge entry exit (add_edge entry real_entry g) in
    let g2 = add_exits g1.exits exit (record g1 { exits = [] }) in
    reverse_edges exit (entry ∷ []) g2

-- Block ids are `u32`. `num_blocks` is the number of blocks of the data flow graph.
pub compute : (ℕ → Bool) → (ℕ → Option (List ℕ)) → ℕ → ℕ → Layout → PostDomTree → Option PostDomTree
unfolding clear post_graph
compute is_exit dests fuel num_blocks l t = Cfg.compute is_exit dests fuel l >>= λ g. elim g.entry [
  | none ↦ some (record (clear t) { rcfg = g })
  | some real_entry ↦
      let entry = num_blocks % 2 ^ 32 in
      let exit = (entry + 1) % 2 ^ 32 in
      let rcfg = post_graph entry exit real_entry g in
      Domtree.compute fuel rcfg >>= λ domtree.
      some (record { entry = entry; exit = exit; rcfg = rcfg; domtree = domtree })
]

pub idom_of : PostDomTree → ℕ → Option (Option PdtIdom)
idom_of t block = Domtree.idom_of t.domtree block >>= λ idom. some (elim idom [
  | none ↦ none
  | some b ↦ some (
      if b == t.entry
      then PdtIdom.dummy_entry t.entry
      else if b == t.exit
      then PdtIdom.dummy_exit t.exit
      else PdtIdom.real b)
])

pub is_reachable : PostDomTree → ℕ → Option Bool
is_reachable t block = Domtree.is_reachable t.domtree block

pub compute_df : ℕ → PostDomTree → Option PdfSet
compute_df fuel t = do
  df ← Domtree.compute_df fuel t.domtree t.rcfg
  some (record { entry = t.entry; exit = t.exit; df_set = df })

abbrev pub drop_dummies : ℕ → ℕ → List ℕ → List ℕ
drop_dummies entry exit [] = []
drop_dummies entry exit (b ∷ bs) =
    let rest = drop_dummies entry exit bs in
    if not (b == entry) && not (b == exit) then b ∷ rest else rest

pub frontiers : PdfSet → ℕ → List ℕ
frontiers s block = drop_dummies s.entry s.exit (s.df_set block)

pub in_frontier_of : PdfSet → ℕ → ℕ → Bool
in_frontier_of s block of = mem block (s.df_set of)

pub frontier_num_of : PdfSet → ℕ → ℕ
unfolding frontiers
frontier_num_of s of = length (frontiers s of)
