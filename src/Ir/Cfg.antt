-- ===== src/Ir/Cfg.antt =====
-- crates/ir/src/cfg.rs: the control flow graph and its post order. A `BTreeSet` of blocks is its list
-- in ascending order, a `SecondaryMap` a function. Of the data flow graph, the code asks whether an
-- instruction is an exit and for the destinations of a branch.
pub mod Edges
pub mod Compute
pub mod Visits
pub mod Rounds
pub mod PostOrders
mod Examples
use sonatina.Base.{
  ℕ, zero, suc, ◌+◌, Bool, Option, none, some, List, [], ◌∷◌, ◌++◌, ◌==◌, ltb, if◌then◌else◌, ◌>>=◌,
  ◌>>◌,
}
use sonatina.Ir.Layout.{Layout, last_inst_of, inst_block}
use sonatina.Ir.Layout.Blocks.{iter_block}

pub record BlockNode : Type 0 where
  pub preds : List ℕ
  pub succs : List ℕ

pub record ControlFlowGraph : Type 0 where
  pub entry : Option ℕ
  pub blocks : ℕ → BlockNode
  pub exits : List ℕ

abbrev pub default_node : BlockNode
default_node = record { preds = []; succs = [] }

-- `BTreeSet::insert` and `BTreeSet::remove`.
unfoldable pub insert : ℕ → List ℕ → List ℕ
insert a [] = a ∷ []
insert a (x ∷ xs) = if ltb a x then a ∷ x ∷ xs else if a == x then x ∷ xs else x ∷ insert a xs

unfoldable pub remove : ℕ → List ℕ → List ℕ
remove a [] = []
remove a (x ∷ xs) = if a == x then xs else x ∷ remove a xs

abbrev pub update : (ℕ → BlockNode) → ℕ → BlockNode → ℕ → BlockNode
update f k v i = if i == k then v else f i

unfoldable pub clear : ControlFlowGraph
clear = record { entry = none; blocks = λ _. default_node; exits = [] }

unfoldable pub preds_of : ControlFlowGraph → ℕ → List ℕ
preds_of g block = (g.blocks block).preds

unfoldable pub succs_of : ControlFlowGraph → ℕ → List ℕ
succs_of g block = (g.blocks block).succs

unfoldable pub add_edge : ℕ → ℕ → ControlFlowGraph → ControlFlowGraph
add_edge from to g =
    let bs =
      update g.blocks to (record (g.blocks to) { preds = insert from (g.blocks to).preds }) in
    record g { blocks = update bs from (record (bs from) { succs = insert to (bs from).succs }) }

pub remove_edge : ℕ → ℕ → ControlFlowGraph → ControlFlowGraph
remove_edge from to g =
    let bs =
      update g.blocks to (record (g.blocks to) { preds = remove from (g.blocks to).preds }) in
    record g { blocks = update bs from (record (bs from) { succs = remove to (bs from).succs }) }

unfoldable pub reverse_edges : ℕ → List ℕ → ControlFlowGraph → ControlFlowGraph
reverse_edges new_entry new_exits g = record {
  entry = some new_entry;
  blocks = λ b. record { preds = (g.blocks b).succs; succs = (g.blocks b).preds };
  exits = new_exits;
}

-- `for dest in branch_info.dests() { .. }`
unfoldable pub add_edges : Layout → ℕ → List ℕ → ControlFlowGraph → Option ControlFlowGraph
add_edges l inst [] g = some g
add_edges l inst (dest ∷ dests) g =
    inst_block l inst >>= λ block. add_edges l inst dests (add_edge block dest g)

module _ (is_exit : ℕ → Bool) (dests : ℕ → Option (List ℕ)) where
  mark_exit : Layout → ℕ → ControlFlowGraph → Option ControlFlowGraph
  mark_exit l inst g =
      if is_exit inst
      then (do block ← inst_block l inst; some (record g { exits = g.exits ++ block ∷ [] }))
      else some g

  unfoldable pub analyze_inst : Layout → ℕ → ControlFlowGraph → Option ControlFlowGraph
  unfolding mark_exit
  analyze_inst l inst g = do
    g' ← mark_exit l inst g
    elim (dests inst) [ none ↦ some g' | some ds ↦ add_edges l inst ds g' ]

  -- `if let Some(last_inst) = ..`
  abbrev pub analyze_last : Layout → Option ℕ → ControlFlowGraph → Option ControlFlowGraph
  analyze_last l none g = some g
  analyze_last l (some inst) g = analyze_inst l inst g

  pub analyze_blocks : Layout → List ℕ → ControlFlowGraph → Option ControlFlowGraph
  analyze_blocks l [] g = some g
  analyze_blocks l (b ∷ bs) g =
      last_inst_of l b >>= λ last. analyze_last l last g >>= λ g'. analyze_blocks l bs g'

  -- The iteration over the blocks takes the fuel.
  unfoldable pub compute : ℕ → Layout → Option ControlFlowGraph
  unfolding analyze_blocks
  compute fuel l = do
    bs ← iter_block fuel l
    analyze_blocks l bs (record clear { entry = l.entry_block })

-- `CfgPostOrder`, with the top of the stack first: `0`, `1` and `2` are the states of a node.
pub record PostOrder : Type 0 where
  pub node_state : ℕ → ℕ
  pub stack : List ℕ

unfoldable pub new_post_order : ControlFlowGraph → PostOrder
new_post_order g = record {
  node_state = λ _. 0;
  stack = elim g.entry [ none ↦ [] | some e ↦ e ∷ [] ];
}

abbrev pub set_state : (ℕ → ℕ) → ℕ → ℕ → ℕ → ℕ
set_state st block v i = if i == block then v else st i

-- `for &pred in succs { if unvisited { stack.push(pred) } }`
unfoldable pub push_unvisited : (ℕ → ℕ) → List ℕ → List ℕ → List ℕ
push_unvisited st [] stack = stack
push_unvisited st (w ∷ ws) stack = push_unvisited st ws (if st w == 0 then w ∷ stack else stack)

-- One round of the `while` loop for the block on top: the state after it, and the block that the
-- iterator returns, if it returns one.
unfoldable pub visit : ControlFlowGraph → ℕ → List ℕ → (ℕ → ℕ) → PostOrder × Option ℕ
visit g block rest st =
    if st block == 0
    then (
      let visited = set_state st block 1 in
          record {
            node_state = visited;
            stack = push_unvisited visited (succs_of g block) (block ∷ rest);
          },
      none,
    )
    else if st block == 2
    then (record { node_state = st; stack = rest }, none)
    else (record { node_state = set_state st block 2; stack = rest }, some block)

abbrev pub emit : List ℕ → Option ℕ → List ℕ
emit out none = out
emit out (some b) = out ++ b ∷ []

-- `next` called until it returns `None`, on fuel for all rounds: the blocks in the order in which they
-- are returned.
unfoldable pub post_order_from : ControlFlowGraph → ℕ → (ℕ → ℕ) → List ℕ → List ℕ → Option (List ℕ)
post_order_from g fuel st [] out = some out
post_order_from g zero st (block ∷ rest) out = none
post_order_from g (suc fuel) st (block ∷ rest) out =
    let r = visit g block rest st in post_order_from g fuel r.0.node_state r.0.stack (emit out r.1)

unfoldable pub post_order : ℕ → ControlFlowGraph → Option (List ℕ)
unfolding post_order_from
post_order fuel g = let p = new_post_order g in post_order_from g fuel p.node_state p.stack []
