-- ===== src/Loops.antt =====
-- crates/codegen/src/loop_analysis.rs: the natural loops of a function, from its dominators. A loop is
-- its index; a `SecondaryMap` is a function. A worklist has the block that is popped next first. The
-- loops take fuel, of which the outer `none` is the lack, as it is a panic.
pub mod Nesting
pub mod Changes
pub mod Worklist
pub mod Analysis
mod Examples
use sonatina.Base.{
  ℕ, zero, suc, Bool, true, false, Option, none, some, List, [], ◌∷◌, ◌++◌, ◌==◌, if◌then◌else◌,
  length, get_elem?, set, ◌>>=◌,
}
use sonatina.Ir.Cfg.{ControlFlowGraph, preds_of, succs_of, set_state, emit}
use sonatina.Domtree.{DomTree, dominates}

pub record LoopData : Type 0 where
  pub header : ℕ
  pub parent : Option ℕ
  pub children : List ℕ

pub record LoopTree : Type 0 where
  pub loops : List LoopData
  pub block_to_loop : ℕ → Option ℕ

pub clear : LoopTree
clear = record { loops = []; block_to_loop = λ _. none }

pub loop_header : LoopTree → ℕ → Option ℕ
loop_header t lp = get_elem? t.loops lp >>= λ d. some d.header

pub parent_loop : LoopTree → ℕ → Option (Option ℕ)
parent_loop t lp = get_elem? t.loops lp >>= λ d. some d.parent

pub loop_of_block : LoopTree → ℕ → Option ℕ
loop_of_block t block = t.block_to_loop block

pub loop_num : LoopTree → ℕ
loop_num t = length t.loops

pub map_block : LoopTree → ℕ → ℕ → LoopTree
map_block t block lp = record t {
  block_to_loop = λ b. if b == block then some lp else t.block_to_loop b;
}

pub is_in_loop_from : ℕ → LoopTree → Option ℕ → ℕ → Option Bool
unfolding parent_loop
is_in_loop_from fuel t none lp = some false
is_in_loop_from zero t (some cur_lp) lp = none
is_in_loop_from (suc fuel) t (some cur_lp) lp =
    let rest = parent_loop t cur_lp >>= λ p. is_in_loop_from fuel t p lp in
    if lp == cur_lp then some true else rest

pub is_in_loop : ℕ → LoopTree → ℕ → ℕ → Option Bool
unfolding is_in_loop_from loop_of_block
is_in_loop fuel t block lp = is_in_loop_from fuel t (loop_of_block t block) lp

pub outermost_parent : ℕ → LoopTree → ℕ → Option ℕ
unfolding parent_loop
outermost_parent zero t lp = none
outermost_parent (suc fuel) t lp = parent_loop t lp >>= λ parent. elim parent [
  | none ↦ some lp
  | some p ↦ outermost_parent fuel t p
]

-- Whether the block dominates one of its predecessors.
pub is_header : ℕ → DomTree → ℕ → List ℕ → Option Bool
is_header fuel domtree block [] = some false
is_header fuel domtree block (pred ∷ preds) =
    let rest = is_header fuel domtree block preds in
    dominates fuel domtree block pred >>= λ d. if d then some true else rest

-- The loops of the headers among the blocks.
pub find_loops : ℕ → ControlFlowGraph → DomTree → List ℕ → Option (List LoopData)
unfolding is_header
find_loops fuel cfg domtree [] = some []
find_loops fuel cfg domtree (block ∷ blocks) = do
  header ← is_header fuel domtree block (preds_of cfg block)
  rest ← find_loops fuel cfg domtree blocks
  some (if header then record { header = block; parent = none; children = [] } ∷ rest else rest)

-- The predecessors of a header that it dominates, pushed on the worklist one after the other.
pub push_latches : ℕ → DomTree → ℕ → List ℕ → List ℕ → Option (List ℕ)
push_latches fuel domtree header [] worklist = some worklist
push_latches fuel domtree header (block ∷ preds) worklist = do
  d ← dominates fuel domtree header block
  push_latches fuel domtree header preds (if d then block ∷ worklist else worklist)

pub add_child : LoopTree → ℕ → ℕ → Option LoopTree
add_child t lp child = do
  d ← get_elem? t.loops lp
  some (record t { loops = set t.loops lp (record d { children = d.children ++ child ∷ [] }) })

pub set_parent : LoopTree → ℕ → ℕ → Option LoopTree
set_parent t lp parent = do
  d ← get_elem? t.loops lp
  some (record t { loops = set t.loops lp (record d { parent = some parent }) })

-- `worklist.extend(..)`
abbrev pub push_all : List ℕ → List ℕ → List ℕ
push_all [] worklist = worklist
push_all (b ∷ bs) worklist = push_all bs (b ∷ worklist)

-- `match self.block_to_loop[block].expand()`, for a block that is popped from the worklist.
pub visit_mapped : ℕ → ControlFlowGraph → ℕ → ℕ → List ℕ → LoopTree → Option (LoopTree × List ℕ)
unfolding outermost_parent add_child set_parent loop_header
visit_mapped fuel cfg cur_lp lp_of_block worklist t =
    outermost_parent fuel t lp_of_block >>= λ outermost.
    let merged = (do
      t1 ← add_child t cur_lp outermost
      t2 ← set_parent t1 outermost cur_lp
      header ← loop_header t2 lp_of_block
      some (t2, push_all (preds_of cfg header) worklist)) in
    if outermost == cur_lp then some (t, worklist) else merged

pub visit_unmapped : ControlFlowGraph → ℕ → ℕ → ℕ → List ℕ → LoopTree → LoopTree × List ℕ
unfolding map_block
visit_unmapped cfg cur_lp cur_lp_header block worklist t = (
  map_block t block cur_lp,
  if block == cur_lp_header then worklist else push_all (preds_of cfg block) worklist,
)

pub visit_block : ℕ → ControlFlowGraph → ℕ → ℕ → ℕ → List ℕ → LoopTree → Option (LoopTree × List ℕ)
unfolding visit_mapped visit_unmapped
visit_block fuel cfg cur_lp cur_lp_header block worklist t = elim (t.block_to_loop block) [
  | some lp_of_block ↦ visit_mapped fuel cfg cur_lp lp_of_block worklist t
  | none ↦ some (visit_unmapped cfg cur_lp cur_lp_header block worklist t)
]

-- `while let Some(block) = worklist.pop()`
pub drain : ℕ → ℕ → ControlFlowGraph → ℕ → ℕ → List ℕ → LoopTree → Option LoopTree
unfolding visit_block
drain fuel up cfg cur_lp cur_lp_header [] t = some t
drain zero up cfg cur_lp cur_lp_header (block ∷ worklist) t = none
drain (suc fuel) up cfg cur_lp cur_lp_header (block ∷ worklist) t =
    visit_block up cfg cur_lp cur_lp_header block worklist t >>= λ r.
    drain fuel up cfg cur_lp cur_lp_header r.1 r.0

pub analyze_loop : ℕ → ControlFlowGraph → DomTree → ℕ → LoopTree → Option LoopTree
unfolding loop_header push_latches drain
analyze_loop fuel cfg domtree cur_lp t = do
  header ← loop_header t cur_lp
  worklist ← push_latches fuel domtree header (preds_of cfg header) []
  drain fuel fuel cfg cur_lp header worklist t

-- `for cur_lp in self.loops.keys().rev()`, for the loops below a number.
pub analyze_loops : ℕ → ControlFlowGraph → DomTree → ℕ → LoopTree → Option LoopTree
unfolding analyze_loop
analyze_loops fuel cfg domtree zero t = some t
analyze_loops fuel cfg domtree (suc n) t =
    analyze_loop fuel cfg domtree n t >>= λ t'. analyze_loops fuel cfg domtree n t'

pub compute : ℕ → ControlFlowGraph → DomTree → Option LoopTree
unfolding clear find_loops loop_num analyze_loops
compute fuel cfg domtree = do
  loops ← find_loops fuel cfg domtree domtree.rpo
  let t : LoopTree = record clear { loops = loops }
  analyze_loops fuel cfg domtree (loop_num t) t

-- `BlocksInLoopPostOrder`, with the top of the stack first: a block has the state 0 before it is
-- visited, 1 when it is, and 2 when it has been returned.
pub record BlocksInLoop : Type 0 where
  pub stack : List ℕ
  pub block_state : ℕ → ℕ

pub new_blocks : LoopTree → ℕ → Option BlocksInLoop
unfolding loop_header
new_blocks t lp = do
  header ← loop_header t lp
  some (record { stack = header ∷ []; block_state = λ _. 0 })

pub push_in_loop : ℕ → LoopTree → ℕ → (ℕ → ℕ) → List ℕ → List ℕ → Option (List ℕ)
unfolding is_in_loop
push_in_loop fuel t lp st [] stack = some stack
push_in_loop fuel t lp st (succ ∷ succs) stack =
    let known = push_in_loop fuel t lp st succs stack in
    let asked = is_in_loop fuel t succ lp >>= λ inside.
    push_in_loop fuel t lp st succs (if inside then succ ∷ stack else stack) in
    if st succ == 0 then asked else known

-- One round of the `while` loop of `next`, and the block that it returns, if it returns one.
pub visit_in_loop :
    ℕ → LoopTree → ControlFlowGraph → ℕ → ℕ → List ℕ → (ℕ → ℕ) → Option (BlocksInLoop × Option ℕ)
unfolding push_in_loop
visit_in_loop fuel t cfg lp block rest st =
    let visited = set_state st block 1 in
    let fresh = push_in_loop fuel t lp visited (succs_of cfg block) (block ∷ rest) >>= λ stack.
    some (record { stack = stack; block_state = visited }, none) in
    if st block == 1
    then some (record { stack = rest; block_state = set_state st block 2 }, some block)
    else if st block == 2
    then some (record { stack = rest; block_state = st }, none)
    else fresh

-- `next` until it returns `None`: the blocks in the order in which they are returned.
pub iter_blocks_from :
    ℕ → ℕ → LoopTree → ControlFlowGraph → ℕ → List ℕ → (ℕ → ℕ) → List ℕ → Option (List ℕ)
unfolding visit_in_loop
iter_blocks_from fuel up t cfg lp [] st out = some out
iter_blocks_from zero up t cfg lp (block ∷ rest) st out = none
iter_blocks_from (suc fuel) up t cfg lp (block ∷ rest) st out =
    visit_in_loop up t cfg lp block rest st >>= λ r.
    iter_blocks_from fuel up t cfg lp r.0.stack r.0.block_state (emit out r.1)

pub iter_blocks_post_order : ℕ → LoopTree → ControlFlowGraph → ℕ → Option (List ℕ)
unfolding new_blocks iter_blocks_from
iter_blocks_post_order fuel t cfg lp = do
  p ← new_blocks t lp
  iter_blocks_from fuel fuel t cfg lp p.stack p.block_state []
