-- ===== src/Ir/Layout/Insts.antt =====
-- crates/ir/src/layout.rs: the operations on the order of the instructions in a block.
pub mod Links
pub mod Places
pub mod Refines
use sonatina.Base.{ℕ, zero, suc, not, Option, none, some, List, [], ◌∷◌, ◌>>=◌, ◌>>◌, assert}
use sonatina.Ir.Layout.{Layout, InstNode, default_inst, update, is_block_inserted, is_inst_inserted}

-- `self.insts[inst].prev = v` and the like.
abbrev pub set_inst_prev : ℕ → Option ℕ → Layout → Layout
set_inst_prev inst v l = record l {
  insts = update l.insts inst (record (l.insts inst) { prev = v });
}

abbrev pub set_inst_next : ℕ → Option ℕ → Layout → Layout
set_inst_next inst v l = record l {
  insts = update l.insts inst (record (l.insts inst) { next = v });
}

abbrev pub set_first_inst : ℕ → Option ℕ → Layout → Layout
set_first_inst block v l = record l {
  blocks = update l.blocks block (record (l.blocks block) { first_inst = v });
}

abbrev pub set_last_inst : ℕ → Option ℕ → Layout → Layout
set_last_inst block v l = record l {
  blocks = update l.blocks block (record (l.blocks block) { last_inst = v });
}

-- `self.insts[inst] = inst_node`
abbrev pub put_inst : ℕ → ℕ → Option ℕ → Option ℕ → Layout → Layout
put_inst inst block prev next l = record l {
  insts = update l.insts inst (record { block = some block; prev = prev; next = next });
}

-- The neighbour's link, or else the end of the block.
abbrev pub link_next_inst : ℕ → Option ℕ → Option ℕ → Layout → Layout
link_next_inst block (some inst) v l = set_inst_next inst v l
link_next_inst block none v l = set_first_inst block v l

abbrev pub link_prev_inst : ℕ → Option ℕ → Option ℕ → Layout → Layout
link_prev_inst block (some inst) v l = set_inst_prev inst v l
link_prev_inst block none v l = set_last_inst block v l

pub append_inst : ℕ → ℕ → Layout → Option Layout
append_inst inst block l = do
  assert (is_block_inserted l block)
  assert (not (is_inst_inserted l inst))
  let last = (l.blocks block).last_inst
  let linked = link_next_inst block last (some inst) l
  some (put_inst inst block last none (set_last_inst block (some inst) linked))

pub prepend_inst : ℕ → ℕ → Layout → Option Layout
prepend_inst inst block l = do
  assert (is_block_inserted l block)
  assert (not (is_inst_inserted l inst))
  let first = (l.blocks block).first_inst
  let linked = link_prev_inst block first (some inst) l
  some (put_inst inst block none first (set_first_inst block (some inst) linked))

pub insert_inst_before : ℕ → ℕ → Layout → Option Layout
insert_inst_before inst before l = do
  assert (is_inst_inserted l before)
  assert (not (is_inst_inserted l inst))
  block ← (l.insts before).block
  let prev = (l.insts before).prev
  let linked = set_inst_prev before (some inst) (link_next_inst block prev (some inst) l)
  some (put_inst inst block prev (some before) linked)

pub insert_inst_after : ℕ → ℕ → Layout → Option Layout
insert_inst_after inst after l = do
  assert (is_inst_inserted l after)
  assert (not (is_inst_inserted l inst))
  block ← (l.insts after).block
  let next = (l.insts after).next
  let linked = set_inst_next after (some inst) (link_prev_inst block next (some inst) l)
  some (put_inst inst block (some after) next linked)

-- The four cases of the neighbours: each side is linked to the other, or else the block's end moves.
pub remove_inst : ℕ → Layout → Option Layout
remove_inst inst l = do
  assert (is_inst_inserted l inst)
  block ← (l.insts inst).block
  let prev = (l.insts inst).prev
  let next = (l.insts inst).next
  let linked = link_prev_inst block next prev (link_next_inst block prev next l)
  some (record linked { insts = update linked.insts inst default_inst })

-- `InstIter::next`, run until it ends.
unfoldable pub iter_inst_from : ℕ → Layout → Option ℕ → Option (List ℕ)
iter_inst_from fuel l none = some []
iter_inst_from zero l (some inst) = none
iter_inst_from (suc fuel) l (some inst) = do
  rest ← iter_inst_from fuel l (l.insts inst).next
  some (inst ∷ rest)

unfoldable pub iter_inst : ℕ → Layout → ℕ → Option (List ℕ)
unfolding iter_inst_from
iter_inst fuel l block = do
  assert (is_block_inserted l block)
  iter_inst_from fuel l (l.blocks block).first_inst
