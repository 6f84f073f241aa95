-- ===== src/Ir/Layout/Blocks.antt =====
-- crates/ir/src/layout.rs: the operations on the order of the blocks.
pub mod Links
pub mod Refines
use sonatina.Base.{ℕ, zero, suc, not, Option, none, some, List, [], ◌∷◌, ◌>>=◌, ◌>>◌, assert}
use sonatina.Ir.Layout.{Layout, BlockNode, default_block, update, is_block_inserted}

-- `self.blocks[block].prev = v` and the like.
abbrev pub set_block_prev : ℕ → Option ℕ → Layout → Layout
set_block_prev block v l = record l {
  blocks = update l.blocks block (record (l.blocks block) { prev = v });
}

abbrev pub set_block_next : ℕ → Option ℕ → Layout → Layout
set_block_next block v l = record l {
  blocks = update l.blocks block (record (l.blocks block) { next = v });
}

-- `self.blocks[block] = node`, for a node without instructions.
abbrev pub put_block : ℕ → Option ℕ → Option ℕ → Layout → Layout
put_block block prev next l = record l {
  blocks = update l.blocks block (record default_block { prev = prev; next = next });
}

abbrev pub link_next : Option ℕ → Option ℕ → Layout → Layout
link_next (some block) v l = set_block_next block v l
link_next none v l = record l { entry_block = v }

abbrev pub link_prev : Option ℕ → Option ℕ → Layout → Layout
link_prev (some block) v l = set_block_prev block v l
link_prev none v l = record l { last_block = v }

pub append_block : ℕ → Layout → Option Layout
append_block block l = do
  assert (not (is_block_inserted l block))
  some (record (put_block block l.last_block none (link_next l.last_block (some block) l)) {
    last_block = some block;
  })

pub insert_block_before : ℕ → ℕ → Layout → Option Layout
insert_block_before block before l = do
  assert (is_block_inserted l before)
  assert (not (is_block_inserted l block))
  let prev = (l.blocks before).prev
  let linked = set_block_prev before (some block) (link_next prev (some block) l)
  some (put_block block prev (some before) linked)

pub insert_block_after : ℕ → ℕ → Layout → Option Layout
insert_block_after block after l = do
  assert (is_block_inserted l after)
  assert (not (is_block_inserted l block))
  let next = (l.blocks after).next
  let linked = set_block_next after (some block) (link_prev next (some block) l)
  some (put_block block (some after) next linked)

-- The four cases of the neighbours: each side is linked to the other, or else its end is moved.
pub remove_block : ℕ → Layout → Option Layout
remove_block block l = do
  assert (is_block_inserted l block)
  let prev = (l.blocks block).prev
  let next = (l.blocks block).next
  let linked = link_prev next prev (link_next prev next l)
  some (record linked { blocks = update linked.blocks block default_block })

-- `BlockIter::next`, run until it ends.
unfoldable pub iter_block_from : ℕ → Layout → Option ℕ → Option (List ℕ)
iter_block_from fuel l none = some []
iter_block_from zero l (some block) = none
iter_block_from (suc fuel) l (some block) = do
  rest ← iter_block_from fuel l (l.blocks block).next
  some (block ∷ rest)

unfoldable pub iter_block : ℕ → Layout → Option (List ℕ)
unfolding iter_block_from
iter_block fuel l = iter_block_from fuel l l.entry_block
