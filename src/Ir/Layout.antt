-- ===== src/Ir/Layout.antt =====
-- crates/ir/src/layout.rs: the order of the blocks of a function and of the instructions of each
-- block, as doubly linked lists in two maps. A `SecondaryMap` is a function: what was never written
-- is the default. The assertions and `unwrap`s that fail are `none`.
pub mod Chain
pub mod Linked
pub mod Order
pub mod Blocks
pub mod Insts
pub mod Iter
pub mod Cursor
pub mod Examples
use sonatina.Base.{
  ℕ, Bool, true, false, not, ◌&&◌, ◌||◌, Option, none, some, List, [], ◌∷◌, ◌==◌, if◌then◌else◌,
  ◌>>=◌, ◌>>◌, assert,
}

pub record BlockNode : Type 0 where
  pub prev : Option ℕ
  pub next : Option ℕ
  pub first_inst : Option ℕ
  pub last_inst : Option ℕ

pub record InstNode : Type 0 where
  pub block : Option ℕ
  pub prev : Option ℕ
  pub next : Option ℕ

pub record Layout : Type 0 where
  pub blocks : ℕ → BlockNode
  pub insts : ℕ → InstNode
  pub entry_block : Option ℕ
  pub last_block : Option ℕ

abbrev pub default_block : BlockNode
default_block = record { prev = none; next = none; first_inst = none; last_inst = none }

abbrev pub default_inst : InstNode
default_inst = record { block = none; prev = none; next = none }

-- A write to a map.
abbrev pub update : {A : Type 0} → (ℕ → A) → ℕ → A → ℕ → A
update f k v i = if i == k then v else f i

abbrev pub is_none : {A : Type 0} → Option A → Bool
is_none none = true
is_none (some _) = false

-- `Some(b) == o`
abbrev pub is_some_of : ℕ → Option ℕ → Bool
is_some_of b none = false
is_some_of b (some c) = b == c

pub new_layout : Layout
new_layout = record {
  blocks = λ _. default_block;
  insts = λ _. default_inst;
  entry_block = none;
  last_block = none;
}

-- `node == BlockNode::default()`
unfoldable pub is_default_block : BlockNode → Bool
is_default_block n = is_none n.prev && is_none n.next && is_none n.first_inst && is_none n.last_inst

unfoldable pub is_default_inst : InstNode → Bool
is_default_inst n = is_none n.block && is_none n.prev && is_none n.next

unfoldable pub is_block_inserted : Layout → ℕ → Bool
unfolding is_default_block
is_block_inserted l block =
    is_some_of block l.entry_block || not (is_default_block (l.blocks block))

unfoldable pub is_inst_inserted : Layout → ℕ → Bool
unfolding is_default_inst
is_inst_inserted l inst = not (is_default_inst (l.insts inst))

pub is_last_block : Layout → ℕ → Bool
is_last_block l block = is_some_of block l.last_block

pub prev_block_of : Layout → ℕ → Option (Option ℕ)
prev_block_of l block = do assert (is_block_inserted l block); some (l.blocks block).prev

pub next_block_of : Layout → ℕ → Option (Option ℕ)
next_block_of l block = do assert (is_block_inserted l block); some (l.blocks block).next

pub first_inst_of : Layout → ℕ → Option (Option ℕ)
first_inst_of l block = do assert (is_block_inserted l block); some (l.blocks block).first_inst

unfoldable pub last_inst_of : Layout → ℕ → Option (Option ℕ)
last_inst_of l block = do assert (is_block_inserted l block); some (l.blocks block).last_inst

pub is_block_empty : Layout → ℕ → Option Bool
is_block_empty l block = do first ← first_inst_of l block; some (is_none first)

pub prev_inst_of : Layout → ℕ → Option (Option ℕ)
prev_inst_of l inst = do assert (is_inst_inserted l inst); some (l.insts inst).prev

pub next_inst_of : Layout → ℕ → Option (Option ℕ)
next_inst_of l inst = do assert (is_inst_inserted l inst); some (l.insts inst).next

unfoldable pub inst_block : Layout → ℕ → Option ℕ
inst_block l inst = do assert (is_inst_inserted l inst); (l.insts inst).block

pub is_first_inst : Layout → ℕ → Option Bool
is_first_inst l inst = do
  block ← inst_block l inst
  first ← first_inst_of l block
  some (is_some_of inst first)
