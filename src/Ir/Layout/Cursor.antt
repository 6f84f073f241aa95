-- ===== src/Ir/Layout/Cursor.antt =====
-- crates/ir/src/func_cursor.rs: `CursorLocation` and the methods of `FuncCursor` that move a cursor
-- over a layout and change the layout at it. A cursor is given by its location.
pub mod Moves
pub mod Removal
mod Examples
use sonatina.Base.{ℕ, zero, suc, Option, none, some, ◌>>=◌, ◌>>◌}
use sonatina.Ir.Layout.{
  Layout, prev_block_of, next_block_of, first_inst_of, last_inst_of, prev_inst_of, next_inst_of,
  inst_block,
}
use sonatina.Ir.Layout.Blocks
use sonatina.Ir.Layout.Insts

pub data CursorLocation : Type 0 where
  at block_top block_bottom : ℕ → CursorLocation
  no_where : CursorLocation

-- `o.map_or(default, f)`, `o.map_or_else(|| default, f)`, the default a computation that may panic.
abbrev pub map_or : Option CursorLocation → (ℕ → CursorLocation) → Option ℕ → Option CursorLocation
map_or default f none = default
map_or default f (some x) = some (f x)

pub set_to_entry : Layout → CursorLocation
set_to_entry l = elim l.entry_block [
  | some entry ↦ CursorLocation.block_top entry
  | none ↦ CursorLocation.no_where
]

pub insert_inst : CursorLocation → ℕ → Layout → Option Layout
insert_inst (CursorLocation.at i) inst l = Insts.insert_inst_after inst i l
insert_inst (CursorLocation.block_top block) inst l = Insts.prepend_inst inst block l
insert_inst (CursorLocation.block_bottom block) inst l = Insts.append_inst inst block l
insert_inst CursorLocation.no_where inst l = none

-- `block`, where the outer option is a panic of the layout.
pub block : CursorLocation → Layout → Option (Option ℕ)
block (CursorLocation.at inst) l = do b ← inst_block l inst; some (some b)
block (CursorLocation.block_top b) l = some (some b)
block (CursorLocation.block_bottom b) l = some (some b)
block CursorLocation.no_where l = some none

pub expect_block : CursorLocation → Layout → Option ℕ
expect_block loc l = do found ← block loc l; found

pub expect_inst : CursorLocation → Option ℕ
expect_inst (CursorLocation.at inst) = some inst
expect_inst _ = none

pub append_inst : CursorLocation → ℕ → Layout → Option Layout
append_inst loc inst l = do current ← expect_block loc l; Insts.append_inst inst current l

pub prepend_inst : CursorLocation → ℕ → Layout → Option Layout
prepend_inst loc inst l = do current ← expect_block loc l; Insts.prepend_inst inst current l

pub insert_block : CursorLocation → ℕ → Layout → Option Layout
insert_block loc b l = do current ← expect_block loc l; Blocks.insert_block_after b current l

pub insert_block_before : CursorLocation → ℕ → Layout → Option Layout
insert_block_before loc b l = do
  current ← expect_block loc l
  Blocks.insert_block_before b current l

pub next_loc : CursorLocation → Layout → Option CursorLocation
next_loc (CursorLocation.at inst) l = do
  next ← next_inst_of l inst
  map_or (do b ← inst_block l inst; some (CursorLocation.block_bottom b)) CursorLocation.at next
next_loc (CursorLocation.block_top b) l = do
  first ← first_inst_of l b
  map_or (some (CursorLocation.block_bottom b)) CursorLocation.at first
next_loc (CursorLocation.block_bottom b) l = do
  next ← next_block_of l b
  map_or (some CursorLocation.no_where) CursorLocation.block_top next
next_loc CursorLocation.no_where l = some CursorLocation.no_where

pub prev_loc : CursorLocation → Layout → Option CursorLocation
prev_loc (CursorLocation.at inst) l = do
  prev ← prev_inst_of l inst
  map_or (do b ← inst_block l inst; some (CursorLocation.block_top b)) CursorLocation.at prev
prev_loc (CursorLocation.block_top b) l = do
  prev ← prev_block_of l b
  map_or (some CursorLocation.no_where) CursorLocation.block_bottom prev
prev_loc (CursorLocation.block_bottom b) l = do
  last ← last_inst_of l b
  map_or (some (CursorLocation.block_top b)) CursorLocation.at last
prev_loc CursorLocation.no_where l = some CursorLocation.no_where

pub next_block : CursorLocation → Layout → Option (Option ℕ)
next_block loc l = do
  found ← block loc l
  elim found [ none ↦ some none | some b ↦ next_block_of l b ]

pub prev_block : CursorLocation → Layout → Option (Option ℕ)
prev_block loc l = do
  found ← block loc l
  elim found [ none ↦ some none | some b ↦ prev_block_of l b ]

pub proceed_block : CursorLocation → Layout → Option CursorLocation
proceed_block loc l = do
  next ← next_block loc l
  map_or (some CursorLocation.no_where) CursorLocation.block_top next

-- The data flow graph is a state of its own; of it, removal uses `untrack_inst`.
module _ {D : Type 0} (untrack_inst : ℕ → D → Option D) where
  pub remove_inst : CursorLocation → Layout → D → Option (CursorLocation × Layout × D)
  remove_inst loc l dfg = do
    inst_id ← expect_inst loc
    after ← next_loc loc l
    dfg' ← untrack_inst inst_id dfg
    l' ← Insts.remove_inst inst_id l
    some (after, l', dfg')

  -- `while matches!(self.loc(), CursorLocation::At(..)) { self.remove_inst(func) }`, on fuel.
  pub remove_insts : ℕ → CursorLocation → Layout → D → Option (Layout × D)
  unfolding remove_inst
  remove_insts zero loc l dfg = none
  remove_insts (suc fuel) (CursorLocation.at inst) l dfg =
      remove_inst (CursorLocation.at inst) l dfg >>= λ r. remove_insts fuel r.0 r.1 r.2
  remove_insts (suc fuel) _ l dfg = some (l, dfg)

  -- The instructions of a block whose first one is given.
  remove_all : ℕ → Option ℕ → Layout → D → Option (Layout × D)
  unfolding remove_insts
  remove_all fuel none l dfg = some (l, dfg)
  remove_all fuel (some first) l dfg = remove_insts fuel (CursorLocation.at first) l dfg

  pub remove_block : ℕ → CursorLocation → Layout → D → Option (CursorLocation × Layout × D)
  unfolding remove_all
  remove_block fuel loc l dfg = do
    b ← expect_block loc l
    next ← next_block_of l b
    first ← first_inst_of l b
    r ← remove_all fuel first l dfg
    l' ← Blocks.remove_block b r.0
    after ← map_or (some CursorLocation.no_where) CursorLocation.block_top next
    some (after, l', r.1)
