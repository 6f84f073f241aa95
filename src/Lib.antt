-- ===== src/Lib.antt =====
-- Sonatina: a compiler intermediate representation with a back end for a stack machine. This library
-- models its arithmetic, the semantics of its instructions, the order of a function's blocks and
-- instructions, its control flow graph, dominators, loops and liveness, the symbolic stack on which the back end plans
-- the stack operations of a function, and the assembler that places them in an object.
--
-- The parts and the files that model them:
--
-- * crates/ir/src/bigint.rs (Ir/BigInt.antt): `I256`, a sign and an absolute value. Every operation
--   converts to the two's complement pattern of a `U256` and back. `primitive_types::U256` is a
--   package outside the repository: its operations are the record `U256Ops` of Ir/U256.antt, and
--   `IsU256` states what its documentation says of them on numbers below 2^256. Ir/U256/Native.antt
--   gives them as functions on natural numbers. A panic is `none`. `IsCanonical` says that a value is
--   in range and that zero has one sign; `unsigned` and `of_pattern` go to the pattern and back.
--   Children: BigInt/Mask, Canonical, Arith, Convert, Division, Order.
-- * crates/ir/src/value.rs (Ir/Value.antt): `Immediate`, a constant of an integral type. Machine
--   integers are natural numbers below two to their width, the bit patterns. Each operation widens its
--   operands to an `I256`, works there, and cuts the result to the width again, which `apply_binop`
--   and `apply_unop` write out. Debug assertions count as panics. Children: Value/Bits, Signed,
--   Apply, Wrap, Compare, Casts, Divide, NegativeZero, Errors, Predicates.
-- * crates/ir/src/types.rs (Ir/Types.antt): the order of types that the casts test.
-- * crates/ir/src/interpret (Ir/Interpret.antt, Ir/Interpret/Insts.antt): evaluated values and
--   `Interpret::interpret` of the instructions of each file of that folder, in a monad of a state with
--   panics. The trait `State` is the record `StateOps`, and `IsState` states what its comments ask of
--   an implementation. Children: Insts/State, Arith, Control.
-- * crates/ir/src/layout.rs (Ir/Layout.antt, Ir/Layout/Blocks.antt, Ir/Layout/Insts.antt): `Layout`, the
--   doubly linked lists of the blocks and of the instructions of each. A `SecondaryMap` is a function,
--   with the default where nothing was written; a failed assertion or `unwrap` is `none`. The abstract
--   view is a list of blocks and a list of instructions for each block: `IsOrder` (Layout/Order) says
--   that a layout stands for them. Children: Layout/Chain and Linked (linked chains), Order, Blocks
--   and Insts with their Links, Places and Refines, Iter.
-- * crates/ir/src/func_cursor.rs (Ir/Layout/Cursor.antt): `CursorLocation` and the methods of
--   `FuncCursor` on the layout; a method that sets the location returns it. Of the data flow graph,
--   removal uses `untrack_inst`, a parameter. Children: Cursor/Moves, Removal.
-- * crates/ir/src/cfg.rs (Ir/Cfg.antt): the control flow graph, built from a layout, and its post order.
--   `BTreeSet` is a list in ascending order. Whether an instruction is an exit, and the destinations
--   of a branch, come from the data flow graph and are parameters. Children: Cfg/Edges, Compute,
--   Visits and Rounds (the invariant of the depth-first search), PostOrders.
-- * crates/codegen/src/stackalloc/stackify/sym_stack.rs (Stackify.antt, Stackify/SymStack.antt): the
--   symbolic stack, top first, with the barrier of the return address. Each method returns the new
--   stack and the actions it has emitted; a failed assertion is `none`. Children: SymStack/Barrier,
--   Rotate, Clear, Find, Keeps, Machine. SymStack/Machine.antt executes actions on a stack of words.
-- * crates/codegen/src/domtree.rs (Domtree.antt): the tree of the immediate dominators, computed over the
--   post order of the control flow graph, its queries and the dominance frontiers. `IsTree` says that
--   the dominators lead to the root through rising numbers. Children: Domtree/Ancestors, Intersect.
-- * crates/codegen/src/post_domtree.rs (PostDomtree.antt): the post dominators, which are the dominators of
--   the control flow graph turned round, with two more blocks. Child: PostDomtree/Graph.
-- * crates/codegen/src/loop_analysis.rs (Loops.antt): the tree of the natural loops, over the dominators,
--   its queries, and the post order of a loop's blocks. `Nested` (Loops/Nesting) says that parents have
--   lower indices and blocks are in loops that exist. Children: Loops/Nesting, Changes, Worklist,
--   Analysis.
-- * crates/codegen/src/bitset.rs (BitSets.antt): bit sets, which forward to the package `bit_set`. Their
--   operations are the record `BitSetOps`, and `IsBitSet` states their documented behaviour.
--   BitSets/Lists.antt has them as lists.
-- * crates/codegen/src/liveness.rs (Liveness.antt): the blocks into which and out of which each value is
--   live, found by searching upward from its uses; the values that are live after each instruction;
--   and those that are live across calls. Liveness/Paths.antt says what is live by the paths of the
--   control flow graph. What the module asks of the data flow graph is the record `Dfg`. Children:
--   Liveness/Paths, Marks, Search, Upward, Uses, Compute, Exact.
-- * crates/codegen/src/stackalloc/stackify/slots.rs (Stackify/Slots.antt): the frame slots of spilled
--   values, over the bit sets. Children: Slots/Pools, Reuse.
-- * crates/codegen/src/machinst/assemble.rs and vcode.rs (Assemble.antt): the layout of an object. The
--   offsets of functions, blocks and instructions and the addresses of labels depend on each other,
--   since a label's address decides how many bytes it takes; `resize` is repeated until it reports no
--   change, and then `emit` writes the bytes. The trait `LowerBackend` is the record `Backend`, and
--   `IsBackend` (Assemble/Placed) states the sizes that its methods promise each other. Children:
--   Assemble/Placed, Writes, Resize, Blocks, Functions, Begins, Objects, Emitted, Offsets.
-- * crates/codegen/src/isa/evm/mod.rs (Assemble/Evm.antt): those methods for the EVM, where an opcode is
--   its byte.
--
-- The immediates are the operands of the instructions and of the action that pushes a constant.
-- Base.antt passes on the names that all modules share: lists measured by native numbers, positions,
-- tests and case splits. The modules called Examples run the definitions on small inputs.
--
-- Bounds and fuel: `clear_above_func_ret` pops one item in each round and gets one more round than the
-- stack has items. The iterators of the layout take as many steps as they visit items, and the removal
-- of a block by the cursor one more than the block has instructions. The post order takes one round
-- for the entry and, for each block that is reached, one round and one more for each of its edges.
-- In a tree of dominators, `dominates` takes as many steps as the root's number is above the block's
-- and one more, and each loop of `intersect` as many as the numbers can rise and one more. `compute`
-- and `compute_df` have one fuel for all their loops. The search of the liveness goes on at a block only
-- if it has not been there, so that more than the number of blocks is enough for it; `compute` has one fuel
-- for this search, for the post order and for the walk through the instructions of a block, and the rounds
-- of the post order, or the instructions if they are more, are enough for all three. The worklist of the loop
-- analysis grows by the predecessors of a block only when a block is mapped or a loop gets its parent.
-- `VecDeque` and `Vec` are lists; the `usize` of a depth is a natural number, and the operand of an
-- action its remainder at 8 bits. The `u32` counters of uses and of offsets wrap round, as in a release
-- build.
--
-- Not modelled: the instructions on aggregates and symbols, the data flow graph, the
-- passes, the rest of the stackifier, the lowering to machine code, object files, the parser and printers, the macros,
-- and the drivers.
pub mod Assemble
pub mod Base
pub mod BitSets
pub mod Domtree
pub mod Ir
pub mod Liveness
pub mod Loops
pub mod PostDomtree
pub mod Stackify
