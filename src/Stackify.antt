-- ===== src/Stackify.antt =====
-- crates/codegen/src/stackalloc: the actions that stack allocation emits, and the symbolic stack.
pub mod SymStack
pub mod Slots
use sonatina.Base.{ℕ}
use sonatina.Ir.Value.{Immediate}

-- `Action` of stackalloc/mod.rs. A stack object is named by its number.
pub data Action : Type 0 where
  stack_dup stack_swap : ℕ → Action
  push : Immediate → Action
  push_continuation_offset pop : Action
  mem_load_abs mem_load_frame_slot mem_store_abs mem_store_frame_slot : ℕ → Action
  mem_load_obj mem_store_obj : ℕ → Action
