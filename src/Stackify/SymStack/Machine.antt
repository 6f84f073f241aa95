-- ===== src/Stackify/SymStack/Machine.antt =====
-- The actions of stackalloc/mod.rs on a stack of machine words, and the simulation: what a method
-- of sym_stack.rs does to the symbolic stack is what its actions do to the machine's.
pub mod Steps
pub mod Simulation
pub mod Runs
