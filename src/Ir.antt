-- ===== src/Ir.antt =====
-- The data of crates/ir/src: types, 256-bit integers, immediates.
pub mod Types
pub mod Layout
pub mod Cfg
pub mod U256
pub mod BigInt
pub mod Value
pub mod Interpret
