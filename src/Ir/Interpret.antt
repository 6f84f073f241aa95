-- ===== src/Ir/Interpret.antt =====
-- crates/ir/src/interpret/mod.rs: evaluated values, actions, and the `State` trait, as the operations
-- on a state and as a monad with panics.
pub mod Insts
use sonatina.Base.{ℕ, Bool, true, false, Option, none, some, List}
use sonatina.Ir.Types.{Ty}
use sonatina.Ir.Value.{Immediate}

mutual
  -- `EvalValue`; the fields of an aggregate are a list of their own.
  pub data EvalValue : Type 0 where
    imm : Immediate → EvalValue
    aggregate : EvalValues → Ty → EvalValue
    undef : EvalValue

  pub data EvalValues : Type 0 where
    nil : EvalValues
    cons : EvalValue → EvalValues → EvalValues

-- A block is named by the number of its `BlockId`.
pub data Action : Type 0 where
  continue fall_through : Action
  jump_to : ℕ → Action
  return : EvalValue → Action

-- The trait `State`. A method may panic, which is `none`. Of the data flow graph the instructions
-- read here only the integral type that represents a pointer.
pub record StateOps (S : Type 0) : Type 0 where
  pub lookup_val : ℕ → S → Option (EvalValue × S)
  pub call_func : ℕ → List EvalValue → S → Option (EvalValue × S)
  pub set_action : Action → S → S
  pub prev_block : S → Option (ℕ × S)
  pub load : EvalValue → Ty → S → Option (EvalValue × S)
  pub store : EvalValue → EvalValue → Ty → S → Option (EvalValue × S)
  pub alloca : Ty → S → Option (EvalValue × S)
  pub pointer_repl : Ty

-- Applied to an immediate; an aggregate panics.
pub with_imm : EvalValue → (Immediate → Option EvalValue) → Option EvalValue
with_imm (EvalValue.imm value) f = f value
with_imm (EvalValue.aggregate _ _) f = none
with_imm EvalValue.undef f = some EvalValue.undef

pub zip_with_imm :
    EvalValue → EvalValue → (Immediate → Immediate → Option EvalValue) → Option EvalValue
zip_with_imm (EvalValue.imm l) (EvalValue.imm r) f = f l r
zip_with_imm (EvalValue.aggregate _ _) r f = none
zip_with_imm l (EvalValue.aggregate _ _) f = none
zip_with_imm _ _ f = some EvalValue.undef

unfoldable pub as_imm : EvalValue → Option Immediate
as_imm (EvalValue.imm value) = some value
as_imm _ = none

pub is_undef : EvalValue → Bool
is_undef EvalValue.undef = true
is_undef _ = false
