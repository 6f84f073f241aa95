-- ===== src/Ir/Interpret/Insts/Syntax.antt =====
-- crates/ir/src/inst: the instructions of arith.rs, logic.rs, cast.rs, cmp.rs, control_flow.rs, and of
-- data.rs those on memory.
use sonatina.Base.{ℕ, Option, List}
use sonatina.Ir.Types.{Ty}

-- The instructions of each file, with the numbers of their values, blocks and functions.
pub data ArithInst : Type 0 where
  neg : ℕ → ArithInst
  add sub mul sdiv udiv umod smod shl shr sar : ℕ → ℕ → ArithInst

pub data LogicInst : Type 0 where
  not : ℕ → LogicInst
  and or xor : ℕ → ℕ → LogicInst

pub data CastInst : Type 0 where
  sext zext trunc bitcast int_to_ptr ptr_to_int : ℕ → Ty → CastInst

pub data CmpInst : Type 0 where
  lt gt slt sgt le ge sle sge eq ne : ℕ → ℕ → CmpInst
  is_zero : ℕ → CmpInst

pub data ControlInst : Type 0 where
  jump : ℕ → ControlInst
  br : ℕ → ℕ → ℕ → ControlInst
  br_table : ℕ → Option ℕ → List (ℕ × ℕ) → ControlInst
  phi : List (ℕ × ℕ) → ControlInst
  call : ℕ → List ℕ → ControlInst
  return : Option ℕ → ControlInst
  unreachable : ControlInst

pub data DataInst : Type 0 where
  mload : ℕ → Ty → DataInst
  mstore : ℕ → ℕ → Ty → DataInst
  alloca : Ty → DataInst

pub data Inst : Type 0 where
  arith : ArithInst → Inst
  logic : LogicInst → Inst
  cast : CastInst → Inst
  cmp : CmpInst → Inst
  control : ControlInst → Inst
  memory : DataInst → Inst
