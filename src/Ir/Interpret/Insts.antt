-- ===== src/Ir/Interpret/Insts.antt =====
-- crates/ir/src/interpret: `Interpret::interpret` of the instructions of arith.rs, logic.rs, cast.rs,
-- cmp.rs and control_flow.rs, and of the memory instructions of data.rs.
mod Syntax
pub mod State
pub mod Arith
pub mod Control
mod Examples
pub use Syntax.*
use sonatina.Base.{ℕ, Bool, true, false, Option, none, some, List, [], ◌∷◌, ◌==◌, if◌then◌else◌}
use sonatina.Ir.Interpret.{EvalValue, Action, StateOps, with_imm, zip_with_imm, as_imm}
use sonatina.Ir.Types.{Ty, ty_gt}
use sonatina.Ir.U256.{U256Ops}
use sonatina.Ir.Value
use sonatina.Ir.Value.{Immediate}

-- An immediate as an evaluated value.
abbrev pub into : Option Immediate → Option EvalValue
into none = none
into (some value) = some (EvalValue.imm value)

module _ (u : U256Ops) where
  -- `if rhs.is_zero() { return Undef }`, before a division.
  pub guarded :
      (Immediate → Immediate → Option Immediate) → Immediate → Immediate → Option EvalValue
  guarded op lhs rhs = elim (Value.is_zero_imm u rhs) [
    | none ↦ none
    | some true ↦ some EvalValue.undef
    | some false ↦ into (op lhs rhs)
  ]

  -- The closure of `Sar`.
  pub sar_value : Immediate → Immediate → Option Immediate
  sar_value bits value = elim (Value.shr u value bits) [
    | none ↦ none
    | some shifted ↦ elim (Value.is_positive_imm u value) [
      | none ↦ none
      | some true ↦ some shifted
      | some false ↦ Value.neg u shifted
    ]
  ]

  is_zero_value : Immediate → Option EvalValue
  is_zero_value value = elim (Value.is_zero_imm u value) [
    | none ↦ none
    | some b ↦ some (EvalValue.imm (Immediate.i1 b))
  ]

module _ {S : Type 0} (u : U256Ops) (st : StateOps S) where
  abbrev M : Type 0 → Type 0
  M A = S → Option (A × S)

  infixl 5 ◌>>=◌ ◌>>◌
  abbrev pub ◌>>=◌ : {A B : Type 0} → M A → (A → M B) → M B
  ◌>>=◌ m f s = elim (m s) [ none ↦ none | some (a, t) ↦ f a t ]

  abbrev pub ◌>>◌ : {B : Type 0} → M (Unit {0}) → M B → M B
  m >> k = m >>= λ _. k

  abbrev pure : {A : Type 0} → A → M A
  pure a s = some (a, s)

  -- A value, or its panic.
  abbrev lift : {A : Type 0} → Option A → M A
  lift none s = none
  lift (some a) s = some (a, s)

  abbrev set : Action → M (Unit {0})
  set a s = some (tt, st.set_action a s)

  abbrev lookup : ℕ → M EvalValue
  lookup v = st.lookup_val v

  -- The instructions that set the action before they read their operands.
  pub action_first : ℕ → ℕ → (Immediate → Immediate → Option EvalValue) → M EvalValue
  action_first l r f = do
    set Action.continue
    lhs ← lookup l
    rhs ← lookup r
    lift (zip_with_imm lhs rhs f)

  -- `Mul` sets the action before and after it reads its operands.
  pub action_twice : ℕ → ℕ → (Immediate → Immediate → Option EvalValue) → M EvalValue
  action_twice l r f = do
    set Action.continue
    lhs ← lookup l
    rhs ← lookup r
    set Action.continue
    lift (zip_with_imm lhs rhs f)

  -- The instructions that read their operands first.
  pub operands_first : ℕ → ℕ → (Immediate → Immediate → Option EvalValue) → M EvalValue
  operands_first l r f = do
    lhs ← lookup l
    rhs ← lookup r
    set Action.continue
    lift (zip_with_imm lhs rhs f)

  abbrev plain :
      (Immediate → Immediate → Option Immediate) → Immediate → Immediate → Option EvalValue
  plain op l r = into (op l r)

  -- The loop of `BrTable` over its entries, and what follows it.
  pub search_table : Immediate → Option ℕ → List (ℕ × ℕ) → M EvalValue
  search_table scrutinee default [] = elim default [
    | some dest ↦ (do set (Action.jump_to dest); pure EvalValue.undef)
    | none ↦ (do set Action.fall_through; pure EvalValue.undef)
  ]
  search_table scrutinee default ((value, block) ∷ table) =
      let rest = search_table scrutinee default table in
      do
        entry ← lookup value
        elim (as_imm entry) [
          | none ↦ rest
          | some e ↦ elim (Value.same scrutinee e) [
            | true ↦ (do set (Action.jump_to block); pure EvalValue.undef)
            | false ↦ rest
          ]
        ]

  -- The loop of `Phi` over its arguments.
  pub select_phi : ℕ → List (ℕ × ℕ) → M EvalValue
  select_phi prev [] = pure EvalValue.undef
  select_phi prev ((value, block) ∷ args) =
      let rest = select_phi prev args in if prev == block then lookup value else rest

  lookup_all : List ℕ → M (List EvalValue)
  lookup_all [] = pure []
  lookup_all (a ∷ args) = do v ← lookup a; vs ← lookup_all args; pure (v ∷ vs)

  -- The instructions of arith.rs.
  pub interpret_arith : ArithInst → M EvalValue
  unfolding action_first action_twice guarded sar_value with_imm zip_with_imm
  interpret_arith (ArithInst.neg arg) = do
    set Action.continue
    val ← lookup arg
    lift (with_imm val (λ value. into (Value.neg u value)))
  interpret_arith (ArithInst.add lhs rhs) = action_first lhs rhs (plain (Value.add u))
  interpret_arith (ArithInst.sub lhs rhs) = action_first lhs rhs (plain (Value.sub u))
  interpret_arith (ArithInst.mul lhs rhs) = action_twice lhs rhs (plain (Value.mul u))
  interpret_arith (ArithInst.sdiv lhs rhs) = action_first lhs rhs (guarded u (Value.sdiv u))
  interpret_arith (ArithInst.udiv lhs rhs) = action_first lhs rhs (guarded u (Value.udiv u))
  interpret_arith (ArithInst.umod lhs rhs) = action_first lhs rhs (guarded u (Value.urem u))
  interpret_arith (ArithInst.smod lhs rhs) = action_first lhs rhs (guarded u (Value.srem u))
  interpret_arith (ArithInst.shl bits value) =
      action_first bits value (λ b v. into (Value.shl u v b))
  interpret_arith (ArithInst.shr bits value) =
      action_first bits value (λ b v. into (Value.shr u v b))
  interpret_arith (ArithInst.sar bits value) = action_first bits value (plain (sar_value u))

  -- The instructions of logic.rs.
  pub interpret_logic : LogicInst → M EvalValue
  unfolding operands_first with_imm zip_with_imm
  interpret_logic (LogicInst.not arg) = do
    val ← lookup arg
    set Action.continue
    lift (with_imm val (λ value. into (Value.complement u value)))
  interpret_logic (LogicInst.and lhs rhs) = operands_first lhs rhs (plain (Value.bitand u))
  interpret_logic (LogicInst.or lhs rhs) = operands_first lhs rhs (plain (Value.bitor u))
  interpret_logic (LogicInst.xor lhs rhs) = operands_first lhs rhs (plain (Value.bitxor u))

  -- The instructions of cast.rs.
  pub interpret_cast : CastInst → M EvalValue
  unfolding with_imm
  interpret_cast (CastInst.sext from to) = do
    set Action.continue
    val ← lookup from
    lift (with_imm val (λ value. into (Value.sext u value to)))
  interpret_cast (CastInst.zext from to) = do
    set Action.continue
    val ← lookup from
    lift (with_imm val (λ value. into (Value.zext u value to)))
  interpret_cast (CastInst.trunc from to) = do
    val ← lookup from
    set Action.continue
    lift (with_imm val (λ value. into (Value.trunc u value to)))
  interpret_cast (CastInst.bitcast from to) = do set Action.continue; lookup from
  interpret_cast (CastInst.int_to_ptr from to) = do
    set Action.continue
    val ← lookup from
    lift (
        with_imm val (λ value. into (
          if ty_gt to st.pointer_repl
          then Value.trunc u value st.pointer_repl
          else Value.zext u value st.pointer_repl)))
  interpret_cast (CastInst.ptr_to_int from to) = do
    set Action.continue
    val ← lookup from
    lift (
        with_imm val (λ value.
          into
            (if ty_gt to st.pointer_repl then Value.zext u value to else Value.trunc u value to)))

  -- The instructions of cmp.rs.
  pub interpret_cmp : CmpInst → M EvalValue
  unfolding operands_first is_zero_value with_imm zip_with_imm
  interpret_cmp (CmpInst.lt lhs rhs) = operands_first lhs rhs (plain (Value.lt_imm u))
  interpret_cmp (CmpInst.gt lhs rhs) = operands_first lhs rhs (plain (Value.gt_imm u))
  interpret_cmp (CmpInst.slt lhs rhs) = operands_first lhs rhs (plain (Value.slt u))
  interpret_cmp (CmpInst.sgt lhs rhs) = operands_first lhs rhs (plain (Value.sgt u))
  interpret_cmp (CmpInst.le lhs rhs) = operands_first lhs rhs (plain (Value.le u))
  interpret_cmp (CmpInst.ge lhs rhs) = operands_first lhs rhs (plain (Value.ge u))
  interpret_cmp (CmpInst.sle lhs rhs) = operands_first lhs rhs (plain (Value.sle u))
  interpret_cmp (CmpInst.sge lhs rhs) = operands_first lhs rhs (plain (Value.sge u))
  interpret_cmp (CmpInst.eq lhs rhs) = operands_first lhs rhs (plain (Value.imm_eq))
  interpret_cmp (CmpInst.ne lhs rhs) = operands_first lhs rhs (plain (Value.imm_ne))
  interpret_cmp (CmpInst.is_zero lhs) = do
    val ← lookup lhs
    set Action.continue
    lift (with_imm val (is_zero_value u))

  -- The instructions of control_flow.rs.
  pub interpret_control : ControlInst → M EvalValue
  unfolding search_table select_phi lookup_all
  interpret_control (ControlInst.jump dest) = do set (Action.jump_to dest); pure EvalValue.undef
  interpret_control (ControlInst.br cond nz_dest z_dest) = do
    val ← lookup cond
    elim (as_imm val) [
      | none ↦ (do set Action.fall_through; pure EvalValue.undef)
      | some c ↦ (do
        zero ← lift (Value.is_zero_imm u c)
        set (Action.jump_to (if zero then z_dest else nz_dest))
        pure EvalValue.undef)
    ]
  interpret_control (ControlInst.br_table scrutinee default table) = do
    val ← lookup scrutinee
    elim (as_imm val) [
      | none ↦ (do set Action.fall_through; pure EvalValue.undef)
      | some s ↦ search_table s default table
    ]
  interpret_control (ControlInst.phi args) = do
    prev ← st.prev_block
    set Action.continue
    select_phi prev args
  interpret_control (ControlInst.call callee args) = do
    vals ← lookup_all args
    val ← st.call_func callee vals
    set Action.continue
    pure val
  interpret_control (ControlInst.return none) = do
    set (Action.return EvalValue.undef)
    pure EvalValue.undef
  interpret_control (ControlInst.return (some arg)) = do
    val ← lookup arg
    set (Action.return val)
    pure EvalValue.undef
  interpret_control ControlInst.unreachable = λ s. none

  -- The instructions of data.rs, those on memory.
  pub interpret_data : DataInst → M EvalValue
  interpret_data (DataInst.mload addr ty) = do set Action.continue; a ← lookup addr; st.load a ty
  interpret_data (DataInst.mstore addr value ty) = do
    set Action.continue
    a ← lookup addr
    v ← lookup value
    st.store a v ty
  interpret_data (DataInst.alloca ty) = st.alloca ty

  pub interpret : Inst → M EvalValue
  unfolding interpret_arith interpret_logic interpret_cast interpret_cmp interpret_control
      interpret_data
  interpret (Inst.arith i) = interpret_arith i
  interpret (Inst.logic i) = interpret_logic i
  interpret (Inst.cast i) = interpret_cast i
  interpret (Inst.cmp i) = interpret_cmp i
  interpret (Inst.control i) = interpret_control i
  interpret (Inst.memory i) = interpret_data i
