-- ===== src/Ir/Interpret/Insts/Arith.antt =====
-- crates/ir/src/interpret/arith.rs: the arithmetic instructions on immediates.
use sonatina.Base.{
  ℕ, ◌+◌, ◌-◌, ◌*◌, ◌/◌, ◌%◌, ◌≡◌, ◌≤◌, refl, ap, ap₂, sym, ◌∙◌, true, Option, some,
}
use sonatina.Ir.Interpret.{EvalValue, Action, StateOps, zip_with_imm}
use sonatina.Ir.Interpret.Insts.{ArithInst, interpret_arith, guarded, sar_value}
use sonatina.Ir.Interpret.Insts.State.{IsState, action_first_lem, action_twice_lem}
use sonatina.Ir.Types.{Ty}
use sonatina.Ir.U256.{U256Ops, IsU256}
use sonatina.Ir.Value
use sonatina.Ir.Value.{Immediate, ty}
use sonatina.Ir.Value.Apply.{Yields, is_zero_imm_lem}
use sonatina.Ir.Value.Bits.{bits, modulus, IsValid}
use sonatina.Ir.Value.Divide.{IsNarrow, shr_one, is_positive_imm_lem}
use sonatina.Ir.Value.Wrap.{add_wraps, sub_wraps, mul_wraps, neg_wraps}

module _ {S : Type 0} (u : U256Ops) (laws : IsU256 u) (st : StateOps S) (read : S → ℕ → EvalValue)
    (prev : S → ℕ) (keeps : IsState st read prev) (l r : ℕ) (a b : Immediate) (s : S)
    (left : read s l ≡ EvalValue.imm a) (right : read s r ≡ EvalValue.imm b) (ha : IsValid a)
    (hb : IsValid b) (same_ty : ty b ≡ ty a) where
  -- The state after the action is set.
  abbrev going : S
  going = st.set_action Action.continue s

  -- The instruction yields a valid immediate of the left operand's type with the given pattern, and
  -- ends in the given state.
  abbrev Computes : ArithInst → S → ℕ → Type 0
  Computes i t n =
      (x : Immediate) × (interpret_arith u st i s ≡ some (EvalValue.imm x, t))
      × IsValid x
      × (ty x ≡ ty a)
      × (bits x ≡ n)

  computed :
      (i : ArithInst) (o : Option Immediate) (t : S) (n : ℕ)
      → ((x : Immediate) → o ≡ some x → interpret_arith u st i s ≡ some (EvalValue.imm x, t))
      → Yields o (ty a) n
      → Computes i t n
  computed i o t n runs (x, e, v, y, b) = (x, runs x e, v, y, b)

  -- In a state that keeps its values, on two operands that are valid immediates of one type, `Add`,
  -- `Sub` and `Mul` yield the sum, the difference and the product of the patterns modulo two to the
  -- width, and set the action to `Continue`, `Mul` twice.
  pub add-sub-mul_wrap :
      Computes (ArithInst.add l r) going ((bits a + bits b) % modulus (ty a))
      × Computes (ArithInst.sub l r) going ((bits a + modulus (ty a) - bits b) % modulus (ty a))
      × Computes
          (ArithInst.mul l r)
          (st.set_action Action.continue going)
          ((bits a * bits b) % modulus (ty a))
  unfolding interpret_arith
  add-sub-mul_wrap = (
    computed (ArithInst.add l r) (Value.add u a b) going _
        (λ x e. action_first_lem u st read prev keeps l r s _ ∙ rw (left, right, e, zip_with_imm))
        (add_wraps u laws a b ha hb same_ty),
    computed (ArithInst.sub l r) (Value.sub u a b) going _
        (λ x e. action_first_lem u st read prev keeps l r s _ ∙ rw (left, right, e, zip_with_imm))
        (sub_wraps u laws a b ha hb same_ty),
    computed (ArithInst.mul l r) (Value.mul u a b) (st.set_action Action.continue going) _
        (λ x e. action_twice_lem u st read prev keeps l r s _ ∙ rw (left, right, e, zip_with_imm))
        (mul_wraps u laws a b ha hb same_ty),
  )

  guarded_zero :
      (op : Immediate → Immediate → Option Immediate)
      → bits b ≡ 0
      → guarded u op a b ≡ some EvalValue.undef
  unfolding guarded
  guarded_zero op z =
      let zero : Value.is_zero_imm u b ≡ some true =
        is_zero_imm_lem u laws b hb ∙ ap some (rw z refl) in
      rw (zero, guarded)

  -- In a state that keeps its values, on two operands that are valid immediates of one type, the four
  -- divisions by zero yield an undefined value, and go on to the next instruction.
  pub division_by_zero :
      bits b ≡ 0
      → (interpret_arith u st (ArithInst.sdiv l r) s
          ≡ some (EvalValue.undef, st.set_action Action.continue s))
        × (interpret_arith u st (ArithInst.udiv l r) s
            ≡ some (EvalValue.undef, st.set_action Action.continue s))
        × (interpret_arith u st (ArithInst.umod l r) s
            ≡ some (EvalValue.undef, st.set_action Action.continue s))
        × (interpret_arith u st (ArithInst.smod l r) s
            ≡ some (EvalValue.undef, st.set_action Action.continue s))
  unfolding interpret_arith
  division_by_zero z = (
    action_first_lem u st read prev keeps l r s _
        ∙ rw (left, right, zip_with_imm, guarded_zero (Value.sdiv u) z),
    action_first_lem u st read prev keeps l r s _
        ∙ rw (left, right, zip_with_imm, guarded_zero (Value.udiv u) z),
    action_first_lem u st read prev keeps l r s _
        ∙ rw (left, right, zip_with_imm, guarded_zero (Value.urem u) z),
    action_first_lem u st read prev keeps l r s _
        ∙ rw (left, right, zip_with_imm, guarded_zero (Value.srem u) z),
  )

  -- In a state that keeps its values, `Sar` by one of a valid immediate of 8 to 128 bits whose sign bit
  -- is set, the two operands being of one type, yields the negation of the pattern halved with the
  -- sign bit set, modulo two to the width.
  pub sar_one :
      IsNarrow (ty b)
      → modulus (ty b) / 2 ≤ bits b
      → bits a ≡ 1
      → Computes
          (ArithInst.sar l r)
          going
          ((modulus (ty b) - (modulus (ty b) / 2 + bits b / 2)) % modulus (ty b))
  unfolding interpret_arith
  sar_one narrow set one =
      let (x, ex, vx, tx, bx) = shr_one u laws b a hb ha (sym same_ty) narrow set one in
      let (y, ey, vy, ty', by) = neg_wraps u laws x vx in
      let positive = is_positive_imm_lem u laws b hb set in
      let value : sar_value u a b ≡ some y = rw (ex, sar_value) (rw (positive, sar_value) ey) in
      (
        y,
        action_first_lem u st read prev keeps l r s _ ∙ rw (left, right, zip_with_imm, value),
        vy,
        ty' ∙ tx ∙ same_ty,
        by ∙ ap₂ (λ (t : Ty) (n : ℕ). (modulus t - n) % modulus t) (tx ∙ refl) bx,
      )
