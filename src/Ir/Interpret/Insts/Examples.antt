-- ===== src/Ir/Interpret/Insts/Examples.antt =====
-- Small runs of the instructions of crates/ir/src/interpret, on a state that keeps its values in a
-- list.
use sonatina.Base.{ℕ, ◌≡◌, refl, true, Option, none, some, List, [], ◌∷◌, get_elem?, arith}
use sonatina.Ir.Interpret.{EvalValue, Action, StateOps, is_undef}
use sonatina.Ir.Interpret.Insts.{
  Inst, interpret, ArithInst, interpret_arith, ControlInst, interpret_control,
}
use sonatina.Ir.Interpret.Insts.Arith.{add-sub-mul_wrap, division_by_zero, sar_one}
use sonatina.Ir.Interpret.Insts.State.{IsState}
use sonatina.Ir.Types.{Ty}
use sonatina.Ir.U256.Native.{native, native-IsU256}
use sonatina.Ir.Value.{Immediate, ty}
use sonatina.Ir.Value.Bits.{bits, IsValid}

record Machine : Type 0 where
  values : List EvalValue
  action : Action
  block : ℕ

abbrev value_at : Option EvalValue → EvalValue
value_at none = EvalValue.undef
value_at (some v) = v

abbrev read : Machine → ℕ → EvalValue
read m v = value_at (get_elem? m.values v)

abbrev prev : Machine → ℕ
prev m = m.block

abbrev acting : Action → Machine → Machine
acting a m = record { values = m.values; action = a; block = m.block }

abbrev machine : StateOps Machine
machine = record {
  lookup_val = λ v m. some (read m v, m);
  call_func = λ f args m. none;
  set_action = acting;
  prev_block = λ m. some (m.block, m);
  load = λ addr ty m. none;
  store = λ addr value ty m. none;
  alloca = λ ty m. none;
  pointer_repl = Ty.i256;
}

machine-IsState : IsState machine read prev
machine-IsState = record {
  lookup_law = λ v m. refl;
  prev_law = λ m. refl;
  read_law = λ a m v. refl;
}

abbrev byte : ℕ → Immediate
byte = Immediate.i8

abbrev start : Machine
start = record {
  values =
      EvalValue.imm (byte 200)
      ∷ EvalValue.imm (byte 100)
      ∷ EvalValue.imm (byte 0)
      ∷ EvalValue.imm (byte 1)
      ∷ [];
  action = Action.continue;
  block = 5;
}

is_undef_test : is_undef EvalValue.undef ≡ true
unfolding is_undef
is_undef_test = refl

add-sub-mul_wrap_example :
    ((x : Immediate) × (interpret_arith native machine (ArithInst.add 0 1) start
        ≡ some (EvalValue.imm x, start))
      × IsValid x
      × (ty x ≡ Ty.i8)
      × (bits x ≡ 44))
    × ((x : Immediate) × (interpret_arith native machine (ArithInst.sub 0 1) start
          ≡ some (EvalValue.imm x, start))
        × IsValid x
        × (ty x ≡ Ty.i8)
        × (bits x ≡ 100))
    × ((x : Immediate) × (interpret_arith native machine (ArithInst.mul 0 1) start
          ≡ some (EvalValue.imm x, start))
        × IsValid x
        × (ty x ≡ Ty.i8)
        × (bits x ≡ 32))
unfolding ty
add-sub-mul_wrap_example =
    add-sub-mul_wrap native native-IsU256 machine read prev machine-IsState 0 1 (byte 200)
      (byte 100) start refl refl (omega arith) (omega arith) refl

division_by_zero_example :
    (interpret_arith native machine (ArithInst.sdiv 0 2) start ≡ some (EvalValue.undef, start))
    × (interpret_arith native machine (ArithInst.udiv 0 2) start ≡ some (EvalValue.undef, start))
    × (interpret_arith native machine (ArithInst.umod 0 2) start ≡ some (EvalValue.undef, start))
    × (interpret_arith native machine (ArithInst.smod 0 2) start ≡ some (EvalValue.undef, start))
unfolding ty
division_by_zero_example =
    division_by_zero native native-IsU256 machine read prev machine-IsState 0 2 (byte 200) (byte 0)
      start refl refl (omega arith) (omega arith) refl refl

sar_one_example :
    (x : Immediate) × (interpret_arith native machine (ArithInst.sar 3 0) start
      ≡ some (EvalValue.imm x, start))
    × IsValid x
    × (ty x ≡ Ty.i8)
    × (bits x ≡ 28)
unfolding ty
sar_one_example =
    sar_one native native-IsU256 machine read prev machine-IsState 3 0 (byte 1) (byte 200) start
      refl refl (omega arith) (omega arith) refl tt (omega arith) refl

interpret_test :
    interpret native machine (Inst.control (ControlInst.jump 4)) start
    ≡ some (EvalValue.undef, acting (Action.jump_to 4) start)
unfolding interpret interpret_control
interpret_test = refl
