-- ===== src/Assemble/Evm/Examples.antt =====
-- assemble.rs: runs of the assembler for the EVM.
use sonatina.Base.{
  ℕ, ◌≡◌, refl, Bool, false, Option, none, some, List, [], ◌∷◌, ◌==◌, ◌>>=◌, if◌then◌else◌, arith,
  unwrap_or,
}
use sonatina.Assemble.{
  Label, Fixup, VCode, FuncLayout, ObjectLayout, new_object, resize, emit_blocks, emit_func,
  emit_funcs, emit, func_offset, func_size,
}
use sonatina.Assemble.Placed.{Aimed}
use sonatina.Assemble.Offsets.{Reached, func_offset_lem, block_offset_lem, insn_offset_lem}
use sonatina.Assemble.Evm.{
  evm_backend, update_opcode_with_label, update_opcode_with_immediate_bytes, emit_opcode,
  emit_immediate_bytes, emit_label, evm_backend-IsBackend,
}

-- Block 0: PUSH a label of block 1, JUMP. Block 1: JUMPDEST, PUSH 300, STOP.
abbrev code : VCode ℕ
code = record {
  insts = λ i. if i == 1 then 86 else if i == 2 then 91 else if i == 4 then 0 else 96;
  imm_insts = 3 ∷ [];
  inst_imm_bytes = λ i. if i == 3 then some (1 ∷ 44 ∷ []) else none;
  fixups = λ i. if i == 0 then some (Fixup.label 0) else none;
  labels = Label.block 1 ∷ [];
  blocks = λ b. if b == 0 then 0 ∷ 1 ∷ [] else if b == 1 then 2 ∷ 3 ∷ 4 ∷ [] else [];
  num_blocks = 2;
}

-- Function 7: PUSH a label of function 8, POP.
abbrev caller : VCode ℕ
caller = record {
  insts = λ i. if i == 0 then 96 else 80;
  imm_insts = [];
  inst_imm_bytes = λ i. none;
  fixups = λ i. if i == 0 then some (Fixup.label 0) else none;
  labels = Label.function 8 ∷ [];
  blocks = λ b. if b == 0 then 0 ∷ 1 ∷ [] else [];
  num_blocks = 1;
}

abbrev two_funcs : List (ℕ × VCode ℕ × List ℕ)
two_funcs = (7, caller, 0 ∷ []) ∷ (8, code, 0 ∷ 1 ∷ []) ∷ []

-- The layout after two calls, and the last call's result.
abbrev rounds : ℕ → Option (ObjectLayout ℕ × Bool)
unfolding resize
rounds start = new_object two_funcs start >>= λ o. resize evm_backend o start >>= λ r.
    resize evm_backend r.0 start >>= λ r. resize evm_backend r.0 start

abbrev view : ObjectLayout ℕ × Bool → List ℕ × ℕ × ℕ × Option ℕ × Bool
unfolding emit func_offset func_size
view r = (emit evm_backend r.0, func_offset r.0 7, func_offset r.0 8, func_size r.0 8, r.1)

-- From 254, function 8 begins at 258 = 0x0102 and block 1 at 262 = 0x0106: a label takes two bytes.
rounds_test :
    (rounds 254 >>= λ r. some (view r))
    ≡ some
        ((97 ∷ 1 ∷ 2 ∷ 80 ∷ 97 ∷ 1 ∷ 6 ∷ 86 ∷ 91 ∷ 97 ∷ 1 ∷ 44 ∷ 0 ∷ []), 254, 258, some 9, false)
unfolding rounds new_object update_opcode_with_label update_opcode_with_immediate_bytes emit_opcode
    emit_immediate_bytes emit_label view
rounds_test = refl

short_labels_test :
    (rounds 0 >>= λ r. some (view r))
    ≡ some ((96 ∷ 3 ∷ 80 ∷ 96 ∷ 6 ∷ 86 ∷ 91 ∷ 97 ∷ 1 ∷ 44 ∷ 0 ∷ []), 0, 3, some 8, false)
unfolding rounds new_object update_opcode_with_label update_opcode_with_immediate_bytes emit_opcode
    emit_immediate_bytes emit_label view
short_labels_test = refl

abbrev no_object : ObjectLayout ℕ
no_object = record { start = 0; size = 0; functions = []; func_offsets = λ _. 0 }

abbrev got : Option (ObjectLayout ℕ × Bool) → ObjectLayout ℕ × Bool
got none = (no_object, false)
got (some r) = r

-- A block order that names a block without an entry.
missing_block_test : new_object ((7, caller, 0 ∷ 1 ∷ []) ∷ []) 0 ≡ none
unfolding new_object
missing_block_test = refl

abbrev zeroth : ObjectLayout ℕ
unfolding new_object
zeroth = unwrap_or (new_object two_funcs 0) no_object

abbrev first : ObjectLayout ℕ × Bool
unfolding resize zeroth
first = got (resize evm_backend zeroth 0)

abbrev second : ObjectLayout ℕ × Bool
unfolding first
second = got (resize evm_backend first.0 0)

abbrev third : ObjectLayout ℕ × Bool
unfolding second
third = got (resize evm_backend second.0 0)

second-Reached : Reached evm_backend two_funcs 0 second.0
unfolding resize new_object update_opcode_with_label update_opcode_with_immediate_bytes emit_opcode
    emit_immediate_bytes emit_label emit_funcs func_offset func_size zeroth first second third
second-Reached =
    Reached.resized first.0 second (Reached.resized zeroth first (Reached.created zeroth refl) refl)
      refl

abbrev no_func : ℕ × FuncLayout ℕ
no_func = (
  0,
  record {
    offset = 0;
    size = 0;
    vcode = code;
    block_order = [];
    block_offsets = λ _. 0;
    insn_offsets = λ _. 0;
    label_targets = λ _. 0;
  },
)

abbrev at_7 : List (ℕ × FuncLayout ℕ) → ℕ × FuncLayout ℕ
at_7 [] = no_func
at_7 (f ∷ fs) = f

abbrev at_8 : List (ℕ × FuncLayout ℕ) → ℕ × FuncLayout ℕ
at_8 [] = no_func
at_8 (f ∷ fs) = at_7 fs

abbrev layout_8 : ℕ × FuncLayout ℕ
unfolding third
layout_8 = at_8 third.0.functions

func_offset_example : (func_offset third.0 8 ≡ 3) × (func_size third.0 8 ≡ some 8)
unfolding resize new_object update_opcode_with_label update_opcode_with_immediate_bytes emit_opcode
    emit_immediate_bytes emit_label emit_funcs func_offset func_size zeroth first second third
    emit_func layout_8
func_offset_example =
    func_offset_lem evm_backend two_funcs 0 (refl, (refl, tt)) evm_backend-IsBackend (omega arith)
      second.0 third.0 second-Reached refl (at_7 third.0.functions ∷ []) layout_8 [] refl

block_offset_example : layout_8.1.block_offsets 1 ≡ 6
unfolding resize new_object update_opcode_with_label update_opcode_with_immediate_bytes emit_opcode
    emit_immediate_bytes emit_label emit_funcs func_offset func_size zeroth first second third
    emit_blocks layout_8
block_offset_example =
    block_offset_lem evm_backend two_funcs 0 (refl, (refl, tt)) evm_backend-IsBackend (omega arith)
      second.0 third.0 second-Reached refl (at_7 third.0.functions ∷ []) layout_8 [] refl (0 ∷ []) 1
      [] refl

insn_offset_example :
    (layout_8.1.insn_offsets 0 ≡ 3) × Aimed third.0.func_offsets layout_8.1 (some 0)
unfolding resize new_object update_opcode_with_label update_opcode_with_immediate_bytes emit_opcode
    emit_immediate_bytes emit_label emit_funcs func_offset func_size zeroth first second third
    emit_blocks layout_8
insn_offset_example =
    insn_offset_lem evm_backend two_funcs 0 (refl, (refl, tt)) evm_backend-IsBackend (omega arith)
      second.0 third.0 second-Reached refl (at_7 third.0.functions ∷ []) layout_8 [] refl [] 0
      (1 ∷ []) refl [] 0 (1 ∷ []) refl
