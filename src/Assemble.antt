-- ===== src/Assemble.antt =====
-- crates/codegen/src/machinst/assemble.rs: the offsets of the functions, blocks and instructions of an
-- object, and the bytes that are emitted. The sparse maps of vcode.rs are functions, with a list of
-- the instructions that have immediate bytes; an arena of labels is a list. An offset is a `u32` and
-- wraps round. The trait `LowerBackend` is the record `Backend`; what it appends to the buffer is a
-- list of bytes. `none` is a panic.
pub mod Placed
pub mod Writes
pub mod Resize
pub mod Blocks
pub mod Functions
pub mod Begins
pub mod Emitted
pub mod Offsets
pub mod Objects
pub mod Evm
use sonatina.Base.{
  ℕ, zero, suc, ◌+◌, ◌-◌, ◌*◌, ◌%◌, ◌^◌, ◌≡◌, Bool, true, false, not, ◌||◌, Option, none, some,
  List, [], ◌∷◌, ◌++◌, ◌==◌, if◌then◌else◌, length, get_elem?, ◌>>=◌, ◌>>◌, assert, ltb, ◌>>◌,
}

pub record Backend (O : Type 0) : Type 0 where
  pub size_of_op : ℕ
  pub update_opcode_with_immediate_bytes : O → List ℕ → Option (O × List ℕ)
  pub update_opcode_with_label : O → ℕ → Option (O × List ℕ)
  pub emit_opcode : O → List ℕ
  pub emit_immediate_bytes : List ℕ → List ℕ
  pub emit_label : ℕ → List ℕ

pub data Label : Type 0 where
  insn block function : ℕ → Label

-- `VCodeFixup`, with a symbol's fixup as a number.
pub data Fixup : Type 0 where
  label sym : ℕ → Fixup

pub record VCode (O : Type 0) : Type 0 where
  pub insts : ℕ → O
  pub imm_insts : List ℕ
  pub inst_imm_bytes : ℕ → Option (List ℕ)
  pub fixups : ℕ → Option Fixup
  pub labels : List Label
  pub blocks : ℕ → List ℕ
  -- `blocks.len()`: `get` finds the blocks below it.
  pub num_blocks : ℕ

pub record FuncLayout (O : Type 0) : Type 0 where
  pub offset : ℕ
  pub size : ℕ
  pub vcode : VCode O
  pub block_order : List ℕ
  pub block_offsets : ℕ → ℕ
  pub insn_offsets : ℕ → ℕ
  pub label_targets : ℕ → ℕ

pub record ObjectLayout (O : Type 0) : Type 0 where
  pub start : ℕ
  pub size : ℕ
  pub functions : List (ℕ × FuncLayout O)
  pub func_offsets : ℕ → ℕ

abbrev pub write : {A : Type 0} → (ℕ → A) → ℕ → A → ℕ → A
write f k v i = if i == k then v else f i

-- `offset += n` and `a - b` on `u32`.
abbrev pub add_u32 : ℕ → ℕ → ℕ
add_u32 a b = (a + b) % 2 ^ 32

abbrev pub sub_u32 : ℕ → ℕ → ℕ
sub_u32 a b = (a + 2 ^ 32 - b) % 2 ^ 32

-- `update`: whether the value changes.
abbrev pub changes : ℕ → ℕ → Bool
changes val to = not (val == to)

abbrev pub fixup_label : Option Fixup → Option ℕ
fixup_label (some (Fixup.label l)) = some l
fixup_label _ = none

module _ {O : Type 0} where
  -- The rough block offsets of `FuncLayout::new`, and the offset after the blocks.
  -- `vcode.blocks.get(*b).unwrap()` panics on a block without an entry.
  pub rough_blocks : VCode O → List ℕ → (ℕ → ℕ) → ℕ → Option ((ℕ → ℕ) × ℕ)
  rough_blocks v [] offsets offset = some (offsets, offset)
  rough_blocks v (b ∷ bs) offsets offset =
      assert (ltb b v.num_blocks)
      >> rough_blocks v bs (write offsets b offset) (add_u32 offset (length (v.blocks b) % 2 ^ 32))

  pub sum_imm_bytes : VCode O → List ℕ → ℕ
  sum_imm_bytes v [] = 0
  sum_imm_bytes v (i ∷ is) =
      add_u32 (elim (v.inst_imm_bytes i) [ none ↦ 0 | some bytes ↦ length bytes % 2 ^ 32 ])
        (sum_imm_bytes v is)

  pub new_func : VCode O → List ℕ → ℕ → Option (FuncLayout O)
  unfolding rough_blocks sum_imm_bytes
  new_func v order start = rough_blocks v order (λ _. 0) start >>= λ rough.
      let imm_bytes = sum_imm_bytes v v.imm_insts in
      let label_bytes = (2 * length v.labels) % 2 ^ 32 in
      some (record {
        offset = start;
        size = add_u32 (add_u32 (sub_u32 rough.1 start) imm_bytes) label_bytes;
        vcode = v;
        block_order = order;
        block_offsets = rough.0;
        insn_offsets = λ _. 0;
        label_targets = λ _. 0;
      })

  -- The address of a label.
  abbrev pub address_of : (ℕ → ℕ) → FuncLayout O → Label → ℕ
  address_of fn_offsets lay (Label.block b) = lay.block_offsets b
  address_of fn_offsets lay (Label.function f) = fn_offsets f
  address_of fn_offsets lay (Label.insn i) = lay.insn_offsets i

  module _ (backend : Backend O) where
    abbrev set_inst : VCode O → ℕ → O → VCode O
    set_inst v i op = record v { insts = write v.insts i op }

    -- The part of the loop for the fixup: the layout, the offset after it, and whether it changed.
    pub resize_label : (ℕ → ℕ) → ℕ → ℕ → FuncLayout O → ℕ → Option (FuncLayout O × ℕ × Bool)
    resize_label fn_offsets i l lay offset = do
      target ← get_elem? lay.vcode.labels l
      let address = address_of fn_offsets lay target
      r ← backend.update_opcode_with_label (lay.vcode.insts i) address
      some (
        record lay {
          label_targets = write lay.label_targets l address;
          vcode = set_inst lay.vcode i r.0;
        },
        add_u32 offset (length r.1 % 2 ^ 32),
        changes (lay.label_targets l) address,
      )

    pub resize_imm : ℕ → List ℕ → FuncLayout O → ℕ → Option (FuncLayout O × ℕ)
    resize_imm i bytes lay offset = do
      r ← backend.update_opcode_with_immediate_bytes (lay.vcode.insts i) bytes
      some (
        record lay {
          vcode = record (set_inst lay.vcode i r.0) {
            inst_imm_bytes = write lay.vcode.inst_imm_bytes i (some r.1);
          };
        },
        add_u32 offset (length r.1 % 2 ^ 32),
      )

    -- `if let Some(..) = self.vcode.fixups.get(*insn) && ..`
    pub resize_fixup : (ℕ → ℕ) → ℕ → Option ℕ → FuncLayout O → ℕ → Option (FuncLayout O × ℕ × Bool)
    unfolding resize_label
    resize_fixup fn_offsets i none lay offset = some (lay, offset, false)
    resize_fixup fn_offsets i (some l) lay offset = resize_label fn_offsets i l lay offset

    -- `if let Some((_, bytes)) = self.vcode.inst_imm_bytes.get_mut(*insn)`
    pub resize_bytes : ℕ → Option (List ℕ) → FuncLayout O → ℕ → Option (FuncLayout O × ℕ)
    unfolding resize_imm
    resize_bytes i none lay offset = some (lay, offset)
    resize_bytes i (some bytes) lay offset = resize_imm i bytes lay offset

    -- One round of the loop over the instructions of a block.
    pub resize_inst : (ℕ → ℕ) → ℕ → FuncLayout O → ℕ → Bool → Option (FuncLayout O × ℕ × Bool)
    unfolding resize_fixup resize_bytes
    resize_inst fn_offsets i lay offset changed =
        resize_fixup fn_offsets i (fixup_label (lay.vcode.fixups i))
          (record lay { insn_offsets = write lay.insn_offsets i offset })
          (add_u32 offset backend.size_of_op)
        >>= λ r. resize_bytes i (r.0.vcode.inst_imm_bytes i) r.0 r.1 >>= λ q.
            some (q.0, q.1, (changed || changes (lay.insn_offsets i) offset) || r.2)

    pub resize_insts : (ℕ → ℕ) → List ℕ → FuncLayout O → ℕ → Bool → Option (FuncLayout O × ℕ × Bool)
    unfolding resize_inst
    resize_insts fn_offsets [] lay offset changed = some (lay, offset, changed)
    resize_insts fn_offsets (i ∷ is) lay offset changed =
        resize_inst fn_offsets i lay offset changed >>= λ r. resize_insts fn_offsets is r.0 r.1 r.2

    pub resize_blocks :
        (ℕ → ℕ) → List ℕ → FuncLayout O → ℕ → Bool → Option (FuncLayout O × ℕ × Bool)
    unfolding resize_insts
    resize_blocks fn_offsets [] lay offset changed = some (lay, offset, changed)
    resize_blocks fn_offsets (b ∷ bs) lay offset changed =
        resize_insts fn_offsets (lay.vcode.blocks b)
          (record lay { block_offsets = write lay.block_offsets b offset }) offset
          (changed || changes (lay.block_offsets b) offset)
        >>= λ r. resize_blocks fn_offsets bs r.0 r.1 r.2

    pub resize_func : (ℕ → ℕ) → FuncLayout O → ℕ → Option (FuncLayout O × Bool)
    unfolding resize_blocks
    resize_func fn_offsets lay offset = do
      r ←
          resize_blocks fn_offsets lay.block_order (record lay { offset = offset }) offset
            (changes lay.offset offset)
      let size = sub_u32 r.1 r.0.offset
      some (record r.0 { size = size }, r.2 || changes r.0.size size)

    abbrev pub emit_target : Option ℕ → (ℕ → ℕ) → List ℕ
    emit_target none targets = []
    emit_target (some l) targets = backend.emit_label (targets l)

    abbrev pub emit_bytes : Option (List ℕ) → List ℕ
    emit_bytes none = []
    emit_bytes (some bytes) = backend.emit_immediate_bytes bytes

    pub emit_inst : FuncLayout O → ℕ → List ℕ
    emit_inst lay i =
        backend.emit_opcode (lay.vcode.insts i)
        ++ (emit_target (fixup_label (lay.vcode.fixups i)) lay.label_targets
            ++ emit_bytes (lay.vcode.inst_imm_bytes i))

    pub emit_insts : FuncLayout O → List ℕ → List ℕ
    unfolding emit_inst
    emit_insts lay [] = []
    emit_insts lay (i ∷ is) = emit_inst lay i ++ emit_insts lay is

    pub emit_blocks : FuncLayout O → List ℕ → List ℕ
    unfolding emit_insts
    emit_blocks lay [] = []
    emit_blocks lay (b ∷ bs) = emit_insts lay (lay.vcode.blocks b) ++ emit_blocks lay bs

    pub emit_func : FuncLayout O → List ℕ
    unfolding emit_blocks
    emit_func lay = emit_blocks lay lay.block_order

-- `ObjectLayout::new`: the functions, each after the other, and the offsets.
module _ {O : Type 0} where
  pub new_funcs :
      List (ℕ × VCode O × List ℕ) → ℕ → (ℕ → ℕ) → Option (List (ℕ × FuncLayout O) × (ℕ → ℕ) × ℕ)
  unfolding new_func
  new_funcs [] offset offsets = some ([], offsets, offset)
  new_funcs (f ∷ fs) offset offsets = new_func f.1 f.2 offset >>= λ lay.
      new_funcs fs (add_u32 offset lay.size) (write offsets f.0 offset) >>= λ rest.
      some ((f.0, lay) ∷ rest.0, rest.1, rest.2)

  pub new_object : List (ℕ × VCode O × List ℕ) → ℕ → Option (ObjectLayout O)
  unfolding new_funcs
  new_object fs start = new_funcs fs start (λ _. 0) >>= λ r.
      some (record { start = start; size = sub_u32 r.2 start; functions = r.0; func_offsets = r.1 })

  module _ (backend : Backend O) where
    -- The functions, the offsets and whether one has changed.
    pub resize_funcs :
        List (ℕ × FuncLayout O) → ℕ → (ℕ → ℕ) → Option (List (ℕ × FuncLayout O) × (ℕ → ℕ) × Bool)
    unfolding resize_func
    resize_funcs [] offset offsets = some ([], offsets, false)
    resize_funcs (f ∷ fs) offset offsets = resize_func backend offsets f.1 offset >>= λ r.
        resize_funcs fs (add_u32 offset r.0.size) (write offsets f.0 offset) >>= λ q.
        some ((f.0, r.0) ∷ q.0, q.1, r.1 || q.2)

    pub resize : ObjectLayout O → ℕ → Option (ObjectLayout O × Bool)
    unfolding resize_funcs
    resize object offset = do
      r ← resize_funcs object.functions offset object.func_offsets
      some (record object { functions = r.0; func_offsets = r.1 }, r.2)

    pub emit_funcs : List (ℕ × FuncLayout O) → List ℕ
    unfolding emit_func
    emit_funcs [] = []
    emit_funcs (f ∷ fs) = emit_func backend f.1 ++ emit_funcs fs

    pub emit : ObjectLayout O → List ℕ
    unfolding emit_funcs
    emit object = emit_funcs object.functions

  pub func_offset : ObjectLayout O → ℕ → ℕ
  func_offset object f = object.func_offsets f

  pub func_size_in : List (ℕ × FuncLayout O) → ℕ → Option ℕ
  func_size_in [] f = none
  func_size_in (g ∷ gs) f = if g.0 == f then some g.1.size else func_size_in gs f

  pub func_size : ObjectLayout O → ℕ → Option ℕ
  unfolding func_size_in
  func_size object f = func_size_in object.functions f
