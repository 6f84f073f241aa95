-- ===== src/Assemble/Placed.antt =====
-- assemble.rs: what a backend has to keep to, where an emitted instruction stands, and which parts of
-- a layout a round without a change leaves as they are.
use sonatina.Base.{
  ℕ, ◌+◌, ◌%◌, ◌^◌, ◌<◌, ◌≡◌, refl, sym, ◌∙◌, Option, none, some, List, [], ◌∷◌, ◌++◌, length,
  get_elem?, length-append, arith,
}
use sonatina.Assemble.{
  Backend, FuncLayout, fixup_label, Label, add_u32, address_of, emit_inst, emit_insts, emit_target,
  emit_bytes,
}

-- The sizes that the trait's methods promise each other.
pub record IsBackend {O : Type 0} (backend : Backend O) : Type 0 where
  pub opcode_law : (op : O) → length (backend.emit_opcode op) ≡ backend.size_of_op
  pub label_law :
      (op : O) (address : ℕ) (r : O × List ℕ)
      → backend.update_opcode_with_label op address ≡ some r
      → length r.1 ≡ length (backend.emit_label address)
  pub bytes_law :
      (op : O) (bytes : List ℕ) (r : O × List ℕ)
      → backend.update_opcode_with_immediate_bytes op bytes ≡ some r
      → length r.1 ≡ length bytes
  pub emit_law : (bytes : List ℕ) → length (backend.emit_immediate_bytes bytes) ≡ length bytes

pub add_u32_add : (o m n : ℕ) → add_u32 (add_u32 o m) n ≡ add_u32 o (m + n)
add_u32_add o m n = omega arith

pub add_u32_mod : (o n : ℕ) → add_u32 o (n % 2 ^ 32) ≡ add_u32 o n
add_u32_mod o n = omega arith

pub add_u32_zero : (o : ℕ) → o < 2 ^ 32 → add_u32 o 0 ≡ o
add_u32_zero o h = omega arith

pub add_u32_lt : (o n : ℕ) → add_u32 o n < 2 ^ 32
add_u32_lt o n = omega arith

abbrev pub imm_size : Option (List ℕ) → ℕ
imm_size none = 0
imm_size (some bytes) = length bytes

module _ {O : Type 0} where
  -- Two layouts differ in opcodes and the values of immediates at most.
  pub record Same (s t : FuncLayout O) : Type 0 where
    pub offset : s.offset ≡ t.offset
    pub block_offsets : s.block_offsets ≡ t.block_offsets
    pub insn_offsets : s.insn_offsets ≡ t.insn_offsets
    pub label_targets : s.label_targets ≡ t.label_targets
    pub block_order : s.block_order ≡ t.block_order
    pub fixups : s.vcode.fixups ≡ t.vcode.fixups
    pub labels : s.vcode.labels ≡ t.vcode.labels
    pub blocks : s.vcode.blocks ≡ t.vcode.blocks
    pub imm_sizes :
        (i : ℕ) → imm_size (s.vcode.inst_imm_bytes i) ≡ imm_size (t.vcode.inst_imm_bytes i)

  pub Same-refl : (s : FuncLayout O) → Same s s
  Same-refl s = record {
    offset = refl;
    block_offsets = refl;
    insn_offsets = refl;
    label_targets = refl;
    block_order = refl;
    fixups = refl;
    labels = refl;
    blocks = refl;
    imm_sizes = λ i. refl;
  }

  pub Same-trans : (s t u : FuncLayout O) → Same s t → Same t u → Same s u
  Same-trans s t u p q = record {
    offset = p.offset ∙ q.offset;
    block_offsets = p.block_offsets ∙ q.block_offsets;
    insn_offsets = p.insn_offsets ∙ q.insn_offsets;
    label_targets = p.label_targets ∙ q.label_targets;
    block_order = p.block_order ∙ q.block_order;
    fixups = p.fixups ∙ q.fixups;
    labels = p.labels ∙ q.labels;
    blocks = p.blocks ∙ q.blocks;
    imm_sizes = λ i. p.imm_sizes i ∙ q.imm_sizes i;
  }

  -- The target that is recorded for a label is the address of what it names.
  pub data Aimed (fn_offsets : ℕ → ℕ) (lay : FuncLayout O) : Option ℕ → Type 0 where
    no_label : Aimed fn_offsets lay none
    at_label :
        (l : ℕ) (target : Label)
        → get_elem? lay.vcode.labels l ≡ some target
        → lay.label_targets l ≡ address_of fn_offsets lay target
        → Aimed fn_offsets lay (some l)

  pub Aimed-Same :
      (fn_offsets : ℕ → ℕ) (s t : FuncLayout O) (l : Option ℕ)
      → Same s t
      → Aimed fn_offsets s l
      → Aimed fn_offsets t l
  Aimed-Same fn s t _ p no_label = Aimed.no_label
  Aimed-Same fn s t _ p (at_label l (Label.insn i) e a) =
      Aimed.at_label l (Label.insn i) (rw (sym p.labels) e)
        (rw (sym p.label_targets, sym p.insn_offsets) a)
  Aimed-Same fn s t _ p (at_label l (Label.block b) e a) =
      Aimed.at_label l (Label.block b) (rw (sym p.labels) e)
        (rw (sym p.label_targets, sym p.block_offsets) a)
  Aimed-Same fn s t _ p (at_label l (Label.function f) e a) =
      Aimed.at_label l (Label.function f) (rw (sym p.labels) e) (rw (sym p.label_targets) a)

  module _ (backend : Backend O) (laws : IsBackend backend) where
    pub length-emit_bytes :
        (bytes : Option (List ℕ)) → length (emit_bytes backend bytes) ≡ imm_size bytes
    length-emit_bytes none = refl
    length-emit_bytes (some bytes) = laws.emit_law bytes

    -- The bytes of an instruction.
    pub length-emit_inst :
        (s : FuncLayout O) (i : ℕ)
        → length (emit_inst backend s i)
          ≡ backend.size_of_op
            + (length (emit_target backend (fixup_label (s.vcode.fixups i)) s.label_targets)
                + imm_size (s.vcode.inst_imm_bytes i))
    unfolding emit_inst
    length-emit_inst s i = rw (
      length-append {0} (backend.emit_opcode (s.vcode.insts i)) (
          emit_target backend (fixup_label (s.vcode.fixups i)) s.label_targets
          ++ emit_bytes backend (s.vcode.inst_imm_bytes i)),
      length-append {0} (emit_target backend (fixup_label (s.vcode.fixups i)) s.label_targets)
          (emit_bytes backend (s.vcode.inst_imm_bytes i)),
      laws.opcode_law (s.vcode.insts i),
      length-emit_bytes (s.vcode.inst_imm_bytes i),
    )

    pub length-emit_inst-Same :
        (s t : FuncLayout O) (i : ℕ)
        → Same s t
        → length (emit_inst backend s i) ≡ length (emit_inst backend t i)
    length-emit_inst-Same s t i p =
        rw (length-emit_inst s i, length-emit_inst t i, p.fixups, p.label_targets, p.imm_sizes i)

    pub length-emit_insts-Same :
        (s t : FuncLayout O) (is : List ℕ)
        → Same s t
        → length (emit_insts backend s is) ≡ length (emit_insts backend t is)
    unfolding emit_insts
    length-emit_insts-Same s t [] p = refl
    length-emit_insts-Same s t (i ∷ is) p = rw (
      length-append {0} (emit_inst backend s i) (emit_insts backend s is),
      length-append {0} (emit_inst backend t i) (emit_insts backend t is),
      length-emit_inst-Same s t i p,
      length-emit_insts-Same s t is p,
    )

  -- Each instruction's recorded offset is where it is emitted, and its label is resolved.
  unfoldable pub InstsAt : Backend O → (ℕ → ℕ) → FuncLayout O → List ℕ → ℕ → Type 0
  InstsAt backend fn_offsets t [] o = Unit {0}
  InstsAt backend fn_offsets t (i ∷ is) o =
      ((t.insn_offsets i ≡ o) × Aimed fn_offsets t (fixup_label (t.vcode.fixups i)))
      × InstsAt backend fn_offsets t is (add_u32 o (length (emit_inst backend t i)))

  -- The same of each block and its instructions.
  unfoldable pub BlocksAt : Backend O → (ℕ → ℕ) → FuncLayout O → List ℕ → ℕ → Type 0
  unfolding InstsAt
  BlocksAt backend fn_offsets t [] o = Unit {0}
  BlocksAt backend fn_offsets t (b ∷ bs) o =
      ((t.block_offsets b ≡ o) × InstsAt backend fn_offsets t (t.vcode.blocks b) o)
      × BlocksAt backend fn_offsets t bs
          (add_u32 o (length (emit_insts backend t (t.vcode.blocks b))))
