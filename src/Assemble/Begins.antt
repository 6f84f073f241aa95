-- ===== src/Assemble/Begins.antt =====
-- assemble.rs: `FuncLayout::resize` keeps the offset that it sets first.
use sonatina.Base.{
  ℕ, ◌≡◌, sym, ap, ◌∙◌, Bool, ◌||◌, Option, none, some, List, [], ◌∷◌, get_elem?, >>=-eq-some,
}
use mathlib.Core.Option.{some-injective}
use sonatina.Assemble.{
  Backend, FuncLayout, fixup_label, add_u32, write, changes, address_of, resize_label, resize_imm,
  resize_fixup, resize_bytes, resize_inst, resize_insts, resize_blocks, resize_func,
}

module _ {O : Type 0} (backend : Backend O) (fn_offsets : ℕ → ℕ) where
  resize_fixup-offset :
      (i : ℕ) (l : Option ℕ) (s : FuncLayout O) (o : ℕ) (r : FuncLayout O × ℕ × Bool)
      → resize_fixup backend fn_offsets i l s o ≡ some r
      → r.0.offset ≡ s.offset
  unfolding resize_fixup resize_label
  resize_fixup-offset i none s o r h = ap (λ q. q.0.offset) (sym (some-injective _ _ h))
  resize_fixup-offset i (some l) s o r h =
      let (target, _, h1) = >>=-eq-some (get_elem? s.vcode.labels l) _ h in
      let (u, _, h2) =
        >>=-eq-some
          (backend.update_opcode_with_label (s.vcode.insts i) (address_of fn_offsets s target)) _
          h1 in
      ap (λ q. q.0.offset) (sym (some-injective _ _ h2))

  resize_bytes-offset :
      (i : ℕ) (b : Option (List ℕ)) (s : FuncLayout O) (o : ℕ) (r : FuncLayout O × ℕ)
      → resize_bytes backend i b s o ≡ some r
      → r.0.offset ≡ s.offset
  unfolding resize_bytes resize_imm
  resize_bytes-offset i none s o r h = ap (λ q. q.0.offset) (sym (some-injective _ _ h))
  resize_bytes-offset i (some b) s o r h =
      let (u, _, h1) =
        >>=-eq-some (backend.update_opcode_with_immediate_bytes (s.vcode.insts i) b) _ h in
      ap (λ q. q.0.offset) (sym (some-injective _ _ h1))

  resize_inst-offset :
      (i : ℕ) (s : FuncLayout O) (o : ℕ) (c : Bool) (r : FuncLayout O × ℕ × Bool)
      → resize_inst backend fn_offsets i s o c ≡ some r
      → r.0.offset ≡ s.offset
  unfolding resize_inst
  resize_inst-offset i s o c r h =
      let s0 : FuncLayout O = record s { insn_offsets = write s.insn_offsets i o } in
      let (u, hu, h1) =
        >>=-eq-some
          (resize_fixup backend fn_offsets i (fixup_label (s.vcode.fixups i)) s0
            (add_u32 o backend.size_of_op))
          _ h in
      let (q, hq, h2) =
        >>=-eq-some (resize_bytes backend i (u.0.vcode.inst_imm_bytes i) u.0 u.1) _ h1 in
      ap (λ q. q.0.offset) (sym (some-injective _ _ h2))
      ∙ resize_bytes-offset i (u.0.vcode.inst_imm_bytes i) u.0 u.1 q hq
      ∙ resize_fixup-offset i (fixup_label (s.vcode.fixups i)) s0 _ u hu

  resize_insts-offset :
      (is : List ℕ) (s : FuncLayout O) (o : ℕ) (c : Bool) (r : FuncLayout O × ℕ × Bool)
      → resize_insts backend fn_offsets is s o c ≡ some r
      → r.0.offset ≡ s.offset
  unfolding resize_insts
  resize_insts-offset [] s o c r h = ap (λ q. q.0.offset) (sym (some-injective _ _ h))
  resize_insts-offset (i ∷ is) s o c r h =
      let (u, hu, h1) = >>=-eq-some (resize_inst backend fn_offsets i s o c) _ h in
      resize_insts-offset is u.0 u.1 u.2 r h1 ∙ resize_inst-offset i s o c u hu

  resize_blocks-offset :
      (bs : List ℕ) (s : FuncLayout O) (o : ℕ) (c : Bool) (r : FuncLayout O × ℕ × Bool)
      → resize_blocks backend fn_offsets bs s o c ≡ some r
      → r.0.offset ≡ s.offset
  unfolding resize_blocks
  resize_blocks-offset [] s o c r h = ap (λ q. q.0.offset) (sym (some-injective _ _ h))
  resize_blocks-offset (b ∷ bs) s o c r h =
      let s0 : FuncLayout O = record s { block_offsets = write s.block_offsets b o } in
      let (u, hu, h1) =
        >>=-eq-some
          (resize_insts backend fn_offsets (s.vcode.blocks b) s0 o
            (c || changes (s.block_offsets b) o))
          _ h in
      resize_blocks-offset bs u.0 u.1 u.2 r h1 ∙ resize_insts-offset (s.vcode.blocks b) s0 o _ u hu

  pub resize_func-begins :
      (s : FuncLayout O) (o : ℕ) (r : FuncLayout O × Bool)
      → resize_func backend fn_offsets s o ≡ some r
      → r.0.offset ≡ o
  unfolding resize_func
  resize_func-begins s o r h =
      let s0 : FuncLayout O = record s { offset = o } in
      let (u, hu, h1) =
        >>=-eq-some (resize_blocks backend fn_offsets s.block_order s0 o (changes s.offset o)) _
          h in
      ap (λ q. q.0.offset) (sym (some-injective _ _ h1))
      ∙ resize_blocks-offset s.block_order s0 o _ u hu
