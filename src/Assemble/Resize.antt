-- ===== src/Assemble/Resize.antt =====
-- assemble.rs: a round of `FuncLayout::resize` that changes nothing.
use sonatina.Base.{
  ℕ, ◌+◌, ◌^◌, ◌<◌, ◌≡◌, refl, sym, ap, ◌∙◌, Bool, false, ◌||◌, Option, none, some, List, length,
  get_elem?, arith, ==_iff, >>=-eq-some,
}
use mathlib.Core.Path.{subst}
use mathlib.Core.Option.{some-injective}
use sonatina.Assemble.{
  Backend, FuncLayout, fixup_label, add_u32, write, changes, address_of, resize_label, resize_imm,
  resize_fixup, resize_bytes, resize_inst, emit_inst, emit_target,
}
use sonatina.Assemble.Placed.{
  IsBackend, Same, Same-refl, Same-trans, Aimed, Aimed-Same, imm_size, length-emit_inst,
  add_u32_mod, add_u32_zero, add_u32_lt,
}
use sonatina.Assemble.Writes.{
  write_same, write_at, unchanged, or_false, write-sizes, label-Same, bytes-Same, insn-Same,
}

add_u32_twice :
    (o m a b n p : ℕ) → n ≡ add_u32 (add_u32 o m) a → p ≡ add_u32 n b → p ≡ add_u32 o (m + (a + b))
add_u32_twice o m a b n p h k = omega arith

module _ {O : Type 0} (backend : Backend O) (laws : IsBackend backend) (fn_offsets : ℕ → ℕ) where
  -- After the part for the fixup: nothing has changed, and the target is recorded.
  record FixupKept (s : FuncLayout O) (o : ℕ) (l : Option ℕ) (r : FuncLayout O × ℕ × Bool)
      : Type 0 where
    same : Same s r.0
    aimed : Aimed fn_offsets r.0 l
    next : r.1 ≡ add_u32 o (length (emit_target backend l r.0.label_targets))

  resize_fixup_lem :
      (i : ℕ) (l : Option ℕ) (s : FuncLayout O) (o : ℕ) (r : FuncLayout O × ℕ × Bool)
      → resize_fixup backend fn_offsets i l s o ≡ some r
      → r.2 ≡ false
      → o < 2 ^ 32
      → FixupKept s o l r
  unfolding resize_fixup resize_label
  resize_fixup_lem i none s o r h c lt =
      subst (FixupKept s o none) (some-injective _ _ h)
        record { same = Same-refl s; aimed = Aimed.no_label; next = sym (add_u32_zero o lt) }
  resize_fixup_lem i (some l) s o r h c lt =
      let (target, ht, h1) = >>=-eq-some (get_elem? s.vcode.labels l) _ h in
      let address = address_of fn_offsets s target in
      let (u, hu, h2) =
        >>=-eq-some (backend.update_opcode_with_label (s.vcode.insts i) address) _ h1 in
      let e = some-injective _ _ h2 in
      let old : s.label_targets l ≡ address =
        unchanged (s.label_targets l) address (ap (λ q. q.2) e ∙ c) in
      let kept : write s.label_targets l address ≡ s.label_targets =
        write_same s.label_targets l address old in
      let same =
        label-Same s (write s.vcode.insts i u.0) (write s.label_targets l address) (sym kept) in
      subst (FixupKept s o (some l)) e record {
        same = same;
        aimed = Aimed-Same fn_offsets s _ (some l) same (Aimed.at_label l target ht old);
        next =
            add_u32_mod o (length u.1)
            ∙ ap (add_u32 o) (
                laws.label_law (s.vcode.insts i) address u hu
                ∙ ap (λ a. length (backend.emit_label a))
                    (sym (write_at s.label_targets l address)));
      }

  -- After the part for the immediate.
  record BytesKept (s : FuncLayout O) (i o : ℕ) (r : FuncLayout O × ℕ) : Type 0 where
    same : Same s r.0
    next : r.1 ≡ add_u32 o (imm_size (r.0.vcode.inst_imm_bytes i))

  resize_bytes_lem :
      (i : ℕ) (b : Option (List ℕ)) (s : FuncLayout O) (o : ℕ) (r : FuncLayout O × ℕ)
      → s.vcode.inst_imm_bytes i ≡ b
      → resize_bytes backend i b s o ≡ some r
      → o < 2 ^ 32
      → BytesKept s i o r
  unfolding resize_bytes resize_imm
  resize_bytes_lem i none s o r e h lt =
      subst (BytesKept s i o) (some-injective _ _ h)
        record { same = Same-refl s; next = rw e (sym (add_u32_zero o lt)) }
  resize_bytes_lem i (some bytes) s o r e h lt =
      let (u, hu, h1) =
        >>=-eq-some (backend.update_opcode_with_immediate_bytes (s.vcode.insts i) bytes) _ h in
      let size = laws.bytes_law (s.vcode.insts i) bytes u hu in
      subst (BytesKept s i o) (some-injective _ _ h1) record {
        same =
            bytes-Same s (write s.vcode.insts i u.0) (write s.vcode.inst_imm_bytes i (some u.1))
              (write-sizes s.vcode.inst_imm_bytes i u.1 (rw e (sym size)));
        next = rw ((==_iff i i).1 refl) (add_u32_mod o (length u.1));
      }

  -- What is kept by a round over an instruction, or over the instructions of a block.
  pub record Kept (At : FuncLayout O → Type 0) (size : FuncLayout O → ℕ) (s : FuncLayout O) (o : ℕ)
      (r : FuncLayout O × ℕ × Bool) : Type 0 where
    pub same : Same s r.0
    pub at : At r.0
    pub next : r.1 ≡ add_u32 o (size r.0)

  unfoldable pub InstAt : FuncLayout O → ℕ → ℕ → Type 0
  InstAt t i o = (t.insn_offsets i ≡ o) × Aimed fn_offsets t (fixup_label (t.vcode.fixups i))

  inst_bytes :
      (s u t : FuncLayout O) (i : ℕ)
      → s.vcode.fixups ≡ t.vcode.fixups
      → u.label_targets ≡ t.label_targets
      → backend.size_of_op
          + (length (emit_target backend (fixup_label (s.vcode.fixups i)) u.label_targets)
              + imm_size (t.vcode.inst_imm_bytes i))
        ≡ length (emit_inst backend t i)
  inst_bytes s u t i e k = rw (length-emit_inst backend laws t i, e, k) refl

  -- A change is not forgotten.
  pub resize_inst-was :
      (i : ℕ) (s : FuncLayout O) (o : ℕ) (c : Bool) (r : FuncLayout O × ℕ × Bool)
      → resize_inst backend fn_offsets i s o c ≡ some r
      → r.2 ≡ false
      → c ≡ false
  unfolding resize_inst
  resize_inst-was i s o c r h n =
      let (u, hu, h1) =
        >>=-eq-some
          (resize_fixup backend fn_offsets i (fixup_label (s.vcode.fixups i))
            (record s { insn_offsets = write s.insn_offsets i o }) (add_u32 o backend.size_of_op))
          _ h in
      let (q, hq, h2) =
        >>=-eq-some (resize_bytes backend i (u.0.vcode.inst_imm_bytes i) u.0 u.1) _ h1 in
      let e = some-injective _ _ h2 in
      (or_false c _ (or_false (c || changes (s.insn_offsets i) o) u.2 (ap (λ x. x.2) e ∙ n)).0).0

  pub resize_inst_lem :
      (i : ℕ) (s : FuncLayout O) (o : ℕ) (c : Bool) (r : FuncLayout O × ℕ × Bool)
      → resize_inst backend fn_offsets i s o c ≡ some r
      → r.2 ≡ false
      → o < 2 ^ 32
      → Kept (λ t. InstAt t i o) (λ t. length (emit_inst backend t i)) s o r
  unfolding resize_inst InstAt
  resize_inst_lem i s o c r h n lt =
      let s0 : FuncLayout O = record s { insn_offsets = write s.insn_offsets i o } in
      let (u, hu, h1) =
        >>=-eq-some
          (resize_fixup backend fn_offsets i (fixup_label (s.vcode.fixups i)) s0
            (add_u32 o backend.size_of_op))
          _ h in
      let (q, hq, h2) =
        >>=-eq-some (resize_bytes backend i (u.0.vcode.inst_imm_bytes i) u.0 u.1) _ h1 in
      let e = some-injective _ _ h2 in
      let (f1, f2) = or_false (c || changes (s.insn_offsets i) o) u.2 (ap (λ x. x.2) e ∙ n) in
      let old = unchanged (s.insn_offsets i) o (or_false c (changes (s.insn_offsets i) o) f1).1 in
      let fixup =
        resize_fixup_lem i (fixup_label (s.vcode.fixups i)) s0 (add_u32 o backend.size_of_op) u hu
          f2 (add_u32_lt o backend.size_of_op) in
      let bytes =
        resize_bytes_lem i (u.0.vcode.inst_imm_bytes i) u.0 u.1 q refl hq
          (rw fixup.next (add_u32_lt _ _)) in
      let first : Same s s0 =
        insn-Same s (write s.insn_offsets i o) (sym (write_same s.insn_offsets i o old)) in
      let two = Same-trans s s0 u.0 first fixup.same in
      let all = Same-trans s u.0 q.0 two bytes.same in
      subst (Kept (λ t. InstAt t i o) (λ t. length (emit_inst backend t i)) s o) e record {
        same = all;
        at = (
          rw (sym all.insn_offsets) old,
          rw (sym all.fixups) (Aimed-Same fn_offsets u.0 q.0 _ bytes.same fixup.aimed),
        );
        next =
            add_u32_twice o backend.size_of_op _ _ u.1 q.1 fixup.next bytes.next
            ∙ ap (add_u32 o) (inst_bytes s u.0 q.0 i all.fixups bytes.same.label_targets);
      }
