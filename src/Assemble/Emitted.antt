-- ===== src/Assemble/Emitted.antt =====
-- assemble.rs: where a function, a block and an instruction are emitted.
use sonatina.Base.{
  ℕ, ◌^◌, ◌<◌, ◌≡◌, refl, sym, ap, ◌∙◌, false, some, List, [], ◌∷◌, ◌++◌, ◌==◌, mem, length,
  length-append, ==_iff,
}
use mathlib.Core.Path.{subst}
use sonatina.Ir.Layout.Chain.{Distinct}
use sonatina.Assemble.{
  Backend, FuncLayout, fixup_label, add_u32, emit_inst, emit_insts, emit_blocks, emit_func,
  emit_funcs, func_size_in,
}
use sonatina.Assemble.Placed.{Aimed, InstsAt, BlocksAt, add_u32_add, add_u32_zero, add_u32_lt}
use sonatina.Assemble.Writes.{or_false}
use sonatina.Assemble.Functions.{FuncAt}
use sonatina.Assemble.Objects.{keys, FuncsAt}

module _ {O : Type 0} (backend : Backend O) where
  mem-keys :
      (k : ℕ) (pre : List (ℕ × FuncLayout O)) (f : ℕ × FuncLayout O)
      (post : List (ℕ × FuncLayout O))
      → mem k (keys (pre ++ f ∷ post)) ≡ false
      → (k == f.0) ≡ false
  unfolding keys
  mem-keys k [] f post m = (or_false (k == f.0) _ m).0
  mem-keys k (g ∷ pre) f post m = mem-keys k pre f post (or_false (k == g.0) _ m).1

  pub func_size_in-append :
      (pre : List (ℕ × FuncLayout O)) (f : ℕ × FuncLayout O) (post : List (ℕ × FuncLayout O))
      → Distinct (keys (pre ++ f ∷ post))
      → func_size_in (pre ++ f ∷ post) f.0 ≡ some f.1.size
  unfolding keys func_size_in
  func_size_in-append [] f post d = rw ((==_iff f.0 f.0).1 refl) refl
  func_size_in-append (g ∷ pre) f post d =
      rw (mem-keys g.0 pre f post d.0) (func_size_in-append pre f post d.1)

  -- What is recorded of an instruction of a list, a block of a list and a function of a list.
  pub InstsAt-append :
      (offsets : ℕ → ℕ) (t : FuncLayout O) (pre : List ℕ) (i : ℕ) (post : List ℕ) (o : ℕ)
      → o < 2 ^ 32
      → InstsAt backend offsets t (pre ++ i ∷ post) o
      → (t.insn_offsets i ≡ add_u32 o (length (emit_insts backend t pre)))
        × Aimed offsets t (fixup_label (t.vcode.fixups i))
  unfolding InstsAt emit_insts
  InstsAt-append offsets t [] i post o lt at = (at.0.0 ∙ sym (add_u32_zero o lt), at.0.1)
  InstsAt-append offsets t (j ∷ pre) i post o lt at =
      let (e, a) =
        InstsAt-append offsets t pre i post (add_u32 o (length (emit_inst backend t j)))
          (add_u32_lt o _) at.1 in
      (
        e
            ∙ add_u32_add o _ _
            ∙ ap (add_u32 o)
                (sym (length-append {0} (emit_inst backend t j) (emit_insts backend t pre))),
        a,
      )

  pub BlocksAt-append :
      (offsets : ℕ → ℕ) (t : FuncLayout O) (pre : List ℕ) (b : ℕ) (post : List ℕ) (o : ℕ)
      → o < 2 ^ 32
      → BlocksAt backend offsets t (pre ++ b ∷ post) o
      → (t.block_offsets b ≡ add_u32 o (length (emit_blocks backend t pre)))
        × InstsAt backend offsets t
            (t.vcode.blocks b)
            (add_u32 o (length (emit_blocks backend t pre)))
  unfolding BlocksAt emit_blocks
  BlocksAt-append offsets t [] b post o lt at =
      let same = sym (add_u32_zero o lt) in
      (at.0.0 ∙ same, subst (InstsAt backend offsets t (t.vcode.blocks b)) same at.0.1)
  BlocksAt-append offsets t (c ∷ pre) b post o lt at =
      let bytes = emit_insts backend t (t.vcode.blocks c) in
      let (e, a) =
        BlocksAt-append offsets t pre b post (add_u32 o (length bytes)) (add_u32_lt o _) at.1 in
      let same =
        add_u32_add o (length bytes) _
        ∙ ap (add_u32 o) (sym (length-append {0} bytes (emit_blocks backend t pre))) in
      (e ∙ same, subst (InstsAt backend offsets t (t.vcode.blocks b)) same a)

  pub FuncsAt-append :
      (offsets : ℕ → ℕ) (pre : List (ℕ × FuncLayout O)) (f : ℕ × FuncLayout O)
      (post : List (ℕ × FuncLayout O)) (o : ℕ)
      → o < 2 ^ 32
      → FuncsAt backend offsets (pre ++ f ∷ post) o
      → (offsets f.0 ≡ add_u32 o (length (emit_funcs backend pre)))
        × FuncAt backend offsets f.1 (add_u32 o (length (emit_funcs backend pre)))
  unfolding FuncsAt emit_funcs
  FuncsAt-append offsets [] f post o lt at =
      let same = sym (add_u32_zero o lt) in
      (at.0.0 ∙ same, subst (FuncAt backend offsets f.1) same at.0.1)
  FuncsAt-append offsets (g ∷ pre) f post o lt at =
      let bytes = emit_func backend g.1 in
      let (e, a) =
        FuncsAt-append offsets pre f post (add_u32 o (length bytes)) (add_u32_lt o _) at.1 in
      let same =
        add_u32_add o (length bytes) _
        ∙ ap (add_u32 o) (sym (length-append {0} bytes (emit_funcs backend pre))) in
      (e ∙ same, subst (FuncAt backend offsets f.1) same a)
