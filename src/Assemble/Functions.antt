-- ===== src/Assemble/Functions.antt =====
-- assemble.rs: `FuncLayout::resize` when nothing changes.
use sonatina.Base.{
  ℕ, ◌%◌, ◌^◌, ◌<◌, ◌≡◌, refl, sym, ap, ◌∙◌, Bool, false, some, List, [], ◌∷◌, length,
  length-append, arith, >>=-eq-some,
}
use mathlib.Core.Path.{subst}
use mathlib.Core.Option.{some-injective}
use sonatina.Assemble.{
  Backend, FuncLayout, add_u32, sub_u32, changes, resize_blocks, resize_func, emit_insts,
  emit_blocks, emit_func,
}
use sonatina.Assemble.Placed.{IsBackend, Same, InstsAt, BlocksAt, length-emit_insts-Same}
use sonatina.Assemble.Writes.{unchanged, or_false, size-Same}
use sonatina.Assemble.Blocks.{InstsAt-Same, resize_blocks_lem}

module _ {O : Type 0} (backend : Backend O) (fn_offsets : ℕ → ℕ) where
  -- The function begins at the offset, and its parts are where they are emitted.
  pub record FuncAt (t : FuncLayout O) (o : ℕ) : Type 0 where
    pub begins : t.offset ≡ o
    pub blocks_at : BlocksAt backend fn_offsets t t.block_order o
    pub sized : t.size ≡ length (emit_func backend t) % 2 ^ 32

  module _ (laws : IsBackend backend) where
    length-emit_blocks-Same :
        (s t : FuncLayout O) (bs : List ℕ)
        → Same s t
        → length (emit_blocks backend s bs) ≡ length (emit_blocks backend t bs)
    unfolding emit_blocks
    length-emit_blocks-Same s t [] p = refl
    length-emit_blocks-Same s t (b ∷ bs) p =
        rw
          (
            length-append {0} (emit_insts backend s (s.vcode.blocks b)) (emit_blocks backend s bs),
            length-append {0} (emit_insts backend t (t.vcode.blocks b)) (emit_blocks backend t bs),
            length-emit_blocks-Same s t bs p,
            ap (λ f. f b) p.blocks,
            length-emit_insts-Same backend laws s t (t.vcode.blocks b) p,
          )
          refl

    BlocksAt-Same :
        (s t : FuncLayout O) (bs : List ℕ) (o : ℕ)
        → Same s t
        → BlocksAt backend fn_offsets s bs o
        → BlocksAt backend fn_offsets t bs o
    unfolding BlocksAt
    BlocksAt-Same s t [] o p a = tt
    BlocksAt-Same s t (b ∷ bs) o p ((e, is), rest) = (
      (
        ap (λ f. f b) (sym p.block_offsets) ∙ e,
        subst (λ f. InstsAt backend fn_offsets t (f b) o) p.blocks
            (InstsAt-Same backend laws fn_offsets s t (s.vcode.blocks b) o p is),
      ),
      subst (λ n. BlocksAt backend fn_offsets t bs (add_u32 o n))
          (length-emit_insts-Same backend laws s t (s.vcode.blocks b) p
            ∙ ap (λ f. length (emit_insts backend t (f b))) p.blocks)
          (BlocksAt-Same s t bs _ p rest),
    )

    sub_u32_add : (o p n : ℕ) → o < 2 ^ 32 → p ≡ add_u32 o n → sub_u32 p o ≡ n % 2 ^ 32
    sub_u32_add o p n h e = omega arith

    pub resize_func_lem :
        (s : FuncLayout O) (o : ℕ) (r : FuncLayout O × Bool)
        → resize_func backend fn_offsets s o ≡ some r
        → r.1 ≡ false
        → o < 2 ^ 32
        → (s.offset ≡ o) × FuncAt r.0 o
    unfolding resize_func emit_func
    resize_func_lem s o r h n lt =
        let s0 : FuncLayout O = record s { offset = o } in
        let (u, hu, h1) =
          >>=-eq-some (resize_blocks backend fn_offsets s.block_order s0 o (changes s.offset o)) _
            h in
        let e = some-injective _ _ h1 in
        let (f1, f2) = or_false u.2 _ (ap (λ x. x.1) e ∙ n) in
        let (was, kept) =
          resize_blocks_lem backend laws fn_offsets s.block_order s0 o _ u hu f1 lt in
        let more = size-Same u.0 (sub_u32 u.1 u.0.offset) in
        let t : FuncLayout O = record u.0 { size = sub_u32 u.1 u.0.offset } in
        (
          unchanged s.offset o was,
          subst (λ q. FuncAt q.0 o) e
              record {
                begins = sym kept.same.offset;
                blocks_at = BlocksAt-Same u.0 t _ o more (
                    subst (λ bs. BlocksAt backend fn_offsets u.0 bs o) kept.same.block_order
                      kept.at);
                sized =
                    ap (sub_u32 u.1) (sym kept.same.offset)
                    ∙ sub_u32_add o u.1 _ lt kept.next
                    ∙ ap (λ n. n % 2 ^ 32)
                        (ap (λ bs. length (emit_blocks backend u.0 bs)) kept.same.block_order
                          ∙ length-emit_blocks-Same u.0 t u.0.block_order more);
              },
        )
