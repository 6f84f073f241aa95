-- ===== src/Assemble/Offsets.antt =====
-- assemble.rs: the offsets of an object are where its parts are emitted, once `resize` reports no
-- change.
use sonatina.Base.{
  ℕ, ◌+◌, ◌%◌, ◌^◌, ◌<◌, ◌≡◌, sym, ap, ◌∙◌, Bool, false, some, List, ◌∷◌, ◌++◌, map, length,
  length-append, arith, >>=-eq-some,
}
use mathlib.Core.Path.{subst}
use mathlib.Core.Option.{some-injective}
use sonatina.Ir.Layout.Chain.{Distinct}
use sonatina.Assemble.{
  Backend, FuncLayout, VCode, ObjectLayout, fixup_label, add_u32, new_object, new_funcs,
  resize_funcs, resize, emit_insts, emit_blocks, emit_func, emit_funcs, func_offset, func_size,
  func_size_in,
}
use sonatina.Assemble.Placed.{IsBackend, Aimed, InstsAt, BlocksAt, add_u32_add, add_u32_lt}
use sonatina.Assemble.Functions.{FuncAt}
use sonatina.Assemble.Objects.{
  keys, Synced, FuncsAt, new_funcs-keys, new_funcs-Synced, resize_funcs-keys, resize_funcs-Synced,
  resize_funcs_lem,
}
use sonatina.Assemble.Emitted.{func_size_in-append, InstsAt-append, BlocksAt-append, FuncsAt-append}

add_u32_thrice :
    (o a b c d e : ℕ) {n : ℕ}
    → n ≡ add_u32 (add_u32 (add_u32 o a) b) c
    → d ≡ a + e
    → e ≡ b + c
    → n ≡ add_u32 o d
add_u32_thrice o a b c d e h p q = omega arith

-- The layouts that come from `ObjectLayout::new` by calls of `resize`.
pub data Reached {O : Type 0} (backend : Backend O) (fs : List (ℕ × VCode O × List ℕ)) (start : ℕ)
    : ObjectLayout O → Type 0 where
  created :
      (object : ObjectLayout O)
      → new_object fs start ≡ some object
      → Reached backend fs start object
  resized :
      (object : ObjectLayout O) (r : ObjectLayout O × Bool)
      → Reached backend fs start object
      → resize backend object start ≡ some r
      → Reached backend fs start r.0

module _ {O : Type 0} (backend : Backend O) where
  module _ (fs : List (ℕ × VCode O × List ℕ)) (start : ℕ)
      (distinct : Distinct (map (λ f. f.0) fs)) where
    Reached-Synced :
        (object : ObjectLayout O)
        → Reached backend fs start object
        → Synced object.func_offsets object.functions × (keys object.functions ≡ map (λ f. f.0) fs)
    unfolding new_object resize
    Reached-Synced _ (created object h) =
        let (u, hu, e) = >>=-eq-some (new_funcs fs start (λ _. 0)) _ h in
        subst
          (λ (q : ObjectLayout O).
            Synced q.func_offsets q.functions × (keys q.functions ≡ map (λ f. f.0) fs))
          (some-injective _ _ e)
          (new_funcs-Synced fs start (λ _. 0) u hu distinct, new_funcs-keys fs start (λ _. 0) u hu)
    Reached-Synced _ (resized object r reached h) =
        let (s, k) = Reached-Synced object reached in
        let (u, hu, h1) =
          >>=-eq-some (resize_funcs backend object.functions start object.func_offsets) _ h in
        subst
          (λ q. Synced q.0.func_offsets q.0.functions × (keys q.0.functions ≡ map (λ f. f.0) fs))
          (some-injective _ _ h1)
          (
            resize_funcs-Synced backend object.functions start _ u hu (rw k distinct),
            resize_funcs-keys backend object.functions start _ u hu ∙ k,
          )

    module _ (laws : IsBackend backend) (lt : start < 2 ^ 32) (last object : ObjectLayout O)
        (reached : Reached backend fs start last)
        (done : resize backend last start ≡ some (object, false)) where
      resize-FuncsAt : FuncsAt backend object.func_offsets object.functions start
      unfolding resize
      resize-FuncsAt =
          let (u, hu, h1) =
            >>=-eq-some (resize_funcs backend last.functions start last.func_offsets) _ done in
          let e = some-injective _ _ h1 in
          subst (λ q. FuncsAt backend q.0.func_offsets q.0.functions start) e
            (resize_funcs_lem backend laws last.functions start last.func_offsets u
              (Reached-Synced last reached).0 hu (ap (λ q. q.1) e) lt).1

      module _ (before : List (ℕ × FuncLayout O)) (f : ℕ × FuncLayout O)
          (after : List (ℕ × FuncLayout O)) (split : object.functions ≡ before ++ f ∷ after) where
        function_at :
            (object.func_offsets f.0 ≡ add_u32 start (length (emit_funcs backend before)))
            × FuncAt backend object.func_offsets f.1
                (add_u32 start (length (emit_funcs backend before)))
        function_at =
            FuncsAt-append backend object.func_offsets before f after start lt
              (subst (λ gs. FuncsAt backend object.func_offsets gs start) split resize-FuncsAt)

        -- Let a call of `resize` report no change, for a layout that came from `new` with distinct functions by calls
        -- of `resize`, let the start be below 2^32, and let the backend keep to the sizes that `IsBackend` lists.
        -- Then `func_offset` of each function is the start and the number of bytes that are emitted for the functions
        -- before it, and `func_size` is the number of bytes that are emitted for it, both modulo 2^32.
        pub func_offset_lem :
            (func_offset object f.0 ≡ add_u32 start (length (emit_funcs backend before)))
            × (func_size object f.0 ≡ some (length (emit_func backend f.1) % 2 ^ 32))
        unfolding func_offset func_size
        func_offset_lem =
            let (at, here) = function_at in
            let (_, k) =
              Reached-Synced object (Reached.resized last (object, false) reached done) in
            (
              at,
              ap (λ gs. func_size_in gs f.0) split
                  ∙ func_size_in-append backend before f after
                      (subst (λ gs. Distinct (keys gs)) split (rw k distinct))
                  ∙ ap some here.sized,
            )

        module _ (bs : List ℕ) (b : ℕ) (rest : List ℕ)
            (order : f.1.block_order ≡ bs ++ b ∷ rest) where
          block_at :
              (f.1.block_offsets b
                ≡ add_u32
                    (add_u32 start (length (emit_funcs backend before)))
                    (length (emit_blocks backend f.1 bs)))
              × InstsAt backend object.func_offsets f.1 (f.1.vcode.blocks b) (
                  add_u32
                    (add_u32 start (length (emit_funcs backend before)))
                    (length (emit_blocks backend f.1 bs)))
          block_at =
              BlocksAt-append backend object.func_offsets f.1 bs b rest _ (add_u32_lt start _) (
                subst
                  (λ l.
                    BlocksAt backend object.func_offsets f.1 l
                      (add_u32 start (length (emit_funcs backend before))))
                  order function_at.1.blocks_at)

          -- Let a call of `resize` report no change, for a layout that came from `new` with distinct functions by
          -- calls of `resize`, let the start be below 2^32, and let the backend keep to the sizes that `IsBackend`
          -- lists. Then the offset of each block in a function's order is the start and the number of bytes that are
          -- emitted for the functions before its function and for the blocks before it, modulo 2^32.
          pub block_offset_lem :
              f.1.block_offsets b
              ≡ add_u32 start (length (emit_funcs backend before ++ emit_blocks backend f.1 bs))
          block_offset_lem =
              block_at.0
              ∙ add_u32_add start _ _
              ∙ ap (add_u32 start)
                  (sym (length-append {0} (emit_funcs backend before) (emit_blocks backend f.1 bs)))

          -- Let a call of `resize` report no change, for a layout that came from `new` with distinct functions by
          -- calls of `resize`, let the start be below 2^32, and let the backend keep to the sizes that `IsBackend`
          -- lists. Then the offset of each instruction of a block is the start and the number of bytes that are
          -- emitted before the instruction, modulo 2^32; and if it has a fixup for a label, then the label's target,
          -- which `emit` writes after the opcode, is the offset of the block, instruction or function that the label
          -- names.
          pub insn_offset_lem :
              (is : List ℕ) (i : ℕ) (rest : List ℕ)
              → f.1.vcode.blocks b ≡ is ++ i ∷ rest
              → (f.1.insn_offsets i
                  ≡ add_u32 start (
                      length (
                        emit_funcs backend before
                        ++ (emit_blocks backend f.1 bs ++ emit_insts backend f.1 is))))
                × Aimed object.func_offsets f.1 (fixup_label (f.1.vcode.fixups i))
          insn_offset_lem is i rest e =
              let (at, aimed) =
                InstsAt-append backend object.func_offsets f.1 is i rest _ (add_u32_lt _ _) (
                  subst
                    (λ l. InstsAt backend object.func_offsets f.1 l (
                      add_u32 (add_u32 start (length (emit_funcs backend before)))
                        (length (emit_blocks backend f.1 bs))))
                    e block_at.1) in
              let blocks = emit_blocks backend f.1 bs in
              let insts = emit_insts backend f.1 is in
              (
                add_u32_thrice start _ _ _ _ _ at
                    (length-append {0} (emit_funcs backend before) (blocks ++ insts))
                    (length-append {0} blocks insts),
                aimed,
              )
