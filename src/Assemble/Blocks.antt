-- ===== src/Assemble/Blocks.antt =====
-- assemble.rs: the loops of `FuncLayout::resize` when nothing changes.
use sonatina.Base.{
  ℕ, ◌+◌, ◌^◌, ◌<◌, ◌≡◌, sym, ap, ◌∙◌, Bool, false, ◌||◌, some, List, [], ◌∷◌, length,
  length-append, arith, >>=-eq-some,
}
use mathlib.Core.Path.{subst}
use mathlib.Core.Option.{some-injective}
use sonatina.Assemble.{
  Backend, FuncLayout, fixup_label, add_u32, write, changes, resize_inst, resize_insts,
  resize_blocks, emit_inst, emit_insts, emit_blocks,
}
use sonatina.Assemble.Placed.{
  IsBackend, Same, Same-refl, Same-trans, Aimed, Aimed-Same, InstsAt, BlocksAt,
  length-emit_inst-Same, length-emit_insts-Same, add_u32_zero, add_u32_lt,
}
use sonatina.Assemble.Writes.{write_same, unchanged, or_false, block-Same}
use sonatina.Assemble.Resize.{Kept, InstAt, resize_inst-was, resize_inst_lem}

add_u32_next : (o m n p q k : ℕ) → p ≡ add_u32 o m → q ≡ add_u32 p n → k ≡ m + n → q ≡ add_u32 o k
add_u32_next o m n p q k a b c = omega arith

module _ {O : Type 0} (backend : Backend O) (laws : IsBackend backend) (fn_offsets : ℕ → ℕ) where
  pub InstAt-Same :
      (s t : FuncLayout O) (i o : ℕ)
      → Same s t
      → InstAt backend laws fn_offsets s i o
      → InstAt backend laws fn_offsets t i o
  unfolding InstAt
  InstAt-Same s t i o p (e, a) = (
    rw (sym p.insn_offsets) e,
    subst (λ f. Aimed fn_offsets t (fixup_label (f i))) p.fixups (Aimed-Same fn_offsets s t _ p a),
  )

  pub InstsAt-Same :
      (s t : FuncLayout O) (is : List ℕ) (o : ℕ)
      → Same s t
      → InstsAt backend fn_offsets s is o
      → InstsAt backend fn_offsets t is o
  unfolding InstsAt InstAt
  InstsAt-Same s t [] o p a = tt
  InstsAt-Same s t (i ∷ is) o p (a, rest) = (
    InstAt-Same s t i o p a,
    rw (sym (length-emit_inst-Same backend laws s t i p)) (InstsAt-Same s t is _ p rest),
  )

  resize_insts-was :
      (is : List ℕ) (s : FuncLayout O) (o : ℕ) (c : Bool) (r : FuncLayout O × ℕ × Bool)
      → resize_insts backend fn_offsets is s o c ≡ some r
      → r.2 ≡ false
      → c ≡ false
  unfolding resize_insts
  resize_insts-was [] s o c r h n = ap (λ x. x.2) (some-injective _ _ h) ∙ n
  resize_insts-was (i ∷ is) s o c r h n =
      let (u, hu, h1) = >>=-eq-some (resize_inst backend fn_offsets i s o c) _ h in
      resize_inst-was backend laws fn_offsets i s o c u hu (resize_insts-was is u.0 u.1 u.2 r h1 n)

  resize_insts_lem :
      (is : List ℕ) (s : FuncLayout O) (o : ℕ) (c : Bool) (r : FuncLayout O × ℕ × Bool)
      → resize_insts backend fn_offsets is s o c ≡ some r
      → r.2 ≡ false
      → o < 2 ^ 32
      → Kept backend laws fn_offsets
          (λ t. InstsAt backend fn_offsets t is o)
          (λ t. length (emit_insts backend t is))
          s
          o
          r
  unfolding resize_insts InstsAt InstAt emit_insts
  resize_insts_lem [] s o c r h n lt =
      subst
        (Kept backend laws fn_offsets (λ t. InstsAt backend fn_offsets t [] o)
          (λ t. length (emit_insts backend t [])) s o)
        (some-injective _ _ h)
        record { same = Same-refl s; at = tt; next = sym (add_u32_zero o lt) }
  resize_insts_lem (i ∷ is) s o c r h n lt =
      let (u, hu, h1) = >>=-eq-some (resize_inst backend fn_offsets i s o c) _ h in
      let first =
        resize_inst_lem backend laws fn_offsets i s o c u hu
          (resize_insts-was is u.0 u.1 u.2 r h1 n) lt in
      let rest = resize_insts_lem is u.0 u.1 u.2 r h1 n (rw first.next (add_u32_lt o _)) in
      let next =
        first.next ∙ ap (add_u32 o) (length-emit_inst-Same backend laws u.0 r.0 i rest.same) in
      record {
        same = Same-trans s u.0 r.0 first.same rest.same;
        at = (
          InstAt-Same u.0 r.0 i o rest.same first.at,
          subst (InstsAt backend fn_offsets r.0 is) next rest.at,
        );
        next =
            add_u32_next o _ _ u.1 r.1 _ next rest.next
              (length-append {0} (emit_inst backend r.0 i) (emit_insts backend r.0 is));
      }

  resize_blocks-was :
      (bs : List ℕ) (s : FuncLayout O) (o : ℕ) (c : Bool) (r : FuncLayout O × ℕ × Bool)
      → resize_blocks backend fn_offsets bs s o c ≡ some r
      → r.2 ≡ false
      → c ≡ false
  unfolding resize_blocks
  resize_blocks-was [] s o c r h n = ap (λ x. x.2) (some-injective _ _ h) ∙ n
  resize_blocks-was (b ∷ bs) s o c r h n =
      let (u, hu, h1) =
        >>=-eq-some
          (resize_insts backend fn_offsets (s.vcode.blocks b)
            (record s { block_offsets = write s.block_offsets b o }) o
            (c || changes (s.block_offsets b) o))
          _ h in
      (or_false c _ (
        resize_insts-was (s.vcode.blocks b) _ o _ u hu (resize_blocks-was bs u.0 u.1 u.2 r h1 n))).0

  pub resize_blocks_lem :
      (bs : List ℕ) (s : FuncLayout O) (o : ℕ) (c : Bool) (r : FuncLayout O × ℕ × Bool)
      → resize_blocks backend fn_offsets bs s o c ≡ some r
      → r.2 ≡ false
      → o < 2 ^ 32
      → (c ≡ false)
        × Kept backend laws fn_offsets
            (λ t. BlocksAt backend fn_offsets t bs o)
            (λ t. length (emit_blocks backend t bs))
            s
            o
            r
  unfolding resize_blocks BlocksAt emit_blocks
  resize_blocks_lem [] s o c r h n lt = (
    resize_blocks-was [] s o c r h n,
    subst
        (Kept backend laws fn_offsets (λ t. BlocksAt backend fn_offsets t [] o)
          (λ t. length (emit_blocks backend t [])) s o)
        (some-injective _ _ h)
        record { same = Same-refl s; at = tt; next = sym (add_u32_zero o lt) },
  )
  resize_blocks_lem (b ∷ bs) s o c r h n lt =
      let s0 : FuncLayout O = record s { block_offsets = write s.block_offsets b o } in
      let (u, hu, h1) =
        >>=-eq-some
          (resize_insts backend fn_offsets (s.vcode.blocks b) s0 o
            (c || changes (s.block_offsets b) o))
          _ h in
      let quiet = resize_blocks-was bs u.0 u.1 u.2 r h1 n in
      let (was, still) = or_false c _ (resize_insts-was (s.vcode.blocks b) s0 o _ u hu quiet) in
      let old = unchanged (s.block_offsets b) o still in
      let here : Same s s0 = block-Same s _ (sym (write_same s.block_offsets b o old)) in
      let first = resize_insts_lem (s.vcode.blocks b) s0 o _ u hu quiet lt in
      let (_, rest) = resize_blocks_lem bs u.0 u.1 u.2 r h1 n (rw first.next (add_u32_lt o _)) in
      let all = Same-trans s u.0 r.0 (Same-trans s s0 u.0 here first.same) rest.same in
      let size =
        length-emit_insts-Same backend laws u.0 r.0 (s.vcode.blocks b) rest.same
        ∙ ap (λ f. length (emit_insts backend r.0 (f b))) all.blocks in
      let next = first.next ∙ ap (add_u32 o) size in
      (
        was,
        record {
          same = all;
          at = (
            (
              ap (λ f. f b) (sym all.block_offsets) ∙ old,
              subst (λ f. InstsAt backend fn_offsets r.0 (f b) o) all.blocks
                  (InstsAt-Same u.0 r.0 (s.vcode.blocks b) o rest.same first.at),
            ),
            subst (BlocksAt backend fn_offsets r.0 bs) next rest.at,
          );
          next = add_u32_next o _ _ u.1 r.1 _ next rest.next (
              length-append {0} (emit_insts backend r.0 (r.0.vcode.blocks b))
                (emit_blocks backend r.0 bs));
        },
      )
