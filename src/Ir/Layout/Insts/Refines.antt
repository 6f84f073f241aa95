-- ===== src/Ir/Layout/Insts/Refines.antt =====
-- crates/ir/src/layout.rs: the instruction operations act on the order of a block as on a list.
use sonatina.Base.{
  ℕ, ◌≡◌, refl, sym, ◌∙◌, true, false, none, some, List, [], ◌∷◌, ◌++◌, arith, append-nil,
  append_assoc,
}
use sonatina.Ir.Layout.{Layout, update, default_inst}
use sonatina.Ir.Layout.Blocks.Refines.{Gives, mem-middle}
use sonatina.Ir.Layout.Chain.{mem, last_or, last_or-append}
use sonatina.Ir.Layout.Insts.{
  append_inst, prepend_inst, insert_inst_before, insert_inst_after, remove_inst, put_inst,
  set_inst_prev, set_inst_next, set_first_inst, set_last_inst, link_next_inst, link_prev_inst,
}
use sonatina.Ir.Layout.Insts.Links.{
  with_insts, link_next_inst-insts, link_prev_inst-insts, link_next_inst-rest, link_prev_inst-rest,
}
use sonatina.Ir.Layout.Insts.Places.{IsOrder-insert_inst, IsOrder-remove_inst}
use sonatina.Ir.Layout.Linked.{links_at}
use sonatina.Ir.Layout.Order.{
  IsOrder, is_block_inserted-eq-mem, is_inst_inserted-mem, is_inst_inserted_new,
}

module _ (l : Layout) (bs : List ℕ) (is : ℕ → List ℕ) (o : IsOrder l bs is) (b : ℕ)
    (inserted : mem b bs ≡ true) (i : ℕ) where
  appended :
      ((c : ℕ) → mem i (is c) ≡ false)
      → Gives (append_inst i b l) bs (with_insts is b (is b ++ i ∷ []))
  unfolding append_inst
  appended new =
      let last = (l.blocks b).last_inst in
      let end = (o.insts_linked b).last_eq in
      let (blocks, entry, final) = link_next_inst-rest b last (some i) l in
      let l' =
        put_inst i b last none (set_last_inst b (some i) (link_next_inst b last (some i) l)) in
      (
        l',
        rw (is_block_inserted-eq-mem l bs is o b, inserted, is_inst_inserted_new l bs is o i new),
        IsOrder-insert_inst l l' bs is b (is b) [] i o inserted (sym (append-nil (is b))) new
            (entry, final, λ c. ground (arith, end, blocks c, blocks b))
            (λ k. ground (arith, end, link_next_inst-insts b last (some i) l k)),
      )

  prepended :
      ((c : ℕ) → mem i (is c) ≡ false) → Gives (prepend_inst i b l) bs (with_insts is b (i ∷ is b))
  unfolding prepend_inst
  prepended new =
      let first = (l.blocks b).first_inst in
      let start = (o.insts_linked b).first_eq in
      let (blocks, entry, final) = link_prev_inst-rest b first (some i) l in
      let l' =
        put_inst i b none first (set_first_inst b (some i) (link_prev_inst b first (some i) l)) in
      (
        l',
        rw (is_block_inserted-eq-mem l bs is o b, inserted, is_inst_inserted_new l bs is o i new),
        IsOrder-insert_inst l l' bs is b [] (is b) i o inserted refl new
            (entry, final, λ c. ground (arith, start, blocks c, blocks b))
            (λ k. ground (arith, start, link_prev_inst-insts b first (some i) l k)),
      )

  -- A new instruction is appended to a block of the order, or prepended.
  pub append-prepend_inst :
      ((c : ℕ) → mem i (is c) ≡ false)
      → Gives (append_inst i b l) bs (with_insts is b (is b ++ i ∷ []))
        × Gives (prepend_inst i b l) bs (with_insts is b (i ∷ is b))
  append-prepend_inst new = (appended new, prepended new)

  module _ (pre post : List ℕ) (at : ℕ) (place : is b ≡ pre ++ at ∷ post) where
    in_block : mem at (is b) ≡ true
    in_block = rw place (mem-middle pre post at)

    before_inst :
        ((c : ℕ) → mem i (is c) ≡ false)
        → Gives (insert_inst_before i at l) bs (with_insts is b (pre ++ i ∷ at ∷ post))
    unfolding insert_inst_before
    before_inst new =
        let prev = (l.insts at).prev in
        let (before, _) =
          links_at _ _ (l.blocks b).first_inst (l.blocks b).last_inst pre post at
            (rw place at (o.insts_linked b)) in
        let (blocks, entry, final) = link_next_inst-rest b prev (some i) l in
        let l' =
          put_inst i b prev (some at)
            (set_inst_prev at (some i) (link_next_inst b prev (some i) l)) in
        (
          l',
          rw (
            is_inst_inserted-mem l bs is o at b in_block,
            is_inst_inserted_new l bs is o i new,
            o.owned at b in_block,
          ),
          IsOrder-insert_inst l l' bs is b pre (at ∷ post) i o inserted place new
              (entry, final, λ c. ground (arith, before, blocks c))
              (λ k. ground (
                arith,
                before,
                link_next_inst-insts b prev (some i) l k,
                link_next_inst-insts b prev (some i) l at,
              )),
        )

    after_inst :
        ((c : ℕ) → mem i (is c) ≡ false)
        → Gives (insert_inst_after i at l) bs (with_insts is b (pre ++ at ∷ i ∷ post))
    unfolding insert_inst_after
    after_inst new =
        let next = (l.insts at).next in
        let (_, after) =
          links_at _ _ (l.blocks b).first_inst (l.blocks b).last_inst pre post at
            (rw place at (o.insts_linked b)) in
        let (blocks, entry, final) = link_prev_inst-rest b next (some i) l in
        let l' =
          put_inst i b (some at) next
            (set_inst_next at (some i) (link_prev_inst b next (some i) l)) in
        let end : last_or none (pre ++ at ∷ []) ≡ some at = last_or-append none pre (at ∷ []) in
        (
          l',
          rw (
            is_inst_inserted-mem l bs is o at b in_block,
            is_inst_inserted_new l bs is o i new,
            o.owned at b in_block,
          ),
          rw (← append_assoc pre (at ∷ []) (i ∷ post)) (
              IsOrder-insert_inst l l' bs is b (pre ++ at ∷ []) post i o inserted
                (place ∙ sym (append_assoc pre (at ∷ []) post)) new
                (entry, final, λ c. ground (arith, end, after, blocks c))
                (λ k. ground (
                  arith,
                  end,
                  after,
                  link_prev_inst-insts b next (some i) l k,
                  link_prev_inst-insts b next (some i) l at,
                ))),
        )

    -- A new instruction is put before or after one of a block of the order.
    pub insert_inst_lem :
        ((c : ℕ) → mem i (is c) ≡ false)
        → Gives (insert_inst_before i at l) bs (with_insts is b (pre ++ i ∷ at ∷ post))
          × Gives (insert_inst_after i at l) bs (with_insts is b (pre ++ at ∷ i ∷ post))
    insert_inst_lem new = (before_inst new, after_inst new)

  -- An instruction that is removed leaves the others of its block in their order.
  pub remove_inst_lem :
      (pre post : List ℕ)
      → is b ≡ pre ++ i ∷ post
      → Gives (remove_inst i l) bs (with_insts is b (pre ++ post))
  unfolding remove_inst
  remove_inst_lem pre post place =
      let here : mem i (is b) ≡ true = rw place (mem-middle pre post i) in
      let prev = (l.insts i).prev in
      let next = (l.insts i).next in
      let (before, after) =
        links_at _ _ (l.blocks b).first_inst (l.blocks b).last_inst pre post i
          (rw place at (o.insts_linked b)) in
      let mid = link_next_inst b prev next l in
      let (blocks, entry, final) = link_next_inst-rest b prev next l in
      let (blocks', entry', final') = link_prev_inst-rest b next prev mid in
      let linked = link_prev_inst b next prev mid in
      let l' = record linked { insts = update linked.insts i default_inst } in
      (
        l',
        rw (is_inst_inserted-mem l bs is o i b here, o.owned i b here),
        IsOrder-remove_inst l l' bs is b pre post i o inserted place
            (
              entry' ∙ entry,
              final' ∙ final,
              λ c. ground (arith, before, after, blocks c, blocks' c),
            )
            (λ k. ground (
              arith,
              before,
              after,
              link_prev_inst-insts b next prev mid k,
              link_next_inst-insts b prev next l k,
            )),
      )
