-- ===== src/Ir/Layout/Cursor/Moves.antt =====
-- crates/ir/src/func_cursor.rs: `next_loc` and `prev_loc` undo each other inside a function.
use sonatina.Base.{
  ℕ, ◌≡◌, refl, sym, ap, ◌∙◌, true, Option, none, some, List, [], ◌∷◌, ◌++◌, ◌⊎◌, inl, inr,
  append_assoc,
}
use sonatina.Ir.Layout.{
  Layout, prev_block_of, next_block_of, first_inst_of, last_inst_of, prev_inst_of, next_inst_of,
  inst_block,
}
use sonatina.Ir.Layout.Blocks.Refines.{mem-middle}
use sonatina.Ir.Layout.Chain.{mem, head_or, last_or, last_or-append}
use sonatina.Ir.Layout.Cursor.{CursorLocation, next_loc, prev_loc}
use sonatina.Ir.Layout.Linked.{links_at}
use sonatina.Ir.Layout.Order.{IsOrder, is_block_inserted-eq-mem, is_inst_inserted-mem, mem-split}

module _ (l : Layout) (bs : List ℕ) (is : ℕ → List ℕ) (o : IsOrder l bs is) where
  -- The queries of the layout, in the terms of its order.
  pub block_ends :
      (b : ℕ)
      → mem b bs ≡ true
      → (first_inst_of l b ≡ some (head_or none (is b)))
        × (last_inst_of l b ≡ some (last_or none (is b)))
  unfolding first_inst_of last_inst_of
  block_ends b m =
      let e = is_block_inserted-eq-mem l bs is o b ∙ m in
      (rw (e, (o.insts_linked b).first_eq), rw (e, (o.insts_linked b).last_eq))

  pub block_neighbours :
      (pre post : List ℕ) (b : ℕ)
      → bs ≡ pre ++ b ∷ post
      → (prev_block_of l b ≡ some (last_or none pre))
        × (next_block_of l b ≡ some (head_or none post))
  unfolding prev_block_of next_block_of
  block_neighbours pre post b e =
      let here : mem b bs ≡ true = rw e (mem-middle pre post b) in
      let m = is_block_inserted-eq-mem l bs is o b ∙ here in
      let (p, n) = links_at _ _ l.entry_block l.last_block pre post b (rw e at o.blocks_linked) in
      (rw (m, p), rw (m, n))

  pub inst_neighbours :
      (b : ℕ) (pre post : List ℕ) (i : ℕ)
      → is b ≡ pre ++ i ∷ post
      → (prev_inst_of l i ≡ some (last_or none pre))
        × (next_inst_of l i ≡ some (head_or none post))
        × (inst_block l i ≡ some b)
  unfolding prev_inst_of next_inst_of inst_block
  inst_neighbours b pre post i e =
      let here : mem i (is b) ≡ true = rw e (mem-middle pre post i) in
      let m = is_inst_inserted-mem l bs is o i b here in
      let (p, n) =
        links_at _ _ (l.blocks b).first_inst (l.blocks b).last_inst pre post i
          (rw e at (o.insts_linked b)) in
      (rw (m, p), rw (m, n), rw m (o.owned i b here))

  abbrev bottom_of : Option ℕ → CursorLocation
  bottom_of none = CursorLocation.no_where
  bottom_of (some b) = CursorLocation.block_bottom b

  abbrev bottom_of_last : CursorLocation
  bottom_of_last = bottom_of (last_or none bs)

  -- The next location leads back to this one, unless there is none.
  abbrev Returns : CursorLocation → Type 0
  Returns loc =
      (after : CursorLocation) × (next_loc loc l ≡ some after)
      × (((after ≡ CursorLocation.no_where) × (loc ≡ bottom_of_last))
          ⊎ (prev_loc after l ≡ some loc))

  from_inst :
      (b : ℕ) (pre post : List ℕ) (i : ℕ)
      → mem b bs ≡ true
      → is b ≡ pre ++ i ∷ post
      → Returns (CursorLocation.at i)
  unfolding next_loc prev_loc
  from_inst b pre [] i m e =
      let (p, n, own) = inst_neighbours b pre [] i e in
      let last : last_or none (is b) ≡ some i =
        ap (last_or none) e ∙ last_or-append none pre (i ∷ []) in
      (CursorLocation.block_bottom b, rw (n, own), inr (rw ((block_ends b m).1, last)))
  from_inst b pre (j ∷ post) i m e =
      let (p, n, own) = inst_neighbours b pre (j ∷ post) i e in
      let (p', _, _) =
        inst_neighbours b (pre ++ i ∷ []) post j (e ∙ sym (append_assoc pre (i ∷ []) (j ∷ post))) in
      (CursorLocation.at j, rw n, inr (rw (p', last_or-append none pre (i ∷ []))))

  from_top :
      (b : ℕ) (xs : List ℕ) → mem b bs ≡ true → is b ≡ xs → Returns (CursorLocation.block_top b)
  unfolding next_loc prev_loc
  from_top b [] m e =
      let (first, last) = block_ends b m in
      (CursorLocation.block_bottom b, rw (first, e), inr (rw (last, e)))
  from_top b (i ∷ xs) m e =
      let (first, _) = block_ends b m in
      let (p, _, own) = inst_neighbours b [] xs i e in
      (CursorLocation.at i, rw (first, e), inr (rw (p, own)))

  from_bottom :
      (pre post : List ℕ) (b : ℕ) → bs ≡ pre ++ b ∷ post → Returns (CursorLocation.block_bottom b)
  unfolding next_loc prev_loc
  from_bottom pre [] b e =
      let (_, n) = block_neighbours pre [] b e in
      let end : CursorLocation.block_bottom b ≡ bottom_of_last = sym (
        ap (λ (xs : List ℕ). bottom_of (last_or none xs)) e
        ∙ ap bottom_of (last_or-append none pre (b ∷ []))) in
      (CursorLocation.no_where, rw n, inl (refl, end))
  from_bottom pre (c ∷ post) b e =
      let (_, n) = block_neighbours pre (c ∷ post) b e in
      let (p, _) =
        block_neighbours (pre ++ b ∷ []) post c (e ∙ sym (append_assoc pre (b ∷ []) (c ∷ post))) in
      (CursorLocation.block_top c, rw n, inr (rw (p, last_or-append none pre (b ∷ []))))

  -- A location at an instruction, or at an end, of a block of the order.
  abbrev pub Lies : CursorLocation → Type 0
  Lies (CursorLocation.at i) = (b : ℕ) × (mem b bs ≡ true) × (mem i (is b) ≡ true)
  Lies (CursorLocation.block_top b) = mem b bs ≡ true
  Lies (CursorLocation.block_bottom b) = mem b bs ≡ true
  Lies CursorLocation.no_where = ⊥

  -- In a layout with an order, from every location in the order `next_loc` succeeds, and `prev_loc`
  -- leads back from where it goes, which fails only at the bottom of the last block.
  pub prev_loc-next_loc :
      (loc : CursorLocation)
      → Lies loc
      → (after : CursorLocation) × (next_loc loc l ≡ some after)
        × (((after ≡ CursorLocation.no_where) × (loc ≡ bottom_of_last))
            ⊎ (prev_loc after l ≡ some loc))
  prev_loc-next_loc (CursorLocation.at i) (b, m, m') =
      let (pre, post, e) = mem-split i (is b) m' in from_inst b pre post i m e
  prev_loc-next_loc (CursorLocation.block_top b) m = from_top b (is b) m refl
  prev_loc-next_loc (CursorLocation.block_bottom b) m =
      let (pre, post, e) = mem-split b bs m in from_bottom pre post b e
  prev_loc-next_loc CursorLocation.no_where m = absurd m
