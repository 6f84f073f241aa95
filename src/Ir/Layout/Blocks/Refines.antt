-- ===== src/Ir/Layout/Blocks/Refines.antt =====
-- crates/ir/src/layout.rs: the block operations act on the order of the blocks as on a list.
use sonatina.Base.{
  ℕ, ◌≡◌, refl, ◌∙◌, true, false, Option, none, some, List, [], ◌∷◌, ◌++◌, arith, append-nil,
  append_assoc,
}
use sonatina.Ir.Layout.{update, default_block, Layout}
use sonatina.Ir.Layout.Blocks.{
  append_block, insert_block_before, insert_block_after, remove_block, put_block, set_block_prev,
  set_block_next, link_next, link_prev,
}
use sonatina.Ir.Layout.Blocks.Links.{
  link_next-blocks, link_prev-blocks, link_next-rest, link_prev-rest, IsOrder-insert,
  IsOrder-remove,
}
use sonatina.Ir.Layout.Chain.{mem, mem-append, last_or, last_or-append}
use sonatina.Ir.Layout.Linked.{links_at}
use sonatina.Ir.Layout.Order.{IsOrder, is_block_inserted-eq-mem}

-- The operation succeeds, and its result has the given order.
abbrev pub Gives : Option Layout → List ℕ → (ℕ → List ℕ) → Type 0
Gives o bs is = (l : Layout) × (o ≡ some l) × IsOrder l bs is

pub mem-middle : (pre post : List ℕ) (b : ℕ) → mem b (pre ++ b ∷ post) ≡ true
mem-middle pre post b = ground (arith, mem-append b pre (b ∷ post))

module _ (l : Layout) (is : ℕ → List ℕ) where
  -- A new block that is appended stands last.
  pub append_block_lem :
      (bs : List ℕ) (b : ℕ)
      → IsOrder l bs is
      → mem b bs ≡ false
      → Gives (append_block b l) (bs ++ b ∷ []) is
  unfolding append_block
  append_block_lem bs b o new =
      let end = o.blocks_linked.last_eq in
      let rest = link_next-rest l.last_block (some b) l in
      let ordered : IsOrder l (bs ++ []) is = rw append-nil o in
      let l' = record (put_block b l.last_block none (link_next l.last_block (some b) l)) {
        last_block = some b;
      } in
      (
        l',
        rw (is_block_inserted-eq-mem l bs is o b, new),
        IsOrder-insert l l' bs [] b is rest.0 ordered (rw append-nil new)
            (λ k. ground (arith, link_next-blocks l.last_block (some b) l k)) (rest.1 ∙ rw end)
            refl,
      )

  inserted_before :
      (pre post : List ℕ) (b at : ℕ)
      → IsOrder l (pre ++ at ∷ post) is
      → mem b (pre ++ at ∷ post) ≡ false
      → Gives (insert_block_before b at l) (pre ++ b ∷ at ∷ post) is
  unfolding insert_block_before
  inserted_before pre post b at o new =
      let prev = (l.blocks at).prev in
      let (before, _) = links_at _ _ l.entry_block l.last_block pre post at o.blocks_linked in
      let rest = link_next-rest prev (some b) l in
      let l' =
        put_block b prev (some at) (set_block_prev at (some b) (link_next prev (some b) l)) in
      (
        l',
        rw (
          is_block_inserted-eq-mem l (pre ++ at ∷ post) is o b,
          new,
          is_block_inserted-eq-mem l (pre ++ at ∷ post) is o at,
          mem-middle pre post at,
        ),
        IsOrder-insert l l' pre (at ∷ post) b is rest.0 o new
            (λ k. ground (
              arith,
              before,
              link_next-blocks prev (some b) l k,
              link_next-blocks prev (some b) l at,
            ))
            (rest.1 ∙ rw before) rest.2,
      )

  inserted_after :
      (pre post : List ℕ) (b at : ℕ)
      → IsOrder l (pre ++ at ∷ post) is
      → mem b (pre ++ at ∷ post) ≡ false
      → Gives (insert_block_after b at l) (pre ++ at ∷ b ∷ post) is
  unfolding insert_block_after
  inserted_after pre post b at o new =
      let next = (l.blocks at).next in
      let (_, after) = links_at _ _ l.entry_block l.last_block pre post at o.blocks_linked in
      let rest = link_prev-rest next (some b) l in
      let l' =
        put_block b (some at) next (set_block_next at (some b) (link_prev next (some b) l)) in
      let place : last_or none (pre ++ at ∷ []) ≡ some at = last_or-append none pre (at ∷ []) in
      (
        l',
        rw (
          is_block_inserted-eq-mem l (pre ++ at ∷ post) is o b,
          new,
          is_block_inserted-eq-mem l (pre ++ at ∷ post) is o at,
          mem-middle pre post at,
        ),
        rw (← append_assoc pre (at ∷ []) (b ∷ post)) (
            IsOrder-insert l l' (pre ++ at ∷ []) post b is rest.0
              (rw (append_assoc pre (at ∷ []) post) o) (rw (append_assoc pre (at ∷ []) post) new)
              (λ k. ground (
                arith,
                after,
                place,
                link_prev-blocks next (some b) l k,
                link_prev-blocks next (some b) l at,
              ))
              (rest.1 ∙ rw place) (rest.2 ∙ rw after)),
      )

  -- A new block is put before or after one that is in the order.
  pub insert_block_lem :
      (pre post : List ℕ) (b at : ℕ)
      → IsOrder l (pre ++ at ∷ post) is
      → mem b (pre ++ at ∷ post) ≡ false
      → Gives (insert_block_before b at l) (pre ++ b ∷ at ∷ post) is
        × Gives (insert_block_after b at l) (pre ++ at ∷ b ∷ post) is
  insert_block_lem pre post b at o new =
      (inserted_before pre post b at o new, inserted_after pre post b at o new)

  -- A block without instructions that is removed leaves the others in their order.
  pub remove_block_lem :
      (pre post : List ℕ) (b : ℕ)
      → IsOrder l (pre ++ b ∷ post) is
      → is b ≡ []
      → Gives (remove_block b l) (pre ++ post) is
  unfolding remove_block
  remove_block_lem pre post b o empty =
      let prev = (l.blocks b).prev in
      let next = (l.blocks b).next in
      let (before, after) = links_at _ _ l.entry_block l.last_block pre post b o.blocks_linked in
      let mid = link_next prev next l in
      let rest = link_next-rest prev next l in
      let rest' = link_prev-rest next prev mid in
      let linked = link_prev next prev mid in
      let l' = record linked { blocks = update linked.blocks b default_block } in
      (
        l',
        rw (is_block_inserted-eq-mem l (pre ++ b ∷ post) is o b, mem-middle pre post b),
        IsOrder-remove l l' pre post b is (rest'.0 ∙ rest.0) o empty
            (λ k. ground (
              arith,
              before,
              after,
              link_prev-blocks next prev mid k,
              link_next-blocks prev next l k,
            ))
            (rest'.1 ∙ rest.1 ∙ rw (before, after)) (rest'.2 ∙ rw (rest.2, before, after)),
      )
