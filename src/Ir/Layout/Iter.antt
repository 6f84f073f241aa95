-- ===== src/Ir/Layout/Iter.antt =====
-- crates/ir/src/layout.rs: the iterators end, and visit the blocks and the instructions in order.
use sonatina.Base.{
  ℕ, zero, suc, ◌≤◌, ◌≡◌, refl, ap, Option, none, some, List, [], ◌∷◌, arith, length, true, ◌∙◌,
}
use sonatina.Ir.Layout.{Layout}
use sonatina.Ir.Layout.Blocks.{iter_block, iter_block_from}
use sonatina.Ir.Layout.Chain.{mem, head_or, Seg}
use sonatina.Ir.Layout.Insts.{iter_inst, iter_inst_from}
use sonatina.Ir.Layout.Order.{IsOrder, is_block_inserted-eq-mem}

module _ (l : Layout) where
  blocks_from :
      (p : Option ℕ) (xs : List ℕ) (fuel : ℕ)
      → length xs ≤ fuel
      → Seg (λ b. (l.blocks b).prev) (λ b. (l.blocks b).next) p xs none
      → iter_block_from fuel l (head_or none xs) ≡ some xs
  unfolding iter_block_from
  blocks_from p [] fuel h s = refl
  blocks_from p (x ∷ xs) zero h s = absurd (omega arith)
  blocks_from p (x ∷ xs) (suc fuel) h s = rw (s.1, blocks_from (some x) xs fuel (omega arith) s.2)

  insts_from :
      (p : Option ℕ) (xs : List ℕ) (fuel : ℕ)
      → length xs ≤ fuel
      → Seg (λ i. (l.insts i).prev) (λ i. (l.insts i).next) p xs none
      → iter_inst_from fuel l (head_or none xs) ≡ some xs
  unfolding iter_inst_from
  insts_from p [] fuel h s = refl
  insts_from p (x ∷ xs) zero h s = absurd (omega arith)
  insts_from p (x ∷ xs) (suc fuel) h s = rw (s.1, insts_from (some x) xs fuel (omega arith) s.2)

  pub iter_block-bs :
      (bs : List ℕ) (is : ℕ → List ℕ) (fuel : ℕ)
      → IsOrder l bs is
      → length bs ≤ fuel
      → iter_block fuel l ≡ some bs
  unfolding iter_block
  iter_block-bs bs is fuel o enough =
      ap (iter_block_from fuel l) o.blocks_linked.first_eq
      ∙ blocks_from none bs fuel enough o.blocks_linked.chain

  -- In a layout with an order, both iterators end within as many steps as there are items, and give
  -- the blocks in their order, and the instructions of a block of the order in theirs.
  pub iter_lem :
      (bs : List ℕ) (is : ℕ → List ℕ) (b fuel : ℕ)
      → IsOrder l bs is
      → mem b bs ≡ true
      → length bs ≤ fuel
      → length (is b) ≤ fuel
      → (iter_block fuel l ≡ some bs) × (iter_inst fuel l b ≡ some (is b))
  unfolding iter_inst
  iter_lem bs is b fuel o inserted enough enough' = (
    iter_block-bs bs is fuel o enough,
    rw (is_block_inserted-eq-mem l bs is o b, inserted, (o.insts_linked b).first_eq)
        (insts_from none (is b) fuel enough' (o.insts_linked b).chain),
  )
