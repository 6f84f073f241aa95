-- ===== src/Ir/Layout/Order.antt =====
-- layout.rs: what a layout stands for, the order of its blocks and of the instructions of each.
use sonatina.Base.{
  ℕ, ◌≡◌, refl, sym, ap, ◌∙◌, true, false, Option, none, some, List, [], ◌∷◌, ◌++◌, arith, ◌==◌,
  Bool-cases, inl, inr, ==_iff,
}
use sonatina.Ir.Layout.{
  is_default_block, is_default_inst, Layout, default_block, default_inst, is_block_inserted,
  is_inst_inserted, is_none, is_some_of,
}
use sonatina.Ir.Layout.Chain.{holds, mem, head_or, last_or}
use sonatina.Ir.Layout.Linked.{IsLinked, links_at, not-mem-holds_head}

-- The blocks stand in the order `bs`, and the instructions of a block `b` in the order `is b`.
pub record IsOrder (l : Layout) (bs : List ℕ) (is : ℕ → List ℕ) : Type 0 where
  pub blocks_linked :
      IsLinked (λ b. (l.blocks b).prev) (λ b. (l.blocks b).next) l.entry_block l.last_block bs
  pub insts_linked :
      (b : ℕ)
      → IsLinked
          (λ i. (l.insts i).prev)
          (λ i. (l.insts i).next)
          (l.blocks b).first_inst
          (l.blocks b).last_inst
          (is b)
  pub owned : (i b : ℕ) → mem i (is b) ≡ true → (l.insts i).block ≡ some b
  pub outside_block : (b : ℕ) → mem b bs ≡ false → l.blocks b ≡ default_block
  pub outside_inst : (i : ℕ) → ((b : ℕ) → mem i (is b) ≡ false) → l.insts i ≡ default_inst

-- A list that holds an item is split there.
pub mem-split :
    (a : ℕ) (xs : List ℕ)
    → mem a xs ≡ true
    → (pre : List ℕ) × (post : List ℕ) × (xs ≡ pre ++ a ∷ post)
mem-split a [] m = absurd (cc)
mem-split a (x ∷ xs) m = elim (Bool-cases (a == x)) [
  | inl here ↦ ([], xs, ap (λ (y : ℕ). y ∷ xs) (sym ((==_iff a x).0 here)))
  | inr later ↦
      let (pre, post, e) = mem-split a xs (rw later at m) in
      (x ∷ pre, post, ap (λ (ys : List ℕ). x ∷ ys) e)
]

pub last_or-is_some : (x : ℕ) (xs : List ℕ) → is_none (last_or (some x) xs) ≡ false
last_or-is_some x [] = refl
last_or-is_some x (y ∷ ys) = last_or-is_some y ys

holds-is_some_of : (o : Option ℕ) (b : ℕ) → is_some_of b o ≡ holds o b
holds-is_some_of none b = refl
holds-is_some_of (some c) b = refl

module _ (l : Layout) (bs : List ℕ) (is : ℕ → List ℕ) (o : IsOrder l bs is) where
  inserted-mem : (pre post : List ℕ) (b : ℕ) → bs ≡ pre ++ b ∷ post → is_block_inserted l b ≡ true
  unfolding is_block_inserted is_default_block
  inserted-mem [] post b e =
      let first : l.entry_block ≡ some b = o.blocks_linked.first_eq ∙ ap (head_or none) e in
      rw first (ground arith)
  inserted-mem (x ∷ pre) post b e =
      let linked =
        links_at (λ c. (l.blocks c).prev) (λ c. (l.blocks c).next) l.entry_block l.last_block
          (x ∷ pre) post b (rw e at o.blocks_linked) in
      let before = last_or-is_some x pre in ground (arith, linked.0)

  -- The blocks that pass the code's test are those of the order.
  pub is_block_inserted-eq-mem : (b : ℕ) → is_block_inserted l b ≡ mem b bs
  unfolding is_block_inserted is_default_block
  is_block_inserted-eq-mem b = elim (Bool-cases (mem b bs)) [
    | inl m ↦ let (pre, post, e) = mem-split b bs m in inserted-mem pre post b e ∙ sym m
    | inr m ↦
        let first : is_some_of b l.entry_block ≡ false =
          holds-is_some_of l.entry_block b
          ∙ ap (λ (x : Option ℕ). holds x b) o.blocks_linked.first_eq
          ∙ not-mem-holds_head bs b m in
        rw (first, o.outside_block b m) (sym m)
  ]

  -- So are the instructions.
  pub is_inst_inserted-mem : (i b : ℕ) → mem i (is b) ≡ true → is_inst_inserted l i ≡ true
  unfolding is_inst_inserted is_default_inst
  is_inst_inserted-mem i b m = rw (o.owned i b m)

  pub is_inst_inserted_new :
      (i : ℕ) → ((b : ℕ) → mem i (is b) ≡ false) → is_inst_inserted l i ≡ false
  unfolding is_inst_inserted is_default_inst
  is_inst_inserted_new i new = rw (o.outside_inst i new)

  -- No instruction stands in two blocks.
  pub owned_once : (k c b : ℕ) → (c == b) ≡ false → mem k (is c) ≡ true → mem k (is b) ≡ false
  owned_once k c b other m = elim (Bool-cases (mem k (is b))) [
    | inl twice ↦ let here = o.owned k c m in let there = o.owned k b twice in ground arith
    | inr once ↦ once
  ]
