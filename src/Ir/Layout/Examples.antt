-- ===== src/Ir/Layout/Examples.antt =====
-- Small runs of the layout of crates/ir/src/layout.rs.
use sonatina.Base.{ℕ, ◌≡◌, refl, true, false, none, some, List, [], ◌∷◌, ◌==◌, if◌then◌else◌, arith}
use sonatina.Ir.Layout
use sonatina.Ir.Layout.{
  Layout, new_layout, default_block, default_inst, is_last_block, is_block_empty, is_first_inst,
  is_block_inserted, first_inst_of, inst_block, is_inst_inserted, is_none, is_some_of,
}
use sonatina.Ir.Layout.Blocks.{insert_block_before, insert_block_after, remove_block, iter_block}
use sonatina.Ir.Layout.Blocks.Refines.{Gives, insert_block_lem, remove_block_lem}
use sonatina.Ir.Layout.Insts.{
  append_inst, prepend_inst, insert_inst_before, insert_inst_after, remove_inst, iter_inst,
}
use sonatina.Ir.Layout.Insts.Links.{with_insts}
use sonatina.Ir.Layout.Insts.Refines.{append-prepend_inst, insert_inst_lem, remove_inst_lem}
use sonatina.Ir.Layout.Iter.{iter_lem}
use sonatina.Ir.Layout.Linked.{IsLinked}
use sonatina.Ir.Layout.Order.{IsOrder}

-- The blocks 1 and 2, and in block 1 the instructions 7 and 8.
abbrev pub sample : Layout
sample = record {
  blocks = λ b.
      if b == 1
      then record { prev = none; next = some 2; first_inst = some 7; last_inst = some 8 }
      else if b == 2
      then record default_block { prev = some 1 }
      else default_block;
  insts = λ i.
      if i == 7
      then record { block = some 1; prev = none; next = some 8 }
      else if i == 8
      then record { block = some 1; prev = some 7; next = none }
      else default_inst;
  entry_block = some 1;
  last_block = some 2;
}

abbrev pub sample_insts : ℕ → List ℕ
sample_insts b = if b == 1 then 7 ∷ 8 ∷ [] else []

sample_links :
    (b : ℕ)
    → IsLinked
        (λ i. (sample.insts i).prev)
        (λ i. (sample.insts i).next)
        (sample.blocks b).first_inst
        (sample.blocks b).last_inst
        (sample_insts b)
sample_links b = record {
  first_eq = ground arith;
  last_eq = ground arith;
  chain = ground arith;
  distinct = ground arith;
}

pub sample-IsOrder : IsOrder sample (1 ∷ 2 ∷ []) sample_insts
sample-IsOrder = record {
  blocks_linked = record {
    first_eq = refl;
    last_eq = refl;
    chain = ((refl, refl, (refl, refl, tt)));
    distinct = (refl, (refl, tt));
  };
  insts_linked = sample_links;
  owned = λ i b m. ground arith;
  outside_block = λ b m. ground arith;
  outside_inst = λ i m. let here = m 1 in ground arith;
}

insert_block_example :
    Gives (insert_block_before 3 2 sample) (1 ∷ 3 ∷ 2 ∷ []) sample_insts
    × Gives (insert_block_after 3 2 sample) (1 ∷ 2 ∷ 3 ∷ []) sample_insts
insert_block_example = insert_block_lem sample sample_insts (1 ∷ []) [] 3 2 sample-IsOrder refl

remove_block_example : Gives (remove_block 2 sample) (1 ∷ []) sample_insts
remove_block_example = remove_block_lem sample sample_insts (1 ∷ []) [] 2 sample-IsOrder refl

append-prepend_inst_example :
    Gives (append_inst 9 1 sample) (1 ∷ 2 ∷ []) (with_insts sample_insts 1 (7 ∷ 8 ∷ 9 ∷ []))
    × Gives (prepend_inst 9 1 sample) (1 ∷ 2 ∷ []) (with_insts sample_insts 1 (9 ∷ 7 ∷ 8 ∷ []))
append-prepend_inst_example =
    append-prepend_inst sample (1 ∷ 2 ∷ []) sample_insts sample-IsOrder 1 refl 9 (λ c. ground arith)

insert_inst_example :
    Gives (insert_inst_before 9 8 sample) (1 ∷ 2 ∷ []) (with_insts sample_insts 1 (7 ∷ 9 ∷ 8 ∷ []))
    × Gives (insert_inst_after 9 8 sample) (1 ∷ 2 ∷ []) (with_insts sample_insts 1 (7 ∷ 8 ∷ 9 ∷ []))
insert_inst_example =
    insert_inst_lem sample (1 ∷ 2 ∷ []) sample_insts sample-IsOrder 1 refl 9 (7 ∷ []) [] 8 refl
      (λ c. ground arith)

remove_inst_example : Gives (remove_inst 7 sample) (1 ∷ 2 ∷ []) (with_insts sample_insts 1 (8 ∷ []))
remove_inst_example =
    remove_inst_lem sample (1 ∷ 2 ∷ []) sample_insts sample-IsOrder 1 refl 7 [] (8 ∷ []) refl

iter_example :
    (iter_block 2 sample ≡ some (1 ∷ 2 ∷ [])) × (iter_inst 2 sample 1 ≡ some (7 ∷ 8 ∷ []))
iter_example =
    iter_lem sample (1 ∷ 2 ∷ []) sample_insts 1 2 sample-IsOrder refl (omega arith) (omega arith)

new_layout_test :
    ((b : ℕ) → is_block_inserted new_layout b ≡ false)
    × ((i : ℕ) → is_inst_inserted new_layout i ≡ false)
unfolding new_layout is_block_inserted Layout.is_default_block is_inst_inserted
    Layout.is_default_inst
new_layout_test = (λ b. refl, λ i. refl)

queries_test :
    (is_last_block sample 2 ≡ true)
    × (is_block_empty sample 2 ≡ some true)
    × (is_block_empty sample 3 ≡ none)
    × (is_first_inst sample 7 ≡ some true)
    × (is_first_inst sample 8 ≡ some false)
unfolding is_last_block is_block_empty first_inst_of is_first_inst inst_block is_block_inserted
    Layout.is_default_block is_inst_inserted Layout.is_default_inst
queries_test = (refl, refl, refl, refl, refl)
