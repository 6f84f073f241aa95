-- ===== src/Ir/Layout/Cursor/Examples.antt =====
-- Small runs of the cursor of crates/ir/src/func_cursor.rs.
use sonatina.Base.{suc, ◌≡◌, refl, none, some, [], ◌∷◌, arith, ◌⊎◌}
use sonatina.Ir.Layout
use sonatina.Ir.Layout.{Layout}
use sonatina.Ir.Layout.Blocks
use sonatina.Ir.Layout.Cursor
use sonatina.Ir.Layout.Cursor.{CursorLocation}
use sonatina.Ir.Layout.Cursor.Moves.{prev_loc-next_loc}
use sonatina.Ir.Layout.Cursor.Removal.{cursor_remove_block}
use sonatina.Ir.Layout.Examples.{sample, sample_insts, sample-IsOrder}
use sonatina.Ir.Layout.Insts
use sonatina.Ir.Layout.Insts.Links.{with_insts}
use sonatina.Ir.Layout.Order.{IsOrder}

prev_loc-next_loc_example :
    (after : CursorLocation) × (Cursor.next_loc (CursorLocation.at 8) sample ≡ some after)
    × (((after ≡ CursorLocation.no_where) × (CursorLocation.at 8 ≡ CursorLocation.block_bottom 2))
        ⊎ (Cursor.prev_loc after sample ≡ some (CursorLocation.at 8)))
prev_loc-next_loc_example =
    prev_loc-next_loc sample (1 ∷ 2 ∷ []) sample_insts sample-IsOrder (CursorLocation.at 8)
      (1, refl, refl)

-- The instructions that were untracked are counted.
cursor_remove_block_example :
    (l' : Layout) × (Cursor.remove_block (λ i n. some (suc n)) 3 (CursorLocation.at 8) sample 0
      ≡ some (CursorLocation.block_top 2, l', 2))
    × IsOrder l' (2 ∷ []) (with_insts sample_insts 1 [])
unfolding Cursor.expect_block Cursor.block Layout.inst_block Layout.is_inst_inserted
    Layout.is_default_inst
cursor_remove_block_example =
    cursor_remove_block (λ i n. some (suc n)) [] (2 ∷ []) 1 3 (CursorLocation.at 8) sample
      sample_insts 0 2 sample-IsOrder refl (omega arith) refl

-- The changes at a cursor are those of the layout.
insertions_test :
    (l : Layout)
    → (Cursor.insert_inst (CursorLocation.at 8) 9 l ≡ Insts.insert_inst_after 9 8 l)
      × (Cursor.append_inst (CursorLocation.block_top 2) 9 l ≡ Insts.append_inst 9 2 l)
      × (Cursor.prepend_inst (CursorLocation.block_bottom 2) 9 l ≡ Insts.prepend_inst 9 2 l)
      × (Cursor.insert_block (CursorLocation.block_top 2) 3 l ≡ Blocks.insert_block_after 3 2 l)
      × (Cursor.insert_block_before (CursorLocation.block_top 2) 3 l
          ≡ Blocks.insert_block_before 3 2 l)
      × (Cursor.append_inst CursorLocation.no_where 9 l ≡ none)
unfolding Cursor.insert_inst Cursor.append_inst Cursor.prepend_inst Cursor.insert_block
    Cursor.insert_block_before Cursor.expect_block Cursor.block
insertions_test l = (refl, refl, refl, refl, refl, refl)

blocks_test :
    (Cursor.set_to_entry sample ≡ CursorLocation.block_top 1)
    × (Cursor.next_block (CursorLocation.at 8) sample ≡ some (some 2))
    × (Cursor.prev_block (CursorLocation.block_top 2) sample ≡ some (some 1))
    × (Cursor.proceed_block (CursorLocation.at 8) sample ≡ some (CursorLocation.block_top 2))
    × (Cursor.proceed_block (CursorLocation.block_top 2) sample ≡ some CursorLocation.no_where)
unfolding Cursor.set_to_entry Cursor.next_block Cursor.prev_block Cursor.proceed_block Cursor.block
    Layout.next_block_of Layout.prev_block_of Layout.inst_block Layout.is_block_inserted
    Layout.is_default_block Layout.is_inst_inserted Layout.is_default_inst
blocks_test = (refl, refl, refl, refl, refl)
