-- ===== src/Liveness/Examples.antt =====
-- Small runs of the liveness of crates/codegen/src/liveness.rs.
use sonatina.Base.{
  ℕ, ◌≤◌, ◌≡◌, length, refl, Bool, true, false, ◌&&◌, ◌||◌, Option, none, some, List, [], ◌∷◌, ◌==◌,
  arith, mem, if◌then◌else◌, Bool-cases, inl, inr, ◌↔◌,
}
use sonatina.BitSets.Lists.{lists, lists-IsBitSet}
use sonatina.Ir.Cfg.{
  ControlFlowGraph, preds_of, succs_of, post_order, post_order_from, visit, push_unvisited,
  new_post_order,
}
use sonatina.Ir.Cfg.PostOrders.{IsPostOrder, order_of}
use sonatina.Ir.Cfg.Visits.{Reaches}
use sonatina.Ir.Layout.{is_block_inserted, is_default_block}
use sonatina.Ir.Layout.Blocks.{iter_block, iter_block_from}
use sonatina.Ir.Layout.Examples.{sample, sample_insts, sample-IsOrder}
use sonatina.Ir.Layout.Insts.{iter_inst, iter_inst_from}
use sonatina.Liveness
use sonatina.Liveness.{Dfg, ValDef, compute, new_liveness, uses_of, defs_of, set_args, set_defs}
use sonatina.Liveness.Compute.{uses_of_blocks, defs_of_blocks}
use sonatina.Liveness.Exact.{compute_liveness}
use sonatina.Liveness.Marks.{ins, outs, blocks}
use sonatina.Liveness.Paths.{LiveIn, LiveOut, Wanted}

-- The blocks 1 and 2 lead to each other.
abbrev loop : ControlFlowGraph
loop = record {
  entry = some 1;
  blocks = λ b.
      if b == 1
      then record { preds = 2 ∷ []; succs = 2 ∷ [] }
      else if b == 2
      then record { preds = 1 ∷ []; succs = 1 ∷ [] }
      else record { preds = []; succs = [] };
  exits = [];
}

-- In block 1, the phi 7 makes the value 9 of the value 10 that comes from block 2, and the instruction
-- 8 makes 10 of 9.
abbrev dfg : Dfg
dfg = record {
  cast_phi = λ i. if i == 7 then some ((10, 2) ∷ []) else none;
  values = λ i. if i == 7 then 10 ∷ [] else 9 ∷ [];
  inst_result = λ i. if i == 7 then some 9 else some 10;
  is_phi = λ i. i == 7;
  is_call = λ i. i == 8;
  value_is_imm = λ v. false;
}

used : ℕ → ℕ → Bool
used v b = uses_of_blocks dfg sample_insts (2 ∷ 1 ∷ []) v b

used_lem : (v b : ℕ) → used v b ≡ (((v == 10) && (b == 2)) || ((v == 9) && (b == 1)))
unfolding used uses_of
used_lem v b = ground arith

known :
    (v b : ℕ)
    → uses_of_blocks dfg sample_insts (2 ∷ 1 ∷ []) v b ≡ true
    → dfg.value_is_imm v ≡ false
    → ((def : ValDef) × (defs_of_blocks dfg sample_insts (2 ∷ 1 ∷ []) (set_args [] (λ _. none)) v
          ≡ some def))
      × (mem b (1 ∷ 2 ∷ []) ≡ true)
unfolding used defs_of set_defs set_args
known v b m n = elim (Bool-cases (v == 10)) [
  | inl ten ↦ ((ValDef.normal 1, ground arith), ground (arith, used_lem v b))
  | inr other ↦ ((ValDef.phi 1, ground (arith, used_lem v b)), ground (arith, used_lem v b))
]

closed :
    (b p : ℕ)
    → mem b (1 ∷ 2 ∷ []) ≡ true
    → mem p (preds_of loop b) ≡ true
    → mem p (1 ∷ 2 ∷ []) ≡ true
unfolding preds_of
closed b p m q = ground arith

reached_in_loop : (v : ℕ) → Reaches loop 1 v → mem v (1 ∷ 2 ∷ []) ≡ true
unfolding succs_of
reached_in_loop v Reaches.here = refl
reached_in_loop v (Reaches.next {b} r l) = let m = reached_in_loop b r in ground arith

short : (c : ℕ) → mem c (1 ∷ 2 ∷ []) ≡ true → length (sample_insts c) ≤ 6
short c m = ground arith

compute_liveness_example :
    (t : Liveness.Liveness (List ℕ)) × (compute lists 6 dfg sample loop [] (new_liveness lists)
      ≡ some t)
    × IsPostOrder loop 1 (2 ∷ 1 ∷ [])
    × ((v b : ℕ) (def : ValDef)
        → dfg.value_is_imm v ≡ false
        → defs_of_blocks dfg sample_insts (2 ∷ 1 ∷ []) (set_args [] (λ _. none)) v ≡ some def
        → ((ins lists t v b ≡ true)
            ↔ LiveIn loop def (uses_of_blocks dfg sample_insts (2 ∷ 1 ∷ []) v) b)
          × ((outs lists t v b ≡ true)
              ↔ LiveOut loop def (uses_of_blocks dfg sample_insts (2 ∷ 1 ∷ []) v) b)
          × ((blocks lists t v b ≡ true)
              ↔ Wanted loop def (uses_of_blocks dfg sample_insts (2 ∷ 1 ∷ []) v) b))
unfolding order_of post_order post_order_from visit push_unvisited new_post_order succs_of
compute_liveness_example =
    compute_liveness dfg sample (1 ∷ 2 ∷ []) sample_insts sample-IsOrder lists lists-IsBitSet loop 1
      [] 6 (new_liveness lists) refl reached_in_loop (omega arith) short closed known

-- With too little fuel, there is none.
fuel_test : compute lists 3 dfg sample loop [] (new_liveness lists) ≡ none
unfolding compute post_order post_order_from visit push_unvisited new_post_order succs_of
fuel_test = refl

-- A set that was computed, or an odd one if there is none.
abbrev set_or : {A : Type 0} → Option A → (A → List ℕ) → List ℕ
set_or none f = 99 ∷ []
set_or (some a) f = f a

compute_test :
    (set_or (compute lists 6 dfg sample loop [] (new_liveness lists)) (λ t. t.live_ins 2) ≡ 10 ∷ [])
    × (set_or (compute lists 6 dfg sample loop [] (new_liveness lists)) (λ t. t.live_outs 1)
        ≡ 10 ∷ [])
    × (set_or (compute lists 6 dfg sample loop [] (new_liveness lists)) (λ t. t.live_ins 1)
        ≡ 9 ∷ [])
unfolding compute Liveness.clear new_liveness set_args Liveness.define_blocks Liveness.for_each_def
    defs_of set_defs Liveness.visit_blocks Liveness.for_each_use uses_of Liveness.visit_uses
    Liveness.visit_use Liveness.mark_use Liveness.up_and_mark Liveness.mark_preds preds_of succs_of
    post_order post_order_from visit push_unvisited new_post_order iter_inst iter_inst_from
    is_block_inserted is_default_block
compute_test = (refl, refl, refl)

-- A second run counts the uses of the first one again.
clear_test :
    (Liveness.clear lists (Liveness.mark_use lists 10 2 (new_liveness lists))).val_use_count 10 ≡ 1
unfolding Liveness.clear Liveness.mark_use new_liveness
clear_test = refl

inst_liveness_test :
    (set_or
        (Liveness.inst_liveness lists 6 dfg sample loop
          (record (new_liveness lists) { live_outs = λ b. if b == 1 then 10 ∷ [] else [] }))
        (λ out. out 8)
      ≡ 10 ∷ [])
    × (set_or
          (Liveness.inst_liveness lists 6 dfg sample loop
            (record (new_liveness lists) { live_outs = λ b. if b == 1 then 10 ∷ [] else [] }))
          (λ out. out 7)
        ≡ 9 ∷ [])
unfolding Liveness.inst_liveness Liveness.inst_liveness_from Liveness.walk_back Liveness.step_back
    Liveness.add_values new_liveness preds_of succs_of post_order post_order_from visit
    push_unvisited new_post_order iter_inst iter_inst_from is_block_inserted is_default_block
inst_liveness_test = (refl, refl)

-- The result of the call 8 is taken off, also where it is live after another call.
call_live_values_test :
    (set_or (Liveness.call_live_values lists 6 dfg sample (λ i. 9 ∷ 10 ∷ [])) (λ s. s) ≡ 9 ∷ [])
    × (set_or
          (Liveness.call_live_values lists 6
            (record dfg { is_call = λ i. true })
            sample
            (λ i. 10 ∷ []))
          (λ s. s)
        ≡ [])
unfolding Liveness.call_live_values Liveness.call_live_values_from Liveness.add_calls
    Liveness.add_call iter_block iter_block_from iter_inst iter_inst_from is_block_inserted
    is_default_block
call_live_values_test = (refl, refl)
