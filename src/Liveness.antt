-- ===== src/Liveness.antt =====
-- crates/codegen/src/liveness.rs: the blocks and the instructions at which a value is live. A
-- `SecondaryMap` is a function, and a set of values or blocks one of BitSets.antt. Of the data flow
-- graph, the code asks for an instruction's operands and result, whether it is a phi or a call, and
-- whether a value is an immediate: `Dfg`. Recursion takes fuel; `none` is its lack, or a panic. The
-- `u32` that counts the uses of a value wraps round, as it does in a release build.
pub mod Paths
pub mod Marks
pub mod Search
pub mod Upward
pub mod Uses
pub mod Compute
pub mod Exact
mod Examples
use sonatina.Base.{
  ℕ, zero, suc, ◌+◌, ◌%◌, ◌^◌, Bool, true, false, Option, none, some, List, [], ◌∷◌, ◌++◌, ◌==◌,
  if◌then◌else◌, map, reverse, ◌>>=◌, ◌>>◌,
}
use sonatina.BitSets.{BitSetOps}
use sonatina.Ir.Cfg.{ControlFlowGraph, preds_of, post_order}
use sonatina.Ir.Layout.{Layout}
use sonatina.Ir.Layout.Blocks.{iter_block}
use sonatina.Ir.Layout.Insts.{iter_inst}

pub data ValDef : Type 0 where
  fn_arg : ValDef
  normal phi : ℕ → ValDef

-- `def == ValDef::Normal(block)` and `def == ValDef::Phi(block)`.
abbrev pub is_normal : ValDef → ℕ → Bool
is_normal (ValDef.normal b) block = b == block
is_normal _ block = false

abbrev pub is_phi_in : ValDef → ℕ → Bool
is_phi_in (ValDef.phi b) block = b == block
is_phi_in _ block = false

pub record Dfg : Type 0 where
  -- The arguments of a phi, each with the block it comes from.
  pub cast_phi : ℕ → Option (List (ℕ × ℕ))
  pub values : ℕ → List ℕ
  pub inst_result : ℕ → Option ℕ
  pub is_phi : ℕ → Bool
  pub is_call : ℕ → Bool
  pub value_is_imm : ℕ → Bool

pub record Liveness (S : Type 0) : Type 0 where
  pub live_ins : ℕ → S
  pub live_outs : ℕ → S
  pub defs : ℕ → Option ValDef
  pub val_live_blocks : ℕ → S
  pub val_use_blocks : ℕ → S
  pub val_use_count : ℕ → ℕ

abbrev pub update : {A : Type 0} → (ℕ → A) → ℕ → A → ℕ → A
update f k v i = if i == k then v else f i

-- The calls that `for_each_use` makes of its function: a value, and the block if it comes by a phi.
pub uses_of : Dfg → List ℕ → List (ℕ × Option ℕ)
uses_of dfg [] = []
uses_of dfg (inst ∷ insts) =
    elim (dfg.cast_phi inst) [
      | some args ↦ map (λ (a : ℕ × ℕ). (a.0, some a.1)) args
      | none ↦ map (λ v. (v, none)) (dfg.values inst)
    ]
    ++ uses_of dfg insts

pub defs_of : Dfg → List ℕ → List (ℕ × Bool)
defs_of dfg [] = []
defs_of dfg (inst ∷ insts) =
    elim (dfg.inst_result inst) [ some v ↦ (v, dfg.is_phi inst) ∷ [] | none ↦ [] ]
    ++ defs_of dfg insts

pub for_each_use : ℕ → Dfg → Layout → ℕ → Option (List (ℕ × Option ℕ))
unfolding uses_of
for_each_use fuel dfg l block = do insts ← iter_inst fuel l block; some (uses_of dfg insts)

pub for_each_def : ℕ → Dfg → Layout → ℕ → Option (List (ℕ × Bool))
unfolding defs_of
for_each_def fuel dfg l block = do insts ← iter_inst fuel l block; some (defs_of dfg insts)

-- `for arg in &func.arg_values { .. }`
pub set_args : List ℕ → (ℕ → Option ValDef) → ℕ → Option ValDef
set_args [] defs = defs
set_args (arg ∷ args) defs = set_args args (update defs arg (some ValDef.fn_arg))

pub set_defs : ℕ → List (ℕ × Bool) → (ℕ → Option ValDef) → ℕ → Option ValDef
set_defs block [] defs = defs
set_defs block ((v, is_phi_def) ∷ ds) defs =
    set_defs block ds
      (update defs v (some (if is_phi_def then ValDef.phi block else ValDef.normal block)))

pub define_blocks : ℕ → Dfg → Layout → List ℕ → (ℕ → Option ValDef) → Option (ℕ → Option ValDef)
unfolding for_each_def set_defs
define_blocks fuel dfg l [] defs = some defs
define_blocks fuel dfg l (block ∷ blocks) defs =
    for_each_def fuel dfg l block >>= λ ds. define_blocks fuel dfg l blocks (set_defs block ds defs)

module _ {S : Type 0} (ops : BitSetOps S) where
  pub clear : Liveness S → Liveness S
  clear s = record s {
    live_ins = λ _. ops.default;
    live_outs = λ _. ops.default;
    defs = λ _. none;
    val_live_blocks = λ _. ops.default;
  }

  pub new_liveness : Liveness S
  new_liveness = record {
    live_ins = λ _. ops.default;
    live_outs = λ _. ops.default;
    defs = λ _. none;
    val_live_blocks = λ _. ops.default;
    val_use_blocks = λ _. ops.default;
    val_use_count = λ _. 0;
  }

  pub mark_use : ℕ → ℕ → Liveness S → Liveness S
  mark_use val block s = record s {
    val_use_blocks = update s.val_use_blocks val (ops.insert (s.val_use_blocks val) block);
    val_use_count = update s.val_use_count val ((s.val_use_count val + 1) % 2 ^ 32);
  }

  abbrev pub add_live_block : ℕ → ℕ → Liveness S → Liveness S
  add_live_block val block s = record s {
    val_live_blocks = update s.val_live_blocks val (ops.insert (s.val_live_blocks val) block);
  }

  abbrev pub add_live_in : ℕ → ℕ → Liveness S → Liveness S
  add_live_in val block s = record s {
    live_ins = update s.live_ins block (ops.insert (s.live_ins block) val);
  }

  abbrev pub add_live_out : ℕ → ℕ → Liveness S → Liveness S
  add_live_out val block s = record s {
    live_outs = update s.live_outs block (ops.insert (s.live_outs block) val);
  }

  -- The loop over the predecessors, with the recursive call.
  pub mark_preds :
      (ℕ → Liveness S → Option (Liveness S)) → ℕ → List ℕ → Liveness S → Option (Liveness S)
  mark_preds up val [] s = some s
  mark_preds up val (pred ∷ preds) s =
      up pred (add_live_out val pred s) >>= λ s'. mark_preds up val preds s'

  pub up_and_mark : ℕ → ControlFlowGraph → ℕ → ℕ → Liveness S → Option (Liveness S)
  unfolding mark_preds
  up_and_mark zero cfg val block s = none
  up_and_mark (suc fuel) cfg val block s = s.defs val >>= λ def.
      let s1 = add_live_block val block s in
      let s2 = add_live_in val block s1 in
      let all = mark_preds (up_and_mark fuel cfg val) val (preds_of cfg block) s2 in
      if is_normal def block
      then some s1
      else if ops.contains (s1.live_ins block) val
      then some s1
      else if is_phi_in def block
      then some s2
      else all

  -- One call of the function that `compute` gives to `for_each_use`.
  pub visit_use : ℕ → Dfg → ControlFlowGraph → ℕ → ℕ × Option ℕ → Liveness S → Option (Liveness S)
  unfolding mark_use up_and_mark
  visit_use fuel dfg cfg block (val, source) s =
      if dfg.value_is_imm val then some (mark_use val block s) else elim source [
        | some pred ↦ up_and_mark fuel cfg val pred (mark_use val pred s)
        | none ↦ up_and_mark fuel cfg val block (mark_use val block s)
      ]

  pub visit_uses :
      ℕ → Dfg → ControlFlowGraph → ℕ → List (ℕ × Option ℕ) → Liveness S → Option (Liveness S)
  unfolding visit_use
  visit_uses fuel dfg cfg block [] s = some s
  visit_uses fuel dfg cfg block (u ∷ uses) s =
      visit_use fuel dfg cfg block u s >>= λ s'. visit_uses fuel dfg cfg block uses s'

  pub visit_blocks : ℕ → Dfg → Layout → ControlFlowGraph → List ℕ → Liveness S → Option (Liveness S)
  unfolding for_each_use visit_uses
  visit_blocks fuel dfg l cfg [] s = some s
  visit_blocks fuel dfg l cfg (block ∷ blocks) s = for_each_use fuel dfg l block >>= λ uses.
      visit_uses fuel dfg cfg block uses s >>= λ s'. visit_blocks fuel dfg l cfg blocks s'

  pub compute : ℕ → Dfg → Layout → ControlFlowGraph → List ℕ → Liveness S → Option (Liveness S)
  unfolding clear set_args define_blocks visit_blocks
  compute fuel dfg l cfg args s = do
    order ← post_order fuel cfg
    defs ← define_blocks fuel dfg l order (set_args args (clear s).defs)
    visit_blocks fuel dfg l cfg order (record (clear s) { defs = defs })

  -- `InstLiveness`: the map `live_out`.
  abbrev pub remove_result : Option ℕ → S → S
  remove_result none live = live
  remove_result (some v) live = ops.remove live v

  pub add_values : Dfg → List ℕ → S → S
  add_values dfg [] live = live
  add_values dfg (v ∷ vs) live =
      add_values dfg vs (if dfg.value_is_imm v then live else ops.insert live v)

  pub step_back : Dfg → ℕ → S → S
  unfolding add_values
  step_back dfg inst live =
      let undefined = remove_result (dfg.inst_result inst) live in
      if dfg.is_phi inst then undefined else add_values dfg (dfg.values inst) undefined

  -- The loop over the reversed instructions.
  pub walk_back : Dfg → List ℕ → S → (ℕ → S) → ℕ → S
  unfolding step_back
  walk_back dfg [] live out = out
  walk_back dfg (inst ∷ insts) live out =
      walk_back dfg insts (step_back dfg inst live) (update out inst live)

  pub inst_liveness_from : ℕ → Dfg → Layout → Liveness S → List ℕ → (ℕ → S) → Option (ℕ → S)
  unfolding walk_back
  inst_liveness_from fuel dfg l s [] out = some out
  inst_liveness_from fuel dfg l s (block ∷ blocks) out = iter_inst fuel l block >>= λ insts.
      inst_liveness_from fuel dfg l s blocks (walk_back dfg (reverse insts) (s.live_outs block) out)

  pub inst_liveness : ℕ → Dfg → Layout → ControlFlowGraph → Liveness S → Option (ℕ → S)
  unfolding inst_liveness_from
  inst_liveness fuel dfg l cfg s = do
    order ← post_order fuel cfg
    inst_liveness_from fuel dfg l s order (λ _. ops.default)

  -- What a call keeps alive, joined to a set.
  pub add_call : Dfg → (ℕ → S) → ℕ → S → S
  add_call dfg out inst live =
      if dfg.is_call inst
      then remove_result (dfg.inst_result inst) (ops.union_with live (out inst))
      else live

  pub add_calls : Dfg → (ℕ → S) → List ℕ → S → S
  unfolding add_call
  add_calls dfg out [] live = live
  add_calls dfg out (inst ∷ insts) live = add_calls dfg out insts (add_call dfg out inst live)

  pub call_live_values_from : ℕ → Dfg → Layout → (ℕ → S) → List ℕ → S → Option S
  unfolding add_calls
  call_live_values_from fuel dfg l out [] live = some live
  call_live_values_from fuel dfg l out (block ∷ blocks) live = iter_inst fuel l block >>= λ insts.
      call_live_values_from fuel dfg l out blocks (add_calls dfg out insts live)

  pub call_live_values : ℕ → Dfg → Layout → (ℕ → S) → Option S
  unfolding call_live_values_from
  call_live_values fuel dfg l out = do
    blocks ← iter_block fuel l
    call_live_values_from fuel dfg l out blocks ops.default
