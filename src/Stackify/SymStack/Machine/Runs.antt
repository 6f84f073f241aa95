-- ===== src/Stackify/SymStack/Machine/Runs.antt =====
-- Sequences of calls to the methods of sym_stack.rs that emit actions.
use mathlib.Core.Path.{subst}
use mathlib.Core.Option.{some-injective}
use sonatina.Base.{
  ℕ, suc, ◌≡◌, ap, sym, Option, some, List, [], ◌∷◌, ◌++◌, map, ◌>>=◌, drop, drop-append, ◌∙◌,
  length,
}
use sonatina.Ir.Value.{Immediate}
use sonatina.Stackify.{Action}
use sonatina.Stackify.SymStack.{
  StackItem, SymStack, Actions, dup, pop, pop_n, swap, stable_rotate_to_top, stable_delete_at_depth,
  clear_above_func_ret, push_call_continuation, push_imm, push_value, push_call_ret_addr,
  position_call_ret_below_operands,
}
use sonatina.Stackify.SymStack.Machine.Steps.{Words, exec, exec_action}
use sonatina.Stackify.SymStack.Machine.Simulation

-- A call of a method that emits actions, with its arguments. The other methods that change the stack
-- only rename, drop or push items, and leave it to their caller to emit what goes with it.
pub data Call : Type 0 where
  call_dup call_pop_n call_swap call_rotate call_delete call_position : ℕ → Call
  call_pop call_clear call_continuation : Call
  call_push_imm : ℕ → Immediate → Call

unfoldable pub apply : Call → SymStack → Actions → Option (SymStack × Actions)
apply (Call.call_dup n) s acts = dup n s acts
apply (Call.call_pop_n n) s acts = pop_n n s acts
apply (Call.call_swap n) s acts = swap n s acts
apply (Call.call_rotate n) s acts = stable_rotate_to_top n s acts
apply (Call.call_delete n) s acts = stable_delete_at_depth n s acts
apply (Call.call_position n) s acts = position_call_ret_below_operands n s acts
apply Call.call_pop s acts = pop s acts
apply Call.call_clear s acts = clear_above_func_ret s acts
apply Call.call_continuation s acts = some (push_call_continuation s acts)
apply (Call.call_push_imm v imm) s acts = some (push_imm v imm s acts)

unfoldable pub run : List Call → SymStack → Actions → Option (SymStack × Actions)
run [] s acts = some (s, acts)
run (c ∷ calls) s acts = apply c s acts >>= λ r. run calls r.0 r.1

module _ {ℓ} {W : Type ℓ} (words : Words W) (word : StackItem → W) where
  -- A pushed immediate is recorded under a value that stands for the same word, and a pushed
  -- continuation under the call's return address.
  abbrev pub Agrees : List Call → Type ℓ
  Agrees [] = Unit
  Agrees (Call.call_push_imm v imm ∷ calls) =
      (word (StackItem.value v) ≡ words.immediate imm) × Agrees calls
  Agrees (Call.call_continuation ∷ calls) =
      (word StackItem.call_ret_addr ≡ words.continuation) × Agrees calls
  Agrees (c ∷ calls) = Agrees calls

  apply-Emits :
      (c : Call) (s : SymStack) (acts : Actions) (r : SymStack × Actions)
      → Agrees (c ∷ [])
      → apply c s acts ≡ some r
      → Simulation.Emits words word s acts r
  unfolding apply clear_above_func_ret push_imm push_value push_call_continuation exec_action
  apply-Emits (Call.call_dup n) s acts r a h = Simulation.dup-Emits words word n s acts r h
  apply-Emits (Call.call_pop_n n) s acts r a h = Simulation.pop_n-Emits words word n s acts r h
  apply-Emits (Call.call_swap n) s acts r a h = Simulation.swap-Emits words word n s acts r h
  apply-Emits (Call.call_rotate n) s acts r a h =
      Simulation.stable_rotate_to_top-Emits words word n s acts r h
  apply-Emits (Call.call_delete n) s acts r a h =
      Simulation.stable_delete_at_depth-Emits words word n s acts r h
  apply-Emits (Call.call_position n) s acts r a h =
      Simulation.position_call_ret-Emits words word n s acts r h
  apply-Emits Call.call_pop s acts r a h = Simulation.pop-Emits words word s acts r h
  apply-Emits Call.call_clear s acts r a h =
      Simulation.clear_loop-Emits words word (suc (length s.items)) s acts r h
  apply-Emits Call.call_continuation s acts r a h =
      Simulation.Emits-one words word s (push_call_ret_addr s) acts Action.push_continuation_offset
        r (λ below. ap (λ w. some (w ∷ (map word s.items ++ below))) (sym a.0)) h
  apply-Emits (Call.call_push_imm v imm) s acts r a h =
      Simulation.Emits-one words word s (push_value v s) acts (Action.push imm) r
        (λ below. ap (λ w. some (w ∷ (map word s.items ++ below))) (sym a.0)) h

  Agrees-cons : (c : Call) (calls : List Call) → Agrees (c ∷ calls) → Agrees (c ∷ []) × Agrees calls
  Agrees-cons (Call.call_dup n) calls a = (tt, a)
  Agrees-cons (Call.call_push_imm v imm) calls a = ((a.0, tt), a.1)
  Agrees-cons Call.call_continuation calls a = ((a.0, tt), a.1)
  Agrees-cons _ calls a = (tt, a)

  run-Emits :
      (calls : List Call) (s : SymStack) (acts : Actions) (r : SymStack × Actions)
      → Agrees calls
      → run calls s acts ≡ some r
      → Simulation.Emits words word s acts r
  unfolding run
  run-Emits [] s acts r a h =
      subst (Simulation.Emits words word s acts) (some-injective _ _ h)
        (Simulation.Emits-refl words word s acts)
  run-Emits (c ∷ calls) s acts r a h =
      let (head, rest) = Agrees-cons c calls a in
      Simulation.Emits-bind words word s acts (apply c s acts) (λ q. run calls q.0 q.1) r
        (λ q. apply-Emits c s acts q head) (λ q. run-Emits calls q.0 q.1 r rest) h

  -- Whatever sequence of calls is made of the ten methods that emit actions (`dup`, `pop`,
  -- `pop_n`, `swap`, `stable_rotate_to_top`, `stable_delete_at_depth`, `clear_above_func_ret`,
  -- `push_imm`, `push_call_continuation` and `position_call_ret_below_operands`) on the symbolic
  -- stack, if none of them panics, and each pushed immediate is recorded under a value of the
  -- same word, and a continuation under the word of the call's return address, then the actions
  -- that they append take the machine's stack from the words of the old symbolic stack to the
  -- words of the new one, and leave the caller's words below it as they were.
  pub run-simulates :
      (calls : List Call) (s : SymStack) (acts : Actions) (r : SymStack × Actions) (below : List W)
      → Agrees calls
      → run calls s acts ≡ some r
      → (r.1 ≡ acts ++ drop (length acts) r.1)
        × (exec words (drop (length acts) r.1) (map word s.items ++ below)
            ≡ some (map word r.0.items ++ below))
  run-simulates calls s acts r below a h =
      let (new, e, x) = run-Emits calls s acts r a h in
      let rest : drop (length acts) r.1 ≡ new = ap (drop (length acts)) e ∙ drop-append acts new in
      rw rest (e, x below)
