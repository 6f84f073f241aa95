-- ===== src/Stackify/SymStack/Examples.antt =====
-- Small runs of the symbolic stack.
use sonatina.Base.{ℕ, ◌≡◌, refl, some, List, [], ◌∷◌, ◌++◌, arith, drop, take}
use mathlib.Core.Option
use sonatina.Stackify.{Action}
use sonatina.Stackify.SymStack.{
  rename_top_value, rename_value_at_depth, pop_operand, pop_n_operands, remove_call_ret_addr,
  common_suffix_len, StackItem, SymStack, Actions, stable_rotate_to_top, stable_delete_at_depth,
  len_above_func_ret, position_call_ret_below_operands, replace_above_func_ret,
  clear_above_func_ret, dup, swap, push_call_continuation,
}
use sonatina.Stackify.SymStack.Barrier.{stack}
use sonatina.Stackify.SymStack.Clear.{clear_above_func_ret_lem, pops}
use sonatina.Stackify.SymStack.Keeps.{run-keeps-base, replace-keeps-base, base_of}
use sonatina.Stackify.SymStack.Machine.Runs.{Call, apply, run, run-simulates}
use sonatina.Stackify.SymStack.Machine.Steps.{Words, exec}
use sonatina.Stackify.SymStack.Rotate.{swaps, stable_rotate_to_top_lem, stable_delete_at_depth_lem}

abbrev v : ℕ → StackItem
v = StackItem.value

-- The function's frame, and a value of the caller's below it.
abbrev frame : List StackItem
frame = StackItem.func_ret_addr ∷ v 9 ∷ []

stable_rotate_to_top_example :
    stable_rotate_to_top 2 (stack (v 1 ∷ v 2 ∷ v 3 ∷ frame)) []
    ≡ some (stack (v 3 ∷ v 1 ∷ v 2 ∷ frame), swaps 2 1)
stable_rotate_to_top_example =
    stable_rotate_to_top_lem (v 1) (v 2 ∷ []) (v 3) frame [] (omega arith) (refl, (refl, tt)) refl

stable_delete_at_depth_example :
    stable_delete_at_depth 3 (stack (v 1 ∷ v 2 ∷ v 3 ∷ frame)) []
    ≡ some (stack (v 1 ∷ v 2 ∷ frame), swaps 2 1 ++ Action.pop ∷ [])
stable_delete_at_depth_example =
    stable_delete_at_depth_lem (v 1 ∷ v 2 ∷ []) (v 3) frame [] (omega arith) (refl, (refl, tt)) refl

clear_above_func_ret_example :
    clear_above_func_ret (stack (v 1 ∷ v 2 ∷ frame)) [] ≡ some (stack frame, pops 2)
unfolding len_above_func_ret
clear_above_func_ret_example = clear_above_func_ret_lem (stack (v 1 ∷ v 2 ∷ frame)) []

replace-keeps-base_example :
    (len_above_func_ret (replace_above_func_ret (v 5 ∷ []) (stack (v 1 ∷ v 2 ∷ frame))) ≡ 1)
    × (take 1 (replace_above_func_ret (v 5 ∷ []) (stack (v 1 ∷ v 2 ∷ frame))).items ≡ v 5 ∷ [])
    × (base_of (replace_above_func_ret (v 5 ∷ []) (stack (v 1 ∷ v 2 ∷ frame))) ≡ frame)
    × (Option.map
          (λ r. r.0)
          (clear_above_func_ret (replace_above_func_ret (v 5 ∷ []) (stack (v 1 ∷ v 2 ∷ frame))) [])
        ≡ Option.map (λ r. r.0) (clear_above_func_ret (stack (v 1 ∷ v 2 ∷ frame)) []))
unfolding len_above_func_ret
replace-keeps-base_example = replace-keeps-base (v 5 ∷ []) (stack (v 1 ∷ v 2 ∷ frame)) [] (refl, tt)

abbrev searched : SymStack
searched = stack (v 1 ∷ v 2 ∷ v 1 ∷ frame)

-- A call with the operands 2 and 1: push the continuation, copy the operands, and put the
-- continuation below them.
abbrev call_sequence : List Call
call_sequence =
    Call.call_dup 1 ∷ Call.call_dup 1 ∷ Call.call_continuation ∷ Call.call_position 2 ∷ []

abbrev after_call : SymStack × Actions
after_call = (
  stack (v 2 ∷ v 1 ∷ StackItem.call_ret_addr ∷ v 1 ∷ v 2 ∷ frame),
  Action.stack_dup 1
      ∷ Action.stack_dup 1
      ∷ Action.push_continuation_offset
      ∷ Action.stack_swap 2
      ∷ [],
)

run-call_sequence : run call_sequence (stack (v 1 ∷ v 2 ∷ frame)) [] ≡ some after_call
unfolding run apply dup push_call_continuation position_call_ret_below_operands swap
    len_above_func_ret
run-call_sequence = refl

abbrev words : Words ℕ
words = record { immediate = λ _. 7; continuation = 99; loaded = λ _. 0 }

abbrev word : StackItem → ℕ
word (StackItem.value n) = n
word StackItem.func_ret_addr = 50
word StackItem.call_ret_addr = 99

run-simulates_example :
    (after_call.1 ≡ [] ++ drop 0 after_call.1)
    × (exec words (drop 0 after_call.1) (1 ∷ 2 ∷ 50 ∷ 9 ∷ 8 ∷ [])
        ≡ some (2 ∷ 1 ∷ 99 ∷ 1 ∷ 2 ∷ 50 ∷ 9 ∷ 8 ∷ []))
run-simulates_example =
    run-simulates words word call_sequence (stack (v 1 ∷ v 2 ∷ frame)) [] after_call (8 ∷ [])
      (refl, tt) run-call_sequence

run-keeps-base_example :
    drop (len_above_func_ret after_call.0) after_call.0.items
    ≡ drop (len_above_func_ret (stack (v 1 ∷ v 2 ∷ frame))) (v 1 ∷ v 2 ∷ frame)
run-keeps-base_example =
    run-keeps-base call_sequence (stack (v 1 ∷ v 2 ∷ frame)) [] after_call run-call_sequence

rename_top_value_test : rename_top_value 5 (stack (v 1 ∷ frame)) ≡ some (stack (v 5 ∷ frame))
unfolding rename_top_value len_above_func_ret
rename_top_value_test = refl

rename_value_at_depth_test :
    rename_value_at_depth 1 5 (stack (v 1 ∷ v 2 ∷ frame)) ≡ some (stack (v 1 ∷ v 5 ∷ frame))
unfolding rename_value_at_depth len_above_func_ret
rename_value_at_depth_test = refl

pop_n_operands_test : pop_n_operands 2 (stack (v 1 ∷ v 2 ∷ frame)) ≡ some (stack frame)
unfolding pop_n_operands pop_operand
pop_n_operands_test = refl

remove_call_ret_addr_test :
    remove_call_ret_addr (stack (v 1 ∷ StackItem.call_ret_addr ∷ frame))
    ≡ some (stack (v 1 ∷ frame))
unfolding remove_call_ret_addr
remove_call_ret_addr_test = refl

common_suffix_len_test : common_suffix_len (stack (v 1 ∷ v 2 ∷ v 3 ∷ frame)) (7 ∷ 3 ∷ []) ≡ 1
unfolding common_suffix_len len_above_func_ret
common_suffix_len_test = refl
