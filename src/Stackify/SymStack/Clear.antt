-- ===== src/Stackify/SymStack/Clear.antt =====
-- sym_stack.rs: emptying the part above the return barrier, replacing it, and the initial stacks.
use sonatina.Base.{
  ℕ, zero, suc, ◌+◌, ◌<◌, ◌≡◌, refl, ap, ◌∙◌, Bool, false, true, Option, none, some, List, [], ◌∷◌,
  ◌++◌, arith, length, map, drop, append_assoc, append-nil, sym, unwrap_or, length-append,
  drop-append,
}
use sonatina.Stackify.{Action}
use sonatina.Stackify.SymStack.{
  StackItem, SymStack, Actions, is_func_ret, func_ret_index, len_above_func_ret, pop, pop_operand,
  pop_front_operand, clear_loop, clear_above_func_ret, replace_above_func_ret, entry_stack,
  from_template, push_back_ret,
}
use sonatina.Stackify.SymStack.Barrier.{Above, stack, len_above-ret, len_above-cons}

abbrev pub pops : ℕ → Actions
pops zero = []
pops (suc n) = Action.pop ∷ pops n

-- What stands behind the items above the barrier: nothing, or the return address first.
abbrev pub IsBase : List StackItem → Type 0
IsBase [] = Unit
IsBase (x ∷ xs) = is_func_ret x ≡ true

clear_loop-Above :
    (pre base : List StackItem) (acts : Actions) (fuel : ℕ)
    → length pre < fuel
    → Above pre
    → IsBase base
    → clear_loop fuel (stack (pre ++ base)) acts ≡ some (stack base, acts ++ pops (length pre))
unfolding clear_loop pop pop_operand pop_front_operand
clear_loop-Above pre base acts zero h a b = absurd (omega arith)
clear_loop-Above [] [] acts (suc fuel) h a b = rw (append-nil acts)
clear_loop-Above [] (StackItem.value v ∷ base) acts (suc fuel) h a b = cc
clear_loop-Above [] (StackItem.func_ret_addr ∷ base) acts (suc fuel) h a b = rw (append-nil acts)
clear_loop-Above [] (StackItem.call_ret_addr ∷ base) acts (suc fuel) h a b = cc
clear_loop-Above (StackItem.value v ∷ pre) base acts (suc fuel) h a b =
    rw (clear_loop-Above pre base (acts ++ Action.pop ∷ []) fuel (omega arith) a.1 b)
      (simp append_assoc)
clear_loop-Above (StackItem.func_ret_addr ∷ pre) base acts (suc fuel) h a b = cc
clear_loop-Above (StackItem.call_ret_addr ∷ pre) base acts (suc fuel) h a b =
    rw (clear_loop-Above pre base (acts ++ Action.pop ∷ []) fuel (omega arith) a.1 b)
      (simp append_assoc)

-- Every stack is its items above the barrier, and the base.
barrier_split :
    (items : List StackItem)
    → (pre base : List StackItem) × (items ≡ pre ++ base)
      × Above pre
      × IsBase base
      × (len_above_func_ret (stack items) ≡ length pre)
barrier_split [] = ([], [], refl, tt, tt, unfold len_above_func_ret in refl)
barrier_split (StackItem.func_ret_addr ∷ items) =
    ([], StackItem.func_ret_addr ∷ items, refl, tt, refl, len_above-ret items)
barrier_split (StackItem.value v ∷ items) =
    let (pre, base, e, a, b, l) = barrier_split items in
    (
      StackItem.value v ∷ pre,
      base,
      ap (λ t. StackItem.value v ∷ t) e,
      (refl, a),
      b,
      len_above-cons (StackItem.value v) items refl ∙ ap suc l,
    )
barrier_split (StackItem.call_ret_addr ∷ items) =
    let (pre, base, e, a, b, l) = barrier_split items in
    (
      StackItem.call_ret_addr ∷ pre,
      base,
      ap (λ t. StackItem.call_ret_addr ∷ t) e,
      (refl, a),
      b,
      len_above-cons StackItem.call_ret_addr items refl ∙ ap suc l,
    )

clear-Above_base :
    (items pre base : List StackItem) (acts : Actions)
    → items ≡ pre ++ base
    → Above pre
    → IsBase base
    → clear_above_func_ret (stack items) acts
      ≡ some (stack (drop (length pre) items), acts ++ pops (length pre))
unfolding clear_above_func_ret
clear-Above_base items pre base acts e a b =
    let len : length items ≡ length pre + length base = ap length e ∙ length-append pre base in
    let run = clear_loop-Above pre base acts (suc (length items)) (omega arith) a b in
    let dropped : drop (length pre) items ≡ base = rw e (drop-append pre base) in
    rw dropped (rw (← e) at run)

-- Clearing never panics. It pops the items above the return barrier one by one, and leaves the
-- barrier and what lies below it, or nothing where there is no barrier.
pub clear_above_func_ret_lem :
    (s : SymStack) (acts : Actions)
    → clear_above_func_ret s acts
      ≡ some (stack (drop (len_above_func_ret s) s.items), acts ++ pops (len_above_func_ret s))
clear_above_func_ret_lem s acts =
    let (pre, base, e, a, b, l) = barrier_split s.items in
    rw l (clear-Above_base s.items pre base acts e a b)

drop_all : (xs : List StackItem) → drop (length xs) xs ≡ []
drop_all [] = refl
drop_all (x ∷ xs) = drop_all xs

-- The items above the barrier are exchanged for the given ones; the barrier and all below it stay.
pub replace_above_func_ret_lem :
    (above : List StackItem) (s : SymStack)
    → (replace_above_func_ret above s).items ≡ above ++ drop (len_above_func_ret s) s.items
unfolding replace_above_func_ret len_above_func_ret
replace_above_func_ret_lem above s = go (func_ret_index s)
  where
    go :
        (o : Option ℕ)
        → (elim o as (λ _. SymStack) [
          | none ↦ stack above
          | some ret_pos ↦ stack (above ++ drop ret_pos s.items)
        ]).items
          ≡ above ++ drop (unwrap_or o (length s.items)) s.items
    go none = rw (drop_all s.items) (sym (append-nil above))
    go (some n) = refl

len_above-push_back_ret :
    (vs : List ℕ) (ret : Bool)
    → len_above_func_ret (stack (push_back_ret ret (map StackItem.value vs))) ≡ length vs
unfolding len_above_func_ret
len_above-push_back_ret [] true = refl
len_above-push_back_ret [] false = refl
len_above-push_back_ret (v ∷ vs) true =
    len_above-cons (StackItem.value v) (push_back_ret true (map StackItem.value vs)) refl
    ∙ ap suc (len_above-push_back_ret vs true)
len_above-push_back_ret (v ∷ vs) false =
    len_above-cons (StackItem.value v) (map StackItem.value vs) refl
    ∙ ap suc (len_above-push_back_ret vs false)

-- A function is entered with its arguments above the barrier, and a block with its parameters and
-- its transfer region, whether or not there is a barrier.
pub initial_stacks_lem :
    (args params transfer : List ℕ) (ret : Bool)
    → (len_above_func_ret (entry_stack args ret) ≡ length args)
      × (len_above_func_ret (from_template params transfer ret) ≡ length params + length transfer)
unfolding entry_stack from_template
initial_stacks_lem args params transfer ret = (
  len_above-push_back_ret args ret,
  len_above-push_back_ret (params ++ transfer) ret ∙ length-append params transfer,
)
