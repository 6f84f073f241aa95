-- ===== src/Stackify/SymStack/Rotate.antt =====
-- sym_stack.rs: chains of swaps. They bring one item to the top, or delete it, and keep the order
-- of the others.
use sonatina.Base.{
  ℕ, zero, suc, ◌+◌, ◌-◌, ◌≤◌, ◌<◌, ◌%◌, ◌^◌, ◌≡◌, refl, false, none, some, List, [], ◌∷◌, ◌++◌,
  arith, length, lt→ltb, le→leb, append_assoc, length-append, All-append, ◌⊎◌, get_elem?-append,
}
use sonatina.Stackify.{Action}
use sonatina.Stackify.SymStack.{
  StackItem, SymStack, Actions, is_func_ret, len_above_func_ret, swap_each, stable_rotate_to_top,
  stable_delete_at_depth, pop, pop_operand, position_call_ret_below_operands,
}
use sonatina.Stackify.SymStack.Barrier.{Above, stack, swap_lem, len_above-cons, len-Above-append}

-- SWAP`from`, SWAP`from + 1`, and so on, `count` of them.
abbrev pub swaps : ℕ → ℕ → Actions
swaps zero from = []
swaps (suc count) from = Action.stack_swap (from % 2 ^ 8) ∷ swaps count (suc from)

length-snoc : (pre : List StackItem) (y : StackItem) → length (pre ++ y ∷ []) ≡ suc (length pre)
length-snoc pre y = omega (arith, length-append {0} pre (y ∷ []))

-- The chain of swaps from depth `length pre + 1` on, over `zs` and one more item `z`.
swap_each_chain :
    (y : StackItem) (pre zs : List StackItem) (z : StackItem) (post : List StackItem)
    (acts : Actions)
    → length pre + length zs < 16
    → Above (y ∷ pre)
    → Above zs
    → is_func_ret z ≡ false
    → swap_each (suc (length zs)) (suc (length pre)) (stack (y ∷ pre ++ (zs ++ z ∷ post))) acts
      ≡ some
          (stack (z ∷ pre ++ (y ∷ zs ++ post)), acts ++ swaps (suc (length zs)) (suc (length pre)))
unfolding swap_each
swap_each_chain y pre [] z post acts short a b hz =
    rw (swap_lem y z pre post acts (omega arith) a hz)
swap_each_chain y pre (w ∷ zs) z post acts short a b hz =
    let pre' = pre ++ y ∷ [] in
    let next =
      swap_each_chain w pre' zs z post (acts ++ Action.stack_swap (suc (length pre) % 2 ^ 8) ∷ [])
        (omega (arith, length-append {0} pre (y ∷ [])))
        (b.0, All-append (λ i. is_func_ret i ≡ false) pre (y ∷ []) a.1 (a.0, tt)) b.1 hz in
    rw (swap_lem y w pre (zs ++ z ∷ post) acts (omega arith) a b.0)
      (simp (length-snoc, append_assoc) at next)

-- Within the reach of a swap and above the return barrier, what stands at depth `length zs + 1` comes
-- to the top; everything else keeps its order, and the swaps with the depths from one up to that one
-- are emitted.
pub stable_rotate_to_top_lem :
    (y : StackItem) (zs : List StackItem) (z : StackItem) (post : List StackItem) (acts : Actions)
    → length zs < 16
    → Above (y ∷ zs)
    → is_func_ret z ≡ false
    → stable_rotate_to_top (suc (length zs)) (stack (y ∷ zs ++ z ∷ post)) acts
      ≡ some (stack (z ∷ y ∷ zs ++ post), acts ++ swaps (suc (length zs)) 1)
unfolding stable_rotate_to_top
stable_rotate_to_top_lem y zs z post acts short a hz =
    let top = len_above-cons y (zs ++ z ∷ post) a.0 in
    let rest = len-Above-append zs (z ∷ post) a.1 in
    let at = len_above-cons z post hz in
    rw
      (
        le→leb (suc (length zs)) 16 short,
        lt→ltb (suc (length zs)) (len_above_func_ret (stack (y ∷ zs ++ z ∷ post))) (omega arith),
      )
      (swap_each_chain y [] zs z post acts (omega arith) (a.0, tt) a.1 hz)

-- Rotating a place other than the top panics beyond the reach of a swap and at or below the return
-- barrier.
pub stable_rotate_to_top_panics :
    (pos : ℕ) (s : SymStack) (acts : Actions)
    → 0 < pos
    → (16 < pos) ⊎ (len_above_func_ret s ≤ pos)
    → stable_rotate_to_top pos s acts ≡ none
unfolding stable_rotate_to_top
stable_rotate_to_top_panics zero s acts h bad = absurd (omega arith)
stable_rotate_to_top_panics (suc pos) s acts h bad = ground arith

pop_item :
    (z : StackItem) (post : List StackItem) (acts : Actions)
    → is_func_ret z ≡ false
    → pop (stack (z ∷ post)) acts ≡ some (stack post, acts ++ Action.pop ∷ [])
unfolding pop pop_operand
pop_item (StackItem.value v) post acts h = refl
pop_item StackItem.func_ret_addr post acts h = cc
pop_item StackItem.call_ret_addr post acts h = refl

swap_each_none : (s : SymStack) (acts : Actions) → swap_each 0 1 s acts ≡ some (s, acts)
unfolding swap_each
swap_each_none s acts = refl

-- Within the reach of a swap and above the return barrier, deleting the item at depth
-- `length zs + 1`, one-based, leaves the others in their order; it emits the swaps below that depth
-- and a pop.
pub stable_delete_at_depth_lem :
    (zs : List StackItem) (z : StackItem) (post : List StackItem) (acts : Actions)
    → length zs ≤ 16
    → Above zs
    → is_func_ret z ≡ false
    → stable_delete_at_depth (suc (length zs)) (stack (zs ++ z ∷ post)) acts
      ≡ some (stack (zs ++ post), acts ++ (swaps (length zs) 1 ++ Action.pop ∷ []))
unfolding stable_delete_at_depth
stable_delete_at_depth_lem [] z post acts short a hz =
    let at = len_above-cons z post hz in
    rw (le→leb 1 (len_above_func_ret (stack (z ∷ post))) (omega arith), swap_each_none)
      (pop_item z post acts hz)
stable_delete_at_depth_lem (y ∷ zs) z post acts short a hz =
    let above = len-Above-append (y ∷ zs) (z ∷ post) a in
    let at = len_above-cons z post hz in
    let chain = swap_each_chain y [] zs z post acts (omega arith) (a.0, tt) a.1 hz in
    let last = pop_item z (y ∷ zs ++ post) (acts ++ swaps (suc (length zs)) 1) hz in
    let count : suc (suc (length zs)) - 1 ≡ suc (length zs) = omega arith in
    rw
      (
        le→leb 1 (suc (suc (length zs))) (omega arith),
        le→leb (suc (suc (length zs))) 17 (omega arith),
        le→leb (suc (suc (length zs))) (len_above_func_ret (stack (y ∷ zs ++ z ∷ post)))
            (omega arith),
        count,
        chain,
      )
      (simp append_assoc at last)

-- With at most 16 operands above the return barrier, the call's return address on top of them moves
-- below them; the operand that stood last comes to the top, with one swap emitted, and the final
-- assertion holds.
pub position_call_ret_below_operands_lem :
    (pre : List StackItem) (z : StackItem) (post : List StackItem) (acts : Actions)
    → length pre < 16
    → Above pre
    → is_func_ret z ≡ false
    → position_call_ret_below_operands
        (suc (length pre))
        (stack (StackItem.call_ret_addr ∷ pre ++ z ∷ post))
        acts
      ≡ some (
        stack (z ∷ pre ++ StackItem.call_ret_addr ∷ post),
        acts ++ Action.stack_swap (suc (length pre) % 2 ^ 8) ∷ [],
      )
unfolding position_call_ret_below_operands
position_call_ret_below_operands_lem pre z post acts short a hz =
    let s = stack (StackItem.call_ret_addr ∷ pre ++ z ∷ post) in
    let top = len_above-cons StackItem.call_ret_addr (pre ++ z ∷ post) refl in
    let above = len-Above-append pre (z ∷ post) a in
    let at = len_above-cons z post hz in
    rw (
      le→leb (suc (length pre)) 16 short,
      lt→ltb (suc (length pre)) (len_above_func_ret s) (omega arith),
      swap_lem StackItem.call_ret_addr z pre post acts short (refl, a) hz,
      get_elem?-append pre post StackItem.call_ret_addr,
    )
