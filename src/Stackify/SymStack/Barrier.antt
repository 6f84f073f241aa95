-- ===== src/Stackify/SymStack/Barrier.antt =====
-- sym_stack.rs: the items above the function's return address, and what one swap does to them.
use sonatina.Base.{
  zero, ap, ℕ, suc, ◌+◌, ◌<◌, ◌%◌, ◌^◌, ◌≡◌, refl, false, Option, none, some, List, [], ◌∷◌, ◌++◌,
  arith, length, position, unwrap_or, All, lt→ltb, le→leb, get_elem?-append, set-append,
}
use mathlib.Core.Option
use sonatina.Stackify.{Action}
use sonatina.Stackify.SymStack.{StackItem, SymStack, Actions, is_func_ret, len_above_func_ret, swap}

-- No item is the function's return address.
abbrev pub Above : List StackItem → Type 0
Above = All (λ i. is_func_ret i ≡ false)

abbrev pub stack : List StackItem → SymStack
stack items = record { items = items }

unwrap_or-map-suc :
    (o : Option ℕ) (n : ℕ) → unwrap_or (Option.map suc o) (suc n) ≡ suc (unwrap_or o n)
unwrap_or-map-suc none n = refl
unwrap_or-map-suc (some m) n = refl

pub len_above-cons :
    (x : StackItem) (xs : List StackItem)
    → is_func_ret x ≡ false
    → len_above_func_ret (stack (x ∷ xs)) ≡ suc (len_above_func_ret (stack xs))
unfolding len_above_func_ret
len_above-cons (StackItem.value v) xs h = unwrap_or-map-suc (position is_func_ret xs) (length xs)
len_above-cons StackItem.func_ret_addr xs h = cc
len_above-cons StackItem.call_ret_addr xs h =
    unwrap_or-map-suc (position is_func_ret xs) (length xs)

pub len-Above-append :
    (pre post : List StackItem)
    → Above pre
    → len_above_func_ret (stack (pre ++ post)) ≡ length pre + len_above_func_ret (stack post)
len-Above-append [] post a = omega arith
len-Above-append (x ∷ pre) post a =
    omega (arith, len_above-cons x (pre ++ post) a.0, len-Above-append pre post a.1)

-- The barrier itself is reached at no item.
pub len_above-ret :
    (post : List StackItem) → len_above_func_ret (stack (StackItem.func_ret_addr ∷ post)) ≡ 0
unfolding len_above_func_ret
len_above-ret post = refl

-- A swap exchanges the top with the item that stands behind `pre`.
pub swap_lem :
    (y z : StackItem) (pre post : List StackItem) (acts : Actions)
    → length pre < 16
    → Above (y ∷ pre)
    → is_func_ret z ≡ false
    → swap (suc (length pre)) (stack (y ∷ pre ++ z ∷ post)) acts
      ≡ some
          (stack (z ∷ pre ++ y ∷ post), acts ++ Action.stack_swap (suc (length pre) % 2 ^ 8) ∷ [])
unfolding swap
swap_lem y z pre post acts short a hz =
    let top = len_above-cons y (pre ++ z ∷ post) a.0 in
    let rest = len-Above-append pre (z ∷ post) a.1 in
    let at = len_above-cons z post hz in
    rw (
      le→leb (suc (length pre)) 16 short,
      lt→ltb (suc (length pre)) (len_above_func_ret (stack (y ∷ pre ++ z ∷ post))) (omega arith),
      get_elem?-append pre post z,
      set-append pre post z y,
    )

-- A place above the barrier splits the stack.
pub Above-split :
    (items : List StackItem) (d : ℕ)
    → d < len_above_func_ret (stack items)
    → (pre : List StackItem) × (z : StackItem) × (post : List StackItem) × (items ≡ pre ++ z ∷ post)
      × (length pre ≡ d)
      × Above pre
      × (is_func_ret z ≡ false)
unfolding len_above_func_ret
Above-split [] d h = elim h [ ]
Above-split (StackItem.func_ret_addr ∷ items) d h = elim h [ ]
Above-split (StackItem.value v ∷ items) zero h =
    ([], StackItem.value v, items, refl, refl, tt, refl)
Above-split (StackItem.value v ∷ items) (suc d) h =
    let below = len_above-cons (StackItem.value v) items refl in
    let (pre, z, post, e, l, a, hz) = Above-split items d (omega arith) in
    (StackItem.value v ∷ pre, z, post, ap (λ t. StackItem.value v ∷ t) e, ap suc l, (refl, a), hz)
Above-split (StackItem.call_ret_addr ∷ items) zero h =
    ([], StackItem.call_ret_addr, items, refl, refl, tt, refl)
Above-split (StackItem.call_ret_addr ∷ items) (suc d) h =
    let below = len_above-cons StackItem.call_ret_addr items refl in
    let (pre, z, post, e, l, a, hz) = Above-split items d (omega arith) in
    (
      StackItem.call_ret_addr ∷ pre,
      z,
      post,
      ap (λ t. StackItem.call_ret_addr ∷ t) e,
      ap suc l,
      (refl, a),
      hz,
    )
