-- ===== src/Stackify/SymStack/Keeps.antt =====
-- sym_stack.rs: no method that emits actions touches the return barrier or what lies below it.
use mathlib.Core.Option
use mathlib.Core.Option.{some-injective}
use sonatina.Base.{
  ℕ, zero, suc, ◌-◌, ◌≤◌, ◌<◌, ◌≡◌, refl, ap, ◌∙◌, sym, false, Option, some, List, [], ◌∷◌, ◌++◌,
  arith, ◌&&◌, get_elem?, get_elem?-append, ◌%◌, ◌^◌, drop, take, ltb, leb, length, ◌>>=◌,
  >>=-eq-some, assert,
}
use sonatina.Stackify.{Action}
use sonatina.Stackify.SymStack.{
  StackItem, SymStack, Actions, is_func_ret, len_above_func_ret, dup, pop, pop_n, pop_operand, swap,
  swap_each, stable_rotate_to_top, stable_delete_at_depth, push_call_continuation, push_imm,
  push_value, push_call_ret_addr, position_call_ret_below_operands, is_call_ret,
  replace_above_func_ret, clear_above_func_ret,
}
use sonatina.Stackify.SymStack.Barrier.{
  Above, stack, swap_lem, len_above-cons, len-Above-append, Above-split,
}
use sonatina.Stackify.SymStack.Clear.{clear_above_func_ret_lem, replace_above_func_ret_lem}
use sonatina.Stackify.SymStack.Machine.Runs.{Call, apply, run}

-- The return barrier and all below it.
abbrev pub base_of : SymStack → List StackItem
base_of s = drop (len_above_func_ret s) s.items

base-cons :
    (x : StackItem) (xs : List StackItem)
    → is_func_ret x ≡ false
    → base_of (stack (x ∷ xs)) ≡ base_of (stack xs)
base-cons x xs h = rw (len_above-cons x xs h)

base-append :
    (pre post : List StackItem) → Above pre → base_of (stack (pre ++ post)) ≡ base_of (stack post)
base-append [] post a = refl
base-append (x ∷ pre) post a = base-cons x (pre ++ post) a.0 ∙ base-append pre post a.1

abbrev Keeps : SymStack → SymStack × Actions → Type 0
Keeps s r = base_of r.0 ≡ base_of s

Keeps-bind :
    (s : SymStack) (m : Option (SymStack × Actions))
    (k : SymStack × Actions → Option (SymStack × Actions)) (t : SymStack × Actions)
    → ((r : SymStack × Actions) → m ≡ some r → Keeps s r)
    → ((r : SymStack × Actions) → k r ≡ some t → Keeps r.0 t)
    → (m >>= k) ≡ some t
    → Keeps s t
Keeps-bind s m k t first second h = let (r, hm, hk) = >>=-eq-some m k h in second r hk ∙ first r hm

Keeps-same :
    (s : SymStack) (acts : Actions) (r : SymStack × Actions)
    → ◌≡◌ {A = Option (SymStack × Actions)} (some (s, acts)) (some r)
    → Keeps s r
Keeps-same s acts r h = ap (λ q. base_of q.0) (sym (some-injective _ _ h))

dup-Keeps :
    (pos : ℕ) (s : SymStack) (acts : Actions) (r : SymStack × Actions)
    → dup pos s acts ≡ some r
    → Keeps s r
unfolding dup
dup-Keeps pos s acts r h =
    let (_, _, h1) = >>=-eq-some (assert (ltb pos 16)) _ h in
    let (_, above, h2) = >>=-eq-some (assert (ltb pos (len_above_func_ret s))) _ h1 in
    let (x, hx, h3) = >>=-eq-some (get_elem? s.items pos) _ h2 in
    let lt : pos < len_above_func_ret s = ground arith in
    let (pre, z, post, e, l, a, hz) = Above-split s.items pos lt in
    let at : get_elem? s.items pos ≡ some z = rw (e, ← l) (get_elem?-append pre post z) in
    let same : x ≡ z = some-injective _ _ (sym hx ∙ at) in
    Keeps-same (stack (x ∷ s.items)) (acts ++ Action.stack_dup (pos % 2 ^ 8) ∷ []) r h3
    ∙ base-cons x s.items (rw same hz)

pop_operand-base :
    (items : List StackItem) (s' : SymStack)
    → pop_operand (stack items) ≡ some s'
    → base_of s' ≡ base_of (stack items)
unfolding pop_operand
pop_operand-base [] s' h = cc
pop_operand-base (StackItem.value v ∷ l) s' h =
    ap base_of (sym (some-injective _ _ h)) ∙ sym (base-cons (StackItem.value v) l refl)
pop_operand-base (StackItem.func_ret_addr ∷ l) s' h = cc
pop_operand-base (StackItem.call_ret_addr ∷ l) s' h =
    ap base_of (sym (some-injective _ _ h)) ∙ sym (base-cons StackItem.call_ret_addr l refl)

pop-Keeps :
    (s : SymStack) (acts : Actions) (r : SymStack × Actions) → pop s acts ≡ some r → Keeps s r
unfolding pop
pop-Keeps s acts r h =
    let (s', hs, h1) = >>=-eq-some (pop_operand s) _ h in
    Keeps-same s' (acts ++ Action.pop ∷ []) r h1 ∙ pop_operand-base s.items s' hs

swap_above-Keeps :
    (items : List StackItem) (d : ℕ) (acts : Actions) (r : SymStack × Actions)
    → suc d ≤ 16
    → suc d < len_above_func_ret (stack items)
    → swap (suc d) (stack items) acts ≡ some r
    → Keeps (stack items) r
swap_above-Keeps items d acts r short above h = go (Above-split items (suc d) above)
  where
    go :
        (pre : List StackItem) × (z : StackItem) × (post : List StackItem) × (items
            ≡ pre ++ z ∷ post)
          × (length pre ≡ suc d)
          × Above pre
          × (is_func_ret z ≡ false)
        → Keeps (stack items) r
    go ([], z, post, e, l, a, hz) = absurd (omega arith)
    go (y ∷ pre, z, post, e, l, a, hz) =
        let moved = sym (swap_lem y z pre post acts (omega arith) a hz) ∙ rw (e, ← l) at h in
        let new =
          base-cons z (pre ++ y ∷ post) hz
          ∙ base-append pre (y ∷ post) a.1
          ∙ base-cons y post a.0 in
        let old = base-append (y ∷ pre) (z ∷ post) a ∙ base-cons z post hz in
        ap (λ q. base_of q.0) (sym (some-injective _ _ moved))
        ∙ new
        ∙ sym (ap (λ l. base_of (stack l)) e ∙ old)

swap-Keeps :
    (d : ℕ) (s : SymStack) (acts : Actions) (r : SymStack × Actions)
    → swap d s acts ≡ some r
    → Keeps s r
unfolding swap
swap-Keeps zero s acts r h = Keeps-same s acts r h
swap-Keeps (suc d) s acts r h =
    let (_, short, h1) = >>=-eq-some (assert (leb (suc d) 16)) _ h in
    let (_, above, _) = >>=-eq-some (assert (ltb (suc d) (len_above_func_ret s))) _ h1 in
    swap_above-Keeps s.items d acts r (ground arith) (ground arith) h

swap_each-Keeps :
    (count from : ℕ) (s : SymStack) (acts : Actions) (r : SymStack × Actions)
    → swap_each count from s acts ≡ some r
    → Keeps s r
unfolding swap_each
swap_each-Keeps zero from s acts r h = Keeps-same s acts r h
swap_each-Keeps (suc count) from s acts r h =
    Keeps-bind s (swap from s acts) (λ q. swap_each count (suc from) q.0 q.1) r
      (swap-Keeps from s acts) (λ q. swap_each-Keeps count (suc from) q.0 q.1 r) h

pop_n-Keeps :
    (n : ℕ) (s : SymStack) (acts : Actions) (r : SymStack × Actions)
    → pop_n n s acts ≡ some r
    → Keeps s r
unfolding pop_n
pop_n-Keeps zero s acts r h = Keeps-same s acts r h
pop_n-Keeps (suc n) s acts r h =
    Keeps-bind s (pop s acts) (λ q. pop_n n q.0 q.1) r (pop-Keeps s acts)
      (λ q. pop_n-Keeps n q.0 q.1 r) h

-- What is left when the items above the barrier are gone has nothing above the barrier.
base-base :
    (items : List StackItem) → base_of (stack (base_of (stack items))) ≡ base_of (stack items)
unfolding len_above_func_ret
base-base [] = refl
base-base (StackItem.value v ∷ items) =
    rw (base-cons (StackItem.value v) items refl) (base-base items)
base-base (StackItem.func_ret_addr ∷ items) = refl
base-base (StackItem.call_ret_addr ∷ items) =
    rw (base-cons StackItem.call_ret_addr items refl) (base-base items)

apply-Keeps :
    (c : Call) (s : SymStack) (acts : Actions) (r : SymStack × Actions)
    → apply c s acts ≡ some r
    → Keeps s r
unfolding apply stable_rotate_to_top stable_delete_at_depth position_call_ret_below_operands
    push_imm push_value push_call_continuation push_call_ret_addr
apply-Keeps (Call.call_dup n) s acts r h = dup-Keeps n s acts r h
apply-Keeps (Call.call_pop_n n) s acts r h = pop_n-Keeps n s acts r h
apply-Keeps (Call.call_swap n) s acts r h = swap-Keeps n s acts r h
apply-Keeps (Call.call_rotate zero) s acts r h = Keeps-same s acts r h
apply-Keeps (Call.call_rotate (suc p)) s acts r h =
    let (_, _, h1) = >>=-eq-some (assert (leb (suc p) 16)) _ h in
    let (_, _, h2) = >>=-eq-some (assert (ltb (suc p) (len_above_func_ret s))) _ h1 in
    swap_each-Keeps (suc p) 1 s acts r h2
apply-Keeps (Call.call_delete n) s acts r h =
    let (_, _, h1) = >>=-eq-some (assert (leb 1 n && leb n 17)) _ h in
    let (_, _, h2) = >>=-eq-some (assert (leb n (len_above_func_ret s))) _ h1 in
    Keeps-bind s (swap_each (n - 1) 1 s acts) (λ q. pop q.0 q.1) r
      (swap_each-Keeps (n - 1) 1 s acts) (λ q. pop-Keeps q.0 q.1 r) h2
apply-Keeps (Call.call_position zero) s acts r h = Keeps-same s acts r h
apply-Keeps (Call.call_position (suc n)) s acts r h =
    let (_, _, h1) = >>=-eq-some (assert (is_call_ret (get_elem? s.items 0))) _ h in
    let (_, _, h2) = >>=-eq-some (assert (leb (suc n) 16)) _ h1 in
    let (_, _, h3) = >>=-eq-some (assert (ltb (suc n) (len_above_func_ret s))) _ h2 in
    let (q, hq, h4) = >>=-eq-some (swap (suc n) s acts) _ h3 in
    let (_, _, h5) = >>=-eq-some (assert (is_call_ret (get_elem? q.0.items (suc n)))) _ h4 in
    Keeps-same q.0 q.1 r h5 ∙ swap-Keeps (suc n) s acts q hq
apply-Keeps Call.call_pop s acts r h = pop-Keeps s acts r h
apply-Keeps Call.call_clear s acts r h =
    ap (λ q. base_of q.0) (sym (some-injective _ _ (sym (clear_above_func_ret_lem s acts) ∙ h)))
    ∙ base-base s.items
apply-Keeps Call.call_continuation s acts r h =
    Keeps-same (stack (StackItem.call_ret_addr ∷ s.items)) _ r h
    ∙ base-cons StackItem.call_ret_addr s.items refl
apply-Keeps (Call.call_push_imm v imm) s acts r h =
    Keeps-same (stack (StackItem.value v ∷ s.items)) _ r h
    ∙ base-cons (StackItem.value v) s.items refl

-- Whatever sequence of calls is made of the ten methods that emit actions (`dup`, `pop`,
-- `pop_n`, `swap`, `stable_rotate_to_top`, `stable_delete_at_depth`, `clear_above_func_ret`,
-- `push_imm`, `push_call_continuation` and `position_call_ret_below_operands`), if none of them
-- panics, the return barrier and the items below it are the same before and after.
pub run-keeps-base :
    (calls : List Call) (s : SymStack) (acts : Actions) (r : SymStack × Actions)
    → run calls s acts ≡ some r
    → drop (len_above_func_ret r.0) r.0.items ≡ drop (len_above_func_ret s) s.items
unfolding run
run-keeps-base [] s acts r h = Keeps-same s acts r h
run-keeps-base (c ∷ calls) s acts r h =
    Keeps-bind s (apply c s acts) (λ q. run calls q.0 q.1) r (λ q. apply-Keeps c s acts q)
      (λ q. run-keeps-base calls q.0 q.1 r) h

base_of-len : (items : List StackItem) → len_above_func_ret (stack (base_of (stack items))) ≡ 0
unfolding len_above_func_ret
base_of-len [] = refl
base_of-len (StackItem.value v ∷ items) =
    rw (base-cons (StackItem.value v) items refl) (base_of-len items)
base_of-len (StackItem.func_ret_addr ∷ items) = refl
base_of-len (StackItem.call_ret_addr ∷ items) =
    rw (base-cons StackItem.call_ret_addr items refl) (base_of-len items)

take-append : (xs ys : List StackItem) → take (length xs) (xs ++ ys) ≡ xs
take-append [] ys = refl
take-append (x ∷ xs) ys = ap (λ l. x ∷ l) (take-append xs ys)

-- If no return barrier is among the given items, then after `replace_above_func_ret` these items, and no others, are
-- above the barrier, as many as `len_above_func_ret` says, and the barrier and the items below it are the same as
-- before; and `clear_above_func_ret` takes the result to the same stack as the one before.
pub replace-keeps-base :
    (above : List StackItem) (s : SymStack) (acts : Actions)
    → Above above
    → (len_above_func_ret (replace_above_func_ret above s) ≡ length above)
      × (take (length above) (replace_above_func_ret above s).items ≡ above)
      × (base_of (replace_above_func_ret above s) ≡ base_of s)
      × (Option.map (λ r. r.0) (clear_above_func_ret (replace_above_func_ret above s) acts)
          ≡ Option.map (λ r. r.0) (clear_above_func_ret s acts))
replace-keeps-base above s acts a =
    let e = replace_above_func_ret_lem above s in
    let base = base_of s in
    let len : len_above_func_ret (stack (above ++ base)) ≡ length above =
      let sum = len-Above-append above base a in
      let none_above = base_of-len s.items in omega arith in
    let kept : base_of (stack (above ++ base)) ≡ base =
      base-append above base a ∙ base-base s.items in
    (
      ap (λ l. len_above_func_ret (stack l)) e ∙ len,
      ap (take (length above)) e ∙ take-append above base,
      ap (λ l. base_of (stack l)) e ∙ kept,
      ap (Option.map (λ r. r.0)) (clear_above_func_ret_lem (replace_above_func_ret above s) acts)
          ∙ ap (λ l. some (stack l)) (ap (λ l. base_of (stack l)) e ∙ kept)
          ∙ sym (ap (Option.map (λ r. r.0)) (clear_above_func_ret_lem s acts)),
    )
