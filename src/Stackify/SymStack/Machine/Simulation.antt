-- ===== src/Stackify/SymStack/Machine/Simulation.antt =====
-- Each method of sym_stack.rs that emits actions, and any sequence of them, is simulated by the
-- machine.
use sonatina.Base.{
  ℕ, zero, suc, ◌-◌, ◌%◌, ◌^◌, ◌≡◌, refl, sym, ap, ◌∙◌, Bool, true, false, Option, none, some, List,
  [], ◌∷◌, ◌++◌, map, arith, get_elem?, set, ◌>>=◌, >>=-eq-some, append_assoc, append-nil, assert,
  ltb, leb, ◌&&◌,
}
use mathlib.Core.Path.{subst}
use mathlib.Core.Option.{some-injective}
use sonatina.Stackify.{Action}
use sonatina.Stackify.SymStack.{
  StackItem, SymStack, Actions, dup, pop, pop_operand, pop_n, swap, swap_each, swap_items,
  is_func_ret, len_above_func_ret, stable_rotate_to_top, stable_delete_at_depth, clear_loop,
  position_call_ret_below_operands, is_call_ret,
}
use sonatina.Stackify.SymStack.Machine.Steps.{
  Words, exec, exec_action, exec-append, get_elem?-map, set-map, get_elem?-set,
}

module _ {ℓ} {W : Type ℓ} (words : Words W) (word : StackItem → W) where
  -- The words of the symbolic stack, over any words of the caller's.
  abbrev pub words_of : SymStack → List W → List W
  words_of s below = map word s.items ++ below

  -- The machine takes the words of `s` to those of `r.0` by the actions that `r.1` adds to `acts`.
  abbrev pub Emits : SymStack → Actions → SymStack × Actions → Type ℓ
  Emits s acts r =
      (new : Actions) × (r.1 ≡ acts ++ new)
      × ((below : List W) → exec words new (words_of s below) ≡ some (words_of r.0 below))

  pub Emits-refl : (s : SymStack) (acts : Actions) → Emits s acts (s, acts)
  unfolding exec
  Emits-refl s acts = ([], sym (append-nil acts), λ below. refl)

  pub Emits-trans :
      (s : SymStack) (acts : Actions) (r t : SymStack × Actions)
      → Emits s acts r
      → Emits r.0 r.1 t
      → Emits s acts t
  Emits-trans s acts r t (new, e, x) (new', e', x') = (
    new ++ new',
    e' ∙ ap (λ l. l ++ new') e ∙ append_assoc acts new new',
    λ below. rw (exec-append words new new' (words_of s below), x below) (x' below),
  )

  -- A chain of two methods.
  pub Emits-bind :
      (s : SymStack) (acts : Actions) (m : Option (SymStack × Actions))
      (k : SymStack × Actions → Option (SymStack × Actions)) (t : SymStack × Actions)
      → ((r : SymStack × Actions) → m ≡ some r → Emits s acts r)
      → ((r : SymStack × Actions) → k r ≡ some t → Emits r.0 r.1 t)
      → (m >>= k) ≡ some t
      → Emits s acts t
  Emits-bind s acts m k t first second h =
      let (r, hm, hk) = >>=-eq-some m k h in Emits-trans s acts r t (first r hm) (second r hk)

  -- One action.
  pub Emits-one :
      (s s' : SymStack) (acts : Actions) (a : Action) (r : SymStack × Actions)
      → ((below : List W) → exec_action words a (words_of s below) ≡ some (words_of s' below))
      → ◌≡◌ {A = Option (SymStack × Actions)} (some (s', acts ++ a ∷ [])) (some r)
      → Emits s acts r
  unfolding exec
  Emits-one s s' acts a r x e =
      subst (Emits s acts) (some-injective _ _ e) (a ∷ [], refl, λ below. rw (x below))

  pub dup-Emits :
      (pos : ℕ) (s : SymStack) (acts : Actions) (r : SymStack × Actions)
      → dup pos s acts ≡ some r
      → Emits s acts r
  unfolding dup exec_action
  dup-Emits pos s acts r h =
      let (_, in_range, h1) = >>=-eq-some (assert (ltb pos 16)) _ h in
      let (_, _, h2) = >>=-eq-some (assert (ltb pos (len_above_func_ret s))) _ h1 in
      let (x, hx, h3) = >>=-eq-some (get_elem? s.items pos) _ h2 in
      let small : pos % 2 ^ 8 ≡ pos = ground arith in
      Emits-one s (record { items = x ∷ s.items }) acts (Action.stack_dup (pos % 2 ^ 8)) r
        (λ below. rw (small, get_elem?-map word s.items below pos x hx)) h3

  exec-pop_operand :
      (l : List StackItem) (s' : SymStack) (below : List W)
      → pop_operand (record { items = l }) ≡ some s'
      → exec_action words Action.pop (map word l ++ below) ≡ some (words_of s' below)
  unfolding pop_operand exec_action
  exec-pop_operand [] s' below h = cc
  exec-pop_operand (StackItem.value v ∷ l) s' below h = cc
  exec-pop_operand (StackItem.func_ret_addr ∷ l) s' below h = cc
  exec-pop_operand (StackItem.call_ret_addr ∷ l) s' below h = cc

  pub pop-Emits :
      (s : SymStack) (acts : Actions) (r : SymStack × Actions)
      → pop s acts ≡ some r
      → Emits s acts r
  unfolding pop
  pop-Emits s acts r h =
      let (s', hs, h1) = >>=-eq-some (pop_operand s) _ h in
      Emits-one s s' acts Action.pop r (λ below. exec-pop_operand s.items s' below hs) h1

  pub swap-Emits :
      (d : ℕ) (s : SymStack) (acts : Actions) (r : SymStack × Actions)
      → swap d s acts ≡ some r
      → Emits s acts r
  unfolding swap exec_action
  swap-Emits zero s acts r h = subst (Emits s acts) (some-injective _ _ h) (Emits-refl s acts)
  swap-Emits (suc d) s acts r h =
      let (_, in_range, h1) = >>=-eq-some (assert (leb (suc d) 16)) _ h in
      let (_, _, h2) = >>=-eq-some (assert (ltb (suc d) (len_above_func_ret s))) _ h1 in
      let (items, hi, h3) = >>=-eq-some (swap_items s.items 0 (suc d)) _ h2 in
      let (a, ha, hi1) = >>=-eq-some (get_elem? s.items 0) _ hi in
      let (b, hb, hi2) = >>=-eq-some (get_elem? s.items (suc d)) _ hi1 in
      let small : suc d % 2 ^ 8 ≡ suc d = ground arith in
      let (c, hc) = get_elem?-set s.items 0 (suc d) b b hb in
      Emits-one s (record { items = items }) acts (Action.stack_swap (suc d % 2 ^ 8)) r
        (λ below.
          rw
            (
              small,
              get_elem?-map word s.items below 0 a ha,
              get_elem?-map word s.items below (suc d) b hb,
              set-map word s.items below 0 a b ha,
              set-map word (set s.items 0 b) below (suc d) c a hc,
            )
            (ap (λ l. some (map word l ++ below)) (some-injective _ _ hi2)))
        h3

  pub swap_each-Emits :
      (count from : ℕ) (s : SymStack) (acts : Actions) (r : SymStack × Actions)
      → swap_each count from s acts ≡ some r
      → Emits s acts r
  unfolding swap_each
  swap_each-Emits zero from s acts r h =
      subst (Emits s acts) (some-injective _ _ h) (Emits-refl s acts)
  swap_each-Emits (suc count) from s acts r h =
      Emits-bind s acts (swap from s acts) (λ q. swap_each count (suc from) q.0 q.1) r
        (swap-Emits from s acts) (λ q. swap_each-Emits count (suc from) q.0 q.1 r) h

  pub pop_n-Emits :
      (n : ℕ) (s : SymStack) (acts : Actions) (r : SymStack × Actions)
      → pop_n n s acts ≡ some r
      → Emits s acts r
  unfolding pop_n
  pop_n-Emits zero s acts r h = subst (Emits s acts) (some-injective _ _ h) (Emits-refl s acts)
  pop_n-Emits (suc n) s acts r h =
      Emits-bind s acts (pop s acts) (λ q. pop_n n q.0 q.1) r (pop-Emits s acts)
        (λ q. pop_n-Emits n q.0 q.1 r) h

  pub stable_rotate_to_top-Emits :
      (pos : ℕ) (s : SymStack) (acts : Actions) (r : SymStack × Actions)
      → stable_rotate_to_top pos s acts ≡ some r
      → Emits s acts r
  unfolding stable_rotate_to_top
  stable_rotate_to_top-Emits zero s acts r h =
      subst (Emits s acts) (some-injective _ _ h) (Emits-refl s acts)
  stable_rotate_to_top-Emits (suc p) s acts r h =
      let (_, _, h1) = >>=-eq-some (assert (leb (suc p) 16)) _ h in
      let (_, _, h2) = >>=-eq-some (assert (ltb (suc p) (len_above_func_ret s))) _ h1 in
      swap_each-Emits (suc p) 1 s acts r h2

  pub stable_delete_at_depth-Emits :
      (depth : ℕ) (s : SymStack) (acts : Actions) (r : SymStack × Actions)
      → stable_delete_at_depth depth s acts ≡ some r
      → Emits s acts r
  unfolding stable_delete_at_depth
  stable_delete_at_depth-Emits depth s acts r h =
      let (_, _, h1) = >>=-eq-some (assert (leb 1 depth && leb depth 17)) _ h in
      let (_, _, h2) = >>=-eq-some (assert (leb depth (len_above_func_ret s))) _ h1 in
      Emits-bind s acts (swap_each (depth - 1) 1 s acts) (λ q. pop q.0 q.1) r
        (swap_each-Emits (depth - 1) 1 s acts) (λ q. pop-Emits q.0 q.1 r) h2

  pub position_call_ret-Emits :
      (n : ℕ) (s : SymStack) (acts : Actions) (r : SymStack × Actions)
      → position_call_ret_below_operands n s acts ≡ some r
      → Emits s acts r
  unfolding position_call_ret_below_operands
  position_call_ret-Emits zero s acts r h =
      subst (Emits s acts) (some-injective _ _ h) (Emits-refl s acts)
  position_call_ret-Emits (suc n) s acts r h =
      let (_, _, h1) = >>=-eq-some (assert (is_call_ret (get_elem? s.items 0))) _ h in
      let (_, _, h2) = >>=-eq-some (assert (leb (suc n) 16)) _ h1 in
      let (_, _, h3) = >>=-eq-some (assert (ltb (suc n) (len_above_func_ret s))) _ h2 in
      let (q, hq, h4) = >>=-eq-some (swap (suc n) s acts) _ h3 in
      let (_, _, h5) = >>=-eq-some (assert (is_call_ret (get_elem? q.0.items (suc n)))) _ h4 in
      subst (Emits s acts) (some-injective _ _ h5) (swap-Emits (suc n) s acts q hq)

  pub clear_loop-Emits :
      (fuel : ℕ) (s : SymStack) (acts : Actions) (r : SymStack × Actions)
      → clear_loop fuel s acts ≡ some r
      → Emits s acts r
  unfolding clear_loop
  clear_loop-Emits zero s acts r h = cc
  clear_loop-Emits (suc fuel) s acts r h =
      step (get_elem? s.items 0) h (λ q. clear_loop-Emits fuel q.0 q.1 r)
    where
      go :
          (b : Bool)
          → (elim b [ true ↦ some (s, acts) | false ↦ pop s acts >>= λ q. clear_loop fuel q.0 q.1 ])
            ≡ some r
          → ((q : SymStack × Actions) → clear_loop fuel q.0 q.1 ≡ some r → Emits q.0 q.1 r)
          → Emits s acts r
      go true e rest = subst (Emits s acts) (some-injective _ _ e) (Emits-refl s acts)
      go false e rest =
          Emits-bind s acts (pop s acts) (λ q. clear_loop fuel q.0 q.1) r (pop-Emits s acts) rest e

      step :
          (o : Option StackItem)
          → (elim o [
            | none ↦ some (s, acts)
            | some top ↦ elim (is_func_ret top) [
              | true ↦ some (s, acts)
              | false ↦ pop s acts >>= λ q. clear_loop fuel q.0 q.1
            ]
          ])
            ≡ some r
          → ((q : SymStack × Actions) → clear_loop fuel q.0 q.1 ≡ some r → Emits q.0 q.1 r)
          → Emits s acts r
      step none e rest = subst (Emits s acts) (some-injective _ _ e) (Emits-refl s acts)
      step (some top) e rest = go (is_func_ret top) e rest
