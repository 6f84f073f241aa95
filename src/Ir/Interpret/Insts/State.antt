-- ===== src/Ir/Interpret/Insts/State.antt =====
-- crates/ir/src/interpret/mod.rs: a state that keeps its values, and the two ways of reading operands.
use sonatina.Base.{ℕ, ◌≡◌, refl, ap, ◌∙◌, Option, none, some}
use sonatina.Ir.Interpret.{EvalValue, Action, StateOps, zip_with_imm}
use sonatina.Ir.Interpret.Insts.{action_first, action_twice, operands_first, lift, ◌>>=◌}
use sonatina.Ir.U256.{U256Ops}
use sonatina.Ir.Value.{Immediate}

-- What the comments of the trait `State` ask of an implementation: `lookup_val` gives the value that
-- is associated with an id and `prev_block` the block before, and neither these nor `set_action`
-- change the values.
pub record IsState {S : Type 0} (st : StateOps S) (read : S → ℕ → EvalValue) (prev : S → ℕ)
    : Type 0 where
  pub lookup_law : (v : ℕ) (s : S) → st.lookup_val v s ≡ some (read s v, s)
  pub prev_law : (s : S) → st.prev_block s ≡ some (prev s, s)
  pub read_law : (a : Action) (s : S) (v : ℕ) → read (st.set_action a s) v ≡ read s v

-- A value with the state that goes with it.
abbrev pub with_state : {S : Type 0} → S → Option EvalValue → Option (EvalValue × S)
with_state s none = none
with_state s (some v) = some (v, s)

module _ {S : Type 0} (u : U256Ops) (st : StateOps S) where
  -- A step that succeeds hands its value and its state on.
  pub bind_eq :
      {A B : Type 0} (m : S → Option (A × S)) (f : A → S → Option (B × S)) (s : S) (a : A) (t : S)
      → m s ≡ some (a, t)
      → ◌>>=◌ u st m f s ≡ f a t
  bind_eq m f s a t e = rw (e, ◌>>=◌)

  pub lift_eq : (o : Option EvalValue) (s : S) → lift u st o s ≡ with_state s o
  lift_eq none s = refl
  lift_eq (some v) s = refl

module _ {S : Type 0} (u : U256Ops) (st : StateOps S) (read : S → ℕ → EvalValue) (prev : S → ℕ)
    (keeps : IsState st read prev) where
  -- A value that is read after the action is set.
  pub lookup_after :
      (v : ℕ) (a : Action) (s : S)
      → st.lookup_val v (st.set_action a s) ≡ some (read s v, st.set_action a s)
  lookup_after v a s =
      keeps.lookup_law v (st.set_action a s)
      ∙ ap (λ r. some (r, st.set_action a s)) (keeps.read_law a s v)

  pub action_first_lem :
      (l r : ℕ) (s : S) (f : Immediate → Immediate → Option EvalValue)
      → action_first u st l r f s
        ≡ with_state (st.set_action Action.continue s) (zip_with_imm (read s l) (read s r) f)
  unfolding action_first
  action_first_lem l r s f =
      let t = st.set_action Action.continue s in
      bind_eq u st (st.lookup_val l) _ t (read s l) t (lookup_after l Action.continue s)
      ∙ bind_eq u st (st.lookup_val r) _ t (read s r) t (lookup_after r Action.continue s)
      ∙ lift_eq u st (zip_with_imm (read s l) (read s r) f) t

  pub operands_first_lem :
      (l r : ℕ) (s : S) (f : Immediate → Immediate → Option EvalValue)
      → operands_first u st l r f s
        ≡ with_state (st.set_action Action.continue s) (zip_with_imm (read s l) (read s r) f)
  unfolding operands_first
  operands_first_lem l r s f =
      bind_eq u st (st.lookup_val l) _ s (read s l) s (keeps.lookup_law l s)
      ∙ bind_eq u st (st.lookup_val r) _ s (read s r) s (keeps.lookup_law r s)
      ∙ lift_eq u st (zip_with_imm (read s l) (read s r) f) (st.set_action Action.continue s)

  pub action_twice_lem :
      (l r : ℕ) (s : S) (f : Immediate → Immediate → Option EvalValue)
      → action_twice u st l r f s
        ≡ with_state
            (st.set_action Action.continue (st.set_action Action.continue s))
            (zip_with_imm (read s l) (read s r) f)
  unfolding action_twice
  action_twice_lem l r s f =
      let t = st.set_action Action.continue s in
      bind_eq u st (st.lookup_val l) _ t (read s l) t (lookup_after l Action.continue s)
      ∙ bind_eq u st (st.lookup_val r) _ t (read s r) t (lookup_after r Action.continue s)
      ∙ lift_eq u st (zip_with_imm (read s l) (read s r) f) (st.set_action Action.continue t)
