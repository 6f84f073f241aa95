-- ===== src/Ir/Interpret/Insts/Control.antt =====
-- crates/ir/src/interpret/control_flow.rs: where the branches jump to and what a phi yields.
use sonatina.Base.{
  ℕ, ◌≡◌, refl, ap, ◌∙◌, true, false, Option, none, some, List, [], ◌∷◌, ◌++◌, All, ◌==◌,
  if◌then◌else◌, sym, append-nil, ==_iff,
}
use sonatina.Ir.Interpret.{EvalValue, Action, StateOps, as_imm}
use sonatina.Ir.Interpret.Insts.{ControlInst, interpret_control, search_table, select_phi}
use sonatina.Ir.Interpret.Insts.State.{IsState, bind_eq}
use sonatina.Ir.U256.{U256Ops, IsU256}
use sonatina.Ir.Value
use sonatina.Ir.Value.{Immediate}
use sonatina.Ir.Value.Apply.{is_zero_imm_lem}
use sonatina.Ir.Value.Bits.{bits, IsValid}

-- The value of an entry of a table is not the scrutinee.
abbrev pub Misses : Immediate → EvalValue → Type 0
Misses s (EvalValue.imm e) = Value.same s e ≡ false
Misses s (EvalValue.aggregate _ _) = Unit
Misses s EvalValue.undef = Unit

abbrev default_action : Option ℕ → Action
default_action none = Action.fall_through
default_action (some dest) = Action.jump_to dest

module _ {S : Type 0} (u : U256Ops) (st : StateOps S) (read : S → ℕ → EvalValue) (prev : S → ℕ)
    (keeps : IsState st read prev) (s : S) where
  -- In a state that keeps its values, on a valid immediate, `Br` jumps to the block for zero if its bits are all clear, and to the
  -- other block otherwise.
  pub br_lem :
      (laws : IsU256 u) (cond nz_dest z_dest : ℕ) (c : Immediate)
      → read s cond ≡ EvalValue.imm c
      → IsValid c
      → interpret_control u st (ControlInst.br cond nz_dest z_dest) s
        ≡ some (
          EvalValue.undef,
          st.set_action (Action.jump_to (if bits c == 0 then z_dest else nz_dest)) s,
        )
  unfolding interpret_control as_imm
  br_lem laws cond nz_dest z_dest c e h =
      bind_eq u st (st.lookup_val cond) _ s (read s cond) s (keeps.lookup_law cond s)
      ∙ rw (e, is_zero_imm_lem u laws c h)

  -- The loop over the entries passes by those that miss.
  search_table_skips :
      (sc : Immediate) (default : Option ℕ) (pre post : List (ℕ × ℕ))
      → All (λ (entry : ℕ × ℕ). Misses sc (read s entry.0)) pre
      → search_table u st sc default (pre ++ post) s ≡ search_table u st sc default post s
  unfolding search_table as_imm
  search_table_skips sc default [] post h = refl
  search_table_skips sc default ((value, block) ∷ pre) post h =
      bind_eq u st (st.lookup_val value) _ s (read s value) s (keeps.lookup_law value s)
      ∙ missed (read s value) h.0
      ∙ search_table_skips sc default pre post h.1
    where
      missed :
          (v : EvalValue)
          → Misses sc v
          → (elim (as_imm v) as (λ _. S → Option (EvalValue × S)) [
            | none ↦ search_table u st sc default (pre ++ post)
            | some e ↦ elim (Value.same sc e) as (λ _. S → Option (EvalValue × S)) [
              | true ↦ (λ t. some (EvalValue.undef, st.set_action (Action.jump_to block) t))
              | false ↦ search_table u st sc default (pre ++ post)
            ]
          ])
              s
            ≡ search_table u st sc default (pre ++ post) s
      missed (EvalValue.imm e) m = rw m
      missed (EvalValue.aggregate _ _) m = refl
      missed EvalValue.undef m = refl

  search_table_end :
      (sc : Immediate) (default : Option ℕ)
      → search_table u st sc default [] s
        ≡ some (EvalValue.undef, st.set_action (default_action default) s)
  unfolding search_table
  search_table_end sc none = refl
  search_table_end sc (some dest) = refl

  search_table_hit :
      (sc e : Immediate) (default : Option ℕ) (value block : ℕ) (post : List (ℕ × ℕ))
      → read s value ≡ EvalValue.imm e
      → Value.same sc e ≡ true
      → search_table u st sc default ((value, block) ∷ post) s
        ≡ some (EvalValue.undef, st.set_action (Action.jump_to block) s)
  unfolding search_table as_imm
  search_table_hit sc e default value block post read_e hit =
      bind_eq u st (st.lookup_val value) _ s (read s value) s (keeps.lookup_law value s)
      ∙ rw (read_e, hit)

  entered :
      (scrutinee : ℕ) (default : Option ℕ) (table : List (ℕ × ℕ)) (sc : Immediate)
      → read s scrutinee ≡ EvalValue.imm sc
      → interpret_control u st (ControlInst.br_table scrutinee default table) s
        ≡ search_table u st sc default table s
  unfolding interpret_control as_imm
  entered scrutinee default table sc read_sc =
      bind_eq u st (st.lookup_val scrutinee) _ s (read s scrutinee) s (keeps.lookup_law scrutinee s)
      ∙ rw read_sc

  -- In a state that keeps its values, `BrTable` on an immediate jumps to the block of the first entry whose value is an equal
  -- immediate: entries before it that miss have no effect.
  pub br_table-hit :
      (scrutinee value block : ℕ) (default : Option ℕ) (pre post : List (ℕ × ℕ)) (sc e : Immediate)
      → read s scrutinee ≡ EvalValue.imm sc
      → All (λ (entry : ℕ × ℕ). Misses sc (read s entry.0)) pre
      → read s value ≡ EvalValue.imm e
      → Value.same sc e ≡ true
      → interpret_control u st
          (ControlInst.br_table scrutinee default (pre ++ (value, block) ∷ post))
          s
        ≡ some (EvalValue.undef, st.set_action (Action.jump_to block) s)
  br_table-hit scrutinee value block default pre post sc e read_sc misses read_e hit =
      entered scrutinee default (pre ++ (value, block) ∷ post) sc read_sc
      ∙ search_table_skips sc default pre ((value, block) ∷ post) misses
      ∙ search_table_hit sc e default value block post read_e hit

  -- In a state that keeps its values, `BrTable` on an immediate that no entry equals jumps to the default block, and falls through
  -- where there is none.
  pub br_table-miss :
      (scrutinee : ℕ) (default : Option ℕ) (table : List (ℕ × ℕ)) (sc : Immediate)
      → read s scrutinee ≡ EvalValue.imm sc
      → All (λ (entry : ℕ × ℕ). Misses sc (read s entry.0)) table
      → interpret_control u st (ControlInst.br_table scrutinee default table) s
        ≡ some (EvalValue.undef, st.set_action (default_action default) s)
  br_table-miss scrutinee default table sc read_sc misses =
      entered scrutinee default table sc read_sc
      ∙ ap (λ t. search_table u st sc default t s) (sym (append-nil table))
      ∙ search_table_skips sc default table [] misses
      ∙ search_table_end sc default

  select_phi_skips :
      (t : S) (args post : List (ℕ × ℕ)) (block : ℕ)
      → All (λ (arg : ℕ × ℕ). (block == arg.1) ≡ false) args
      → select_phi u st block (args ++ post) t ≡ select_phi u st block post t
  unfolding select_phi
  select_phi_skips t [] post block h = refl
  select_phi_skips t ((value, b) ∷ args) post block h =
      rw h.0 (select_phi_skips t args post block h.1)

  select_phi_hit :
      (t : S) (value : ℕ) (post : List (ℕ × ℕ)) (block : ℕ)
      → select_phi u st block ((value, block) ∷ post) t ≡ some (read t value, t)
  unfolding select_phi
  select_phi_hit t value post block = rw ((==_iff block block).1 refl) (keeps.lookup_law value t)

  -- In a state that keeps its values, `Phi` yields the value of its first argument whose block is the one before, and goes on.
  pub phi-hit :
      (pre post : List (ℕ × ℕ)) (value : ℕ)
      → All (λ (arg : ℕ × ℕ). (prev s == arg.1) ≡ false) pre
      → interpret_control u st (ControlInst.phi (pre ++ (value, prev s) ∷ post)) s
        ≡ some (read s value, st.set_action Action.continue s)
  unfolding interpret_control
  phi-hit pre post value others =
      bind_eq u st st.prev_block _ s (prev s) s (keeps.prev_law s)
      ∙ select_phi_skips (st.set_action Action.continue s) pre ((value, prev s) ∷ post) (prev s)
          others
      ∙ select_phi_hit (st.set_action Action.continue s) value post (prev s)
      ∙ ap (λ r. some (r, st.set_action Action.continue s)) (keeps.read_law Action.continue s value)

  -- In a state that keeps its values, `Phi` without an argument for the block before yields an undefined value, and goes on.
  pub phi-miss :
      (args : List (ℕ × ℕ))
      → All (λ (arg : ℕ × ℕ). (prev s == arg.1) ≡ false) args
      → interpret_control u st (ControlInst.phi args) s
        ≡ some (EvalValue.undef, st.set_action Action.continue s)
  unfolding interpret_control select_phi
  phi-miss args others =
      bind_eq u st st.prev_block _ s (prev s) s (keeps.prev_law s)
      ∙ ap (λ t. select_phi u st (prev s) t (st.set_action Action.continue s))
          (sym (append-nil args))
      ∙ select_phi_skips (st.set_action Action.continue s) args [] (prev s) others
      ∙ refl
