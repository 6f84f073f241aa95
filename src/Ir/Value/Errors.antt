-- ===== src/Ir/Value/Errors.antt =====
-- value.rs: the binary operations panic on operands of different types, and on no others.
use sonatina.Base.{◌≡◌, ◌↔◌, inl, inr, refl, true, false, not, Option, none, some, Bool-cases}
use sonatina.Ir.Types.{Ty, ty_eq}
use sonatina.Ir.U256.{U256Ops, IsU256}
use sonatina.Ir.Value
use sonatina.Ir.Value.{Immediate, ty, apply_binop, apply_binop_raw, imm_eq, imm_ne, same}
use sonatina.Ir.Value.Apply.{ty_eq_self}
use sonatina.Ir.Value.Bits.{IsValid, Integral, ty-Integral}
use sonatina.Ir.Value.Compare.{comparisons_order}
use sonatina.Ir.Value.Wrap.{add_wraps, sub_wraps, mul_wraps}

ty_eq_sound : {s t : Ty} → Integral s → Integral t → ty_eq s t ≡ true → t ≡ s
unfolding ty_eq
ty_eq_sound Integral.i1 Integral.i1 h = refl
ty_eq_sound Integral.i8 Integral.i8 h = refl
ty_eq_sound Integral.i16 Integral.i16 h = refl
ty_eq_sound Integral.i32 Integral.i32 h = refl
ty_eq_sound Integral.i64 Integral.i64 h = refl
ty_eq_sound Integral.i128 Integral.i128 h = refl
ty_eq_sound Integral.i256 Integral.i256 h = refl
ty_eq_sound _ _ h = absurd (cc h)

module _ (u : U256Ops) (laws : IsU256 u) (a b : Immediate) (ha : IsValid a) (hb : IsValid b) where
  -- The operation panics if the types differ, and returns something if they are the same.
  abbrev PanicsOnMismatch : Option Immediate → Type 0
  PanicsOnMismatch o = (o ≡ none) ↔ (ty_eq (ty a) (ty b) ≡ false)

  panics_lem :
      (o : Option Immediate)
      → (ty_eq (ty a) (ty b) ≡ false → o ≡ none)
      → (ty b ≡ ty a → (r : Immediate) × (o ≡ some r))
      → PanicsOnMismatch o
  panics_lem o fails returns = (
    λ gone. elim (Bool-cases (ty_eq (ty a) (ty b))) [
      | inl same_ty ↦
          let (r, e) = returns (ty_eq_sound (ty-Integral a) (ty-Integral b) same_ty) in
          absurd (cc (gone, e))
      | inr differ ↦ differ
    ],
    fails,
  )

  -- Addition, subtraction, multiplication and the ten comparisons of two valid immediates panic exactly if the types of
  -- the two differ: on operands of one type, neither an assertion fails nor does the result miss its type.
  pub type_mismatch_panics :
      PanicsOnMismatch (Value.add u a b)
      × PanicsOnMismatch (Value.sub u a b)
      × PanicsOnMismatch (Value.mul u a b)
      × PanicsOnMismatch (Value.lt_imm u a b)
      × PanicsOnMismatch (Value.gt_imm u a b)
      × PanicsOnMismatch (Value.le u a b)
      × PanicsOnMismatch (Value.ge u a b)
      × PanicsOnMismatch (Value.slt u a b)
      × PanicsOnMismatch (Value.sgt u a b)
      × PanicsOnMismatch (Value.sle u a b)
      × PanicsOnMismatch (Value.sge u a b)
      × PanicsOnMismatch (imm_eq a b)
      × PanicsOnMismatch (imm_ne a b)
  unfolding Value.add Value.sub Value.mul Value.lt_imm Value.gt_imm Value.le Value.ge Value.slt
      Value.sgt Value.sle Value.sge imm_eq imm_ne apply_binop apply_binop_raw
  type_mismatch_panics =
      let ordered = comparisons_order u laws a b ha hb in
      (
        panics_lem _ (λ d. rw d) (λ s. let y = add_wraps u laws a b ha hb s in (y.0, y.1)),
        panics_lem _ (λ d. rw d) (λ s. let y = sub_wraps u laws a b ha hb s in (y.0, y.1)),
        panics_lem _ (λ d. rw d) (λ s. let y = mul_wraps u laws a b ha hb s in (y.0, y.1)),
        panics_lem _ (λ d. rw d) (λ s. (_, (ordered s).0)),
        panics_lem _ (λ d. rw d) (λ s. (_, (ordered s).1)),
        panics_lem _ (λ d. rw d) (λ s. (_, (ordered s).2)),
        panics_lem _ (λ d. rw d) (λ s. (_, (ordered s).3)),
        panics_lem _ (λ d. rw d) (λ s. (_, (ordered s).4)),
        panics_lem _ (λ d. rw d) (λ s. (_, (ordered s).5)),
        panics_lem _ (λ d. rw d) (λ s. (_, (ordered s).6)),
        panics_lem _ (λ d. rw d) (λ s. (_, (ordered s).7)),
        panics_lem _ (λ d. rw d) (λ s. (Immediate.i1 (same a b), rw (s, ty_eq_self (ty a)) refl)),
        panics_lem _ (λ d. rw d)
            (λ s. (Immediate.i1 (not (same a b)), rw (s, ty_eq_self (ty a)) refl)),
      )
