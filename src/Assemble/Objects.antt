-- ===== src/Assemble/Objects.antt =====
-- assemble.rs: the layout of an object, from `ObjectLayout::new` through the repeated `resize`.
use sonatina.Base.{
  ℕ, ◌^◌, ◌<◌, ◌≡◌, refl, sym, ap, ◌∙◌, Bool, false, some, List, [], ◌∷◌, ◌==◌, map, mem, length,
  arith, All, >>=-eq-some,
}
use mathlib.Core.Path.{subst}
use mathlib.Core.Option.{some-injective}
use sonatina.Ir.Layout.Chain.{Distinct}
use sonatina.Assemble.{
  Backend, FuncLayout, VCode, add_u32, write, new_func, new_funcs, rough_blocks, resize_func,
  resize_funcs, emit_func,
}
use sonatina.Assemble.Placed.{IsBackend, add_u32_lt, add_u32_mod}
use sonatina.Assemble.Writes.{write_same, write_at, or_false}
use sonatina.Assemble.Functions.{FuncAt, resize_func_lem}
use sonatina.Assemble.Begins.{resize_func-begins}

write_other : {A : Type 0} (f : ℕ → A) (k i : ℕ) (v : A) → (i == k) ≡ false → write f k v i ≡ f i
write_other f k i v e = rw e refl

not_equal : (a b : ℕ) → (a == b) ≡ false → (b == a) ≡ false
not_equal a b h = ground (arith, h)

module _ {O : Type 0} where
  unfoldable pub keys : List (ℕ × FuncLayout O) → List ℕ
  keys [] = []
  keys (f ∷ fs) = f.0 ∷ keys fs

  -- `func_offsets` has the offset of each function.
  unfoldable pub Synced : (ℕ → ℕ) → List (ℕ × FuncLayout O) → Type 0
  Synced offsets fs = All (λ f. offsets f.0 ≡ f.1.offset) fs

  Synced-write :
      (offsets : ℕ → ℕ) (fs : List (ℕ × FuncLayout O)) (k v : ℕ)
      → mem k (keys fs) ≡ false
      → Synced offsets fs
      → Synced (write offsets k v) fs
  unfolding Synced keys
  Synced-write offsets [] k v m s = tt
  Synced-write offsets (f ∷ fs) k v m (e, s) =
      let (ne, rest) = or_false (k == f.0) _ m in
      (write_other offsets k f.0 v (not_equal k f.0 ne) ∙ e, Synced-write offsets fs k v rest s)

  new_func-begins :
      (v : VCode O) (order : List ℕ) (o : ℕ) (lay : FuncLayout O)
      → new_func v order o ≡ some lay
      → lay.offset ≡ o
  unfolding new_func
  new_func-begins v order o lay h =
      let (_, _, e) = >>=-eq-some (rough_blocks v order (λ _. 0) o) _ h in
      ap (λ (l : FuncLayout O). l.offset) (sym (some-injective _ _ e))

  pub new_funcs-keys :
      (fs : List (ℕ × VCode O × List ℕ)) (o : ℕ) (offsets : ℕ → ℕ)
      (r : List (ℕ × FuncLayout O) × (ℕ → ℕ) × ℕ)
      → new_funcs fs o offsets ≡ some r
      → keys r.0 ≡ map (λ f. f.0) fs
  unfolding new_funcs keys
  new_funcs-keys [] o offsets r h = ap (λ q. keys q.0) (sym (some-injective _ _ h))
  new_funcs-keys (f ∷ fs) o offsets r h =
      let (lay, _, h1) = >>=-eq-some (new_func f.1 f.2 o) _ h in
      let (q, hq, h2) =
        >>=-eq-some (new_funcs fs (add_u32 o lay.size) (write offsets f.0 o)) _ h1 in
      ap (λ q. keys q.0) (sym (some-injective _ _ h2))
      ∙ ap (λ ks. f.0 ∷ ks) (new_funcs-keys fs _ _ q hq)

  -- The entries of other functions are left alone.
  new_funcs-other :
      (fs : List (ℕ × VCode O × List ℕ)) (o : ℕ) (offsets : ℕ → ℕ)
      (r : List (ℕ × FuncLayout O) × (ℕ → ℕ) × ℕ) (k : ℕ)
      → new_funcs fs o offsets ≡ some r
      → mem k (map (λ f. f.0) fs) ≡ false
      → r.1 k ≡ offsets k
  unfolding new_funcs
  new_funcs-other [] o offsets r k h m = ap (λ q. q.1 k) (sym (some-injective _ _ h))
  new_funcs-other (f ∷ fs) o offsets r k h m =
      let (lay, _, h1) = >>=-eq-some (new_func f.1 f.2 o) _ h in
      let (q, hq, h2) =
        >>=-eq-some (new_funcs fs (add_u32 o lay.size) (write offsets f.0 o)) _ h1 in
      let (ne, rest) = or_false (k == f.0) _ m in
      ap (λ q. q.1 k) (sym (some-injective _ _ h2))
      ∙ new_funcs-other fs _ _ q k hq rest
      ∙ write_other offsets f.0 k o ne

  pub new_funcs-Synced :
      (fs : List (ℕ × VCode O × List ℕ)) (o : ℕ) (offsets : ℕ → ℕ)
      (r : List (ℕ × FuncLayout O) × (ℕ → ℕ) × ℕ)
      → new_funcs fs o offsets ≡ some r
      → Distinct (map (λ f. f.0) fs)
      → Synced r.1 r.0
  unfolding new_funcs Synced
  new_funcs-Synced [] o offsets r h d = subst (λ q. Synced q.1 q.0) (some-injective _ _ h) tt
  new_funcs-Synced (f ∷ fs) o offsets r h d =
      let (lay, hl, h1) = >>=-eq-some (new_func f.1 f.2 o) _ h in
      let (q, hq, h2) =
        >>=-eq-some (new_funcs fs (add_u32 o lay.size) (write offsets f.0 o)) _ h1 in
      subst (λ q. Synced q.1 q.0) (some-injective _ _ h2)
        (
          new_funcs-other fs _ _ q f.0 hq d.0
              ∙ write_at offsets f.0 o
              ∙ sym (new_func-begins f.1 f.2 o lay hl),
          new_funcs-Synced fs _ _ q hq d.1,
        )

  module _ (backend : Backend O) where
    pub resize_funcs-keys :
        (fs : List (ℕ × FuncLayout O)) (o : ℕ) (offsets : ℕ → ℕ)
        (r : List (ℕ × FuncLayout O) × (ℕ → ℕ) × Bool)
        → resize_funcs backend fs o offsets ≡ some r
        → keys r.0 ≡ keys fs
    unfolding resize_funcs keys
    resize_funcs-keys [] o offsets r h = ap (λ q. keys q.0) (sym (some-injective _ _ h))
    resize_funcs-keys (f ∷ fs) o offsets r h =
        let (u, hu, h1) = >>=-eq-some (resize_func backend offsets f.1 o) _ h in
        let (q, hq, h2) =
          >>=-eq-some (resize_funcs backend fs (add_u32 o u.0.size) (write offsets f.0 o)) _ h1 in
        ap (λ q. keys q.0) (sym (some-injective _ _ h2))
        ∙ ap (λ ks. f.0 ∷ ks) (resize_funcs-keys fs _ _ q hq)

    resize_funcs-other :
        (fs : List (ℕ × FuncLayout O)) (o : ℕ) (offsets : ℕ → ℕ)
        (r : List (ℕ × FuncLayout O) × (ℕ → ℕ) × Bool) (k : ℕ)
        → resize_funcs backend fs o offsets ≡ some r
        → mem k (keys fs) ≡ false
        → r.1 k ≡ offsets k
    unfolding resize_funcs keys
    resize_funcs-other [] o offsets r k h m = ap (λ q. q.1 k) (sym (some-injective _ _ h))
    resize_funcs-other (f ∷ fs) o offsets r k h m =
        let (u, hu, h1) = >>=-eq-some (resize_func backend offsets f.1 o) _ h in
        let (q, hq, h2) =
          >>=-eq-some (resize_funcs backend fs (add_u32 o u.0.size) (write offsets f.0 o)) _ h1 in
        let (ne, rest) = or_false (k == f.0) _ m in
        ap (λ q. q.1 k) (sym (some-injective _ _ h2))
        ∙ resize_funcs-other fs _ _ q k hq rest
        ∙ write_other offsets f.0 k o ne

    pub resize_funcs-Synced :
        (fs : List (ℕ × FuncLayout O)) (o : ℕ) (offsets : ℕ → ℕ)
        (r : List (ℕ × FuncLayout O) × (ℕ → ℕ) × Bool)
        → resize_funcs backend fs o offsets ≡ some r
        → Distinct (keys fs)
        → Synced r.1 r.0
    unfolding resize_funcs keys Synced
    resize_funcs-Synced [] o offsets r h d = subst (λ q. Synced q.1 q.0) (some-injective _ _ h) tt
    resize_funcs-Synced (f ∷ fs) o offsets r h d =
        let (u, hu, h1) = >>=-eq-some (resize_func backend offsets f.1 o) _ h in
        let (q, hq, h2) =
          >>=-eq-some (resize_funcs backend fs (add_u32 o u.0.size) (write offsets f.0 o)) _ h1 in
        subst (λ q. Synced q.1 q.0) (some-injective _ _ h2)
          (
            resize_funcs-other fs _ _ q f.0 hq d.0
                ∙ write_at offsets f.0 o
                ∙ sym (resize_func-begins backend offsets f.1 o u hu),
            resize_funcs-Synced fs _ _ q hq d.1,
          )

    -- Each function is where it is emitted.
    unfoldable pub FuncsAt : (ℕ → ℕ) → List (ℕ × FuncLayout O) → ℕ → Type 0
    FuncsAt offsets [] o = Unit {0}
    FuncsAt offsets (f ∷ fs) o =
        ((offsets f.0 ≡ o) × FuncAt backend offsets f.1 o)
        × FuncsAt offsets fs (add_u32 o (length (emit_func backend f.1)))

    module _ (laws : IsBackend backend) where
      pub resize_funcs_lem :
          (fs : List (ℕ × FuncLayout O)) (o : ℕ) (offsets : ℕ → ℕ)
          (r : List (ℕ × FuncLayout O) × (ℕ → ℕ) × Bool)
          → Synced offsets fs
          → resize_funcs backend fs o offsets ≡ some r
          → r.2 ≡ false
          → o < 2 ^ 32
          → (r.1 ≡ offsets) × FuncsAt r.1 r.0 o
      unfolding resize_funcs Synced FuncsAt
      resize_funcs_lem [] o offsets r s h n lt =
          subst (λ q. (q.1 ≡ offsets) × FuncsAt q.1 q.0 o) (some-injective _ _ h) (refl, tt)
      resize_funcs_lem (f ∷ fs) o offsets r (s, ss) h n lt =
          let (u, hu, h1) = >>=-eq-some (resize_func backend offsets f.1 o) _ h in
          let (q, hq, h2) =
            >>=-eq-some (resize_funcs backend fs (add_u32 o u.0.size) (write offsets f.0 o)) _ h1 in
          let e = some-injective _ _ h2 in
          let (quiet, rest) = or_false u.1 q.2 (ap (λ x. x.2) e ∙ n) in
          let (was, here) = resize_func_lem backend offsets laws f.1 o u hu quiet lt in
          let kept = write_same offsets f.0 o (s ∙ was) in
          let (same, at) =
            resize_funcs_lem fs (add_u32 o u.0.size) offsets q ss
              (subst (λ g. resize_funcs backend fs (add_u32 o u.0.size) g ≡ some q) kept hq) rest
              (add_u32_lt o u.0.size) in
          let next = ap (add_u32 o) here.sized ∙ add_u32_mod o _ in
          subst (λ q. (q.1 ≡ offsets) × FuncsAt q.1 q.0 o) e
            (
              same,
              (
                (
                  ap (λ g. g f.0) same ∙ s ∙ was,
                  subst (λ g. FuncAt backend g u.0 o) (sym same) here,
                ),
                subst (FuncsAt q.1 q.0) next at,
              ),
            )
