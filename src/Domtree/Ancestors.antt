-- ===== src/Domtree/Ancestors.antt =====
-- domtree.rs: the blocks above a block in a tree of dominators, and the queries for them.
use mathlib.Core.Option.{some-injective}
use sonatina.Base.{
  ℕ, zero, suc, ◌+◌, ◌<◌, ◌≤◌, ◌≡◌, inl, inr, refl, sym, ap, ◌∙◌, Bool, true, false, Option, some,
  List, ◌∷◌, ◌==◌, arith, Bool-cases, ==_iff, ◌↔◌,
}
use sonatina.Domtree.{DomTree, idom_of, strictly_dominates, dominates}

-- `x` is the block `b`, or stands above it.
pub data Above (doms : ℕ → Option ℕ) : ℕ → ℕ → Type 0 where
  self : {b : ℕ} → Above doms b b
  up : {b d x : ℕ} → doms b ≡ some d → Above doms d x → Above doms b x

pub Above-trans :
    (doms : ℕ → Option ℕ) (a b c : ℕ) → Above doms a b → Above doms b c → Above doms a c
Above-trans doms a b c Above.self q = q
Above-trans doms a b c (Above.up e p) q = Above.up e (Above-trans doms _ b c p q)

-- The blocks of a tree under `root` have a dominator of a larger number, no two of them the same
-- number.
pub record IsTree (doms : ℕ → Option ℕ) (nums : ℕ → ℕ) (root : ℕ) (inside : ℕ → Bool) : Type 0 where
  pub root_inside : inside root ≡ true
  pub root_loops : doms root ≡ some root
  pub rises :
      (b : ℕ)
      → inside b ≡ true
      → (b == root) ≡ false
      → (d : ℕ) × (doms b ≡ some d) × (inside d ≡ true) × (nums b < nums d)
  pub highest : (b : ℕ) → inside b ≡ true → nums b ≤ nums root
  pub numbered : (a b : ℕ) → inside a ≡ true → inside b ≡ true → nums a ≡ nums b → a ≡ b

module _ (doms : ℕ → Option ℕ) (nums : ℕ → ℕ) (root : ℕ) (inside : ℕ → Bool)
    (t : IsTree doms nums root inside) where
  pub step-Above :
      (b d x : ℕ) → doms b ≡ some d → Above doms b x → (x == b) ≡ false → Above doms d x
  step-Above b d _ e Above.self n = absurd (ground arith)
  step-Above b d x e (Above.up e' p) n = rw (some-injective _ _ (sym e ∙ e')) p

  pub Above-inside : (b x : ℕ) → inside b ≡ true → Above doms b x → inside x ≡ true
  Above-inside b _ i Above.self = i
  Above-inside b x i (Above.up {d} e p) = elim (Bool-cases (b == root)) [
    | inl top ↦
        let there : d ≡ root =
          some-injective _ _ (sym e ∙ ap doms ((==_iff b root).0 top) ∙ t.root_loops) in
        Above-inside d x (rw there t.root_inside) p
    | inr other ↦
        let (c, e', i', lt) = t.rises b i other in
        let there : d ≡ c = some-injective _ _ (sym e ∙ e') in Above-inside d x (rw there i') p
  ]

  pub Above-rises : (b x : ℕ) → inside b ≡ true → Above doms b x → nums b ≤ nums x
  Above-rises b _ i Above.self = omega arith
  Above-rises b x i (Above.up {d} e p) = elim (Bool-cases (b == root)) [
    | inl top ↦
        let high = ap nums ((==_iff b root).0 top) in
        let there : d ≡ root =
          some-injective _ _ (sym e ∙ ap doms ((==_iff b root).0 top) ∙ t.root_loops) in
        let rest = Above-rises d x (rw there t.root_inside) p in
        let same = ap nums there in omega arith
    | inr other ↦
        let (c, e', i', lt) = t.rises b i other in
        let there : d ≡ c = some-injective _ _ (sym e ∙ e') in
        let rest = Above-rises d x (rw there i') p in let high = ap nums there in omega arith
  ]

  module _ (blocks : List ℕ) where
    abbrev tree : DomTree
    tree = record { doms = doms; rpo = root ∷ blocks }

    only_root : (x : ℕ) → Above doms root x → x ≡ root
    only_root x a =
        let i = Above-inside root x t.root_inside a in
        let h = Above-rises root x t.root_inside a in
        let l = t.highest x i in t.numbered x root i t.root_inside (omega arith)

    strict_lem :
        (fuel x b : ℕ)
        → inside b ≡ true
        → nums root < fuel + nums b
        → (r : Bool) × (strictly_dominates fuel tree x b ≡ some r)
          × (r ≡ true → Above doms b x)
          × (Above doms b x → (x == b) ≡ false → r ≡ true)
    unfolding strictly_dominates idom_of
    strict_lem zero x b i h = let l = t.highest b i in absurd (omega arith)
    strict_lem (suc fuel) x b i h = elim (Bool-cases (root == b)) [
      | inl top ↦
          let same : b ≡ root = sym ((==_iff root b).0 top) in
          (
            false,
            rw top,
            λ f. absurd cc,
            λ a n.
                let e : x ≡ b = only_root x (rw (sym same) a) ∙ sym same in absurd (ground arith),
          )
      | inr other ↦
          let (d, e, i', lt) = t.rises b i (ground arith) in
          elim (Bool-cases (d == x)) [
            | inl hit ↦ (
              true,
              rw (other, e, hit),
              λ _. Above.up e (rw ((==_iff d x).0 hit) Above.self),
              λ _ _. refl,
            )
            | inr miss ↦
                let (r, run, down, back) = strict_lem fuel x d i' (omega arith) in
                (
                  r,
                  rw (other, e, miss) run,
                  λ f. Above.up e (down f),
                  λ a n. back (step-Above b d x e a n) (ground arith),
                )
          ]
    ]

    -- In a tree whose numbers rise towards the first block of the reverse post order, and for a second
    -- block of that tree, `dominates` ends on more fuel than the root's number is above the block's,
    -- and says whether the first block is the second one or stands above it.
    pub dominates_lem :
        (fuel x b : ℕ)
        → inside b ≡ true
        → nums root < fuel + nums b
        → (r : Bool) × (dominates fuel tree x b ≡ some r) × ((r ≡ true) ↔ Above doms b x)
    unfolding dominates
    dominates_lem fuel x b i h = elim (Bool-cases (x == b)) [
      | inl same ↦ (true, rw same, (λ _. rw ((==_iff x b).0 same) Above.self, λ _. refl))
      | inr apart ↦
          let (r, run, down, back) = strict_lem fuel x b i h in
          (r, rw apart run, (down, λ a. back a apart))
    ]
