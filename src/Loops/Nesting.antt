-- ===== src/Loops/Nesting.antt =====
-- loop_analysis.rs: a loop's parent has a lower index, so that the search for the outermost one ends.
use sonatina.Base.{
  ℕ, zero, suc, ◌<◌, ◌≤◌, ◌≡◌, ◌↔◌, inl, inr, refl, sym, ap, ◌∙◌, Bool, true, false, Option, none,
  some, List, ◌==◌, arith, mem, length, get_elem?, Bool-cases, Option-cases, ==_iff, get_elem?-lt,
}
use mathlib.Core.Option.{some-injective}
use sonatina.Loops.{
  LoopData, LoopTree, parent_loop, outermost_parent, is_in_loop_from, is_in_loop, loop_of_block,
}

-- The loops from `cur` on have been analysed: parents are lower and blocks are in loops that exist.
pub record Nested (t : LoopTree) (cur : ℕ) (us : List ℕ) : Type 0 where
  pub parents :
      (l p : ℕ) (d : LoopData)
      → get_elem? t.loops l ≡ some d
      → d.parent ≡ some p
      → (p < l) × (cur ≤ p)
  pub mapped : (b l : ℕ) → t.block_to_loop b ≡ some l → (cur ≤ l) × (l < length t.loops)
  pub headers : (l : ℕ) (d : LoopData) → get_elem? t.loops l ≡ some d → mem d.header us ≡ true

pub Nested-lower : (t : LoopTree) (cur : ℕ) (us : List ℕ) → Nested t (suc cur) us → Nested t cur us
Nested-lower t cur us n = record {
  parents = λ l p d e h. let (a, b) = n.parents l p d e h in (a, omega arith);
  mapped = λ b l e. let (a, c) = n.mapped b l e in (omega arith, c);
  headers = n.headers;
}

-- A loop without a parent, at which the search ends.
pub record Outermost (t : LoopTree) (cur o : ℕ) : Type 0 where
  pub node : LoopData
  pub found : get_elem? t.loops o ≡ some node
  pub no_parent : node.parent ≡ none
  pub above : cur ≤ o

pub outermost_parent_lem :
    (fuel : ℕ) (t : LoopTree) (cur : ℕ) (us : List ℕ) (l : ℕ)
    → Nested t cur us
    → cur ≤ l
    → l < length t.loops
    → l < fuel
    → (o : ℕ) × (outermost_parent fuel t l ≡ some o) × Outermost t cur o
unfolding outermost_parent parent_loop
outermost_parent_lem zero t cur us l n c lt f = absurd (omega arith)
outermost_parent_lem (suc fuel) t cur us l n c lt f =
    let (d, e) = get_elem?-lt t.loops l lt in
    elim (Option-cases d.parent) [
      | inl top ↦ (l, rw (e, top) refl, record { node = d; found = e; no_parent = top; above = c })
      | inr (p, up) ↦
          let (low, high) = n.parents l p d e up in
          let (o, r, s) = outermost_parent_lem fuel t cur us p n high (omega arith) (omega arith) in
          (
            o,
            rw (e, up) r,
            record { node = s.node; found = s.found; no_parent = s.no_parent; above = s.above },
          )
    ]

-- A loop, or a loop around it.
pub data Within (t : LoopTree) (lp : ℕ) : Option ℕ → Type 0 where
  here : Within t lp (some lp)
  outward :
      (c : ℕ) (d : LoopData)
      → get_elem? t.loops c ≡ some d
      → Within t lp d.parent
      → Within t lp (some c)

Within-none : (t : LoopTree) (lp : ℕ) (c : Option ℕ) → c ≡ none → Within t lp c → ⊥
Within-none t lp _ e here = absurd (cc e)
Within-none t lp _ e (outward c d f w) = absurd (cc e)

Within-cases :
    (t : LoopTree) (lp : ℕ) (o : Option ℕ) (c : ℕ) (d : LoopData)
    → o ≡ some c
    → get_elem? t.loops c ≡ some d
    → (lp == c) ≡ false
    → Within t lp o
    → Within t lp d.parent
Within-cases t lp _ c d e f ne here =
    let same : lp ≡ c = some-injective _ _ e in absurd (cc (ne, (==_iff lp c).1 same))
Within-cases t lp _ c d e f ne (outward c' d' f' w) =
    let same : c' ≡ c = some-injective _ _ e in
    let node : d' ≡ d = some-injective _ _ (sym f' ∙ ap (get_elem? t.loops) same ∙ f) in
    rw (sym node) w

is_in_loop_from_lem :
    (fuel : ℕ) (t : LoopTree) (us : List ℕ) (lp : ℕ) (c : Option ℕ)
    → Nested t 0 us
    → ((l : ℕ) → c ≡ some l → (l < length t.loops) × (l < fuel))
    → (r : Bool) × (is_in_loop_from fuel t c lp ≡ some r) × ((r ≡ true) ↔ Within t lp c)
unfolding is_in_loop_from parent_loop
is_in_loop_from_lem fuel t us lp none n lt =
    (false, refl, ((λ e. absurd cc), λ w. absurd (Within-none t lp none refl w)))
is_in_loop_from_lem zero t us lp (some c) n lt = let (_, f) = lt c refl in absurd (omega arith)
is_in_loop_from_lem (suc fuel) t us lp (some c) n lt =
    let (below, f) = lt c refl in
    let (d, e) = get_elem?-lt t.loops c below in
    elim (Bool-cases (lp == c)) [
      | inl same ↦
          (true, rw same refl, ((λ _. rw (sym ((==_iff lp c).0 same)) Within.here), λ _. refl))
      | inr other ↦
          let (r, found, iff) =
            is_in_loop_from_lem fuel t us lp d.parent n
              (λ p up. let (low, _) = n.parents c p d e up in (omega arith, omega arith)) in
          (
            r,
            rw (other, e) found,
            (
              (λ yes. Within.outward c d e (iff.0 yes)),
              λ w. iff.1 (Within-cases t lp (some c) c d refl e other w),
            ),
          )
    ]

-- In a tree of loops whose parents have lower indices, and in which the blocks are in loops that exist: with more fuel
-- than there are loops, `is_in_loop` returns, and what it returns is true exactly if the loop is the block's innermost
-- loop or one around it.
pub is_in_loop_lem :
    (fuel : ℕ) (t : LoopTree) (us : List ℕ) (block lp : ℕ)
    → Nested t 0 us
    → length t.loops < fuel
    → (r : Bool) × (is_in_loop fuel t block lp ≡ some r)
      × ((r ≡ true) ↔ Within t lp (loop_of_block t block))
unfolding is_in_loop loop_of_block
is_in_loop_lem fuel t us block lp n f =
    is_in_loop_from_lem fuel t us lp (t.block_to_loop block) n
      (λ l e. let (_, lt) = n.mapped block l e in (lt, omega arith))
