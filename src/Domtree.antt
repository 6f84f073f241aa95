-- ===== src/Domtree.antt =====
-- crates/codegen/src/domtree.rs: the tree of the immediate dominators and the dominance frontiers. A
-- `SecondaryMap` is a function, a `BTreeSet` its list in ascending order. The loops take fuel, of which
-- the outer `none` is the lack, as it is a panic.
pub mod Ancestors
pub mod Intersect
mod Examples
use sonatina.Base.{
  ℕ, zero, suc, ◌-◌, Bool, true, false, not, ◌&&◌, Option, none, some, List, [], ◌∷◌, ◌==◌, ltb,
  if◌then◌else◌, reverse, length, get_elem?, ◌>>=◌, ◌>>◌,
}
use sonatina.Ir.Cfg.{ControlFlowGraph, preds_of, post_order, insert}

pub record DomTree : Type 0 where
  pub doms : ℕ → Option ℕ
  pub rpo : List ℕ

abbrev is_some : Option ℕ → Bool
is_some none = false
is_some (some _) = true

-- `Some(b) == o`
abbrev pub is_some_of : ℕ → Option ℕ → Bool
is_some_of b none = false
is_some_of b (some c) = b == c

unfoldable pub clear : DomTree
clear = record { doms = λ _. none; rpo = [] }

-- `self.rpo[0]` panics on an empty list.
unfoldable pub idom_of : DomTree → ℕ → Option (Option ℕ)
idom_of t block =
    get_elem? t.rpo 0 >>= λ entry. some (if entry == block then none else t.doms block)

unfoldable pub strictly_dominates : ℕ → DomTree → ℕ → ℕ → Option Bool
strictly_dominates zero t block1 current = none
strictly_dominates (suc fuel) t block1 current = idom_of t current >>= λ idom. elim idom [
  | none ↦ some false
  | some block ↦
      let rest = strictly_dominates fuel t block1 block in
      if block == block1 then some true else rest
]

unfoldable pub dominates : ℕ → DomTree → ℕ → ℕ → Option Bool
unfolding strictly_dominates
dominates fuel t block1 block2 =
    if block1 == block2 then some true else strictly_dominates fuel t block1 block2

unfoldable pub is_reachable : DomTree → ℕ → Option Bool
is_reachable t block = do idom ← idom_of t block; some (is_some idom)

-- `while rpo_nums[b] < n { b = doms[b].unwrap() }`
pub climb : ℕ → (ℕ → Option ℕ) → (ℕ → ℕ) → ℕ → ℕ → Option ℕ
climb zero doms nums b n = none
climb (suc fuel) doms nums b n =
    let rest = doms b >>= λ d. climb fuel doms nums d n in if ltb (nums b) n then rest else some b

-- `inner` is the fuel of the two inner loops.
pub intersect : ℕ → ℕ → (ℕ → Option ℕ) → (ℕ → ℕ) → ℕ → ℕ → Option ℕ
unfolding climb
intersect zero inner doms nums b1 b2 = none
intersect (suc fuel) inner doms nums b1 b2 =
    let rest =
      (climb inner doms nums b1 (nums b2) >>= λ c1.
      climb inner doms nums b2 (nums c1) >>= λ c2. intersect fuel inner doms nums c1 c2) in
    if b1 == b2 then some b1 else rest

-- `(block_num - i)` at the index `i`, for the blocks from an index on; the default is 0.
pub number_blocks : ℕ → List ℕ → ℕ → ℕ
number_blocks block_num [] b = 0
number_blocks block_num (x ∷ xs) b =
    if b == x then block_num else number_blocks (block_num - 1) xs b

-- `preds.find(|pred| doms[pred].is_some())`
pub find_processed : (ℕ → Option ℕ) → List ℕ → Option ℕ
find_processed doms [] = none
find_processed doms (p ∷ ps) = if is_some (doms p) then some p else find_processed doms ps

-- The loop over the predecessors that joins the processed ones.
pub join_preds : ℕ → (ℕ → Option ℕ) → (ℕ → ℕ) → ℕ → List ℕ → ℕ → Option ℕ
unfolding intersect
join_preds fuel doms nums processed [] new_dom = some new_dom
join_preds fuel doms nums processed (p ∷ ps) new_dom =
    let joined =
      intersect fuel fuel doms nums new_dom p >>= join_preds fuel doms nums processed ps in
    let skipped = join_preds fuel doms nums processed ps new_dom in
    if not (p == processed) && is_some (doms p) then joined else skipped

abbrev set_dom : (ℕ → Option ℕ) → ℕ → ℕ → ℕ → Option ℕ
set_dom doms block d b = if b == block then some d else doms b

-- One pass over the blocks after the entry: the map after it, and whether it has changed.
pub pass :
    ℕ → ControlFlowGraph → (ℕ → ℕ) → List ℕ → (ℕ → Option ℕ) → Bool → Option ((ℕ → Option ℕ) × Bool)
unfolding find_processed join_preds
pass fuel cfg nums [] doms changed = some (doms, changed)
pass fuel cfg nums (block ∷ blocks) doms changed = elim (find_processed doms (preds_of cfg block)) [
  | none ↦ pass fuel cfg nums blocks doms changed
  | some processed ↦
      join_preds fuel doms nums processed (preds_of cfg block) processed >>= λ new_dom.
      let same = pass fuel cfg nums blocks doms changed in
      let moved = pass fuel cfg nums blocks (set_dom doms block new_dom) true in
      if is_some_of new_dom (doms block) then same else moved
]

-- `while changed { .. }`
pub passes : ℕ → ControlFlowGraph → (ℕ → ℕ) → List ℕ → (ℕ → Option ℕ) → Option (ℕ → Option ℕ)
unfolding pass
passes zero cfg nums blocks doms = none
passes (suc fuel) cfg nums blocks doms = pass (suc fuel) cfg nums blocks doms false >>= λ r.
    let again = passes fuel cfg nums blocks r.0 in if r.1 then again else some r.0

unfoldable pub compute : ℕ → ControlFlowGraph → Option DomTree
unfolding passes number_blocks
compute fuel cfg = do
  order ← post_order fuel cfg
  let rpo = reverse order
  let nums = number_blocks (length rpo) rpo
  elim rpo [
    | [] ↦ some (record { doms = λ _. none; rpo = [] })
    | entry ∷ blocks ↦ passes fuel cfg nums blocks (set_dom (λ _. none) entry entry) >>= λ doms.
        some (record { doms = doms; rpo = entry ∷ blocks })
  ]

-- `df.0[runner].insert(block)` along the tree, up to the dominator of the block.
pub run_up : ℕ → DomTree → ℕ → ℕ → (ℕ → List ℕ) → Option (ℕ → List ℕ)
unfolding is_reachable
run_up zero t block runner df = none
run_up (suc fuel) t block runner df = is_reachable t runner >>= λ reachable.
    let rest =
      (t.doms runner >>= λ up.
      run_up fuel t block up (λ b. if b == runner then insert block (df b) else df b)) in
    if not (is_some_of runner (t.doms block)) && reachable then rest else some df

pub add_frontiers : ℕ → DomTree → ℕ → List ℕ → (ℕ → List ℕ) → Option (ℕ → List ℕ)
unfolding run_up
add_frontiers fuel t block [] df = some df
add_frontiers fuel t block (p ∷ ps) df = run_up fuel t block p df >>= add_frontiers fuel t block ps

pub compute_df_from : ℕ → DomTree → ControlFlowGraph → List ℕ → (ℕ → List ℕ) → Option (ℕ → List ℕ)
unfolding add_frontiers
compute_df_from fuel t cfg [] df = some df
compute_df_from fuel t cfg (block ∷ blocks) df =
    let rest =
      add_frontiers fuel t block (preds_of cfg block) df >>= compute_df_from fuel t cfg blocks in
    let skipped = compute_df_from fuel t cfg blocks df in
    if ltb (length (preds_of cfg block)) 2 then skipped else rest

unfoldable pub compute_df : ℕ → DomTree → ControlFlowGraph → Option (ℕ → List ℕ)
unfolding compute_df_from
compute_df fuel t cfg = compute_df_from fuel t cfg t.rpo (λ _. [])
