-- ===== src/Ir/Cfg/PostOrders.antt =====
-- cfg.rs: the post order ends, and holds the blocks that the entry reaches, each after those it leads
-- to.
use sonatina.Base.{
  ℕ, zero, suc, ◌+◌, ◌<◌, ◌≤◌, ◌≡◌, inl, inr, refl, ap, ◌∙◌, true, false, Option, none, some, List,
  [], ◌∷◌, ◌++◌, ◌==◌, if◌then◌else◌, arith, mem, length, Bool-cases, ==_iff, unwrap_or,
}
use sonatina.Ir.Cfg.{
  ControlFlowGraph, push_unvisited, set_state, succs_of, post_order, post_order_from, visit, emit,
  new_post_order, PostOrder,
}
use sonatina.Ir.Cfg.Rounds.{drop-IsSearch, finish-IsSearch, visit-IsSearch}
use sonatina.Ir.Cfg.Visits.{Reaches, Ordered, IsSearch}
use sonatina.Ir.Layout.Chain.{Distinct}

-- What the unvisited blocks of `us` can still cost: one round each, and one for each successor.
abbrev pub cost : ControlFlowGraph → (ℕ → ℕ) → List ℕ → ℕ
cost g st [] = 0
cost g st (u ∷ us) = (if st u == 0 then suc (length (succs_of g u)) else 0) + cost g st us

length-push_unvisited :
    (st : ℕ → ℕ) (ws stack : List ℕ)
    → length (push_unvisited st ws stack) ≤ length ws + length stack
unfolding push_unvisited
length-push_unvisited st [] stack = omega arith
length-push_unvisited st (w ∷ ws) stack = elim (Bool-cases (st w == 0)) [
  | inl new ↦ rw new (let rest = length-push_unvisited st ws (w ∷ stack) in omega arith)
  | inr old ↦ rw old (let rest = length-push_unvisited st ws stack in omega arith)
]

module _ (g : ControlFlowGraph) (st : ℕ → ℕ) (b s : ℕ) where
  cost-set_state : (us : List ℕ) → cost g (set_state st b (suc s)) us ≤ cost g st us
  cost-set_state [] = omega arith
  cost-set_state (u ∷ us) = ground (arith, cost-set_state us)

  cost-visited :
      (us : List ℕ)
      → st b ≡ 0
      → mem b us ≡ true
      → cost g (set_state st b (suc s)) us + suc (length (succs_of g b)) ≤ cost g st us
  cost-visited [] h m = absurd cc
  cost-visited (u ∷ us) h m = elim (Bool-cases (b == u)) [
    | inl here ↦
        let e : b ≡ u = (==_iff b u).0 here in
        rw (← e, (==_iff b b).1 refl, h) (let rest = cost-set_state us in ground arith)
    | inr later ↦ ground (arith, cost-visited us h (ground arith))
  ]

-- What the search gives: each block once, those that the entry reaches, and each after the
-- destinations of its edges, except for the edges that lead back.
pub record IsPostOrder (g : ControlFlowGraph) (e : ℕ) (out : List ℕ) : Type 0 where
  pub distinct : Distinct out
  pub sound : (v : ℕ) → mem v out ≡ true → Reaches g e v
  pub complete : (v : ℕ) → Reaches g e v → mem v out ≡ true
  pub ordered : Ordered g [] out

-- The three cases of a round.
module _ (g : ControlFlowGraph) (b : ℕ) (rest : List ℕ) (st : ℕ → ℕ) where
  visit-new :
      (st b == 0) ≡ true
      → visit g b rest st ≡ (
        record {
          node_state = set_state st b 1;
          stack = push_unvisited (set_state st b 1) (succs_of g b) (b ∷ rest);
        },
        none,
      )
  unfolding visit
  visit-new h = rw h

  visit-gone :
      (st b == 0) ≡ false
      → (st b == 2) ≡ true
      → visit g b rest st ≡ (record { node_state = st; stack = rest }, none)
  unfolding visit
  visit-gone h k = rw (h, k)

  visit-open :
      (st b == 0) ≡ false
      → (st b == 2) ≡ false
      → visit g b rest st ≡ (record { node_state = set_state st b 2; stack = rest }, some b)
  unfolding visit
  visit-open h k = rw (h, k)

module _ (g : ControlFlowGraph) (e : ℕ) where
  abbrev go_on : ℕ → List ℕ → PostOrder × Option ℕ → Option (List ℕ)
  go_on fuel out r = post_order_from g fuel r.0.node_state r.0.stack (emit out r.1)

  searched :
      (st : ℕ → ℕ) (out : List ℕ)
      → IsSearch g e st [] out
      → (v : ℕ) → Reaches g e v
      → mem v out ≡ true
  searched st out s v Reaches.here = ground (arith, s.entry, s.finished e, s.states e, s.waiting e)
  searched st out s v (Reaches.next {b} r l) =
      let before = searched st out s b r in
      ground (arith, s.shut_edges b v, s.finished b, s.finished v, s.states v, s.waiting v)

  module _ (us : List ℕ) (all : (v : ℕ) → Reaches g e v → mem v us ≡ true) where
    rounds :
        (fuel : ℕ) (st : ℕ → ℕ) (stack out : List ℕ)
        → IsSearch g e st stack out
        → length stack + cost g st us ≤ fuel
        → (found : List ℕ) × (post_order_from g fuel st stack out ≡ some found)
          × IsPostOrder g e found
    unfolding post_order_from
    rounds fuel st [] out s h = (
      out,
      refl,
      record {
        distinct = s.distinct;
        sound = s.reached_out;
        complete = searched st out s;
        ordered = s.ordered;
      },
    )
    rounds zero st (b ∷ rest) out s h = absurd (omega arith)
    rounds (suc fuel) st (b ∷ rest) out s h = elim (Bool-cases (st b == 0)) [
      | inl new ↦
          let z : st b ≡ 0 = (==_iff (st b) 0).0 new in
          let visited = set_state st b 1 in
          let c = cost-visited g st b 0 us z (all b (s.reached b (ground arith))) in
          let p = length-push_unvisited visited (succs_of g b) (b ∷ rest) in
          let (found, r, o) =
            rounds fuel visited (push_unvisited visited (succs_of g b) (b ∷ rest)) out
              (visit-IsSearch g e st b rest out s z) (omega arith) in
          (found, ap (go_on fuel out) (visit-new g b rest st new) ∙ r, o)
      | inr old ↦ elim (Bool-cases (st b == 2)) [
        | inl gone ↦
            let (found, r, o) =
              rounds fuel st rest out (drop-IsSearch g e st b rest out s ((==_iff (st b) 2).0 gone))
                (omega arith) in
            (found, ap (go_on fuel out) (visit-gone g b rest st old gone) ∙ r, o)
        | inr visited ↦
            let c = cost-set_state g st b 1 us in
            let one : st b ≡ 1 = ground (arith, s.states b) in
            let (found, r, o) =
              rounds fuel (set_state st b 2) rest (out ++ b ∷ [])
                (finish-IsSearch g e st b rest out s one) (omega arith) in
            (found, ap (go_on fuel out) (visit-open g b rest st old visited) ∙ r, o)
      ]
    ]

  -- For a graph with an entry, from which all blocks that are reached are among `us`, the post order
  -- ends within one round for the entry, one for each block of `us` and one for each of its edges. It
  -- returns each block at most once, returns the blocks that a path leads to from the entry and no
  -- others, and returns a block after each destination of its edges that does not lead back to it.
  pub post_order_lem :
      (us : List ℕ) (fuel : ℕ)
      → g.entry ≡ some e
      → ((v : ℕ) → Reaches g e v → mem v us ≡ true)
      → 1 + cost g (λ _. 0) us ≤ fuel
      → (found : List ℕ) × (post_order fuel g ≡ some found) × IsPostOrder g e found
  unfolding post_order new_post_order
  post_order_lem us fuel h all enough =
      let start : IsSearch g e (λ _. 0) (e ∷ []) [] = record {
        states = λ v. omega arith;
        finished = λ v. refl;
        distinct = tt;
        waiting = λ v o. absurd (ground arith);
        reached = λ v m. rw ((==_iff v e).0 (ground arith)) Reaches.here;
        reached_out = λ v m. absurd (ground arith);
        path = λ w x o m. absurd (ground arith);
        open_edges = λ u w o l. absurd (ground arith);
        shut_edges = λ u w o l. absurd (ground arith);
        ordered = tt;
        entry = ground arith;
      } in
      let (found, r, o) = rounds us all fuel (λ _. 0) (e ∷ []) [] start enough in
      (
        found,
        ap
              (λ (en : Option ℕ).
                post_order_from g fuel (λ _. 0) (elim en [ none ↦ [] | some x ↦ x ∷ [] ]) [])
              h
            ∙ r,
        o,
      )

-- More fuel gives the same.
post_order_from-more :
    (g : ControlFlowGraph) (fuel more : ℕ) (st : ℕ → ℕ) (stack out found : List ℕ)
    → post_order_from g fuel st stack out ≡ some found
    → fuel ≤ more
    → post_order_from g more st stack out ≡ some found
unfolding post_order_from
post_order_from-more g fuel more st [] out found h le = h
post_order_from-more g zero more st (b ∷ stack) out found h le = cc h
post_order_from-more g (suc fuel) zero st (b ∷ stack) out found h le = absurd (omega arith)
post_order_from-more g (suc fuel) (suc more) st (b ∷ stack) out found h le =
    let r = visit g b stack st in
    post_order_from-more g fuel more r.0.node_state r.0.stack (emit out r.1) found h (omega arith)

pub post_order-more :
    (g : ControlFlowGraph) (fuel more : ℕ) (found : List ℕ)
    → post_order fuel g ≡ some found
    → fuel ≤ more
    → post_order more g ≡ some found
unfolding post_order
post_order-more g fuel more found h le =
    let p = new_post_order g in post_order_from-more g fuel more p.node_state p.stack [] found h le

-- The rounds that the post order of a graph of these blocks takes at most.
abbrev pub rounds_of : ControlFlowGraph → List ℕ → ℕ
rounds_of g us = 1 + cost g (λ _. 0) us

-- The post order of a graph, on enough fuel.
unfoldable pub order_of : ControlFlowGraph → List ℕ → List ℕ
order_of g us = unwrap_or (post_order (rounds_of g us) g) []

pub post_order-order_of :
    (g : ControlFlowGraph) (e : ℕ) (us : List ℕ) (fuel : ℕ)
    → g.entry ≡ some e
    → ((v : ℕ) → Reaches g e v → mem v us ≡ true)
    → rounds_of g us ≤ fuel
    → (post_order fuel g ≡ some (order_of g us)) × IsPostOrder g e (order_of g us)
unfolding order_of
post_order-order_of g e us fuel h all enough =
    let (found, r, o) = post_order_lem g e us (rounds_of g us) h all (omega arith) in
    let more = post_order-more g (rounds_of g us) fuel found r enough in (rw r more, rw r o)

pub length-rounds_of : (g : ControlFlowGraph) (us : List ℕ) → length us < rounds_of g us
length-rounds_of g [] = omega arith
length-rounds_of g (u ∷ us) = let rest = length-rounds_of g us in omega arith
