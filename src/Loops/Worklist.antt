-- ===== src/Loops/Worklist.antt =====
-- loop_analysis.rs: the worklist of a loop runs empty, and the tree stays nested.
use sonatina.Base.{
  ℕ, zero, suc, ◌+◌, ◌*◌, ◌<◌, ◌≤◌, ◌≡◌, ◌⊎◌, inl, inr, refl, ◌∙◌, true, some, List, [], ◌∷◌, ◌==◌,
  arith, mem, length, Bool-cases, Option-cases, ==_iff,
}
use native.Mathlib.Nat.{mul-le-mul_left, mul-suc}
use sonatina.Ir.Cfg.{ControlFlowGraph, preds_of}
use sonatina.Loops.{LoopTree, push_all, visit_mapped, visit_unmapped, visit_block, drain, map_block}
use sonatina.Loops.Nesting.{Nested, outermost_parent_lem}
use sonatina.Loops.Changes.{headers, roots, unmapped, Advances, merge_lem, map_lem}

length-push_all : (bs w : List ℕ) → length (push_all bs w) ≡ length bs + length w
length-push_all [] w = omega arith
length-push_all (b ∷ bs) w = omega (arith, length-push_all bs (b ∷ w))

mem-push_all :
    (a : ℕ) (bs w : List ℕ) → mem a (push_all bs w) ≡ true → (mem a bs ≡ true) ⊎ (mem a w ≡ true)
mem-push_all a [] w m = inr m
mem-push_all a (b ∷ bs) w m = elim (mem-push_all a bs (b ∷ w) m) [
  | inl x ↦ inl (ground (arith, x))
  | inr y ↦ elim (Bool-cases (a == b)) [
    | inl here ↦ inl (ground (arith, here))
    | inr other ↦ inr (ground (arith, y))
  ]
]

-- The rounds that are left.
abbrev pub left : ℕ → List ℕ → LoopTree → List ℕ → ℕ
left deg us t w = length w + suc deg * (roots t.loops + unmapped t.block_to_loop us)

less_left : (deg m n w x : ℕ) → m < n → x ≤ deg → (x + w) + suc deg * m ≤ w + suc deg * n
less_left deg m n w x h le =
    let more = mul-le-mul_left (suc deg) h in omega (arith, mul-suc (suc deg) m)

less_left_none : (deg m n w : ℕ) → m < n → w + suc deg * m ≤ w + suc deg * n
less_left_none deg m n w h =
    let more = mul-le-mul_left (suc deg) h in omega (arith, mul-suc (suc deg) m)

module _ (cfg : ControlFlowGraph) (us : List ℕ) (deg : ℕ)
    (closed : (b p : ℕ) → mem b us ≡ true → mem p (preds_of cfg b) ≡ true → mem p us ≡ true)
    (few : (b : ℕ) → mem b us ≡ true → length (preds_of cfg b) ≤ deg) where
  abbrev pub Inside : List ℕ → Type 0
  Inside w = (b : ℕ) → mem b w ≡ true → mem b us ≡ true

  push_all-Inside :
      (b : ℕ) (w : List ℕ) → mem b us ≡ true → Inside w → Inside (push_all (preds_of cfg b) w)
  push_all-Inside b w m i p h = elim (mem-push_all p (preds_of cfg b) w h) [
    | inl x ↦ closed b p m x
    | inr y ↦ i p y
  ]

  push_all-left :
      (t t' : LoopTree) (cur b : ℕ) (w : List ℕ)
      → mem b us ≡ true
      → Advances t t' cur us
      → left deg us t' (push_all (preds_of cfg b) w) ≤ left deg us t w
  push_all-left t t' cur b w m a =
      rw (length-push_all (preds_of cfg b) w) (less_left deg _ _ (length w) _ a.fewer (few b m))

  record Visited (t : LoopTree) (cur : ℕ) (w : List ℕ) (r : LoopTree × List ℕ) : Type 0 where
    nested : Nested r.0 cur us
    same_headers : headers r.0.loops ≡ headers t.loops
    same_length : length r.0.loops ≡ length t.loops
    inside : Inside r.1
    ends : left deg us r.0 r.1 ≤ left deg us t w

  visit_block_lem :
      (up cur header block : ℕ) (w : List ℕ) (t : LoopTree)
      → Nested t cur us
      → cur < length t.loops
      → length t.loops ≤ up
      → mem block us ≡ true
      → Inside w
      → (r : LoopTree × List ℕ) × (visit_block up cfg cur header block w t ≡ some r)
        × Visited t cur w r
  unfolding visit_block visit_mapped visit_unmapped
  visit_block_lem up cur header block w t n lc lu m i =
      elim (Option-cases (t.block_to_loop block)) [
        | inl free ↦
            let a = map_lem t cur block us n lc m free in
            elim (Bool-cases (block == header)) [
              | inl top ↦ (
                (map_block t block cur, w),
                rw (visit_block, free, visit_unmapped, top) refl,
                record {
                  nested = a.nested;
                  same_headers = a.same_headers;
                  same_length = a.same_length;
                  inside = i;
                  ends = less_left_none deg _ _ (length w) a.fewer;
                },
              )
              | inr other ↦ (
                (map_block t block cur, push_all (preds_of cfg block) w),
                rw (visit_block, free, visit_unmapped, other) refl,
                record {
                  nested = a.nested;
                  same_headers = a.same_headers;
                  same_length = a.same_length;
                  inside = push_all-Inside block w m i;
                  ends = push_all-left t (map_block t block cur) cur block w m a;
                },
              )
            ]
        | inr (l, at) ↦
            let (above, below) = n.mapped block l at in
            let (o, found, out) = outermost_parent_lem up t cur us l n above below (omega arith) in
            elim (Bool-cases (o == cur)) [
              | inl same ↦ (
                (t, w),
                rw (visit_block, at, visit_mapped, found, same) refl,
                record {
                  nested = n;
                  same_headers = refl;
                  same_length = refl;
                  inside = i;
                  ends = omega arith;
                },
              )
              | inr other ↦
                  let (t1, t2, h, e1, e2, e3, mh, a) =
                    merge_lem t cur o l us n lc below out other in
                  (
                    (t2, push_all (preds_of cfg h) w),
                    rw (visit_block, at, visit_mapped, found, other, e1, e2, e3) refl,
                    record {
                      nested = a.nested;
                      same_headers = a.same_headers;
                      same_length = a.same_length;
                      inside = push_all-Inside h w mh i;
                      ends = push_all-left t t2 cur h w mh a;
                    },
                  )
            ]
      ]

  -- A tree in which the loops from `cur` on are analysed, with the loops that it had.
  pub record Analysed (t : LoopTree) (cur : ℕ) (t' : LoopTree) : Type 0 where
    pub nested : Nested t' cur us
    pub same_length : length t'.loops ≡ length t.loops
    pub same_headers : headers t'.loops ≡ headers t.loops

  pub drain_lem :
      (fuel up cur header : ℕ) (w : List ℕ) (t : LoopTree)
      → Nested t cur us
      → cur < length t.loops
      → length t.loops ≤ up
      → Inside w
      → left deg us t w ≤ fuel
      → (t' : LoopTree) × (drain fuel up cfg cur header w t ≡ some t') × Analysed t cur t'
  unfolding drain
  drain_lem fuel up cur header [] t n lc lu i f =
      (t, refl, record { nested = n; same_length = refl; same_headers = refl })
  drain_lem zero up cur header (b ∷ w) t n lc lu i f = absurd (omega arith)
  drain_lem (suc fuel) up cur header (b ∷ w) t n lc lu i f =
      let (r, e, v) =
        visit_block_lem up cur header b w t n lc lu (i b (ground (arith, (==_iff b b).1 refl)))
          (λ c m. i c (ground arith)) in
      let length_r = v.same_length in
      let ends = v.ends in
      let (t', e', a) =
        drain_lem fuel up cur header r.1 r.0 v.nested (omega arith) (omega arith) v.inside
          (omega arith) in
      (
        t',
        rw e e',
        record {
          nested = a.nested;
          same_length = a.same_length ∙ v.same_length;
          same_headers = a.same_headers ∙ v.same_headers;
        },
      )
