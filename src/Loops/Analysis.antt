-- ===== src/Loops/Analysis.antt =====
-- loop_analysis.rs: `compute` ends, with the loops of the headers, nested.
use sonatina.Base.{
  ℕ, zero, suc, ◌+◌, ◌*◌, ◌<◌, ◌≤◌, ◌≡◌, inl, inr, refl, sym, ap, ◌∙◌, Bool, true, false, ◌||◌,
  Option, none, some, List, [], ◌∷◌, All, ◌==◌, if◌then◌else◌, arith, mem, length, get_elem?,
  Bool-cases, ==_iff, get_elem?-lt,
}
use native.Mathlib.Nat.{mul-le-mul_left, mul-le-mul_right}
use mathlib.Core.Option.{some-injective}
use sonatina.Ir.Cfg.{ControlFlowGraph, preds_of}
use sonatina.Domtree.{DomTree, dominates}
use sonatina.Loops.{
  LoopData, LoopTree, clear, loop_num, loop_header, is_header, find_loops, push_latches,
  analyze_loop, analyze_loops, compute,
}
use sonatina.Loops.Nesting.{Nested, Nested-lower}
use sonatina.Loops.Changes.{headers, is_none, roots, unmapped}
use sonatina.Loops.Worklist.{Inside, Analysed, drain_lem}

All-at :
    (P : LoopData → Type 0) (ds : List LoopData) (l : ℕ) (d : LoopData)
    → All P ds
    → get_elem? ds l ≡ some d
    → P d
All-at P [] l d a e = absurd (cc e)
All-at P (x ∷ ds) zero d (p, _) e = rw (sym (some-injective _ _ e)) p
All-at P (x ∷ ds) (suc l) d (_, a) e = All-at P ds l d a e

one_le : (n : ℕ) → 1 ≤ suc n
one_le n = omega arith

enough_length : (deg n k fuel : ℕ) → deg + suc deg * (n + k) ≤ fuel → n ≤ fuel
enough_length deg n k fuel h = let more = mul-le-mul_right (n + k) (one_le deg) in omega arith

few_latches : (w p deg : ℕ) → w ≤ p + 0 → p ≤ deg → w ≤ deg
few_latches w p deg a b = omega arith

enough_left :
    (deg w r u n k fuel : ℕ)
    → w ≤ deg
    → r ≤ n
    → u ≤ k
    → deg + suc deg * (n + k) ≤ fuel
    → w + suc deg * (r + u) ≤ fuel
enough_left deg w r u n k fuel a b c h =
    let sum : r + u ≤ n + k = omega arith in let more = mul-le-mul_left (suc deg) sum in omega arith

enough_found :
    (deg d n k fuel : ℕ) → d ≤ n → deg + suc deg * (n + k) ≤ fuel → deg + suc deg * (d + k) ≤ fuel
enough_found deg d n k fuel a h =
    let sum : d + k ≤ n + k = omega arith in let more = mul-le-mul_left (suc deg) sum in omega arith

abbrev any_of : (ℕ → Bool) → List ℕ → Bool
any_of f [] = false
any_of f (x ∷ xs) = f x || any_of f xs

-- The blocks of a list that dominate one of their predecessors.
abbrev pub loop_headers : (ℕ → ℕ → Bool) → ControlFlowGraph → List ℕ → List ℕ
loop_headers dom cfg [] = []
loop_headers dom cfg (b ∷ bs) =
    let rest = loop_headers dom cfg bs in if any_of (dom b) (preds_of cfg b) then b ∷ rest else rest

roots-length : (ds : List LoopData) → roots ds ≤ length ds
roots-length [] = omega arith
roots-length (d ∷ ds) =
    let rest = roots-length ds in
    elim d.parent as (λ p. is_none p + roots ds ≤ suc (length ds)) [
      | none ↦ omega arith
      | some _ ↦ omega arith
    ]

unmapped-length : (m : ℕ → Option ℕ) (bs : List ℕ) → unmapped m bs ≤ length bs
unmapped-length m [] = omega arith
unmapped-length m (b ∷ bs) =
    let rest = unmapped-length m bs in
    elim (m b) as (λ p. is_none p + unmapped m bs ≤ suc (length bs)) [
      | none ↦ omega arith
      | some _ ↦ omega arith
    ]

module _ (cfg : ControlFlowGraph) (us : List ℕ) (deg : ℕ)
    (closed : (b p : ℕ) → mem b us ≡ true → mem p (preds_of cfg b) ≡ true → mem p us ≡ true)
    (few : (b : ℕ) → mem b us ≡ true → length (preds_of cfg b) ≤ deg) (domtree : DomTree)
    (dom : ℕ → ℕ → Bool) (fuel : ℕ)
    (decides : (a b : ℕ)
      → mem a us ≡ true
      → mem b us ≡ true
      → dominates fuel domtree a b ≡ some (dom a b)) where
  is_header_lem :
      (block : ℕ) (preds : List ℕ)
      → mem block us ≡ true
      → Inside cfg us deg closed few preds
      → is_header fuel domtree block preds ≡ some (any_of (dom block) preds)
  unfolding is_header
  is_header_lem block [] m i = refl
  is_header_lem block (p ∷ ps) m i =
      let rest = is_header_lem block ps m (λ c n. i c (ground arith)) in
      elim (Bool-cases (dom block p)) [
        | inl does ↦ rw (decides block p m (i p (ground (arith, (==_iff p p).1 refl))), does) refl
        | inr not_so ↦
            rw (decides block p m (i p (ground (arith, (==_iff p p).1 refl))), not_so) rest
      ]

  -- A loop that has just been found.
  abbrev Fresh : LoopData → Type 0
  Fresh d = (d.parent ≡ none) × (mem d.header us ≡ true)

  find_loops_lem :
      (bs : List ℕ)
      → Inside cfg us deg closed few bs
      → (ds : List LoopData) × (find_loops fuel cfg domtree bs ≡ some ds)
        × All Fresh ds
        × (headers ds ≡ loop_headers dom cfg bs)
        × (length ds ≤ length bs)
  unfolding find_loops
  find_loops_lem [] i = ([], refl, tt, refl, omega arith)
  find_loops_lem (b ∷ bs) i =
      let (ds, e, fresh, same, le) = find_loops_lem bs (λ c n. i c (ground arith)) in
      let m = i b (ground (arith, (==_iff b b).1 refl)) in
      let test = is_header_lem b (preds_of cfg b) m (λ p n. closed b p m n) in
      elim (Bool-cases (any_of (dom b) (preds_of cfg b))) [
        | inl does ↦ (
          record { header = b; parent = none; children = [] } ∷ ds,
          rw (test, does, e) refl,
          ((refl, m), fresh),
          rw does (ap (λ r. b ∷ r) same),
          omega arith,
        )
        | inr not_so ↦ (ds, rw (test, not_so, e) refl, fresh, rw not_so same, omega arith)
      ]

  push_latches_lem :
      (header : ℕ) (ps w : List ℕ)
      → mem header us ≡ true
      → Inside cfg us deg closed few ps
      → Inside cfg us deg closed few w
      → (w' : List ℕ) × (push_latches fuel domtree header ps w ≡ some w')
        × Inside cfg us deg closed few w'
        × (length w' ≤ length ps + length w)
  unfolding push_latches
  push_latches_lem header [] w m i j = (w, refl, j, omega arith)
  push_latches_lem header (p ∷ ps) w m i j =
      let at = i p (ground (arith, (==_iff p p).1 refl)) in
      let d = decides header p m at in
      elim (Bool-cases (dom header p)) [
        | inl does ↦
            let (w', e, inside, le) =
              push_latches_lem header ps (p ∷ w) m (λ c n. i c (ground arith))
                (λ c n. elim (Bool-cases (c == p)) [
                  | inl here ↦ rw ((==_iff c p).0 here) at
                  | inr other ↦ j c (ground arith)
                ]) in
            (w', rw (d, does) e, inside, omega arith)
        | inr not_so ↦
            let (w', e, inside, le) =
              push_latches_lem header ps w m (λ c n. i c (ground arith)) j in
            (w', rw (d, not_so) e, inside, omega arith)
      ]

  analyze_loop_lem :
      (cur : ℕ) (t : LoopTree)
      → Nested t (suc cur) us
      → cur < length t.loops
      → deg + suc deg * (length t.loops + length us) ≤ fuel
      → (t' : LoopTree) × (analyze_loop fuel cfg domtree cur t ≡ some t')
        × Analysed cfg us deg closed few t cur t'
  unfolding analyze_loop loop_header
  analyze_loop_lem cur t n lc f =
      let (d, e) = get_elem?-lt t.loops cur lc in
      let m = n.headers cur d e in
      let (w, ew, inside, le) =
        push_latches_lem d.header (preds_of cfg d.header) [] m (λ p k. closed d.header p m k)
          (λ p k. absurd (cc k)) in
      let (t', e', a) =
        drain_lem cfg us deg closed few fuel fuel cur d.header w t (Nested-lower t cur us n) lc
          (enough_length deg (length t.loops) (length us) fuel f) inside
          (enough_left deg (length w) (roots t.loops) (unmapped t.block_to_loop us) _ _ fuel
            (few_latches (length w) _ deg le (few d.header m)) (roots-length t.loops)
            (unmapped-length t.block_to_loop us) f) in
      (t', rw (e, ew) e', a)

  analyze_loops_lem :
      (n : ℕ) (t : LoopTree)
      → Nested t n us
      → n ≤ length t.loops
      → deg + suc deg * (length t.loops + length us) ≤ fuel
      → (t' : LoopTree) × (analyze_loops fuel cfg domtree n t ≡ some t')
        × Analysed cfg us deg closed few t 0 t'
  unfolding analyze_loops
  analyze_loops_lem zero t nested le f =
      (t, refl, record { nested = nested; same_length = refl; same_headers = refl })
  analyze_loops_lem (suc n) t nested le f =
      let (t1, e1, a1) = analyze_loop_lem n t nested (omega arith) f in
      let len = a1.same_length in
      let (t2, e2, a2) = analyze_loops_lem n t1 a1.nested (omega arith) (rw len f) in
      (
        t2,
        rw e1 e2,
        record {
          nested = a2.nested;
          same_length = a2.same_length ∙ a1.same_length;
          same_headers = a2.same_headers ∙ a1.same_headers;
        },
      )

  -- Let `us` be blocks that are closed under predecessors, of which each has at most `deg`, with the reverse post order of
  -- the dominators among them, on which `dominates` returns what `dom` says. With fuel of at least
  -- deg + (deg + 1) * (the length of that order + the number of blocks), `compute` returns a loop tree: its headers are
  -- the blocks of the order that dominate one of their predecessors, in that order; each loop's parent has a lower
  -- index; and each block that is mapped is mapped to a loop that exists.
  pub compute_loops :
      Inside cfg us deg closed few domtree.rpo
      → deg + suc deg * (length domtree.rpo + length us) ≤ fuel
      → (t : LoopTree) × (compute fuel cfg domtree ≡ some t)
        × Nested t 0 us
        × (headers t.loops ≡ loop_headers dom cfg domtree.rpo)
  unfolding compute clear loop_num
  compute_loops i f =
      let (ds, e, fresh, same, le) = find_loops_lem domtree.rpo i in
      let t0 : LoopTree = record { loops = ds; block_to_loop = λ _. none } in
      let start : Nested t0 (length ds) us = record {
        parents = λ l p d g h. absurd (cc (h, (All-at Fresh ds l d fresh g).0));
        mapped = λ b l g. absurd (cc g);
        headers = λ l d g. (All-at Fresh ds l d fresh g).1;
      } in
      let (t, e', a) =
        analyze_loops_lem (length ds) t0 start (omega arith)
          (enough_found deg (length ds) (length domtree.rpo) (length us) fuel le f) in
      (t, rw e e', a.nested, a.same_headers ∙ same)
