-- ===== src/Loops/Changes.antt =====
-- loop_analysis.rs: what a new child, a new parent and a newly mapped block change.
use sonatina.Base.{
  ℕ, zero, suc, ◌+◌, ◌<◌, ◌≤◌, ◌≡◌, ◌⊎◌, inl, inr, refl, sym, ap, ◌∙◌, true, false, Option, none,
  some, List, [], ◌∷◌, ◌++◌, ◌==◌, arith, mem, length, get_elem?, set, Bool-cases, ==_iff,
  get_elem?-lt, lt-get_elem?, length-set, get_elem?-set_same, get_elem?-set_other,
}
use mathlib.Core.Option.{some-injective}
use sonatina.Loops.{LoopData, LoopTree, loop_header, add_child, set_parent, map_block}
use sonatina.Loops.Nesting.{Nested, Outermost}

-- The headers of the loops, in order.
abbrev pub headers : List LoopData → List ℕ
headers [] = []
headers (d ∷ ds) = d.header ∷ headers ds

headers-set :
    (ds : List LoopData) (l : ℕ) (d e : LoopData)
    → get_elem? ds l ≡ some d
    → e.header ≡ d.header
    → headers (set ds l e) ≡ headers ds
headers-set [] l d e h k = cc
headers-set (x ∷ ds) zero d e h k =
    ap (λ y. y ∷ headers ds) (k ∙ ap (λ (y : LoopData). y.header) (sym (some-injective _ _ h)))
headers-set (x ∷ ds) (suc l) d e h k = ap (λ ys. x.header ∷ ys) (headers-set ds l d e h k)

abbrev pub is_none : Option ℕ → ℕ
is_none none = 1
is_none (some _) = 0

-- The loops without a parent.
abbrev pub roots : List LoopData → ℕ
roots [] = 0
roots (d ∷ ds) = is_none d.parent + roots ds

-- The blocks of a list that are in no loop.
abbrev pub unmapped : (ℕ → Option ℕ) → List ℕ → ℕ
unmapped m [] = 0
unmapped m (b ∷ bs) = is_none (m b) + unmapped m bs

pub roots-set :
    (ds : List LoopData) (l : ℕ) (d e : LoopData)
    → get_elem? ds l ≡ some d
    → roots (set ds l e) + is_none d.parent ≡ roots ds + is_none e.parent
roots-set [] l d e h = cc
roots-set (x ∷ ds) zero d e h =
    let same : is_none x.parent ≡ is_none d.parent =
      ap (λ (y : LoopData). is_none y.parent) (some-injective _ _ h) in
    omega arith
roots-set (x ∷ ds) (suc l) d e h = let rest = roots-set ds l d e h in omega arith

pub unmapped-map :
    (t : LoopTree) (b lp : ℕ) (us : List ℕ)
    → t.block_to_loop b ≡ none
    → (unmapped (map_block t b lp).block_to_loop us ≤ unmapped t.block_to_loop us)
      × (mem b us ≡ true
          → unmapped (map_block t b lp).block_to_loop us < unmapped t.block_to_loop us)
unfolding map_block
unmapped-map t b lp [] e = (omega arith, λ m. absurd (cc m))
unmapped-map t b lp (u ∷ us) e =
    let (le, lt) = unmapped-map t b lp us e in
    elim (Bool-cases (u == b)) [
      | inl here ↦
          let old : t.block_to_loop u ≡ none = ap t.block_to_loop ((==_iff u b).0 here) ∙ e in
          (rw (here, old) (omega arith), λ m. rw (here, old) (omega arith))
      | inr other ↦
          (rw other (omega arith), λ m. let more = lt (ground arith) in rw other (omega arith))
    ]

-- A loop gets other children or another parent.
pub set_loop-Nested :
    (t : LoopTree) (cur l : ℕ) (us : List ℕ) (d e : LoopData)
    → Nested t cur us
    → get_elem? t.loops l ≡ some d
    → e.header ≡ d.header
    → ((p : ℕ) → e.parent ≡ some p → (p < l) × (cur ≤ p))
    → Nested (record t { loops = set t.loops l e }) cur us
set_loop-Nested t cur l us d e n f h up =
    let lt = lt-get_elem? t.loops l d f in
    let at : (k : ℕ) (x : LoopData)
        → get_elem? (set t.loops l e) k ≡ some x
        → ((k ≡ l) × (x ≡ e)) ⊎ (get_elem? t.loops k ≡ some x) =
      λ k x g. elim (Bool-cases (k == l)) [
        | inl same ↦
            let eq = (==_iff k l).0 same in
            inl (
              eq,
              some-injective _ _
                  (sym g ∙ ap (get_elem? (set t.loops l e)) eq ∙ get_elem?-set_same t.loops l e lt),
            )
        | inr other ↦
            inr
              (sym (get_elem?-set_other t.loops l k e (λ q. ground (arith, (==_iff k l).1 q))) ∙ g)
      ] in
    record {
      parents = λ k p x g q. elim (at k x g) [
        | inl (a, b) ↦ rw a (up p (sym (ap (λ (y : LoopData). y.parent) b) ∙ q))
        | inr old ↦ n.parents k p x old q
      ];
      mapped = λ b k g. let (a, c) = n.mapped b k g in (a, rw (length-set t.loops l e) c);
      headers = λ k x g. elim (at k x g) [
        | inl (a, b) ↦ rw (b, h) (n.headers l d f)
        | inr old ↦ n.headers k x old
      ];
    }

-- One step of the worklist: a loop tree that is still nested, in which loops and blocks are accounted for.
pub record Advances (t t' : LoopTree) (cur : ℕ) (us : List ℕ) : Type 0 where
  pub nested : Nested t' cur us
  pub same_length : length t'.loops ≡ length t.loops
  pub same_headers : headers t'.loops ≡ headers t.loops
  pub fewer :
      roots t'.loops + unmapped t'.block_to_loop us < roots t.loops + unmapped t.block_to_loop us

one_root_less : (x a i y j u : ℕ) → x + i ≡ a + i → y + j ≡ x + 0 → j ≡ 1 → y + u < a + u
one_root_less x a i y j u e f g = omega arith

less_add : (k a b : ℕ) → a < b → k + a < k + b
less_add k a b h = omega arith

-- `outermost` becomes a child of the current loop.
pub merge_lem :
    (t : LoopTree) (cur o l : ℕ) (us : List ℕ)
    → Nested t cur us
    → cur < length t.loops
    → l < length t.loops
    → Outermost t cur o
    → (o == cur) ≡ false
    → (t1 t2 : LoopTree) × (h : ℕ) × (add_child t cur o ≡ some t1)
      × (set_parent t1 o cur ≡ some t2)
      × (loop_header t2 l ≡ some h)
      × (mem h us ≡ true)
      × Advances t t2 cur us
unfolding add_child set_parent loop_header
merge_lem t cur o l us n lc ll out ne =
    let (d, e) = get_elem?-lt t.loops cur lc in
    let d1 : LoopData = record d { children = d.children ++ o ∷ [] } in
    let t1 : LoopTree = record t { loops = set t.loops cur d1 } in
    let n1 = set_loop-Nested t cur cur us d d1 n e refl (λ p q. n.parents cur p d e q) in
    let apart : o ≡ cur → ⊥ = λ q. ground (arith, (==_iff o cur).1 q) in
    let found : get_elem? t1.loops o ≡ some out.node =
      get_elem?-set_other t.loops cur o d1 apart ∙ out.found in
    let d2 : LoopData = record out.node { parent = some cur } in
    let t2 : LoopTree = record t1 { loops = set t1.loops o d2 } in
    let lower : cur < o = let a = out.above in (ground (arith, apart)) in
    let n2 =
      set_loop-Nested t1 cur o us out.node d2 n1 found refl
        (λ p q. let same : cur ≡ p = some-injective _ _ q in (omega arith, omega arith)) in
    let len1 = length-set t.loops cur d1 in
    let len2 = length-set t1.loops o d2 in
    let (x, at) = get_elem?-lt t2.loops l (omega arith) in
    let r1 = roots-set t.loops cur d d1 e in
    let r2 = roots-set t1.loops o out.node d2 found in
    let top : is_none out.node.parent ≡ 1 = ap is_none out.no_parent in
    (
      t1,
      t2,
      x.header,
      rw e refl,
      rw found refl,
      rw at refl,
      n2.headers l x at,
      record {
        nested = n2;
        same_length = len2 ∙ len1;
        same_headers =
            headers-set t1.loops o out.node d2 found refl ∙ headers-set t.loops cur d d1 e refl;
        fewer = one_root_less _ _ _ _ _ _ r1 r2 top;
      },
    )

pub map_lem :
    (t : LoopTree) (cur b : ℕ) (us : List ℕ)
    → Nested t cur us
    → cur < length t.loops
    → mem b us ≡ true
    → t.block_to_loop b ≡ none
    → Advances t (map_block t b cur) cur us
unfolding map_block
map_lem t cur b us n lc m e = record {
  nested = record {
    parents = n.parents;
    mapped = λ c l q. elim (Bool-cases (c == b)) [
      | inl here ↦
          let same : cur ≡ l = some-injective _ _ (ground (arith, q)) in (omega arith, omega arith)
      | inr other ↦ n.mapped c l (ground (arith, q))
    ];
    headers = n.headers;
  };
  same_length = refl;
  same_headers = refl;
  fewer =
      let (_, lt) = unmapped-map t b cur us e in
      let less = lt m in less_add (roots t.loops) _ _ less;
}
