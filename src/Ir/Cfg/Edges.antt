-- ===== src/Ir/Cfg/Edges.antt =====
-- cfg.rs: the edges of a graph, which both of their blocks know.
use sonatina.Base.{
  ℕ, ◌<◌, ◌≤◌, ◌≡◌, refl, sym, Bool, false, not, ◌&&◌, ◌||◌, List, [], ◌∷◌, ◌==◌, if◌then◌else◌,
  arith, mem, Bool-cases, ==_iff, inl, inr,
}
use sonatina.Ir.Cfg.{
  ControlFlowGraph, insert, remove, add_edge, remove_edge, reverse_edges, preds_of, succs_of,
}

abbrev pub Above : ℕ → List ℕ → Type 0
Above a [] = Unit
Above a (x ∷ xs) = a < x

-- In ascending order, each item once.
abbrev pub IsAscending : List ℕ → Type 0
IsAscending [] = Unit
IsAscending (x ∷ xs) = Above x xs × IsAscending xs

pub mem-insert : (b a : ℕ) (xs : List ℕ) → mem b (insert a xs) ≡ ((b == a) || mem b xs)
unfolding insert
mem-insert b a [] = refl
mem-insert b a (x ∷ xs) = ground (arith, mem-insert b a xs)

insert-Above : (c a : ℕ) (xs : List ℕ) → c < a → Above c xs → Above c (insert a xs)
unfolding insert
insert-Above c a [] h k = h
insert-Above c a (x ∷ xs) h k = ground arith

pub insert-IsAscending : (a : ℕ) (xs : List ℕ) → IsAscending xs → IsAscending (insert a xs)
unfolding insert
insert-IsAscending a [] s = (tt, tt)
insert-IsAscending a (x ∷ xs) s = ground (arith, insert-IsAscending a xs s.1, insert-Above x a xs)

not-mem-Above : (a b : ℕ) (xs : List ℕ) → a ≤ b → Above b xs → IsAscending xs → mem a xs ≡ false
not-mem-Above a b [] h k s = refl
not-mem-Above a b (x ∷ xs) h k s = ground (arith, not-mem-Above a x xs)

first_gone :
    (b x : ℕ) (xs : List ℕ) → mem x xs ≡ false → mem b xs ≡ (not (b == x) && ((b == x) || mem b xs))
first_gone b x xs out = elim (Bool-cases (b == x)) [
  | inl e ↦ rw ((==_iff b x).0 e, (==_iff x x).1 refl) out
  | inr n ↦ rw n
]

pub mem-remove :
    (b a : ℕ) (xs : List ℕ) → IsAscending xs → mem b (remove a xs) ≡ (not (b == a) && mem b xs)
unfolding remove
mem-remove b a [] s = ground arith
mem-remove b a (x ∷ xs) s = elim (Bool-cases (a == x)) [
  | inl here ↦
      let e : a ≡ x = (==_iff a x).0 here in
      rw (here, e) (first_gone b x xs (not-mem-Above x x xs (omega arith) s.0 s.1))
  | inr other ↦ rw (other, mem-remove b a xs s.1) (ground arith)
]

remove-Above : (c a : ℕ) (xs : List ℕ) → Above c xs → IsAscending xs → Above c (remove a xs)
unfolding remove
remove-Above c a [] k s = tt
remove-Above c a (x ∷ []) k s = ground arith
remove-Above c a (x ∷ y ∷ xs) k s = ground arith

pub remove-IsAscending : (a : ℕ) (xs : List ℕ) → IsAscending xs → IsAscending (remove a xs)
unfolding remove
remove-IsAscending a [] s = tt
remove-IsAscending a (x ∷ xs) s = ground (arith, remove-IsAscending a xs s.1, remove-Above x a xs)

-- There is an edge from `a` to `b`.
abbrev pub edge : ControlFlowGraph → ℕ → ℕ → Bool
edge g a b = mem b (succs_of g a)

-- The two sets of each edge's blocks agree, and the sets are in order.
pub record IsGraph (g : ControlFlowGraph) : Type 0 where
  pub agree : (a b : ℕ) → mem a (preds_of g b) ≡ mem b (succs_of g a)
  pub preds_ascend : (b : ℕ) → IsAscending (preds_of g b)
  pub succs_ascend : (b : ℕ) → IsAscending (succs_of g b)

add_edge-sets :
    (f t : ℕ) (g : ControlFlowGraph) (k : ℕ)
    → (preds_of (add_edge f t g) k ≡ (if k == t then insert f (preds_of g k) else preds_of g k))
      × (succs_of (add_edge f t g) k ≡ (if k == f then insert t (succs_of g k) else succs_of g k))
unfolding add_edge preds_of succs_of
add_edge-sets f t g k = (ground arith, ground arith)

remove_edge-sets :
    (f t : ℕ) (g : ControlFlowGraph) (k : ℕ)
    → (preds_of (remove_edge f t g) k ≡ (if k == t then remove f (preds_of g k) else preds_of g k))
      × (succs_of (remove_edge f t g) k
          ≡ (if k == f then remove t (succs_of g k) else succs_of g k))
unfolding remove_edge preds_of succs_of
remove_edge-sets f t g k = (ground arith, ground arith)

module _ (g : ControlFlowGraph) (h : IsGraph g) (f t : ℕ) where
  edge-add_edge : (a b : ℕ) → edge (add_edge f t g) a b ≡ ((a == f && b == t) || edge g a b)
  edge-add_edge a b = ground (arith, add_edge-sets f t g a, mem-insert b t (succs_of g a))

  edge-remove_edge :
      (a b : ℕ) → edge (remove_edge f t g) a b ≡ (not (a == f && b == t) && edge g a b)
  edge-remove_edge a b =
      ground (arith, remove_edge-sets f t g a, mem-remove b t (succs_of g a) (h.succs_ascend a))

  pub add_edge-IsGraph : IsGraph (add_edge f t g)
  add_edge-IsGraph = record {
    agree = λ a b. ground (
      arith,
      add_edge-sets f t g a,
      add_edge-sets f t g b,
      mem-insert b t (succs_of g a),
      mem-insert a f (preds_of g b),
      h.agree a b,
    );
    preds_ascend = λ b. ground (
      arith,
      add_edge-sets f t g b,
      insert-IsAscending f (preds_of g b) (h.preds_ascend b),
      h.preds_ascend b,
    );
    succs_ascend = λ b. ground (
      arith,
      add_edge-sets f t g b,
      insert-IsAscending t (succs_of g b) (h.succs_ascend b),
      h.succs_ascend b,
    );
  }

  remove_edge-IsGraph : IsGraph (remove_edge f t g)
  remove_edge-IsGraph = record {
    agree = λ a b. ground (
      arith,
      remove_edge-sets f t g a,
      remove_edge-sets f t g b,
      mem-remove b t (succs_of g a) (h.succs_ascend a),
      mem-remove a f (preds_of g b) (h.preds_ascend b),
      h.agree a b,
    );
    preds_ascend = λ b. ground (
      arith,
      remove_edge-sets f t g b,
      remove-IsAscending f (preds_of g b) (h.preds_ascend b),
      h.preds_ascend b,
    );
    succs_ascend = λ b. ground (
      arith,
      remove_edge-sets f t g b,
      remove-IsAscending t (succs_of g b) (h.succs_ascend b),
      h.succs_ascend b,
    );
  }

  -- In a graph whose blocks agree on their edges, adding and removing an edge and turning all edges
  -- round keep that agreement, and change the edges as they say.
  pub edges_lem :
      (entry : ℕ) (exits : List ℕ)
      → IsGraph (add_edge f t g)
        × IsGraph (remove_edge f t g)
        × IsGraph (reverse_edges entry exits g)
        × ((a b : ℕ)
            → (edge (add_edge f t g) a b ≡ ((a == f && b == t) || edge g a b))
              × (edge (remove_edge f t g) a b ≡ (not (a == f && b == t) && edge g a b))
              × (edge (reverse_edges entry exits g) a b ≡ edge g b a))
  unfolding reverse_edges preds_of succs_of
  edges_lem entry exits = (
    add_edge-IsGraph,
    remove_edge-IsGraph,
    record {
      agree = λ a b. sym (h.agree b a);
      preds_ascend = h.succs_ascend;
      succs_ascend = h.preds_ascend;
    },
    λ a b. (edge-add_edge a b, edge-remove_edge a b, h.agree b a),
  )
