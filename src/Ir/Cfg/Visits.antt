-- ===== src/Ir/Cfg/Visits.antt =====
-- cfg.rs: what holds between the rounds of the post order's depth-first search.
use sonatina.Base.{
  ℕ, ◌≤◌, ◌≡◌, ◌⊎◌, inl, inr, refl, ap, ◌∙◌, Bool, true, false, not, ◌&&◌, ◌||◌, List, [], ◌∷◌,
  ◌++◌, ◌==◌, if◌then◌else◌, arith, mem,
}
use sonatina.Ir.Cfg.{ControlFlowGraph, push_unvisited}
use sonatina.Ir.Cfg.Edges.{edge}
use sonatina.Ir.Layout.Chain.{Distinct}

-- A path along the edges.
pub data Reaches (g : ControlFlowGraph) (a : ℕ) : ℕ → Type 0 where
  here : Reaches g a a
  next : {b c : ℕ} → Reaches g a b → edge g b c ≡ true → Reaches g a c

pub Reaches-trans :
    (g : ControlFlowGraph) (a b c : ℕ) → Reaches g a b → Reaches g b c → Reaches g a c
Reaches-trans g a b c p here = p
Reaches-trans g a b c p (next q e) = next (Reaches-trans g a b _ p q) e

-- The items in front of the first occurrence.
abbrev pub before : ℕ → List ℕ → List ℕ
before w [] = []
before w (x ∷ xs) = if w == x then [] else x ∷ before w xs

-- Each block stands after the destinations of its edges, except after those that lead back to it.
abbrev pub Ordered : ControlFlowGraph → List ℕ → List ℕ → Type 0
Ordered g pre [] = Unit
Ordered g pre (u ∷ rest) =
    ((w : ℕ) → edge g u w ≡ true → (mem w pre ≡ true) ⊎ Reaches g w u) × Ordered g (u ∷ pre) rest

pub Ordered-snoc :
    (g : ControlFlowGraph) (pre xs : List ℕ) (b : ℕ)
    → Ordered g pre xs
    → ((w : ℕ) → edge g b w ≡ true → ((mem w xs || mem w pre) ≡ true) ⊎ Reaches g w b)
    → Ordered g pre (xs ++ b ∷ [])
Ordered-snoc g pre [] b o h = (h, tt)
Ordered-snoc g pre (x ∷ xs) b o h = (
  o.0,
  Ordered-snoc g (x ∷ pre) xs b o.1
      (λ w e. elim (h w e) [ inl m ↦ inl (ground arith) | inr r ↦ inr r ]),
)

pub record IsSearch (g : ControlFlowGraph) (e : ℕ) (st : ℕ → ℕ) (stack out : List ℕ) : Type 0 where
  pub states : (v : ℕ) → st v ≤ 2
  pub finished : (v : ℕ) → mem v out ≡ (st v == 2)
  pub distinct : Distinct out
  pub waiting : (v : ℕ) → (st v == 1) ≡ true → mem v stack ≡ true
  pub reached : (v : ℕ) → mem v stack ≡ true → Reaches g e v
  pub reached_out : (v : ℕ) → mem v out ≡ true → Reaches g e v
  -- The visited blocks on the stack lead to what stands above them.
  pub path : (w x : ℕ) → (st w == 1) ≡ true → mem x (before w stack) ≡ true → Reaches g w x
  pub open_edges :
      (u w : ℕ)
      → (st u == 1) ≡ true
      → edge g u w ≡ true
      → (not (st w == 0) || mem w (before u stack)) ≡ true
  pub shut_edges : (u w : ℕ) → (st u == 2) ≡ true → edge g u w ≡ true → (st w == 0) ≡ false
  pub ordered : Ordered g [] out
  pub entry : (not (st e == 0) || mem e stack) ≡ true

ap-if :
    {A : Type 0} (f : List ℕ → A) (c : Bool) (xs ys : List ℕ)
    → f (if c then xs else ys) ≡ (if c then f xs else f ys)
ap-if f true xs ys = refl
ap-if f false xs ys = refl

push_one :
    (st : ℕ → ℕ) (w x : ℕ) (later below : Bool)
    → ((later && st w == 0) || (if st x == 0 then (w == x) || below else below))
      ≡ ((((w == x) || later) && st w == 0) || below)
push_one st w x later below = ground arith

pub mem-push_unvisited :
    (st : ℕ → ℕ) (w : ℕ) (ws stack : List ℕ)
    → mem w (push_unvisited st ws stack) ≡ ((mem w ws && st w == 0) || mem w stack)
unfolding push_unvisited
mem-push_unvisited st w [] stack = refl
mem-push_unvisited st w (x ∷ ws) stack =
    mem-push_unvisited st w ws (if st x == 0 then x ∷ stack else stack)
    ∙ ap (λ (m : Bool). (mem w ws && st w == 0) || m) (ap-if (mem w) (st x == 0) (x ∷ stack) stack)
    ∙ push_one st w x (mem w ws) (mem w stack)

-- In front of a visited block stand what is pushed, and what stood there.
pub before-push_unvisited :
    (st : ℕ → ℕ) (w v : ℕ) (ws stack : List ℕ)
    → (st v == 0) ≡ false
    → mem w (before v (push_unvisited st ws stack))
      ≡ ((mem w ws && st w == 0) || mem w (before v stack))
unfolding push_unvisited
before-push_unvisited st w v [] stack h = refl
before-push_unvisited st w v (x ∷ ws) stack h =
    before-push_unvisited st w v ws (if st x == 0 then x ∷ stack else stack) h
    ∙ ap (λ (m : Bool). (mem w ws && st w == 0) || m)
        (ap-if (λ (xs : List ℕ). mem w (before v xs)) (st x == 0) (x ∷ stack) stack ∙ ground arith)
    ∙ push_one st w x (mem w ws) (mem w (before v stack))
