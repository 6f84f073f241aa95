-- ===== src/Ir/Cfg/Rounds.antt =====
-- cfg.rs: every round of the post order's search keeps what holds of a search.
use sonatina.Base.{
  ℕ, ◌≡◌, ◌⊎◌, inl, inr, sym, ◌∙◌, true, ◌&&◌, ◌||◌, List, [], ◌∷◌, ◌++◌, ◌==◌, arith, mem,
  mem-append, Bool-cases, ==_iff, append-nil,
}
use sonatina.Ir.Cfg.{ControlFlowGraph, push_unvisited, set_state, succs_of}
use sonatina.Ir.Cfg.Edges.{edge}
use sonatina.Ir.Cfg.Visits.{
  Reaches, before, Ordered-snoc, IsSearch, mem-push_unvisited, before-push_unvisited,
}
use sonatina.Ir.Layout.Chain.{Distinct-insert}

module _ (g : ControlFlowGraph) (e : ℕ) (st : ℕ → ℕ) (b : ℕ) (rest out : List ℕ)
    (s : IsSearch g e st (b ∷ rest) out) where
  -- A finished block is dropped.
  pub drop-IsSearch : st b ≡ 2 → IsSearch g e st rest out
  drop-IsSearch h = record {
    states = s.states;
    finished = s.finished;
    distinct = s.distinct;
    waiting = λ v o. ground (arith, s.waiting v o);
    reached = λ v m. s.reached v (ground arith);
    reached_out = s.reached_out;
    path = λ w x o m. s.path w x o (ground arith);
    open_edges = λ u w o l. ground (arith, s.open_edges u w o l);
    shut_edges = s.shut_edges;
    ordered = s.ordered;
    entry = ground (arith, s.entry);
  }

  finished_before :
      st b ≡ 1 → (w : ℕ) → edge g b w ≡ true → ((mem w out || mem w []) ≡ true) ⊎ Reaches g w b
  finished_before h w l = elim (Bool-cases (w == b)) [
    | inl same ↦ inr (rw ((==_iff w b).0 same) Reaches.here)
    | inr other ↦ elim (Bool-cases (st w == 1)) [
      | inl visited ↦ inr (s.path w b visited (ground arith))
      | inr gone ↦ inl (ground (arith, s.open_edges b w (ground arith) l, s.finished w, s.states w))
    ]
  ]

  -- A visited block that is on top again is finished.
  pub finish-IsSearch : st b ≡ 1 → IsSearch g e (set_state st b 2) rest (out ++ b ∷ [])
  finish-IsSearch h = record {
    states = λ v. ground (arith, s.states v);
    finished = λ v. ground (arith, s.finished v, mem-append v out (b ∷ []));
    distinct =
        Distinct-insert out [] b (rw append-nil s.distinct)
          (rw append-nil (ground (arith, s.finished b)));
    waiting = λ v o. ground (arith, s.waiting v);
    reached = λ v m. s.reached v (ground arith);
    reached_out = λ v m. elim (Bool-cases (mem v out)) [
      | inl old ↦ s.reached_out v old
      | inr new ↦ s.reached v (ground (arith, mem-append v out (b ∷ [])))
    ];
    path = λ w x o m. s.path w x (ground arith) (ground arith);
    open_edges = λ u w o l. ground (arith, s.open_edges u w);
    shut_edges = λ u w o l. ground (arith, s.open_edges u w, s.shut_edges u w);
    ordered = Ordered-snoc g [] out b s.ordered (finished_before h);
    entry = ground (arith, s.entry);
  }

  abbrev visited : ℕ → ℕ
  visited = set_state st b 1

  visit_path :
      st b ≡ 0
      → (w x : ℕ) → (visited w == 1) ≡ true
      → ((edge g b x && visited x == 0) || mem x (before w (b ∷ rest))) ≡ true
      → Reaches g w x
  visit_path h w x o m = elim (Bool-cases (w == b)) [
    | inl same ↦ rw ((==_iff w b).0 same) (Reaches.next Reaches.here (ground arith))
    | inr other ↦ elim (Bool-cases (mem x (before w (b ∷ rest)))) [
      | inl old ↦ s.path w x (ground arith) old
      | inr new ↦ Reaches.next (s.path w b (ground arith) (ground arith)) (ground arith)
    ]
  ]

  -- An unvisited block is visited, and its unvisited successors are pushed.
  pub visit-IsSearch :
      st b ≡ 0 → IsSearch g e visited (push_unvisited visited (succs_of g b) (b ∷ rest)) out
  visit-IsSearch h =
      let inside = λ (v : ℕ). mem-push_unvisited visited v (succs_of g b) (b ∷ rest) in
      let ahead = λ (w v : ℕ). before-push_unvisited visited w v (succs_of g b) (b ∷ rest) in
      record {
        states = λ v. ground (arith, s.states v);
        finished = λ v. ground (arith, s.finished v);
        distinct = s.distinct;
        waiting = λ v o. inside v ∙ ground (arith, s.waiting v);
        reached = λ v m. elim (Bool-cases (mem v (b ∷ rest))) [
          | inl old ↦ s.reached v old
          | inr new ↦ Reaches.next (s.reached b (ground arith)) (ground (arith, inside v))
        ];
        reached_out = s.reached_out;
        path = λ w x o m. visit_path h w x o (sym (ahead x w (ground arith)) ∙ m);
        open_edges = λ u w o l. ground (arith, ahead w u, s.open_edges u w);
        shut_edges = λ u w o l. ground (arith, s.shut_edges u w);
        ordered = s.ordered;
        entry = ground (arith, s.entry, inside e);
      }
