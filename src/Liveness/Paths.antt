-- ===== src/Liveness/Paths.antt =====
-- liveness.rs: where a value is live, by the paths of the control flow graph from its definition to its
-- uses.
use sonatina.Base.{ℕ, ◌≡◌, ◌⊎◌, Bool, true, false, mem}
use sonatina.Ir.Cfg.{ControlFlowGraph, preds_of}
use sonatina.Liveness.{ValDef, is_normal, is_phi_in}

-- The value is live at the start of a block: a path leads from there to a block that uses the value,
-- which no block on it defines by an instruction, and which no block after the first one defines by a
-- phi.
pub data LiveIn (cfg : ControlFlowGraph) (def : ValDef) (uses : ℕ → Bool) : ℕ → Type 0 where
  used : {b : ℕ} → uses b ≡ true → is_normal def b ≡ false → LiveIn cfg def uses b
  back :
      {b c : ℕ}
      → mem b (preds_of cfg c) ≡ true
      → LiveIn cfg def uses c
      → is_phi_in def c ≡ false
      → is_normal def b ≡ false
      → LiveIn cfg def uses b

-- The value is live at the end of a block: so it is at the start of a successor that has no phi for it.
abbrev pub LiveOut : ControlFlowGraph → ValDef → (ℕ → Bool) → ℕ → Type 0
LiveOut cfg def uses b =
    (c : ℕ) × (mem b (preds_of cfg c) ≡ true) × LiveIn cfg def uses c × (is_phi_in def c ≡ false)

-- The value is used in a block, or live at its end.
abbrev pub Wanted : ControlFlowGraph → ValDef → (ℕ → Bool) → ℕ → Type 0
Wanted cfg def uses b = (uses b ≡ true) ⊎ LiveOut cfg def uses b
