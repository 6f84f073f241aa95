-- ===== src/Assemble/Writes.antt =====
-- assemble.rs: writes that leave a layout with the same offsets and sizes.
use sonatina.Base.{
  ℕ, ◌≡◌, inl, inr, refl, sym, fun_ext, Bool, true, false, ◌||◌, Option, some, List, ◌==◌, length,
  arith, Bool-cases, ==_iff,
}
use sonatina.Assemble.{FuncLayout, write, changes}
use sonatina.Assemble.Placed.{Same, imm_size}

pub write_same : {A : Type 0} (f : ℕ → A) (k : ℕ) (v : A) → f k ≡ v → write f k v ≡ f
write_same f k v e =
    fun_ext
      (λ i. elim (Bool-cases (i == k)) [ inl h ↦ rw (h, sym e, (==_iff i k).0 h) | inr h ↦ rw h ])

pub write_at : {A : Type 0} (f : ℕ → A) (k : ℕ) (v : A) → write f k v k ≡ v
write_at f k v = rw ((==_iff k k).1 refl) refl

pub unchanged : (a b : ℕ) → changes a b ≡ false → a ≡ b
unchanged a b h = (==_iff a b).0 (ground (arith, h))

pub or_false : (a b : Bool) → (a || b) ≡ false → (a ≡ false) × (b ≡ false)
or_false false b h = (refl, h)
or_false true b h = absurd (cc h)

-- Immediates of the same size.
pub write-sizes :
    (f : ℕ → Option (List ℕ)) (i : ℕ) (bytes : List ℕ)
    → imm_size (f i) ≡ length bytes
    → (j : ℕ) → imm_size (f j) ≡ imm_size (write f i (some bytes) j)
write-sizes f i bytes e j = elim (Bool-cases (j == i)) [
  | inl h ↦ rw (h, (==_iff j i).0 h) e
  | inr h ↦ rw h
]

module _ {O : Type 0} where
  pub label-Same :
      (s : FuncLayout O) (insts : ℕ → O) (targets : ℕ → ℕ)
      → s.label_targets ≡ targets
      → Same s (record s { label_targets = targets; vcode = record s.vcode { insts = insts } })
  label-Same s insts targets e = record {
    offset = refl;
    block_offsets = refl;
    insn_offsets = refl;
    label_targets = e;
    block_order = refl;
    fixups = refl;
    labels = refl;
    blocks = refl;
    imm_sizes = λ j. refl;
  }

  pub bytes-Same :
      (s : FuncLayout O) (insts : ℕ → O) (bytes : ℕ → Option (List ℕ))
      → ((j : ℕ) → imm_size (s.vcode.inst_imm_bytes j) ≡ imm_size (bytes j))
      → Same s (record s { vcode = record s.vcode { insts = insts; inst_imm_bytes = bytes } })
  bytes-Same s insts bytes e = record {
    offset = refl;
    block_offsets = refl;
    insn_offsets = refl;
    label_targets = refl;
    block_order = refl;
    fixups = refl;
    labels = refl;
    blocks = refl;
    imm_sizes = e;
  }

  pub insn-Same :
      (s : FuncLayout O) (offsets : ℕ → ℕ)
      → s.insn_offsets ≡ offsets
      → Same s (record s { insn_offsets = offsets })
  insn-Same s offsets e = record {
    offset = refl;
    block_offsets = refl;
    insn_offsets = e;
    label_targets = refl;
    block_order = refl;
    fixups = refl;
    labels = refl;
    blocks = refl;
    imm_sizes = λ j. refl;
  }

  pub block-Same :
      (s : FuncLayout O) (offsets : ℕ → ℕ)
      → s.block_offsets ≡ offsets
      → Same s (record s { block_offsets = offsets })
  block-Same s offsets e = record {
    offset = refl;
    block_offsets = e;
    insn_offsets = refl;
    label_targets = refl;
    block_order = refl;
    fixups = refl;
    labels = refl;
    blocks = refl;
    imm_sizes = λ j. refl;
  }

  pub size-Same : (s : FuncLayout O) (n : ℕ) → Same s (record s { size = n })
  size-Same s n = record {
    offset = refl;
    block_offsets = refl;
    insn_offsets = refl;
    label_targets = refl;
    block_order = refl;
    fixups = refl;
    labels = refl;
    blocks = refl;
    imm_sizes = λ j. refl;
  }
