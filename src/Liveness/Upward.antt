-- ===== src/Liveness/Upward.antt =====
-- liveness.rs: `up_and_mark` ends, and has marked all the paths when it does.
use sonatina.Base.{
  ℕ, zero, suc, ◌+◌, ◌<◌, ◌≤◌, ◌≡◌, inl, inr, refl, ap, ◌∙◌, Bool, true, false, ◌||◌, Option, some,
  List, [], ◌∷◌, ◌==◌, if◌then◌else◌, arith, mem, length, Bool-cases, ==_iff,
}
use sonatina.BitSets.{BitSetOps, IsBitSet}
use sonatina.Ir.Cfg.{ControlFlowGraph, preds_of}
use sonatina.Liveness.{
  ValDef, is_normal, is_phi_in, Liveness, up_and_mark, mark_preds, add_live_block, add_live_in,
  add_live_out,
}
use sonatina.Liveness.Marks.{
  ins, outs, blocks, Grows, Grows-trans, add_live_block-Grows, add_live_in-Grows,
}
use sonatina.Liveness.Search.{
  Follows, Follows-refl, Follows-trans, done, passed, passed-Grows, add_live_block-Follows,
  add_live_out-Follows,
}
use sonatina.Liveness.Paths.{LiveIn, LiveOut, Wanted}

module _ {S : Type 0} (ops : BitSetOps S) (v : ℕ) where
  -- The blocks of a list that are not marked for the value.
  abbrev pub unmarked : Liveness S → List ℕ → ℕ
  unmarked s [] = 0
  unmarked s (b ∷ bs) = (if ins ops s v b then 0 else 1) + unmarked s bs

  unmarked-Grows :
      (s t : Liveness S) (us : List ℕ) → Grows ops s t v → unmarked t us ≤ unmarked s us
  unmarked-Grows s t [] g = omega arith
  unmarked-Grows s t (u ∷ us) g = ground (arith, unmarked-Grows s t us g, g.keeps_ins u)

  unmarked-mark :
      (s t : Liveness S) (us : List ℕ) (b : ℕ)
      → Grows ops s t v
      → mem b us ≡ true
      → ins ops s v b ≡ false
      → ins ops t v b ≡ true
      → unmarked t us < unmarked s us
  unmarked-mark s t [] b g m a d = absurd cc
  unmarked-mark s t (u ∷ us) b g m a d = elim (Bool-cases (b == u)) [
    | inl here ↦
        let same : b ≡ u = (==_iff b u).0 here in
        let rest = unmarked-Grows s t us g in rw (← same, a, d) (omega arith)
    | inr later ↦ ground (arith, unmarked-mark s t us b g (ground arith) a d, g.keeps_ins u)
  ]

  pub unmarked-length : (s : Liveness S) (us : List ℕ) → unmarked s us ≤ length us
  unmarked-length s [] = omega arith
  unmarked-length s (u ∷ us) = ground (arith, unmarked-length s us)

module _ {S : Type 0} (ops : BitSetOps S) (laws : IsBitSet ops) (cfg : ControlFlowGraph) (v : ℕ)
    (def : ValDef) (uses : ℕ → Bool) (us : List ℕ)
    (all : (b p : ℕ) → mem b us ≡ true → mem p (preds_of cfg b) ≡ true → mem p us ≡ true) where
  -- A call that ends, having gone through the block.
  abbrev Marks : Option (Liveness S) → Liveness S → ℕ → Type 0
  Marks r s b =
      (t : Liveness S) × (r ≡ some t)
      × Follows ops laws cfg v def uses s t
      × (done ops laws cfg v def uses t b ≡ true)

  mark_preds_lem :
      (up : ℕ → Liveness S → Option (Liveness S)) (n : ℕ)
      → ((p : ℕ) (s : Liveness S)
          → s.defs v ≡ some def
          → Wanted cfg def uses p
          → mem p us ≡ true
          → unmarked ops v s us < n
          → Marks (up p s) s p)
      → (ps : List ℕ) (s : Liveness S) → s.defs v ≡ some def
      → ((p : ℕ) → mem p ps ≡ true → LiveOut cfg def uses p × (mem p us ≡ true))
      → unmarked ops v s us < n
      → (t : Liveness S) × (mark_preds ops up v ps s ≡ some t)
        × Follows ops laws cfg v def uses s t
        × ((p : ℕ) → mem p ps ≡ true → passed ops laws cfg v def uses t p ≡ true)
  unfolding mark_preds
  mark_preds_lem up n call [] s d want h =
      (s, refl, Follows-refl ops laws cfg v def uses s, λ p m. absurd cc)
  mark_preds_lem up n call (q ∷ ps) s d want h =
      let here = want q (ground (arith, (==_iff q q).1 refl)) in
      let s1 = add_live_out ops v q s in
      let f1 = add_live_out-Follows ops laws cfg v def uses s q here.0 in
      let (s2, r2, f2, d2) =
        call q s1 d (inr here.0) here.1
          (let a = unmarked-Grows ops v s s1 us f1.grows in omega arith) in
      let g2 = f2.grows in
      let (t, r, f, rest) =
        mark_preds_lem up n call ps s2 (ap (λ (m : ℕ → Option ValDef). m v) g2.same_defs ∙ d)
          (λ p m. want p (ground arith))
          (let a = unmarked-Grows ops v s s1 us f1.grows in
            let b = unmarked-Grows ops v s1 s2 us g2 in omega arith) in
      (
        t,
        rw r2 r,
        Follows-trans ops laws cfg v def uses s s2 t
            (Follows-trans ops laws cfg v def uses s s1 s2 f1 f2) f,
        λ p m. elim (Bool-cases (p == q)) [
          | inl first ↦
              let out : outs ops s1 v q ≡ true = ground (
                arith,
                laws.insert_law (s.live_outs q) v v,
                (==_iff v v).1 refl,
                (==_iff q q).1 refl,
              ) in
              passed-Grows ops laws cfg v def uses s2 t p f.grows
                (rw ((==_iff p q).0 first) (ground (arith, g2.keeps_outs q out, d2)))
          | inr later ↦ rest p (ground arith)
        ],
      )

  wanted-LiveIn : (b : ℕ) → Wanted cfg def uses b → is_normal def b ≡ false → LiveIn cfg def uses b
  wanted-LiveIn b (inl u) n = LiveIn.used u n
  wanted-LiveIn b (inr (c, m, l, k)) n = LiveIn.back m l k n

  -- The state in which the search goes on from a block.
  abbrev enter : Liveness S → ℕ → Liveness S
  enter s b = add_live_in ops v b (add_live_block ops v b s)

  enter-ins : (s : Liveness S) (b c : ℕ) → ins ops (enter s b) v c ≡ ((c == b) || ins ops s v c)
  enter-ins s b c = ground (arith, laws.insert_law (s.live_ins b) v v, (==_iff v v).1 refl)

  enter-blocks :
      (s : Liveness S) (b c : ℕ) → blocks ops (enter s b) v c ≡ ((c == b) || blocks ops s v c)
  enter-blocks s b c =
      ground (arith, laws.insert_law (s.val_live_blocks v) b c, (==_iff v v).1 refl)

  entered :
      (s t : Liveness S) (b : ℕ)
      → Wanted cfg def uses b
      → is_normal def b ≡ false
      → Follows ops laws cfg v def uses (enter s b) t
      → ((p : ℕ)
          → is_phi_in def b ≡ false
          → mem p (preds_of cfg b) ≡ true
          → passed ops laws cfg v def uses t p ≡ true)
      → Follows ops laws cfg v def uses s t × (done ops laws cfg v def uses t b ≡ true)
  entered s t b w n f preds =
      let self = (==_iff b b).1 refl in
      (
        record {
          grows =
              Grows-trans ops s (enter s b) t v
                (Grows-trans ops s (add_live_block ops v b s) (enter s b) v
                  (add_live_block-Grows ops laws s v b)
                  (add_live_in-Grows ops laws (add_live_block ops v b s) v b))
                f.grows;
          closed = λ c p a k ph m. elim (Bool-cases (c == b)) [
            | inl here ↦
                let same : c ≡ b = (==_iff c b).0 here in preds p (rw (← same) ph) (rw (← same) m)
            | inr apart ↦ f.closed c p (enter-ins s b c ∙ rw (apart, a)) k ph m
          ];
          sound_ins = λ c a k. elim (Bool-cases (c == b)) [
            | inl here ↦ rw ((==_iff c b).0 here) (wanted-LiveIn b w n)
            | inr apart ↦ f.sound_ins c (enter-ins s b c ∙ rw (apart, a)) k
          ];
          sound_outs = λ c a k. f.sound_outs c a k;
          sound_blocks = λ c a k. elim (Bool-cases (c == b)) [
            | inl here ↦ rw ((==_iff c b).0 here) w
            | inr apart ↦ f.sound_blocks c (enter-blocks s b c ∙ rw (apart, a)) k
          ];
        },
        ground (
          arith,
          f.grows.keeps_ins b,
          f.grows.keeps_blocks b,
          enter-ins s b b,
          enter-blocks s b b,
          self,
        ),
      )

  marked_here :
      (s : Liveness S) (b : ℕ)
      → (is_normal def b || ins ops s v b) ≡ true
      → done ops laws cfg v def uses (add_live_block ops v b s) b ≡ true
  marked_here s b h =
      ground
        (arith, laws.insert_law (s.val_live_blocks v) b b, (==_iff v v).1 refl, (==_iff b b).1 refl)

  onward :
      (fuel b : ℕ) (s : Liveness S)
      → s.defs v ≡ some def
      → Wanted cfg def uses b
      → mem b us ≡ true
      → ins ops s v b ≡ false
      → is_normal def b ≡ false
      → is_phi_in def b ≡ false
      → ((p : ℕ) (t : Liveness S)
          → t.defs v ≡ some def
          → Wanted cfg def uses p
          → mem p us ≡ true
          → unmarked ops v t us < fuel
          → Marks (up_and_mark ops fuel cfg v p t) t p)
      → unmarked ops v s us < suc fuel
      → Marks (up_and_mark ops (suc fuel) cfg v b s) s b
  unfolding up_and_mark
  onward fuel b s d w m new other goes call h =
      let live = wanted-LiveIn b w other in
      let g =
        Grows-trans ops s (add_live_block ops v b s) (enter s b) v
          (add_live_block-Grows ops laws s v b)
          (add_live_in-Grows ops laws (add_live_block ops v b s) v b) in
      let fewer =
        unmarked-mark ops v s (enter s b) us b g m new
          (enter-ins s b b ∙ rw ((==_iff b b).1 refl)) in
      let (t, r, f, passes) =
        mark_preds_lem (up_and_mark ops fuel cfg v) fuel call (preds_of cfg b) (enter s b) d
          (λ p q. ((b, q, live, goes), all b p m q)) (omega arith) in
      let (f', q) = entered s t b w other f (λ p _. passes p) in
      (t, rw (d, other, new, goes) r, f', q)

  -- For a value whose definition is known and a block where it is wanted, fuel for one call more than
  -- there are unmarked blocks is enough: `up_and_mark` ends, has gone through the block, and what it
  -- has marked is where the value is live.
  pub up_and_mark_lem :
      (fuel b : ℕ) (s : Liveness S)
      → s.defs v ≡ some def
      → Wanted cfg def uses b
      → mem b us ≡ true
      → unmarked ops v s us < fuel
      → Marks (up_and_mark ops fuel cfg v b s) s b
  unfolding up_and_mark
  up_and_mark_lem zero b s d w m h = absurd (omega arith)
  up_and_mark_lem (suc fuel) b s d w m h =
      let s1 = add_live_block ops v b s in
      let f1 = add_live_block-Follows ops laws cfg v def uses s b w in
      elim (Bool-cases (is_normal def b)) [
        | inl own ↦ (s1, rw (d, own), f1, marked_here s b (rw own))
        | inr other ↦ elim (Bool-cases (ins ops s v b)) [
          | inl old ↦ (s1, rw (d, other, old), f1, marked_here s b (rw (other, old)))
          | inr new ↦ elim (Bool-cases (is_phi_in def b)) [
            | inl here ↦
                let (f, q) =
                  entered s (enter s b) b w other (Follows-refl ops laws cfg v def uses (enter s b))
                    (λ p k. absurd (ground arith)) in
                (enter s b, rw (d, other, new, here), f, q)
            | inr goes ↦ onward fuel b s d w m new other goes (up_and_mark_lem fuel) h
          ]
        ]
      ]
