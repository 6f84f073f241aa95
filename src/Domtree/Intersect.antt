-- ===== src/Domtree/Intersect.antt =====
-- domtree.rs: the lowest block above two blocks in a tree of dominators.
use sonatina.Base.{
  ℕ, zero, suc, ◌+◌, ◌<◌, ◌≤◌, ◌≡◌, inl, inr, Bool, true, false, Option, some, ◌==◌, ltb, arith,
  Bool-cases, ==_iff, ltb→lt,
}
use sonatina.Domtree.Ancestors.{Above, Above-trans, IsTree, step-Above, Above-rises}
use sonatina.Domtree.{climb, intersect}

module _ (doms : ℕ → Option ℕ) (nums : ℕ → ℕ) (root : ℕ) (inside : ℕ → Bool)
    (t : IsTree doms nums root inside) where
  -- The first block from `b` up whose number is not below `n`.
  record Climbs (b n c : ℕ) : Type 0 where
    stays : inside c ≡ true
    high : n ≤ nums c
    above : Above doms b c
    first : (x : ℕ) → Above doms b x → n ≤ nums x → Above doms c x
    rising : nums b ≤ nums c
    moves : nums b < n → nums b < nums c

  climb_lem :
      (fuel b n : ℕ)
      → inside b ≡ true
      → n ≤ nums root
      → nums root < fuel + nums b
      → (c : ℕ) × (climb fuel doms nums b n ≡ some c) × Climbs b n c
  unfolding climb
  climb_lem zero b n i h f = let top = t.highest b i in absurd (omega arith)
  climb_lem (suc fuel) b n i h f = elim (Bool-cases (ltb (nums b) n)) [
    | inr there ↦ (
      b,
      rw there,
      record {
        stays = i;
        high = ground arith;
        above = Above.self;
        first = λ x a _. a;
        rising = omega arith;
        moves = λ l. absurd (ground arith);
      },
    )
    | inl below ↦
        let l : nums b < n = ltb→lt (nums b) n below in
        let other : (b == root) ≡ false = ground arith in
        let (d, e, i', r) = t.rises b i other in
        let (c, run, k) = climb_lem fuel d n i' h (omega arith) in
        (
          c,
          rw (below, e) run,
          record {
            stays = k.stays;
            high = k.high;
            above = Above.up e k.above;
            first = λ x a le.
                k.first x (step-Above doms nums root inside t b d x e a (ground arith)) le;
            rising = let q = k.rising in omega arith;
            moves = λ _. let q = k.rising in omega arith;
          },
        )
  ]

  -- The lowest block that stands above both.
  pub record Nearest (b1 b2 c : ℕ) : Type 0 where
    pub stays : inside c ≡ true
    pub above_first : Above doms b1 c
    pub above_second : Above doms b2 c
    pub nearest : (x : ℕ) → Above doms b1 x → Above doms b2 x → Above doms c x

  -- For two blocks of a tree whose numbers rise towards the root, `intersect` ends and yields the
  -- lowest block that stands above both, on more fuel for the outer loop than the root's number is
  -- above the two blocks' numbers together, and for the inner ones on more than the root's number.
  pub intersect_lem :
      (fuel inner b1 b2 : ℕ)
      → inside b1 ≡ true
      → inside b2 ≡ true
      → nums root < inner
      → nums root + nums root < fuel + (nums b1 + nums b2)
      → (c : ℕ) × (intersect fuel inner doms nums b1 b2 ≡ some c) × Nearest b1 b2 c
  unfolding intersect
  intersect_lem zero inner b1 b2 i1 i2 hi h =
      let h1 = t.highest b1 i1 in let h2 = t.highest b2 i2 in absurd (omega arith)
  intersect_lem (suc fuel) inner b1 b2 i1 i2 hi h = elim (Bool-cases (b1 == b2)) [
    | inl same ↦
        let e : b1 ≡ b2 = (==_iff b1 b2).0 same in
        (
          b1,
          rw same,
          record {
            stays = i1;
            above_first = Above.self;
            above_second = rw e Above.self;
            nearest = λ x p q. p;
          },
        )
    | inr apart ↦
        let (c1, run1, k1) = climb_lem inner b1 (nums b2) i1 (t.highest b2 i2) (omega arith) in
        let (c2, run2, k2) =
          climb_lem inner b2 (nums c1) i2 (t.highest c1 k1.stays) (omega arith) in
        let (c, run, n) =
          intersect_lem fuel inner c1 c2 k1.stays k2.stays hi
            (ground (arith, k1.moves, k2.moves, k1.rising, k2.rising, t.numbered b1 b2 i1 i2)) in
        (
          c,
          rw (apart, run1, run2) run,
          record {
            stays = n.stays;
            above_first = Above-trans doms b1 c1 c k1.above n.above_first;
            above_second = Above-trans doms b2 c2 c k2.above n.above_second;
            nearest = λ x p q.
                let from1 = k1.first x p (Above-rises doms nums root inside t b2 x i2 q) in
                n.nearest x from1
                  (k2.first x q (Above-rises doms nums root inside t c1 x k1.stays from1));
          },
        )
  ]
