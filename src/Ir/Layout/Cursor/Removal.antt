-- ===== src/Ir/Layout/Cursor/Removal.antt =====
-- crates/ir/src/func_cursor.rs: `remove_block` removes the instructions of a block and the block.
use mathlib.Core.Option.{some-injective}
use sonatina.Base.{
  ℕ, zero, suc, ◌<◌, ◌≡◌, refl, ap, fun_ext, true, Option, none, some, List, [], ◌∷◌, ◌++◌, arith,
  length, ◌>>=◌, ◌+◌, >>=-eq-some, ==_iff,
}
use sonatina.Ir.Layout.{Layout}
use sonatina.Ir.Layout.Blocks.Refines.{remove_block_lem, mem-middle}
use sonatina.Ir.Layout.Chain.{mem, head_or}
use sonatina.Ir.Layout.Cursor.{
  CursorLocation, remove_inst, remove_insts, remove_all, remove_block, next_loc, expect_inst,
  expect_block, map_or,
}
use sonatina.Ir.Layout.Cursor.Moves.{block_ends, block_neighbours, inst_neighbours}
use sonatina.Ir.Layout.Insts.Links.{with_insts}
use sonatina.Ir.Layout.Insts.Refines.{remove_inst_lem}
use sonatina.Ir.Layout.Order.{IsOrder}

-- Where the cursor goes from an instruction before `post`, and from a block before `post`.
abbrev pub inst_after : ℕ → List ℕ → CursorLocation
inst_after b [] = CursorLocation.block_bottom b
inst_after b (j ∷ post) = CursorLocation.at j

abbrev pub block_after : List ℕ → CursorLocation
block_after [] = CursorLocation.no_where
block_after (c ∷ post) = CursorLocation.block_top c

next_loc-at :
    (l : Layout) (bs : List ℕ) (is : ℕ → List ℕ) (o : IsOrder l bs is) (b i : ℕ) (xs : List ℕ)
    → is b ≡ i ∷ xs
    → next_loc (CursorLocation.at i) l ≡ some (inst_after b xs)
unfolding next_loc
next_loc-at l bs is o b i [] e =
    let (_, n, own) = inst_neighbours l bs is o b [] [] i e in rw (n, own)
next_loc-at l bs is o b i (j ∷ xs) e =
    let (_, n, own) = inst_neighbours l bs is o b [] (j ∷ xs) i e in rw n

with_insts_twice :
    (is : ℕ → List ℕ) (b : ℕ) (xs ys : List ℕ)
    → with_insts (with_insts is b xs) b ys ≡ with_insts is b ys
with_insts_twice is b xs ys = fun_ext (λ c. ground arith)

emptied : (is : ℕ → List ℕ) (b : ℕ) → is b ≡ [] → with_insts is b [] ≡ is
emptied is b e = fun_ext (λ c. ground arith)

next_place :
    (post : List ℕ)
    → map_or (some CursorLocation.no_where) CursorLocation.block_top (head_or none post)
      ≡ some (block_after post)
next_place [] = refl
next_place (c ∷ post) = refl

module _ {D : Type 0} (untrack_inst : ℕ → D → Option D) where
  -- The instructions of a list leave the data flow graph one by one.
  abbrev pub untrack_all : List ℕ → D → Option D
  untrack_all [] d = some d
  untrack_all (i ∷ is) d = untrack_inst i d >>= λ d'. untrack_all is d'

  remove_insts_lem :
      (xs bs : List ℕ) (b i : ℕ) (fuel : ℕ) (l : Layout) (is : ℕ → List ℕ) (d d' : D)
      → IsOrder l bs is
      → mem b bs ≡ true
      → is b ≡ i ∷ xs
      → length xs + 1 < fuel
      → untrack_all (i ∷ xs) d ≡ some d'
      → (l' : Layout) × (remove_insts untrack_inst fuel (CursorLocation.at i) l d ≡ some (l', d'))
        × IsOrder l' bs (with_insts is b [])
  unfolding remove_insts remove_inst expect_inst
  remove_insts_lem xs bs b i zero l is d d' o m e h u = absurd (omega arith)
  remove_insts_lem [] bs b i (suc zero) l is d d' o m e h u = absurd (omega arith)
  remove_insts_lem [] bs b i (suc (suc fuel)) l is d d' o m e h u =
      let (d1, u1, u2) = >>=-eq-some (untrack_inst i d) (λ x. untrack_all [] x) u in
      let (l', r, o') = remove_inst_lem l bs is o b m i [] [] e in
      (l', rw (next_loc-at l bs is o b i [] e, u1, r) (cc u2), o')
  remove_insts_lem (j ∷ xs) bs b i (suc fuel) l is d d' o m e h u =
      let (d1, u1, u2) = >>=-eq-some (untrack_inst i d) (λ x. untrack_all (j ∷ xs) x) u in
      let (l1, r, o') = remove_inst_lem l bs is o b m i [] (j ∷ xs) e in
      let (l', r', o'') =
        remove_insts_lem xs bs b j fuel l1 (with_insts is b (j ∷ xs)) d1 d' o' m
          (rw ((==_iff b b).1 refl)) (omega arith) u2 in
      (
        l',
        rw (next_loc-at l bs is o b i (j ∷ xs) e, u1, r) r',
        rw (← with_insts_twice is b (j ∷ xs) []) o'',
      )

  empty_removed :
      (xs bs : List ℕ) (b : ℕ) (fuel : ℕ) (l : Layout) (is : ℕ → List ℕ) (d d' : D)
      → IsOrder l bs is
      → mem b bs ≡ true
      → is b ≡ xs
      → length xs < fuel
      → untrack_all xs d ≡ some d'
      → (l' : Layout) × (remove_all untrack_inst fuel (head_or none xs) l d ≡ some (l', d'))
        × IsOrder l' bs (with_insts is b [])
  unfolding remove_all
  empty_removed [] bs b fuel l is d d' o m e h u =
      (l, ap (λ x. some (l, x)) (some-injective _ _ u), rw (emptied is b e) o)
  empty_removed (i ∷ xs) bs b fuel l is d d' o m e h u =
      remove_insts_lem xs bs b i fuel l is d d' o m e (omega arith) u

  -- In a layout with an order, at a location in a block of the order, `remove_block` untracks the
  -- instructions of the block one by one, leaves the other blocks and their instructions in their
  -- order, and moves the cursor to the next block; fuel one more than the instructions is enough.
  pub cursor_remove_block :
      (pre post : List ℕ) (b : ℕ) (fuel : ℕ) (loc : CursorLocation) (l : Layout) (is : ℕ → List ℕ)
      (d d' : D)
      → IsOrder l (pre ++ b ∷ post) is
      → expect_block loc l ≡ some b
      → length (is b) < fuel
      → untrack_all (is b) d ≡ some d'
      → (l' : Layout) × (remove_block untrack_inst fuel loc l d ≡ some (block_after post, l', d'))
        × IsOrder l' (pre ++ post) (with_insts is b [])
  unfolding remove_block
  cursor_remove_block pre post b fuel loc l is d d' o here h u =
      let bs = pre ++ b ∷ post in
      let m : mem b bs ≡ true = mem-middle pre post b in
      let (first, _) = block_ends l bs is o b m in
      let (_, next) = block_neighbours l bs is o pre post b refl in
      let (l1, r, o1) = empty_removed (is b) bs b fuel l is d d' o m refl h u in
      let (l', r', o') =
        remove_block_lem l1 (with_insts is b []) pre post b o1 (rw ((==_iff b b).1 refl)) in
      (l', rw (here, next, first, r, r', next_place post), o')
