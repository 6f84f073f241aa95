-- ===== src/Ir/Layout/Insts/Places.antt =====
-- layout.rs: an instruction that is put between two others of its block, or that leaves them.
use sonatina.Base.{
  ℕ, ◌≡◌, refl, sym, ap, ◌∙◌, true, false, Option, none, some, List, ◌∷◌, ◌++◌, arith, ◌==◌,
  if◌then◌else◌, Bool-cases, inl, inr, ==_iff,
}
use sonatina.Ir.Layout.{Layout, BlockNode, default_inst, is_none}
use sonatina.Ir.Layout.Blocks.Links.{
  head_or-append_cons, last_or-append_cons, head_or-append_remove, last_or-append_remove,
}
use sonatina.Ir.Layout.Chain.{mem, mem-append, head_or, last_or, holds, Distinct-remove}
use sonatina.Ir.Layout.Insts.Links.{with_next, with_prev, with_insts, IsOrder-exchange}
use sonatina.Ir.Layout.Linked.{
  IsLinked-insert, IsLinked-remove, not-mem-holds_head, not-mem-holds_last,
}
use sonatina.Ir.Layout.Order.{IsOrder, owned_once}

-- The block's ends are moved where the place has no neighbour, and nothing else of the blocks.
abbrev pub Ends : Layout → Layout → ℕ → List ℕ → List ℕ → Option ℕ → Option ℕ → Type 0
Ends l l' b pre post first last =
    (l'.entry_block ≡ l.entry_block)
    × (l'.last_block ≡ l.last_block)
    × ((c : ℕ)
        → l'.blocks c ≡ (
            if c == b
            then record (l.blocks c) {
              first_inst = if is_none (last_or none pre) then first else (l.blocks c).first_inst;
              last_inst = if is_none (head_or none post) then last else (l.blocks c).last_inst;
            }
            else l.blocks c))

module _ (l l' : Layout) (bs : List ℕ) (is : ℕ → List ℕ) (b : ℕ) (pre post : List ℕ) (i : ℕ)
    (o : IsOrder l bs is) (inserted : mem b bs ≡ true) where
  pub IsOrder-insert_inst :
      is b ≡ pre ++ post
      → ((c : ℕ) → mem i (is c) ≡ false)
      → Ends l l' b pre post (some i) (some i)
      → ((k : ℕ)
          → l'.insts k ≡ (
              if k == i
              then record { block = some b; prev = last_or none pre; next = head_or none post }
              else with_prev
                  (holds (head_or none post) k)
                  (some i)
                  (with_next (holds (last_or none pre) k) (some i) (l.insts k))))
      → IsOrder l' bs (with_insts is b (pre ++ i ∷ post))
  IsOrder-insert_inst at_b new (entry, last, blocks) nodes =
      let new_b : mem i (pre ++ post) ≡ false = rw at_b at (new b) in
      let linked = rw at_b at (o.insts_linked b) in
      let same : (b == b) ≡ true = (==_iff b b).1 refl in
      let first : (l'.blocks b).first_inst ≡ head_or none (pre ++ i ∷ post) =
        ap (λ (n : BlockNode). n.first_inst) (blocks b)
        ∙ rw (same, linked.first_eq) (sym (head_or-append_cons pre post i)) in
      let final : (l'.blocks b).last_inst ≡ last_or none (pre ++ i ∷ post) =
        ap (λ (n : BlockNode). n.last_inst) (blocks b)
        ∙ rw (same, linked.last_eq) (sym (last_or-append_cons pre post i)) in
      IsOrder-exchange l l' bs is b (pre ++ post) (pre ++ i ∷ post) o at_b inserted
        (λ c other. blocks c ∙ rw other) (ground (arith, blocks b), ground (arith, blocks b))
        (entry, last)
        (λ k out fresh.
          let left = not-mem-holds_last pre k (ground (arith, mem-append k pre post)) in
          let right = not-mem-holds_head post k (ground (arith, mem-append k pre post)) in
          ground (arith, nodes k, mem-append k pre (i ∷ post)))
        (λ k m. elim (Bool-cases (k == i)) [
          | inl here ↦ ground (arith, nodes k)
          | inr other ↦
              let was : mem k (is b) ≡ true =
                ap (λ (xs : List ℕ). mem k xs) at_b
                ∙ ground (arith, mem-append k pre post, mem-append k pre (i ∷ post)) in
              ground (arith, nodes k, o.owned k b was)
        ])
        (λ k was out. absurd (ground (arith, mem-append k pre post, mem-append k pre (i ∷ post))))
        (λ k c other m.
          let out : mem k (pre ++ post) ≡ false =
            rw (← at_b) (owned_once l bs is o k c b other m) in
          elim (Bool-cases (k == i)) [
            | inl here ↦
                let m' : mem i (is c) ≡ true = rw ((==_iff k i).0 here) at m in
                let no = new c in absurd (cc)
            | inr distinct ↦ ground (arith, mem-append k pre post, mem-append k pre (i ∷ post))
          ])
        (rw (first, final)
          (IsLinked-insert _ _ (λ j. (l'.insts j).prev) (λ j. (l'.insts j).next)
            (l.blocks b).first_inst (l.blocks b).last_inst pre post i linked new_b
            (λ k. (ground (arith, nodes k), ground (arith, nodes k)))))

  pub IsOrder-remove_inst :
      is b ≡ pre ++ i ∷ post
      → Ends l l' b pre post (head_or none post) (last_or none pre)
      → ((k : ℕ)
          → l'.insts k ≡ (
              if k == i
              then default_inst
              else with_prev
                  (holds (head_or none post) k)
                  (last_or none pre)
                  (with_next (holds (last_or none pre) k) (head_or none post) (l.insts k))))
      → IsOrder l' bs (with_insts is b (pre ++ post))
  IsOrder-remove_inst at_b (entry, last, blocks) nodes =
      let linked = rw at_b at (o.insts_linked b) in
      let same : (b == b) ≡ true = (==_iff b b).1 refl in
      let first : (l'.blocks b).first_inst ≡ head_or none (pre ++ post) =
        ap (λ (n : BlockNode). n.first_inst) (blocks b)
        ∙ rw (same, linked.first_eq) (sym (head_or-append_remove pre post i)) in
      let final : (l'.blocks b).last_inst ≡ last_or none (pre ++ post) =
        ap (λ (n : BlockNode). n.last_inst) (blocks b)
        ∙ rw (same, linked.last_eq) (sym (last_or-append_remove pre post i)) in
      IsOrder-exchange l l' bs is b (pre ++ i ∷ post) (pre ++ post) o at_b inserted
        (λ c other. blocks c ∙ rw other) (ground (arith, blocks b), ground (arith, blocks b))
        (entry, last)
        (λ k was fresh.
          let left = not-mem-holds_last pre k (ground (arith, mem-append k pre post)) in
          let right = not-mem-holds_head post k (ground (arith, mem-append k pre post)) in
          ground (arith, nodes k, mem-append k pre (i ∷ post)))
        (λ k m.
          let was : mem k (is b) ≡ true =
            ap (λ (xs : List ℕ). mem k xs) at_b
            ∙ ground (arith, mem-append k pre post, mem-append k pre (i ∷ post)) in
          let (d, gone) = Distinct-remove pre post i linked.distinct in
          elim (Bool-cases (k == i)) [
            | inl here ↦
                let m' : mem i (pre ++ post) ≡ true = rw ((==_iff k i).0 here) at m in absurd (cc)
            | inr other ↦ ground (arith, nodes k, o.owned k b was)
          ])
        (λ k was out.
          let here : (k == i) ≡ true =
            ground (arith, mem-append k pre post, mem-append k pre (i ∷ post)) in
          nodes k ∙ rw here)
        (λ k c other m.
          let out : mem k (pre ++ i ∷ post) ≡ false =
            rw (← at_b) (owned_once l bs is o k c b other m) in
          ground (arith, mem-append k pre post, mem-append k pre (i ∷ post)))
        (rw (first, final)
          (IsLinked-remove _ _ (λ j. (l'.insts j).prev) (λ j. (l'.insts j).next)
            (l.blocks b).first_inst (l.blocks b).last_inst pre post i linked
            (λ k. (ground (arith, nodes k), ground (arith, nodes k)))))
