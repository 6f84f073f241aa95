-- ===== src/Ir/Layout/Blocks/Links.antt =====
-- layout.rs: what linking a neighbour changes, and when a layout keeps its order.
use sonatina.Base.{
  ℕ, ◌≡◌, refl, sym, ap, ◌∙◌, Bool, false, Option, none, some, List, [], ◌∷◌, ◌++◌, arith, ◌==◌,
  if◌then◌else◌, append-nil, Bool-cases, inl, inr,
}
use sonatina.Ir.Layout.{Layout, BlockNode, default_block, is_none}
use sonatina.Ir.Layout.Blocks.{link_next, link_prev}
use sonatina.Ir.Layout.Chain.{last_or-append, mem, mem-append, head_or, last_or, holds}
use sonatina.Ir.Layout.Linked.{
  IsLinked, IsLinked-insert, IsLinked-remove, not-mem-holds_head, not-mem-holds_last,
}
use sonatina.Ir.Layout.Order.{IsOrder, last_or-is_some}

-- One link of one node is written.
abbrev pub with_next : Bool → Option ℕ → BlockNode → BlockNode
with_next c v n = if c then record n { next = v } else n

abbrev pub with_prev : Bool → Option ℕ → BlockNode → BlockNode
with_prev c v n = if c then record n { prev = v } else n

pub link_next-blocks :
    (o v : Option ℕ) (l : Layout) (k : ℕ)
    → (link_next o v l).blocks k ≡ with_next (holds o k) v (l.blocks k)
link_next-blocks none v l k = refl
link_next-blocks (some b) v l k = ground arith

pub link_prev-blocks :
    (o v : Option ℕ) (l : Layout) (k : ℕ)
    → (link_prev o v l).blocks k ≡ with_prev (holds o k) v (l.blocks k)
link_prev-blocks none v l k = refl
link_prev-blocks (some b) v l k = ground arith

pub link_next-rest :
    (o v : Option ℕ) (l : Layout)
    → ((link_next o v l).insts ≡ l.insts)
      × ((link_next o v l).entry_block ≡ (if is_none o then v else l.entry_block))
      × ((link_next o v l).last_block ≡ l.last_block)
link_next-rest none v l = (refl, refl, refl)
link_next-rest (some b) v l = (refl, refl, refl)

pub link_prev-rest :
    (o v : Option ℕ) (l : Layout)
    → ((link_prev o v l).insts ≡ l.insts)
      × ((link_prev o v l).entry_block ≡ l.entry_block)
      × ((link_prev o v l).last_block ≡ (if is_none o then v else l.last_block))
link_prev-rest none v l = (refl, refl, refl)
link_prev-rest (some b) v l = (refl, refl, refl)

pub head_or-append_cons :
    (pre post : List ℕ) (b : ℕ)
    → head_or none (pre ++ b ∷ post)
      ≡ (if is_none (last_or none pre) then some b else head_or none (pre ++ post))
head_or-append_cons [] post b = refl
head_or-append_cons (x ∷ pre) post b = rw (last_or-is_some x pre)

pub last_or-append_cons :
    (pre post : List ℕ) (b : ℕ)
    → last_or none (pre ++ b ∷ post)
      ≡ (if is_none (head_or none post) then some b else last_or none (pre ++ post))
last_or-append_cons pre [] b = last_or-append none pre (b ∷ [])
last_or-append_cons pre (y ∷ post) b =
    last_or-append none pre (b ∷ y ∷ post) ∙ sym (last_or-append none pre (y ∷ post))

pub head_or-append_remove :
    (pre post : List ℕ) (b : ℕ)
    → head_or none (pre ++ post)
      ≡ (if is_none (last_or none pre) then head_or none post else head_or none (pre ++ b ∷ post))
head_or-append_remove [] post b = refl
head_or-append_remove (x ∷ pre) post b = rw (last_or-is_some x pre)

pub last_or-append_remove :
    (pre post : List ℕ) (b : ℕ)
    → last_or none (pre ++ post)
      ≡ (if is_none (head_or none post) then last_or none pre else last_or none (pre ++ b ∷ post))
last_or-append_remove pre [] b = ap (last_or none) (append-nil pre)
last_or-append_remove pre (y ∷ post) b =
    last_or-append none pre (y ∷ post) ∙ sym (last_or-append none pre (b ∷ y ∷ post))

-- A change of the links alone, between the parts of the order.
pub record Relinks (l l' : Layout) : Type 0 where
  pub first_inst_same : (k : ℕ) → (l'.blocks k).first_inst ≡ (l.blocks k).first_inst
  pub last_inst_same : (k : ℕ) → (l'.blocks k).last_inst ≡ (l.blocks k).last_inst
  pub insts_same : l'.insts ≡ l.insts

module _ (l l' : Layout) (bs bs' : List ℕ) (is : ℕ → List ℕ) (o : IsOrder l bs is)
    (r : Relinks l l') where
  pub Relinks-IsOrder :
      IsLinked (λ b. (l'.blocks b).prev) (λ b. (l'.blocks b).next) l'.entry_block l'.last_block bs'
      → ((b : ℕ) → mem b bs' ≡ false → l'.blocks b ≡ default_block)
      → IsOrder l' bs' is
  Relinks-IsOrder linked outside = record {
    blocks_linked = linked;
    insts_linked =
        λ b. rw (r.first_inst_same b, r.last_inst_same b, r.insts_same) (o.insts_linked b);
    owned = rw r.insts_same o.owned;
    outside_block = outside;
    outside_inst = rw r.insts_same o.outside_inst;
  }

module _ (l l' : Layout) (pre post : List ℕ) (b : ℕ) (is : ℕ → List ℕ)
    (same : l'.insts ≡ l.insts) where
  -- A new block whose neighbours are linked to it stands between them.
  pub IsOrder-insert :
      IsOrder l (pre ++ post) is
      → mem b (pre ++ post) ≡ false
      → ((k : ℕ)
          → l'.blocks k ≡ (
              if k == b
              then record default_block { prev = last_or none pre; next = head_or none post }
              else with_prev
                  (holds (head_or none post) k)
                  (some b)
                  (with_next (holds (last_or none pre) k) (some b) (l.blocks k))))
      → l'.entry_block ≡ (if is_none (last_or none pre) then some b else l.entry_block)
      → l'.last_block ≡ (if is_none (head_or none post) then some b else l.last_block)
      → IsOrder l' (pre ++ b ∷ post) is
  IsOrder-insert o new nodes entry last =
      let unused = o.outside_block b new in
      let first : l'.entry_block ≡ head_or none (pre ++ b ∷ post) =
        entry ∙ rw o.blocks_linked.first_eq (sym (head_or-append_cons pre post b)) in
      let final : l'.last_block ≡ last_or none (pre ++ b ∷ post) =
        last ∙ rw o.blocks_linked.last_eq (sym (last_or-append_cons pre post b)) in
      Relinks-IsOrder l l' (pre ++ post) (pre ++ b ∷ post) is o
        (record {
          first_inst_same = λ k. ground (arith, nodes k);
          last_inst_same = λ k. ground (arith, nodes k);
          insts_same = same;
        })
        (rw (first, final)
          (IsLinked-insert _ _ (λ c. (l'.blocks c).prev) (λ c. (l'.blocks c).next) l.entry_block
            l.last_block pre post b o.blocks_linked new
            (λ k. (ground (arith, nodes k), ground (arith, nodes k)))))
        (λ k out.
          let left = not-mem-holds_last pre k (ground (arith, mem-append k pre (b ∷ post))) in
          let right = not-mem-holds_head post k (ground (arith, mem-append k pre (b ∷ post))) in
          let old =
            o.outside_block k
              (ground (arith, mem-append k pre post, mem-append k pre (b ∷ post))) in
          ground (arith, nodes k, mem-append k pre (b ∷ post)))

  -- A block whose neighbours are linked to each other is gone.
  pub IsOrder-remove :
      IsOrder l (pre ++ b ∷ post) is
      → is b ≡ []
      → ((k : ℕ)
          → l'.blocks k ≡ (
              if k == b
              then default_block
              else with_prev
                  (holds (head_or none post) k)
                  (last_or none pre)
                  (with_next (holds (last_or none pre) k) (head_or none post) (l.blocks k))))
      → l'.entry_block ≡ (if is_none (last_or none pre) then head_or none post else l.entry_block)
      → l'.last_block ≡ (if is_none (head_or none post) then last_or none pre else l.last_block)
      → IsOrder l' (pre ++ post) is
  IsOrder-remove o empty nodes entry last =
      let no_first : (l.blocks b).first_inst ≡ none =
        (o.insts_linked b).first_eq ∙ ap (head_or none) empty in
      let no_last : (l.blocks b).last_inst ≡ none =
        (o.insts_linked b).last_eq ∙ ap (last_or none) empty in
      let first : l'.entry_block ≡ head_or none (pre ++ post) =
        entry ∙ rw o.blocks_linked.first_eq (sym (head_or-append_remove pre post b)) in
      let final : l'.last_block ≡ last_or none (pre ++ post) =
        last ∙ rw o.blocks_linked.last_eq (sym (last_or-append_remove pre post b)) in
      Relinks-IsOrder l l' (pre ++ b ∷ post) (pre ++ post) is o
        (record {
          first_inst_same = λ k. ground (arith, nodes k);
          last_inst_same = λ k. ground (arith, nodes k);
          insts_same = same;
        })
        (rw (first, final)
          (IsLinked-remove _ _ (λ c. (l'.blocks c).prev) (λ c. (l'.blocks c).next) l.entry_block
            l.last_block pre post b o.blocks_linked
            (λ k. (ground (arith, nodes k), ground (arith, nodes k)))))
        (λ k out. elim (Bool-cases (k == b)) [
          | inl here ↦ nodes k ∙ rw here
          | inr other ↦
              let left = not-mem-holds_last pre k (ground (arith, mem-append k pre post)) in
              let right = not-mem-holds_head post k (ground (arith, mem-append k pre post)) in
              let old =
                o.outside_block k
                  (ground (arith, mem-append k pre post, mem-append k pre (b ∷ post))) in
              nodes k ∙ rw (other, left, right, old)
        ])
