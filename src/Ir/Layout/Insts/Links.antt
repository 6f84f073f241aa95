-- ===== src/Ir/Layout/Insts/Links.antt =====
-- layout.rs: what linking a neighbouring instruction changes, and when a layout keeps its order.
use sonatina.Base.{
  ℕ, ◌≡◌, refl, sym, ap, ◌∙◌, Bool, true, false, ◌&&◌, Option, none, some, List, arith, ◌==◌,
  if◌then◌else◌, Bool-cases, inl, inr, ==_iff,
}
use sonatina.Ir.Layout.{Layout, BlockNode, InstNode, default_inst, is_none}
use sonatina.Ir.Layout.Insts.{link_next_inst, link_prev_inst}
use sonatina.Ir.Layout.Chain.{mem, holds}
use sonatina.Ir.Layout.Linked.{IsLinked, IsLinked-frame}
use sonatina.Ir.Layout.Order.{IsOrder, owned_once}

-- One link of one instruction is written, or one end of a block.
abbrev pub with_next : Bool → Option ℕ → InstNode → InstNode
with_next c v n = if c then record n { next = v } else n

abbrev pub with_prev : Bool → Option ℕ → InstNode → InstNode
with_prev c v n = if c then record n { prev = v } else n

abbrev pub with_first : Bool → Option ℕ → BlockNode → BlockNode
with_first c v n = if c then record n { first_inst = v } else n

abbrev pub with_last : Bool → Option ℕ → BlockNode → BlockNode
with_last c v n = if c then record n { last_inst = v } else n

pub link_next_inst-insts :
    (b : ℕ) (o v : Option ℕ) (l : Layout) (k : ℕ)
    → (link_next_inst b o v l).insts k ≡ with_next (holds o k) v (l.insts k)
link_next_inst-insts b none v l k = refl
link_next_inst-insts b (some i) v l k = ground arith

pub link_prev_inst-insts :
    (b : ℕ) (o v : Option ℕ) (l : Layout) (k : ℕ)
    → (link_prev_inst b o v l).insts k ≡ with_prev (holds o k) v (l.insts k)
link_prev_inst-insts b none v l k = refl
link_prev_inst-insts b (some i) v l k = ground arith

pub link_next_inst-rest :
    (b : ℕ) (o v : Option ℕ) (l : Layout)
    → ((c : ℕ)
        → (link_next_inst b o v l).blocks c ≡ with_first (is_none o && c == b) v (l.blocks c))
      × ((link_next_inst b o v l).entry_block ≡ l.entry_block)
      × ((link_next_inst b o v l).last_block ≡ l.last_block)
link_next_inst-rest b none v l = (λ c. ground arith, refl, refl)
link_next_inst-rest b (some i) v l = (λ c. refl, refl, refl)

pub link_prev_inst-rest :
    (b : ℕ) (o v : Option ℕ) (l : Layout)
    → ((c : ℕ) → (link_prev_inst b o v l).blocks c ≡ with_last (is_none o && c == b) v (l.blocks c))
      × ((link_prev_inst b o v l).entry_block ≡ l.entry_block)
      × ((link_prev_inst b o v l).last_block ≡ l.last_block)
link_prev_inst-rest b none v l = (λ c. ground arith, refl, refl)
link_prev_inst-rest b (some i) v l = (λ c. refl, refl, refl)

-- The instructions of one block are exchanged.
abbrev pub with_insts : (ℕ → List ℕ) → ℕ → List ℕ → ℕ → List ℕ
with_insts is b xs c = if c == b then xs else is c

module _ (l l' : Layout) (bs : List ℕ) (is : ℕ → List ℕ) (b : ℕ) (old new : List ℕ)
    (o : IsOrder l bs is) (at_b : is b ≡ old) (inserted : mem b bs ≡ true) where
  -- Only the ends of the block `b` change, and only the links of its instructions, old and new.
  pub IsOrder-exchange :
      ((c : ℕ) → (c == b) ≡ false → l'.blocks c ≡ l.blocks c)
      → ((l'.blocks b).prev ≡ (l.blocks b).prev) × ((l'.blocks b).next ≡ (l.blocks b).next)
      → (l'.entry_block ≡ l.entry_block) × (l'.last_block ≡ l.last_block)
      → ((k : ℕ) → mem k old ≡ false → mem k new ≡ false → l'.insts k ≡ l.insts k)
      → ((k : ℕ) → mem k new ≡ true → (l'.insts k).block ≡ some b)
      → ((k : ℕ) → mem k old ≡ true → mem k new ≡ false → l'.insts k ≡ default_inst)
      → ((k c : ℕ) → (c == b) ≡ false → mem k (is c) ≡ true → mem k new ≡ false)
      → IsLinked
          (λ i. (l'.insts i).prev)
          (λ i. (l'.insts i).next)
          (l'.blocks b).first_inst
          (l'.blocks b).last_inst
          new
      → IsOrder l' bs (with_insts is b new)
  IsOrder-exchange blocks ends tops insts owner gone apart linked = record {
    blocks_linked =
        rw (tops.0, tops.1)
          (IsLinked-frame _ _ _ _ _ _ bs o.blocks_linked (λ k m. elim (Bool-cases (k == b)) [
            | inl here ↦ rw ((==_iff k b).0 here) ends
            | inr other ↦ rw (blocks k other) (refl, refl)
          ]));
    insts_linked = λ c. elim (Bool-cases (c == b)) [
      | inl here ↦ rw ((==_iff c b).0 here, (==_iff b b).1 refl) linked
      | inr other ↦
          rw (other, blocks c other)
            (IsLinked-frame _ _ _ _ _ _ (is c) (o.insts_linked c) (λ k m.
              let e = insts k (foreign k c other m) (apart k c other m) in rw e (refl, refl)))
    ];
    owned = λ k c m. elim (Bool-cases (c == b)) [
      | inl here ↦ owner k (rw here at m) ∙ ap some (sym ((==_iff c b).0 here))
      | inr other ↦
          let m' = rw other at m in
          ap (λ (n : InstNode). n.block) (insts k (foreign k c other m') (apart k c other m'))
          ∙ o.owned k c m'
    ];
    outside_block = λ c out. blocks c (different c out) ∙ o.outside_block c out;
    outside_inst = λ k out.
        let fresh : mem k new ≡ false = rw ((==_iff b b).1 refl) at (out b) in
        elim (Bool-cases (mem k old)) [
          | inl was ↦ gone k was fresh
          | inr never ↦
              insts k never fresh
              ∙ o.outside_inst k (λ c. elim (Bool-cases (c == b)) [
                | inl here ↦ rw ((==_iff c b).0 here, at_b) never
                | inr other ↦ rw other at (out c)
              ])
        ];
  }
    where
      foreign : (k c : ℕ) → (c == b) ≡ false → mem k (is c) ≡ true → mem k old ≡ false
      foreign k c other m = rw (← at_b) (owned_once l bs is o k c b other m)

      different : (c : ℕ) → mem c bs ≡ false → (c == b) ≡ false
      different c out = elim (Bool-cases (c == b)) [
        | inl here ↦ let m : mem c bs ≡ true = rw ((==_iff c b).0 here) inserted in absurd (cc)
        | inr other ↦ other
      ]
