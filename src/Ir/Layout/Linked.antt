-- ===== src/Ir/Layout/Linked.antt =====
-- layout.rs: a whole doubly linked list, and what a new item or one that goes does to it.
use sonatina.Base.{
  ℕ, ◌≡◌, refl, true, false, Option, none, some, List, [], ◌∷◌, ◌++◌, arith, ◌==◌, if◌then◌else◌,
}
use sonatina.Ir.Layout.Chain.{
  mem, head_or, last_or, holds, Distinct, Seg, mem-append, Distinct-append_left,
  Distinct-append_right, Distinct-apart, Distinct-insert, Distinct-remove, mem-last_or, Seg-frame,
  Seg-end, Seg-start, Seg-split, Seg-join,
}

-- The links of the items, and the ends: they are those of the list.
pub record IsLinked (prev next : ℕ → Option ℕ) (first last : Option ℕ) (xs : List ℕ) : Type 0 where
  pub first_eq : first ≡ head_or none xs
  pub last_eq : last ≡ last_or none xs
  pub chain : Seg prev next none xs none
  pub distinct : Distinct xs

pub not-mem-holds_last :
    (xs : List ℕ) (k : ℕ) → mem k xs ≡ false → holds (last_or none xs) k ≡ false
not-mem-holds_last [] k m = refl
not-mem-holds_last (x ∷ xs) k m = mem-last_or x xs k m

pub not-mem-holds_head :
    (xs : List ℕ) (k : ℕ) → mem k xs ≡ false → holds (head_or none xs) k ≡ false
not-mem-holds_head [] k m = refl
not-mem-holds_head (x ∷ xs) k m = ground arith

apart_sym : (xs ys : List ℕ) (k : ℕ) → Distinct (xs ++ ys) → mem k ys ≡ true → mem k xs ≡ false
apart_sym xs ys k d m = ground (arith, Distinct-apart xs ys k d)

module _ (prev next prev' next' : ℕ → Option ℕ) (first last : Option ℕ) where
  -- A new item between two parts of the list.
  pub IsLinked-insert :
      (pre post : List ℕ) (b : ℕ)
      → IsLinked prev next first last (pre ++ post)
      → mem b (pre ++ post) ≡ false
      → ((k : ℕ)
          → (prev' k ≡ (
              if k == b
              then last_or none pre
              else if holds (head_or none post) k
              then some b
              else prev k))
            × (next' k ≡ (
                if k == b
                then head_or none post
                else if holds (last_or none pre) k
                then some b
                else next k)))
      → IsLinked prev' next'
          (head_or none (pre ++ b ∷ post))
          (last_or none (pre ++ b ∷ post))
          (pre ++ b ∷ post)
  IsLinked-insert pre post b l new links =
      let (s, t) = Seg-split prev next none pre post none l.chain in
      let at = links b in
      let d = l.distinct in
      record {
        first_eq = refl;
        last_eq = refl;
        chain =
            Seg-join prev' next' none pre (b ∷ post) none
              (Seg-end prev next prev' next' none pre (head_or none post) (some b)
                (Distinct-append_left pre post d)
                (λ k m.
                  let e = links k in
                  let o = Distinct-apart pre post k d m in
                  let h = not-mem-holds_head post k o in
                  (ground (arith, mem-append b pre post), ground (arith, mem-append b pre post)))
                s)
              (
                ground arith,
                ground arith,
                Seg-start prev next prev' next' (last_or none pre) (some b) post none
                    (Distinct-append_right pre post d)
                    (λ k m.
                      let e = links k in
                      let o = apart_sym pre post k d m in
                      let h = not-mem-holds_last pre k o in
                      (
                        ground (arith, mem-append b pre post),
                        ground (arith, mem-append b pre post),
                      ))
                    t,
              );
        distinct = Distinct-insert pre post b d new;
      }

  -- An item leaves the list, and its own links are cleared.
  pub IsLinked-remove :
      (pre post : List ℕ) (b : ℕ)
      → IsLinked prev next first last (pre ++ b ∷ post)
      → ((k : ℕ)
          → (prev' k ≡ (
              if k == b
              then none
              else if holds (head_or none post) k
              then last_or none pre
              else prev k))
            × (next' k ≡ (
                if k == b
                then none
                else if holds (last_or none pre) k
                then head_or none post
                else next k)))
      → IsLinked prev' next' (head_or none (pre ++ post)) (last_or none (pre ++ post)) (pre ++ post)
  IsLinked-remove pre post b l links =
      let (s, t) = Seg-split prev next none pre (b ∷ post) none l.chain in
      let (d, out) = Distinct-remove pre post b l.distinct in
      record {
        first_eq = refl;
        last_eq = refl;
        chain =
            Seg-join prev' next' none pre post none
              (Seg-end prev next prev' next' none pre (some b) (head_or none post)
                (Distinct-append_left pre post d)
                (λ k m.
                  let e = links k in
                  let o = Distinct-apart pre post k d m in
                  let h = not-mem-holds_head post k o in
                  (ground (arith, mem-append b pre post), ground (arith, mem-append b pre post)))
                s)
              (Seg-start prev next prev' next' (some b) (last_or none pre) post none
                (Distinct-append_right pre post d)
                (λ k m.
                  let e = links k in
                  let o = apart_sym pre post k d m in
                  let h = not-mem-holds_last pre k o in
                  (ground (arith, mem-append b pre post), ground (arith, mem-append b pre post)))
                t.2);
        distinct = d;
      }

  -- A list none of whose items is touched.
  pub IsLinked-frame :
      (xs : List ℕ)
      → IsLinked prev next first last xs
      → ((k : ℕ) → mem k xs ≡ true → (prev' k ≡ prev k) × (next' k ≡ next k))
      → IsLinked prev' next' first last xs
  IsLinked-frame xs l same = record {
    first_eq = l.first_eq;
    last_eq = l.last_eq;
    chain = Seg-frame prev next prev' next' none xs none same l.chain;
    distinct = l.distinct;
  }

-- What the links of an item in the middle are.
pub links_at :
    (prev next : ℕ → Option ℕ) (first last : Option ℕ) (pre post : List ℕ) (b : ℕ)
    → IsLinked prev next first last (pre ++ b ∷ post)
    → (prev b ≡ last_or none pre) × (next b ≡ head_or none post)
links_at prev next first last pre post b l =
    let (s, t) = Seg-split prev next none pre (b ∷ post) none l.chain in (t.0, t.1)
