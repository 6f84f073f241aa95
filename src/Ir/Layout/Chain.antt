-- ===== src/Ir/Layout/Chain.antt =====
-- layout.rs: doubly linked chains of entities, told by the maps of their links.
pub use sonatina.Base.{mem, mem-append}
use sonatina.Base.{
  ℕ, ◌≡◌, refl, sym, ◌∙◌, Bool, true, false, Option, none, some, List, [], ◌∷◌, ◌++◌, arith, ◌==◌,
  if◌then◌else◌,
}

-- The first and the last item, or else the given one.
abbrev pub head_or : Option ℕ → List ℕ → Option ℕ
head_or n [] = n
head_or n (x ∷ xs) = some x

abbrev pub last_or : Option ℕ → List ℕ → Option ℕ
last_or p [] = p
last_or p (x ∷ xs) = last_or (some x) xs

abbrev pub holds : Option ℕ → ℕ → Bool
holds none k = false
holds (some x) k = k == x

abbrev pub Distinct : List ℕ → Type 0
Distinct [] = Unit
Distinct (x ∷ xs) = (mem x xs ≡ false) × Distinct xs

-- The links lead through the items of the list, from what is before them to what comes after.
abbrev pub Seg : (ℕ → Option ℕ) → (ℕ → Option ℕ) → Option ℕ → List ℕ → Option ℕ → Type 0
Seg prev next p [] n = Unit
Seg prev next p (x ∷ xs) n = (prev x ≡ p) × (next x ≡ head_or n xs) × Seg prev next (some x) xs n

pub head_or-append :
    (n : Option ℕ) (xs ys : List ℕ) → head_or n (xs ++ ys) ≡ head_or (head_or n ys) xs
head_or-append n [] ys = refl
head_or-append n (x ∷ xs) ys = refl

pub last_or-append :
    (p : Option ℕ) (xs ys : List ℕ) → last_or p (xs ++ ys) ≡ last_or (last_or p xs) ys
last_or-append p [] ys = refl
last_or-append p (x ∷ xs) ys = last_or-append (some x) xs ys

pub Distinct-append_left : (xs ys : List ℕ) → Distinct (xs ++ ys) → Distinct xs
Distinct-append_left [] ys d = tt
Distinct-append_left (x ∷ xs) ys d =
    (ground (arith, mem-append x xs ys), Distinct-append_left xs ys d.1)

pub Distinct-append_right : (xs ys : List ℕ) → Distinct (xs ++ ys) → Distinct ys
Distinct-append_right [] ys d = d
Distinct-append_right (x ∷ xs) ys d = Distinct-append_right xs ys d.1

-- Items before a place do not come again after it.
pub Distinct-apart :
    (xs ys : List ℕ) (k : ℕ) → Distinct (xs ++ ys) → mem k xs ≡ true → mem k ys ≡ false
Distinct-apart (x ∷ xs) ys k d m = ground (arith, mem-append x xs ys, Distinct-apart xs ys k d.1)
Distinct-apart [] ys k d m = cc

pub Distinct-insert :
    (xs ys : List ℕ) (b : ℕ)
    → Distinct (xs ++ ys)
    → mem b (xs ++ ys) ≡ false
    → Distinct (xs ++ b ∷ ys)
Distinct-insert [] ys b d m = (m, d)
Distinct-insert (x ∷ xs) ys b d m = (
  ground (arith, mem-append x xs ys, mem-append x xs (b ∷ ys)),
  Distinct-insert xs ys b d.1 (ground arith),
)

pub Distinct-remove :
    (xs ys : List ℕ) (b : ℕ)
    → Distinct (xs ++ b ∷ ys)
    → Distinct (xs ++ ys) × (mem b (xs ++ ys) ≡ false)
Distinct-remove [] ys b d = (d.1, d.0)
Distinct-remove (x ∷ xs) ys b d =
    let (e, m) = Distinct-remove xs ys b d.1 in
    (
      (ground (arith, mem-append x xs ys, mem-append x xs (b ∷ ys)), e),
      ground (arith, mem-append x xs (b ∷ ys)),
    )

pub mem-last_or :
    (x : ℕ) (xs : List ℕ) (k : ℕ) → mem k (x ∷ xs) ≡ false → holds (last_or (some x) xs) k ≡ false
mem-last_or x [] k m = ground arith
mem-last_or x (y ∷ ys) k m = mem-last_or y ys k (ground arith)

module _ (prev next prev' next' : ℕ → Option ℕ) where
  pub Seg-frame :
      (p : Option ℕ) (xs : List ℕ) (n : Option ℕ)
      → ((k : ℕ) → mem k xs ≡ true → (prev' k ≡ prev k) × (next' k ≡ next k))
      → Seg prev next p xs n
      → Seg prev' next' p xs n
  Seg-frame p [] n same s = tt
  Seg-frame p (x ∷ xs) n same s =
      let e = same x (ground arith) in
      (e.0 ∙ s.0, e.1 ∙ s.1, Seg-frame (some x) xs n (λ k m. same k (ground arith)) s.2)

  -- What comes after the last item changes.
  pub Seg-end :
      (p : Option ℕ) (xs : List ℕ) (n m : Option ℕ)
      → Distinct xs
      → ((k : ℕ)
          → mem k xs ≡ true
          → (prev' k ≡ prev k) × (next' k ≡ (if holds (last_or none xs) k then m else next k)))
      → Seg prev next p xs n
      → Seg prev' next' p xs m
  Seg-end p [] n m d same s = tt
  Seg-end p (x ∷ []) n m d same s =
      let e = same x (ground arith) in (e.0 ∙ s.0, e.1 ∙ ground arith, tt)
  Seg-end p (x ∷ y ∷ ys) n m d same s =
      let e = same x (ground arith) in
      (
        e.0 ∙ s.0,
        e.1 ∙ rw (mem-last_or y ys x d.0) s.1,
        Seg-end (some x) (y ∷ ys) n m d.1 (λ k i. same k (ground arith)) s.2,
      )

  -- What is before the first item changes.
  pub Seg-start :
      (p q : Option ℕ) (xs : List ℕ) (n : Option ℕ)
      → Distinct xs
      → ((k : ℕ)
          → mem k xs ≡ true
          → (prev' k ≡ (if holds (head_or none xs) k then q else prev k)) × (next' k ≡ next k))
      → Seg prev next p xs n
      → Seg prev' next' q xs n
  Seg-start p q [] n d same s = tt
  Seg-start p q (x ∷ xs) n d same s =
      let e = same x (ground arith) in
      (
        e.0 ∙ ground arith,
        e.1 ∙ s.1,
        Seg-frame (some x) xs n (λ k m. let f = same k (ground arith) in (f.0 ∙ ground arith, f.1))
            s.2,
      )

module _ (prev next : ℕ → Option ℕ) where
  pub Seg-split :
      (p : Option ℕ) (xs ys : List ℕ) (n : Option ℕ)
      → Seg prev next p (xs ++ ys) n
      → Seg prev next p xs (head_or n ys) × Seg prev next (last_or p xs) ys n
  Seg-split p [] ys n s = (tt, s)
  Seg-split p (x ∷ xs) ys n s =
      let (a, b) = Seg-split (some x) xs ys n s.2 in ((s.0, s.1 ∙ head_or-append n xs ys, a), b)

  pub Seg-join :
      (p : Option ℕ) (xs ys : List ℕ) (n : Option ℕ)
      → Seg prev next p xs (head_or n ys)
      → Seg prev next (last_or p xs) ys n
      → Seg prev next p (xs ++ ys) n
  Seg-join p [] ys n a b = b
  Seg-join p (x ∷ xs) ys n a b =
      (a.0, a.1 ∙ sym (head_or-append n xs ys), Seg-join (some x) xs ys n a.2 b)
