-- ===== src/Stackify/SymStack/Find.antt =====
-- sym_stack.rs: the searches for a value within reach.
use mathlib.Core.Option
use mathlib.Core.Option.{some-injective}
use sonatina.Base.{
  ℕ, ◌+◌, ◌-◌, ◌≤◌, ◌<◌, min, ◌≡◌, refl, ap, ◌∙◌, sym, Bool, true, Option, none, some, List, arith,
  get_elem?, take, drop, position, position_sound, position_complete, get_elem?-take,
  get_elem?-take_lt, get_elem?-drop, ◌↔◌, ◌≢◌, Bool-cases, inl, inr, ltb,
}
use sonatina.Stackify.SymStack.{
  StackItem, SymStack, item_eq, len_above_func_ret, find_reachable_value, find_reachable_value_from,
}

item_eq-value :
    (i : StackItem) (v : ℕ) → item_eq i (StackItem.value v) ≡ true → i ≡ StackItem.value v
item_eq-value (StackItem.value w) v h = ground arith
item_eq-value StackItem.func_ret_addr v h = cc
item_eq-value StackItem.call_ret_addr v h = cc

item_eq_self : (v : ℕ) → item_eq (StackItem.value v) (StackItem.value v) ≡ true
item_eq_self v = ground arith

abbrev is_value : ℕ → StackItem → Bool
is_value v i = item_eq i (StackItem.value v)

position-value :
    (xs : List StackItem) (v i : ℕ)
    → position (is_value v) xs ≡ some i
    → get_elem? xs i ≡ some (StackItem.value v)
position-value xs v i h =
    let (x, e, t) = position_sound (is_value v) xs i h in e ∙ ap some (item_eq-value x v t)

-- A hit is a place of the value, within the depth and above the return barrier.
pub find_reachable_value_sound :
    (s : SymStack) (v depth i : ℕ)
    → find_reachable_value s v depth ≡ some i
    → (get_elem? s.items i ≡ some (StackItem.value v)) × (i < depth) × (i < len_above_func_ret s)
unfolding find_reachable_value
find_reachable_value_sound s v depth i h =
    let limit = min (len_above_func_ret s) depth in
    let (e, l) =
      get_elem?-take limit s.items i (StackItem.value v)
        (position-value (take limit s.items) v i h) in
    (e, omega arith, omega arith)

-- A value that stands within the depth and above the barrier is found, there or nearer to the top.
pub find_reachable_value_complete :
    (s : SymStack) (v depth i : ℕ)
    → i < depth
    → i < len_above_func_ret s
    → get_elem? s.items i ≡ some (StackItem.value v)
    → (j : ℕ) × (find_reachable_value s v depth ≡ some j) × (j ≤ i)
unfolding find_reachable_value
find_reachable_value_complete s v depth i in_depth above e =
    let limit = min (len_above_func_ret s) depth in
    position_complete (is_value v) (take limit s.items) i (StackItem.value v)
      (get_elem?-take_lt limit s.items i (omega arith) ∙ e) (item_eq_self v)

map-eq-some :
    (o : Option ℕ) (k i : ℕ)
    → Option.map (λ off. k + off) o ≡ some i
    → (off : ℕ) × (o ≡ some off) × (i ≡ k + off)
map-eq-some none k i h = cc
map-eq-some (some off) k i h = (off, refl, sym (some-injective _ _ h))

-- A hit of the search from a given place on is a place of the value, not above that place, within
-- the depth and above the return barrier.
pub find_reachable_value_from_sound :
    (s : SymStack) (v start depth i : ℕ)
    → find_reachable_value_from s v start depth ≡ some i
    → (get_elem? s.items i ≡ some (StackItem.value v))
      × (start ≤ i)
      × (i < depth)
      × (i < len_above_func_ret s)
unfolding find_reachable_value_from
find_reachable_value_from_sound s v start depth i h =
    let limit = min (len_above_func_ret s) depth in
    let window = take (limit - start) (drop start s.items) in
    let (off, found, at) = map-eq-some (position (is_value v) window) start i h in
    let (e, l) =
      get_elem?-take (limit - start) (drop start s.items) off (StackItem.value v)
        (position-value window v off found) in
    (rw at (sym (get_elem?-drop start s.items off) ∙ e), omega arith, omega arith, omega arith)

-- A value that stands at or below the given place, within the depth and above the return barrier, is
-- found by the search from that place on, there or nearer to the top.
pub find_reachable_value_from_complete :
    (s : SymStack) (v start depth i : ℕ)
    → start ≤ i
    → i < depth
    → i < len_above_func_ret s
    → get_elem? s.items i ≡ some (StackItem.value v)
    → (j : ℕ) × (find_reachable_value_from s v start depth ≡ some j) × (j ≤ i)
unfolding find_reachable_value_from
find_reachable_value_from_complete s v start depth i from in_depth above e =
    let limit = min (len_above_func_ret s) depth in
    let window = take (limit - start) (drop start s.items) in
    let back : start + (i - start) ≡ i = omega arith in
    let here : get_elem? (drop start s.items) (i - start) ≡ some (StackItem.value v) =
      get_elem?-drop start s.items (i - start) ∙ rw back e in
    let (j, found, le) =
      position_complete (is_value v) window (i - start) (StackItem.value v)
        (get_elem?-take_lt (limit - start) (drop start s.items) (i - start) (omega arith) ∙ here)
        (item_eq_self v) in
    (start + j, rw found refl, omega arith)

-- The search finds the first place of the value, if it is within the depth and above the return
-- barrier, and nothing else.
pub find_reachable_value_first :
    (s : SymStack) (v depth i : ℕ)
    → (find_reachable_value s v depth ≡ some i) ↔ (
        (get_elem? s.items i ≡ some (StackItem.value v))
        × (i < depth)
        × (i < len_above_func_ret s)
        × ((k : ℕ) → k < i → get_elem? s.items k ≢ some (StackItem.value v)))
find_reachable_value_first s v depth i = (
  λ h.
      let (e, near, above) = find_reachable_value_sound s v depth i h in
      (
        e,
        near,
        above,
        λ k lt here.
            let (j, found, le) =
              find_reachable_value_complete s v depth k (omega arith) (omega arith) here in
            let same : i ≡ j = some-injective _ _ (sym h ∙ found) in omega arith,
      ),
  λ (e, near, above, first).
      let (j, found, le) = find_reachable_value_complete s v depth i near above e in
      let (e', _, _) = find_reachable_value_sound s v depth j found in
      elim (Bool-cases (ltb j i)) [
        | inl nearer ↦ absurd (first j (ground arith) e')
        | inr not ↦ found ∙ ap some (ground arith)
      ],
)

-- The search from a given place on finds the first place of the value that is not above the given
-- one, if it is within the depth and above the return barrier, and nothing else.
pub find_reachable_value_from_first :
    (s : SymStack) (v start depth i : ℕ)
    → (find_reachable_value_from s v start depth ≡ some i) ↔ (
        (get_elem? s.items i ≡ some (StackItem.value v))
        × (start ≤ i)
        × (i < depth)
        × (i < len_above_func_ret s)
        × ((k : ℕ) → start ≤ k → k < i → get_elem? s.items k ≢ some (StackItem.value v)))
find_reachable_value_from_first s v start depth i = (
  λ h.
      let (e, from, near, above) = find_reachable_value_from_sound s v start depth i h in
      (
        e,
        from,
        near,
        above,
        λ k after lt here.
            let (j, found, le) =
              find_reachable_value_from_complete s v start depth k after (omega arith) (omega arith)
                here in
            let same : i ≡ j = some-injective _ _ (sym h ∙ found) in omega arith,
      ),
  λ (e, from, near, above, first).
      let (j, found, le) = find_reachable_value_from_complete s v start depth i from near above e in
      let (e', from', _, _) = find_reachable_value_from_sound s v start depth j found in
      elim (Bool-cases (ltb j i)) [
        | inl nearer ↦ absurd (first j from' (ground arith) e')
        | inr not ↦ found ∙ ap some (ground arith)
      ],
)
