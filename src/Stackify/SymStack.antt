-- ===== src/Stackify/SymStack.antt =====
-- crates/codegen/src/stackalloc/stackify/sym_stack.rs: the symbolic stack, top first. A method that
-- changes the stack returns the new one, with the actions it has appended; `none` is a panic.
pub mod Barrier
pub mod Rotate
pub mod Clear
pub mod Machine
pub mod Find
pub mod Keeps
mod Examples
use sonatina.Base.{
  ℕ, zero, suc, ◌+◌, ◌-◌, ◌%◌, ◌^◌, min, Bool, true, false, not, ◌&&◌, Option, none, some, List, [],
  ◌∷◌, ◌++◌, map, reverse, ltb, leb, ◌==◌, if◌then◌else◌, length, get_elem?, set, take, drop,
  position, count_while, zip, unwrap_or, ◌>>=◌, ◌>>◌, assert,
}
use mathlib.Core.Option
use sonatina.Ir.Value.{Immediate}
use sonatina.Stackify.{Action}

pub data StackItem : Type 0 where
  value : ℕ → StackItem
  func_ret_addr call_ret_addr : StackItem

pub record SymStack : Type 0 where
  pub items : List StackItem

abbrev pub Actions : Type 0
Actions = List Action

abbrev pub dup_max : ℕ
dup_max = 16

abbrev pub swap_depth_max : ℕ
swap_depth_max = 16

abbrev pub swap_window_max : ℕ
swap_window_max = swap_depth_max + 1

-- The derived `PartialEq`.
abbrev pub item_eq : StackItem → StackItem → Bool
item_eq (StackItem.value v) (StackItem.value w) = v == w
item_eq StackItem.func_ret_addr StackItem.func_ret_addr = true
item_eq StackItem.call_ret_addr StackItem.call_ret_addr = true
item_eq _ _ = false

abbrev pub is_func_ret : StackItem → Bool
is_func_ret i = item_eq i StackItem.func_ret_addr

-- `if has_internal_return { items.push_back(FuncRetAddr) }`
abbrev push_back_ret : Bool → List StackItem → List StackItem
push_back_ret true items = items ++ StackItem.func_ret_addr ∷ []
push_back_ret false items = items

-- A function is given here by its argument values.
pub entry_stack : List ℕ → Bool → SymStack
entry_stack arg_values has_internal_return = record {
  items = push_back_ret has_internal_return (map StackItem.value arg_values);
}

-- A block template is given by its parameters and its transfer region.
pub from_template : List ℕ → List ℕ → Bool → SymStack
from_template params transfer has_internal_return = record {
  items = push_back_ret has_internal_return (map StackItem.value (params ++ transfer));
}

pub func_ret_index : SymStack → Option ℕ
func_ret_index s = position is_func_ret s.items

pub len_above_func_ret : SymStack → ℕ
unfolding func_ret_index
len_above_func_ret s = unwrap_or (func_ret_index s) (length s.items)

pub common_suffix_len : SymStack → List ℕ → ℕ
common_suffix_len s desired =
    let limit = len_above_func_ret s in
    count_while (λ p. item_eq p.0 (StackItem.value p.1))
      (zip (reverse (take limit s.items)) (reverse desired))

pub find_reachable_value : SymStack → ℕ → ℕ → Option ℕ
find_reachable_value s v max_depth =
    let limit = min (len_above_func_ret s) max_depth in
    position (λ item. item_eq item (StackItem.value v)) (take limit s.items)

pub find_reachable_value_from : SymStack → ℕ → ℕ → ℕ → Option ℕ
find_reachable_value_from s v start max_depth =
    let limit = min (len_above_func_ret s) max_depth in
    Option.map (λ off. start + off)
      (position (λ item. item_eq item (StackItem.value v))
        (take (limit - start) (drop start s.items)))

pub push_value : ℕ → SymStack → SymStack
push_value v s = record { items = StackItem.value v ∷ s.items }

pub push_imm : ℕ → Immediate → SymStack → Actions → SymStack × Actions
push_imm stack_as imm s acts = (push_value stack_as s, acts ++ Action.push imm ∷ [])

-- `let Some(StackItem::Value(slot)) = .. else { panic! }; *slot = v`
abbrev rename_item : ℕ → StackItem → Option StackItem
rename_item v (StackItem.value _) = some (StackItem.value v)
rename_item v _ = none

pub rename_top_value : ℕ → SymStack → Option SymStack
rename_top_value v s = do
  top ← get_elem? s.items 0
  item ← rename_item v top
  some (record { items = set s.items 0 item })

pub rename_value_at_depth : ℕ → ℕ → SymStack → Option SymStack
rename_value_at_depth depth v s = do
  assert (ltb depth (len_above_func_ret s))
  slot ← get_elem? s.items depth
  item ← rename_item v slot
  some (record { items = set s.items depth item })

pub dup : ℕ → SymStack → Actions → Option (SymStack × Actions)
dup pos s acts = do
  assert (ltb pos dup_max)
  assert (ltb pos (len_above_func_ret s))
  item ← get_elem? s.items pos
  some (record { items = item ∷ s.items }, acts ++ Action.stack_dup (pos % 2 ^ 8) ∷ [])

-- A panic at the function's return barrier and on an empty stack.
pop_front_operand : List StackItem → Option SymStack
pop_front_operand [] = none
pop_front_operand (StackItem.func_ret_addr ∷ rest) = none
pop_front_operand (item ∷ rest) = some (record { items = rest })

pub pop_operand : SymStack → Option SymStack
unfolding pop_front_operand
pop_operand s = pop_front_operand s.items

pub pop_n_operands : ℕ → SymStack → Option SymStack
pop_n_operands zero s = some s
pop_n_operands (suc n) s = do s' ← pop_operand s; pop_n_operands n s'

pub pop : SymStack → Actions → Option (SymStack × Actions)
pop s acts = do s' ← pop_operand s; some (s', acts ++ Action.pop ∷ [])

pub pop_n : ℕ → SymStack → Actions → Option (SymStack × Actions)
pop_n zero s acts = some (s, acts)
pop_n (suc n) s acts = pop s acts >>= λ r. pop_n n r.0 r.1

-- `VecDeque::swap`, which panics out of range.
abbrev pub swap_items : List StackItem → ℕ → ℕ → Option (List StackItem)
swap_items items i j = do
  a ← get_elem? items i
  b ← get_elem? items j
  some (set (set items i b) j a)

pub swap : ℕ → SymStack → Actions → Option (SymStack × Actions)
swap zero s acts = some (s, acts)
swap (suc d) s acts = do
  assert (leb (suc d) swap_depth_max)
  assert (ltb (suc d) (len_above_func_ret s))
  items ← swap_items s.items 0 (suc d)
  some (record { items = items }, acts ++ Action.stack_swap (suc d % 2 ^ 8) ∷ [])

-- `for k in from..from + count { self.swap(k, actions) }`
pub swap_each : ℕ → ℕ → SymStack → Actions → Option (SymStack × Actions)
swap_each zero from s acts = some (s, acts)
swap_each (suc count) from s acts = swap from s acts >>= λ r. swap_each count (suc from) r.0 r.1

pub stable_rotate_to_top : ℕ → SymStack → Actions → Option (SymStack × Actions)
stable_rotate_to_top zero s acts = some (s, acts)
stable_rotate_to_top (suc p) s acts = do
  assert (leb (suc p) swap_depth_max)
  assert (ltb (suc p) (len_above_func_ret s))
  swap_each (suc p) 1 s acts

pub stable_delete_at_depth : ℕ → SymStack → Actions → Option (SymStack × Actions)
stable_delete_at_depth depth s acts = do
  assert (leb 1 depth && leb depth swap_window_max)
  assert (leb depth (len_above_func_ret s))
  r ← swap_each (depth - 1) 1 s acts
  pop r.0 r.1

-- The `while let` loop, on fuel.
pub clear_loop : ℕ → SymStack → Actions → Option (SymStack × Actions)
clear_loop zero s acts = none
clear_loop (suc fuel) s acts = elim (get_elem? s.items 0) [
  | none ↦ some (s, acts)
  | some top ↦ elim (is_func_ret top) [
    | true ↦ some (s, acts)
    | false ↦ pop s acts >>= λ r. clear_loop fuel r.0 r.1
  ]
]

-- Each round pops one item, so one more than the items is enough fuel.
pub clear_above_func_ret : SymStack → Actions → Option (SymStack × Actions)
unfolding clear_loop
clear_above_func_ret s acts = clear_loop (suc (length s.items)) s acts

pub replace_above_func_ret : List StackItem → SymStack → SymStack
replace_above_func_ret above s = elim (func_ret_index s) [
  | none ↦ record { items = above }
  | some ret_pos ↦ record { items = above ++ drop ret_pos s.items }
]

pub push_call_ret_addr : SymStack → SymStack
push_call_ret_addr s = record { items = StackItem.call_ret_addr ∷ s.items }

pub push_call_continuation : SymStack → Actions → SymStack × Actions
unfolding push_call_ret_addr
push_call_continuation s acts = (push_call_ret_addr s, acts ++ Action.push_continuation_offset ∷ [])

abbrev is_call_ret : Option StackItem → Bool
is_call_ret none = false
is_call_ret (some i) = item_eq i StackItem.call_ret_addr

-- The last assertion is the `debug_assert_eq!` that the call address has arrived.
pub position_call_ret_below_operands : ℕ → SymStack → Actions → Option (SymStack × Actions)
position_call_ret_below_operands zero s acts = some (s, acts)
position_call_ret_below_operands (suc n) s acts = do
  assert (is_call_ret (get_elem? s.items 0))
  assert (leb (suc n) swap_depth_max)
  assert (ltb (suc n) (len_above_func_ret s))
  r ← swap (suc n) s acts
  assert (is_call_ret (get_elem? r.0.items (suc n)))
  some r

pub remove_call_ret_addr : SymStack → Option SymStack
remove_call_ret_addr s = do
  pos ← position (λ i. item_eq i StackItem.call_ret_addr) s.items
  some (record { items = take pos s.items ++ drop (suc pos) s.items })
