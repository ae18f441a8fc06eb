-- ===== src/Vm/Simple.antt =====
-- The instructions on cells and on the stack (the arms of `run_program_internal` of
-- onchain-vm/src/vm.rs, and its helpers `add`, `sub`, `lt`, `concat` and `eq`).
use midnight_ledger.Prelude.{
  ℕ, zero, suc, ◌+◌, ◌-◌, ◌^◌, Bool, true, false, ◌&&◌, ◌||◌, not, Option, none, some, List, [],
  ◌∷◌, ◌++◌, ltb, leb, if◌then◌else◌, Result, ok, err, ◌>>=◌,
}
use midnight_ledger.Cost.{add_u64, mul_u64}
use midnight_ledger.Fab
use midnight_ledger.Fab.{AlignedValue, u64_of_value, bool_of_value, of_u64, of_bool}
use midnight_ledger.Fab.Size.{serialized_size, same_value}
use midnight_ledger.Vm.{
  StateValue, null, cell, map, array, bounded_merkle_tree, weak, strong, Stop, panicked, fail,
  arithmetic_overflow, too_long_for_equal, type_error, bounds_exceeded, cell_bound_exceeded, Config,
}
use midnight_ledger.Vm.Store.{decoded}
use midnight_ledger.Vm.Machine.{
  Slot, Machine, incr_gas, pop_slot, pop_cell, push_slot, push_value, push_cell,
}

-- `checked_add` on u64.
abbrev checked_add : ℕ → ℕ → Result Stop AlignedValue
checked_add a b = if ltb (a + b) (2 ^ 64) then ok (of_u64 (a + b)) else fail arithmetic_overflow

abbrev checked_sub : ℕ → ℕ → Result Stop AlignedValue
checked_sub a b = if leb b a then ok (of_u64 (a - b)) else fail arithmetic_overflow

-- The program's `add` and `sub` of a cell and a number.
unfoldable pub add_number : AlignedValue → ℕ → Result Stop AlignedValue
unfolding Fab.single Fab.int_of_atom
add_number a b = do n ← decoded (u64_of_value a.value); checked_add n b

unfoldable pub sub_number : AlignedValue → ℕ → Result Stop AlignedValue
unfolding Fab.single Fab.int_of_atom
sub_number a b = do n ← decoded (u64_of_value a.value); checked_sub n b

-- The same of two cells. `sub` decodes the second before it reports the first.
unfoldable pub add_cells : AlignedValue → AlignedValue → Result Stop AlignedValue
unfolding Fab.single Fab.int_of_atom
add_cells a b = do
  m ← decoded (u64_of_value a.value)
  n ← decoded (u64_of_value b.value)
  checked_add m n

unfoldable pub sub_cells : AlignedValue → AlignedValue → Result Stop AlignedValue
unfolding Fab.single Fab.int_of_atom
sub_cells a b = do
  n ← decoded (u64_of_value b.value)
  m ← decoded (u64_of_value a.value)
  checked_sub m n

unfoldable pub lt_cells : AlignedValue → AlignedValue → Result Stop AlignedValue
unfolding Fab.single Fab.int_of_atom
lt_cells a b = do
  m ← decoded (u64_of_value a.value)
  n ← decoded (u64_of_value b.value)
  ok (of_bool (ltb m n))

unfoldable pub concat_cells : AlignedValue → AlignedValue → ℕ → Result Stop AlignedValue
unfolding serialized_size Fab.new Fab.concat
concat_cells a b bound =
    if leb (serialized_size a + serialized_size b) bound
    then elim (Fab.new (a.value ++ b.value) (Fab.concat a.alignment b.alignment)) [
      | none ↦ fail type_error
      | some c ↦ ok c
    ]
    else fail bounds_exceeded

unfoldable pub eq_valid_input : AlignedValue → Bool
unfolding serialized_size
eq_valid_input a = leb (serialized_size a) 64

unfoldable pub eq_cells : AlignedValue → AlignedValue → Result Stop AlignedValue
unfolding eq_valid_input same_value
eq_cells a b =
    if eq_valid_input a && eq_valid_input b
    then ok (of_bool (same_value a b))
    else if eq_valid_input a || eq_valid_input b
    then ok (of_bool false)
    else fail too_long_for_equal

-- The largest cell, in bytes.
abbrev pub cell_bound : ℕ
cell_bound = 2 ^ 15

-- The position from the top of the stack.
abbrev pub slot_at : List Slot → ℕ → Option Slot
slot_at [] n = none
slot_at (s ∷ slots) zero = some s
slot_at (s ∷ slots) (suc n) = slot_at slots n

abbrev pub set_slot : ℕ → Slot → List Slot → List Slot
set_slot n s [] = []
set_slot zero s (t ∷ slots) = s ∷ slots
set_slot (suc n) s (t ∷ slots) = t ∷ set_slot n s slots

-- `stack.swap` of the top and the position `n + 1` below it.
unfoldable pub swap_slots : ℕ → List Slot → Result Stop (List Slot)
swap_slots n [] = err panicked
swap_slots n (top ∷ slots) = elim (slot_at slots n) [
  | none ↦ err panicked
  | some s ↦ ok (s ∷ set_slot n top slots)
]

module _ (C : Config) where
  -- A price with a constant and a linear part.
  abbrev pub linear : ℕ → ℕ → ℕ → ℕ
  linear constant coeff n = add_u64 constant (mul_u64 coeff n)

  -- `noop`, `branch` and `jmp` take only their price here.
  unfoldable pub run_noop : ℕ → Machine → Result Stop Machine
  unfolding incr_gas
  run_noop n = incr_gas C (linear C.cost_model.noop_constant C.cost_model.noop_coeff_arg n)

  unfoldable pub run_branch : ℕ → Machine → Result Stop Machine
  unfolding incr_gas
  run_branch skip =
      incr_gas C (linear C.cost_model.branch_constant C.cost_model.branch_coeff_arg skip)

  unfoldable pub run_jmp : ℕ → Machine → Result Stop Machine
  unfolding incr_gas
  run_jmp skip = incr_gas C (linear C.cost_model.jmp_constant C.cost_model.jmp_coeff_arg skip)

  unfoldable pub run_ckpt : Machine → Result Stop Machine
  unfolding incr_gas
  run_ckpt = incr_gas C C.cost_model.ckpt

  -- The price, then two cells, the top first, then their result.
  unfoldable pub run_cells :
      ℕ → (AlignedValue → AlignedValue → Result Stop AlignedValue) → Machine → Result Stop Machine
  unfolding incr_gas pop_cell
  run_cells price f vm = do
    paid ← incr_gas C price vm
    (first, vm₁) ← pop_cell paid
    (second, vm₂) ← pop_cell vm₁
    c ← f first second
    ok (push_cell c vm₂)

  unfoldable pub run_lt : Machine → Result Stop Machine
  unfolding run_cells lt_cells
  run_lt = run_cells C.cost_model.lt (λ b a. lt_cells a b)

  unfoldable pub run_eq : Machine → Result Stop Machine
  unfolding run_cells eq_cells
  run_eq = run_cells C.cost_model.eq eq_cells

  unfoldable pub run_add : Machine → Result Stop Machine
  unfolding run_cells add_cells
  run_add = run_cells C.cost_model.add add_cells

  unfoldable pub run_sub : Machine → Result Stop Machine
  unfolding run_cells sub_cells
  run_sub = run_cells C.cost_model.sub (λ a b. sub_cells b a)

  -- The first Boolean is decoded before the second cell is popped.
  unfoldable pub run_bools : ℕ → (Bool → Bool → Bool) → Machine → Result Stop Machine
  unfolding incr_gas pop_cell Fab.single Fab.bool_of_atom
  run_bools price f vm = do
    paid ← incr_gas C price vm
    (first, vm₁) ← pop_cell paid
    a ← decoded (bool_of_value first.value)
    (second, vm₂) ← pop_cell vm₁
    b ← decoded (bool_of_value second.value)
    ok (push_cell (of_bool (f a b)) vm₂)

  unfoldable pub run_and : Machine → Result Stop Machine
  unfolding run_bools
  run_and = run_bools C.cost_model.and (λ a b. a && b)

  unfoldable pub run_or : Machine → Result Stop Machine
  unfolding run_bools
  run_or = run_bools C.cost_model.or (λ a b. a || b)

  unfoldable pub run_neg : Machine → Result Stop Machine
  unfolding incr_gas pop_cell Fab.single Fab.bool_of_atom
  run_neg vm = do
    paid ← incr_gas C C.cost_model.neg vm
    (first, vm₁) ← pop_cell paid
    a ← decoded (bool_of_value first.value)
    ok (push_cell (of_bool (not a)) vm₁)

  unfoldable pub run_addi : ℕ → Machine → Result Stop Machine
  unfolding incr_gas pop_cell add_number
  run_addi immediate vm = do
    paid ← incr_gas C C.cost_model.addi vm
    (a, vm₁) ← pop_cell paid
    c ← add_number a immediate
    ok (push_cell c vm₁)

  unfoldable pub run_subi : ℕ → Machine → Result Stop Machine
  unfolding incr_gas pop_cell sub_number
  run_subi immediate vm = do
    paid ← incr_gas C C.cost_model.subi vm
    (a, vm₁) ← pop_cell paid
    c ← sub_number a immediate
    ok (push_cell c vm₁)

  -- The price is for the size of the two cells together.
  unfoldable pub run_concat : ℕ → Machine → Result Stop Machine
  unfolding incr_gas pop_cell concat_cells serialized_size
  run_concat n vm = if ltb cell_bound n then fail cell_bound_exceeded else do
    (a, vm₁) ← pop_cell vm
    (b, vm₂) ← pop_cell vm₁
    paid ←
        incr_gas C
          (linear C.cost_model.concat_constant C.cost_model.concat_coeff_total_size
            (serialized_size a + serialized_size b))
          vm₂
    c ← concat_cells b a n
    ok (push_cell c paid)

  unfoldable pub run_pop : Machine → Result Stop Machine
  unfolding incr_gas pop_slot
  run_pop vm = do paid ← incr_gas C C.cost_model.pop vm; (s, vm₁) ← pop_slot paid; ok vm₁

  unfoldable pub push_price : Bool → StateValue → ℕ
  push_price true null = C.cost_model.pushs_null
  push_price false null = C.cost_model.push_null
  push_price true (cell _) = C.cost_model.pushs_cell
  push_price false (cell _) = C.cost_model.push_cell
  push_price true (map _) = C.cost_model.pushs_map
  push_price false (map _) = C.cost_model.push_map
  push_price true (bounded_merkle_tree _) = C.cost_model.pushs_bmt
  push_price false (bounded_merkle_tree _) = C.cost_model.push_bmt
  push_price true (array _) = C.cost_model.pushs_array
  push_price false (array _) = C.cost_model.push_array

  unfoldable pub run_push : Bool → StateValue → Machine → Result Stop Machine
  unfolding incr_gas push_price
  run_push storage v vm = do
    paid ← incr_gas C (push_price storage v) vm
    ok (push_value (if storage then strong else weak) v paid)

  unfoldable pub run_dup : ℕ → Machine → Result Stop Machine
  unfolding incr_gas
  run_dup n vm = do
    paid ← incr_gas C (linear C.cost_model.dup_constant C.cost_model.dup_coeff_arg n) vm
    elim (slot_at paid.slots n) [ none ↦ err panicked | some s ↦ ok (push_slot s paid) ]

  unfoldable pub run_swap : ℕ → Machine → Result Stop Machine
  unfolding incr_gas swap_slots
  run_swap n vm = do
    paid ← incr_gas C (linear C.cost_model.swap_constant C.cost_model.swap_coeff_arg n) vm
    slots ← swap_slots n paid.slots
    ok (record paid { slots = slots })
