-- ===== src/Vm/Sound/Simple.antt =====
-- The instructions of `Vm.Simple` keep the invariant of the machine and do not panic on a stack of
-- the height that they require.
use midnight_ledger.Prelude.{
  ℕ, zero, suc, ◌+◌, ◌≤◌, ◌≡◌, refl, Bool, some, List, [], ◌∷◌, ltb, if◌then◌else◌, Result, length,
  All, arith, sym, Bool-cases, inl, inr, not,
}
use midnight_ledger.Fab.{AlignedValue, u64_of_value, bool_of_value, of_bool}
use midnight_ledger.Vm.{Stop, Config, StateValue, strong, weak, cell}
use midnight_ledger.Vm.Machine.{Slot, Machine}
use midnight_ledger.Vm.Simple.{
  cell_bound, add_number, sub_number, add_cells, sub_cells, lt_cells, concat_cells, eq_cells,
  run_cells, run_lt, run_eq, run_add, run_sub, run_bools, run_and, run_or, run_neg, run_addi,
  run_subi, run_concat, run_pop, run_push, run_dup, run_swap, swap_slots, slot_at, set_slot,
}
use midnight_ledger.Vm.Sound.{
  Runs, Runs-bind, Fails, decoded-Fails, Inv, InRange, pay, take_cell, take_slot, compute,
  push_value-Inv,
}

module _ (a b : AlignedValue) where
  add_number-Fails : (m : ℕ) → Fails (add_number a m)
  unfolding add_number
  add_number-Fails m =
      Runs-bind (λ _. Unit) (λ _. Unit) _ _ (decoded-Fails (u64_of_value a.value))
        λ k _. ground arith

  sub_number-Fails : (m : ℕ) → Fails (sub_number a m)
  unfolding sub_number
  sub_number-Fails m =
      Runs-bind (λ _. Unit) (λ _. Unit) _ _ (decoded-Fails (u64_of_value a.value))
        λ k _. ground arith

  add_cells-Fails : Fails (add_cells a b)
  unfolding add_cells
  add_cells-Fails =
      Runs-bind (λ _. Unit) (λ _. Unit) _ _ (decoded-Fails (u64_of_value a.value))
        λ k _.
          Runs-bind (λ _. Unit) (λ _. Unit) _ _ (decoded-Fails (u64_of_value b.value))
            λ m _. ground arith

  sub_cells-Fails : Fails (sub_cells a b)
  unfolding sub_cells
  sub_cells-Fails =
      Runs-bind (λ _. Unit) (λ _. Unit) _ _ (decoded-Fails (u64_of_value b.value))
        λ k _.
          Runs-bind (λ _. Unit) (λ _. Unit) _ _ (decoded-Fails (u64_of_value a.value))
            λ m _. ground arith

  lt_cells-Fails : Fails (lt_cells a b)
  unfolding lt_cells
  lt_cells-Fails =
      Runs-bind (λ _. Unit) (λ _. Unit) _ _ (decoded-Fails (u64_of_value a.value))
        λ k _.
          Runs-bind (λ _. Unit) (λ _. Unit) _ _ (decoded-Fails (u64_of_value b.value)) λ m _. tt

  eq_cells-Fails : Fails (eq_cells a b)
  unfolding eq_cells
  eq_cells-Fails = ground arith

  concat_cells-Fails : (bound : ℕ) → Fails (concat_cells a b bound)
  unfolding concat_cells
  concat_cells-Fails bound = ground arith

-- A stack high enough has the position and takes a swap.
slot_at-lt :
    (slots : List Slot) (n : ℕ) → suc n ≤ length slots → (s : Slot) × (slot_at slots n ≡ some s)
slot_at-lt [] n h = absurd (omega (arith, h))
slot_at-lt (s ∷ slots) zero h = (s, refl)
slot_at-lt (s ∷ slots) (suc n) h = slot_at-lt slots n (omega (arith, h))

module _ (k : ℕ) where
  abbrev AllInRange : List Slot → Type 0
  AllInRange slots = All (λ s. InRange k s.origin) slots

  slot_at-InRange :
      (slots : List Slot) (n : ℕ) (s : Slot)
      → AllInRange slots
      → slot_at slots n ≡ some s
      → InRange k s.origin
  slot_at-InRange [] n s all e = cc
  slot_at-InRange (t ∷ slots) zero s all e = let q : t ≡ s = cc in rw (sym q) all.0
  slot_at-InRange (t ∷ slots) (suc n) s all e = slot_at-InRange slots n s all.1 e

  set_slot-InRange :
      (n : ℕ) (s : Slot) (slots : List Slot)
      → InRange k s.origin
      → AllInRange slots
      → AllInRange (set_slot n s slots)
  set_slot-InRange n s [] r all = tt
  set_slot-InRange zero s (t ∷ slots) r all = (r, all.1)
  set_slot-InRange (suc n) s (t ∷ slots) r all = (all.0, set_slot-InRange n s slots r all.1)

  swap_slots-InRange :
      (n : ℕ) (slots : List Slot)
      → AllInRange slots
      → n + 2 ≤ length slots
      → Runs AllInRange (swap_slots n slots)
  unfolding swap_slots
  swap_slots-InRange n [] all h = absurd (omega (arith, h))
  swap_slots-InRange n (top ∷ slots) all h =
      let (s, e) = slot_at-lt slots n (omega (arith, h)) in
      rw (Runs, e) (slot_at-InRange slots n s all.1 e, set_slot-InRange n top slots all.0 all.1)

module _ (C : Config) (n : ℕ) where
  run_cells-Inv :
      (price : ℕ) (f : AlignedValue → AlignedValue → Result Stop AlignedValue) (vm : Machine)
      → ((a b : AlignedValue) → Fails (f a b))
      → Inv C n 2 vm
      → Runs (Inv C n 0) (run_cells C price f vm)
  unfolding run_cells
  run_cells-Inv price f vm h i = pay C n _ 2 price vm _ i λ paid i.
      take_cell C n _ 1 paid _ i λ a vm₁ i.
        take_cell C n _ 0 vm₁ _ i
          λ b vm₂ i. compute C n _ (f a b) _ (h a b) λ c. push_value-Inv C n 0 strong (cell c) vm₂ i

  run_bools-Inv :
      (price : ℕ) (f : Bool → Bool → Bool) (vm : Machine)
      → Inv C n 2 vm
      → Runs (Inv C n 0) (run_bools C price f vm)
  unfolding run_bools
  run_bools-Inv price f vm i = pay C n _ 2 price vm _ i λ paid i.
      take_cell C n _ 1 paid _ i λ first vm₁ i.
        compute C n _ _ _ (decoded-Fails (bool_of_value first.value)) λ a.
          take_cell C n _ 0 vm₁ _ i λ second vm₂ i.
            compute C n _ _ _ (decoded-Fails (bool_of_value second.value))
              λ b. push_value-Inv C n 0 strong (cell (of_bool (f a b))) vm₂ i

  pub run_lt-Inv : (vm : Machine) → Inv C n 2 vm → Runs (Inv C n 0) (run_lt C vm)
  unfolding run_lt
  run_lt-Inv vm i = run_cells-Inv _ _ vm (λ b a. lt_cells-Fails a b) i

  pub run_eq-Inv : (vm : Machine) → Inv C n 2 vm → Runs (Inv C n 0) (run_eq C vm)
  unfolding run_eq
  run_eq-Inv vm i = run_cells-Inv _ _ vm eq_cells-Fails i

  pub run_add-Inv : (vm : Machine) → Inv C n 2 vm → Runs (Inv C n 0) (run_add C vm)
  unfolding run_add
  run_add-Inv vm i = run_cells-Inv _ _ vm add_cells-Fails i

  pub run_sub-Inv : (vm : Machine) → Inv C n 2 vm → Runs (Inv C n 0) (run_sub C vm)
  unfolding run_sub
  run_sub-Inv vm i = run_cells-Inv _ _ vm (λ a b. sub_cells-Fails b a) i

  pub run_and-Inv : (vm : Machine) → Inv C n 2 vm → Runs (Inv C n 0) (run_and C vm)
  unfolding run_and
  run_and-Inv vm i = run_bools-Inv _ _ vm i

  pub run_or-Inv : (vm : Machine) → Inv C n 2 vm → Runs (Inv C n 0) (run_or C vm)
  unfolding run_or
  run_or-Inv vm i = run_bools-Inv _ _ vm i

  pub run_neg-Inv : (vm : Machine) → Inv C n 1 vm → Runs (Inv C n 0) (run_neg C vm)
  unfolding run_neg
  run_neg-Inv vm i = pay C n _ 1 _ vm _ i λ paid i. take_cell C n _ 0 paid _ i λ first vm₁ i.
      compute C n _ _ _ (decoded-Fails (bool_of_value first.value))
        λ a. push_value-Inv C n 0 strong (cell (of_bool (not a))) vm₁ i

  pub run_addi-Inv : (m : ℕ) (vm : Machine) → Inv C n 1 vm → Runs (Inv C n 0) (run_addi C m vm)
  unfolding run_addi
  run_addi-Inv m vm i = pay C n _ 1 _ vm _ i λ paid i. take_cell C n _ 0 paid _ i λ a vm₁ i.
      compute C n _ _ _ (add_number-Fails a a m) λ c. push_value-Inv C n 0 strong (cell c) vm₁ i

  pub run_subi-Inv : (m : ℕ) (vm : Machine) → Inv C n 1 vm → Runs (Inv C n 0) (run_subi C m vm)
  unfolding run_subi
  run_subi-Inv m vm i = pay C n _ 1 _ vm _ i λ paid i. take_cell C n _ 0 paid _ i λ a vm₁ i.
      compute C n _ _ _ (sub_number-Fails a a m) λ c. push_value-Inv C n 0 strong (cell c) vm₁ i

  pub run_concat-Inv : (m : ℕ) (vm : Machine) → Inv C n 2 vm → Runs (Inv C n 0) (run_concat C m vm)
  unfolding run_concat
  run_concat-Inv m vm i = elim (Bool-cases (ltb cell_bound m)) [
    | inl e ↦ rw e tt
    | inr e ↦ rw e (
        take_cell C n _ 1 vm _ i λ a vm₁ i. take_cell C n _ 0 vm₁ _ i λ b vm₂ i.
          pay C n _ 0 _ vm₂ _ i λ paid i.
            compute C n _ _ _ (concat_cells-Fails b a m)
              λ c. push_value-Inv C n 0 strong (cell c) paid i)
  ]

  pub run_pop-Inv : (vm : Machine) → Inv C n 1 vm → Runs (Inv C n 0) (run_pop C vm)
  unfolding run_pop
  run_pop-Inv vm i = pay C n _ 1 _ vm _ i λ paid i. take_slot C n _ 0 paid _ i λ s vm₁ _ i. i

  pub run_push-Inv :
      (storage : Bool) (v : StateValue) (vm : Machine)
      → Inv C n 0 vm
      → Runs (Inv C n 0) (run_push C storage v vm)
  unfolding run_push
  run_push-Inv storage v vm i =
      pay C n _ 0 _ vm _ i
        λ paid i. push_value-Inv C n 0 (if storage then strong else weak) v paid i

  pub run_dup-Inv : (m : ℕ) (vm : Machine) → Inv C n (m + 1) vm → Runs (Inv C n 0) (run_dup C m vm)
  unfolding run_dup
  run_dup-Inv m vm i = pay C n _ (m + 1) _ vm _ i λ paid i.
      let (s, e) = slot_at-lt paid.slots m (omega (arith, i.3)) in
      rw e (i.0, i.1, (slot_at-InRange n paid.slots m s i.2 e, i.2), omega arith)

  pub run_swap-Inv :
      (m : ℕ) (vm : Machine) → Inv C n (m + 2) vm → Runs (Inv C n 0) (run_swap C m vm)
  unfolding run_swap
  run_swap-Inv m vm i = pay C n _ (m + 2) _ vm _ i λ paid i.
      Runs-bind (AllInRange n) _ _ _ (swap_slots-InRange n m paid.slots i.2 i.3)
        λ slots all. (i.0, i.1, all, omega arith)
