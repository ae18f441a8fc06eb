-- ===== src/Vm/Sound/Containers.antt =====
-- The instructions of `Vm.Containers` keep the invariant of the machine and do not panic on a stack
-- of the height that they require.
use midnight_ledger.Prelude.{
  ℕ, ◌/◌, ◌%◌, ◌≡◌, Bool, true, false, Option, none, some, ltb, ◌==◌, if◌then◌else◌, Result, ok,
  err, ok_or, map_err, length, arith, Bool-cases, inl, inr,
}
use midnight_ledger.MerkleTree.{try_update_hash}
use midnight_ledger.Fab.{AlignedValue, u8_of_value, u64_of_value, of_u8, of_u64, of_digest, of_bool}
use midnight_ledger.Vm.{
  StateValue, null, cell, map, array, bounded_merkle_tree, strong, failed, merkle_tree_error,
  log_bound_exceeded, OnchainProgramError, Config,
}
use midnight_ledger.Vm.Store.{nulls}
use midnight_ledger.Vm.Machine.{Machine, incr_gas_full, push_key}
use midnight_ledger.Vm.Containers.{
  check_cache, type_of, run_type, size_of, run_size, run_new_array, new_of, run_new, run_log,
  run_root, run_popeq, run_member, removed, run_rem, pay_and_push, root_of, has_key,
}
use midnight_ledger.Vm.Containers.{max_log_size}
use midnight_ledger.Vm.Sound.{
  Runs, Runs-bind, Fails, decoded-Fails, Inv, pay, pay_full, take_cell, take_slot, compute,
  incr_gas_full-Inv, push_value-Inv, push_key-InRange, visit-InRange,
}

pub ok_or-Fails : {A : Type 0} (o : Option A) (e : OnchainProgramError) → Fails (ok_or o (failed e))
ok_or-Fails none e = tt
ok_or-Fails (some a) e = tt

pub map_err-Fails :
    {E A : Type 0} (f : E → OnchainProgramError) (m : Result E A)
    → Fails (map_err (λ e. failed (f e)) m)
map_err-Fails f (ok a) = tt
map_err-Fails f (err e) = tt

pub check_cache-Fails : (cached hit : Bool) → Fails (check_cache cached hit)
check_cache-Fails cached hit = ground arith

module _ (C : Config) where
  type_of-Fails : (v : StateValue) → Fails (type_of C v)
  unfolding type_of
  type_of-Fails v = ground arith

  size_of-Fails : (v : StateValue) → Fails (size_of C v)
  unfolding size_of
  size_of-Fails v = ground arith

  root_of-Fails : (v : StateValue) → Fails (root_of C v)
  root_of-Fails (bounded_merkle_tree t) = ok_or-Fails _ _
  root_of-Fails null = tt
  root_of-Fails (cell a) = tt
  root_of-Fails (map m) = tt
  root_of-Fails (array a) = tt

  has_key-Fails : (v : StateValue) (k : AlignedValue) → Fails (has_key C v k)
  has_key-Fails v k = ground arith

  removed-Fails : (v : StateValue) (k : AlignedValue) → Fails (removed C v k)
  unfolding removed
  removed-Fails (map m) k = tt
  removed-Fails null k = tt
  removed-Fails (cell a) k = tt
  removed-Fails (array a) k = tt
  removed-Fails (bounded_merkle_tree t) k =
      Runs-bind (λ _. Unit) (λ _. Unit) _ _ (decoded-Fails (u64_of_value k.value))
        λ i _.
          Runs-bind (λ _. Unit) (λ _. Unit) _ _
            (map_err-Fails merkle_tree_error (try_update_hash t i 0 tt)) λ t' _. tt

module _ (C : Config) (n : ℕ) where
  pub run_type-Inv : (vm : Machine) → Inv C n 1 vm → Runs (Inv C n 0) (run_type C vm)
  unfolding run_type
  run_type-Inv vm i = take_slot C n _ 0 vm _ i λ s vm₁ _ i.
      compute C n _ _ _ (type_of-Fails C s.item.value) λ ty.
        pay C n _ 0 ty.1 vm₁ _ i λ paid i. push_value-Inv C n 0 strong (cell (of_u8 ty.0)) paid i

  pub run_size-Inv : (vm : Machine) → Inv C n 1 vm → Runs (Inv C n 0) (run_size C vm)
  unfolding run_size
  run_size-Inv vm i = take_slot C n _ 0 vm _ i λ s vm₁ _ i.
      compute C n _ _ _ (size_of-Fails C s.item.value) λ ty.
        pay C n _ 0 ty.1 vm₁ _ i λ paid i. push_value-Inv C n 0 strong (cell (of_u64 ty.0)) paid i

  run_new_array-Inv :
      (m : ℕ) (vm : Machine) → Inv C n 0 vm → Runs (Inv C n 0) (run_new_array C m vm)
  unfolding run_new_array
  run_new_array-Inv m vm i = pay C n _ 0 _ vm _ i λ paid i. elim (Bool-cases (ltb 16 m)) [
    | inl e ↦ rw e tt
    | inr e ↦ rw e (push_value-Inv C n 0 strong (array (nulls m)) paid i)
  ]

  pay_and_push-Inv :
      (price : ℕ) (v : StateValue) (vm : Machine)
      → Inv C n 0 vm
      → Runs (Inv C n 0) (pay_and_push C price v vm)
  pay_and_push-Inv price v vm i =
      pay C n _ 0 price vm _ i λ paid i. push_value-Inv C n 0 strong v paid i

  new_of-Inv : (tag : ℕ) (vm : Machine) → Inv C n 0 vm → Runs (Inv C n 0) (new_of C tag vm)
  unfolding new_of
  new_of-Inv tag vm i = elim (Bool-cases (tag % 8 == 0)) [
    | inl e ↦ rw e (pay_and_push-Inv _ _ vm i)
    | inr e ↦ rw e (elim (Bool-cases (tag % 8 == 1)) [
      | inl e ↦ rw e (pay_and_push-Inv _ _ vm i)
      | inr e ↦ rw e (elim (Bool-cases (tag % 8 == 2)) [
        | inl e ↦ rw e (pay_and_push-Inv _ _ vm i)
        | inr e ↦ rw e (elim (Bool-cases (tag % 8 == 3)) [
          | inl e ↦ rw e (run_new_array-Inv (tag / 8) vm i)
          | inr e ↦ rw e (elim (Bool-cases (tag % 8 == 4)) [
            | inl e ↦ rw e (pay_and_push-Inv _ _ vm i)
            | inr e ↦ rw e (tt)
          ])
        ])
      ])
    ])
  ]

  pub run_new-Inv : (vm : Machine) → Inv C n 1 vm → Runs (Inv C n 0) (run_new C vm)
  unfolding run_new
  run_new-Inv vm i =
      take_cell C n _ 0 vm _ i λ a vm₁ i.
        compute C n _ _ _ (decoded-Fails (u8_of_value a.value)) λ tag. new_of-Inv tag vm₁ i

  pub run_log-Inv : (vm : Machine) → Inv C n 1 vm → Runs (λ p. Inv C n 0 p.1) (run_log C vm)
  unfolding run_log
  run_log-Inv vm i = take_slot C n _ 0 vm _ i λ s vm₁ _ i.
      let nodes = C.outside.serialize_to_node_list_bounded s.item.value max_log_size in
      Runs-bind (λ _. Unit) _ (ok_or nodes (failed log_bound_exceeded)) _ (ok_or-Fails nodes _)
        λ data_lens _. pay C n _ 0 _ vm₁ _ i λ paid i. pay_full C n _ 0 _ paid _ i λ churned i. i

  pub run_root-Inv : (vm : Machine) → Inv C n 1 vm → Runs (Inv C n 0) (run_root C vm)
  unfolding run_root
  run_root-Inv vm i = pay C n _ 1 _ vm _ i λ paid i. take_slot C n _ 0 paid _ i λ s vm₁ _ i.
      compute C n _ _ _ (root_of-Fails C s.item.value)
        λ r. push_value-Inv C n 0 strong (cell (of_digest r)) vm₁ i

  pub run_popeq-Inv : (vm : Machine) → Inv C n 1 vm → Runs (λ p. Inv C n 0 p.1) (run_popeq C vm)
  unfolding run_popeq
  run_popeq-Inv vm i =
      pay C n _ 1 _ vm _ i
        λ paid i. take_cell C n _ 0 paid _ i λ a vm₁ i. pay C n _ 0 _ vm₁ _ i λ paid₁ i. i

  pub run_member-Inv : (vm : Machine) → Inv C n 2 vm → Runs (Inv C n 0) (run_member C vm)
  unfolding run_member
  run_member-Inv vm i = take_cell C n _ 1 vm _ i λ key vm₁ i. take_slot C n _ 0 vm₁ _ i λ s vm₂ _ i.
      pay C n _ 0 _ vm₂ _ i λ paid i. pay_full C n _ 0 _ paid _ i λ paid₁ i.
        compute C n _ _ _ (has_key-Fails C s.item.value key)
          λ found. push_value-Inv C n 0 strong (cell (of_bool found)) paid₁ i

  -- A price that is not asked for when the value is cached.
  pub unless_cached-Inv :
      (cached : Bool) (by : _) (vm : Machine)
      → Inv C n 0 vm
      → Runs (Inv C n 0) (if cached then ok vm else incr_gas_full C by vm)
  unless_cached-Inv true by vm i = i
  unless_cached-Inv false by vm i = incr_gas_full-Inv C n 0 by vm i

  pub run_rem-Inv :
      (cached : Bool) (vm : Machine) → Inv C n 2 vm → Runs (Inv C n 0) (run_rem C cached vm)
  unfolding run_rem
  run_rem-Inv cached vm i = take_cell C n _ 1 vm _ i λ key vm₁ i.
      take_slot C n _ 0 vm₁ _ i λ s vm₂ r i. pay C n _ 0 _ vm₂ _ i λ paid i.
        Runs-bind (Inv C n 0) _ _ _ (unless_cached-Inv cached _ paid i) λ paid₁ i.
          Runs-bind (λ p. length p.0 ≡ n) _ _ _
            (visit-InRange n paid₁.cache (push_key s.origin key) i.1
              (push_key-InRange C n s.origin key r))
            λ visited kept. compute C n _ _ _ (check_cache-Fails cached visited.1) λ _.
              compute C n _ _ _ (removed-Fails C s.item.value key)
                λ v. (i.0, kept, (r, i.2), omega arith)
