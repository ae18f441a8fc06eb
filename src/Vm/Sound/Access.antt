-- ===== src/Vm/Sound/Access.antt =====
-- The instructions `idx` and `ins` (`Vm.Access`) keep the invariant of the machine and do not panic
-- on a stack of the height that they require.
use midnight_ledger.Prelude.{
  ℕ, zero, suc, ◌+◌, ◌*◌, ◌≡◌, Bool, true, false, ◌&&◌, not, List, [], ◌∷◌, if◌then◌else◌, Result,
  ok, err, map_err, length, arith, Bool-cases, inl, inr,
}
use midnight_ledger.MerkleTree.{MerkleTreeNode, height, try_update_hash}
use midnight_ledger.Fab.{AlignedValue, u8_of_value, u64_of_value, hash_of_value}
use midnight_ledger.Vm.{
  StateValue, null, cell, map, array, bounded_merkle_tree, VmValue, Key, value, stack, Stop, failed,
  type_error, merkle_tree_error, Config,
}
use midnight_ledger.Vm.Store.{as_cell, element_at, insert_at}
use midnight_ledger.Vm.Machine.{Cache, Slot, Machine, incr_gas_full, push_key}
use midnight_ledger.Vm.Access.{
  idx_value, idx_slot, found_element, past_tree, refine_path, pay_access, with_path, idx_step,
  idx_steps, run_idx, is_array, ins_leaf, ins_value, ins_step, ins_steps, run_ins,
}
use midnight_ledger.Vm.Run.{stack_keys}
use midnight_ledger.Vm.Sound.{
  Runs, Runs-bind, Fails, decoded-Fails, as_cell-Fails, Inv, InRange, Popped, pay, take_slot,
  compute, push_slot-Inv, push_key-InRange, visit-InRange, incr_gas_full-Inv,
}
use midnight_ledger.Vm.Sound.Containers.{ok_or-Fails, check_cache-Fails}

all_failed-Fails :
    {E A : Type 0} (m : Result E A) (f : E → _) → Fails (map_err (λ e. failed (f e)) m)
all_failed-Fails (ok a) f = tt
all_failed-Fails (err e) f = tt

as_type_error-Fails : {A : Type 0} (m : Result Stop A) → Fails (map_err (λ _. failed type_error) m)
as_type_error-Fails (ok a) = tt
as_type_error-Fails (err e) = tt

idx_value-Fails :
    (v : StateValue) (key : AlignedValue) (missed : Bool) → Fails (idx_value v key missed)
unfolding idx_value
idx_value-Fails null key missed = tt
idx_value-Fails (cell a) key missed = tt
idx_value-Fails (map m) key missed = ground arith
idx_value-Fails (array a) key missed =
    Runs-bind (λ _. Unit) (λ _. Unit) _ _ (decoded-Fails (u8_of_value key.value))
      λ i _.
        Runs-bind (λ _. Unit) (λ _. Unit) (found_element i (element_at a i)) _
          (ok_or-Fails (element_at a i) type_error) λ v _. ground arith
idx_value-Fails (bounded_merkle_tree t) key missed =
    Runs-bind (λ _. Unit) (λ _. Unit) _ _ (decoded-Fails (u64_of_value key.value))
      λ i _. ground arith

module _ (C : Config) where
  ins_leaf-Fails :
      (t : MerkleTreeNode (Unit {0})) (i : ℕ) (v : StateValue) → Fails (ins_leaf C t i v)
  unfolding ins_leaf
  ins_leaf-Fails t i v =
      Runs-bind (λ _. Unit) (λ _. Unit) _ _ (as_type_error-Fails (as_cell v))
        λ a _.
          Runs-bind (λ _. Unit) (λ _. Unit) _ _
            (all_failed-Fails (hash_of_value a.value) (λ _. type_error))
            λ hash _.
              Runs-bind (λ _. Unit) (λ _. Unit) _ _
                (all_failed-Fails (try_update_hash t i hash tt) merkle_tree_error) λ t' _. tt

  ins_value-Fails :
      (c : StateValue) (key : AlignedValue) (v : StateValue) → Fails (ins_value C c key v)
  unfolding ins_value
  ins_value-Fails null key v = tt
  ins_value-Fails (cell a) key v = tt
  ins_value-Fails (map m) key v = tt
  ins_value-Fails (array a) key v =
      Runs-bind (λ _. Unit) (λ _. Unit) _ _ (decoded-Fails (u8_of_value key.value))
        λ i _.
          Runs-bind (λ _. Unit) (λ _. Unit) _ _ (ok_or-Fails (insert_at a i v) type_error)
            λ a' _. tt
  ins_value-Fails (bounded_merkle_tree t) key v =
      Runs-bind (λ _. Unit) (λ _. Unit) _ _ (decoded-Fails (u64_of_value key.value))
        λ i _. elim (Bool-cases (past_tree (height t) i)) [
          | inl e ↦ rw e tt
          | inr e ↦ rw e (ins_leaf-Fails t i v)
        ]

module _ (C : Config) (n : ℕ) where
  unless_cached-Inv :
      (d : ℕ) (cached : Bool) (by : _) (vm : Machine)
      → Inv C n d vm
      → Runs (Inv C n d) (if cached then ok vm else incr_gas_full C by vm)
  unless_cached-Inv d true by vm i = i
  unless_cached-Inv d false by vm i = incr_gas_full-Inv C n d by vm i

  pay_access-Inv :
      (d : ℕ) (coeffs : ℕ × ℕ × ℕ) (container key : StateValue) (cached : Bool) (vm : Machine)
      → Inv C n d vm
      → Runs (Inv C n d) (pay_access C coeffs container key cached vm)
  unfolding pay_access
  pay_access-Inv d coeffs container key cached vm i =
      pay C n _ d _ vm _ i λ paid i. unless_cached-Inv d cached _ paid i

  idx_slot-InRange :
      (s : Slot) (key : AlignedValue) (cache : Cache) (cached : Bool)
      → length cache ≡ n
      → InRange n s.origin
      → Runs (λ p. InRange n p.0.origin × (length p.1 ≡ n)) (idx_slot s key cache cached)
  unfolding idx_slot
  idx_slot-InRange s key cache cached e r =
      let at = push_key-InRange C n s.origin key r in
      Runs-bind (λ p. length p.0 ≡ n) _ _ _ (visit-InRange n cache (push_key s.origin key) e at)
        λ visited kept.
          compute C n _ _ _ (idx_value-Fails s.item.value key (cached && not visited.1))
            λ v. (at, kept)

  -- The path's keys are popped, which leaves the height for the value.
  refine_path-Inv :
      (path : List Key) (d : ℕ) (vm : Machine)
      → Inv C n (stack_keys path + d) vm
      → Runs (λ p. Inv C n d p.1) (refine_path path vm)
  unfolding refine_path
  refine_path-Inv [] d vm i = (i.0, i.1, i.2, omega (arith, i.3))
  refine_path-Inv (stack ∷ path) d vm i =
      take_slot C n _ (stack_keys path + d) vm _ (i.0, i.1, i.2, omega (arith, i.3))
        λ s vm₁ _ i. Runs-bind (λ p. Inv C n d p.1) _ _ _ (refine_path-Inv path d vm₁ i) λ out i. i
  refine_path-Inv (value v ∷ path) d vm i =
      Runs-bind (λ p. Inv C n d p.1) _ _ _ (refine_path-Inv path d vm i) λ out i. i

  with_path-Inv :
      (push_path : Bool) (curr : Slot) (key : VmValue) (vm : Machine)
      → InRange n curr.origin
      → Inv C n 0 vm
      → Inv C n 0 (with_path push_path curr key vm)
  with_path-Inv true curr key vm r i = (i.0, i.1, (tt, (r, i.2)), omega arith)
  with_path-Inv false curr key vm r i = i

  idx_step-Inv :
      (cached push_path : Bool) (curr : Slot) (key : VmValue) (vm : Machine)
      → InRange n curr.origin
      → Inv C n 0 vm
      → Runs (Popped C n 0) (idx_step C cached push_path curr key vm)
  unfolding idx_step
  idx_step-Inv cached push_path curr key vm r i =
      Runs-bind (Inv C n 0) _ _ _ (pay_access-Inv 0 _ curr.item.value key.value cached vm i)
        λ paid i. compute C n _ _ _ (as_cell-Fails key.value) λ key_val.
          let pushed = with_path push_path curr key paid in
          let i = with_path-Inv push_path curr key paid r i in
          Runs-bind (λ p. InRange n p.0.origin × (length p.1 ≡ n)) (Popped C n 0) _ _
            (idx_slot-InRange curr key_val pushed.cache cached i.1 r)
            λ found h.
              Runs-bind (Inv C n 0) (Popped C n 0) _ _
                (unless_cached-Inv 0 cached _ (record pushed { cache = found.1 })
                  (i.0, h.1, i.2, i.3))
                λ done i. (h.0, i)

  idx_steps-Inv :
      (cached push_path : Bool) (curr : Slot) (keys : List VmValue) (vm : Machine)
      → InRange n curr.origin
      → Inv C n 0 vm
      → Runs (Popped C n 0) (idx_steps C cached push_path curr keys vm)
  unfolding idx_steps
  idx_steps-Inv cached push_path curr [] vm r i = (r, i)
  idx_steps-Inv cached push_path curr (key ∷ keys) vm r i =
      Runs-bind (Popped C n 0) _ _ _ (idx_step-Inv cached push_path curr key vm r i)
        λ out h. idx_steps-Inv cached push_path out.0 keys out.1 h.0 h.1

  pub run_idx-Inv :
      (cached push_path : Bool) (path : List Key) (vm : Machine)
      → Inv C n (stack_keys path + 1) vm
      → Runs (Inv C n 0) (run_idx C cached push_path path vm)
  unfolding run_idx
  run_idx-Inv cached push_path path vm i =
      Runs-bind (λ p. Inv C n 1 p.1) _ _ _ (refine_path-Inv path 1 vm i)
        λ refined i. take_slot C n _ 0 refined.1 _ i λ curr vm₂ r i.
          Runs-bind (Popped C n 0) _ _ _ (idx_steps-Inv cached push_path curr refined.0 vm₂ r i)
            λ out h. push_slot-Inv C n 0 out.0 out.1 h.0 h.1

  ins_step-Inv :
      (d : ℕ) (cached : Bool) (curr : Slot) (vm : Machine)
      → Inv C n (d + 2) vm
      → Runs (Popped C n d) (ins_step C cached curr vm)
  unfolding ins_step
  ins_step-Inv d cached curr vm i =
      take_slot C n _ (suc d) vm _ (i.0, i.1, i.2, omega (arith, i.3))
        λ key vm₁ _ i. take_slot C n _ d vm₁ _ i λ container vm₂ r i.
          Runs-bind (Inv C n d) _ _ _
            (pay_access-Inv d _ container.item.value key.item.value cached vm₂ i)
            λ paid i. compute C n _ _ _ (as_cell-Fails key.item.value) λ key_cell.
              Runs-bind (λ p. length p.0 ≡ n) (Popped C n d) _ _
                (visit-InRange n paid.cache (push_key container.origin key_cell) i.1
                  (push_key-InRange C n container.origin key_cell r))
                λ visited kept.
                  compute C n _ _ _
                    (check_cache-Fails (cached && not (is_array C container.item.value)) visited.1)
                    λ _.
                      compute C n _ _ _
                        (ins_value-Fails C container.item.value key_cell curr.item.value)
                        λ next. (r, (i.0, kept, i.2, i.3))

  ins_steps-Inv :
      (cached : Bool) (m : ℕ) (curr : Slot) (vm : Machine)
      → InRange n curr.origin
      → Inv C n (m * 2) vm
      → Runs (Popped C n 0) (ins_steps C cached m curr vm)
  unfolding ins_steps
  ins_steps-Inv cached zero curr vm r i = (r, (i.0, i.1, i.2, omega arith))
  ins_steps-Inv cached (suc m) curr vm r i =
      Runs-bind (Popped C n (m * 2)) _ _ _
        (ins_step-Inv (m * 2) cached curr vm (i.0, i.1, i.2, omega (arith, i.3)))
        λ out h. ins_steps-Inv cached m out.0 out.1 h.0 h.1

  pub run_ins-Inv :
      (cached : Bool) (m : ℕ) (vm : Machine)
      → Inv C n (m * 2 + 1) vm
      → Runs (Inv C n 0) (run_ins C cached m vm)
  unfolding run_ins
  run_ins-Inv cached m vm i =
      take_slot C n _ (m * 2) vm _ (i.0, i.1, i.2, omega (arith, i.3))
        λ curr vm₁ r i.
          Runs-bind (Popped C n 0) _ _ _ (ins_steps-Inv cached m curr vm₁ r i)
            λ out h. push_slot-Inv C n 0 out.0 out.1 h.0 h.1
