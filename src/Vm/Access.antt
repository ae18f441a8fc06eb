-- ===== src/Vm/Access.antt =====
-- The instructions `idx` and `ins` (the helper `idx` and two arms of `run_program_internal` of
-- onchain-vm/src/vm.rs): reading and writing along a path of keys, with their prices.
use midnight_ledger.Prelude.{
  ℕ, zero, suc, ◌^◌, Bool, true, false, ◌&&◌, not, Option, none, some, List, [], ◌∷◌, ltb, leb,
  if◌then◌else◌, Result, ok, ◌>>=◌, ok_or, map_err,
}
use midnight_ledger.Cost.{RunningCost}
use midnight_ledger.MerkleTree.{MerkleTreeNode, height, index, rehash, try_update_hash}
use midnight_ledger.Fab
use midnight_ledger.Fab.{AlignedValue, u8_of_value, u64_of_value, hash_of_value, of_hash}
use midnight_ledger.Vm.{
  StateValue, null, cell, map, array, bounded_merkle_tree, VmValue, weak, Key, value, stack, Stop,
  failed, fail, type_error, missing_key, cache_miss, bounds_exceeded, merkle_tree_error, Config,
}
use midnight_ledger.Vm.Costs.{read_array, read_cell}
use midnight_ledger.Vm.Store.{
  get, insert, element_at, insert_at, log_size, as_cell, decoded, both_strengths,
}
use midnight_ledger.Vm.Machine.{
  Cache, Slot, Machine, incr_gas, incr_gas_full, pop_slot, push_slot, push_key, visit,
}
use midnight_ledger.Vm.Containers.{check_cache, sized, read_keyed}

abbrev pub value_or_null : Option StateValue → StateValue
value_or_null none = null
value_or_null (some v) = v

-- `1u64.checked_shl(height)` is a bound that the key reaches.
abbrev pub past_tree : ℕ → ℕ → Bool
past_tree h key = ltb h 64 && leb (2 ^ h) key

-- The element of an index.
abbrev pub found_element : ℕ → Option StateValue → Result Stop StateValue
found_element i found = ok_or found (failed type_error)

-- The value under a key, given whether the cache check of arrays and maps fails.
unfoldable pub idx_value : StateValue → AlignedValue → Bool → Result Stop StateValue
unfolding element_at get index Fab.single Fab.int_of_atom
idx_value (array a) key missed = do
  i ← decoded (u8_of_value key.value)
  v ← found_element i (element_at a i)
  if missed then fail cache_miss else ok v
idx_value (map m) key missed = if missed then fail cache_miss else ok (value_or_null (get key m))
idx_value (bounded_merkle_tree t) key missed = do
  i ← decoded (u64_of_value key.value)
  if past_tree (height t) i
      then fail missing_key
      else elim (index t i) [ none ↦ ok null | some (hash, _) ↦ ok (cell (of_hash hash)) ]
idx_value _ key missed = fail type_error

-- The program's `idx`: the slot of the value, with the cache after the visit.
unfoldable pub idx_slot : Slot → AlignedValue → Cache → Bool → Result Stop (Slot × Cache)
unfolding push_key visit idx_value
idx_slot s key cache cached = do
  (cache', found) ← visit cache (push_key s.origin key)
  v ← idx_value s.item.value key (cached && not found)
  ok (
    record {
      item = record { strength = s.item.strength; value = v };
      origin = push_key s.origin key;
    },
    cache',
  )

-- The keys of the path, those on the stack popped in its order.
unfoldable pub refine_path : List Key → Machine → Result Stop (List VmValue × Machine)
unfolding pop_slot
refine_path [] vm = ok ([], vm)
refine_path (stack ∷ path) vm = do
  (s, vm₁) ← pop_slot vm
  (keys, vm₂) ← refine_path path vm₁
  ok (s.item ∷ keys, vm₂)
refine_path (value v ∷ path) vm = do
  (keys, vm₁) ← refine_path path vm
  ok (record { strength = weak; value = cell v } ∷ keys, vm₁)

-- The values of a path that is pushed: the container, then the key.
abbrev pub with_path : Bool → Slot → VmValue → Machine → Machine
with_path push_path curr key vm =
    if push_path then push_slot (record { item = key; origin = none }) (push_slot curr vm) else vm

module _ (C : Config) where
  -- The parts of the price of a step of `idx`: constant, for the key's size, for the container's.
  unfoldable pub idx_coeffs : StateValue → Bool → Bool → ℕ × ℕ × ℕ
  idx_coeffs (map _) true true =
      let c = C.cost_model in
      (c.idxpc_map_constant, c.idxpc_map_coeff_key_size, c.idxpc_map_coeff_container_log_size)
  idx_coeffs (map _) true false =
      let c = C.cost_model in
      (c.idxc_map_constant, c.idxc_map_coeff_key_size, c.idxc_map_coeff_container_log_size)
  idx_coeffs (map _) false true =
      let c = C.cost_model in
      (c.idxp_map_constant, c.idxp_map_coeff_key_size, c.idxp_map_coeff_container_log_size)
  idx_coeffs (map _) false false =
      let c = C.cost_model in
      (c.idx_map_constant, c.idx_map_coeff_key_size, c.idx_map_coeff_container_log_size)
  idx_coeffs (bounded_merkle_tree _) true true =
      let c = C.cost_model in
      (c.idxpc_bmt_constant, c.idxpc_bmt_coeff_key_size, c.idxpc_bmt_coeff_container_log_size)
  idx_coeffs (bounded_merkle_tree _) true false =
      let c = C.cost_model in
      (c.idxc_bmt_constant, c.idxc_bmt_coeff_key_size, c.idxc_bmt_coeff_container_log_size)
  idx_coeffs (bounded_merkle_tree _) false true =
      let c = C.cost_model in
      (c.idxp_bmt_constant, c.idxp_bmt_coeff_key_size, c.idxp_bmt_coeff_container_log_size)
  idx_coeffs (bounded_merkle_tree _) false false =
      let c = C.cost_model in
      (c.idx_bmt_constant, c.idx_bmt_coeff_key_size, c.idx_bmt_coeff_container_log_size)
  idx_coeffs (array _) true true = (C.cost_model.idxpc_array, 0, 0)
  idx_coeffs (array _) true false = (C.cost_model.idxc_array, 0, 0)
  idx_coeffs (array _) false true = (C.cost_model.idxp_array, 0, 0)
  idx_coeffs (array _) false false = (C.cost_model.idx_array, 0, 0)
  idx_coeffs _ _ _ = (0, 0, 0)

  unfoldable pub ins_coeffs : StateValue → Bool → ℕ × ℕ × ℕ
  ins_coeffs (map _) false =
      let c = C.cost_model in
      (c.ins_map_constant, c.ins_map_coeff_key_size, c.ins_map_coeff_container_log_size)
  ins_coeffs (bounded_merkle_tree _) false =
      let c = C.cost_model in
      (c.ins_bmt_constant, c.ins_bmt_coeff_key_size, c.ins_bmt_coeff_container_log_size)
  ins_coeffs (array _) false = (C.cost_model.ins_array, 0, 0)
  ins_coeffs (map _) true =
      let c = C.cost_model in
      (c.insc_map_constant, c.insc_map_coeff_key_size, c.insc_map_coeff_container_log_size)
  ins_coeffs (bounded_merkle_tree _) true =
      let c = C.cost_model in
      (c.insc_bmt_constant, c.insc_bmt_coeff_key_size, c.insc_bmt_coeff_container_log_size)
  ins_coeffs (array _) true = (C.cost_model.insc_array, 0, 0)
  ins_coeffs _ _ = (0, 0, 0)

  -- What reading a container costs, arrays included.
  abbrev pub read_container : StateValue → RunningCost
  read_container (array _) = read_array C.cost_model true
  read_container v = read_keyed C v

  -- The price of a step of `idx` or `ins`, then that of reading the container unless it is cached.
  unfoldable pub pay_access :
      ℕ × ℕ × ℕ → StateValue → StateValue → Bool → Machine → Result Stop Machine
  unfolding incr_gas incr_gas_full log_size read_array
  pay_access coeffs container key cached vm = do
    paid ←
        incr_gas C
          (sized coeffs.0 coeffs.1 (C.outside.state_value_size key) coeffs.2 (log_size container))
          vm
    if cached then ok paid else incr_gas_full C (read_container container) paid

  -- The size of the value read; any value but a cell stands for one block.
  abbrev pub read_size : StateValue → ℕ
  read_size (cell a) = C.outside.stored_cell_size a
  read_size _ = 1024

  -- One step of `idx` with its key, from the current value.
  unfoldable pub idx_step : Bool → Bool → Slot → VmValue → Machine → Result Stop (Slot × Machine)
  unfolding incr_gas_full pay_access idx_coeffs idx_slot as_cell read_cell
  idx_step cached push_path curr key vm = do
    paid ←
        pay_access (idx_coeffs curr.item.value cached push_path) curr.item.value key.value cached vm
    let pushed = with_path push_path curr key paid
    key_val ← as_cell key.value
    (next, cache) ← idx_slot curr key_val pushed.cache cached
    done ←
        (if cached
          then ok (record pushed { cache = cache })
          else incr_gas_full C (read_cell C.cost_model (read_size next.item.value) true)
              (record pushed { cache = cache }))
    ok (next, done)

  unfoldable pub idx_steps :
      Bool → Bool → Slot → List VmValue → Machine → Result Stop (Slot × Machine)
  unfolding idx_step
  idx_steps cached push_path curr [] vm = ok (curr, vm)
  idx_steps cached push_path curr (key ∷ keys) vm = do
    (next, vm₁) ← idx_step cached push_path curr key vm
    idx_steps cached push_path next keys vm₁

  unfoldable pub run_idx : Bool → Bool → List Key → Machine → Result Stop Machine
  unfolding refine_path pop_slot idx_steps
  run_idx cached push_path path vm = do
    (keys, vm₁) ← refine_path path vm
    (curr, vm₂) ← pop_slot vm₁
    (out, vm₃) ← idx_steps cached push_path curr keys vm₂
    ok (push_slot out vm₃)

  abbrev pub is_array : StateValue → Bool
  is_array (array _) = true
  is_array _ = false

  -- A leaf of a Merkle tree set to the hash in a cell. Failures to read it are type errors.
  unfoldable pub ins_leaf : MerkleTreeNode (Unit {0}) → ℕ → StateValue → Result Stop StateValue
  unfolding as_cell try_update_hash rehash Fab.single Fab.hash_of_atom
  ins_leaf t i v = do
    a ← map_err (λ _. failed type_error) (as_cell v)
    hash ← map_err (λ _. failed type_error) (hash_of_value a.value)
    t' ← map_err (λ e. failed (merkle_tree_error e)) (try_update_hash t i hash tt)
    ok (bounded_merkle_tree (rehash C.outside.hashing t'))

  -- The container with the value under the key.
  unfoldable pub ins_value : StateValue → AlignedValue → StateValue → Result Stop StateValue
  unfolding insert_at insert ins_leaf Fab.single Fab.int_of_atom
  ins_value (array a) key v = do
    i ← decoded (u8_of_value key.value)
    a' ← ok_or (insert_at a i v) (failed type_error)
    ok (array a')
  ins_value (map m) key v = ok (map (insert key v m))
  ins_value (bounded_merkle_tree t) key v = do
    i ← decoded (u64_of_value key.value)
    if past_tree (height t) i then fail bounds_exceeded else ins_leaf t i v
  ins_value _ key v = fail type_error

  -- One round of `ins`, with the value to be put. An array need not be cached, since it is not read.
  unfoldable pub ins_step : Bool → Slot → Machine → Result Stop (Slot × Machine)
  unfolding pop_slot pay_access ins_coeffs as_cell push_key visit ins_value both_strengths
  ins_step cached curr vm = do
    (key, vm₁) ← pop_slot vm
    (container, vm₂) ← pop_slot vm₁
    let v = container.item.value
    paid ← pay_access (ins_coeffs v cached) v key.item.value cached vm₂
    key_cell ← as_cell key.item.value
    (cache, hit) ← visit paid.cache (push_key container.origin key_cell)
    _ ← check_cache (cached && not (is_array v)) hit
    next ← ins_value v key_cell curr.item.value
    ok (
      record {
        item = record {
          strength = both_strengths curr.item.strength container.item.strength;
          value = next;
        };
        origin = container.origin;
      },
      record paid { cache = cache },
    )

  unfoldable pub ins_steps : Bool → ℕ → Slot → Machine → Result Stop (Slot × Machine)
  unfolding ins_step
  ins_steps cached zero curr vm = ok (curr, vm)
  ins_steps cached (suc n) curr vm = do
    (next, vm₁) ← ins_step cached curr vm
    ins_steps cached n next vm₁

  unfoldable pub run_ins : Bool → ℕ → Machine → Result Stop Machine
  unfolding pop_slot ins_steps
  run_ins cached n vm = do
    (curr, vm₁) ← pop_slot vm
    (out, vm₂) ← ins_steps cached n curr vm₁
    ok (push_slot out vm₂)
