-- ===== src/Vm/Containers.antt =====
-- The instructions on containers, on types and on events (the arms of `run_program_internal` of
-- onchain-vm/src/vm.rs). `Vm.Access` has `idx` and `ins`.
use midnight_ledger.Prelude.{
  ℕ, zero, suc, ◌+◌, ◌-◌, ◌*◌, ◌/◌, ◌%◌, ◌^◌, Bool, true, false, ◌&&◌, not, Option, none, some,
  List, [], ◌∷◌, ltb, ◌==◌, if◌then◌else◌, Result, ok, err, ◌>>=◌, ok_or, map_err, is_some, sum,
}
use midnight_ledger.Prelude
use midnight_ledger.Cost.{RunningCost, add_u64, mul_u64, zero_running}
use midnight_ledger.MerkleTree.{blank, height, root, rehash, try_update_hash}
use midnight_ledger.Fab
use midnight_ledger.Fab.{
  AlignedValue, u8_of_value, u64_of_value, of_u64, of_u8, of_bool, of_digest, of_unit,
}
use midnight_ledger.Fab.Size.{serialized_size}
use midnight_ledger.Vm.{
  StateValue, null, cell, map, array, bounded_merkle_tree, no_entries, strong, Stop, failed, fail,
  type_error, invalid_args, log_bound_exceeded, cache_miss, merkle_tree_error, Config,
}
use midnight_ledger.Vm.Costs.{read_map, read_bmt}
use midnight_ledger.Vm.Store.{get, remove, size, len, nulls, log_size, decoded}
use midnight_ledger.Vm.Machine.{
  Machine, incr_gas, incr_gas_full, pop_slot, pop_cell, push_slot, push_value, push_cell, push_key,
  visit,
}

-- The largest argument of `log`, in bytes.
abbrev pub max_log_size : ℕ
max_log_size = 2 ^ 19

-- A passed cache check.
abbrev pub check_cache : Bool → Bool → Result Stop (Unit {0})
check_cache cached hit = if cached && not hit then fail cache_miss else ok tt

-- A price with a constant part, one for the size of a key and one for that of a container.
abbrev pub sized : ℕ → ℕ → ℕ → ℕ → ℕ → ℕ
sized constant key_coeff key_size log_coeff log =
    add_u64 (add_u64 constant (mul_u64 key_coeff key_size)) (mul_u64 log_coeff log)

module _ (C : Config) where
  -- The type tag of a value with its price. The heights of trees are at most 32.
  unfoldable pub type_of : StateValue → Result Stop (ℕ × ℕ)
  type_of (cell _) = ok (0, C.cost_model.type_cell)
  type_of null = ok (1, C.cost_model.type_null)
  type_of (map _) = ok (2, C.cost_model.type_map)
  type_of (array a) =
      if ltb 16 (len a) then fail type_error else ok (3 + len a * 8, C.cost_model.type_array)
  type_of (bounded_merkle_tree t) = ok ((4 + (height t - 1) * 8) % 2 ^ 8, C.cost_model.type_bmt)

  unfoldable pub run_type : Machine → Result Stop Machine
  unfolding incr_gas pop_slot type_of
  run_type vm = do
    (s, vm₁) ← pop_slot vm
    (ty, price) ← type_of s.item.value
    paid ← incr_gas C price vm₁
    ok (push_cell (of_u8 ty) paid)

  unfoldable pub size_of : StateValue → Result Stop (ℕ × ℕ)
  size_of (map m) = ok (size m, C.cost_model.size_map)
  size_of (bounded_merkle_tree t) = ok (height t, C.cost_model.size_bmt)
  size_of (array a) = ok (len a, C.cost_model.size_array)
  size_of _ = fail type_error

  unfoldable pub run_size : Machine → Result Stop Machine
  unfolding incr_gas pop_slot size_of
  run_size vm = do
    (s, vm₁) ← pop_slot vm
    (n, price) ← size_of s.item.value
    paid ← incr_gas C price vm₁
    ok (push_cell (of_u64 n) paid)

  -- The type tag is in the lower three bits, the size in the upper five.
  unfoldable pub run_new_array : ℕ → Machine → Result Stop Machine
  unfolding incr_gas nulls
  run_new_array n vm = do
    paid ← incr_gas C C.cost_model.new_array vm
    if ltb 16 n then fail invalid_args else ok (push_value strong (array (nulls n)) paid)

  abbrev pub pay_and_push : ℕ → StateValue → Machine → Result Stop Machine
  pay_and_push price v vm = do paid ← incr_gas C price vm; ok (push_value strong v paid)

  unfoldable pub new_of : ℕ → Machine → Result Stop Machine
  unfolding incr_gas run_new_array
  new_of tag vm =
      let kind = tag % 8 in
      if kind == 0
      then pay_and_push C.cost_model.new_cell (cell of_unit) vm
      else if kind == 1
      then pay_and_push C.cost_model.new_null null vm
      else if kind == 2
      then pay_and_push C.cost_model.new_map (map no_entries) vm
      else if kind == 3
      then run_new_array (tag / 8) vm
      else if kind == 4
      then pay_and_push C.cost_model.new_bmt (bounded_merkle_tree (blank (tag / 8 + 1))) vm
      else fail invalid_args

  unfoldable pub run_new : Machine → Result Stop Machine
  unfolding pop_cell new_of Fab.single Fab.int_of_atom
  run_new vm = do (a, vm₁) ← pop_cell vm; tag ← decoded (u8_of_value a.value); new_of tag vm₁

  unfoldable pub log_price : StateValue → ℕ → ℕ
  log_price null n =
      add_u64 C.cost_model.log_null_constant (mul_u64 C.cost_model.log_null_coeff_value_size n)
  log_price (cell _) n =
      add_u64 C.cost_model.log_cell_constant (mul_u64 C.cost_model.log_cell_coeff_value_size n)
  log_price (map _) n =
      add_u64 C.cost_model.log_map_constant (mul_u64 C.cost_model.log_map_coeff_value_size n)
  log_price (bounded_merkle_tree _) n =
      add_u64 C.cost_model.log_bmt_constant (mul_u64 C.cost_model.log_bmt_coeff_value_size n)
  log_price (array _) n =
      add_u64 C.cost_model.log_array_constant (mul_u64 C.cost_model.log_array_coeff_value_size n)

  -- The whole log counts as written and as deleted. The value is returned as the event.
  unfoldable pub run_log : Machine → Result Stop (StateValue × Machine)
  unfolding incr_gas incr_gas_full pop_slot log_price
  run_log vm = do
    (s, vm₁) ← pop_slot vm
    nodes ←
        ok_or (C.outside.serialize_to_node_list_bounded s.item.value max_log_size)
          (failed log_bound_exceeded)
    let n = sum (Prelude.map (λ data_len. 32 + data_len) nodes)
    paid ← incr_gas C (log_price s.item.value n) vm₁
    churned ←
        incr_gas_full C
          (record { read_time = 0; compute_time = 0; bytes_written = n; bytes_deleted = n }) paid
    ok (s.item.value, churned)

  abbrev pub root_of : StateValue → Result Stop ℕ
  root_of (bounded_merkle_tree t) = ok_or (root C.outside.hashing t) (failed type_error)
  root_of _ = fail type_error

  unfoldable pub run_root : Machine → Result Stop Machine
  unfolding incr_gas pop_slot root
  run_root vm = do
    paid ← incr_gas C C.cost_model.root vm
    (s, vm₁) ← pop_slot paid
    r ← root_of s.item.value
    ok (push_cell (of_digest r) vm₁)

  -- The value read is returned, to be compared or recorded.
  unfoldable pub run_popeq : Machine → Result Stop (AlignedValue × Machine)
  unfolding incr_gas pop_cell serialized_size
  run_popeq vm = do
    paid ← incr_gas C C.cost_model.popeq_constant vm
    (a, vm₁) ← pop_cell paid
    paid₁ ← incr_gas C (mul_u64 C.cost_model.popeq_coeff_value_size (serialized_size a)) vm₁
    ok (a, paid₁)

  abbrev pub has_key : StateValue → AlignedValue → Result Stop Bool
  has_key (map m) k = ok (is_some (get k m))
  has_key _ k = fail type_error

  unfoldable pub run_member : Machine → Result Stop Machine
  unfolding incr_gas incr_gas_full pop_cell pop_slot serialized_size log_size read_map get
  run_member vm = do
    (key, vm₁) ← pop_cell vm
    (s, vm₂) ← pop_slot vm₁
    let v = s.item.value
    paid ←
        incr_gas C
          (sized C.cost_model.member_constant C.cost_model.member_coeff_key_size
            (serialized_size key) C.cost_model.member_coeff_container_log_size (log_size v))
          vm₂
    paid₁ ← incr_gas_full C (read_map C.cost_model (log_size v) true) paid
    found ← has_key v key
    ok (push_cell (of_bool found) paid₁)

  abbrev pub rem_price : StateValue → AlignedValue → ℕ
  rem_price (map m) key =
      sized C.cost_model.rem_map_constant C.cost_model.rem_map_coeff_key_size (serialized_size key)
        C.cost_model.rem_map_coeff_container_log_size (log_size (map m))
  rem_price (bounded_merkle_tree t) key =
      add_u64 C.cost_model.rem_bmt_constant
        (mul_u64 C.cost_model.rem_bmt_coeff_container_log_size (height t))
  rem_price _ key = 0

  -- What reading a container costs, if it is one that `rem` accepts.
  abbrev pub read_keyed : StateValue → RunningCost
  read_keyed (map m) = read_map C.cost_model (log_size (map m)) true
  read_keyed (bounded_merkle_tree t) = read_bmt C.cost_model C.outside.fr_bytes (height t) true
  read_keyed _ = zero_running

  -- A Merkle tree is written with the default hash.
  unfoldable pub removed : StateValue → AlignedValue → Result Stop StateValue
  unfolding remove try_update_hash rehash Fab.single Fab.int_of_atom
  removed (map m) key = ok (map (remove key m))
  removed (bounded_merkle_tree t) key = do
    i ← decoded (u64_of_value key.value)
    t' ← map_err (λ e. failed (merkle_tree_error e)) (try_update_hash t i 0 tt)
    ok (bounded_merkle_tree (rehash C.outside.hashing t'))
  removed _ key = fail type_error

  unfoldable pub run_rem : Bool → Machine → Result Stop Machine
  unfolding incr_gas incr_gas_full pop_cell pop_slot serialized_size log_size read_map read_bmt
      visit push_key removed
  run_rem cached vm = do
    (key, vm₁) ← pop_cell vm
    (s, vm₂) ← pop_slot vm₁
    paid ← incr_gas C (rem_price s.item.value key) vm₂
    paid₁ ← (if cached then ok paid else incr_gas_full C (read_keyed s.item.value) paid)
    (cache, hit) ← visit paid₁.cache (push_key s.origin key)
    _ ← check_cache cached hit
    v ← removed s.item.value key
    ok (
        push_slot
          (record { item = record { strength = s.item.strength; value = v }; origin = s.origin })
          (record paid₁ { cache = cache }))
