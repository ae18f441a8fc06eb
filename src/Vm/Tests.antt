-- ===== src/Vm/Tests.antt =====
-- Witnesses of the properties of the virtual machine, and runs of small programs.
use midnight_ledger.Prelude.{
  ◌+◌, ◌≡◌, ◌≢◌, ◌≤◌, refl, false, none, some, List, [], ◌∷◌, map, ok, err, length, max,
}
use midnight_ledger.Cost.{RunningCost}
use midnight_ledger.MerkleTree.{Hashing}
use midnight_ledger.Fab.{AlignedValue, of_u64, of_u8}
use midnight_ledger.Vm
use midnight_ledger.Vm.{
  StateValue, null, cell, array, element, no_elements, VmValue, strong, Op, Stop, panicked,
  out_of_fuel, Outside, Config,
}
use midnight_ledger.Vm.Costs.{CostModel}
use midnight_ledger.Vm.Machine.{over_limit}
use midnight_ledger.Vm.Run.{
  verify, gather, GatherEvent, VmResults, max_stack_height, run_program_step_limited,
}
use midnight_ledger.Vm.Access.{ins_value, idx_value}
use midnight_ledger.Vm.Programs.{
  run_program_step_limited-stops, run_program_step_limited-no_panic,
  run_program_step_limited-bounds,
}
use midnight_ledger.Vm.Modes.{erase, logs, verify-gather}
use midnight_ledger.Vm.Contents.{ins_value-idx_value}
use midnight_ledger.Fab.{of_bool}

-- Every price is one.
abbrev pub prices : CostModel
prices = record {
  noop_constant = 1;
  noop_coeff_arg = 1;
  lt = 1;
  eq = 1;
  type_null = 1;
  type_cell = 1;
  type_map = 1;
  type_bmt = 1;
  type_array = 1;
  size_map = 1;
  size_bmt = 1;
  size_array = 1;
  new_null = 1;
  new_cell = 1;
  new_map = 1;
  new_bmt = 1;
  new_array = 1;
  and = 1;
  or = 1;
  neg = 1;
  log_null_constant = 1;
  log_null_coeff_value_size = 1;
  log_cell_constant = 1;
  log_cell_coeff_value_size = 1;
  log_map_constant = 1;
  log_map_coeff_value_size = 1;
  log_bmt_constant = 1;
  log_bmt_coeff_value_size = 1;
  log_array_constant = 1;
  log_array_coeff_value_size = 1;
  root = 1;
  pop = 1;
  popeq_constant = 1;
  popeq_coeff_value_size = 1;
  popeqc_constant = 1;
  popeqc_coeff_value_size = 1;
  addi = 1;
  subi = 1;
  push_null = 1;
  push_cell = 1;
  push_map = 1;
  push_bmt = 1;
  push_array = 1;
  pushs_null = 1;
  pushs_cell = 1;
  pushs_map = 1;
  pushs_bmt = 1;
  pushs_array = 1;
  branch_constant = 1;
  branch_coeff_arg = 1;
  jmp_constant = 1;
  jmp_coeff_arg = 1;
  add = 1;
  sub = 1;
  concat_constant = 1;
  concat_coeff_total_size = 1;
  concatc_constant = 1;
  concatc_coeff_total_size = 1;
  member_constant = 1;
  member_coeff_key_size = 1;
  member_coeff_container_log_size = 1;
  rem_map_constant = 1;
  rem_map_coeff_key_size = 1;
  rem_map_coeff_container_log_size = 1;
  rem_bmt_constant = 1;
  rem_bmt_coeff_key_size = 1;
  rem_bmt_coeff_container_log_size = 1;
  remc_map_constant = 1;
  remc_map_coeff_key_size = 1;
  remc_map_coeff_container_log_size = 1;
  remc_bmt_constant = 1;
  remc_bmt_coeff_key_size = 1;
  remc_bmt_coeff_container_log_size = 1;
  dup_constant = 1;
  dup_coeff_arg = 1;
  swap_constant = 1;
  swap_coeff_arg = 1;
  idx_map_constant = 1;
  idx_map_coeff_key_size = 1;
  idx_map_coeff_container_log_size = 1;
  idx_bmt_constant = 1;
  idx_bmt_coeff_key_size = 1;
  idx_bmt_coeff_container_log_size = 1;
  idx_array = 1;
  idxp_map_constant = 1;
  idxp_map_coeff_key_size = 1;
  idxp_map_coeff_container_log_size = 1;
  idxp_bmt_constant = 1;
  idxp_bmt_coeff_key_size = 1;
  idxp_bmt_coeff_container_log_size = 1;
  idxp_array = 1;
  idxc_map_constant = 1;
  idxc_map_coeff_key_size = 1;
  idxc_map_coeff_container_log_size = 1;
  idxc_bmt_constant = 1;
  idxc_bmt_coeff_key_size = 1;
  idxc_bmt_coeff_container_log_size = 1;
  idxc_array = 1;
  idxpc_map_constant = 1;
  idxpc_map_coeff_key_size = 1;
  idxpc_map_coeff_container_log_size = 1;
  idxpc_bmt_constant = 1;
  idxpc_bmt_coeff_key_size = 1;
  idxpc_bmt_coeff_container_log_size = 1;
  idxpc_array = 1;
  ins_map_constant = 1;
  ins_map_coeff_key_size = 1;
  ins_map_coeff_container_log_size = 1;
  ins_bmt_constant = 1;
  ins_bmt_coeff_key_size = 1;
  ins_bmt_coeff_container_log_size = 1;
  ins_array = 1;
  insc_map_constant = 1;
  insc_map_coeff_key_size = 1;
  insc_map_coeff_container_log_size = 1;
  insc_bmt_constant = 1;
  insc_bmt_coeff_key_size = 1;
  insc_bmt_coeff_container_log_size = 1;
  insc_array = 1;
  ckpt = 1;
  signature_verify_constant = 1;
  signature_verify_coeff_size = 1;
  pedersen_valid = 1;
  verifier_key_load = 1;
  proof_verify_constant = 1;
  proof_verify_coeff_size = 1;
  hash_to_curve = 1;
  ec_add = 1;
  ec_mul = 1;
  transient_hash = 1;
  get_writes_constant = 1;
  get_writes_coeff_keys_added_size = 1;
  update_rcmap_constant = 1;
  update_rcmap_coeff_keys_added_size = 1;
  gc_rcmap_constant = 1;
  gc_rcmap_coeff_keys_removed_size = 1;
  read_time_batched_4k = 1;
  read_time_synchronous_4k = 1;
}

abbrev hashing : Hashing
hashing = record { degrade_to_transient = λ h. h; transient_hash = λ a b. a + b }

abbrev pub outside : Outside
outside = record {
  hashing = hashing;
  fr_bytes = 32;
  state_value_size = λ _. 4;
  stored_cell_size = λ _. 4;
  serialize_to_node_list_bounded = λ _ bound. some (4 ∷ []);
}

abbrev limit : RunningCost
limit = record { read_time = 100; compute_time = 100; bytes_written = 0; bytes_deleted = 0 }

abbrev config : Config
config = record { gas_limit = some limit; cost_model = prices; outside = outside }

-- An array of one number, of which the number is read, raised by 3 and compared with 8.
abbrev stack : List VmValue
stack = record { strength = strong; value = array (element (cell (of_u64 5)) no_elements) } ∷ []

abbrev program : List (Op AlignedValue)
program =
    Vm.dup 0
    ∷ Vm.idx false false (Vm.value (of_u8 0) ∷ [])
    ∷ Vm.addi 3
    ∷ Vm.jmp 1
    ∷ Vm.pop
    ∷ Vm.popeq false (of_u64 8)
    ∷ []

abbrev final : VmResults StateValue
final = record {
  stack = stack;
  events = [];
  gas_cost = record { read_time = 2; compute_time = 10; bytes_written = 0; bytes_deleted = 0 };
}

runs : run_program_step_limited verify config stack program (some 6) ≡ ok final
unfolding run_program_step_limited midnight_ledger.Fab.atom_of_u128
    midnight_ledger.Fab.Size.alignment_atom_size midnight_ledger.Fab.Size.same_alignment_atom
runs = refl

run_program_step_limited-stops_example :
    run_program_step_limited verify config stack program none ≢ err out_of_fuel
run_program_step_limited-stops_example =
    run_program_step_limited-stops verify config stack program none

run_program_step_limited-no_panic_example :
    run_program_step_limited verify config stack program none ≢ err panicked
run_program_step_limited-no_panic_example =
    run_program_step_limited-no_panic verify config stack program none

run_program_step_limited-bounds_example :
    (over_limit (some limit) final.gas_cost ≡ false)
    × (length final.stack ≤ max (length stack) max_stack_height)
run_program_step_limited-bounds_example =
    run_program_step_limited-bounds verify config stack program (some 6) final runs

verify-gather_example :
    (s : VmResults GatherEvent) × (run_program_step_limited gather config stack
        (map erase program)
        (some 6)
      ≡ ok s)
    × (s.stack ≡ final.stack)
    × (s.gas_cost ≡ final.gas_cost)
    × (logs s.events ≡ final.events)
verify-gather_example = verify-gather config stack program (some 6) final runs

abbrev written : StateValue
written = array (element null no_elements)

writes :
    ins_value config (array (element (cell (of_u64 5)) no_elements)) (of_u8 0) null ≡ ok written
unfolding ins_value midnight_ledger.Fab.atom_of_u128
writes = refl

ins_value-idx_value_example : idx_value written (of_u8 0) false ≡ ok null
ins_value-idx_value_example =
    ins_value-idx_value config (array (element (cell (of_u64 5)) no_elements)) (of_u8 0) null
      written refl writes
