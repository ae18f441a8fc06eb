-- ===== src/Vm/Costs.antt =====
-- The prices of operations (onchain-vm/src/cost_model.rs): durations for the constant and the linear
-- parts of each price, and the running costs of reading containers and cells.
use midnight_ledger.Prelude.{ℕ, ◌+◌, ◌-◌, ◌*◌, max, Bool, if◌then◌else◌}
use midnight_ledger.Cost.{RunningCost, add_u64, mul_u64, mul_running, div_ceil}

pub record CostModel : Type 0 where
  pub noop_constant : ℕ
  pub noop_coeff_arg : ℕ
  pub lt : ℕ
  pub eq : ℕ
  pub type_null : ℕ
  pub type_cell : ℕ
  pub type_map : ℕ
  pub type_bmt : ℕ
  pub type_array : ℕ
  pub size_map : ℕ
  pub size_bmt : ℕ
  pub size_array : ℕ
  pub new_null : ℕ
  pub new_cell : ℕ
  pub new_map : ℕ
  pub new_bmt : ℕ
  pub new_array : ℕ
  pub and : ℕ
  pub or : ℕ
  pub neg : ℕ
  pub log_null_constant : ℕ
  pub log_null_coeff_value_size : ℕ
  pub log_cell_constant : ℕ
  pub log_cell_coeff_value_size : ℕ
  pub log_map_constant : ℕ
  pub log_map_coeff_value_size : ℕ
  pub log_bmt_constant : ℕ
  pub log_bmt_coeff_value_size : ℕ
  pub log_array_constant : ℕ
  pub log_array_coeff_value_size : ℕ
  pub root : ℕ
  pub pop : ℕ
  pub popeq_constant : ℕ
  pub popeq_coeff_value_size : ℕ
  pub popeqc_constant : ℕ
  pub popeqc_coeff_value_size : ℕ
  pub addi : ℕ
  pub subi : ℕ
  pub push_null : ℕ
  pub push_cell : ℕ
  pub push_map : ℕ
  pub push_bmt : ℕ
  pub push_array : ℕ
  pub pushs_null : ℕ
  pub pushs_cell : ℕ
  pub pushs_map : ℕ
  pub pushs_bmt : ℕ
  pub pushs_array : ℕ
  pub branch_constant : ℕ
  pub branch_coeff_arg : ℕ
  pub jmp_constant : ℕ
  pub jmp_coeff_arg : ℕ
  pub add : ℕ
  pub sub : ℕ
  pub concat_constant : ℕ
  pub concat_coeff_total_size : ℕ
  pub concatc_constant : ℕ
  pub concatc_coeff_total_size : ℕ
  pub member_constant : ℕ
  pub member_coeff_key_size : ℕ
  pub member_coeff_container_log_size : ℕ
  pub rem_map_constant : ℕ
  pub rem_map_coeff_key_size : ℕ
  pub rem_map_coeff_container_log_size : ℕ
  pub rem_bmt_constant : ℕ
  pub rem_bmt_coeff_key_size : ℕ
  pub rem_bmt_coeff_container_log_size : ℕ
  pub remc_map_constant : ℕ
  pub remc_map_coeff_key_size : ℕ
  pub remc_map_coeff_container_log_size : ℕ
  pub remc_bmt_constant : ℕ
  pub remc_bmt_coeff_key_size : ℕ
  pub remc_bmt_coeff_container_log_size : ℕ
  pub dup_constant : ℕ
  pub dup_coeff_arg : ℕ
  pub swap_constant : ℕ
  pub swap_coeff_arg : ℕ
  pub idx_map_constant : ℕ
  pub idx_map_coeff_key_size : ℕ
  pub idx_map_coeff_container_log_size : ℕ
  pub idx_bmt_constant : ℕ
  pub idx_bmt_coeff_key_size : ℕ
  pub idx_bmt_coeff_container_log_size : ℕ
  pub idx_array : ℕ
  pub idxp_map_constant : ℕ
  pub idxp_map_coeff_key_size : ℕ
  pub idxp_map_coeff_container_log_size : ℕ
  pub idxp_bmt_constant : ℕ
  pub idxp_bmt_coeff_key_size : ℕ
  pub idxp_bmt_coeff_container_log_size : ℕ
  pub idxp_array : ℕ
  pub idxc_map_constant : ℕ
  pub idxc_map_coeff_key_size : ℕ
  pub idxc_map_coeff_container_log_size : ℕ
  pub idxc_bmt_constant : ℕ
  pub idxc_bmt_coeff_key_size : ℕ
  pub idxc_bmt_coeff_container_log_size : ℕ
  pub idxc_array : ℕ
  pub idxpc_map_constant : ℕ
  pub idxpc_map_coeff_key_size : ℕ
  pub idxpc_map_coeff_container_log_size : ℕ
  pub idxpc_bmt_constant : ℕ
  pub idxpc_bmt_coeff_key_size : ℕ
  pub idxpc_bmt_coeff_container_log_size : ℕ
  pub idxpc_array : ℕ
  pub ins_map_constant : ℕ
  pub ins_map_coeff_key_size : ℕ
  pub ins_map_coeff_container_log_size : ℕ
  pub ins_bmt_constant : ℕ
  pub ins_bmt_coeff_key_size : ℕ
  pub ins_bmt_coeff_container_log_size : ℕ
  pub ins_array : ℕ
  pub insc_map_constant : ℕ
  pub insc_map_coeff_key_size : ℕ
  pub insc_map_coeff_container_log_size : ℕ
  pub insc_bmt_constant : ℕ
  pub insc_bmt_coeff_key_size : ℕ
  pub insc_bmt_coeff_container_log_size : ℕ
  pub insc_array : ℕ
  pub ckpt : ℕ
  pub signature_verify_constant : ℕ
  pub signature_verify_coeff_size : ℕ
  pub pedersen_valid : ℕ
  pub verifier_key_load : ℕ
  pub proof_verify_constant : ℕ
  pub proof_verify_coeff_size : ℕ
  pub hash_to_curve : ℕ
  pub ec_add : ℕ
  pub ec_mul : ℕ
  pub transient_hash : ℕ
  pub get_writes_constant : ℕ
  pub get_writes_coeff_keys_added_size : ℕ
  pub update_rcmap_constant : ℕ
  pub update_rcmap_coeff_keys_added_size : ℕ
  pub gc_rcmap_constant : ℕ
  pub gc_rcmap_coeff_keys_removed_size : ℕ
  pub read_time_batched_4k : ℕ
  pub read_time_synchronous_4k : ℕ

abbrev persistent_hash_bytes : ℕ
persistent_hash_bytes = 32

module _ (c : CostModel) where
  unfoldable pub read_cell : ℕ → Bool → RunningCost
  read_cell size sync =
      let blocks = max 1 (div_ceil size 4096) in
      let time = add_u64 c.read_time_synchronous_4k (mul_u64 c.read_time_batched_4k (blocks - 1)) in
      if sync
      then record { read_time = time; compute_time = time; bytes_written = 0; bytes_deleted = 0 }
      else record {
        read_time = mul_u64 c.read_time_batched_4k blocks;
        compute_time = 0;
        bytes_written = 0;
        bytes_deleted = 0;
      }

  -- The size is of the container, by its logarithm.
  unfoldable pub read_map : ℕ → Bool → RunningCost
  unfolding read_cell
  read_map log_size sync =
      mul_running (read_cell (persistent_hash_bytes * 16) sync) (div_ceil log_size 4)

  unfoldable pub read_array : Bool → RunningCost
  unfolding read_cell
  read_array sync = read_cell (persistent_hash_bytes * 16) sync

  -- The bytes of a field element are a constant of the proof system.
  unfoldable pub read_bmt : ℕ → ℕ → Bool → RunningCost
  unfolding read_cell
  read_bmt fr_bytes log_size sync = mul_running (read_cell (fr_bytes * 3 + 2) sync) log_size
