-- ===== src/Vm.antt =====
-- The on-chain virtual machine (onchain-vm/src): state values, instructions and errors. `Vm.Store`
-- has the operations of state values, `Vm.Machine` the stack, the cache and the gas, `Vm.Simple` and
-- `Vm.Containers` the instructions, and `Vm.Run` the loop.
--
-- The texts of `TypeError` and `InvalidArgs` are left out. The arena that serializes values
-- (storage-core) and the curve are parameters, in `Outside`.
pub mod Costs
pub mod Store
pub mod Machine
pub mod Simple
pub mod Containers
pub mod Access
pub mod Run
pub mod Sound
pub mod Programs
pub mod Modes
pub mod Contents
pub mod Arithmetic
pub mod Tests
use midnight_ledger.Prelude.{ℕ, Bool, List, Option, Result, ok, err}
use midnight_ledger.MerkleTree.{MerkleTreeNode, Hashing, InvalidUpdate}
use midnight_ledger.Fab.{AlignedValue, InvalidBuiltinDecode}
use midnight_ledger.Cost.{RunningCost}
use midnight_ledger.Vm.Costs.{CostModel}

mutual
  pub data StateValue : Type 0 where
    null : StateValue
    cell : AlignedValue → StateValue
    map : Entries → StateValue
    array : Elements → StateValue
    bounded_merkle_tree : MerkleTreeNode (Unit {0}) → StateValue

  -- The entries of a `HashMap<AlignedValue, StateValue>`.
  pub data Entries : Type 0 where
    no_entries : Entries
    entry : AlignedValue → StateValue → Entries → Entries

  -- The elements of an `Array<StateValue>`.
  pub data Elements : Type 0 where
    no_elements : Elements
    element : StateValue → Elements → Elements

pub data ValueStrength : Type 0 where
  weak strong : ValueStrength

pub record VmValue : Type 0 where
  pub strength : ValueStrength
  pub value : StateValue

pub data Key : Type 0 where
  value : AlignedValue → Key
  stack : Key

-- The instructions, over the type of the results that `popeq` names.
pub data Op (R : Type 0) : Type 0 where
  noop : ℕ → Op R
  lt eq type size new and or neg log root pop : Op R
  popeq : Bool → R → Op R
  addi subi : ℕ → Op R
  push : Bool → StateValue → Op R
  branch jmp : ℕ → Op R
  add sub : Op R
  concat : Bool → ℕ → Op R
  member : Op R
  rem : Bool → Op R
  dup swap : ℕ → Op R
  idx : Bool → Bool → List Key → Op R
  ins : Bool → ℕ → Op R
  ckpt : Op R

pub data OnchainProgramError : Type 0 where
  ran_off_stack ran_past_program_end arithmetic_overflow : OnchainProgramError
  expected_cell : StateValue → OnchainProgramError
  decode : InvalidBuiltinDecode → OnchainProgramError
  too_long_for_equal type_error out_of_gas bounds_exceeded : OnchainProgramError
  log_bound_exceeded invalid_args missing_key cache_miss : OnchainProgramError
  attempted_array_delete cell_bound_exceeded stack_overflow : OnchainProgramError
  read_mismatch : AlignedValue → AlignedValue → OnchainProgramError
  merkle_tree_error : InvalidUpdate → OnchainProgramError

-- How a run ends without a result: with an error, with a panic (an `unwrap` of nothing or an index
-- out of range), or because the model's fuel is spent.
pub data Stop : Type 0 where
  failed : OnchainProgramError → Stop
  panicked out_of_fuel : Stop

abbrev pub fail {ℓ} : {A : Type ℓ} → OnchainProgramError → Result Stop A
fail e = err (failed e)

-- What the machine takes from outside: the hashes, the size of a field element, the sizes of
-- serialized values and the data lengths of the nodes of a value, if their total is within a bound.
pub record Outside : Type 0 where
  pub hashing : Hashing
  pub fr_bytes : ℕ
  pub state_value_size : StateValue → ℕ
  pub stored_cell_size : AlignedValue → ℕ
  pub serialize_to_node_list_bounded : StateValue → ℕ → Option (List ℕ)

-- The arguments of a run that do not change.
pub record Config : Type 0 where
  pub gas_limit : Option RunningCost
  pub cost_model : CostModel
  pub outside : Outside
