-- ===== src/Runtime.antt =====
-- The on-chain runtime (onchain-runtime/src): the effects of a contract call, its context, and the
-- run of its transcript on the virtual machine (`query` and `run_transcript` of context.rs).
--
-- Addresses, hashes and commitments are numbers; a set is a map to the unit type. The forms of a
-- context and of effects as values of the machine, and the storage that a new state is charged for,
-- are the fields of `Encodings`.
pub mod Runs
pub mod Tests
use midnight_ledger.Prelude.{
  ℕ, ◌≡◌, Bool, true, false, ◌&&◌, ◌||◌, Option, none, some, List, [], ◌∷◌, ◌==◌, ltb, Result, ok,
  ok_or, err, ◌>>=◌, ◌>>◌, fail_if, ok_or, map_err, Eq, nat_eq, ==_iff, ◌↔◌, arith, not,
}
use midnight_ledger.Prelude.Dict.{Dict, lookup, contains_key}
use midnight_ledger.Fab.{AlignedValue, InvalidBuiltinDecode}
use midnight_ledger.Cost.{RunningCost, add_running}
use midnight_ledger.Vm.{
  StateValue, VmValue, weak, strong, Op, OnchainProgramError, out_of_gas, Stop, failed, panicked,
  out_of_fuel, Config, Outside,
}
use midnight_ledger.Vm.Costs.{CostModel}
use midnight_ledger.Vm.Run.{VmResults, run_program, verify}
use midnight_ledger.Ledger.{TokenType, token_eq, ChargedState}

pub data PublicAddress : Type 0 where
  contract user : ℕ → PublicAddress

abbrev same_address : PublicAddress → PublicAddress → Bool
same_address (contract a) (contract b) = a == b
same_address (user a) (user b) = a == b
same_address _ _ = false

same_address_iff : (a b : PublicAddress) → same_address a b ≡ true ↔ a ≡ b
same_address_iff (contract a) (contract b) = ground (arith, ==_iff a b)
same_address_iff (contract a) (user b) = ground arith
same_address_iff (user a) (contract b) = ground arith
same_address_iff (user a) (user b) = ground (arith, ==_iff a b)

instance pub address_eq : Eq PublicAddress
address_eq = record { beq = same_address; beq_iff = same_address_iff }

-- `ClaimedUnshieldedSpendsKey`
abbrev pub SpendsKey : Type 0
SpendsKey = TokenType × PublicAddress

instance pub spends_key_eq : Eq SpendsKey
spends_key_eq = record {
  beq = λ a b. token_eq.beq a.0 b.0 && address_eq.beq a.1 b.1;
  beq_iff = λ a b. ground (arith, token_eq.beq_iff a.0 b.0, address_eq.beq_iff a.1 b.1);
}

-- `ClaimedContractCallsValue`: the sequence number, the address, the hash of the entry point and the
-- communication commitment.
pub record ClaimedCall : Type 0 where
  pub sequence : ℕ
  pub address : ℕ
  pub entry_point : ℕ
  pub commitment : ℕ

abbrev same_call : ClaimedCall → ClaimedCall → Bool
same_call a b =
    a.sequence == b.sequence
    && (a.address == b.address && (a.entry_point == b.entry_point && a.commitment == b.commitment))

instance pub claimed_call_eq : Eq ClaimedCall
claimed_call_eq = record {
  beq = same_call;
  beq_iff = λ a b. ground (
    arith,
    ==_iff a.sequence b.sequence,
    ==_iff a.address b.address,
    ==_iff a.entry_point b.entry_point,
    ==_iff a.commitment b.commitment,
  );
}

pub record Effects : Type 0 where
  pub claimed_nullifiers : Dict ℕ (Unit {0})
  pub claimed_shielded_receives : Dict ℕ (Unit {0})
  pub claimed_shielded_spends : Dict ℕ (Unit {0})
  pub claimed_contract_calls : Dict ClaimedCall (Unit {0})
  pub shielded_mints : Dict ℕ ℕ
  pub unshielded_mints : Dict ℕ ℕ
  pub unshielded_inputs : Dict TokenType ℕ
  pub unshielded_outputs : Dict TokenType ℕ
  pub claimed_unshielded_spends : Dict SpendsKey ℕ

abbrev pub no_effects : Effects
no_effects = record {
  claimed_nullifiers = [];
  claimed_shielded_receives = [];
  claimed_shielded_spends = [];
  claimed_contract_calls = [];
  shielded_mints = [];
  unshielded_mints = [];
  unshielded_inputs = [];
  unshielded_outputs = [];
  claimed_unshielded_spends = [];
}

-- Whether a map has every entry of another one.
abbrev has_all {ℓ} : {K : Type ℓ} → ⦃e : Eq K⦄ → Dict K ℕ → Dict K ℕ → Bool
has_all n [] = true
has_all n ((k, v) ∷ m) = elim (lookup k n) [ none ↦ false | some w ↦ v == w ] && has_all n m

abbrev has_keys {ℓ} : {K : Type ℓ} → ⦃e : Eq K⦄ → Dict K (Unit {0}) → Dict K (Unit {0}) → Bool
has_keys n [] = true
has_keys n ((k, v) ∷ m) = contains_key k n && has_keys n m

abbrev pub same_map {ℓ} : {K : Type ℓ} → ⦃e : Eq K⦄ → Dict K ℕ → Dict K ℕ → Bool
same_map m n = has_all n m && has_all m n

abbrev pub same_set {ℓ} : {K : Type ℓ} → ⦃e : Eq K⦄ → Dict K (Unit {0}) → Dict K (Unit {0}) → Bool
same_set m n = has_keys n m && has_keys m n

-- `==` on effects: the same entries.
unfoldable pub same_effects : Effects → Effects → Bool
same_effects a b =
    same_set a.claimed_nullifiers b.claimed_nullifiers
    && (same_set a.claimed_shielded_receives b.claimed_shielded_receives
        && (same_set a.claimed_shielded_spends b.claimed_shielded_spends
            && (same_set a.claimed_contract_calls b.claimed_contract_calls
                && (same_map a.shielded_mints b.shielded_mints
                    && (same_map a.unshielded_mints b.unshielded_mints
                        && (same_map a.unshielded_inputs b.unshielded_inputs
                            && (same_map a.unshielded_outputs b.unshielded_outputs
                                && same_map a.claimed_unshielded_spends
                                    b.claimed_unshielded_spends)))))))

pub record BlockContext : Type 0 where
  pub tblock : ℕ
  pub tblock_err : ℕ
  pub parent_block_hash : ℕ
  pub last_block_time : ℕ

pub record CallContext : Type 0 where
  pub own_address : ℕ
  pub tblock : ℕ
  pub tblock_err : ℕ
  pub parent_block_hash : ℕ
  pub caller : Option PublicAddress
  pub balance : Dict TokenType ℕ
  pub com_indices : Dict ℕ ℕ
  pub last_block_time : ℕ

pub record QueryContext : Type 0 where
  pub state : ChargedState
  pub effects : Effects
  pub address : ℕ
  pub call_context : CallContext

pub record Transcript : Type 0 where
  pub gas : RunningCost
  pub effects : Effects
  pub program : List (Op AlignedValue)

-- The errors of a transcript, with a panic and spent fuel beside them.
pub data TranscriptRejected : Type 0 where
  execution : OnchainProgramError → TranscriptRejected
  decode : InvalidBuiltinDecode → TranscriptRejected
  final_stack_wrong_length weak_state_returned effect_decode_error : TranscriptRejected
  machine_panicked machine_out_of_fuel : TranscriptRejected

abbrev pub rejected : Stop → TranscriptRejected
rejected (failed e) = execution e
rejected panicked = machine_panicked
rejected out_of_fuel = machine_out_of_fuel

-- `VmValue::from` of a context and of effects, `Effects::try_from` of a value, the storage costs
-- (`ChargedState::update` with the closures of `query`; nothing where it panics), and what the machine
-- takes from outside.
pub record Encodings : Type 0 where
  pub context_value : QueryContext → VmValue
  pub effects_value : Effects → VmValue
  pub effects_of : VmValue → Result TranscriptRejected Effects
  pub update : CostModel → ChargedState → StateValue → Option (ChargedState × RunningCost)
  pub outside : Outside

-- `>` on running costs, as derived: in the order of the fields.
abbrev pub exceeds : RunningCost → RunningCost → Bool
exceeds a b =
    ltb b.read_time a.read_time
    || (a.read_time == b.read_time
        && (ltb b.compute_time a.compute_time
            || (a.compute_time == b.compute_time
                && (ltb b.bytes_written a.bytes_written
                    || (a.bytes_written == b.bytes_written
                        && ltb b.bytes_deleted a.bytes_deleted)))))

abbrev pub over : Option RunningCost → RunningCost → Bool
over none cost = false
over (some limit) cost = exceeds cost limit

pub record QueryResults : Type 0 where
  pub context : QueryContext
  pub events : List StateValue
  pub gas_cost : RunningCost

module _ (N : Encodings) where
  -- From the top of the stack.
  abbrev pub to_vm_stack : QueryContext → List VmValue
  to_vm_stack self =
      record { strength = strong; value = self.state.state }
      ∷ N.effects_value self.effects
      ∷ N.context_value self
      ∷ []

  -- The end of `query`, on the new state and effects.
  unfoldable pub settle :
      QueryContext
      → Option RunningCost
      → CostModel
      → VmResults StateValue
      → StateValue
      → VmValue
      → Result TranscriptRejected QueryResults
  settle self gas_limit cost_model res new_state effects_value = do
    effects ← N.effects_of effects_value
    updated ← ok_or (N.update cost_model self.state new_state) machine_panicked
    let gas_cost = add_running res.gas_cost updated.1
    fail_if (over gas_limit gas_cost) (execution out_of_gas)
    ok (record {
      context = record self { state = updated.0; effects = effects };
      events = res.events;
      gas_cost = gas_cost;
    })

  -- The checks of the final stack.
  unfoldable pub read_stack :
      QueryContext
      → Option RunningCost
      → CostModel
      → VmResults StateValue
      → List VmValue
      → Result TranscriptRejected QueryResults
  unfolding settle
  read_stack self gas_limit cost_model res (state ∷ effects ∷ context ∷ []) = elim state.strength [
    | weak ↦ err weak_state_returned
    | strong ↦ settle self gas_limit cost_model res state.value effects
  ]
  read_stack self gas_limit cost_model res _ = err final_stack_wrong_length

  unfoldable pub query :
      QueryContext
      → List (Op AlignedValue)
      → Option RunningCost
      → CostModel
      → Result TranscriptRejected QueryResults
  unfolding read_stack
  query self program gas_limit cost_model = do
    let config : Config = record {
      gas_limit = gas_limit;
      cost_model = cost_model;
      outside = N.outside;
    }
    res ← map_err rejected (run_program verify config (to_vm_stack self) program)
    read_stack self gas_limit cost_model res res.stack

  unfoldable pub run_transcript :
      QueryContext → Transcript → CostModel → Result TranscriptRejected QueryResults
  unfolding query
  run_transcript self transcript cost_model =
      query self transcript.program (some transcript.gas) cost_model
