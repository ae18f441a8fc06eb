-- ===== src/Transaction/Actions.antt =====
-- Contract actions (`apply_actions` of ledger/src/semantics.rs, `ContractCall::context`,
-- `ContractCall::calls` and `LedgerState::update_index` of ledger/src/structure.rs).
use midnight_ledger.Prelude.{
  ℕ, ◌+◌, ◌-◌, ◌^◌, min, Bool, true, ◌&&◌, ◌||◌, not, Option, none, some, List, [], ◌∷◌, ◌++◌, any,
  ◌==◌, ltb, if◌then◌else◌, Result, ok, err, ◌>>=◌, ◌>>◌, fail_if, ok_or, map_err, try_fold,
  is_some, nat_eq, unwrap_or,
}
use midnight_ledger.Prelude.Dict.{Dict, lookup, contains_key, insert, erase}
use midnight_ledger.Ledger.{ContractState, ChargedState, TokenType, token_eq}
use midnight_ledger.Zswap.{listed}
use midnight_ledger.Dust
use midnight_ledger.Dust.{UtxoSpend}
use midnight_ledger.Runtime.{
  PublicAddress, contract, user, Effects, no_effects, same_effects, BlockContext, CallContext,
  QueryContext, Transcript, ClaimedCall, run_transcript,
}
use midnight_ledger.Transaction.{
  ContractCall, ContractDeploy, SingleUpdate, replace_authority, verifier_key_remove,
  verifier_key_insert, MaintenanceUpdate, ContractAction, call, deploy, maintain, Intent,
  TransactionInvalid, effects_mismatch, contract_already_deployed, contract_not_present, transcript,
  verifier_key_not_found, verifier_key_already_present, replay_counter_mismatch,
  balance_check_out_of_bounds, addition, subtraction, State, TransactionContext, Environment,
}

abbrev pub whitelist_matches : Option (List ℕ) → ℕ → Bool
whitelist_matches none addr = true
whitelist_matches (some wl) addr = listed addr wl

-- The balance of a contract after it received or paid an amount of a token.
unfoldable pub receive :
    Dict TokenType ℕ → TokenType × ℕ → Result TransactionInvalid (Dict TokenType ℕ)
receive balance (token_type, val) = do
  let bal = unwrap_or (lookup token_type balance) 0
  fail_if (not (ltb (bal + val) (2 ^ 128)))
      (balance_check_out_of_bounds token_type bal val addition)
  ok (insert token_type (bal + val) balance)

unfoldable pub pay : Dict TokenType ℕ → TokenType × ℕ → Result TransactionInvalid (Dict TokenType ℕ)
pay balance (token_type, val) = do
  let bal = unwrap_or (lookup token_type balance) 0
  fail_if (ltb bal val) (balance_check_out_of_bounds token_type bal val subtraction)
  ok (insert token_type (bal - val) balance)

abbrev pub transcripts : ContractCall → List Transcript
transcripts c = elim c.guaranteed_transcript [
  | none ↦ elim c.fallible_transcript [ none ↦ [] | some f ↦ f ∷ [] ]
  | some g ↦ elim c.fallible_transcript [ none ↦ g ∷ [] | some f ↦ g ∷ f ∷ [] ]
]

module _ (E : Environment) where
  -- Whether a call claims another one.
  unfoldable pub calls : ContractCall → ContractCall → Bool
  calls self callee =
      any
        (λ t.
          any
            (λ c.
              ClaimedCall.address c.0 == callee.address
              && (ClaimedCall.entry_point c.0 == E.ep_hash callee.entry_point
                  && ClaimedCall.commitment c.0 == callee.communication_commitment))
            (Effects.claimed_contract_calls (Transcript.effects t)))
        (transcripts self)

  unfoldable pub calling_contract : ContractCall → List ContractAction → Option PublicAddress
  unfolding calls
  calling_contract self [] = none
  calling_contract self (call c ∷ actions) =
      let rest = calling_contract self actions in
      if calls c self then some (contract c.address) else rest
  calling_contract self (deploy _ ∷ actions) = calling_contract self actions
  calling_contract self (maintain _ ∷ actions) = calling_contract self actions

  abbrev offer_inputs : Option Dust.UnshieldedOffer → List UtxoSpend
  offer_inputs none = []
  offer_inputs (some o) = o.inputs

  -- The owner of all inputs, if they have the same.
  unfoldable pub common_owner : List UtxoSpend → Option PublicAddress
  common_owner [] = none
  common_owner (i ∷ is) =
      if any (λ j. not (UtxoSpend.owner j == i.owner)) is
      then none
      else some (user (E.hashes.user_address i.owner))

  unfoldable pub caller : ContractCall → Intent → Option PublicAddress
  unfolding calling_contract common_owner
  caller self intent = elim (calling_contract self intent.actions) [
    | none ↦ common_owner (
        offer_inputs intent.guaranteed_unshielded_offer
        ++ offer_inputs intent.fallible_unshielded_offer)
    | some address ↦ some address
  ]

  unfoldable pub call_context :
      ContractCall → BlockContext → Intent → ContractState → Dict ℕ ℕ → CallContext
  unfolding caller
  call_context self block intent state com_indices = record {
    own_address = self.address;
    tblock = block.tblock;
    tblock_err = block.tblock_err;
    parent_block_hash = block.parent_block_hash;
    caller = caller self intent;
    balance = state.balance;
    com_indices = com_indices;
    last_block_time = block.last_block_time;
  }

  -- `update_index` on a contract that is there.
  abbrev pub update_index : State → ℕ → ContractState → ChargedState → Dict TokenType ℕ → State
  update_index self address cstate data_ balance = record self {
    contract = insert address (record cstate { data_ = data_; balance = balance }) self.contract;
  }

  -- A call of a contract that is there, with its transcript for the phase.
  unfoldable pub run_call :
      TransactionContext
      → Intent
      → Dict ℕ ℕ
      → State
      → ContractCall
      → ContractState
      → Transcript
      → Result TransactionInvalid State
  unfolding call_context run_transcript same_effects receive pay
  run_call context intent com_indices res c cstate t = do
    let query_context : QueryContext = record {
      state = cstate.data_;
      effects = no_effects;
      address = c.address;
      call_context = call_context c context.block_context intent cstate com_indices;
    }
    results ←
        map_err transcript
          (run_transcript E.encodings query_context t res.parameters.runtime_cost_model)
    fail_if (not (same_effects results.context.effects t.effects))
        (effects_mismatch t.effects results.context.effects)
    received ← try_fold receive cstate.balance t.effects.unshielded_inputs
    paid ← try_fold pay received t.effects.unshielded_outputs
    ok (update_index res c.address cstate results.context.state paid)

  unfoldable pub apply_call :
      Bool
      → TransactionContext
      → Intent
      → Dict ℕ ℕ
      → State
      → ContractCall
      → Result TransactionInvalid State
  unfolding run_call
  apply_call guaranteed context intent com_indices res c =
      if not (whitelist_matches context.whitelist c.address)
      then ok res
      else elim (lookup c.address res.contract) [
        | none ↦ err (contract_not_present c.address)
        | some cstate ↦
            elim (if guaranteed then c.guaranteed_transcript else c.fallible_transcript) [
              | none ↦ ok res
              | some t ↦ run_call context intent com_indices res c cstate t
            ]
      ]

  unfoldable pub apply_deploy :
      Bool → TransactionContext → State → ContractDeploy → Result TransactionInvalid State
  apply_deploy guaranteed context res d =
      let addr = E.deploy_address d in
      if not (whitelist_matches context.whitelist addr) || guaranteed then ok res else do
        fail_if (contains_key addr res.contract) (contract_already_deployed addr)
        ok (record res { contract = insert addr d.initial_state res.contract })

-- A removed key leaves an operation with none, which goes.
unfoldable pub apply_update : ContractState → SingleUpdate → Result TransactionInvalid ContractState
apply_update cstate (replace_authority auth) = ok (record cstate { maintenance_authority = auth })
apply_update cstate (verifier_key_remove ep) = do
  _ ← ok_or (lookup ep cstate.operations) (verifier_key_not_found ep)
  ok (record cstate { operations = erase ep cstate.operations })
apply_update cstate (verifier_key_insert ep vk) = do
  let op = unwrap_or (lookup ep cstate.operations) (record { v2 = none })
  fail_if (is_some op.v2) (verifier_key_already_present ep)
  ok (record cstate { operations = insert ep (record { v2 = some vk }) cstate.operations })

unfoldable pub apply_maintain :
    Bool → TransactionContext → State → MaintenanceUpdate → Result TransactionInvalid State
unfolding apply_update
apply_maintain guaranteed context res upd =
    let addr = upd.address in
    if not (whitelist_matches context.whitelist addr) || guaranteed then ok res else do
      cstate ← ok_or (lookup addr res.contract) (contract_not_present addr)
      fail_if (not (cstate.maintenance_authority.counter == upd.counter))
          (replay_counter_mismatch addr)
      let counted : ContractState = record cstate {
        maintenance_authority = record cstate.maintenance_authority {
          counter = min (cstate.maintenance_authority.counter + 1) (2 ^ 32 - 1);
        };
      }
      updated ← try_fold apply_update counted upd.updates
      ok (record res { contract = insert addr updated res.contract })

module _ (E : Environment) where
  unfoldable pub apply_action :
      Bool
      → TransactionContext
      → Intent
      → Dict ℕ ℕ
      → State
      → ContractAction
      → Result TransactionInvalid State
  unfolding apply_call apply_deploy apply_maintain
  apply_action guaranteed context intent com_indices res (call c) =
      apply_call E guaranteed context intent com_indices res c
  apply_action guaranteed context intent com_indices res (deploy d) =
      apply_deploy E guaranteed context res d
  apply_action guaranteed context intent com_indices res (maintain upd) =
      apply_maintain guaranteed context res upd

  unfoldable pub apply_actions :
      Bool → TransactionContext → Intent → Dict ℕ ℕ → State → Result TransactionInvalid State
  unfolding apply_action
  apply_actions guaranteed context intent com_indices self =
      try_fold (apply_action guaranteed context intent com_indices) self intent.actions
