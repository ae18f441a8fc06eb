-- ===== src/Transaction/Tests.antt =====
-- Runs of transactions on small states, and the theorems at them.
use midnight_ledger.Prelude.{
  ℕ, ◌+◌, ◌*◌, ◌≡◌, ◌≤◌, refl, true, false, none, some, List, [], ◌∷◌, inl, inr, Result, ok, err,
  is_ok, arith, try_fold, map,
}
use midnight_ledger.Prelude.Int.{pos}
use midnight_ledger.Storage.TimeFilterMap.{empty_map, IsConsistent}
use midnight_ledger.Cost.{NormalizedCost, zero_running}
use midnight_ledger.Ledger.{max_supply, ContractState, unshielded, night, token_eq}
use midnight_ledger.Transaction.Calls.{contract_holds, apply_call-contract_holds}
use midnight_ledger.Transaction.Actions.{apply_call}
use midnight_ledger.Ledger.Night.{check_night_balance_invariant}
use midnight_ledger.Dust
use midnight_ledger.Dust.{DustState}
use midnight_ledger.Vm.{weak, null}
use midnight_ledger.Vm.Tests.{prices, outside}
use midnight_ledger.Zswap.Tests.{hashing, rooted, first_spend, again}
use midnight_ledger.Runtime.{Effects, no_effects}
use midnight_ledger.Transaction.{
  ContractCall, Intent, StandardTransaction, Transaction, standard, State, TransactionContext,
  Environment, sorted_iter,
}
use midnight_ledger.Storage.Tests.{empty-IsConsistent}
use midnight_ledger.Transaction.Section.{apply_section}
use midnight_ledger.Transaction.Frame.{Kept, apply_section-Kept}
use midnight_ledger.Transaction.Batch.{
  succeeded, forget, apply_segments-succeeded, all_or_nothing-until_first_failure,
}
use midnight_ledger.Transaction.Balance.{IsChecked, apply-IsChecked}
use midnight_ledger.Transaction.Apply.{
  apply_segments, batch_apply_all_or_nothing, batch_apply_until_first_failure, apply,
  apply_post_block_update,
}
use midnight_ledger.Transaction.Chain.{Chain, still, block}
use midnight_ledger.Transaction.Replay.{is_failure, no_transaction_replay}
use midnight_ledger.Transaction.Spend.{no_transaction_double_spend}

abbrev pub environment : Environment
environment = record {
  hashes = record {
    initial_nonce = λ n h. n + h;
    dust_first_nonce = λ n a. n + a;
    commitment = λ v o n t. v + n;
    merkle_hash = λ info. info.nonce;
    user_address = λ k. k;
    hashing = hashing;
  };
  encodings = record {
    context_value = λ c. record { strength = weak; value = null };
    effects_value = λ e. record { strength = weak; value = null };
    effects_of = λ v. ok no_effects;
    update = λ m s v. some (record s { state = v }, zero_running);
    outside = outside;
  };
  deploy_address = λ d. d.nonce;
  ep_hash = λ e. e;
  mk_intent_hash = λ o t. o.amount + 1000 * o.nonce + t;
  fees = λ p tx. 0;
  min_claimable_rewards = λ p. 5;
  update_prices = λ p c f. p;
}

abbrev genesis : State
genesis = record {
  parameters = record {
    dust = record { night_dust_ratio = 100; generation_decay_rate = 2 };
    runtime_cost_model = prices;
    global_ttl = 3600;
    cardano_to_midnight_bridge_fee_basis_points = 500;
    c_to_m_bridge_min_amount = 1000;
  };
  locked_pool = max_supply;
  bridge_receiving = [];
  reserve_pool = 0;
  block_reward_pool = 0;
  unclaimed_block_rewards = [];
  treasury = [];
  zswap = rooted;
  contract = [];
  utxo = [];
  replay_protection = empty_map;
  dust = Dust.new;
}

abbrev at_block : ℕ → TransactionContext
at_block tblock = record {
  ref_state = genesis;
  block_context = record {
    tblock = tblock;
    tblock_err = 0;
    parent_block_hash = 0;
    last_block_time = tblock;
  };
  whitelist = none;
}

abbrev pub intent : Intent
intent = record {
  guaranteed_unshielded_offer = none;
  fallible_unshielded_offer = none;
  actions = [];
  dust_actions = none;
  ttl = 500;
  intent_hash = λ segment. 7;
}

abbrev first : StandardTransaction
first = record {
  intents = (1, intent) ∷ [];
  guaranteed_coins = some first_spend;
  fallible_coins = [];
}

abbrev second : StandardTransaction
second = record {
  intents = (2, intent) ∷ [];
  guaranteed_coins = none;
  fallible_coins = (2, again) ∷ [];
}

abbrev applied : State
applied = (apply environment (at_block 10) genesis (standard first)).0

abbrev idle : NormalizedCost
idle = record {
  read_time = pos 0;
  compute_time = pos 0;
  block_usage = pos 0;
  bytes_written = pos 0;
  bytes_churned = pos 0;
}

abbrev next_block : State
next_block = apply_post_block_update environment applied 10 idle (pos 0)

block_between : Chain environment 10 applied 20 next_block
block_between = block 20 idle (pos 0) (omega arith) still

first-applied : is_failure (apply environment (at_block 10) genesis (standard first)).1 ≡ false
unfolding apply try_fold sorted_iter midnight_ledger.Prelude.Dict.lookup
    midnight_ledger.Storage.TimeFilterMap.contains midnight_ledger.Zswap.apply_input
    midnight_ledger.Zswap.apply_output midnight_ledger.MerkleTree.try_update_hash
    midnight_ledger.MerkleTree.update_stub midnight_ledger.Zswap.apply_transient
    midnight_ledger.Prelude.Dict.insert check_night_balance_invariant
    midnight_ledger.Transaction.fallible_segments
first-applied = refl

no_transaction_replay_example :
    (is_failure (apply environment (at_block 20) next_block (standard second)).1 ≡ true)
    × ((apply environment (at_block 20) next_block (standard second)).0 ≡ next_block)
unfolding sorted_iter midnight_ledger.Prelude.Dict.lookup
no_transaction_replay_example =
    no_transaction_replay environment (at_block 10) (at_block 20) first second genesis next_block
      intent 1 2 empty-IsConsistent (inl refl) first-applied block_between (inl refl)

no_transaction_double_spend_example :
    (is_failure (apply environment (at_block 20) next_block (standard second)).1 ≡ true)
    × ((apply environment (at_block 20) next_block (standard second)).0 ≡ next_block)
unfolding sorted_iter midnight_ledger.Prelude.Dict.lookup
no_transaction_double_spend_example =
    no_transaction_double_spend environment (at_block 10) (at_block 20) first second genesis
      next_block 2 first_spend refl refl refl first-applied block_between refl
      (inr ((2, again), inl refl, refl))

-- A transaction with a segment that fails: its offer spends a nullifier again.
abbrev mixed : StandardTransaction
mixed = record {
  intents = (1, intent) ∷ [];
  guaranteed_coins = none;
  fallible_coins = (3, first_spend) ∷ (4, again) ∷ [];
}

apply_segments-succeeded_example :
    let (t, results) = apply_segments environment (at_block 10) mixed genesis (3 ∷ 4 ∷ []) in
    (map (λ r. r.0) results ≡ 3 ∷ 4 ∷ [])
    × (try_fold
          (λ s segment. apply_section environment (at_block 10) mixed segment s)
          genesis
          (succeeded results)
        ≡ ok t)
apply_segments-succeeded_example =
    apply_segments-succeeded environment (at_block 10) mixed genesis (3 ∷ 4 ∷ [])

abbrev segment_applied : State
segment_applied = (apply_segments environment (at_block 10) mixed genesis (3 ∷ [])).0

apply_section-Kept_example : Kept environment (at_block 10) mixed 3 genesis segment_applied
unfolding apply_section try_fold midnight_ledger.Prelude.Dict.lookup
    midnight_ledger.Zswap.apply_input midnight_ledger.Storage.TimeFilterMap.contains
    midnight_ledger.Zswap.apply_output midnight_ledger.MerkleTree.try_update_hash
    midnight_ledger.MerkleTree.update_stub midnight_ledger.Zswap.apply_transient
    midnight_ledger.Prelude.Dict.insert check_night_balance_invariant apply_segments
apply_section-Kept_example =
    apply_section-Kept environment (at_block 10) mixed 3 genesis segment_applied refl refl

all_or_nothing-until_first_failure_example :
    batch_apply_all_or_nothing environment
      (at_block 10)
      genesis
      (standard first ∷ standard second ∷ [])
    ≡ forget (
        batch_apply_until_first_failure environment
          (at_block 10)
          genesis
          (standard first ∷ standard second ∷ []))
all_or_nothing-until_first_failure_example =
    all_or_nothing-until_first_failure environment (at_block 10) genesis
      (standard first ∷ standard second ∷ [])

apply-IsChecked_example :
    (IsChecked genesis → IsChecked applied)
    × (is_failure (apply environment (at_block 10) genesis (standard first)).1 ≡ false
        → IsChecked applied)
apply-IsChecked_example = apply-IsChecked environment (at_block 10) genesis (standard first)

-- A contract receives 5 of NIGHT and pays 3, with a transcript that does nothing else.
abbrev moved_effects : Effects
moved_effects = record no_effects {
  unshielded_inputs = (unshielded night, 5) ∷ [];
  unshielded_outputs = (unshielded night, 3) ∷ [];
}

abbrev declaring : Environment
declaring = record environment {
  encodings = record environment.encodings { effects_of = λ v. ok moved_effects };
}

abbrev paying_call : ContractCall
paying_call = record {
  address = 5;
  entry_point = 6;
  guaranteed_transcript =
      some (record { gas = zero_running; effects = moved_effects; program = [] });
  fallible_transcript = none;
  communication_commitment = 7;
}

abbrev contract_state : ContractState
contract_state = record {
  data_ = record { state = null; charged_keys = [] };
  operations = [];
  maintenance_authority = record { committee = []; threshold = 1; counter = 0 };
  balance = (unshielded night, 2) ∷ [];
}

abbrev with_contract : State
with_contract = record genesis { contract = (5, contract_state) ∷ [] }

abbrev called : State
called = record genesis {
  contract = (5, record contract_state { balance = (unshielded night, 4) ∷ [] }) ∷ [];
}

apply_call-contract_holds_example :
    contract_holds 5 (unshielded night) called.contract + 3
    ≡ contract_holds 5 (unshielded night) with_contract.contract + 5
unfolding apply_call midnight_ledger.Prelude.Dict.lookup midnight_ledger.Prelude.Dict.insert
    midnight_ledger.Vm.Run.run_program try_fold token_eq
apply_call-contract_holds_example =
    apply_call-contract_holds declaring (at_block 10) intent [] true with_contract called
      paying_call 5 (unshielded night) refl
