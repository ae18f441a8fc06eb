-- ===== src/Ledger/Tests.antt =====
-- Runs of the ledger's transitions on small inputs, and its theorems at them.
use midnight_ledger.Vm.Tests.{prices}
use midnight_ledger.Storage.Tests.{empty-IsConsistent}
use midnight_ledger.Prelude.{
  ℕ, ◌+◌, ◌-◌, ◌*◌, ◌≡◌, refl, true, false, none, some, [], ◌∷◌, ok, is_ok, try_fold, arith,
  if◌then◌else◌, ◌==◌, nat_eq, ==_iff,
}
use midnight_ledger.Prelude.Dict.{Dict, lookup, insert, erase, total}
use midnight_ledger.Storage.TimeFilterMap.{TimeFilterMap, contains, empty_map, upsert_one}
use midnight_ledger.Storage.MultiSet
use midnight_ledger.Storage.MultiSet.{count, member}
use midnight_ledger.Zswap
use midnight_ledger.Ledger.{
  LedgerState, Utxo, UtxoMeta, utxo_eq, unshielded, token_eq, night, max_supply, reward,
  cardano_bridge, OutputInstructionUnshielded, Outside,
}
use midnight_ledger.Ledger.Replay.{apply_member, post_block_update, here, end_block, no_replay}
use midnight_ledger.Ledger.Utxos.{UnshieldedOffer, apply_offer, new_utxos}
use midnight_ledger.Ledger.Night.{
  counted_night, night_supply, check_night_balance_invariant,
  check_night_balance_invariant-bridged_night,
}
use midnight_ledger.Ledger.System.{apply_system_tx, distribute_night}
use midnight_ledger.Ledger.Claim.{claim_unshielded}
use midnight_ledger.Ledger.Payouts.{IsBalanced}
use midnight_ledger.Ledger.Supply.{Settles, apply_system_tx-Settles}
use midnight_ledger.Ledger.Bridge.{bridge_refused}
use midnight_ledger.Ledger.Rewards.{SettlesUnless, claim_unshielded-Settles}
use midnight_ledger.Ledger.BridgeClaims.{bridge_claim, bridge_claim_refused}
use midnight_ledger.Ledger.Offers.{
  Below, holdings, weigh, apply_offer-conserves, repeated_input_refused,
}

abbrev outside : Outside ℕ ℕ ℕ
outside = record {
  mk_intent_hash = λ o t. o.amount + 1000 * o.nonce + t;
  min_claimable_rewards = λ _. 5;
  address_delegation = λ _ a. if a == 7 then some 3 else none;
  fresh_dust_output = λ d h v a t. ok (d + v);
  cnight_generates_dust_update = λ d es t. ok d;
}

abbrev genesis : LedgerState ℕ
genesis = record {
  parameters = record {
    dust = record { night_dust_ratio = 100; generation_decay_rate = 2 };
    runtime_cost_model = prices;
    global_ttl = 3600;
    cardano_to_midnight_bridge_fee_basis_points = 500;
    c_to_m_bridge_min_amount = 1000;
  };
  locked_pool = 10000;
  bridge_receiving = [];
  reserve_pool = max_supply - 10540;
  block_reward_pool = 500;
  unclaimed_block_rewards = (7, 30) ∷ [];
  treasury = (unshielded night, 10) ∷ [];
  zswap = Zswap.new;
  contract = [];
  utxo = [];
  replay_protection = empty_map;
  dust = 0;
}

genesis-counted_night : counted_night genesis ≡ max_supply
unfolding counted_night total lookup token_eq
genesis-counted_night = refl

genesis-IsBalanced : IsBalanced outside genesis
genesis-IsBalanced = record { exact = genesis-counted_night; parameters = omega arith }

abbrev instruction : ℕ → OutputInstructionUnshielded
instruction n = record { amount = n; target_address = 7; nonce = 1 }

apply_system_tx-Settles_example :
    Settles outside
      (apply_system_tx outside genesis (distribute_night reward (instruction 20 ∷ [])) 50)
apply_system_tx-Settles_example =
    apply_system_tx-Settles outside genesis (distribute_night reward (instruction 20 ∷ [])) 50
      genesis-IsBalanced

-- The distribution of the witness succeeds.
distribute-ok :
    is_ok (apply_system_tx outside genesis (distribute_night reward (instruction 20 ∷ [])) 50)
    ≡ true
unfolding apply_system_tx try_fold apply_member contains lookup check_night_balance_invariant
    token_eq insert
distribute-ok = refl

bridge_refused_example :
    is_ok
      (apply_system_tx outside genesis (distribute_night cardano_bridge (instruction 2000 ∷ [])) 50)
    ≡ false
bridge_refused_example =
    bridge_refused outside genesis (instruction 2000 ∷ []) 50 (omega arith) refl

claim_unshielded-Settles_example : SettlesUnless outside false (
    claim_unshielded outside genesis
      (record { value = 10; owner = 7; nonce = 1; kind = reward })
      50)
unfolding lookup
claim_unshielded-Settles_example =
    claim_unshielded-Settles outside genesis 10 7 1 50 genesis-IsBalanced

-- A state with NIGHT that the check does not count.
abbrev in_transit : LedgerState ℕ
in_transit = record genesis { reserve_pool = max_supply - 10590; bridge_receiving = (7, 50) ∷ [] }

in_transit-night_supply : night_supply in_transit ≡ max_supply
unfolding counted_night total lookup token_eq
in_transit-night_supply = refl

check_night_balance_invariant-bridged_night_example :
    is_ok (check_night_balance_invariant in_transit) ≡ false
unfolding total
check_night_balance_invariant-bridged_night_example =
    check_night_balance_invariant-bridged_night in_transit in_transit-night_supply

abbrev one_intent : TimeFilterMap ℕ
one_intent = record { time_map = (40, 5 ∷ []) ∷ []; set = (5, 1) ∷ [] }

one_intent-taken : apply_member empty_map 5 40 10 3600 ≡ ok one_intent
unfolding apply_member contains upsert_one lookup insert MultiSet.insert
one_intent-taken = refl

no_replay_example : is_ok (apply_member (post_block_update one_intent 10) 5 40 20 3600) ≡ false
no_replay_example =
    no_replay 5 40 10 20 3600 3600 empty_map one_intent (post_block_update one_intent 10)
      empty-IsConsistent one_intent-taken (end_block 20 (omega arith) here)

abbrev coin : Utxo
coin = record { value = 9; owner = 7; type_ = night; intent_hash = 1; output_no = 0 }

abbrev purse : Dict Utxo UtxoMeta
purse = (coin, record { ctime = 3 }) ∷ []

abbrev split_coin : UnshieldedOffer
split_coin = record {
  inputs = coin ∷ [];
  outputs =
      record { value = 4; owner = 7; type_ = night }
      ∷ record { value = 5; owner = 8; type_ = night }
      ∷ [];
}

abbrev change : Dict Utxo UtxoMeta
change =
    (
      record { value = 4; owner = 7; type_ = night; intent_hash = 6; output_no = 0 },
      record { ctime = 12 },
    )
    ∷ (
      record { value = 5; owner = 8; type_ = night; intent_hash = 6; output_no = 1 },
      record { ctime = 12 },
    )
    ∷ []

split_coin-ok : apply_offer purse split_coin 6 12 ≡ ok change
unfolding apply_offer try_fold lookup erase insert utxo_eq
split_coin-ok = refl

purse-Below : Below 6 0 purse
unfolding lookup utxo_eq
purse-Below u c h = grind (arith, ==_iff 1 u.intent_hash)

apply_offer-conserves_example :
    holdings Utxo.value change + weigh Utxo.value (coin ∷ [])
    ≡ holdings Utxo.value purse + weigh Utxo.value (new_utxos 6 0 split_coin.outputs)
unfolding lookup
apply_offer-conserves_example =
    apply_offer-conserves Utxo.value purse change split_coin 6 12 (refl, tt) purse-Below
      (omega arith) split_coin-ok

repeated_input_refused_example :
    is_ok (apply_offer purse (record { inputs = coin ∷ coin ∷ []; outputs = [] }) 6 12) ≡ false
unfolding lookup
repeated_input_refused_example = repeated_input_refused purse coin [] [] [] [] 6 12 (refl, tt)

abbrev other_coin : Utxo
other_coin = record { value = 9; owner = 7; type_ = night; intent_hash = 2; output_no = 0 }

-- A state with bridged NIGHT to claim.
abbrev bridged : LedgerState ℕ
bridged = record genesis { bridge_receiving = (7, 50) ∷ [] }

bridged-counted_night : counted_night bridged ≡ max_supply
unfolding counted_night total lookup token_eq
bridged-counted_night = refl

bridge_claim_refused_example :
    is_ok (claim_unshielded outside bridged (bridge_claim 20 7 1) 50) ≡ false
unfolding lookup
bridge_claim_refused_example =
    bridge_claim_refused outside bridged 20 7 1 50 bridged-counted_night (omega arith) (omega arith)
      refl
