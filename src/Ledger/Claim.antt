-- ===== src/Ledger/Claim.antt =====
-- Claims of block rewards and of bridged NIGHT (`claim_unshielded` of ledger/src/semantics.rs), with
-- a failed claim as an error: the state is then the old one.
use midnight_ledger.Prelude.{
  ℕ, ◌-◌, Bool, true, false, ◌&&◌, none, some, ltb, ◌==◌, if◌then◌else◌, Result, ok, ◌>>=◌, ◌>>◌,
  fail_if, map_err, nat_eq, unwrap_or,
}
use midnight_ledger.Prelude.Dict.{Dict, lookup, insert, erase}
use midnight_ledger.Ledger.{
  LedgerState, Utxo, utxo_eq, night, add_seconds, ClaimKind, reward, cardano_bridge, Outside,
  InvariantViolation, TransactionApplicationError,
}
use midnight_ledger.Ledger.Replay.{apply_member}
use midnight_ledger.Ledger.Night.{check_night_balance_invariant}

-- `ClaimRewardsTransaction`, with the address of its owner.
pub record ClaimRewards : Type 0 where
  pub value : ℕ
  pub owner : ℕ
  pub nonce : ℕ
  pub kind : ClaimKind

pub data ClaimError (DustError : Type 0) : Type 0 where
  insufficient_claimable : ℕ → ℕ → ℕ → ClaimKind → ClaimError DustError
  reward_too_small : ℕ → ℕ → ClaimError DustError
  replay_protection_violation : TransactionApplicationError → ClaimError DustError
  dust_failure : DustError → ClaimError DustError
  invariant_violation : InvariantViolation → ClaimError DustError

abbrev pub is_reward : ClaimKind → Bool
is_reward reward = true
is_reward cardano_bridge = false

-- What is left of an entry: an empty one goes.
abbrev pub keep_rest : ℕ → ℕ → Dict ℕ ℕ → Dict ℕ ℕ
keep_rest address remaining m =
    if remaining == 0 then erase address m else insert address remaining m

module _ {D DustError CNightEvent : Type 0} (E : Outside D DustError CNightEvent) where
  abbrev pub claimable : LedgerState D → ClaimKind → ℕ → ℕ
  claimable state cardano_bridge address = unwrap_or (lookup address state.bridge_receiving) 0
  claimable state reward address = unwrap_or (lookup address state.unclaimed_block_rewards) 0

  abbrev pub take_claim : LedgerState D → ClaimKind → ℕ → ℕ → LedgerState D
  take_claim state cardano_bridge address remaining = record state {
    bridge_receiving = keep_rest address remaining state.bridge_receiving;
  }
  take_claim state reward address remaining = record state {
    unclaimed_block_rewards = keep_rest address remaining state.unclaimed_block_rewards;
  }

  -- The dust that a registered owner begins to gain.
  unfoldable pub generate_dust :
      LedgerState D → ℕ → ℕ → ℕ → ℕ → Result (ClaimError DustError) (LedgerState D)
  generate_dust state address hash value tblock = elim (E.address_delegation state.dust address) [
    | none ↦ ok state
    | some dust_addr ↦ do
      new_dust ← map_err dust_failure (E.fresh_dust_output state.dust hash value dust_addr tblock)
      ok (record state { dust = new_dust })
  ]

  unfoldable pub claim_unshielded :
      LedgerState D → ClaimRewards → ℕ → Result (ClaimError DustError) (LedgerState D)
  unfolding generate_dust
  claim_unshielded state tx tblock = do
    let there = claimable state tx.kind tx.owner
    fail_if (ltb there tx.value) (insufficient_claimable tx.value there tx.owner tx.kind)
    let minimum = E.min_claimable_rewards state.parameters
    fail_if (is_reward tx.kind && ltb tx.value minimum) (reward_too_small tx.value minimum)
    let hash =
        E.mk_intent_hash (record { amount = tx.value; target_address = tx.owner; nonce = tx.nonce })
          night
    let ttl = state.parameters.global_ttl
    replay ←
        map_err replay_protection_violation
          (apply_member state.replay_protection hash (add_seconds tblock ttl) tblock ttl)
    let output : Utxo = record {
      value = tx.value;
      owner = tx.owner;
      type_ = night;
      intent_hash = hash;
      output_no = 0;
    }
    let paid = record (take_claim state tx.kind tx.owner (there - tx.value)) {
      utxo = insert output (record { ctime = tblock }) state.utxo;
      replay_protection = replay;
    }
    result ← generate_dust paid tx.owner hash tx.value tblock
    _ ← map_err invariant_violation (check_night_balance_invariant result)
    ok result
