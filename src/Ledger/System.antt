-- ===== src/Ledger/System.antt =====
-- System transactions (`apply_system_tx` of ledger/src/semantics.rs). Events are left out: they are
-- read by no transition.
use midnight_ledger.Prelude.{
  ℕ, ◌+◌, ◌-◌, ◌*◌, ◌/◌, ◌%◌, ◌^◌, ◌&&◌, Option, none, some, List, [], ◌∷◌, ltb, leb, if◌then◌else◌,
  Result, ok, err, ◌>>=◌, ◌>>◌, fail_if, map_err, try_fold, nat_eq, unwrap_or,
}
use midnight_ledger.Prelude.Dict.{lookup, insert}
use midnight_ledger.Ledger.{
  LedgerState, LedgerParameters, unshielded, token_eq, night, saturating_add, add_seconds,
  ClaimKind, reward, cardano_bridge, OutputInstructionUnshielded, Outside, InvariantViolation,
  TransactionApplicationError,
}
use midnight_ledger.Ledger.Replay.{apply_member}
use midnight_ledger.Ledger.Night.{check_night_balance_invariant, night_of}

pub data SystemTransaction (CNightEvent : Type 0) : Type 0 where
  overwrite_parameters : LedgerParameters → SystemTransaction CNightEvent
  distribute_night : ClaimKind → List OutputInstructionUnshielded → SystemTransaction CNightEvent
  pay_block_rewards_to_treasury : ℕ → SystemTransaction CNightEvent
  pay_from_treasury_shielded : SystemTransaction CNightEvent
  pay_from_treasury_unshielded : SystemTransaction CNightEvent
  distribute_reserve : ℕ → SystemTransaction CNightEvent
  cnight_generates_dust_update : List CNightEvent → SystemTransaction CNightEvent

pub data SystemTransactionError (DustError : Type 0) : Type 0 where
  illegal_payout : Option ℕ → ℕ → Option ℕ → ℕ → SystemTransactionError DustError
  replay_protection_failure : TransactionApplicationError → SystemTransactionError DustError
  illegal_reserve_distribution : ℕ → ℕ → SystemTransactionError DustError
  invalid_basis_points : ℕ → SystemTransactionError DustError
  invariant_violation : InvariantViolation → SystemTransactionError DustError
  treasury_disabled : SystemTransactionError DustError
  dust_failure : DustError → SystemTransactionError DustError

-- The guard stands as the source has it.
unfoldable pub basis_points_of {ℓ} : {E : Type ℓ} → (ℕ → E) → ℕ → ℕ → Result E ℕ
basis_points_of invalid points val = do
  fail_if (leb points 10000) (invalid points)
  let quotient = val / 10000
  let remainder = val % 10000
  ok ((quotient * points % 2 ^ 128 + (remainder * points) / 10000) % 2 ^ 128)

-- `checked_add` over the amounts.
unfoldable pub checked_sum : List OutputInstructionUnshielded → ℕ → Option ℕ
checked_sum [] acc = some acc
checked_sum (o ∷ os) acc =
    let rest = checked_sum os (acc + o.amount) in
    if ltb (acc + o.amount) (2 ^ 128) then rest else none

-- What goes out of the block reward pool and of the locked pool.
abbrev pub totals : ClaimKind → ℕ → ℕ × ℕ
totals reward sum = (sum, 0)
totals cardano_bridge sum = (0, sum)

module _ {D DustError CNightEvent : Type 0} (E : Outside D DustError CNightEvent) where
  unfoldable pub credit_reward : LedgerState D → OutputInstructionUnshielded → LedgerState D
  credit_reward state o =
      let curr_value = unwrap_or (lookup o.target_address state.unclaimed_block_rewards) 0 in
      record state {
        unclaimed_block_rewards =
            insert o.target_address (saturating_add curr_value o.amount)
              state.unclaimed_block_rewards;
      }

  -- The fee, and the amount after it. The fee may exceed the amount, and then wraps around.
  unfoldable pub bridge_split :
      LedgerParameters → ℕ → Result (SystemTransactionError DustError) (ℕ × ℕ)
  unfolding basis_points_of
  bridge_split parameters amount =
      if ltb amount parameters.c_to_m_bridge_min_amount then ok (amount, 0) else do
        fee ←
            basis_points_of invalid_basis_points
              parameters.cardano_to_midnight_bridge_fee_basis_points amount
        ok (fee, (amount + 2 ^ 128 - fee) % 2 ^ 128)

  unfoldable pub credit_bridge :
      LedgerState D
      → OutputInstructionUnshielded
      → Result (SystemTransactionError DustError) (LedgerState D)
  unfolding bridge_split
  credit_bridge state o = do
    split ← bridge_split state.parameters o.amount
    let curr_value = unwrap_or (lookup o.target_address state.bridge_receiving) 0
    ok (record state {
      treasury =
          insert (unshielded night) (saturating_add (night_of state.treasury) split.0)
            state.treasury;
      bridge_receiving =
          insert o.target_address (saturating_add curr_value split.1) state.bridge_receiving;
    })

  unfoldable pub credit :
      ClaimKind
      → LedgerState D
      → OutputInstructionUnshielded
      → Result (SystemTransactionError DustError) (LedgerState D)
  unfolding credit_reward credit_bridge
  credit reward state o = ok (credit_reward state o)
  credit cardano_bridge state o = credit_bridge state o

  -- One round of the loop over the outputs.
  unfoldable pub distribute_one :
      ClaimKind
      → ℕ
      → LedgerState D
      → OutputInstructionUnshielded
      → Result (SystemTransactionError DustError) (LedgerState D)
  unfolding credit
  distribute_one kind tblock state o = do
    let ttl = state.parameters.global_ttl
    replay ← map_err replay_protection_failure (
        apply_member state.replay_protection (E.mk_intent_hash o night) (add_seconds tblock ttl)
          tblock ttl)
    credited ← credit kind state o
    ok (record credited { replay_protection = replay })

  -- `self.check_night_balance_invariant()?` and the state.
  unfoldable pub checked : LedgerState D → Result (SystemTransactionError DustError) (LedgerState D)
  checked state = do _ ← map_err invariant_violation (check_night_balance_invariant state); ok state

  unfoldable pub distribute :
      LedgerState D
      → ClaimKind
      → List OutputInstructionUnshielded
      → ℕ
      → Result (SystemTransactionError DustError) (LedgerState D)
  unfolding distribute_one checked_sum checked
  distribute self kind outputs tblock = elim (checked_sum outputs 0) [
    | none ↦ err (illegal_payout none self.block_reward_pool none self.locked_pool)
    | some sum ↦
        let (claimed_total, bridged_total) = totals kind sum in
        if leb claimed_total self.block_reward_pool && leb bridged_total self.locked_pool
        then (do
          let paid = record self {
            block_reward_pool = self.block_reward_pool - claimed_total;
            locked_pool = self.locked_pool - bridged_total;
          }
          state ← try_fold (distribute_one kind tblock) paid outputs
          checked state)
        else err (
            illegal_payout (some claimed_total) self.block_reward_pool (some bridged_total)
              self.locked_pool)
  ]

  unfoldable pub apply_system_tx :
      LedgerState D
      → SystemTransaction CNightEvent
      → ℕ
      → Result (SystemTransactionError DustError) (LedgerState D)
  unfolding distribute checked
  apply_system_tx self (overwrite_parameters new_params) tblock = do
    fail_if (ltb 10000 new_params.cardano_to_midnight_bridge_fee_basis_points)
        (invalid_basis_points new_params.cardano_to_midnight_bridge_fee_basis_points)
    ok (record self { parameters = new_params })
  apply_system_tx self (distribute_night kind outputs) tblock = distribute self kind outputs tblock
  apply_system_tx self (pay_block_rewards_to_treasury amount) tblock = do
    fail_if (ltb self.block_reward_pool amount)
        (illegal_payout (some amount) self.block_reward_pool none self.locked_pool)
    ok (record self {
      block_reward_pool = self.block_reward_pool - amount;
      treasury =
          insert (unshielded night) (saturating_add (night_of self.treasury) amount) self.treasury;
    })
  apply_system_tx self pay_from_treasury_shielded tblock = err treasury_disabled
  apply_system_tx self pay_from_treasury_unshielded tblock = err treasury_disabled
  apply_system_tx self (distribute_reserve amount) tblock = do
    fail_if (ltb self.reserve_pool amount) (illegal_reserve_distribution amount self.reserve_pool)
    checked (record self {
      reserve_pool = self.reserve_pool - amount;
      block_reward_pool = (self.block_reward_pool + amount) % 2 ^ 128;
    })
  apply_system_tx self (cnight_generates_dust_update events) tblock = do
    new_dust ← map_err dust_failure (E.cnight_generates_dust_update self.dust events tblock)
    ok (record self { dust = new_dust })
