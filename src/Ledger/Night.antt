-- ===== src/Ledger/Night.antt =====
-- The supply of NIGHT (`check_night_balance_invariant` of ledger/src/semantics.rs), with the
-- annotations of the maps that it reads (`NightAnn` of ledger/src/annotation.rs).
use midnight_ledger.Prelude.{
  ℕ, ◌+◌, ◌-◌, ◌%◌, ◌^◌, ◌<◌, ◌≡◌, not, [], ◌∷◌, arith, ◌==◌, if◌then◌else◌, min, Result, fail_if,
  is_ok, nat_eq, ==_iff, unwrap_or,
}
use midnight_ledger.Prelude.Dict.{Dict, lookup, total}
use midnight_ledger.Ledger.{
  LedgerState, Utxo, UtxoMeta, ContractState, TokenType, unshielded, token_eq, night, max_supply,
  saturating_add, InvariantViolation, night_balance,
}

abbrev pub utxo_night : Utxo → UtxoMeta → ℕ
utxo_night u _ = if u.type_ == night then u.value else 0

abbrev pub night_of : Dict TokenType ℕ → ℕ
night_of balance = unwrap_or (lookup (unshielded night) balance) 0

abbrev pub contract_night : ℕ → ContractState → ℕ
contract_night _ c = night_of c.balance

abbrev pub reward_night : ℕ → ℕ → ℕ
reward_night _ value = value

-- `NightAnn::append` over the entries of a map, by the weight of each.
unfoldable pub ann {ℓ κ} : {K : Type ℓ} {V : Type κ} → (K → V → ℕ) → Dict K V → ℕ
ann w [] = 0
ann w ((k, v) ∷ m) = saturating_add (w k v) (ann w m)

module _ {D : Type 0} where
  unfoldable pub total_night : LedgerState D → ℕ
  unfolding ann
  total_night self =
      (ann utxo_night self.utxo
        + self.locked_pool
        + self.reserve_pool
        + self.block_reward_pool
        + night_of self.treasury
        + ann reward_night self.unclaimed_block_rewards
        + ann contract_night self.contract)
      % 2 ^ 128

  unfoldable pub check_night_balance_invariant :
      LedgerState D → Result InvariantViolation (Unit {0})
  unfolding total_night
  check_night_balance_invariant self =
      fail_if (not (total_night self == max_supply)) (night_balance (total_night self))

  -- The NIGHT that the check counts, all but `bridge_receiving`, as a plain number without saturation
  -- and wrap-around.
  unfoldable pub counted_night : LedgerState D → ℕ
  counted_night s =
      total utxo_night s.utxo
      + s.locked_pool
      + s.reserve_pool
      + s.block_reward_pool
      + night_of s.treasury
      + total reward_night s.unclaimed_block_rewards
      + total contract_night s.contract

module _ {D : Type 0} where
  -- The NIGHT of `bridge_receiving`, and all NIGHT of a state.
  abbrev pub bridged_night : LedgerState D → ℕ
  bridged_night s = total reward_night s.bridge_receiving

  abbrev pub night_supply : LedgerState D → ℕ
  night_supply s = counted_night s + bridged_night s

pub ann-total :
    {K : Type 0} {V : Type 0} (w : K → V → ℕ) (m : Dict K V)
    → ann w m ≡ min (total w m) (2 ^ 128 - 1)
unfolding ann total
ann-total w [] = omega arith
ann-total w ((k, v) ∷ m) = omega (arith, ann-total w m)

module _ {D : Type 0} where
  -- As long as the NIGHT that the check counts fits in 128 bits, it is read exactly.
  pub total_night-counted_night :
      (s : LedgerState D) → counted_night s < 2 ^ 128 → total_night s ≡ counted_night s
  unfolding total_night counted_night
  total_night-counted_night s b = omega (
    arith,
    ann-total utxo_night s.utxo,
    ann-total reward_night s.unclaimed_block_rewards,
    ann-total contract_night s.contract,
  )

  -- As long as the NIGHT that it counts fits in 128 bits, the check succeeds exactly if this is the
  -- maximum.
  pub is_ok-check :
      (s : LedgerState D)
      → counted_night s < 2 ^ 128
      → is_ok (check_night_balance_invariant s) ≡ (counted_night s == max_supply)
  unfolding check_night_balance_invariant
  is_ok-check s b = ground (arith, total_night-counted_night s b)

  -- In a state whose NIGHT, the bridged amounts included, is exactly the maximum, the balance check
  -- succeeds exactly if nothing is in `bridge_receiving`.
  pub check_night_balance_invariant-bridged_night :
      (s : LedgerState D)
      → night_supply s ≡ max_supply
      → is_ok (check_night_balance_invariant s) ≡ (bridged_night s == 0)
  check_night_balance_invariant-bridged_night s exact =
      let bound : counted_night s < 2 ^ 128 = omega (arith, exact) in
      ground (
        arith,
        is_ok-check s bound,
        ==_iff (counted_night s) max_supply,
        ==_iff (bridged_night s) 0,
      )
