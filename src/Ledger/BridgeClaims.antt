-- ===== src/Ledger/BridgeClaims.antt =====
-- Claims of bridged NIGHT (`claim_unshielded` with `ClaimKind::CardanoBridge` in
-- ledger/src/semantics.rs) meet the balance check, which does not count `bridge_receiving`.
use midnight_ledger.Prelude.{
  ℕ, ◌-◌, ◌^◌, ◌<◌, ◌≡◌, refl, false, ◌&&◌, arith, ltb, Result, ok, ◌>>=◌, fail_if, map_err, nat_eq,
  unwrap_or, ◌==◌, is_ok, >>=-elim,
}
use midnight_ledger.Prelude.Dict.{lookup, insert, contains_key}
use midnight_ledger.Storage.TimeFilterMap.{TimeFilterMap}
use midnight_ledger.Ledger.{LedgerState, utxo_eq, max_supply, add_seconds, cardano_bridge, Outside}
use midnight_ledger.Ledger.Replay.{apply_member}
use midnight_ledger.Ledger.Night.{
  check_night_balance_invariant, counted_night, total_night, ann-total, utxo_night, reward_night,
  contract_night,
}
use midnight_ledger.Ledger.Claim.{
  ClaimRewards, ClaimError, claim_unshielded, generate_dust, keep_rest, insufficient_claimable,
  reward_too_small, replay_protection_violation, invariant_violation,
}
use midnight_ledger.Ledger.Rewards.{utxos-insert, claim_output}

-- The claim of an amount of bridged NIGHT.
abbrev pub bridge_claim : ℕ → ℕ → ℕ → ClaimRewards
bridge_claim value owner nonce = record {
  value = value;
  owner = owner;
  nonce = nonce;
  kind = cardano_bridge;
}

module _ {D DustError CNightEvent : Type 0} (E : Outside D DustError CNightEvent) where
  abbrev pub bridge_paid : LedgerState D → ClaimRewards → ℕ → TimeFilterMap ℕ → LedgerState D
  bridge_paid s tx tblock replay =
      let there = unwrap_or (lookup tx.owner s.bridge_receiving) 0 in
      record s {
        bridge_receiving = keep_rest tx.owner (there - tx.value) s.bridge_receiving;
        utxo = insert (claim_output E tx) (record { ctime = tblock }) s.utxo;
        replay_protection = replay;
      }

  -- What the check counts after a claim, with its saturation and wrap-around, is not the maximum.
  total_night-bridge_paid :
      (s : LedgerState D) (tx : ClaimRewards) (tblock : ℕ) (replay : TimeFilterMap ℕ)
      → counted_night s ≡ max_supply
      → 0 < tx.value
      → tx.value < 2 ^ 128
      → contains_key (claim_output E tx) s.utxo ≡ false
      → (total_night (bridge_paid s tx tblock replay) == max_supply) ≡ false
  unfolding total_night counted_night
  total_night-bridge_paid s tx tblock replay exact positive word fresh =
      let grown = utxos-insert (claim_output E tx) (record { ctime = tblock }) s.utxo in
      let counted =
        ann-total utxo_night (insert (claim_output E tx) (record { ctime = tblock }) s.utxo) in
      let rewards = ann-total reward_night s.unclaimed_block_rewards in
      let contracts = ann-total contract_night s.contract in ground (arith, fresh)

  generate_dust-total_night :
      (s t : LedgerState D) (address hash value tblock : ℕ)
      → generate_dust E s address hash value tblock ≡ ok t
      → total_night t ≡ total_night s
  unfolding generate_dust total_night
  generate_dust-total_night s t address hash value tblock e = grind arith

  unbalanced-refused :
      (t : LedgerState D)
      → (total_night t == max_supply) ≡ false
      → is_ok {E = ClaimError DustError}
          (map_err invariant_violation (check_night_balance_invariant t) >>= λ _. ok t)
        ≡ false
  unfolding check_night_balance_invariant
  unbalanced-refused t over = rw over refl

  -- A claim of a positive amount of bridged NIGHT, below 2^128, from a state whose NIGHT outside of
  -- `bridge_receiving` is exactly the maximum and that does not have the claim's output, never
  -- succeeds.
  pub bridge_claim_refused :
      (s : LedgerState D) (value owner nonce tblock : ℕ)
      → counted_night s ≡ max_supply
      → 0 < value
      → value < 2 ^ 128
      → contains_key (claim_output E (bridge_claim value owner nonce)) s.utxo ≡ false
      → is_ok (claim_unshielded E s (bridge_claim value owner nonce) tblock) ≡ false
  unfolding claim_unshielded
  bridge_claim_refused s value owner nonce tblock exact positive word fresh =
      let tx = bridge_claim value owner nonce in
      let there = unwrap_or (lookup owner s.bridge_receiving) 0 in
      let minimum = E.min_claimable_rewards s.parameters in
      let ttl = s.parameters.global_ttl in
      let hash = (claim_output E tx).intent_hash in
      let refused = λ (r : Result (ClaimError DustError) (LedgerState D)). (is_ok r ≡ false) in
      >>=-elim refused
        (fail_if (ltb there value) (insufficient_claimable value there owner cardano_bridge)) _
        (λ _ _. refl)
        (λ _ _.
          >>=-elim refused (fail_if (false && ltb value minimum) (reward_too_small value minimum)) _
            (λ _ _. refl)
            (λ _ _.
              >>=-elim refused
                (map_err replay_protection_violation
                  (apply_member s.replay_protection hash (add_seconds tblock ttl) tblock ttl))
                _ (λ _ _. refl)
                (λ replay _.
                  let payout = bridge_paid s tx tblock replay in
                  let paid = total_night-bridge_paid s tx tblock replay exact positive word fresh in
                  >>=-elim refused (generate_dust E payout owner hash value tblock) _ (λ _ _. refl)
                    (λ t h.
                      let same = generate_dust-total_night payout t owner hash value tblock h in
                      unbalanced-refused t (rw same paid)))))
