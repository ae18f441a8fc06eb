-- ===== src/Ledger/Supply.antt =====
-- The supply of NIGHT is kept by system transactions (ledger/src/semantics.rs).
use midnight_ledger.Prelude.{
  ℕ, ◌+◌, ◌-◌, ◌%◌, ◌^◌, ◌≡◌, refl, sym, Bool, true, false, ◌&&◌, none, some, List, arith, ltb, leb,
  Result, ok, err, ◌>>=◌, fail_if, map_err, try_fold, nat_eq, Option-cases, Bool-cases, inl, inr,
  subst, try_fold-err, >>=-elim, map_err-eq-err, fail_if-eq-err, fail_if-false, ltb→ge,
}
use midnight_ledger.Ledger.{
  LedgerState, token_eq, saturating_add, max_supply, ClaimKind, reward, cardano_bridge,
  OutputInstructionUnshielded, Outside,
}
use midnight_ledger.Ledger.Night.{night_of, counted_night}
use midnight_ledger.Ledger.System.{
  SystemTransaction, SystemTransactionError, basis_points_of, checked_sum, totals, bridge_split,
  credit_bridge, credit, distribute_one, checked, distribute, apply_system_tx, overwrite_parameters,
  distribute_night, pay_block_rewards_to_treasury, pay_from_treasury_shielded,
  pay_from_treasury_unshielded, distribute_reserve, cnight_generates_dust_update, illegal_payout,
  invariant_violation, invalid_basis_points, dust_failure, illegal_reserve_distribution,
}
use midnight_ledger.Ledger.Payouts.{
  ValidParameters, IsBalanced, night_of-insert, checked_sum-amounts, counted_night-try_fold,
  checked-balanced, paid-counted_night,
}

module _ {D DustError CNightEvent : Type 0} (E : Outside D DustError CNightEvent) where
  abbrev pub is_violation : SystemTransactionError DustError → Bool
  is_violation (invariant_violation _) = true
  is_violation _ = false

  -- The result is a balanced state, or an error that is not a violation of the balance.
  abbrev pub Settles : Result (SystemTransactionError DustError) (LedgerState D) → Type 0
  Settles (ok t) = IsBalanced E t
  Settles (err e) = is_violation e ≡ false

  distribute_one-err :
      (kind : ClaimKind) (tblock : ℕ) (s : LedgerState D) (o : OutputInstructionUnshielded)
      (e : SystemTransactionError DustError)
      → distribute_one E kind tblock s o ≡ err e
      → is_violation e ≡ false
  unfolding distribute_one credit credit_bridge bridge_split basis_points_of
  distribute_one-err reward tblock s o e h = grind arith
  distribute_one-err cardano_bridge tblock s o e h = grind arith

  checked-Settles :
      (r : Result (SystemTransactionError DustError) (LedgerState D))
      → ((e : SystemTransactionError DustError) → r ≡ err e → is_violation e ≡ false)
      → ((t : LedgerState D) → r ≡ ok t → IsBalanced E t)
      → Settles (r >>= λ t. checked E t)
  checked-Settles (ok t) bad good =
      subst Settles (sym (checked-balanced E t (good t refl).exact)) (good t refl)
  checked-Settles (err e) bad good = bad e refl

  -- What leaves a pool arrives at the outputs.
  distribute-Settles :
      (s : LedgerState D) (kind : ClaimKind) (os : List OutputInstructionUnshielded) (tblock : ℕ)
      → IsBalanced E s
      → Settles (distribute E s kind os tblock)
  unfolding distribute
  distribute-Settles s kind os tblock b = elim (Option-cases (checked_sum os 0)) [
    | inl over ↦ rw (Settles, over) refl
    | inr (n, sum-eq) ↦
        let all = checked_sum-amounts os 0 n sum-eq in
        let paid = record s {
          block_reward_pool = s.block_reward_pool - (totals kind n).0;
          locked_pool = s.locked_pool - (totals kind n).1;
        } in
        elim (Bool-cases
          (leb (totals kind n).0 s.block_reward_pool && leb (totals kind n).1 s.locked_pool)) [
            | inr short ↦ rw (Settles, sum-eq, short) refl
            | inl enough ↦
                let left = paid-counted_night E s kind n enough in
                let exact = b.exact in
                rw (Settles, sum-eq, enough)
                  (checked-Settles (try_fold (distribute_one E kind tblock) paid os)
                    (λ e.
                      try_fold-err (λ e. is_violation e ≡ false) (distribute_one E kind tblock)
                        (λ r o d. distribute_one-err kind tblock r o d) paid e os)
                    (λ t h.
                      let (sum, same) =
                        counted_night-try_fold E kind tblock paid t os b.parameters (omega arith)
                          h in
                      record {
                        exact = omega arith;
                        parameters = subst ValidParameters (sym same) b.parameters;
                      }))
          ]
  ]

  -- Every system transaction on a balanced state (its NIGHT outside of `bridge_receiving`, which the
  -- check does not count, is exactly the maximum and its basis points are valid) gives a balanced state, or an error that is not a violation of the balance.
  pub apply_system_tx-Settles :
      (s : LedgerState D) (tx : SystemTransaction CNightEvent) (tblock : ℕ)
      → IsBalanced E s
      → Settles (apply_system_tx E s tx tblock)
  unfolding apply_system_tx counted_night
  apply_system_tx-Settles s (overwrite_parameters p) tblock b =
      >>=-elim Settles
        (fail_if (ltb 10000 p.cardano_to_midnight_bridge_fee_basis_points)
          (invalid_basis_points p.cardano_to_midnight_bridge_fee_basis_points))
        _ (λ e h. fail_if-eq-err (λ e. is_violation e ≡ false) _ _ refl h)
        (λ _ h. record { exact = b.exact; parameters = ground (arith, fail_if-false _ _ h) })
  apply_system_tx-Settles s (distribute_night kind os) tblock b =
      distribute-Settles s kind os tblock b
  apply_system_tx-Settles s (pay_block_rewards_to_treasury n) tblock b =
      >>=-elim Settles
        (fail_if (ltb s.block_reward_pool n)
          (illegal_payout (some n) s.block_reward_pool none s.locked_pool))
        _ (λ e h. fail_if-eq-err (λ e. is_violation e ≡ false) _ _ refl h)
        (λ _ h.
          let enough = ltb→ge s.block_reward_pool n (fail_if-false _ _ h) in
          let exact = b.exact in
          record {
            exact =
                omega (arith, night_of-insert (saturating_add (night_of s.treasury) n) s.treasury);
            parameters = b.parameters;
          })
  apply_system_tx-Settles s pay_from_treasury_shielded tblock b = refl
  apply_system_tx-Settles s pay_from_treasury_unshielded tblock b = refl
  apply_system_tx-Settles s (distribute_reserve n) tblock b =
      >>=-elim Settles
        (fail_if (ltb s.reserve_pool n) (illegal_reserve_distribution n s.reserve_pool)) _
        (λ e h. fail_if-eq-err (λ e. is_violation e ≡ false) _ _ refl h)
        (λ _ h.
          let enough = ltb→ge s.reserve_pool n (fail_if-false _ _ h) in
          let moved = record s {
            reserve_pool = s.reserve_pool - n;
            block_reward_pool = (s.block_reward_pool + n) % 2 ^ 128;
          } in
          let exact = b.exact in
          let kept : counted_night moved ≡ max_supply = omega arith in
          subst Settles (sym (checked-balanced E moved kept))
            (record { exact = kept; parameters = b.parameters }))
  apply_system_tx-Settles s (cnight_generates_dust_update events) tblock b =
      >>=-elim Settles (map_err dust_failure (E.cnight_generates_dust_update s.dust events tblock))
        _ (λ e h. map_err-eq-err (λ e. is_violation e ≡ false) dust_failure _ (λ _. refl) h)
        (λ _ _. record { exact = b.exact; parameters = b.parameters })
