-- ===== src/Transaction/Balance.antt =====
-- The balance of NIGHT and transactions (ledger/src/semantics.rs).
use midnight_ledger.Prelude.{
  ℕ, ◌≡◌, ap, sym, subst, true, false, List, [], ◌∷◌, ok, is_ok, >>=-eq-ok, map_err, map_err-eq-ok,
  ok-injective, Result-cases, arith, inl, inr,
}
use midnight_ledger.Ledger.{Outside}
use midnight_ledger.Ledger.Night.{check_night_balance_invariant}
use midnight_ledger.Ledger.Claim.{generate_dust, claim_unshielded, ClaimRewards}
use midnight_ledger.Transaction.{
  StandardTransaction, Transaction, standard, claim_rewards, State, TransactionContext,
  invariant_violation, claim, Environment, fallible_segments,
}
use midnight_ledger.Transaction.Outside.{outside}
use midnight_ledger.Dust.CNight.{CNightEvent}
use midnight_ledger.Transaction.Section.{checked_balance, apply_section}
use midnight_ledger.Transaction.Apply.{apply_segments, apply_fallible, apply_guaranteed_only, apply}
use midnight_ledger.Transaction.Chain.{continue-elim}
use midnight_ledger.Transaction.Replay.{is_failure, guaranteed-applied}
use midnight_ledger.Dust.{DustState, DustError}

-- The state passes the balance check.
abbrev pub IsChecked : State → Type 0
IsChecked s = is_ok (check_night_balance_invariant s) ≡ true

claim-IsChecked :
    (O : Outside DustState DustError CNightEvent) (s t : State) (rewards : ClaimRewards)
    (tblock : ℕ)
    → claim_unshielded O s rewards tblock ≡ ok t
    → IsChecked t
unfolding claim_unshielded generate_dust
claim-IsChecked O s t rewards tblock e = ground arith

module _ (E : Environment) (context : TransactionContext) where
  checked_balance-IsChecked : (s t : State) → checked_balance E s ≡ ok t → IsChecked t
  unfolding checked_balance
  checked_balance-IsChecked s t e =
      let (unit, e₁, e₂) =
        >>=-eq-ok (map_err invariant_violation (check_night_balance_invariant s)) _ e in
      subst IsChecked (ok-injective e₂)
        (ap is_ok (map_err-eq-ok invariant_violation (check_night_balance_invariant s) e₁))

  apply_section-IsChecked :
      (tx : StandardTransaction) (segment : ℕ) (s t : State)
      → apply_section E context tx segment s ≡ ok t
      → IsChecked t
  unfolding apply_section
  apply_section-IsChecked tx segment s t e =
      let (u, _, e₁) = >>=-eq-ok _ (checked_balance E) e in checked_balance-IsChecked u t e₁

  apply_segments-IsChecked :
      (tx : StandardTransaction) (s : State) (segments : List ℕ)
      → IsChecked s
      → IsChecked (apply_segments E context tx s segments).0
  unfolding apply_segments
  apply_segments-IsChecked tx s [] c = c
  apply_segments-IsChecked tx s (segment ∷ segments) c =
      elim (Result-cases (apply_section E context tx segment s)) [
        | inl (t, e) ↦
            rw (apply_segments, e)
              (apply_segments-IsChecked tx t segments (apply_section-IsChecked tx segment s t e))
        | inr (error, e) ↦ rw (apply_segments, e) (apply_segments-IsChecked tx s segments c)
      ]

  apply_fallible-IsChecked :
      (tx : Transaction) (s : State) → IsChecked s → IsChecked (apply_fallible E context tx s).0
  unfolding apply_fallible
  apply_fallible-IsChecked (standard stx) s c =
      apply_segments-IsChecked stx s (fallible_segments stx) c
  apply_fallible-IsChecked (claim_rewards rewards) s c = c

  apply_guaranteed_only-IsChecked :
      (tx : Transaction) (s t : State) → apply_guaranteed_only E context tx s ≡ ok t → IsChecked t
  unfolding apply_guaranteed_only
  apply_guaranteed_only-IsChecked (standard stx) s t e = apply_section-IsChecked stx 0 s t e
  apply_guaranteed_only-IsChecked (claim_rewards rewards) s t e =
      claim-IsChecked (outside E) s t rewards context.block_context.tblock (map_err-eq-ok claim _ e)

  -- A transaction keeps the balance of NIGHT: if the state passes the check, it passes it after any
  -- transaction; and it passes it after every transaction that does not fail, whatever it was before.
  pub apply-IsChecked :
      (s : State) (tx : Transaction)
      → (IsChecked s → IsChecked (apply E context s tx).0)
        × (is_failure (apply E context s tx).1 ≡ false → IsChecked (apply E context s tx).0)
  unfolding apply
  apply-IsChecked s tx = (
    λ c.
        continue-elim (λ out. IsChecked out.0) (apply_fallible E context tx) s
          (apply_guaranteed_only E context tx s)
          (λ t e. apply_fallible-IsChecked tx t (apply_guaranteed_only-IsChecked tx s t e))
          (λ error e. c),
    λ h.
        let (g, e, rest) = guaranteed-applied E context s tx h in
        subst IsChecked (sym rest)
          (apply_fallible-IsChecked tx g (apply_guaranteed_only-IsChecked tx s g e)),
  )
