-- ===== src/Transaction/Batch.antt =====
-- Batches of transactions, and the segments of one (ledger/src/semantics.rs).
use midnight_ledger.Prelude.{
  ℕ, ◌≡◌, refl, ap, List, [], ◌∷◌, map, ◌⊎◌, inl, inr, Result, ok, err, ◌>>=◌, try_fold,
  Result-cases,
}
use midnight_ledger.Transaction.{
  StandardTransaction, Transaction, State, TransactionContext, TransactionInvalid, Environment,
}
use midnight_ledger.Transaction.Section.{apply_section}
use midnight_ledger.Transaction.Apply.{
  TransactionResult, success, partial_success, failure, apply_segments, apply,
  batch_apply_all_or_nothing, batch_apply_until_first_failure, with_result, Stopped,
}

-- The segments that succeeded.
abbrev pub succeeded : List (ℕ × Result TransactionInvalid (Unit {0})) → List ℕ
succeeded [] = []
succeeded ((segment, ok _) ∷ results) = segment ∷ succeeded results
succeeded ((_, err _) ∷ results) = succeeded results

-- The error of a stopped batch.
abbrev pub forget :
    {A R T : Type 0}
    → Result (A × R × TransactionInvalid × T) (A × R)
    → Result TransactionInvalid (A × R)
forget (ok out) = ok out
forget (err (_, _, e, _)) = err e

TransactionResult-cases :
    (r : TransactionResult)
    → (r ≡ success)
      ⊎ (((rs : List (ℕ × Result TransactionInvalid (Unit {0}))) × (r ≡ partial_success rs))
          ⊎ ((e : TransactionInvalid) × (r ≡ failure e)))
TransactionResult-cases success = inl refl
TransactionResult-cases (partial_success rs) = inr (inl (rs, refl))
TransactionResult-cases (failure e) = inr (inr (e, refl))

forget-with_result :
    (r : TransactionResult) (m : Result Stopped (State × List TransactionResult))
    → (forget m >>= λ out. ok (out.0, r ∷ out.1)) ≡ forget (with_result r m)
forget-with_result r (ok (last, results)) = refl
forget-with_result r (err (s, results, e, rest)) = refl

module _ (E : Environment) (context : TransactionContext) where
  -- The segments are reported in order, and the state after them is that of the segments that
  -- succeeded, applied one after the other, without the others: a segment that fails leaves no trace.
  pub apply_segments-succeeded :
      (tx : StandardTransaction) (s : State) (segments : List ℕ)
      → let (t, results) = apply_segments E context tx s segments in
        (map (λ r. r.0) results ≡ segments)
        × (try_fold (λ s segment. apply_section E context tx segment s) s (succeeded results)
            ≡ ok t)
  unfolding apply_segments try_fold
  apply_segments-succeeded tx s [] = (refl, refl)
  apply_segments-succeeded tx s (segment ∷ segments) =
      elim (Result-cases (apply_section E context tx segment s)) [
        | inl (t, e) ↦
            let (order, run) = apply_segments-succeeded tx t segments in
            rw (apply_segments, e) (ap (λ rest. segment ∷ rest) order, rw e run)
        | inr (error, e) ↦
            let (order, run) = apply_segments-succeeded tx s segments in
            rw (apply_segments, e) (ap (λ rest. segment ∷ rest) order, run)
      ]

  -- `batch_apply_all_or_nothing` is `batch_apply_until_first_failure` without what a failure leaves.
  pub all_or_nothing-until_first_failure :
      (s : State) (txs : List Transaction)
      → batch_apply_all_or_nothing E context s txs
        ≡ forget (batch_apply_until_first_failure E context s txs)
  unfolding batch_apply_all_or_nothing batch_apply_until_first_failure
  all_or_nothing-until_first_failure s [] = refl
  all_or_nothing-until_first_failure s (tx ∷ txs) =
      let next = (apply E context s tx).0 in
      let rest = all_or_nothing-until_first_failure next txs in
      elim (TransactionResult-cases (apply E context s tx).1) [
        | inl done ↦
            rw (batch_apply_all_or_nothing, batch_apply_until_first_failure, done, rest)
              (forget-with_result success (batch_apply_until_first_failure E context next txs))
        | inr (inl (rs, done)) ↦
            rw (batch_apply_all_or_nothing, batch_apply_until_first_failure, done, rest)
              (forget-with_result (partial_success rs)
                (batch_apply_until_first_failure E context next txs))
        | inr (inr (e, stopped)) ↦
            rw (batch_apply_all_or_nothing, batch_apply_until_first_failure, stopped) refl
      ]
