-- ===== src/Transaction/Apply.antt =====
-- Whole transactions, batches and the end of a block (`apply`, `apply_guaranteed_only`,
-- `apply_fallible`, `batch_apply_*` and `post_block_update` of ledger/src/semantics.rs).
use midnight_ledger.Prelude.{
  ℕ, Bool, true, false, ◌&&◌, ◌||◌, fail_if, ◌>>◌, List, [], ◌∷◌, Result, ok, err, ◌>>=◌, map_err,
  is_ok, map,
}
use midnight_ledger.Ledger.Claim.{claim_unshielded}
use midnight_ledger.Ledger.Replay
use midnight_ledger.Zswap
use midnight_ledger.Dust
use midnight_ledger.Prelude.Int.{ℤ, pos, ltb_ℤ}
use midnight_ledger.Cost.{NormalizedCost, one}
use midnight_ledger.Transaction.{
  StandardTransaction, Transaction, standard, claim_rewards, TransactionInvalid, claim, State,
  TransactionContext, Environment, fallible_segments,
}
use midnight_ledger.Transaction.Outside.{outside}
use midnight_ledger.Transaction.Section.{apply_section}

pub data TransactionResult : Type 0 where
  success : TransactionResult
  partial_success : List (ℕ × Result TransactionInvalid (Unit {0})) → TransactionResult
  failure : TransactionInvalid → TransactionResult

-- Whether all segments succeeded.
abbrev pub total_success : List (ℕ × Result TransactionInvalid (Unit {0})) → Bool
total_success [] = true
total_success ((_, r) ∷ rs) = is_ok r && total_success rs

pub data BlockLimitExceeded : Type 0 where
  block_limit_exceeded : BlockLimitExceeded

abbrev pub out_of_range : ℤ → Bool
out_of_range v = ltb_ℤ v (pos 0) || ltb_ℤ one v

unfoldable pub prevalidate_post_block_update :
    NormalizedCost → ℤ → Result BlockLimitExceeded (Unit {0})
prevalidate_post_block_update detailed overall =
    fail_if
      (out_of_range detailed.read_time
        || (out_of_range detailed.compute_time
            || (out_of_range detailed.block_usage
                || (out_of_range detailed.bytes_written
                    || (out_of_range detailed.bytes_churned || out_of_range overall)))))
      block_limit_exceeded

-- What follows the guaranteed part.
unfoldable pub continue :
    {S : Type 0}
    → (S → S × TransactionResult)
    → S
    → Result TransactionInvalid S
    → S × TransactionResult
continue fallible self (ok guaranteed) = fallible guaranteed
continue fallible self (err e) = (self, failure e)

-- What a failure leaves: the state before it, the results up to it, the error, and the rest of
-- the transactions from it on.
abbrev pub Stopped : Type 0
Stopped = State × List TransactionResult × TransactionInvalid × List Transaction

abbrev pub with_result :
    TransactionResult
    → Result Stopped (State × List TransactionResult)
    → Result Stopped (State × List TransactionResult)
with_result r (ok (last, results)) = ok (last, r ∷ results)
with_result r (err (state, results, e, rest)) = err (state, r ∷ results, e, rest)

module _ (E : Environment) where
  -- The segments one after the other, with their results. One that fails changes nothing.
  unfoldable pub apply_segments :
      TransactionContext
      → StandardTransaction
      → State
      → List ℕ
      → State × List (ℕ × Result TransactionInvalid (Unit {0}))
  unfolding apply_section
  apply_segments context tx state [] = (state, [])
  apply_segments context tx state (segment ∷ segments) =
      elim (apply_section E context tx segment state) [
        | ok next ↦
            let (last, results) = apply_segments context tx next segments in
            (last, (segment, ok tt) ∷ results)
        | err e ↦
            let (last, results) = apply_segments context tx state segments in
            (last, (segment, err e) ∷ results)
      ]

  -- The result of the segments, the guaranteed one before them.
  abbrev pub result_of : List (ℕ × Result TransactionInvalid (Unit {0})) → TransactionResult
  result_of results = elim (total_success results) [
    | true ↦ success
    | false ↦ partial_success ((0, ok tt) ∷ results)
  ]

  unfoldable pub apply_fallible :
      TransactionContext → Transaction → State → State × TransactionResult
  unfolding apply_segments
  apply_fallible context (standard stx) state =
      let (last, results) = apply_segments context stx state (fallible_segments stx) in
      (last, result_of results)
  apply_fallible context (claim_rewards rewards) state = (state, success)

  unfoldable pub apply_guaranteed_only :
      TransactionContext → Transaction → State → Result TransactionInvalid State
  unfolding apply_section claim_unshielded
  apply_guaranteed_only context (standard stx) self = apply_section E context stx 0 self
  apply_guaranteed_only context (claim_rewards rewards) self =
      map_err claim (claim_unshielded (outside E) self rewards context.block_context.tblock)

  unfoldable pub apply : TransactionContext → State → Transaction → State × TransactionResult
  unfolding apply_guaranteed_only apply_fallible continue
  apply context self tx =
      continue (apply_fallible context tx) self (apply_guaranteed_only context tx self)

  unfoldable pub batch_apply_independant :
      TransactionContext → State → List Transaction → List TransactionResult
  unfolding apply
  batch_apply_independant context self txs = map (λ tx. (apply context self tx).1) txs

  -- The loop of `batch_apply_all_or_nothing`, with the results in order.
  unfoldable pub batch_apply_all_or_nothing :
      TransactionContext
      → State
      → List Transaction
      → Result TransactionInvalid (State × List TransactionResult)
  unfolding apply
  batch_apply_all_or_nothing context state [] = ok (state, [])
  batch_apply_all_or_nothing context state (tx ∷ txs) =
      let (next, result) = apply context state tx in
      elim result [
        | failure e ↦ err e
        | success ↦ do
          (last, results) ← batch_apply_all_or_nothing context next txs
          ok (last, success ∷ results)
        | partial_success rs ↦ do
          (last, results) ← batch_apply_all_or_nothing context next txs
          ok (last, partial_success rs ∷ results)
      ]

  unfoldable pub batch_apply_until_first_failure :
      TransactionContext
      → State
      → List Transaction
      → Result Stopped (State × List TransactionResult)
  unfolding apply
  batch_apply_until_first_failure context state [] = ok (state, [])
  batch_apply_until_first_failure context state (tx ∷ txs) =
      let (next, result) = apply context state tx in
      elim result [
        | failure e ↦ err (state, [], e, tx ∷ txs)
        | success ↦ with_result success (batch_apply_until_first_failure context next txs)
        | partial_success rs ↦
            with_result (partial_success rs) (batch_apply_until_first_failure context next txs)
      ]

  unfoldable pub apply_post_block_update : State → ℕ → NormalizedCost → ℤ → State
  unfolding Replay.post_block_update Zswap.post_block_update Dust.post_block_update
  apply_post_block_update self tblock detailed overall = record self {
    parameters = E.update_prices self.parameters detailed overall;
    replay_protection = Replay.post_block_update self.replay_protection tblock;
    zswap = Zswap.post_block_update E.hashes.hashing self.zswap tblock;
    dust = Dust.post_block_update E.hashes self.dust tblock self.parameters.global_ttl;
  }

  unfoldable pub post_block_update :
      State → ℕ → NormalizedCost → ℤ → Result BlockLimitExceeded State
  unfolding prevalidate_post_block_update apply_post_block_update
  post_block_update self tblock detailed overall = do
    prevalidate_post_block_update detailed overall
    ok (apply_post_block_update self tblock detailed overall)
