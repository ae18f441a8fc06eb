-- ===== src/Transaction/Chain.antt =====
-- What a full node does to the ledger state from a block's time on, one transition after the other,
-- and how each of them moves the replay protection (ledger/src/semantics.rs).
use midnight_ledger.Prelude.{
  ℕ, ◌≤◌, ◌≡◌, refl, ap, ◌∙◌, subst, none, List, [], ◌∷◌, ◌==◌, nat_eq, Result, ok, err, ◌>>=◌,
  try_fold, >>=-eq-ok, map_err, map_err-eq-ok, ok-injective, Yields, Yields-bind, Yields-intro,
  Yields-eq-ok, Yields-try_fold, Result-elim, Bool-cases, inl, inr, arith,
}
use midnight_ledger.Prelude.Int.{ℤ}
use midnight_ledger.Storage.TimeFilterMap.{TimeFilterMap}
use midnight_ledger.Cost.{NormalizedCost}
use midnight_ledger.Ledger.{
  LedgerState, OutputInstructionUnshielded, ClaimKind, Outside, night, add_seconds,
}
use midnight_ledger.Ledger.Replay.{History, here, take, end_block, History-append, apply_member}
use midnight_ledger.Ledger.System.{
  SystemTransaction, overwrite_parameters, distribute_night, pay_block_rewards_to_treasury,
  pay_from_treasury_shielded, pay_from_treasury_unshielded, distribute_reserve,
  cnight_generates_dust_update, apply_system_tx, distribute, distribute_one,
  replay_protection_failure, credit, checked_sum, totals, checked, invariant_violation as violation,
}
use midnight_ledger.Ledger.Night.{check_night_balance_invariant}
use midnight_ledger.Ledger.Claim.{ClaimRewards, claim_unshielded, generate_dust}
use midnight_ledger.Prelude.{true, Option-cases, leb, ◌&&◌}
use midnight_ledger.Transaction.{TransactionInvalid}
use midnight_ledger.Dust.{DustState, DustError}
use midnight_ledger.Transaction.{
  Intent, StandardTransaction, Transaction, standard, claim_rewards, State, TransactionContext,
  Environment, sorted_iter, fallible_segments, claim, invariant_violation,
}
use midnight_ledger.Transaction.Outside.{outside}
use midnight_ledger.Dust.CNight.{CNightEvent}
use midnight_ledger.Transaction.Section.{
  apply_intent, apply_tx, apply_section, guaranteed_section, checked_balance,
}
use midnight_ledger.Transaction.Apply.{
  apply_segments, apply_fallible, apply_guaranteed_only, continue, apply, apply_post_block_update,
  TransactionResult, failure,
}
use midnight_ledger.Transaction.Frame.{Taken, guaranteed_section-Taken, apply_section-Kept}

-- Transactions and system transactions in a block, and the ends of blocks, each later than the one
-- before. There is no whitelist.
pub data Chain (E : Environment) : ℕ → State → ℕ → State → Type 0 where
  still : {now : ℕ} {s : State} → Chain E now s now s
  transaction :
      {now later : ℕ} {s u : State} (context : TransactionContext) (tx : Transaction)
      → context.block_context.tblock ≡ now
      → context.whitelist ≡ none
      → Chain E now (apply E context s tx).0 later u
      → Chain E now s later u
  system_transaction :
      {now later : ℕ} {s t u : State} (tx : SystemTransaction CNightEvent)
      → apply_system_tx (outside E) s tx now ≡ ok t
      → Chain E now t later u
      → Chain E now s later u
  block :
      {now later : ℕ} {s u : State} (next : ℕ) (detailed : NormalizedCost) (overall : ℤ)
      → now ≤ next
      → Chain E next (apply_post_block_update E s now detailed overall) later u
      → Chain E now s later u

-- How one transition in a block moves the replay protection.
abbrev pub Moves : ℕ → State → State → Type 0
Moves now s t = History now s.replay_protection now t.replay_protection

pub apply_intent-History :
    (now g : ℕ) (m : TimeFilterMap ℕ) (entry : ℕ × Intent)
    → Yields (History now m now) (apply_intent now g m entry)
unfolding apply_intent
apply_intent-History now g m (segment, intent) =
    Yields-intro (History now m now) (apply_member m (intent.intent_hash 0) intent.ttl now g)
      λ n e. take {u = n} (intent.intent_hash 0) intent.ttl g e here

apply_tx-History :
    (now g : ℕ) (m : TimeFilterMap ℕ) (tx : StandardTransaction)
    → Yields (History now m now) (apply_tx m tx now g)
unfolding apply_tx
apply_tx-History now g m tx =
    Yields-try_fold (History now m now) (apply_intent now g)
      (λ n entry p. Yields-intro (History now m now) (apply_intent now g n entry) λ u e.
        History-append p
          (Yields-eq-ok (History now n now) _ (apply_intent-History now g n entry) e))
      m (sorted_iter tx.intents) here

-- The transitions that do not go through segments, for any outside.
module _ (O : Outside DustState DustError CNightEvent) where
  -- What a claim takes.
  claim-replay :
      (s t : State) (rewards : ClaimRewards) (tblock : ℕ)
      → claim_unshielded O s rewards tblock ≡ ok t
      → apply_member s.replay_protection
          (O.mk_intent_hash
            (record {
              amount = rewards.value;
              target_address = rewards.owner;
              nonce = rewards.nonce;
            })
            night)
          (add_seconds tblock s.parameters.global_ttl)
          tblock
          s.parameters.global_ttl
        ≡ ok t.replay_protection
  unfolding claim_unshielded generate_dust
  claim-replay s t rewards tblock e = ground arith

  claim-Moves :
      (s t : State) (rewards : ClaimRewards) (tblock : ℕ)
      → claim_unshielded O s rewards tblock ≡ ok t
      → Moves tblock s t
  claim-Moves s t rewards tblock e = take _ _ _ (claim-replay s t rewards tblock e) here

  distribute_one-Moves :
      (kind : ClaimKind) (tblock : ℕ) (s : State) (o : OutputInstructionUnshielded)
      → Yields (Moves tblock s) (distribute_one O kind tblock s o)
  unfolding distribute_one
  distribute_one-Moves kind tblock s o =
      let ttl = s.parameters.global_ttl in
      let hash = O.mk_intent_hash o night in
      let taken = apply_member s.replay_protection hash (add_seconds tblock ttl) tblock ttl in
      Yields-bind (Moves tblock s) (map_err replay_protection_failure taken) _ λ r e.
        Yields-bind (Moves tblock s) (credit O kind s o) _ λ credited _.
          take hash (add_seconds tblock ttl) ttl (map_err-eq-ok replay_protection_failure taken e)
            here

  -- What the outputs of a distribution keep, the distribution keeps.
  module _ (P : State → Type 0) (kind : ClaimKind) (tblock : ℕ)
      (keep : (s : State) (o : OutputInstructionUnshielded)
        → P s
        → Yields P (distribute_one O kind tblock s o)) where
    paid-inv :
        (paid : State) (os : List OutputInstructionUnshielded)
        → P paid
        → Yields P (try_fold (distribute_one O kind tblock) paid os >>= checked O)
    unfolding checked
    paid-inv paid os p =
        let step = distribute_one O kind tblock in
        Yields-bind P (try_fold step paid os) _ λ t e.
          let kept =
            Yields-eq-ok P (try_fold step paid os) (Yields-try_fold P step keep paid os p) e in
          Yields-bind P (map_err violation (check_night_balance_invariant t)) _ λ _ _. kept

    pub distribute-inv :
        (s : State) (os : List OutputInstructionUnshielded)
        → ((a b : ℕ) → P (record s { block_reward_pool = a; locked_pool = b }))
        → Yields P (distribute O s kind os tblock)
    unfolding distribute
    distribute-inv s os p = elim (Option-cases (checked_sum os 0)) [
      | inl over ↦ rw (distribute, over) tt
      | inr (n, sum) ↦
          let enough =
            leb (totals kind n).0 s.block_reward_pool && leb (totals kind n).1 s.locked_pool in
          elim (Bool-cases enough) [
            | inl large ↦ rw (distribute, sum, large) (paid-inv _ os (p _ _))
            | inr small ↦ rw (distribute, sum, small) tt
          ]
    ]

  distribute-Moves :
      (kind : ClaimKind) (tblock : ℕ) (s : State) (os : List OutputInstructionUnshielded)
      → Yields (Moves tblock s) (distribute O s kind os tblock)
  distribute-Moves kind tblock s os =
      distribute-inv (Moves tblock s) kind tblock
        (λ v o q. Yields-intro (Moves tblock s) (distribute_one O kind tblock v o) λ w f.
          History-append q
            (Yields-eq-ok (Moves tblock v) _ (distribute_one-Moves kind tblock v o) f))
        s os (λ a b. here)

  same-Moves :
      (tblock : ℕ) (s t : State) → s.replay_protection ≡ t.replay_protection → Moves tblock s t
  same-Moves tblock s t e = subst (History tblock s.replay_protection tblock) e here

  pub apply_system_tx-Moves :
      (s t : State) (tx : SystemTransaction CNightEvent) (tblock : ℕ)
      → apply_system_tx O s tx tblock ≡ ok t
      → Moves tblock s t
  unfolding apply_system_tx checked
  apply_system_tx-Moves s t (distribute_night kind os) tblock e =
      Yields-eq-ok (Moves tblock s) _ (distribute-Moves kind tblock s os) e
  apply_system_tx-Moves s t (overwrite_parameters new_params) tblock e =
      same-Moves tblock s t (ground arith)
  apply_system_tx-Moves s t (pay_block_rewards_to_treasury amount) tblock e =
      same-Moves tblock s t (ground arith)
  apply_system_tx-Moves s t pay_from_treasury_shielded tblock e = cc
  apply_system_tx-Moves s t pay_from_treasury_unshielded tblock e = cc
  apply_system_tx-Moves s t (distribute_reserve amount) tblock e =
      same-Moves tblock s t (ground arith)
  apply_system_tx-Moves s t (cnight_generates_dust_update events) tblock e =
      same-Moves tblock s t (ground arith)

-- A state, and the results of segments.
abbrev Outcomes : Type 0
Outcomes = State × List (ℕ × Result TransactionInvalid (Unit {0}))

-- A predicate on the outcome of a transaction, by what its guaranteed part gives.
pub continue-elim :
    (P : State × TransactionResult → Type 0) (fallible : State → State × TransactionResult)
    (s : State) (r : Result TransactionInvalid State)
    → ((t : State) → r ≡ ok t → P (fallible t))
    → ((e : TransactionInvalid) → r ≡ err e → P (s, failure e))
    → P (continue fallible s r)
unfolding continue
continue-elim P fallible s (ok t) good bad = good t refl
continue-elim P fallible s (err e) good bad = bad e refl

module _ (E : Environment) where
  checked_balance-eq-ok : (s t : State) → checked_balance E s ≡ ok t → s ≡ t
  unfolding checked_balance
  checked_balance-eq-ok s t e =
      let (_, _, e₁) =
        >>=-eq-ok (map_err invariant_violation (check_night_balance_invariant s)) _ e in
      ok-injective e₁

  -- What holds after the guaranteed segment of a transaction.
  pub guaranteed-Taken :
      (context : TransactionContext) (tx : StandardTransaction) (s t : State)
      → apply_section E context tx 0 s ≡ ok t
      → Taken E context tx s t
  unfolding apply_section
  guaranteed-Taken context tx s t e =
      let (u, e₁, e₂) = >>=-eq-ok (guaranteed_section E context tx s) _ e in
      subst (Taken E context tx s) (checked_balance-eq-ok u t e₂)
        (Yields-eq-ok (Taken E context tx s) _ (guaranteed_section-Taken E context tx s) e₁)

  pub guaranteed-taken :
      (context : TransactionContext) (tx : StandardTransaction) (s t : State)
      → apply_section E context tx 0 s ≡ ok t
      → apply_tx s.replay_protection tx context.block_context.tblock s.parameters.global_ttl
        ≡ ok t.replay_protection
  guaranteed-taken context tx s t e =
      let (r, taken, same, _, _) = guaranteed-Taken context tx s t e in
      taken ∙ ap ok (ap LedgerState.replay_protection same)

  pub zero_segment :
      (context : TransactionContext) (tx : StandardTransaction) (segment : ℕ) (s t : State)
      → (segment == 0) ≡ true
      → apply_section E context tx segment s ≡ ok t
      → apply_section E context tx 0 s ≡ ok t
  unfolding apply_section
  zero_segment context tx segment s t first e = rw (apply_section, first) at e

  pub apply_section-Moves :
      (context : TransactionContext) (tx : StandardTransaction) (segment : ℕ) (s t : State)
      → apply_section E context tx segment s ≡ ok t
      → Moves context.block_context.tblock s t
  apply_section-Moves context tx segment s t e = elim (Bool-cases (segment == 0)) [
    | inl first ↦
        let now = context.block_context.tblock in
        Yields-eq-ok (History now s.replay_protection now) _
          (apply_tx-History now s.parameters.global_ttl s.replay_protection tx)
          (guaranteed-taken context tx s t (zero_segment context tx segment s t first e))
    | inr other ↦
        let same = (apply_section-Kept E context tx segment s t other e).0 in
        subst (History _ s.replay_protection _) (ap LedgerState.replay_protection same) here
  ]

  apply_segments-Moves :
      (context : TransactionContext) (tx : StandardTransaction) (s : State) (segments : List ℕ)
      → Moves context.block_context.tblock s (apply_segments E context tx s segments).0
  unfolding apply_segments
  apply_segments-Moves context tx s [] = here
  apply_segments-Moves context tx s (segment ∷ segments) =
      Result-elim (λ (out : Outcomes). Moves context.block_context.tblock s out.0)
        (apply_section E context tx segment s) _ _
        (λ t e.
          History-append (apply_section-Moves context tx segment s t e)
            (apply_segments-Moves context tx t segments))
        (λ error e. apply_segments-Moves context tx s segments)

  apply_guaranteed_only-Moves :
      (context : TransactionContext) (s t : State) (tx : Transaction)
      → apply_guaranteed_only E context tx s ≡ ok t
      → Moves context.block_context.tblock s t
  unfolding apply_guaranteed_only
  apply_guaranteed_only-Moves context s t (standard stx) e = apply_section-Moves context stx 0 s t e
  apply_guaranteed_only-Moves context s t (claim_rewards rewards) e =
      claim-Moves (outside E) s t rewards context.block_context.tblock (map_err-eq-ok claim _ e)

  pub apply_fallible-Moves :
      (context : TransactionContext) (s : State) (tx : Transaction)
      → Moves context.block_context.tblock s (apply_fallible E context tx s).0
  unfolding apply_fallible
  apply_fallible-Moves context s (standard stx) =
      apply_segments-Moves context stx s (fallible_segments stx)
  apply_fallible-Moves context s (claim_rewards rewards) = here

  pub apply-Moves :
      (context : TransactionContext) (s : State) (tx : Transaction)
      → Moves context.block_context.tblock s (apply E context s tx).0
  unfolding apply
  apply-Moves context s tx =
      continue-elim (λ out. Moves context.block_context.tblock s out.0)
        (apply_fallible E context tx) s (apply_guaranteed_only E context tx s)
        (λ t e.
          History-append (apply_guaranteed_only-Moves context s t tx e)
            (apply_fallible-Moves context t tx))
        (λ error e. here)

  -- A full node only ever moves the replay protection by taking intents and by ending blocks.
  pub Chain-History :
      {now later : ℕ} {s u : State}
      → Chain E now s later u
      → History now s.replay_protection later u.replay_protection
  unfolding apply_post_block_update
  Chain-History still = here
  Chain-History (transaction {now} {later} {s} context tx same _ rest) =
      let moved = apply-Moves context s tx in
      History-append
        (subst (λ n. History n s.replay_protection n (apply E context s tx).0.replay_protection)
          same moved)
        (Chain-History rest)
  Chain-History (system_transaction {now} {later} {s} {t} tx e rest) =
      History-append (apply_system_tx-Moves (outside E) s t tx now e) (Chain-History rest)
  Chain-History (block next detailed overall b rest) = end_block next b (Chain-History rest)
