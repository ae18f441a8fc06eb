-- ===== src/Transaction/Section.antt =====
-- The segments of a transaction (`apply_section` of ledger/src/semantics.rs, with `apply_zswap`, and
-- `apply_intent` and `apply_tx` of the replay protection).
use midnight_ledger.Prelude.{
  ℕ, ◌-◌, true, false, Option, none, some, List, [], ◌∷◌, ◌++◌, map, ◌==◌, if◌then◌else◌, Result,
  ok, ◌>>=◌, map_err, try_fold, nat_eq,
}
use midnight_ledger.Prelude.Dict.{Dict, lookup}
use midnight_ledger.Storage.TimeFilterMap.{TimeFilterMap}
use midnight_ledger.Ledger.{TransactionApplicationError}
use midnight_ledger.Ledger.Utxos
use midnight_ledger.Ledger.Replay.{apply_member}
use midnight_ledger.Ledger.Night.{check_night_balance_invariant}
use midnight_ledger.Zswap
use midnight_ledger.Zswap.{try_apply}
use midnight_ledger.Dust
use midnight_ledger.Dust.{DustSpend, DustRegistration, apply_spend}
use midnight_ledger.Dust.Registration.{apply_registration, spent_utxo}
use midnight_ledger.Dust.Offer
use midnight_ledger.Transaction.{
  DustActions, Intent, StandardTransaction, TransactionInvalid, zswap, utxo, dust,
  replay_protection_violation, invariant_violation, State, TransactionContext, Environment,
  sorted_iter,
}
use midnight_ledger.Transaction.Actions.{apply_actions}

-- The hash does not depend on the segment.
unfoldable pub apply_intent :
    ℕ → ℕ → TimeFilterMap ℕ → ℕ × Intent → Result TransactionApplicationError (TimeFilterMap ℕ)
unfolding apply_member
apply_intent tblock global_ttl self (_, intent) =
    apply_member self (intent.intent_hash 0) intent.ttl tblock global_ttl

unfoldable pub apply_tx :
    TimeFilterMap ℕ
    → StandardTransaction
    → ℕ
    → ℕ
    → Result TransactionApplicationError (TimeFilterMap ℕ)
unfolding apply_intent
apply_tx self stx tblock global_ttl =
    try_fold (apply_intent tblock global_ttl) self (sorted_iter stx.intents)

-- What the dust state reads of an intent.
abbrev pub registrations : Option DustActions → Option (List DustRegistration × ℕ)
registrations none = none
registrations (some da) = some (da.registrations, da.ctime)

abbrev pub dust_intent : Intent → Dust.Intent
dust_intent intent = record {
  guaranteed_unshielded_offer = intent.guaranteed_unshielded_offer;
  dust_actions = registrations intent.dust_actions;
  intent_hash = intent.intent_hash;
}

abbrev spends_of : Option DustActions → List DustSpend
spends_of none = []
spends_of (some da) = da.spends

-- The dust spends of all intents.
abbrev pub all_spends : List (ℕ × Intent) → List DustSpend
all_spends [] = []
all_spends ((_, intent) ∷ intents) = spends_of intent.dust_actions ++ all_spends intents

unfoldable pub pay_dust : State × ℕ → DustSpend → Result TransactionInvalid (State × ℕ)
unfolding apply_spend
pay_dust (state, fees_remaining) spend = do
  new_dust ← map_err dust (apply_spend state.dust spend)
  ok (record state { dust = new_dust }, fees_remaining - spend.v_fee)

module _ (E : Environment) where
  -- The new coins with their indices.
  unfoldable pub apply_zswap :
      State → Option Zswap.Offer → Option (List ℕ) → Result TransactionInvalid (State × Dict ℕ ℕ)
  unfolding try_apply
  apply_zswap self none whitelist = ok (self, [])
  apply_zswap self (some offer) whitelist = do
    (new_zswap, com_indices) ← map_err zswap (try_apply E.hashes.hashing self.zswap offer whitelist)
    ok (record self { zswap = new_zswap }, com_indices)

  -- An unshielded offer of an intent, on the outputs and on the dust state.
  unfoldable pub apply_unshielded :
      ℕ
      → TransactionContext
      → Intent
      → State
      → Option Dust.UnshieldedOffer
      → Result TransactionInvalid State
  unfolding Utxos.apply_offer Offer.apply_offer
  apply_unshielded segment context intent state none = ok state
  apply_unshielded segment context intent state (some offer) = do
    let tblock = context.block_context.tblock
    let offered : Utxos.UnshieldedOffer = record {
      inputs = map (spent_utxo E.hashes) offer.inputs;
      outputs = offer.outputs;
    }
    new_utxo ←
        map_err utxo (Utxos.apply_offer state.utxo offered (intent.intent_hash segment) tblock)
    new_dust ←
        map_err dust
          (Offer.apply_offer E.hashes state.dust offer (dust_intent intent) segment tblock)
    ok (record state { utxo = new_utxo; dust = new_dust })

  -- Whether the fallible offers can be applied one after the other.
  unfoldable pub try_fallible :
      Zswap.State → StandardTransaction → Option (List ℕ) → Result TransactionInvalid Zswap.State
  unfolding try_apply
  try_fallible self tx whitelist =
      try_fold
        (λ st entry. do
          (next, _) ← map_err zswap (try_apply E.hashes.hashing st (entry.1) whitelist)
          ok next)
        self (sorted_iter tx.fallible_coins)

  unfoldable pub guaranteed_intent :
      TransactionContext → Dict ℕ ℕ → State → ℕ × Intent → Result TransactionInvalid State
  unfolding apply_unshielded apply_actions
  guaranteed_intent context com_indices state (_, intent) = do
    offered ← apply_unshielded 0 context intent state intent.guaranteed_unshielded_offer
    apply_actions E true context intent com_indices offered

  unfoldable pub register :
      TransactionContext
      → Intent
      → ℕ
      → State × ℕ
      → DustRegistration
      → Result TransactionInvalid (State × ℕ)
  unfolding apply_registration
  register context intent ctime (state, fees_remaining) reg = do
    (new_dust, new_fees_remaining) ← map_err dust (
        apply_registration E.hashes state.dust context.ref_state.utxo fees_remaining
          (dust_intent intent) reg state.parameters.dust ctime)
    ok (record state { dust = new_dust }, new_fees_remaining)

  unfoldable pub register_all :
      TransactionContext → State × ℕ → ℕ × Intent → Result TransactionInvalid (State × ℕ)
  unfolding register
  register_all context acc (_, intent) = elim intent.dust_actions [
    | none ↦ ok acc
    | some da ↦ try_fold (register context intent da.ctime) acc da.registrations
  ]

  -- The fees are taken from the dust spends first, and then from the registrations. What is left of
  -- them is only reported.
  unfoldable pub pay_fees :
      TransactionContext → StandardTransaction → State → Result TransactionInvalid (State × ℕ)
  unfolding pay_dust register_all
  pay_fees context tx state = do
    let intents = sorted_iter tx.intents
    paid ← try_fold pay_dust (state, E.fees state.parameters tx) (all_spends intents)
    try_fold (register_all context) paid intents

  unfoldable pub guaranteed_section :
      TransactionContext → StandardTransaction → State → Result TransactionInvalid State
  unfolding apply_tx apply_zswap try_fallible guaranteed_intent pay_fees
  guaranteed_section context tx self = do
    replay ←
        map_err replay_protection_violation (
          apply_tx self.replay_protection tx context.block_context.tblock
            self.parameters.global_ttl)
    let protected : State = record self { replay_protection = replay }
    (state, com_indices) ← apply_zswap protected tx.guaranteed_coins context.whitelist
    _ ← try_fallible state.zswap tx context.whitelist
    acted ← try_fold (guaranteed_intent context com_indices) state (sorted_iter tx.intents)
    (paid, _) ← pay_fees context tx acted
    ok paid

  unfoldable pub fallible_section :
      TransactionContext → StandardTransaction → ℕ → State → Result TransactionInvalid State
  unfolding apply_zswap apply_unshielded apply_actions
  fallible_section context tx segment self = do
    (state, com_indices) ← apply_zswap self (lookup segment tx.fallible_coins) context.whitelist
    elim (lookup segment tx.intents) [
      | none ↦ ok state
      | some intent ↦ do
        offered ← apply_unshielded segment context intent state intent.fallible_unshielded_offer
        apply_actions E false context intent com_indices offered
    ]

  unfoldable pub checked_balance : State → Result TransactionInvalid State
  checked_balance state = do
    _ ← map_err invariant_violation (check_night_balance_invariant state)
    ok state

  unfoldable pub apply_section :
      TransactionContext → StandardTransaction → ℕ → State → Result TransactionInvalid State
  unfolding guaranteed_section fallible_section checked_balance
  apply_section context tx segment self = do
    state ←
        (if segment == 0
          then guaranteed_section context tx self
          else fallible_section context tx segment self)
    checked_balance state
