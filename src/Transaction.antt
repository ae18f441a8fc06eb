-- ===== src/Transaction.antt =====
-- Transactions (ledger/src/structure.rs) and what their application reads (ledger/src/semantics.rs).
-- `Transaction.Outside` wires the dust state to the ledger, `Transaction.Actions` has the contract
-- actions of an intent, `Transaction.Section` the segments, and `Transaction.Apply` whole
-- transactions, batches and the end of a block.
--
-- Signatures, proofs and the binding randomness are checked before, and left out, as are events.
pub mod Outside
pub mod Actions
pub mod Calls
pub mod Section
pub mod Apply
pub mod Frame
pub mod Chain
pub mod Replay
pub mod Spend
pub mod Balance
pub mod Batch
pub mod Tests
use midnight_ledger.Prelude.{
  ℕ, Bool, Option, none, some, List, [], ◌∷◌, ◌==◌, ltb, if◌then◌else◌, true, nat_eq,
}
use midnight_ledger.Prelude.Dict.{Dict, lookup}
use midnight_ledger.Prelude.Int.{ℤ}
use midnight_ledger.Cost.{NormalizedCost}
use midnight_ledger.Ledger.{
  LedgerState, LedgerParameters, ContractState, ContractMaintenanceAuthority, TokenType,
  OutputInstructionUnshielded, InvariantViolation, TransactionApplicationError,
}
use midnight_ledger.Ledger.Utxos.{OfferError}
use midnight_ledger.Ledger.Claim.{ClaimRewards, ClaimError}
use midnight_ledger.Zswap
use midnight_ledger.Dust
use midnight_ledger.Dust.{DustState, DustError, DustSpend, DustRegistration}
use midnight_ledger.Runtime.{Effects, Transcript, TranscriptRejected, BlockContext, Encodings}

pub record ContractCall : Type 0 where
  pub address : ℕ
  pub entry_point : ℕ
  pub guaranteed_transcript : Option Transcript
  pub fallible_transcript : Option Transcript
  pub communication_commitment : ℕ

pub record ContractDeploy : Type 0 where
  pub initial_state : ContractState
  pub nonce : ℕ

-- Verifier keys have one version.
pub data SingleUpdate : Type 0 where
  replace_authority : ContractMaintenanceAuthority → SingleUpdate
  verifier_key_remove : ℕ → SingleUpdate
  verifier_key_insert : ℕ → ℕ → SingleUpdate

pub record MaintenanceUpdate : Type 0 where
  pub address : ℕ
  pub updates : List SingleUpdate
  pub counter : ℕ

pub data ContractAction : Type 0 where
  call : ContractCall → ContractAction
  deploy : ContractDeploy → ContractAction
  maintain : MaintenanceUpdate → ContractAction

pub record DustActions : Type 0 where
  pub spends : List DustSpend
  pub registrations : List DustRegistration
  pub ctime : ℕ

-- An intent, with its hash for each segment.
pub record Intent : Type 0 where
  pub guaranteed_unshielded_offer : Option Dust.UnshieldedOffer
  pub fallible_unshielded_offer : Option Dust.UnshieldedOffer
  pub actions : List ContractAction
  pub dust_actions : Option DustActions
  pub ttl : ℕ
  pub intent_hash : ℕ → ℕ

pub record StandardTransaction : Type 0 where
  pub intents : Dict ℕ Intent
  pub guaranteed_coins : Option Zswap.Offer
  pub fallible_coins : Dict ℕ Zswap.Offer

pub data Transaction : Type 0 where
  standard : StandardTransaction → Transaction
  claim_rewards : ClaimRewards → Transaction

pub data BalanceOperation : Type 0 where
  addition subtraction : BalanceOperation

pub data TransactionInvalid : Type 0 where
  effects_mismatch : Effects → Effects → TransactionInvalid
  contract_already_deployed contract_not_present : ℕ → TransactionInvalid
  zswap : Zswap.TransactionInvalid → TransactionInvalid
  transcript : TranscriptRejected → TransactionInvalid
  verifier_key_not_found verifier_key_already_present : ℕ → TransactionInvalid
  replay_counter_mismatch : ℕ → TransactionInvalid
  replay_protection_violation : TransactionApplicationError → TransactionInvalid
  balance_check_out_of_bounds : TokenType → ℕ → ℕ → BalanceOperation → TransactionInvalid
  utxo : OfferError → TransactionInvalid
  dust : DustError → TransactionInvalid
  claim : ClaimError DustError → TransactionInvalid
  invariant_violation : InvariantViolation → TransactionInvalid

-- The ledger state with the dust state of ledger/src/dust.rs.
abbrev pub State : Type 0
State = LedgerState DustState

pub record TransactionContext : Type 0 where
  pub ref_state : State
  pub block_context : BlockContext
  pub whitelist : Option (List ℕ)

-- Hashes and encodings, and what is computed from the parameters that the model leaves out: the
-- fees of a transaction (`fees(params, true).unwrap_or(0)`), the least claim, and the prices after a
-- block.
pub record Environment : Type 0 where
  pub hashes : Dust.Hashes
  pub encodings : Encodings
  pub deploy_address : ContractDeploy → ℕ
  pub ep_hash : ℕ → ℕ
  pub mk_intent_hash : OutputInstructionUnshielded → ℕ → ℕ
  pub fees : LedgerParameters → StandardTransaction → ℕ
  pub min_claimable_rewards : LedgerParameters → ℕ
  pub update_prices : LedgerParameters → NormalizedCost → ℤ → LedgerParameters

-- The keys of a map in order, each once.
abbrev add_segment : ℕ → List ℕ → List ℕ
add_segment k [] = k ∷ []
add_segment k (j ∷ js) =
    if k == j then j ∷ js else if ltb k j then k ∷ j ∷ js else j ∷ add_segment k js

abbrev pub sorted_keys {ℓ} : {A : Type ℓ} → Dict ℕ A → List ℕ
sorted_keys [] = []
sorted_keys ((k, _) ∷ m) = add_segment k (sorted_keys m)

abbrev entries_at {ℓ} : {A : Type ℓ} → Dict ℕ A → List ℕ → List (ℕ × A)
entries_at m [] = []
entries_at m (k ∷ ks) = elim (lookup k m) [
  | none ↦ entries_at m ks
  | some a ↦ (k, a) ∷ entries_at m ks
]

-- `sorted_iter`
unfoldable pub sorted_iter {ℓ} : {A : Type ℓ} → Dict ℕ A → List (ℕ × A)
sorted_iter m = entries_at m (sorted_keys m)

abbrev without_guaranteed : List ℕ → List ℕ
without_guaranteed [] = []
without_guaranteed (k ∷ ks) = let rest = without_guaranteed ks in if k == 0 then rest else k ∷ rest

abbrev add_segments : List ℕ → List ℕ → List ℕ
add_segments [] js = js
add_segments (k ∷ ks) js = add_segment k (add_segments ks js)

unfoldable pub fallible_segments : StandardTransaction → List ℕ
fallible_segments tx =
    without_guaranteed (add_segments (sorted_keys tx.intents) (sorted_keys tx.fallible_coins))
