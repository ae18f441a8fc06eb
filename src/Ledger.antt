-- ===== src/Ledger.antt =====
-- The ledger state (ledger/src/structure.rs) and its transitions (ledger/src/semantics.rs).
--
-- Addresses, hashes, nonces and token types are numbers, as are amounts (`u128`) and times in
-- seconds (`u64`, and a `Duration` that is not negative), keys and entry points. Of the parameters
-- the model has what these transitions read. The dust state is a type parameter: the
-- transitions reach it by the operations of `Outside`.
pub mod Replay
pub mod Utxos
pub mod Night
pub mod System
pub mod Claim
pub mod Payouts
pub mod Supply
pub mod Bridge
pub mod Rewards
pub mod BridgeClaims
pub mod Offers
pub mod Tests
use midnight_ledger.Prelude.{
  ℕ, ◌+◌, ◌-◌, ◌*◌, ◌^◌, ◌≡◌, refl, Bool, true, false, Option, none, some, List, min, ◌==◌, ◌&&◌,
  ==_iff, Eq, ◌↔◌, arith, Result,
}
use midnight_ledger.Prelude.Dict.{Dict}
use midnight_ledger.Storage.TimeFilterMap.{TimeFilterMap}
use midnight_ledger.MerkleTree.{InvalidUpdate}
use midnight_ledger.Zswap
use midnight_ledger.Vm.{StateValue}
use midnight_ledger.Vm.Costs.{CostModel}

abbrev pub stars_per_night : ℕ
stars_per_night = 1000000

abbrev pub max_supply : ℕ
max_supply = 24000000000 * stars_per_night

-- `NIGHT`, the unshielded token type of all zero bytes.
abbrev pub night : ℕ
night = 0

pub data TokenType : Type 0 where
  unshielded : ℕ → TokenType
  shielded : ℕ → TokenType
  dust : TokenType

-- `==` as derived.
abbrev pub same_token : TokenType → TokenType → Bool
same_token (unshielded a) (unshielded b) = a == b
same_token (shielded a) (shielded b) = a == b
same_token dust dust = true
same_token _ _ = false

pub same_token_iff : (a b : TokenType) → same_token a b ≡ true ↔ a ≡ b
same_token_iff (unshielded a) (unshielded b) = ground (arith, ==_iff a b)
same_token_iff (unshielded a) (shielded b) = ground arith
same_token_iff (unshielded a) dust = ground arith
same_token_iff (shielded a) (unshielded b) = ground arith
same_token_iff (shielded a) (shielded b) = ground (arith, ==_iff a b)
same_token_iff (shielded a) dust = ground arith
same_token_iff dust (unshielded b) = ground arith
same_token_iff dust (shielded b) = ground arith
same_token_iff dust dust = ground arith

instance unfoldable pub token_eq : Eq TokenType
token_eq = record { beq = same_token; beq_iff = same_token_iff }

pub record Utxo : Type 0 where
  pub value : ℕ
  pub owner : ℕ
  pub type_ : ℕ
  pub intent_hash : ℕ
  pub output_no : ℕ

abbrev pub same_utxo : Utxo → Utxo → Bool
same_utxo a b =
    a.value == b.value
    && (a.owner == b.owner
        && (a.type_ == b.type_ && (a.intent_hash == b.intent_hash && a.output_no == b.output_no)))

pub same_utxo_iff : (a b : Utxo) → same_utxo a b ≡ true ↔ a ≡ b
same_utxo_iff a b = ground (
  arith,
  ==_iff a.value b.value,
  ==_iff a.owner b.owner,
  ==_iff a.type_ b.type_,
  ==_iff a.intent_hash b.intent_hash,
  ==_iff a.output_no b.output_no,
)

instance unfoldable pub utxo_eq : Eq Utxo
utxo_eq = record { beq = same_utxo; beq_iff = same_utxo_iff }

pub record UtxoMeta : Type 0 where
  pub ctime : ℕ

pub record UtxoOutput : Type 0 where
  pub value : ℕ
  pub owner : ℕ
  pub type_ : ℕ

-- A contract's data, with the keys whose storage is charged already, by their count.
pub record ChargedState : Type 0 where
  pub state : StateValue
  pub charged_keys : Dict ℕ ℕ

-- The verifier key of an entry point, if it has one.
pub record ContractOperation : Type 0 where
  pub v2 : Option ℕ

pub record ContractMaintenanceAuthority : Type 0 where
  pub committee : List ℕ
  pub threshold : ℕ
  pub counter : ℕ

pub record ContractState : Type 0 where
  pub data_ : ChargedState
  pub operations : Dict ℕ ContractOperation
  pub maintenance_authority : ContractMaintenanceAuthority
  pub balance : Dict TokenType ℕ

-- `DustParameters` of ledger/src/dust.rs: the most dust for each piece of NIGHT, and the rate at
-- which it grows and decays.
pub record DustParameters : Type 0 where
  pub night_dust_ratio : ℕ
  pub generation_decay_rate : ℕ

pub record LedgerParameters : Type 0 where
  pub dust : DustParameters
  pub runtime_cost_model : CostModel
  pub global_ttl : ℕ
  pub cardano_to_midnight_bridge_fee_basis_points : ℕ
  pub c_to_m_bridge_min_amount : ℕ

pub data ClaimKind : Type 0 where
  reward : ClaimKind
  cardano_bridge : ClaimKind

pub record OutputInstructionUnshielded : Type 0 where
  pub amount : ℕ
  pub target_address : ℕ
  pub nonce : ℕ

pub record LedgerState (D : Type 0) : Type 0 where
  pub parameters : LedgerParameters
  pub locked_pool : ℕ
  pub bridge_receiving : Dict ℕ ℕ
  pub reserve_pool : ℕ
  pub block_reward_pool : ℕ
  pub unclaimed_block_rewards : Dict ℕ ℕ
  pub treasury : Dict TokenType ℕ
  pub zswap : Zswap.State
  pub contract : Dict ℕ ContractState
  pub utxo : Dict Utxo UtxoMeta
  pub replay_protection : TimeFilterMap ℕ
  pub dust : D

pub data TransactionApplicationError : Type 0 where
  intent_ttl_expired : ℕ → ℕ → TransactionApplicationError
  intent_ttl_too_far_in_future : ℕ → ℕ → TransactionApplicationError
  intent_already_exists : TransactionApplicationError

pub data InvariantViolation : Type 0 where
  night_balance : ℕ → InvariantViolation

-- `a.saturating_add(b)` on `u128` and on `u64`.
abbrev pub saturating_add : ℕ → ℕ → ℕ
saturating_add a b = min (a + b) (2 ^ 128 - 1)

abbrev pub add_seconds : ℕ → ℕ → ℕ
add_seconds t d = min (t + d) (2 ^ 64 - 1)

-- What the transitions call elsewhere: the hash of an output instruction, the fee computation behind
-- `min_claimable_rewards`, and the dust state.
pub record Outside (D : Type 0) (DustError : Type 0) (CNightEvent : Type 0) : Type 0 where
  pub mk_intent_hash : OutputInstructionUnshielded → ℕ → ℕ
  pub min_claimable_rewards : LedgerParameters → ℕ
  pub address_delegation : D → ℕ → Option ℕ
  -- `fresh_dust_output` with `initial_nonce(0, hash)`: the hash, the value, the address and the time.
  pub fresh_dust_output : D → ℕ → ℕ → ℕ → ℕ → Result DustError D
  pub cnight_generates_dust_update : D → List CNightEvent → ℕ → Result DustError D
