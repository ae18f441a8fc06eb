-- ===== src/Dust.antt =====
-- The dust state of ledger/src/dust.rs: dust is generated by unspent NIGHT, and pays the fees.
--
-- Keys, nonces, commitments, nullifiers and hashes are numbers. Amounts are below 2^128, times are
-- seconds; a negative duration counts as none where the source clamps it. The hashes and commitments
-- of the proof system are the fields of `Hashes`. Events and proofs are left out.
pub mod Registration
pub mod Offer
pub mod CNight
pub mod Value
pub mod Steps
pub mod Shares
pub mod Backing
pub mod Spend
pub mod Tests
use midnight_ledger.Prelude.{
  ℕ, ◌+◌, ◌-◌, ◌*◌, ◌/◌, ◌%◌, ◌^◌, min, Bool, true, false, ◌&&◌, not, Option, none, some, List, [],
  ◌∷◌, ◌==◌, leb, ltb, if◌then◌else◌, Result, ok, err, ◌>>=◌, ◌>>◌, fail_if, map_err, try_fold, Eq,
  nat_eq, any, arith, foldl, map, is_some,
}
use midnight_ledger.Prelude.Dict.{Dict, lookup, contains_key, insert, erase}
use midnight_ledger.MerkleTree.{
  Hashing, InvalidUpdate, MerkleTreeNode, blank, index, try_update_hash, rehash, expect_root,
}
use midnight_ledger.Storage.TimeFilterMap
use midnight_ledger.Storage.TimeFilterMap.{TimeFilterMap, empty_map, filter}
pub use midnight_ledger.Ledger.{DustParameters}
use midnight_ledger.Ledger.{Utxo, UtxoMeta, UtxoOutput, utxo_eq, saturating_add, night}

abbrev pub saturating_mul : ℕ → ℕ → ℕ
saturating_mul a b = min (a * b) (2 ^ 128 - 1)

pub record DustOutput : Type 0 where
  pub initial_value : ℕ
  pub owner : ℕ
  pub nonce : ℕ
  pub seq : ℕ
  pub ctime : ℕ

pub record DustGenerationInfo : Type 0 where
  pub value : ℕ
  pub owner : ℕ
  pub nonce : ℕ
  pub dtime : ℕ

-- `DustGenerationUniquenessInfo`: the value, the owner and the nonce.
abbrev pub DustGenerationUniquenessInfo : Type 0
DustGenerationUniquenessInfo = ℕ × ℕ × ℕ

abbrev pub uniqueness : DustGenerationInfo → DustGenerationUniquenessInfo
uniqueness info = (info.value, info.owner, info.nonce)

abbrev same_uniqueness : DustGenerationUniquenessInfo → DustGenerationUniquenessInfo → Bool
same_uniqueness a b = a.0 == b.0 && (a.1 == b.1 && a.2 == b.2)

instance pub uniqueness_eq : Eq DustGenerationUniquenessInfo
uniqueness_eq = record { beq = same_uniqueness; beq_iff = λ a b. ground arith }

-- The value of an output at a time: it grows to the cap until the NIGHT behind it is spent, at
-- `dtime`, and decays from then on.
unfoldable pub updated_value : DustOutput → DustGenerationInfo → ℕ → DustParameters → ℕ
updated_value self gen_info now params =
    let vfull = saturating_mul gen_info.value params.night_dust_ratio in
    let rate = saturating_mul gen_info.value params.generation_decay_rate in
    let dt_phase_12 = min gen_info.dtime now - self.ctime in
    let value_phase_12 =
      min (saturating_add (saturating_mul dt_phase_12 rate) self.initial_value) vfull in
    let dt_phase_3 = now - gen_info.dtime in value_phase_12 - saturating_mul dt_phase_3 rate

pub record DustUtxoState : Type 0 where
  pub commitments : MerkleTreeNode (Unit {0})
  pub commitments_first_free : ℕ
  pub nullifiers : Dict ℕ (Unit {0})
  pub root_history : TimeFilterMap ℕ

pub record DustGenerationState : Type 0 where
  pub address_delegation : Dict ℕ ℕ
  pub generating_tree : MerkleTreeNode DustGenerationInfo
  pub generating_tree_first_free : ℕ
  pub generating_set : Dict DustGenerationUniquenessInfo (Unit {0})
  pub night_indices : Dict ℕ ℕ
  pub root_history : TimeFilterMap ℕ

pub record DustState : Type 0 where
  pub utxo : DustUtxoState
  pub generation : DustGenerationState

abbrev pub new : DustState
new = record {
  utxo = record {
    commitments = blank 32;
    commitments_first_free = 0;
    nullifiers = [];
    root_history = empty_map;
  };
  generation = record {
    address_delegation = [];
    generating_tree = blank 32;
    generating_tree_first_free = 0;
    generating_set = [];
    night_indices = [];
    root_history = empty_map;
  };
}

-- The errors of these operations, among those of `TransactionInvalid` and `DustStateError`.
pub data DustError : Type 0 where
  dust_double_spend : ℕ → DustError
  dust_deregistration_not_registered : ℕ → DustError
  generation_info_already_present : DustGenerationInfo → DustError
  divide_by_zero : DustError
  merkle_tree_error : InvalidUpdate → DustError

pub record DustSpend : Type 0 where
  pub v_fee : ℕ
  pub old_nullifier : ℕ
  pub new_commitment : ℕ

pub record DustRegistration : Type 0 where
  pub night_key : ℕ
  pub dust_address : Option ℕ
  pub allow_fee_payment : ℕ

-- The owner is a verifying key.
pub record UtxoSpend : Type 0 where
  pub value : ℕ
  pub owner : ℕ
  pub type_ : ℕ
  pub intent_hash : ℕ
  pub output_no : ℕ

pub record UnshieldedOffer : Type 0 where
  pub inputs : List UtxoSpend
  pub outputs : List UtxoOutput

-- What the state reads of an intent: its guaranteed offer, the registrations of its dust actions
-- with their time, if it has any, and its hash for each segment.
pub record Intent : Type 0 where
  pub guaranteed_unshielded_offer : Option UnshieldedOffer
  pub dust_actions : Option (List DustRegistration × ℕ)
  pub intent_hash : ℕ → ℕ

-- `initial_nonce`, `dust_first_nonce`, the commitment of an initial value, an owner, a nonce and a
-- time, `merkle_hash`, `UserAddress::from` of a key, and the hashes of Merkle trees.
pub record Hashes : Type 0 where
  pub initial_nonce : ℕ → ℕ → ℕ
  pub dust_first_nonce : ℕ → ℕ → ℕ
  pub commitment : ℕ → ℕ → ℕ → ℕ → ℕ
  pub merkle_hash : DustGenerationInfo → ℕ
  pub user_address : ℕ → ℕ
  pub hashing : Hashing

unfoldable pub apply_spend : DustState → DustSpend → Result DustError DustState
apply_spend self spend = do
  fail_if (contains_key spend.old_nullifier self.utxo.nullifiers)
      (dust_double_spend spend.old_nullifier)
  tree ← map_err merkle_tree_error (
      try_update_hash self.utxo.commitments self.utxo.commitments_first_free spend.new_commitment
        tt)
  ok (record self {
    utxo = record self.utxo {
      nullifiers = insert spend.old_nullifier tt self.utxo.nullifiers;
      commitments = tree;
      commitments_first_free = (self.utxo.commitments_first_free + 1) % 2 ^ 64;
    };
  })

module _ (H : Hashes) where
  unfoldable pub fresh_dust_output : DustState → ℕ → ℕ → ℕ → ℕ → ℕ → Result DustError DustState
  fresh_dust_output self initial_nonce initial_value night_value dust_addr tnow = do
    let commitment =
        H.commitment initial_value dust_addr (H.dust_first_nonce initial_nonce dust_addr) tnow
    tree ←
        map_err merkle_tree_error
          (try_update_hash self.utxo.commitments self.utxo.commitments_first_free commitment tt)
    let gen_info : DustGenerationInfo = record {
      value = night_value;
      owner = dust_addr;
      nonce = initial_nonce;
      dtime = 2 ^ 64 - 1;
    }
    let free = self.generation.generating_tree_first_free
    fail_if (contains_key (uniqueness gen_info) self.generation.generating_set)
        (generation_info_already_present gen_info)
    generating ←
        map_err merkle_tree_error
          (try_update_hash self.generation.generating_tree free (H.merkle_hash gen_info) gen_info)
    ok (record {
      utxo = record self.utxo {
        commitments = tree;
        commitments_first_free = (self.utxo.commitments_first_free + 1) % 2 ^ 64;
      };
      generation = record self.generation {
        generating_set = insert (uniqueness gen_info) tt self.generation.generating_set;
        generating_tree = generating;
        night_indices = insert initial_nonce free self.generation.night_indices;
        generating_tree_first_free = (free + 1) % 2 ^ 64;
      };
    })

  abbrev pub spend_nonce : UtxoSpend → ℕ
  spend_nonce input = H.initial_nonce input.output_no input.intent_hash

  -- `tblock - global_ttl` stops at 0.
  unfoldable pub post_block_update : DustState → ℕ → ℕ → DustState
  post_block_update self tblock global_ttl =
      let commitments = rehash H.hashing self.utxo.commitments in
      let generating = rehash H.hashing self.generation.generating_tree in
      record {
        utxo = record self.utxo {
          commitments = commitments;
          root_history = filter (tblock - global_ttl) (
              TimeFilterMap.insert tblock (expect_root H.hashing commitments)
                self.utxo.root_history);
        };
        generation = record self.generation {
          generating_tree = generating;
          root_history = filter (tblock - global_ttl) (
              TimeFilterMap.insert tblock (expect_root H.hashing generating)
                self.generation.root_history);
        };
      }
