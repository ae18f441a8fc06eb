-- ===== src/Zswap.antt =====
-- The Zswap ledger state of zswap/src/ledger.rs: the commitment tree, the nullifiers and the recent
-- roots of the shielded coins, and how an offer and the end of a block change them.
--
-- Commitments, nullifiers, roots and addresses are numbers. Of an input, an output and a transient
-- the model has the fields that the state reads; the proofs and value commitments are checked
-- before. A set (`HashMap<_, ()>`) is a map to the unit type, and a whitelist a list of addresses.
pub mod Invariant
pub mod Once
pub mod Spend
pub mod Roots
pub mod Tests
use midnight_ledger.Prelude.{
  ℕ, ◌+◌, ◌-◌, ◌%◌, ◌^◌, Bool, true, false, not, Option, none, some, List, [], ◌∷◌, ◌==◌,
  if◌then◌else◌, Result, ok, err, ◌>>=◌, ◌>>◌, fail_if, map_err, try_fold, Eq, nat_eq,
}
use midnight_ledger.Prelude.Dict.{Dict, contains_key, insert}
use midnight_ledger.MerkleTree.{
  Hashing, InvalidUpdate, MerkleTreeNode, blank, try_update_hash, collapse, rehash, expect_root,
}
use midnight_ledger.Storage.TimeFilterMap
use midnight_ledger.Storage.TimeFilterMap.{TimeFilterMap, empty_map, contains, filter}

abbrev pub zswap_tree_height : ℕ
zswap_tree_height = 32

pub record Input : Type 0 where
  pub nullifier : ℕ
  pub contract_address : Option ℕ
  pub merkle_tree_root : ℕ

pub record Output : Type 0 where
  pub coin_com : ℕ
  pub contract_address : Option ℕ

pub record Transient : Type 0 where
  pub nullifier : ℕ
  pub coin_com : ℕ
  pub contract_address : Option ℕ

pub record Offer : Type 0 where
  pub inputs : List Input
  pub outputs : List Output
  pub transient : List Transient

pub data TransactionInvalid : Type 0 where
  nullifier_already_present : ℕ → TransactionInvalid
  commitment_already_present : ℕ → TransactionInvalid
  unknown_merkle_root : ℕ → TransactionInvalid
  merkle_tree_error : InvalidUpdate → TransactionInvalid

pub record State : Type 0 where
  pub coin_coms : MerkleTreeNode (Option ℕ)
  pub coin_coms_set : Dict ℕ (Unit {0})
  pub first_free : ℕ
  pub nullifiers : Dict ℕ (Unit {0})
  pub past_roots : TimeFilterMap ℕ

abbrev pub new : State
new = record {
  coin_coms = blank zswap_tree_height;
  coin_coms_set = [];
  first_free = 0;
  nullifiers = [];
  past_roots = empty_map;
}

-- `any` over the keys of the whitelist.
abbrev pub listed : ℕ → List ℕ → Bool
listed addr [] = false
listed addr (x ∷ xs) = if x == addr then true else listed addr xs

abbrev pub on_whitelist : Option (List ℕ) → Option ℕ → Bool
on_whitelist (some list) (some addr) = listed addr list
on_whitelist (some _) none = false
on_whitelist none _ = true

unfoldable pub apply_input : State → Input → Option (List ℕ) → Result TransactionInvalid State
apply_input self inp whitelist = do
  fail_if (not (contains inp.merkle_tree_root self.past_roots))
      (unknown_merkle_root inp.merkle_tree_root)
  fail_if (contains_key inp.nullifier self.nullifiers) (nullifier_already_present inp.nullifier)
  ok (
      if on_whitelist whitelist inp.contract_address
      then record self { nullifiers = insert inp.nullifier tt self.nullifiers }
      else self)

module _ (H : Hashing) where
  -- The end of `apply_output` and `apply_transient`, which they have in common: the commitment is
  -- written at the first free index, and forgotten there if its owner is not on the whitelist.
  unfoldable pub append_commitment :
      State → ℕ → Option ℕ → Option (List ℕ) → Result TransactionInvalid (State × ℕ × ℕ)
  append_commitment self coin_com contract_address whitelist = do
    let first_free = self.first_free
    tree ←
        map_err merkle_tree_error
          (try_update_hash self.coin_coms first_free coin_com contract_address)
    let kept =
        if on_whitelist whitelist contract_address
        then tree
        else collapse H tree first_free first_free
    ok (
      record self {
        coin_coms_set = insert coin_com tt self.coin_coms_set;
        coin_coms = kept;
        first_free = (first_free + 1) % 2 ^ 64;
      },
      coin_com,
      first_free,
    )

  unfoldable pub apply_output :
      State → Output → Option (List ℕ) → Result TransactionInvalid (State × ℕ × ℕ)
  unfolding append_commitment
  apply_output self out whitelist = do
    fail_if (contains_key out.coin_com self.coin_coms_set) (commitment_already_present out.coin_com)
    append_commitment self out.coin_com out.contract_address whitelist

  unfoldable pub apply_transient :
      State → Transient → Option (List ℕ) → Result TransactionInvalid (State × ℕ × ℕ)
  unfolding append_commitment
  apply_transient self trans whitelist = do
    fail_if (contains_key trans.coin_com self.coin_coms_set)
        (commitment_already_present trans.coin_com)
    fail_if (contains_key trans.nullifier self.nullifiers)
        (nullifier_already_present trans.nullifier)
    let spent =
        if on_whitelist whitelist trans.contract_address
        then record self { nullifiers = insert trans.nullifier tt self.nullifiers }
        else self
    append_commitment spent trans.coin_com trans.contract_address whitelist

  -- A step of the two folds that also note where each commitment went.
  abbrev pub with_index {ℓ} :
      {A : Type ℓ}
      → (State → A → Option (List ℕ) → Result TransactionInvalid (State × ℕ × ℕ))
      → Option (List ℕ)
      → State × Dict ℕ ℕ
      → A
      → Result TransactionInvalid (State × Dict ℕ ℕ)
  with_index apply whitelist acc x = do
    step ← apply acc.0 x whitelist
    ok (step.0, insert step.1 step.2 acc.1)

  unfoldable pub try_apply :
      State → Offer → Option (List ℕ) → Result TransactionInvalid (State × Dict ℕ ℕ)
  try_apply self offer whitelist = do
    spent ← try_fold (λ s inp. apply_input s inp whitelist) self offer.inputs
    created ← try_fold (with_index apply_output whitelist) (spent, []) offer.outputs
    try_fold (with_index apply_transient whitelist) created offer.transient

  -- `tblock - Duration::from_secs(3600)` stops at 0.
  unfoldable pub post_block_update : State → ℕ → State
  post_block_update self tblock =
      let tree = rehash H self.coin_coms in
      record self {
        coin_coms = tree;
        past_roots =
            filter (tblock - 3600)
              (TimeFilterMap.insert tblock (expect_root H tree) self.past_roots);
      }
