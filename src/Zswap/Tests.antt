-- ===== src/Zswap/Tests.antt =====
-- Runs of the Zswap state on small inputs, and its theorems at them.
use midnight_ledger.Prelude.{
  ℕ, ◌+◌, ◌*◌, ◌%◌, ◌≡◌, refl, true, false, not, ◌&&◌, none, some, [], ◌∷◌, Result, ok, err, is_ok,
  try_fold, arith, ltb, nat_eq,
}
use midnight_ledger.Prelude.Dict.{lookup, insert, contains_key, total}
use midnight_ledger.Storage.TimeFilterMap.{contains, empty_map, IsConsistent, occurs}
use midnight_ledger.Storage.MultiSet.{count, member}
use midnight_ledger.MerkleTree.{
  Hashing, MerklePath, try_update_hash, update_stub, index, path_for_leaf, path_root,
}
use midnight_ledger.MerkleTree.Membership.{HashConsistent}
use midnight_ledger.Zswap.{
  State, Input, Output, Offer, new, try_apply, apply_input, apply_output, apply_transient,
  post_block_update,
}
use midnight_ledger.Zswap.Invariant.{IsValid, new-IsValid, try_apply-IsValid, is_ok-apply_output}
use midnight_ledger.Zswap.Spend.{here, block_then, no_double_spend, no_faerie_gold}
use midnight_ledger.Zswap.Roots.{try_apply-HashConsistent, spendable_after_block}

abbrev pub hashing : Hashing
hashing = record {
  degrade_to_transient = λ x. x + 1;
  transient_hash = λ a b. (a * 31 + b * 17 + 7) % 1009;
}

abbrev output : ℕ → Output
output c = record { coin_com = c; contract_address = none }

abbrev two_outputs : Offer
two_outputs = record {
  inputs = [];
  outputs = output 10 ∷ record { coin_com = 11; contract_address = some 4 } ∷ [];
  transient = [];
}

abbrev or_new {ℓ} : {E : Type ℓ} {B : Type 0} → Result E (State × B) → State
or_new (ok (s, _)) = s
or_new (err _) = new

abbrev with_outputs : State
with_outputs = or_new (try_apply hashing new two_outputs none)

two_outputs-ok : try_apply hashing new two_outputs none ≡ ok (with_outputs, (10, 0) ∷ (11, 1) ∷ [])
unfolding try_apply try_fold apply_output lookup try_update_hash update_stub insert
two_outputs-ok = refl

try_apply-IsValid_example :
    IsValid with_outputs × (with_outputs.first_free ≡ new.first_free + 2 + 0)
try_apply-IsValid_example =
    try_apply-IsValid hashing new with_outputs two_outputs none ((10, 0) ∷ (11, 1) ∷ []) new-IsValid
      two_outputs-ok

is_ok-apply_output_example :
    is_ok (apply_output hashing new (output 10) none)
    ≡ (not (contains_key 10 new.coin_coms_set) && ltb 0 4294967296)
is_ok-apply_output_example = is_ok-apply_output hashing new (output 10) none new-IsValid

-- A state that knows the root 77.
abbrev pub rooted : State
rooted = record new { past_roots = record { time_map = (5, 77 ∷ []) ∷ []; set = (77, 1) ∷ [] } }

abbrev input : ℕ → Input
input n = record { nullifier = n; contract_address = none; merkle_tree_root = 77 }

abbrev pub first_spend : Offer
first_spend = record {
  inputs = input 1 ∷ [];
  outputs = output 10 ∷ [];
  transient = record { nullifier = 2; coin_com = 12; contract_address = none } ∷ [];
}

abbrev spent_once : State
spent_once = or_new (try_apply hashing rooted first_spend none)

first_spend-ok : try_apply hashing rooted first_spend none ≡ ok (spent_once, (10, 0) ∷ (12, 1) ∷ [])
unfolding try_apply try_fold apply_input apply_output apply_transient lookup try_update_hash
    update_stub insert contains
first_spend-ok = refl

abbrev pub again : Offer
again = record { inputs = input 2 ∷ []; outputs = output 12 ∷ []; transient = [] }

no_double_spend_example :
    is_ok (try_apply hashing (post_block_update hashing spent_once 9) again none) ≡ false
no_double_spend_example =
    no_double_spend hashing 2 rooted spent_once (post_block_update hashing spent_once 9) first_spend
      again ((10, 0) ∷ (12, 1) ∷ []) first_spend-ok refl (block_then 9 here) refl

no_faerie_gold_example :
    is_ok (try_apply hashing (post_block_update hashing spent_once 9) again none) ≡ false
no_faerie_gold_example =
    no_faerie_gold hashing 12 rooted spent_once (post_block_update hashing spent_once 9) first_spend
      again ((10, 0) ∷ (12, 1) ∷ []) first_spend-ok refl (block_then 9 here) refl

empty-IsConsistent : IsConsistent (empty_map {V = ℕ})
unfolding member count occurs total lookup
empty-IsConsistent = record {
  is_multiset = record { dict = tt; positive = λ _. refl };
  counts = λ _. refl;
}

try_apply-HashConsistent_example : HashConsistent hashing with_outputs.coin_coms
try_apply-HashConsistent_example =
    try_apply-HashConsistent hashing new with_outputs two_outputs ((10, 0) ∷ (11, 1) ∷ []) tt
      two_outputs-ok

with_outputs-hashes : HashConsistent hashing with_outputs.coin_coms
with_outputs-hashes =
    try_apply-HashConsistent hashing new with_outputs two_outputs ((10, 0) ∷ (11, 1) ∷ []) tt
      two_outputs-ok

spendable_after_block_example :
    (p : MerklePath) × (path_for_leaf hashing
        (post_block_update hashing with_outputs 9).coin_coms
        0
        10
      ≡ ok p)
    × (contains (path_root hashing p) (post_block_update hashing with_outputs 9).past_roots ≡ true)
unfolding try_apply try_fold apply_output lookup try_update_hash update_stub insert index occurs
    total
spendable_after_block_example =
    spendable_after_block hashing with_outputs 9 0 10 none
      (try_apply-IsValid hashing new with_outputs two_outputs none ((10, 0) ∷ (11, 1) ∷ [])
        new-IsValid two_outputs-ok).0
      with_outputs-hashes empty-IsConsistent (omega arith) (omega arith) refl
