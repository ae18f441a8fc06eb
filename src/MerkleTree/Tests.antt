-- ===== src/MerkleTree/Tests.antt =====
-- Runs of the Merkle tree on small inputs, and its theorems at them.
use midnight_ledger.Prelude.{
  true, ℕ, ◌+◌, ◌*◌, ◌%◌, ◌≡◌, refl, false, none, some, ok, is_ok, arith, inr, if◌then◌else◌, ◌==◌,
}
use midnight_ledger.MerkleTree.{
  Hashing, MerkleTreeNode, leaf, stub, node, index, try_update_hash, update_stub, rehash,
  expect_root, collapse, underflows, underflows_stub, blank, join, MerklePath, path_for_leaf,
  path_root,
}
use midnight_ledger.MerkleTree.Shape.{WellFormed}
use midnight_ledger.MerkleTree.Index.{can_write, index-try_update_hash, is_ok-try_update_hash}
use midnight_ledger.MerkleTree.Collapse.{digest, collapse-digest, collapse_outside}
use midnight_ledger.MerkleTree.Membership.{path_root-path_for_leaf}

abbrev hashing : Hashing
hashing = record {
  degrade_to_transient = λ x. x + 1;
  transient_hash = λ a b. (a * 31 + b * 17 + 7) % 1009;
}

-- A tree of height 2 with a leaf at the index 1.
abbrev small : MerkleTreeNode ℕ
small = node none (node none (stub 0) (leaf 5 3) 1) (stub 1) 2

abbrev larger : MerkleTreeNode ℕ
larger = node none (node none (stub 0) (leaf 5 3) 1) (node none (leaf 8 4) (stub 0) 1) 2

small-WellFormed : WellFormed small
small-WellFormed = (refl, refl, (refl, refl, tt, tt), tt)

larger-WellFormed : WellFormed larger
larger-WellFormed = (refl, refl, (refl, refl, tt, tt), (refl, refl, tt, tt))

small-update : try_update_hash small 2 8 4 ≡ ok larger
unfolding try_update_hash update_stub
small-update = refl

-- Two neighbours that are collapsed become one node.
larger-collapse : is_ok (try_update_hash (collapse hashing larger 2 3) 3 1 1) ≡ false
unfolding collapse try_update_hash join
larger-collapse = refl

index-try_update_hash_example : index larger 1 ≡ (if 2 == 1 then some (8, 4) else index small 1)
index-try_update_hash_example =
    index-try_update_hash small larger 2 1 8 4 small-WellFormed (omega arith) small-update

is_ok-try_update_hash_example : is_ok (try_update_hash small 2 8 4) ≡ can_write small 2
is_ok-try_update_hash_example = is_ok-try_update_hash small 2 8 4 small-WellFormed (omega arith)

-- A range that reaches past a tree of height 1.
underflows-past_tree : underflows (blank {A = ℕ} 1) 0 3 ≡ true
unfolding underflows underflows_stub
underflows-past_tree = refl

collapse-digest_example :
    (underflows larger 0 2 ≡ false)
    × (digest hashing (collapse hashing larger 0 2) ≡ digest hashing larger)
collapse-digest_example =
    collapse-digest hashing larger 0 2 larger-WellFormed (omega arith) (omega arith)

collapse_outside_example :
    (index (collapse hashing larger 0 1) 2 ≡ index larger 2)
    × (can_write (collapse hashing larger 0 1) 2 ≡ can_write larger 2)
collapse_outside_example =
    collapse_outside hashing larger 0 1 2 larger-WellFormed (omega arith) (omega arith)
      (omega arith) (inr (omega arith))

larger-index : index larger 2 ≡ some (8, 4)
unfolding index
larger-index = refl

path_root-path_for_leaf_example :
    (p : MerklePath) × (path_for_leaf hashing (rehash hashing larger) 2 8 ≡ ok p)
    × (path_root hashing p ≡ expect_root hashing (rehash hashing larger))
path_root-path_for_leaf_example =
    path_root-path_for_leaf hashing larger 2 8 4 larger-WellFormed ((tt, tt), (tt, tt))
      (omega arith) larger-index
