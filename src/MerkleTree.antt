-- ===== src/MerkleTree.antt =====
-- Sparse, fixed-depth Merkle trees (transient-crypto/src/merkle_tree.rs): the node type, the
-- operations on nodes, membership paths and insertion evidence.
--
-- `HashOutput` and `Fr` are numbers. A height is a number; the source's shifts `1 << h` are `2 ^ h`,
-- which do not overflow for the heights below 64 that the program uses. The two hash functions are
-- the fields of `Hashing`, since their computation belongs to third-party curves.
pub mod Shape
pub mod Index
pub mod Collapse
pub mod Membership
pub mod Frontier
pub mod Tests
use mathlib.Core.List.{reverse}
use midnight_ledger.Prelude.{
  ℕ, zero, suc, ◌+◌, ◌-◌, ◌^◌, min, Bool, true, false, ◌&&◌, ◌||◌, not, Option, none, some, List,
  [], ◌∷◌, map, foldl, ltb, leb, ◌==◌, if◌then◌else◌, Result, ok, err, ◌>>=◌, ok_or, unwrap_or,
}

-- `degrade_to_transient` and `transient_hash` of two field elements.
pub record Hashing : Type 0 where
  pub degrade_to_transient : ℕ → ℕ
  pub transient_hash : ℕ → ℕ → ℕ

pub data InvalidUpdate : Type 0 where
  collapsed_index : ℕ → ℕ → InvalidUpdate
  index_out_of_tree : ℕ → InvalidUpdate
  bad_update_path : InvalidUpdate

pub data MerkleTreeNode {ℓ} (A : Type ℓ) : Type ℓ where
  leaf : ℕ → A → MerkleTreeNode A
  collapsed : ℕ → ℕ → MerkleTreeNode A
  stub : ℕ → MerkleTreeNode A
  node : Option ℕ → MerkleTreeNode A → MerkleTreeNode A → ℕ → MerkleTreeNode A

-- An entry of `TreeInsertionPath`: the hash of the element along the path, and the side taken.
pub record TreeInsertionPathEntry : Type 0 where
  pub hash : Option ℕ
  pub goes_left : Bool

pub record TreeInsertionPath {ℓ} (A : Type ℓ) : Type ℓ where
  pub leaf : ℕ × A
  pub path : List TreeInsertionPathEntry

pub record MerklePathEntry : Type 0 where
  pub sibling : ℕ
  pub goes_left : Bool

-- A path to a leaf, from the leaf up. The leaf is kept by its hash.
pub record MerklePath : Type 0 where
  pub leaf_hash : ℕ
  pub path : List MerklePathEntry

-- `InvalidIndex`, and a branch that the source marks as unreachable.
pub data PathError : Type 0 where
  invalid_index : ℕ → PathError
  unreachable : PathError

-- `collect` over the entries, which stops at a sibling with no hash.
unfoldable pub collect_entries :
    ℕ → List (Option ℕ × Bool) → Result PathError (List MerklePathEntry)
collect_entries ix [] = ok []
collect_entries ix ((hash, left) ∷ rest) = do
  sibling ← ok_or hash (invalid_index ix)
  entries ← collect_entries ix rest
  ok (record { sibling = sibling; goes_left = left } ∷ entries)

-- Whether `collapse` with a range reaches a stub of height 0 that the range does not cover, where
-- the source panics.
unfoldable pub underflows_stub : ℕ → ℕ → ℕ → Bool
underflows_stub zero start end = not (start == 0 && end == 0)
underflows_stub (suc h) start end =
    let cmp = 2 ^ h in
    let below = underflows_stub h start (min end (cmp - 1)) in
    let above = underflows_stub h (start - cmp) (end - cmp) in
    if start == 0 && end == 2 ^ suc h - 1
    then false
    else (ltb start cmp && below) || (leb cmp end && above)

module _ {ℓ} {A : Type ℓ} where
  abbrev pub height : MerkleTreeNode A → ℕ
  height (leaf _ _) = 0
  height (collapsed _ h) = h
  height (stub h) = h
  height (node _ _ _ h) = h

  abbrev pub is_collapsed : MerkleTreeNode A → Bool
  is_collapsed (collapsed _ _) = true
  is_collapsed _ = false

  -- The end of `collapse`: one collapsed node with the old root if the range covers the node or
  -- both halves are collapsed, else the node of the new halves.
  unfoldable pub join :
      Bool → ℕ → Option ℕ → MerkleTreeNode A → MerkleTreeNode A → ℕ → MerkleTreeNode A
  join full whole hash l r h =
      if full
      then collapsed whole h
      else if is_collapsed l && is_collapsed r
      then collapsed whole h
      else node hash l r h

  -- `collapse` on a stub. A stub of height 0 has only the range 0 to 0: with any other the source
  -- panics, when it subtracts 1 from the height, and the result here stands for none
  -- (`underflows_stub`).
  unfoldable pub collapse_stub : ℕ → ℕ → ℕ → MerkleTreeNode A
  collapse_stub zero start end = collapsed 0 0
  collapse_stub (suc h) start end =
      let cmp = 2 ^ h in
      let below = collapse_stub h start (min end (cmp - 1)) in
      let above = collapse_stub h (start - cmp) (end - cmp) in
      join (start == 0 && end == 2 ^ suc h - 1) 0 (some 0) (if ltb start cmp then below else stub h)
        (if leb cmp end then above else stub h) (suc h)

  unfoldable pub underflows : MerkleTreeNode A → ℕ → ℕ → Bool
  underflows (leaf _ _) start end = false
  underflows (collapsed _ _) start end = false
  underflows (stub h) start end = underflows_stub h start end
  underflows (node _ l r h) start end =
      let cmp = 2 ^ (h - 1) in
      let below = underflows l start (min end (cmp - 1)) in
      let above = underflows r (start - cmp) (end - cmp) in
      if start == 0 && end == 2 ^ h - 1
      then false
      else (ltb start cmp && below) || (leb cmp end && above)

  abbrev pub blank : ℕ → MerkleTreeNode A
  blank h = stub h

  unfoldable pub index : MerkleTreeNode A → ℕ → Option (ℕ × A)
  index (leaf h a) i = some (h, a)
  index (collapsed _ _) i = none
  index (stub _) i = none
  index (node _ l r h) i =
      let cmp = 2 ^ (h - 1) in
      let below = index l i in let above = index r (i - cmp) in if ltb i cmp then below else above

  -- `try_update_hash` on a stub, which it splits on the way down.
  unfoldable pub update_stub : ℕ → ℕ → ℕ → A → Result InvalidUpdate (MerkleTreeNode A)
  update_stub zero i v a = if leb 1 i then err (index_out_of_tree i) else ok (leaf v a)
  update_stub (suc h) i v a =
      let cmp = 2 ^ h in
      let below = (do l ← update_stub h i v a; ok (node none l (stub h) (suc h))) in
      let above = (do r ← update_stub h (i - cmp) v a; ok (node none (stub h) r (suc h))) in
      if leb (2 ^ suc h) i then err (index_out_of_tree i) else if ltb i cmp then below else above

  unfoldable pub try_update_hash :
      MerkleTreeNode A → ℕ → ℕ → A → Result InvalidUpdate (MerkleTreeNode A)
  try_update_hash (leaf _ _) i v a = if leb 1 i then err (index_out_of_tree i) else ok (leaf v a)
  try_update_hash (collapsed _ h) i v a =
      if leb (2 ^ h) i then err (index_out_of_tree i) else err (collapsed_index i h)
  try_update_hash (stub h) i v a = update_stub h i v a
  try_update_hash (node _ l r h) i v a =
      let cmp = 2 ^ (h - 1) in
      let below = (do l' ← try_update_hash l i v a; ok (node none l' r h)) in
      let above = (do r' ← try_update_hash r (i - cmp) v a; ok (node none l r' h)) in
      if leb (2 ^ h) i
      then err (index_out_of_tree i)
      else if h == 0
      then ok (leaf v a)
      else if ltb i cmp
      then below
      else above

  -- The walk of `path_for_index_internal` from the root down: what it pushes at each node (the root
  -- of the sibling, or of the node itself), and whether it went left.
  -- `root` is passed in, since it is the only use of the hashes.
  unfoldable pub path_for_index_internal :
      (MerkleTreeNode A → Option ℕ)
      → Bool
      → ℕ
      → MerkleTreeNode A
      → ℕ
      → Result PathError (List (Option ℕ × Bool))
  path_for_index_internal root siblings ix (leaf h a) i =
      if siblings then err unreachable else ok ((root (leaf h a), i == 0) ∷ [])
  path_for_index_internal root siblings ix (stub h) i = err (invalid_index ix)
  path_for_index_internal root siblings ix (collapsed hash h) i =
      if ltb 1 h
      then err (invalid_index ix)
      else if siblings
      then err unreachable
      else ok ((root (collapsed hash h), i == 0) ∷ [])
  path_for_index_internal root siblings ix (node hash l r h) i =
      let cmp = 2 ^ (h - 1) in
      let at = root (node hash l r h) in
      let below = path_for_index_internal root siblings ix l i in
      let above = path_for_index_internal root siblings ix r (i - cmp) in
      if ltb 1 h
      then (if ltb i cmp
          then (do rest ← below; ok ((if siblings then root r else at, true) ∷ rest))
          else (do rest ← above; ok ((if siblings then root l else at, false) ∷ rest)))
      else if siblings
      then (if i == 0
          then ok ((root r, true) ∷ [])
          else if i == 1
          then ok ((root l, false) ∷ [])
          else err unreachable)
      else ok ((at, i == 0) ∷ [])

module _ {ℓ} (H : Hashing) {A : Type ℓ} where
  unfoldable pub root : MerkleTreeNode A → Option ℕ
  root (leaf h _) = some (H.degrade_to_transient h)
  root (stub _) = some 0
  root (collapsed h _) = some h
  root (node hash _ _ _) = hash

  -- The source's `root().expect(..)`: `Shape.root-rehash` shows that the default is never taken.
  abbrev pub expect_root : MerkleTreeNode A → ℕ
  expect_root t = unwrap_or (root t) 0

  unfoldable pub rehash : MerkleTreeNode A → MerkleTreeNode A
  rehash (node none l r h) =
      let l' = rehash l in
      let r' = rehash r in node (some (H.transient_hash (expect_root l') (expect_root r'))) l' r' h
  rehash t = t

  -- The result where the source does not panic (`underflows`).
  unfoldable pub collapse : MerkleTreeNode A → ℕ → ℕ → MerkleTreeNode A
  collapse (leaf h _) start end = collapsed (H.degrade_to_transient h) 0
  collapse (collapsed hash h) start end = collapsed hash h
  collapse (stub h) start end = collapse_stub h start end
  collapse (node hash l r h) start end =
      let cmp = 2 ^ (h - 1) in
      let below = collapse l start (min end (cmp - 1)) in
      let above = collapse r (start - cmp) (end - cmp) in
      join (start == 0 && end == 2 ^ h - 1) (expect_root (rehash (node hash l r h))) hash
        (if ltb start cmp then below else l) (if leb cmp end then above else r) h

  unfoldable pub path_for_leaf : MerkleTreeNode A → ℕ → ℕ → Result PathError MerklePath
  path_for_leaf t ix leaf_hash =
      if height t == 0
      then (if ix == 0
          then ok (record { leaf_hash = leaf_hash; path = [] })
          else err (invalid_index ix))
      else do
        walked ← path_for_index_internal root true ix t ix
        entries ← collect_entries ix (reverse walked)
        ok (record { leaf_hash = leaf_hash; path = entries })

  unfoldable pub insertion_evidence : MerkleTreeNode A → ℕ → Result PathError (TreeInsertionPath A)
  insertion_evidence t ix = if height t == 0 then err (invalid_index ix) else do
    walked ← path_for_index_internal root false ix t ix
    found ← ok_or (index t ix) (invalid_index ix)
    ok (record {
      leaf = found;
      path = reverse (map (λ p. record { hash = p.0; goes_left = p.1 }) walked);
    })

  -- `update_from_evidence_internal`, on the path read from its last entry.
  unfoldable pub update_from_evidence_internal :
      MerkleTreeNode A
      → ℕ × A
      → List TreeInsertionPathEntry
      → Result InvalidUpdate (MerkleTreeNode A)
  update_from_evidence_internal (collapsed _ h) new [] =
      ok (collapsed (H.degrade_to_transient new.0) h)
  update_from_evidence_internal (collapsed _ h) new (entry ∷ _) = do
    hash ← ok_or entry.hash bad_update_path
    ok (collapsed hash h)
  update_from_evidence_internal (node _ l r h) new [] = ok (leaf new.0 new.1)
  update_from_evidence_internal (node _ l r h) new (entry ∷ path) =
      let below = (do l' ← update_from_evidence_internal l new path; ok (node none l' r h)) in
      let above = (do r' ← update_from_evidence_internal r new path; ok (node none l r' h)) in
      if entry.goes_left then below else above
  update_from_evidence_internal _ new [] = ok (leaf new.0 new.1)
  update_from_evidence_internal _ new (_ ∷ _) = err bad_update_path

  unfoldable pub update_from_evidence :
      MerkleTreeNode A → TreeInsertionPath A → Result InvalidUpdate (MerkleTreeNode A)
  update_from_evidence t insertion =
      update_from_evidence_internal t insertion.leaf (reverse insertion.path)

module _ (H : Hashing) where
  -- One step of the fold in `MerklePath::root`.
  abbrev pub combine : ℕ → MerklePathEntry → ℕ
  combine acc entry =
      if entry.goes_left
      then H.transient_hash acc entry.sibling
      else H.transient_hash entry.sibling acc

  -- `MerklePath::root`
  unfoldable pub path_root : MerklePath → ℕ
  path_root p = foldl combine (H.degrade_to_transient p.leaf_hash) p.path
