-- ===== src/MerkleTree/Shape.antt =====
-- The shape that `MerkleTreeNode::invariant` asks for, kept by the operations, and the totality of
-- `rehash`.
use midnight_ledger.Prelude.{
  ℕ, zero, suc, ◌+◌, ◌-◌, ◌^◌, min, ◌≡◌, refl, Bool, true, Option, none, some, arith, ltb, leb, ok,
  is_some, if_both,
}
use midnight_ledger.MerkleTree.{
  Hashing, MerkleTreeNode, leaf, collapsed, stub, node, height, try_update_hash, update_stub, root,
  rehash, collapse, collapse_stub, join, join,
}

module _ {ℓ} {A : Type ℓ} where
  -- The children of a node are one level lower.
  abbrev pub WellFormed : MerkleTreeNode A → Type 0
  WellFormed (leaf _ _) = Unit
  WellFormed (collapsed _ _) = Unit
  WellFormed (stub _) = Unit
  WellFormed (node _ l r h) = (height l + 1 ≡ h) × (height r + 1 ≡ h) × WellFormed l × WellFormed r

  pub update_stub-Shape :
      (h i v : ℕ) (a : A) (t : MerkleTreeNode A)
      → update_stub h i v a ≡ ok t
      → (height t ≡ h) × WellFormed t
  unfolding update_stub
  update_stub-Shape zero i v a t e = ground arith
  update_stub-Shape (suc h) i v a t e = grind (arith, update_stub-Shape h)

  pub try_update_hash-Shape :
      (t u : MerkleTreeNode A) (i v : ℕ) (a : A)
      → WellFormed t
      → try_update_hash t i v a ≡ ok u
      → (height u ≡ height t) × WellFormed u
  unfolding try_update_hash
  try_update_hash-Shape (leaf _ _) u i v a w e = ground arith
  try_update_hash-Shape (collapsed _ h) u i v a w e = ground arith
  try_update_hash-Shape (stub h) u i v a w e = update_stub-Shape h i v a u e
  try_update_hash-Shape (node _ l r h) u i v a w e =
      grind (arith, try_update_hash-Shape l, try_update_hash-Shape r)

module _ {ℓ} (H : Hashing) {A : Type ℓ} where
  -- A rehashed tree has a root: the `expect` of the source never fires.
  pub root-rehash : (t : MerkleTreeNode A) → is_some (root H (rehash H t)) ≡ true
  unfolding root rehash
  root-rehash (leaf _ _) = refl
  root-rehash (collapsed _ _) = refl
  root-rehash (stub _) = refl
  root-rehash (node none l r h) = refl
  root-rehash (node (some _) l r h) = refl

  pub rehash-Shape :
      (t : MerkleTreeNode A)
      → WellFormed t
      → (height (rehash H t) ≡ height t) × WellFormed (rehash H t)
  unfolding rehash
  rehash-Shape (leaf _ _) w = (refl, tt)
  rehash-Shape (collapsed _ _) w = (refl, tt)
  rehash-Shape (stub _) w = (refl, tt)
  rehash-Shape (node none l r h) w = ground (arith, rehash-Shape l, rehash-Shape r)
  rehash-Shape (node (some _) l r h) w = (refl, w)

-- What holds of both results of `join` holds of it.
pub join_both {ℓ κ} :
    {A : Type ℓ} (P : MerkleTreeNode A → Type κ) (full : Bool) (whole : ℕ) (hash : Option ℕ)
    (l r : MerkleTreeNode A) (h : ℕ)
    → P (collapsed whole h)
    → P (node hash l r h)
    → P (join full whole hash l r h)
unfolding join
join_both P full whole hash l r h c n = if_both P full c (if_both P _ c n)

module _ {ℓ} {A : Type ℓ} where
  -- Of the height given, and well formed.
  abbrev pub HasShape : ℕ → MerkleTreeNode A → Type 0
  HasShape h t = (height t ≡ h) × WellFormed t

module _ {ℓ} (A : Type ℓ) where
  pub collapse_stub-Shape : (h s e : ℕ) → HasShape h (collapse_stub {A = A} h s e)
  unfolding collapse_stub
  collapse_stub-Shape zero s e = (refl, tt)
  collapse_stub-Shape (suc h) s e =
      let below =
        if_both (HasShape h) (ltb s (2 ^ h)) (collapse_stub-Shape h s (min e (2 ^ h - 1)))
          (refl, tt) in
      let above =
        if_both (HasShape h) (leb (2 ^ h) e) (collapse_stub-Shape h (s - 2 ^ h) (e - 2 ^ h))
          (refl, tt) in
      join_both (HasShape (suc h)) _ _ _ _ _ _ (refl, tt)
        (refl, (omega (arith, below), omega (arith, above), below.1, above.1))

module _ {ℓ} (H : Hashing) {A : Type ℓ} where
  pub collapse-Shape :
      (t : MerkleTreeNode A) (s e : ℕ) → WellFormed t → HasShape (height t) (collapse H t s e)
  unfolding collapse
  collapse-Shape (leaf _ _) s e w = (refl, tt)
  collapse-Shape (collapsed _ _) s e w = (refl, tt)
  collapse-Shape (stub h) s e w = collapse_stub-Shape A h s e
  collapse-Shape (node _ l r h) s e w =
      let (hl, hr, wl, wr) = w in
      let below : HasShape (height l) _ =
        if_both (HasShape (height l)) (ltb s (2 ^ (h - 1)))
          (collapse-Shape l s (min e (2 ^ (h - 1) - 1)) wl) (refl, wl) in
      let above : HasShape (height r) _ =
        if_both (HasShape (height r)) (leb (2 ^ (h - 1)) e)
          (collapse-Shape r (s - 2 ^ (h - 1)) (e - 2 ^ (h - 1)) wr) (refl, wr) in
      join_both (HasShape h) _ _ _ _ _ _ (refl, tt)
        (refl, (omega (arith, below, hl), omega (arith, above, hr), below.1, above.1))
