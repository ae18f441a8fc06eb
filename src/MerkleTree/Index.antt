-- ===== src/MerkleTree/Index.antt =====
-- Reading a tree after an update, and when an update succeeds.
use native.Mathlib.Nat.{pow-suc}
use midnight_ledger.Prelude.{
  ℕ, zero, suc, ◌+◌, ◌-◌, ◌^◌, ◌<◌, ◌≤◌, ◌≡◌, refl, ap, Bool, true, false, Option, none, some,
  arith, ltb, leb, ◌==◌, if◌then◌else◌, ok, err, ◌>>=◌, is_ok, Bool-cases, sym, ◌∙◌, >>=-eq-ok,
  ok-injective, is_ok-bind_ok, inl, inr,
}
use midnight_ledger.MerkleTree.{
  MerkleTreeNode, leaf, collapsed, stub, node, height, index, try_update_hash, update_stub,
  index_out_of_tree,
}
use midnight_ledger.MerkleTree.Shape.{WellFormed}

pub two_pow-suc : (h : ℕ) → 2 ^ suc h ≡ 2 ^ h + 2 ^ h
two_pow-suc h = omega (arith, pow-suc 2 h)

-- The bounds of the two halves of a node of height `h`.
pub two_pow_half : (h k : ℕ) → k + 1 ≡ h → (2 ^ h ≡ 2 ^ k + 2 ^ k) × (2 ^ (h - 1) ≡ 2 ^ k)
two_pow_half h k e =
    let h-eq : h ≡ suc k = omega arith in
    let pred-eq : h - 1 ≡ k = omega arith in (rw h-eq (two_pow-suc k), ap (λ n. 2 ^ n) pred-eq)

pub two_pow_pos : (h : ℕ) → 0 < 2 ^ h
two_pow_pos zero = omega arith
two_pow_pos (suc h) = omega (arith, two_pow-suc h, two_pow_pos h)

ge→leb_false : (a b : ℕ) → b < a → leb a b ≡ false
ge→leb_false a b h = ground arith

pos→ne_zero : (h : ℕ) → 0 < h → (h == 0) ≡ false
pos→ne_zero h p = ground arith

module _ {A : Type 0} where
  index-update_stub :
      (h i j v : ℕ) (a : A) (u : MerkleTreeNode A)
      → j < 2 ^ h
      → update_stub h i v a ≡ ok u
      → index u j ≡ (if i == j then some (v, a) else none)
  unfolding update_stub index
  index-update_stub zero i j v a u b e = ground arith
  index-update_stub (suc h) i j v a u b e = grind (
    arith,
    two_pow-suc h,
    two_pow_half (suc h) h,
    index-update_stub h i j v a,
    index-update_stub h (i - 2 ^ h) (j - 2 ^ h) v a,
  )

  pub try_update_hash_out_of_tree :
      (t : MerkleTreeNode A) (i v : ℕ) (a : A)
      → 2 ^ height t ≤ i
      → try_update_hash t i v a ≡ err (index_out_of_tree i)
  unfolding try_update_hash update_stub
  try_update_hash_out_of_tree (leaf _ _) i v a b = ground arith
  try_update_hash_out_of_tree (collapsed _ h) i v a b = ground arith
  try_update_hash_out_of_tree (stub zero) i v a b = ground arith
  try_update_hash_out_of_tree (stub (suc h)) i v a b = ground arith
  try_update_hash_out_of_tree (node hash l r h) i v a b = ground arith

  pub try_update_hash-bound :
      (t u : MerkleTreeNode A) (i v : ℕ) (a : A) → try_update_hash t i v a ≡ ok u → i < 2 ^ height t
  try_update_hash-bound t u i v a e = ground (arith, try_update_hash_out_of_tree t i v a)

  -- Within the bounds, an update of a node is an update of the half that has the index.
  pub try_update_hash-node :
      (hash : Option ℕ) (l r : MerkleTreeNode A) (h i v : ℕ) (a : A)
      → 0 < h
      → i < 2 ^ h
      → try_update_hash (node hash l r h) i v a ≡ (
          if ltb i (2 ^ (h - 1))
          then (try_update_hash l i v a >>= λ l'. ok (node none l' r h))
          else (try_update_hash r (i - 2 ^ (h - 1)) v a >>= λ r'. ok (node none l r' h)))
  unfolding try_update_hash
  try_update_hash-node hash l r h i v a p b = rw (ge→leb_false _ _ b, pos→ne_zero h p) refl

  pub index-node :
      (hash : Option ℕ) (l r : MerkleTreeNode A) (h j : ℕ)
      → index (node hash l r h) j
        ≡ (if ltb j (2 ^ (h - 1)) then index l j else index r (j - 2 ^ (h - 1)))
  unfolding index
  index-node hash l r h j = refl

  -- After an update of a well-formed tree the new leaf is read at its index, and every other index
  -- of the tree reads as before.
  pub index-try_update_hash :
      (t u : MerkleTreeNode A) (i j v : ℕ) (a : A)
      → WellFormed t
      → j < 2 ^ height t
      → try_update_hash t i v a ≡ ok u
      → index u j ≡ (if i == j then some (v, a) else index t j)
  index-try_update_hash (leaf _ _) u i j v a w b e = unfold try_update_hash index in ground arith
  index-try_update_hash (collapsed _ h) u i j v a w b e = unfold try_update_hash in ground arith
  index-try_update_hash (stub h) u i j v a w b e =
      unfold try_update_hash index in index-update_stub h i j v a u b e
  index-try_update_hash (node hash l r h) u i j v a w b e =
      let (hl, hr, wl, wr) = w in
      let in_tree = try_update_hash-bound (node hash l r h) u i v a e in
      let (half_l, pred_l) = two_pow_half h (height l) hl in
      let (half_r, pred_r) = two_pow_half h (height r) hr in
      let step = try_update_hash-node hash l r h i v a (omega arith) in_tree in
      elim (Bool-cases (ltb i (2 ^ (h - 1)))) [
        | inl low ↦
            let (l', e1, e2) = >>=-eq-ok (try_update_hash l i v a) _ (rw (step, low) at e) in
            let eu : u ≡ node none l' r h = sym (ok-injective e2) in
            rw eu (
              ground (
                arith,
                index-node none l' r h j,
                index-node hash l r h j,
                λ (q : j < 2 ^ height l). index-try_update_hash l l' i j v a wl q e1,
              ))
        | inr high ↦
            let k = i - 2 ^ (h - 1) in
            let m = j - 2 ^ (h - 1) in
            let (r', e1, e2) = >>=-eq-ok (try_update_hash r k v a) _ (rw (step, high) at e) in
            let eu : u ≡ node none l r' h = sym (ok-injective e2) in
            rw eu (
              ground (
                arith,
                index-node none l r' h j,
                index-node hash l r h j,
                λ (q : m < 2 ^ height r). index-try_update_hash r r' k m v a wr q e1,
              ))
      ]

module _ {ℓ} {A : Type ℓ} where
  -- The path to an index does not end in a collapsed node.
  unfoldable pub can_write : MerkleTreeNode A → ℕ → Bool
  can_write (leaf _ _) i = true
  can_write (stub _) i = true
  can_write (collapsed _ _) i = false
  can_write (node _ l r h) i =
      if ltb i (2 ^ (h - 1)) then can_write l i else can_write r (i - 2 ^ (h - 1))

  pub can_write-node :
      (hash : Option ℕ) (l r : MerkleTreeNode A) (h i : ℕ)
      → can_write (node hash l r h) i
        ≡ (if ltb i (2 ^ (h - 1)) then can_write l i else can_write r (i - 2 ^ (h - 1)))
  unfolding can_write
  can_write-node hash l r h i = refl

module _ {A : Type 0} where
  is_ok-update_stub : (h i v : ℕ) (a : A) → i < 2 ^ h → is_ok (update_stub {A = A} h i v a) ≡ true
  unfolding update_stub
  is_ok-update_stub zero i v a b = ground arith
  is_ok-update_stub (suc h) i v a b =
      ground (arith, two_pow-suc h, is_ok-update_stub h i v a, is_ok-update_stub h (i - 2 ^ h) v a)

  -- Within the bounds of a well-formed tree an update succeeds exactly if the path to its index
  -- does not end in a collapsed node.
  pub is_ok-try_update_hash :
      (t : MerkleTreeNode A) (i v : ℕ) (a : A)
      → WellFormed t
      → i < 2 ^ height t
      → is_ok (try_update_hash t i v a) ≡ can_write t i
  is_ok-try_update_hash (leaf _ _) i v a w b = unfold try_update_hash can_write in ground arith
  is_ok-try_update_hash (collapsed _ h) i v a w b = unfold try_update_hash can_write in ground arith
  is_ok-try_update_hash (stub h) i v a w b =
      unfold try_update_hash can_write in is_ok-update_stub h i v a b
  is_ok-try_update_hash (node hash l r h) i v a w b =
      let (hl, hr, wl, wr) = w in
      let (half_l, pred_l) = two_pow_half h (height l) hl in
      let (half_r, pred_r) = two_pow_half h (height r) hr in
      let step = try_update_hash-node hash l r h i v a (omega arith) b in
      elim (Bool-cases (ltb i (2 ^ (h - 1)))) [
        | inl low ↦
            rw (step, can_write-node, low)
              (is_ok-bind_ok (try_update_hash l i v a) (λ l'. node none l' r h)
                ∙ is_ok-try_update_hash l i v a wl (ground arith))
        | inr high ↦
            rw (step, can_write-node, high)
              (is_ok-bind_ok (try_update_hash r (i - 2 ^ (h - 1)) v a) (λ r'. node none l r' h)
                ∙ is_ok-try_update_hash r (i - 2 ^ (h - 1)) v a wr (ground arith))
      ]
