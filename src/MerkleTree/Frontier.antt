-- ===== src/MerkleTree/Frontier.antt =====
-- What an append-only tree needs of merkle_tree.rs: that the indices from the first free one on stay
-- writable and empty under updates, `collapse` and `rehash`.
use midnight_ledger.Prelude.{
  ℕ, zero, suc, ◌+◌, ◌-◌, ◌^◌, ◌<◌, ◌≤◌, ◌≡◌, refl, true, none, some, arith, ltb, ok, Bool-cases,
  sym, ◌∙◌, >>=-eq-ok, ok-injective, inl, inr,
}
use midnight_ledger.MerkleTree.{
  Hashing, MerkleTreeNode, leaf, collapsed, stub, node, height, index, try_update_hash, update_stub,
  collapse, rehash,
}
use midnight_ledger.MerkleTree.Shape.{
  WellFormed, HasShape, try_update_hash-Shape, collapse-Shape, rehash-Shape,
}
use midnight_ledger.MerkleTree.Index.{
  can_write, can_write-node, two_pow_half, two_pow-suc, try_update_hash-bound, try_update_hash-node,
  index-try_update_hash,
}
use midnight_ledger.MerkleTree.Collapse.{collapse_outside}
use midnight_ledger.MerkleTree.Membership.{index-rehash}

module _ {A : Type 0} where
  can_write-update_stub :
      (h i j v : ℕ) (a : A) (u : MerkleTreeNode A)
      → j < 2 ^ h
      → update_stub h i v a ≡ ok u
      → can_write u j ≡ true
  unfolding update_stub can_write
  can_write-update_stub zero i j v a u b e = ground arith
  can_write-update_stub (suc h) i j v a u b e = grind (
    arith,
    two_pow-suc h,
    two_pow_half (suc h) h,
    can_write-update_stub h i j v a,
    can_write-update_stub h (i - 2 ^ h) (j - 2 ^ h) v a,
  )

  -- An update keeps every index writable that was.
  can_write-try_update_hash :
      (t u : MerkleTreeNode A) (i j v : ℕ) (a : A)
      → WellFormed t
      → j < 2 ^ height t
      → try_update_hash t i v a ≡ ok u
      → can_write t j ≡ true
      → can_write u j ≡ true
  can_write-try_update_hash (leaf _ _) u i j v a w b e c =
      unfold try_update_hash can_write in ground arith
  can_write-try_update_hash (collapsed _ h) u i j v a w b e c =
      unfold try_update_hash in ground arith
  can_write-try_update_hash (stub h) u i j v a w b e c =
      unfold try_update_hash in can_write-update_stub h i j v a u b e
  can_write-try_update_hash (node hash l r h) u i j v a w b e c =
      let (hl, hr, wl, wr) = w in
      let in_tree = try_update_hash-bound (node hash l r h) u i v a e in
      let (half_l, pred_l) = two_pow_half h (height l) hl in
      let (half_r, pred_r) = two_pow_half h (height r) hr in
      let step = try_update_hash-node hash l r h i v a (omega arith) in_tree in
      elim (Bool-cases (ltb i (2 ^ (h - 1)))) [
        | inl low ↦
            let (l', e1, e2) = >>=-eq-ok (try_update_hash l i v a) _ (rw (step, low) at e) in
            let eu : u ≡ node none l' r h = sym (ok-injective e2) in
            rw eu (
              ground (
                arith,
                can_write-node none l' r h j,
                can_write-node hash l r h j,
                λ (q : j < 2 ^ height l). can_write-try_update_hash l l' i j v a wl q e1,
              ))
        | inr high ↦
            let k = i - 2 ^ (h - 1) in
            let m = j - 2 ^ (h - 1) in
            let (r', e1, e2) = >>=-eq-ok (try_update_hash r k v a) _ (rw (step, high) at e) in
            let eu : u ≡ node none l r' h = sym (ok-injective e2) in
            rw eu (
              ground (
                arith,
                can_write-node none l r' h j,
                can_write-node hash l r h j,
                λ (q : m < 2 ^ height r). can_write-try_update_hash r r' k m v a wr q e1,
              ))
      ]

  can_write-rehash :
      (H : Hashing) (t : MerkleTreeNode A) (j : ℕ) → can_write (rehash H t) j ≡ can_write t j
  unfolding rehash can_write
  can_write-rehash H (leaf _ _) j = refl
  can_write-rehash H (collapsed _ _) j = refl
  can_write-rehash H (stub _) j = refl
  can_write-rehash H (node none l r h) j =
      ground (arith, can_write-rehash H l j, can_write-rehash H r (j - 2 ^ (h - 1)))
  can_write-rehash H (node (some _) l r h) j = refl

  -- A tree of height `h`, of which the indices from `first_free` on are empty and writable.
  pub record IsFrontier (h first_free : ℕ) (t : MerkleTreeNode A) : Type 0 where
    pub shape : HasShape h t
    pub writable : (j : ℕ) → first_free ≤ j → j < 2 ^ h → can_write t j ≡ true
    pub empty : (j : ℕ) → first_free ≤ j → j < 2 ^ h → index t j ≡ none

  pub IsFrontier-blank : (h : ℕ) → IsFrontier h 0 (stub h)
  unfolding can_write index
  IsFrontier-blank h = record {
    shape = (refl, tt);
    writable = λ _ _ _. refl;
    empty = λ _ _ _. refl;
  }

  pub IsFrontier-rehash :
      (H : Hashing) (h n : ℕ) (t : MerkleTreeNode A)
      → IsFrontier h n t
      → IsFrontier h n (rehash H t)
  IsFrontier-rehash H h n t f =
      let (high, well) = f.shape in
      let (high', well') = rehash-Shape H t well in
      record {
        shape = (high' ∙ high, well');
        writable = λ j p q. can_write-rehash H t j ∙ f.writable j p q;
        empty = λ j p q. index-rehash H t j ∙ f.empty j p q;
      }

  -- Writing the first free index moves the frontier by one.
  pub IsFrontier-update :
      (h n v : ℕ) (a : A) (t u : MerkleTreeNode A)
      → IsFrontier h n t
      → try_update_hash t n v a ≡ ok u
      → IsFrontier h (n + 1) u
  IsFrontier-update h n v a t u f e =
      let (high, well) = f.shape in
      let (high', well') = try_update_hash-Shape t u n v a well e in
      let in_tree : (j : ℕ) → j < 2 ^ h → j < 2 ^ height t = λ j q. rw high q in
      record {
        shape = (high' ∙ high, well');
        writable = λ j p q.
            can_write-try_update_hash t u n j v a well (in_tree j q) e
              (f.writable j (omega arith) q);
        empty = λ j p q.
            ground (arith, index-try_update_hash t u n j v a well (in_tree j q) e, f.empty j);
      }

  -- Collapsing the last index written keeps the frontier.
  pub IsFrontier-collapse :
      (H : Hashing) (h n : ℕ) (t : MerkleTreeNode A)
      → n < 2 ^ h
      → IsFrontier h (n + 1) t
      → IsFrontier h (n + 1) (collapse H t n n)
  IsFrontier-collapse H h n t b f =
      let (high, well) = f.shape in
      let (high', well') = collapse-Shape H t n n well in
      let kept = λ (j : ℕ) (p : n + 1 ≤ j) (q : j < 2 ^ h).
        (collapse_outside H t n n j well (omega arith) (rw high b) (rw high q)
          (inr (omega arith))) in
      record {
        shape = (high' ∙ high, well');
        writable = λ j p q. (kept j p q).1 ∙ f.writable j p q;
        empty = λ j p q. (kept j p q).0 ∙ f.empty j p q;
      }
