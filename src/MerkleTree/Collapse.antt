-- ===== src/MerkleTree/Collapse.antt =====
-- What `collapse` keeps: the root, and every index outside the range.
use midnight_ledger.Prelude.{
  ℕ, zero, suc, ◌-◌, ◌^◌, ◌<◌, ◌≤◌, ◌≡◌, refl, min, Bool, true, false, Option, none, some, arith,
  ltb, leb, ◌==◌, if◌then◌else◌, ◌⊎◌, inl, inr, ◌&&◌, sym, ◌∙◌, Bool-cases, ltb→lt, ltb→ge, leb→le,
}
use midnight_ledger.MerkleTree.{
  Hashing, MerkleTreeNode, leaf, collapsed, stub, node, height, is_collapsed, index, join,
  collapse_stub, underflows_stub, underflows, root, expect_root, rehash, collapse,
}
use midnight_ledger.MerkleTree.Shape.{WellFormed, join_both}
use midnight_ledger.MerkleTree.Index.{two_pow_half, two_pow-suc, can_write}

module _ {ℓ} (H : Hashing) {A : Type ℓ} where
  -- The root that rehashing gives: the abstract view of a tree to its users.
  abbrev pub digest : MerkleTreeNode A → ℕ
  digest t = expect_root H (rehash H t)

module _ {ℓ} (H : Hashing) (A : Type ℓ) where
  digest-collapse_stub : (h s e : ℕ) → digest H (collapse_stub {A = A} h s e) ≡ 0
  unfolding root rehash collapse_stub
  digest-collapse_stub zero s e = refl
  digest-collapse_stub (suc h) s e = join_both (λ t. digest H t ≡ 0) _ _ _ _ _ _ refl refl

module _ {ℓ} (H : Hashing) {A : Type ℓ} where
  -- Collapsing leaves the root of the rehashed tree as it was.
  digest-collapse : (t : MerkleTreeNode A) (s e : ℕ) → digest H (collapse H t s e) ≡ digest H t
  unfolding root rehash collapse
  digest-collapse (leaf _ _) s e = refl
  digest-collapse (collapsed _ _) s e = refl
  digest-collapse (stub h) s e = digest-collapse_stub H A h s e
  digest-collapse (node (some x) l r h) s e = join_both (λ t. digest H t ≡ x) _ _ _ _ _ _ refl refl
  digest-collapse (node none l r h) s e =
      join_both (λ t. digest H t ≡ digest H (node none l r h)) _ _ _ _ _ _ refl
        (ground (
          arith,
          digest-collapse l s (min e (2 ^ (h - 1) - 1)),
          digest-collapse r (s - 2 ^ (h - 1)) (e - 2 ^ (h - 1)),
        ))

not_full : (s e n j : ℕ) → j < n → (j < s) ⊎ (e < j) → (s == 0 && e == n - 1) ≡ false
not_full s e n j b out = ground arith

half_outside : (s e j cmp : ℕ) → j < cmp → (j < s) ⊎ (e < j) → (j < s) ⊎ (min e (cmp - 1) < j)
half_outside s e j cmp low (inl p) = inl p
half_outside s e j cmp low (inr p) = inr (omega arith)

shift_outside :
    (s e j cmp : ℕ)
    → cmp ≤ j
    → cmp ≤ e
    → (j < s) ⊎ (e < j)
    → (j - cmp < s - cmp) ⊎ (e - cmp < j - cmp)
shift_outside s e j cmp high far (inl p) = inl (omega arith)
shift_outside s e j cmp high far (inr p) = inr (omega arith)

-- A way to read a tree at an index that sees a collapsed node as `gone` and a stub as `empty`.
module _ {A B : Type 0} (f : MerkleTreeNode A → ℕ → B) (gone empty : B)
    (f-node : (hash : Option ℕ) (l r : MerkleTreeNode A) (h j : ℕ)
      → f (node hash l r h) j ≡ (if ltb j (2 ^ (h - 1)) then f l j else f r (j - 2 ^ (h - 1))))
    (f-collapsed : (x h j : ℕ) → f (collapsed x h) j ≡ gone)
    (f-stub : (h j : ℕ) → f (stub h) j ≡ empty) where
  read-is_collapsed : (t : MerkleTreeNode A) (j : ℕ) → is_collapsed t ≡ true → f t j ≡ gone
  read-is_collapsed (collapsed x h) j e = f-collapsed x h j
  read-is_collapsed (leaf _ _) j e = cc
  read-is_collapsed (stub _) j e = cc
  read-is_collapsed (node _ _ _ _) j e = cc

  read-join :
      (full : Bool) (whole : ℕ) (hash : Option ℕ) (l r : MerkleTreeNode A) (h j : ℕ)
      → full ≡ false
      → f (join full whole hash l r h) j
        ≡ (if ltb j (2 ^ (h - 1)) then f l j else f r (j - 2 ^ (h - 1)))
  unfolding join
  read-join full whole hash l r h j e = ground (
    arith,
    f-node hash l r h j,
    f-collapsed whole h j,
    read-is_collapsed l j,
    read-is_collapsed r (j - 2 ^ (h - 1)),
  )

  read-collapse_stub :
      (h s e j : ℕ)
      → s ≤ e
      → e < 2 ^ h
      → j < 2 ^ h
      → (j < s) ⊎ (e < j)
      → f (collapse_stub h s e) j ≡ empty
  unfolding collapse_stub
  read-collapse_stub zero s e j se b jb out = absurd (omega arith)
  read-collapse_stub (suc h) s e j se b jb out =
      read-join (s == 0 && e == 2 ^ suc h - 1) 0 (some 0) _ _ (suc h) j
        (not_full s e (2 ^ suc h) j jb out)
      ∙ ground (
        arith,
        two_pow-suc h,
        two_pow_half (suc h) h (omega arith),
        f-stub h j,
        f-stub h (j - 2 ^ h),
        read-collapse_stub h s (min e (2 ^ h - 1)) j,
        read-collapse_stub h (s - 2 ^ h) (e - 2 ^ h) (j - 2 ^ h),
      )

  read-collapse :
      (H : Hashing) (t : MerkleTreeNode A) (s e j : ℕ)
      → WellFormed t
      → s ≤ e
      → e < 2 ^ height t
      → j < 2 ^ height t
      → (j < s) ⊎ (e < j)
      → f (collapse H t s e) j ≡ f t j
  unfolding collapse
  read-collapse H (leaf _ _) s e j w se b jb out = absurd (omega arith)
  read-collapse H (collapsed _ _) s e j w se b jb out = refl
  read-collapse H (stub h) s e j w se b jb out =
      read-collapse_stub h s e j se b jb out ∙ sym (f-stub h j)
  read-collapse H (node hash l r h) s e j w se b jb out =
      let cmp = 2 ^ (h - 1) in
      let (hl, hr, wl, wr) = w in
      let (half_l, pred_l) = two_pow_half h (height l) hl in
      let (half_r, pred_r) = two_pow_half h (height r) hr in
      let l' = collapse H l s (min e (cmp - 1)) in
      let r' = collapse H r (s - cmp) (e - cmp) in
      let below : j < cmp → f (if ltb s cmp then l' else l) j ≡ f l j = λ low.
        elim (Bool-cases (ltb s cmp)) [
          | inl p ↦ rw p (
              read-collapse H l s (min e (cmp - 1)) j wl (ground arith) (omega arith) (omega arith)
                (half_outside s e j cmp low out))
          | inr p ↦ rw p refl
        ] in
      let above : cmp ≤ j → f (if leb cmp e then r' else r) (j - cmp) ≡ f r (j - cmp) = λ high.
        elim (Bool-cases (leb cmp e)) [
          | inl p ↦ rw p (
              read-collapse H r (s - cmp) (e - cmp) (j - cmp) wr (omega arith) (ground arith)
                (omega arith) (shift_outside s e j cmp high (leb→le _ _ p) out))
          | inr p ↦ rw p refl
        ] in
      read-join (s == 0 && e == 2 ^ h - 1) _ hash _ _ h j (not_full s e (2 ^ h) j jb out)
      ∙ elim (Bool-cases (ltb j cmp)) [
        | inl low ↦ rw (f-node, low) (below (ltb→lt _ _ low))
        | inr high ↦ rw (f-node, high) (above (ltb→ge _ _ high))
      ]

underflows_stub_in_tree : (h s e : ℕ) → s ≤ e → e < 2 ^ h → underflows_stub h s e ≡ false
unfolding underflows_stub
underflows_stub_in_tree zero s e se b = ground arith
underflows_stub_in_tree (suc h) s e se b = ground (
  arith,
  two_pow-suc h,
  underflows_stub_in_tree h s (min e (2 ^ h - 1)),
  underflows_stub_in_tree h (s - 2 ^ h) (e - 2 ^ h),
)

module _ {ℓ} {A : Type ℓ} where
  underflows_in_tree :
      (t : MerkleTreeNode A) (s e : ℕ)
      → WellFormed t
      → s ≤ e
      → e < 2 ^ height t
      → underflows t s e ≡ false
  unfolding underflows
  underflows_in_tree (leaf _ _) s e w se b = refl
  underflows_in_tree (collapsed _ _) s e w se b = refl
  underflows_in_tree (stub h) s e w se b = underflows_stub_in_tree h s e se b
  underflows_in_tree (node hash l r h) s e (hl, hr, wl, wr) se b =
      let (half_l, pred_l) = two_pow_half h (height l) hl in
      let (half_r, pred_r) = two_pow_half h (height r) hr in
      ground (
        arith,
        underflows_in_tree l s (min e (2 ^ (h - 1) - 1)) wl,
        underflows_in_tree r (s - 2 ^ (h - 1)) (e - 2 ^ (h - 1)) wr,
      )

module _ (H : Hashing) {A : Type 0} (t : MerkleTreeNode A) (s e : ℕ) (shape : WellFormed t)
    (ordered : s ≤ e) (in_tree : e < 2 ^ height t) where
  -- Collapsing a range of indices of a well-formed tree does not panic, and leaves the root of the
  -- rehashed tree as it was.
  pub collapse-digest : (underflows t s e ≡ false) × (digest H (collapse H t s e) ≡ digest H t)
  collapse-digest = (underflows_in_tree t s e shape ordered in_tree, digest-collapse H t s e)

module _ (H : Hashing) {A : Type 0} (t : MerkleTreeNode A) (s e j : ℕ) (shape : WellFormed t)
    (ordered : s ≤ e) (in_tree : e < 2 ^ height t) (j_in_tree : j < 2 ^ height t)
    (outside : (j < s) ⊎ (e < j)) where
  -- Collapsing a range of indices of a well-formed tree changes no index of the tree outside it:
  -- what is read there, and whether an update there can succeed, stay as they were.
  pub collapse_outside :
      (index (collapse H t s e) j ≡ index t j) × (can_write (collapse H t s e) j ≡ can_write t j)
  unfolding index can_write
  collapse_outside = (
    read-collapse index none none (λ _ _ _ _ _. refl) (λ _ _ _. refl) (λ _ _. refl) H t s e j shape
        ordered in_tree j_in_tree outside,
    read-collapse can_write false true (λ _ _ _ _ _. refl) (λ _ _ _. refl) (λ _ _. refl) H t s e j
        shape ordered in_tree j_in_tree outside,
  )
